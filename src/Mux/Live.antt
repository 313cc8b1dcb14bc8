-- ===== src/Mux/Live.antt =====
-- The streams that the peer delegates, which it could open without end: how many live at once.
use capsudo_rs.Base.{
  ℕ, ◌+◌, ◌-◌, ◌/◌, ◌≤◌, ◌≡◌, refl, sym, ◌∙◌, Bool, true, false, not, List, Option, none, some,
  arith, ltb, leb, subst, ltb→ge, length, if◌then◌else◌, Bool-cases, Option-cases, inl, inr,
}
use capsudo_rs.Base.Assoc.{get, modify}
use capsudo_rs.Proto.Defs.{Message}
use capsudo_rs.Mux.Defs.{mux_header, max_live_streams, CtrlItem}
use capsudo_rs.Mux.Stream.{Sink, has_room}
use capsudo_rs.Mux.Flow.{Flow, take_hello, queue_limit}
use capsudo_rs.Mux.Frames.{Frame, decode_message, decode_u32}
use capsudo_rs.Mux.Fds.{decode_fds, length-decode_fds-le}
use capsudo_rs.Mux.Reader.{
  Reading, drop_slot, pump_stops, materialize_all, hand_ends, hand_up, control_arm, into_sink,
  to_inbound, count_in, hello_arm, window_arm, ReaderTurn, goes, stops, waits, fds_arm, data_arm,
  close_arm, on_frame, owe_undelivered, start_reading,
}
use capsudo_rs.Mux.Slots.{
  Shared, IsCounted, SameSlots, SameSlots-IsCounted, remove-Shared, modify-Shared,
  materialize_all-IsCounted,
}

-- A property of the state that a frame leaves behind.
abbrev pub Leaves : (Reading → Type 0) → ReaderTurn → Type 0
Leaves P (goes s) = P s
Leaves P (stops s) = P s
Leaves P waits = Unit

-- The streams that live are counted, and are few.
abbrev pub IsLive : Reading → Type 0
IsLive s = IsCounted s × (s.live ≤ max_live_streams)

SameSlots-IsLive : (s s' : Reading) → SameSlots s s' → IsLive s → IsLive s'
SameSlots-IsLive s s' same (v, few) = (SameSlots-IsCounted s s' same v, omega (arith, same.0))

Leaves-if :
    (b : Bool) (x y : ReaderTurn)
    → Leaves IsLive x
    → Leaves IsLive y
    → Leaves IsLive (if b then x else y)
Leaves-if true x y h k = h
Leaves-if false x y h k = k

hand_up-IsLive : (item : CtrlItem) (s : Reading) → IsLive s → Leaves IsLive (hand_up item s)
hand_up-IsLive item s v = Leaves-if s.ctrl_open _ _ (SameSlots-IsLive s _ (refl, refl, refl) v) v

hand_ends-IsLive : (p : Option (List ℕ) × Reading) → IsLive p.1 → Leaves IsLive (hand_ends p)
hand_ends-IsLive (none, s) v = v
hand_ends-IsLive (some ends, s) v = hand_up-IsLive (CtrlItem.fds ends) s v

fds_arm-IsLive : (payload : List ℕ) (s : Reading) → IsLive s → Leaves IsLive (fds_arm payload s)
unfolding fds_arm
fds_arm-IsLive payload s (v, few) =
    elim (Bool-cases (ltb max_live_streams (s.live + length payload / 5))) [
      | inl many ↦ rw many (v, few)
      | inr fits ↦
          let (kept, more) = materialize_all-IsCounted (decode_fds payload) s v in
          let bound = ltb→ge max_live_streams (s.live + length payload / 5) fits in
          rw fits (
            hand_ends-IsLive (materialize_all (decode_fds payload) s)
              (kept, omega (arith, bound, length-decode_fds-le payload)))
    ]

owe_undelivered-IsLive : (id cost : ℕ) (s : Reading) → IsLive s → IsLive (owe_undelivered id cost s)
unfolding owe_undelivered
owe_undelivered-IsLive id cost s v =
    SameSlots-IsLive s _ (ground arith, ground arith, ground arith) v

into_sink-IsLive :
    (id : ℕ) (payload : List ℕ) (cell : ℕ) (o : Option Sink) (s : Reading)
    → IsLive s
    → Leaves IsLive (into_sink id payload cell o s)
into_sink-IsLive id payload cell none s v = v
into_sink-IsLive id payload cell (some k) s v =
    let counted : Reading = record s { sinks = modify cell (count_in payload) s.sinks } in
    let still : IsLive counted = SameSlots-IsLive s counted (refl, refl, refl) v in
    let cost = mux_header + length payload in
    let owing = owe_undelivered id cost counted in
    Leaves-if (not (has_room cost (queue_limit s.flow) k)) waits
      (if k.closed then goes owing else goes counted) tt
      (Leaves-if k.closed (goes owing) (goes counted) (owe_undelivered-IsLive id cost counted still)
        still)

to_inbound-IsLive :
    (id : ℕ) (payload : List ℕ) (o : Option ℕ) (s : Reading)
    → IsLive s
    → Leaves IsLive (to_inbound id payload o s)
to_inbound-IsLive id payload none s v = owe_undelivered-IsLive id (mux_header + length payload) s v
to_inbound-IsLive id payload (some cell) s v =
    into_sink-IsLive id payload cell (get cell s.sinks) s v

data_arm-IsLive :
    (id : ℕ) (payload : List ℕ) (s : Reading) → IsLive s → Leaves IsLive (data_arm id payload s)
unfolding data_arm owe_undelivered
data_arm-IsLive id payload s v =
    Leaves-if (ltb (queue_limit s.flow) (mux_header + length payload)) (stops s)
      (to_inbound id payload (get id s.streams) s) v
      (to_inbound-IsLive id payload (get id s.streams) s v)

control_arm-IsLive : (o : Option Message) (s : Reading) → IsLive s → Leaves IsLive (control_arm o s)
control_arm-IsLive none s v = v
control_arm-IsLive (some m) s v = hand_up-IsLive (CtrlItem.control m) s v

close_arm-IsLive : (id : ℕ) (s : Reading) → IsLive s → IsLive (close_arm id s)
unfolding close_arm
close_arm-IsLive id s v = SameSlots-IsLive s _ (ground arith, ground arith, ground arith) v

hello_arm-IsLive : (p : Bool × Flow) (s : Reading) → IsLive s → Leaves IsLive (hello_arm p s)
hello_arm-IsLive (false, f) s v = SameSlots-IsLive s _ (refl, refl, refl) v
hello_arm-IsLive (true, f) s v = SameSlots-IsLive s _ (refl, refl, refl) v

window_arm-IsLive : (id : ℕ) (o : Option ℕ) (s : Reading) → IsLive s → IsLive (window_arm id o s)
window_arm-IsLive id none s v = v
window_arm-IsLive id (some n) s v = SameSlots-IsLive s _ (refl, refl, refl) v

on_frame-IsLive : (f : Frame) (s : Reading) → IsLive s → Leaves IsLive (on_frame f s)
unfolding on_frame
on_frame-IsLive f s v =
    search
      (
        Leaves-if,
        control_arm-IsLive (decode_message f.payload) s v,
        fds_arm-IsLive f.payload s v,
        data_arm-IsLive f.id f.payload s v,
        close_arm-IsLive f.id s v,
        hello_arm-IsLive (take_hello s.flow f.payload) s v,
        window_arm-IsLive f.id (decode_u32 f.payload) s v,
        v,
      )
      depth 9

pump_stops-IsLive : (slot : ℕ) (s : Reading) → IsLive s → IsLive (pump_stops slot s)
unfolding pump_stops drop_slot
pump_stops-IsLive slot s (v, few) = elim (Option-cases (get slot s.slots)) [
  | inl none_there ↦ rw (none_there, pump_stops) (v, few)
  | inr (pumps, there) ↦ elim (Bool-cases (leb pumps 1)) [
    | inl last ↦
        let (len, kept) = remove-Shared slot s.next_slot pumps s.slots v.shared there in
        rw (there, last, pump_stops)
          (record { counted = omega (arith, len, v.counted); shared = kept }, omega arith)
    | inr shared ↦
        let (len, kept) =
          modify-Shared slot s.next_slot (λ n. n - 1) s.slots (λ p e. ground arith) v.shared in
        rw (there, shared, pump_stops)
          (record { counted = v.counted ∙ sym len; shared = kept }, few)
  ]
]

-- What can happen between a reader's start and any later moment: it takes a frame and
-- goes on or ends there, a pump stops, or the pumps, the writer and the session change queues, credit and what is handed up.
pub data Happens (s : Reading) : Reading → Type 0 where
  takes : (f : Frame) (t : Reading) → on_frame f s ≡ goes t → Happens s t
  ends : (f : Frame) (t : Reading) → on_frame f s ≡ stops t → Happens s t
  stopped : (slot : ℕ) → Happens s (pump_stops slot s)
  moves :
      (flow : Flow) (streams : List (ℕ × ℕ)) (sinks : List (ℕ × Sink)) (ctrl : List CtrlItem)
      → Happens s (record s { flow = flow; streams = streams; sinks = sinks; ctrl = ctrl })

pub data Comes (window : ℕ) (sockets : List (Option (ℕ × ℕ))) : Reading → Type 0 where
  begins : Comes window sockets (start_reading window sockets)
  then_happens : {s t : Reading} → Comes window sockets s → Happens s t → Comes window sockets t

Happens-IsLive : {s t : Reading} → Happens s t → IsLive s → IsLive t
Happens-IsLive {s} (takes f t e) v = subst (Leaves IsLive) e (on_frame-IsLive f s v)
Happens-IsLive {s} (ends f t e) v = subst (Leaves IsLive) e (on_frame-IsLive f s v)
Happens-IsLive {s} (stopped slot) v = pump_stops-IsLive slot s v
Happens-IsLive {s} (moves flow streams sinks ctrl) v = SameSlots-IsLive s _ (refl, refl, refl) v

Comes-counts :
    {window : ℕ} {sockets : List (Option (ℕ × ℕ))} {s : Reading} → Comes window sockets s → IsLive s
unfolding start_reading
Comes-counts begins = (record { counted = refl; shared = tt }, omega arith)
Comes-counts (then_happens r h) = Happens-IsLive h (Comes-counts r)

-- However the peer and the pumps behave, never more than 8 streams that the peer delegated live at
-- once, and the count of live streams is exactly the number of those that a pump still serves: a
-- stream that failed to start, which ends the reader, or whose last pump has stopped, has given its
-- place back.
pub Comes-IsLive :
    {window : ℕ} {sockets : List (Option (ℕ × ℕ))} {s : Reading}
    → Comes window sockets s
    → (s.live ≤ max_live_streams) × (s.live ≡ length s.slots) × Shared s.next_slot s.slots
Comes-IsLive r = let (v, few) = Comes-counts r in (few, v.counted, v.shared)
