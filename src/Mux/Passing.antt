-- ===== src/Mux/Passing.antt =====
-- Descriptor passing: what a frame of delegated descriptors becomes at the receiving end.
use capsudo_rs.Base.{
  ℕ, ◌+◌, ◌/◌, ◌≤◌, ◌≡◌, refl, ap, ◌∙◌, true, List, [], ◌∷◌, ◌++◌, Option, some, arith, ltb, ge→ltb,
  ◌==◌, length, All, if◌then◌else◌, false, inl, inr, Bool-cases, subst, ==→eq,
}
use mathlib.Core.Option
use capsudo_rs.Base.Bytes.{IsU32}
use capsudo_rs.Base.Int.{pos}
use capsudo_rs.Base.Assoc.{get, get-insert}
use capsudo_rs.Transport.Defs.{FdDir, invert, reads, writes}
use capsudo_rs.Mux.Defs.{kind_fds, max_live_streams, CtrlItem}
use capsudo_rs.Mux.Fds.{encode_fds, decode_fds-encode_fds, length-encode_fds}
use capsudo_rs.Mux.Flow.{Flow, open_stream}
use capsudo_rs.Mux.Stream.{Progress, Sink, open_sink}
use capsudo_rs.Mux.Reader.{
  Reading, open_inbound, take_slot, start_pumps, with_socket, materialize_stream, add_end,
  materialize_all, goes, on_frame,
}

-- A queue that a pump reads, with nothing in it.
abbrev pub HasQueue : ℕ → List (ℕ × Sink) → Type 0
HasQueue cell sinks =
    (k : Sink) × (get cell sinks ≡ some k) × (k.queue ≡ []) × (k.queued ≡ 0) × (k.closed ≡ false)

-- A stream's credit and counters, of which nothing is sent and which is not done.
abbrev pub HasProgress : ℕ → List (ℕ × Progress) → Type 0
HasProgress cell cells =
    (p : Progress) × (get cell cells ≡ some p) × (p.sent ≡ 0) × (p.done ≡ false)

-- The id of a stream that finds a queue, and of one that a pump here reads.
abbrev pub IsRead : ℕ → Reading → Type 0
IsRead id s = (cell : ℕ) × (get id s.streams ≡ some cell) × HasQueue cell s.sinks

abbrev pub IsWritten : ℕ → Flow → Type 0
IsWritten id f = (cell : ℕ) × (get id f.progress ≡ some cell) × HasProgress cell f.cells

-- A delegated stream, by the direction in which its sender uses the descriptor: what the sender
-- reads finds a queue here, and what the sender writes is pumped here, under a grant's id.
abbrev pub IsRouted : Reading → ℕ × FdDir → Type 0
IsRouted s (id, FdDir.read) = IsRead id s
IsRouted s (id, FdDir.write) = IsWritten id s.flow
IsRouted s (id, FdDir.read_write) = IsRead id s × IsWritten id s.flow

abbrev Grows : Reading → Reading → Type 0
Grows s t =
    ((k : ℕ) → IsRead k s → IsRead k t) × ((k : ℕ) → IsWritten k s.flow → IsWritten k t.flow)

open_inbound-HasQueue :
    (id cell : ℕ) (s : Reading) → HasQueue cell s.sinks → HasQueue cell (open_inbound id s).sinks
unfolding open_inbound open_sink get
open_inbound-HasQueue id cell s (k, e, q, n, c) = elim (Bool-cases (s.next_sink == cell)) [
  | inl same ↦ (open_sink id, rw same refl, refl, refl, refl)
  | inr other ↦ (k, rw other e, q, n, c)
]

open_inbound-IsRead : (id : ℕ) (s : Reading) → IsRead id (open_inbound id s)
unfolding open_inbound open_sink get
open_inbound-IsRead id s = (
  s.next_sink,
  ground (arith, get-insert id id s.next_sink s.streams),
  (open_sink id, ground arith, refl, refl, refl),
)

open_inbound-Grows : (id k : ℕ) (s : Reading) → IsRead k s → IsRead k (open_inbound id s)
unfolding open_inbound
open_inbound-Grows id k s (cell, e, h) = elim (Bool-cases (id == k)) [
  | inl same ↦
      subst (λ i. IsRead i (open_inbound id s)) (==→eq id k same) (open_inbound-IsRead id s)
  | inr other ↦ (
    cell,
    ground (arith, get-insert id k s.next_sink s.streams),
    open_inbound-HasQueue id cell s h,
  )
]

abbrev opened : ℕ → Flow → Progress
opened ours f = record {
  available = pos (if f.peer_windowed then f.peer_window else 0);
  socket = some ours;
  taken = 0;
  sent = 0;
  done = false;
}

open_stream-IsWritten : (id ours : ℕ) (f : Flow) → IsWritten id (open_stream f id (some ours)).1
unfolding open_stream get
open_stream-IsWritten id ours f = (
  f.next_cell,
  ground (arith, get-insert id id f.next_cell f.progress),
  (opened ours f, ground arith, refl, refl),
)

open_stream-HasProgress :
    (id ours cell : ℕ) (f : Flow)
    → HasProgress cell f.cells
    → HasProgress cell (open_stream f id (some ours)).1.cells
unfolding open_stream get
open_stream-HasProgress id ours cell f (p, e, n, d) = elim (Bool-cases (f.next_cell == cell)) [
  | inl same ↦ (opened ours f, rw same refl, refl, refl)
  | inr other ↦ (p, rw other e, n, d)
]

open_stream-Grows :
    (id ours k : ℕ) (f : Flow) → IsWritten k f → IsWritten k (open_stream f id (some ours)).1
unfolding open_stream
open_stream-Grows id ours k f (cell, e, h) = elim (Bool-cases (id == k)) [
  | inl same ↦
      subst (λ i. IsWritten i (open_stream f id (some ours)).1) (==→eq id k same)
        (open_stream-IsWritten id ours f)
  | inr other ↦ (
    cell,
    ground (arith, get-insert id k f.next_cell f.progress),
    open_stream-HasProgress id ours cell f h,
  )
]

IsRouted-Grows : (s t : Reading) (spec : ℕ × FdDir) → Grows s t → IsRouted s spec → IsRouted t spec
IsRouted-Grows s t (id, FdDir.read) (g, h) r = g id r
IsRouted-Grows s t (id, FdDir.write) (g, h) r = h id r
IsRouted-Grows s t (id, FdDir.read_write) (g, h) (r, q) = (g id r, h id q)

All-Grows :
    (specs : List (ℕ × FdDir)) (s t : Reading)
    → Grows s t
    → All (IsRouted s) specs
    → All (IsRouted t) specs
All-Grows [] s t g h = tt
All-Grows (spec ∷ specs) s t g (h, hs) = (IsRouted-Grows s t spec g h, All-Grows specs s t g hs)

-- The pumps of one stream at the receiving end.
start_pumps-IsRouted :
    (slot id : ℕ) (dir : FdDir) (ours : ℕ) (s : Reading)
    → IsRouted (start_pumps slot id (invert dir) ours s) (id, dir)
      × Grows s (start_pumps slot id (invert dir) ours s)
unfolding start_pumps invert reads writes
start_pumps-IsRouted slot id FdDir.read ours s =
    (open_inbound-IsRead id s, ((λ k h. open_inbound-Grows id k s h), (λ k h. h)))
start_pumps-IsRouted slot id FdDir.write ours s = (
  open_stream-IsWritten id ours s.flow,
  ((λ k h. h), (λ k h. open_stream-Grows id ours k s.flow h)),
)
start_pumps-IsRouted slot id FdDir.read_write ours s = (
  (open_inbound-IsRead id s, open_stream-IsWritten id ours s.flow),
  ((λ k h. open_inbound-Grows id k s h), (λ k h. open_stream-Grows id ours k s.flow h)),
)

-- What stays as it was, but for the sockets and the count.
abbrev Kept : Reading → Reading → Type 0
Kept s t = (t.ctrl ≡ s.ctrl) × (t.ctrl_open ≡ s.ctrl_open)

start_pumps-Kept :
    (slot id : ℕ) (dir : FdDir) (ours : ℕ) (s : Reading)
    → Kept s (start_pumps slot id (invert dir) ours s)
      × ((start_pumps slot id (invert dir) ours s).live ≡ s.live)
      × ((start_pumps slot id (invert dir) ours s).sockets ≡ s.sockets)
unfolding start_pumps invert reads writes
start_pumps-Kept slot id FdDir.read ours s = ((refl, refl), refl, refl)
start_pumps-Kept slot id FdDir.write ours s = ((refl, refl), refl, refl)
start_pumps-Kept slot id FdDir.read_write ours s = ((refl, refl), refl, refl)

materialize_stream-some :
    (id : ℕ) (dir : FdDir) (s : Reading) (theirs ours : ℕ) (rest : List (Option (ℕ × ℕ)))
    → s.sockets ≡ some (theirs, ours) ∷ rest
    → (t : Reading) × (materialize_stream id (invert dir) s ≡ (some theirs, t))
      × Kept s t
      × (t.live ≡ s.live + 1)
      × (t.sockets ≡ rest)
      × IsRouted t (id, dir)
      × Grows s t
unfolding materialize_stream
materialize_stream-some id dir s theirs ours rest e =
    let taken : Reading = record (take_slot s).1 { sockets = rest } in
    let t = start_pumps s.next_slot id (invert dir) ours taken in
    let (kept, live, sockets) = start_pumps-Kept s.next_slot id dir ours taken in
    let (routed, grows) = start_pumps-IsRouted s.next_slot id dir ours taken in
    (
      t,
      ap (λ x. with_socket x s.next_slot id (invert dir) (take_slot s).1) e,
      kept,
      live,
      sockets,
      routed,
      grows,
    )

abbrev pub given_out : List (ℕ × ℕ) → List ℕ
given_out [] = []
given_out ((theirs, ours) ∷ pairs) = theirs ∷ given_out pairs

abbrev pub made : List (ℕ × ℕ) → List (Option (ℕ × ℕ)) → List (Option (ℕ × ℕ))
made [] rest = rest
made (pair ∷ pairs) rest = some pair ∷ made pairs rest

materialize_all-some :
    (specs : List (ℕ × FdDir)) (s : Reading) (pairs : List (ℕ × ℕ)) (rest : List (Option (ℕ × ℕ)))
    → s.sockets ≡ made pairs rest
    → length pairs ≡ length specs
    → (t : Reading) × (materialize_all specs s ≡ (some (given_out pairs), t))
      × Kept s t
      × (t.live ≡ s.live + length specs)
      × All (IsRouted t) specs
      × Grows s t
unfolding materialize_all
materialize_all-some [] s [] rest e len =
    (s, refl, (refl, refl), omega arith, tt, ((λ k h. h), (λ k h. h)))
materialize_all-some [] s (pair ∷ pairs) rest e len = absurd (omega arith)
materialize_all-some (spec ∷ specs) s [] rest e len = absurd (omega arith)
materialize_all-some ((id, dir) ∷ specs) s ((theirs, ours) ∷ pairs) rest e len =
    let (s1, first, (c, o), live, sockets, routed, grows) =
      materialize_stream-some id dir s theirs ours (made pairs rest) e in
    let (t, all_made, (c', o'), live', others, grows') =
      materialize_all-some specs s1 pairs rest sockets (omega arith) in
    (
      t,
      ap (λ p. add_end p (materialize_all specs)) first
          ∙ ap (λ p. (Option.map (◌∷◌ theirs) p.0, p.1)) all_made,
      (c' ∙ c, o' ∙ o),
      omega (arith, live', live),
      (IsRouted-Grows s1 t (id, dir) grows' routed, others),
      ((λ k h. grows'.0 k (grows.0 k h)), (λ k h. grows'.1 k (grows.1 k h))),
    )

-- What a frame of descriptors does, with what it leaves alone.
pub on_frame-delegates :
    (specs : List (ℕ × FdDir)) (id : ℕ) (s : Reading) (pairs : List (ℕ × ℕ))
    (rest : List (Option (ℕ × ℕ)))
    → All (λ spec. IsU32 spec.0) specs
    → s.live + length specs ≤ max_live_streams
    → s.ctrl_open ≡ true
    → s.sockets ≡ made pairs rest
    → length pairs ≡ length specs
    → (t : Reading) × (on_frame (record { kind = kind_fds; id = id; payload = encode_fds specs }) s
        ≡ goes t)
      × (t.ctrl ≡ s.ctrl ++ (CtrlItem.fds (given_out pairs) ∷ []))
      × (t.ctrl_open ≡ true)
      × (t.live ≡ s.live + length specs)
      × All (IsRouted t) specs
unfolding on_frame
on_frame-delegates specs id s pairs rest ids places there sockets len =
    let (t, all_made, (c, o), live, routed, grows) =
      materialize_all-some specs s pairs rest sockets len in
    let fits : ltb max_live_streams (s.live + length (encode_fds specs) / 5) ≡ false =
      ge→ltb _ _ (omega (arith, length-encode_fds specs)) in
    let handed : Reading = record t { ctrl = t.ctrl ++ (CtrlItem.fds (given_out pairs) ∷ []) } in
    (
      handed,
      rw (fits, decode_fds-encode_fds specs ids, all_made, o ∙ there) refl,
      ap (λ x. x ++ (CtrlItem.fds (given_out pairs) ∷ [])) c,
      o ∙ there,
      live,
      All-Grows specs t handed ((λ k h. h), (λ k h. h)) routed,
    )

-- A frame that delegates descriptors is taken whole while there are places for its streams: the
-- session is handed one local end for each, in order. Before the next frame is read, every stream
-- that the sender reads has an empty queue here under its id, and every stream that it writes has
-- its counters here, with nothing sent, under which its grants are found. The ids are `u32`s, the session is there, and the
-- socket pairs can be made.
pub on_frame-encode_fds :
    (specs : List (ℕ × FdDir)) (id : ℕ) (s : Reading) (pairs : List (ℕ × ℕ))
    (rest : List (Option (ℕ × ℕ)))
    → All (λ spec. IsU32 spec.0) specs
    → s.live + length specs ≤ max_live_streams
    → s.ctrl_open ≡ true
    → s.sockets ≡ made pairs rest
    → length pairs ≡ length specs
    → (t : Reading) × (on_frame (record { kind = kind_fds; id = id; payload = encode_fds specs }) s
        ≡ goes t)
      × (t.ctrl ≡ s.ctrl ++ (CtrlItem.fds (given_out pairs) ∷ []))
      × (t.live ≡ s.live + length specs)
      × All (IsRouted t) specs
on_frame-encode_fds specs id s pairs rest ids places there sockets len =
    let (t, went, handed, _, live, routed) =
      on_frame-delegates specs id s pairs rest ids places there sockets len in
    (t, went, handed, live, routed)
