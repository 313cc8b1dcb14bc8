-- ===== src/Mux/Reader.antt =====
-- `reader_task` with `materialize_stream`, `StreamSlot`, and what a session receives (`recv`).
-- A stream's queue is shared by the map and its pump, so it stands in a cell of its own, like its
-- `Progress`. A slot is the number of the pumps that share it.
use mathlib.Core.Option
use capsudo_rs.Base.{
  ℕ, zero, suc, ◌+◌, ◌-◌, ◌/◌, ◌%◌, ◌^◌, Bool, true, false, List, [], ◌∷◌, ◌++◌, Option, none, some,
  ltb, leb, ◌==◌, if◌then◌else◌, length, not,
}
use capsudo_rs.Base.Result.{Result, ok, err}
use capsudo_rs.Base.Assoc.{get, insert, remove, modify}
use capsudo_rs.Transport.Defs.{IoError, FdDir, reads, writes, invert, Received}
use capsudo_rs.Transport.Bytes.{Reader}
use capsudo_rs.Proto.Defs.{Message}
use capsudo_rs.Proto.Message
use capsudo_rs.Mux.Defs.{
  kind_control, kind_fds, kind_stream_data, kind_stream_close, kind_hello, kind_window, mux_header,
  max_live_streams, CtrlItem, bytes, close,
}
use capsudo_rs.Mux.Frames.{Frame, read_frame, decode_message, decode_u32}
use capsudo_rs.Mux.Fds.{decode_fds}
use capsudo_rs.Mux.Stream.{Sink, open_sink, has_room}
use capsudo_rs.Mux.Flow.{Flow, new, queue_limit, take_hello, grant, owe, open_stream}
use capsudo_rs.Mux.Flow

-- What the reader shares with the pumps and with the session. `sockets` holds the results of the
-- calls that make a socket pair: the end to hand out and our own, or `none` for a failure.
pub record Reading : Type 0 where
  pub flow : Flow
  pub streams : List (ℕ × ℕ)
  pub sinks : List (ℕ × Sink)
  pub next_sink : ℕ
  pub live : ℕ
  pub slots : List (ℕ × ℕ)
  pub next_slot : ℕ
  pub sockets : List (Option (ℕ × ℕ))
  pub ctrl : List CtrlItem
  pub ctrl_open : Bool

-- `StreamSlot::take`, with no pump yet.
unfoldable pub take_slot : Reading → ℕ × Reading
take_slot s = (
  s.next_slot,
  record s { live = s.live + 1; slots = (s.next_slot, 0) ∷ s.slots; next_slot = s.next_slot + 1 },
)

-- The `Drop` of a slot.
unfoldable pub drop_slot : ℕ → Reading → Reading
drop_slot slot s = record s { live = s.live - 1; slots = remove slot s.slots }

-- A pump that shares a slot starts, and stops: the last one drops it.
unfoldable pub share_slot : ℕ → Reading → Reading
share_slot slot s = record s { slots = modify slot (λ n. n + 1) s.slots }

unfoldable pub pump_stops : ℕ → Reading → Reading
unfolding drop_slot
pump_stops slot s = elim (get slot s.slots) [
  | none ↦ s
  | some n ↦
      if leb n 1 then drop_slot slot s else record s { slots = modify slot (λ n. n - 1) s.slots }
]

-- `StreamSink::open`
unfoldable pub open_inbound : ℕ → Reading → Reading
open_inbound id s = record s {
  streams = insert id s.next_sink s.streams;
  sinks = (s.next_sink, open_sink id) ∷ s.sinks;
  next_sink = s.next_sink + 1;
}

-- The pumps of a stream, once its socket pair is there.
unfoldable pub start_pumps : ℕ → ℕ → FdDir → ℕ → Reading → Reading
unfolding share_slot open_inbound
start_pumps slot id dir ours s =
    let written = if writes dir then share_slot slot (open_inbound id s) else s in
    if reads dir
    then share_slot slot (record written { flow = (open_stream written.flow id (some ours)).1 })
    else written

-- `materialize_stream`: the end to hand out, or a failure, which drops the slot.
abbrev pub with_socket : List (Option (ℕ × ℕ)) → ℕ → ℕ → FdDir → Reading → Option ℕ × Reading
with_socket [] slot id dir s = (none, drop_slot slot s)
with_socket (none ∷ rest) slot id dir s = (none, drop_slot slot (record s { sockets = rest }))
with_socket (some (theirs, ours) ∷ rest) slot id dir s =
    (some theirs, start_pumps slot id dir ours (record s { sockets = rest }))

unfoldable pub materialize_stream : ℕ → FdDir → Reading → Option ℕ × Reading
unfolding take_slot
materialize_stream id dir s =
    let (slot, taken) = take_slot s in with_socket taken.sockets slot id dir taken

-- The loop over `decode_fds`: the local ends, or `none` at the first failure.
abbrev pub add_end :
    Option ℕ × Reading → (Reading → Option (List ℕ) × Reading) → Option (List ℕ) × Reading
add_end (none, s) rest = (none, s)
add_end (some fd, s) rest = let (ends, s') = rest s in (Option.map (◌∷◌ fd) ends, s')

unfoldable pub materialize_all : List (ℕ × FdDir) → Reading → Option (List ℕ) × Reading
materialize_all [] s = (some [], s)
materialize_all ((id, dir) ∷ specs) s =
    add_end (materialize_stream id (invert dir) s) (materialize_all specs)

-- What one frame does: the loop goes on, it is left, or it waits for room.
pub data ReaderTurn : Type 0 where
  goes stops : Reading → ReaderTurn
  waits : ReaderTurn

-- `ctrl_tx.send`, which fails once the transport is gone.
abbrev pub hand_up : CtrlItem → Reading → ReaderTurn
hand_up item s = if s.ctrl_open then goes (record s { ctrl = s.ctrl ++ (item ∷ []) }) else stops s

abbrev pub control_arm : Option Message → Reading → ReaderTurn
control_arm none s = goes s
control_arm (some m) s = hand_up (CtrlItem.control m) s

abbrev pub hand_ends : Option (List ℕ) × Reading → ReaderTurn
hand_ends (none, s) = stops s
hand_ends (some ends, s) = hand_up (CtrlItem.fds ends) s

unfoldable pub fds_arm : List ℕ → Reading → ReaderTurn
fds_arm payload s =
    if ltb max_live_streams (s.live + length payload / 5)
    then stops s
    else hand_ends (materialize_all (decode_fds payload) s)

-- Data for a stream whose pump is gone is owed to its sender.
unfoldable pub owe_undelivered : ℕ → ℕ → Reading → Reading
owe_undelivered id cost s =
    if s.flow.peer_windowed then record s { flow = owe s.flow id (cost % 2 ^ 32) } else s

-- Counted and queued, unless the pump has dropped the queue.
abbrev pub count_in : List ℕ → Sink → Sink
count_in payload k = record k {
  queued = k.queued + (mux_header + length payload);
  queue = if k.closed then k.queue else k.queue ++ (bytes payload ∷ []);
}

abbrev pub into_sink : ℕ → List ℕ → ℕ → Option Sink → Reading → ReaderTurn
into_sink id payload cell none s = goes s
into_sink id payload cell (some k) s =
    let cost = mux_header + length payload in
    let counted : Reading = record s { sinks = modify cell (count_in payload) s.sinks } in
    if not (has_room cost (queue_limit s.flow) k)
    then waits
    else if k.closed
    then goes (owe_undelivered id cost counted)
    else goes counted

abbrev pub to_inbound : ℕ → List ℕ → Option ℕ → Reading → ReaderTurn
to_inbound id payload none s = goes (owe_undelivered id (mux_header + length payload) s)
to_inbound id payload (some cell) s = into_sink id payload cell (get cell s.sinks) s

unfoldable pub data_arm : ℕ → List ℕ → Reading → ReaderTurn
data_arm id payload s =
    if ltb (queue_limit s.flow) (mux_header + length payload)
    then stops s
    else to_inbound id payload (get id s.streams) s

abbrev pub push_close : Sink → Sink
push_close k = record k { queue = if k.closed then k.queue else k.queue ++ (close ∷ []) }

unfoldable pub close_arm : ℕ → Reading → Reading
close_arm id s = elim (get id s.streams) [
  | none ↦ s
  | some cell ↦ record s { streams = remove id s.streams; sinks = modify cell push_close s.sinks }
]

abbrev pub hello_arm : Bool × Flow → Reading → ReaderTurn
hello_arm (false, f) s = stops (record s { flow = f })
hello_arm (true, f) s = goes (record s { flow = f })

abbrev pub window_arm : ℕ → Option ℕ → Reading → Reading
window_arm id none s = s
window_arm id (some n) s = record s { flow = grant s.flow id n }

-- The `match kind`.
unfoldable pub on_frame : Frame → Reading → ReaderTurn
unfolding close_arm fds_arm data_arm
on_frame f s =
    if f.kind == kind_control
    then control_arm (decode_message f.payload) s
    else if f.kind == kind_fds
    then fds_arm f.payload s
    else if f.kind == kind_stream_data
    then data_arm f.id f.payload s
    else if f.kind == kind_stream_close
    then goes (close_arm f.id s)
    else if f.kind == kind_hello
    then hello_arm (take_hello s.flow f.payload) s
    else if f.kind == kind_window
    then goes (window_arm f.id (decode_u32 f.payload) s)
    else goes s

-- After the loop no sender waits for credit any more; `ctrl_tx` is dropped, so the session sees the
-- end behind what it was handed.
unfoldable pub leave : Reading → Reading
leave s = record s { flow = Flow.close s.flow }

-- How the task stands: it has left its loop, it waits for room, or the fuel has run out.
pub data ReaderEnd : Type 0 where
  left waits_for_room out_of_fuel : Reading → ReaderEnd

abbrev pub after_frame : ReaderTurn → Reading → (Reading → ReaderEnd) → ReaderEnd
after_frame (goes s') s rest = rest s'
after_frame (stops s') s rest = left (leave s')
after_frame waits s rest = waits_for_room s

abbrev pub after_read {ℓ} :
    {R : Type ℓ}
    → Result IoError (Option Frame) × R
    → Reading
    → (R → Reading → ReaderEnd)
    → ReaderEnd
after_read (err e, r) s rest = left (leave s)
after_read (ok none, r) s rest = left (leave s)
after_read (ok (some f), r) s rest = after_frame (on_frame f s) s (rest r)

module _ {R : Type 0} (reader : Reader R) where
  unfoldable pub reader_loop : ℕ → R → Reading → ReaderEnd
  reader_loop zero r s = out_of_fuel s
  reader_loop (suc n) r s = after_read (read_frame reader r) s (reader_loop n)

-- `MuxTransport::recv` on an item.
unfoldable pub received : CtrlItem → Received
received (CtrlItem.control m) = record { message = m; fds = [] }
received (CtrlItem.fds fds) = record { message = Message.fds (length fds % 2 ^ 32); fds = fds }

-- The state in which `with_window` starts the reader.
unfoldable pub start_reading : ℕ → List (Option (ℕ × ℕ)) → Reading
start_reading window sockets = record {
  flow = new window;
  streams = [];
  sinks = [];
  next_sink = 0;
  live = 0;
  slots = [];
  next_slot = 0;
  sockets = sockets;
  ctrl = [];
  ctrl_open = true;
}
