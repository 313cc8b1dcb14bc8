-- ===== src/Mux/TaskRuns.antt =====
-- The tasks of the multiplexer on concrete frames, and their theorems at concrete inputs.
use capsudo_rs.Base.{ℕ, ◌+◌, ◌≤◌, ◌≡◌, refl, true, List, [], ◌∷◌, map, some, arith, length, All}
use capsudo_rs.Base.Bytes.{to_le, from_le}
use capsudo_rs.Base.Assoc.{get, remove, modify}
use capsudo_rs.Proto.Message
use capsudo_rs.Proto.Header
use capsudo_rs.Transport.Defs.{FdDir, invert, reads, writes}
use capsudo_rs.Transport.Memory.{memory_reader, memory_writer}
use capsudo_rs.Mux.Defs.{CtrlItem, kind_fds, max_live_streams}
use capsudo_rs.Mux.Frames.{write_frame}
use capsudo_rs.Mux.Fds.{encode_fds, decode_fds, dir_code, decode_dir}
use capsudo_rs.Mux.Flow
use capsudo_rs.Mux.Flow.{Flow, hello, queue_limit, open_stream}
use capsudo_rs.Mux.Writer.{waiting, write_owed, write_out, writer_loop, writer_task}
use capsudo_rs.Mux.Reader.{
  Reading, start_reading, on_frame, ReaderTurn, goes, stops, waits, left, reader_loop, pump_stops,
  start_pumps, materialize_stream, materialize_all,
}
use capsudo_rs.Mux.Live.{Comes, begins, then_happens, takes, stopped, Comes-IsLive}
use capsudo_rs.Mux.Slots.{Shared}
use capsudo_rs.Mux.Passing.{IsRouted, on_frame-encode_fds}
use capsudo_rs.Mux.Sent.{Item, message, grants, closes, turn, IsItem}
use capsudo_rs.Mux.Delivery.{reader_loop-writer_task}

-- Two messages with credit between them.
abbrev items : List Item
items =
    message (Message.arg (b'l' ∷ b's' ∷ []))
    ∷ grants ((5, 100) ∷ (7, 9) ∷ [])
    ∷ closes 5 0
    ∷ message Message.end
    ∷ []

abbrev sender : Flow
sender = Flow.new 1000

abbrev sent : List ℕ
sent = (writer_task memory_writer sender (map turn items) []).1

items-IsItem : All IsItem items
unfolding Message.arg Message.end
items-IsItem = omega arith

wrote : writer_task memory_writer sender (map turn items) [] ≡ (waiting, sent)
unfolding writer_task writer_loop write_owed write_out write_frame hello to_le Message.encode
    Header.encode
wrote = refl

reader_loop-writer_task_example :
    (s : Reading) × (reader_loop memory_reader (length sent + 1) sent (start_reading 4096 [])
      ≡ left s)
    × (s.ctrl ≡ map CtrlItem.control (Message.arg (b'l' ∷ b's' ∷ []) ∷ Message.end ∷ []))
    × (s.flow.peer_windowed ≡ true)
    × (s.flow.peer_window ≡ sender.window)
reader_loop-writer_task_example =
    reader_loop-writer_task memory_writer memory_reader sender 4096 [] items [] sent sent
      (length sent + 1) items-IsItem (unfold Flow.new in omega arith)
      (unfold Flow.new in omega arith) refl wrote refl refl (omega arith)

-- A frame that delegates a descriptor to read and one to write, as its sender has them.
abbrev two : List ℕ
two = encode_fds ((4, FdDir.read) ∷ (6, FdDir.write) ∷ [])

abbrev fresh : Reading
fresh = start_reading 4096 (some (30, 31) ∷ some (40, 41) ∷ [])

on_frame-encode_fds_example :
    (t : Reading) × (on_frame (record { kind = kind_fds; id = 0; payload = two }) fresh ≡ goes t)
    × (t.ctrl ≡ CtrlItem.fds (30 ∷ 40 ∷ []) ∷ [])
    × (t.live ≡ 2)
    × All (IsRouted t) ((4, FdDir.read) ∷ (6, FdDir.write) ∷ [])
unfolding start_reading
on_frame-encode_fds_example =
    on_frame-encode_fds ((4, FdDir.read) ∷ (6, FdDir.write) ∷ []) 0 fresh ((30, 31) ∷ (40, 41) ∷ [])
      [] (omega arith) (omega arith) refl refl refl

abbrev state_of : ReaderTurn → Reading
state_of (goes s) = s
state_of (stops s) = s
state_of waits = fresh

abbrev given : Reading
given = state_of (on_frame (record { kind = kind_fds; id = 0; payload = two }) fresh)

two_opened : on_frame (record { kind = kind_fds; id = 0; payload = two }) fresh ≡ goes given
unfolding on_frame start_reading materialize_all materialize_stream start_pumps encode_fds
    decode_fds dir_code decode_dir to_le from_le reads writes invert
two_opened = refl

both_come : Comes 4096 (some (30, 31) ∷ some (40, 41) ∷ []) given
both_come =
    then_happens begins (takes (record { kind = kind_fds; id = 0; payload = two }) given two_opened)

-- The pump of the second stream has stopped as well.
Comes-IsLive_example :
    let s = pump_stops 1 given in
    (s.live ≤ max_live_streams) × (s.live ≡ length s.slots) × Shared s.next_slot s.slots
Comes-IsLive_example = Comes-IsLive (then_happens both_come (stopped 1))

one_left : (pump_stops 1 given).live ≡ 1
unfolding pump_stops on_frame start_reading materialize_all materialize_stream start_pumps
    encode_fds decode_fds dir_code decode_dir to_le from_le reads writes invert get remove modify
one_left = refl
