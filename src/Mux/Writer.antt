-- ===== src/Mux/Writer.antt =====
-- `writer_task`, over what its `select!` gives in order: the credit that is owed, or a frame of the
-- queue. The bytes go to any byte channel that keeps the promises of its interface.
use capsudo_rs.Base.{ℕ, List, [], ◌∷◌}
use capsudo_rs.Base.Result.{Result, ok, err}
use capsudo_rs.Base.Bytes.{to_le}
use capsudo_rs.Transport.Defs.{IoError}
use capsudo_rs.Transport.Bytes.{Writer}
use capsudo_rs.Mux.Defs.{
  kind_control, kind_fds, kind_stream_data, kind_stream_close, kind_hello, kind_window, OutFrame,
}
use capsudo_rs.Mux.Frames.{write_frame, and_then}
use capsudo_rs.Mux.Flow.{Flow, hello}

-- One turn of the loop: what `std::mem::take` finds owed, a frame, or the queue's end.
pub data WriterTurn : Type 0 where
  owed : List (ℕ × ℕ) → WriterTurn
  frame : OutFrame → WriterTurn
  no_more : WriterTurn

-- How the task stands after the turns that there were: it waits for another, a write has failed, or
-- the queue has ended.
pub data WriterEnd : Type 0 where
  waiting broken ended : WriterEnd

module _ {W : Type 0} (writer : Writer W) where
  -- The loop over what is owed.
  unfoldable pub write_owed : List (ℕ × ℕ) → W → Result IoError (Unit {0}) × W
  write_owed [] w = (ok tt, w)
  write_owed ((id, bytes) ∷ grants) w =
      and_then writer (write_frame writer kind_window id (to_le 4 bytes) w) (write_owed grants)

  -- The `match frame`.
  unfoldable pub write_out : OutFrame → W → Result IoError (Unit {0}) × W
  write_out (OutFrame.control buf) w = write_frame writer kind_control 0 buf w
  write_out (OutFrame.fds buf) w = write_frame writer kind_fds 0 buf w
  write_out (OutFrame.stream_data id buf) w = write_frame writer kind_stream_data id buf w
  write_out (OutFrame.stream_close id) w = write_frame writer kind_stream_close id [] w
  write_out (OutFrame.window id bytes) w = write_frame writer kind_window id (to_le 4 bytes) w

  -- A failed write ends the task.
  abbrev pub unless_broken : Result IoError (Unit {0}) × W → (W → WriterEnd × W) → WriterEnd × W
  unless_broken (ok u, w) f = f w
  unless_broken (err e, w) f = (broken, w)

  unfoldable pub writer_loop : List WriterTurn → W → WriterEnd × W
  writer_loop [] w = (waiting, w)
  writer_loop (owed grants ∷ turns) w = unless_broken (write_owed grants w) (writer_loop turns)
  writer_loop (frame out ∷ turns) w = unless_broken (write_out out w) (writer_loop turns)
  writer_loop (no_more ∷ turns) w = (ended, w)

  unfoldable pub writer_task : Flow → List WriterTurn → W → WriterEnd × W
  writer_task flow turns w =
      unless_broken (write_frame writer kind_hello 0 (hello flow) w) (writer_loop turns)
