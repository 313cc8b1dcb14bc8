-- ===== src/Mux/Pumps.antt =====
-- The pumps of mux.rs between a descriptor and its stream: `spawn_blocking_reader`,
-- `spawn_blocking_writer`, `async_reader` and `async_writer`. What a pump meets is a list of turns, in
-- order; a pump that has none left is still running. The messages of a queue are the turns of its
-- pump, and the sink keeps the counts.
use capsudo_rs.Base.{
  ℕ, Bool, true, false, List, [], ◌∷◌, ◌++◌, Option, none, some, length, take, drop,
}
use capsudo_rs.Base.Result.{ok, err}
use capsudo_rs.Transport.Writes.{Attempt, wrote, blocked, Written, after, write_all_blocking}
use capsudo_rs.Mux.Defs.{OutFrame, StreamMsg}
use capsudo_rs.Mux.Stream
use capsudo_rs.Mux.Stream.{Progress, debit, Sink, consumed, abandon}

-- What `read` gives: the end, bytes with whether the queue of frames takes them, `EINTR` or `EAGAIN`,
-- or another error.
pub data Read : Type 0 where
  at_end again broken : Read
  taken : ℕ → List ℕ → (queued : Bool) → Read

-- One turn of `spawn_blocking_reader`. `ready` finds the transport gone; `poll` is interrupted or
-- fails; the pipe says the pump is cancelled; `revents` is nothing that is known, or has neither data
-- nor a hangup; or a hangup; or data, which is read.
pub data ReadTurn : Type 0 where
  gone interrupted failed cancelled unknown hung_up : ReadTurn
  readable : Read → ReadTurn

abbrev pub Pumped : Type 0
Pumped = Option (List OutFrame × Progress)

abbrev pub frame_first : OutFrame → Pumped → Pumped
frame_first f none = none
frame_first f (some (fs, p)) = some (f ∷ fs, p)

-- The frames that the pump queues, and what it leaves of the window.
unfoldable pub blocking_reader : ℕ → List ReadTurn → Progress → Pumped
blocking_reader id [] p = none
blocking_reader id (gone ∷ ts) p = some ([], p)
blocking_reader id (interrupted ∷ ts) p = blocking_reader id ts p
blocking_reader id (failed ∷ ts) p = some (OutFrame.stream_close id ∷ [], p)
blocking_reader id (cancelled ∷ ts) p = some ([], p)
blocking_reader id (unknown ∷ ts) p = blocking_reader id ts p
blocking_reader id (hung_up ∷ ts) p = some (OutFrame.stream_close id ∷ [], p)
blocking_reader id (readable at_end ∷ ts) p = some (OutFrame.stream_close id ∷ [], p)
blocking_reader id (readable again ∷ ts) p = blocking_reader id ts p
blocking_reader id (readable broken ∷ ts) p = some (OutFrame.stream_close id ∷ [], p)
blocking_reader id (readable (taken b bs true) ∷ ts) p =
    frame_first (OutFrame.stream_data id (b ∷ bs))
      (blocking_reader id ts (debit (length (b ∷ bs)) p))
blocking_reader id (readable (taken b bs false) ∷ ts) p = some ([], debit (length (b ∷ bs)) p)

-- One turn of `async_reader`: `ready` finds the transport gone, `readable` fails, or `try_io` reads,
-- where `again` is a read that would block.
pub data AsyncTurn : Type 0 where
  gone failed : AsyncTurn
  tried : Read → AsyncTurn

-- The frames, the counters for a barrier with the window, and whether the writer is told that the
-- holder has closed its end; `full_close` is what `hung_up` finds at the end of file.
unfoldable pub async_reader :
    Bool → ℕ → List AsyncTurn → Progress → Option (List OutFrame × Progress × Bool)
async_reader full_close id [] p = none
async_reader full_close id (gone ∷ ts) p = some ([], p, false)
async_reader full_close id (failed ∷ ts) p = some ([], p, false)
async_reader full_close id (tried at_end ∷ ts) p =
    some (OutFrame.stream_close id ∷ [], p, full_close)
async_reader full_close id (tried again ∷ ts) p = async_reader full_close id ts p
async_reader full_close id (tried broken ∷ ts) p = some ([], p, false)
async_reader full_close id (tried (taken b bs false) ∷ ts) p =
    some ([], debit (length (b ∷ bs)) (Stream.read (length (b ∷ bs)) p), false)
async_reader full_close id (tried (taken b bs true) ∷ ts) p =
    let n = length (b ∷ bs) in
    elim (async_reader full_close id ts (Stream.queued n (debit n (Stream.read n p)))) [
      | none ↦ none
      | some (fs, q, told) ↦ some (OutFrame.stream_data id (b ∷ bs) ∷ fs, q, told)
    ]

-- One turn of a writing pump: its queue is gone, or gives a message, with the attempts to write it
-- and whether the queue is then empty; or the holder has closed its end.
pub data WriteTurn : Type 0 where
  gone closed_by_holder : WriteTurn
  message : StreamMsg → List Attempt → (idle : Bool) → WriteTurn

-- What a writing pump has done when it ends: the bytes it wrote, the grants it sent, and its queue.
pub record Drained : Type 0 where
  pub written : List ℕ
  pub grants : List OutFrame
  pub sink : Sink

-- `Drop for StreamSink`
abbrev pub drop_sink : Sink → Sink
drop_sink k = record k { queue = []; closed = true }

abbrev pub left : Sink → Drained
left k = record { written = []; grants = []; sink = drop_sink k }

abbrev pub granted : Option OutFrame → List OutFrame
granted none = []
granted (some g) = g ∷ []

abbrev pub give_up : Bool → List ℕ → Sink → Drained
give_up windowed out k =
    let (g, k') = abandon windowed k in record { written = out; grants = granted g; sink = k' }

abbrev pub then_drained : List ℕ → Option OutFrame → Option Drained → Option Drained
then_drained out g none = none
then_drained out g (some d) =
    some (record d { written = out ++ d.written; grants = granted g ++ d.grants })

-- A message that was tried: the pump waits, gives up, or goes on.
abbrev pub after_write : Bool → Sink → Written → Option OutFrame → Option Drained → Option Drained
after_write windowed k none g rest = none
after_write windowed k (some (err e, out)) g rest = some (give_up windowed out k)
after_write windowed k (some (ok u, out)) g rest = then_drained out g rest

-- The body of both writing pumps, over the loop that writes one message.
unfoldable pub write_pump :
    (List ℕ → List Attempt → Written) → ℕ → Bool → List WriteTurn → Sink → Option Drained
write_pump write window windowed [] k = none
write_pump write window windowed (gone ∷ ts) k = some (left k)
write_pump write window windowed (closed_by_holder ∷ ts) k = some (give_up windowed [] k)
write_pump write window windowed (message StreamMsg.close as' idle ∷ ts) k = some (left k)
write_pump write window windowed (message (StreamMsg.bytes bs) as' idle ∷ ts) k =
    let (g, k') = consumed window windowed (length bs) idle k in
    after_write windowed k (write bs as') g (write_pump write window windowed ts k')

unfoldable pub blocking_writer : ℕ → Bool → List WriteTurn → Sink → Option Drained
unfolding write_pump
blocking_writer = write_pump write_all_blocking

-- The loop of `async_writer` over one message: only a write that would block is made again.
unfoldable pub write_async : List ℕ → List Attempt → Written
write_async [] as' = some (ok tt, [])
write_async (b ∷ bs) [] = none
write_async (b ∷ bs) (wrote n ∷ as') = after (take n (b ∷ bs)) (write_async (drop n (b ∷ bs)) as')
write_async (b ∷ bs) (blocked polls ∷ as') = write_async (b ∷ bs) as'
write_async (b ∷ bs) (Attempt.failed e ∷ as') = some (err e, [])

unfoldable pub async_writer : ℕ → Bool → List WriteTurn → Sink → Option Drained
unfolding write_pump
async_writer = write_pump write_async
