-- ===== src/Mux/PumpRuns.antt =====
-- The pumps on concrete turns, and their theorems at concrete inputs.
use capsudo_rs.Base.{◌≡◌, refl, Bool, true, false, List, [], ◌∷◌, ◌++◌, none, some, arith}
use capsudo_rs.Base.Int.{pos}
use capsudo_rs.Transport.Defs.{IoError}
use capsudo_rs.Transport.Writes.{Attempt, wrote, blocked, write_all_blocking}
use capsudo_rs.Mux.Defs.{OutFrame, StreamMsg}
use capsudo_rs.Mux.Stream.{Progress, Sink, open_sink, abandon}
use capsudo_rs.Mux.Pumps.{
  at_end, again, taken, ReadTurn, interrupted, cancelled, unknown, readable, blocking_reader,
  AsyncTurn, tried, async_reader, message, write_pump, blocking_writer, async_writer,
}
use capsudo_rs.Mux.Pumped.{arriving, async_writer-blocking_reader, blocking_writer-async_reader}

abbrev fresh : Progress
fresh = record { available = pos 100; socket = none; taken = 0; sent = 0; done = false }

abbrev typed : List ReadTurn
typed =
    interrupted
    ∷ readable (taken 1 (2 ∷ 3 ∷ []) true)
    ∷ readable again
    ∷ unknown
    ∷ readable (taken 4 [] true)
    ∷ []

abbrev drains : List (List Attempt × Bool)
drains = (wrote 2 ∷ blocked [] ∷ wrote 1 ∷ [], false) ∷ (wrote 1 ∷ [], true) ∷ []

async_writer-blocking_reader_example :
    (fs : List OutFrame) × (p' : Progress) × (gs : List OutFrame) × (k' : Sink) × (blocking_reader 5
        (typed ++ (readable at_end ∷ []))
        fresh
      ≡ some (fs, p'))
    × (async_writer 100 true (arriving fs drains) (open_sink 5)
        ≡ some (record { written = 1 ∷ 2 ∷ 3 ∷ 4 ∷ []; grants = gs; sink = k' }))
async_writer-blocking_reader_example =
    async_writer-blocking_reader 5 typed [] fresh 100 true drains (open_sink 5)
      (tt, (refl, (tt, (tt, (refl, tt)))))
      (
        ((omega arith, (tt, (omega arith, tt))), omega arith),
        (((omega arith, tt), omega arith), tt),
      )

abbrev printed : List AsyncTurn
printed = tried again ∷ tried (taken 7 (8 ∷ []) true) ∷ []

blocking_writer-async_reader_example :
    (fs : List OutFrame) × (p' : Progress) × (gs : List OutFrame) × (k' : Sink) × (async_reader true
        6
        (printed ++ (tried at_end ∷ []))
        fresh
      ≡ some (fs, p', true))
    × (blocking_writer 100 false (arriving fs ((wrote 1 ∷ wrote 1 ∷ [], true) ∷ [])) (open_sink 6)
        ≡ some (record { written = 7 ∷ 8 ∷ []; grants = gs; sink = k' }))
blocking_writer-async_reader_example =
    blocking_writer-async_reader true 6 printed [] fresh 100 false
      ((wrote 1 ∷ wrote 1 ∷ [], true) ∷ []) (open_sink 6) (tt, (refl, tt))
      (((omega arith, (omega arith, tt)), omega arith), tt)

-- A pump that is cancelled leaves what is unread in the descriptor, and sends no close.
cancelled_pump :
    blocking_reader 5 (cancelled ∷ readable (taken 1 [] true) ∷ []) fresh ≡ some ([], fresh)
unfolding blocking_reader
cancelled_pump = refl

-- A socket that breaks after one byte of two: the pump gives up, with one grant for the whole frame.
broken_writer :
    blocking_writer 100 true
      (message (StreamMsg.bytes (1 ∷ 2 ∷ [])) (wrote 1 ∷ Attempt.failed IoError.not_found ∷ []) true
        ∷ [])
      (record { id = 5; queue = []; queued = 11; closed = false; ungranted = 0 })
    ≡ some (record {
      written = 1 ∷ [];
      grants = OutFrame.window 5 11 ∷ [];
      sink = record { id = 5; queue = []; queued = 11; closed = true; ungranted = 0 };
    })
unfolding blocking_writer write_pump write_all_blocking abandon
broken_writer = refl
