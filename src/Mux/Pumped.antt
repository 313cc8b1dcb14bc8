-- ===== src/Mux/Pumped.antt =====
-- What the pumps carry: a stream's bytes from the descriptor at one end to the descriptor at the other.
use capsudo_rs.Base.{
  ℕ, ◌≤◌, ◌<◌, ◌≡◌, refl, ap, ◌∙◌, Bool, true, false, List, [], ◌∷◌, ◌++◌, Option, none, some, All,
  arith, length, take, drop, take-append-drop, length-drop,
}
use capsudo_rs.Base.Result.{ok}
use capsudo_rs.Transport.Writes.{Attempt, wrote, blocked, Written, after, write_all_blocking}
use capsudo_rs.Transport.Whole.{IsDraining, taken_bytes, write_all_blocking-whole}
use capsudo_rs.Mux.Defs.{OutFrame, StreamMsg}
use capsudo_rs.Mux.Stream
use capsudo_rs.Mux.Stream.{Progress, debit, Sink, consumed}
use capsudo_rs.Mux.Pumps.{
  Read, at_end, again, broken, taken, ReadTurn, interrupted, unknown, readable, blocking_reader,
  frame_first, AsyncTurn, tried, async_reader, WriteTurn, message, after_write, then_drained,
  granted, write_pump, blocking_writer, write_async, async_writer,
}

-- A read in which a pump goes on: it finds nothing yet, or bytes that the queue of frames takes.
abbrev pub IsCarried : Read → Type 0
IsCarried at_end = ⊥
IsCarried again = Unit
IsCarried broken = ⊥
IsCarried (taken b bs queued) = queued ≡ true

abbrev pub IsFlowing : ReadTurn → Type 0
IsFlowing ReadTurn.gone = ⊥
IsFlowing interrupted = Unit
IsFlowing ReadTurn.failed = ⊥
IsFlowing ReadTurn.cancelled = ⊥
IsFlowing unknown = Unit
IsFlowing ReadTurn.hung_up = ⊥
IsFlowing (readable r) = IsCarried r

abbrev pub IsAsyncFlowing : AsyncTurn → Type 0
IsAsyncFlowing AsyncTurn.gone = ⊥
IsAsyncFlowing AsyncTurn.failed = ⊥
IsAsyncFlowing (tried r) = IsCarried r

-- The bytes of each read.
abbrev pub with_chunk : Read → List (List ℕ) → List (List ℕ)
with_chunk (taken b bs queued) cs = (b ∷ bs) ∷ cs
with_chunk r cs = cs

abbrev pub chunks : List ReadTurn → List (List ℕ)
chunks [] = []
chunks (readable r ∷ ts) = with_chunk r (chunks ts)
chunks (t ∷ ts) = chunks ts

abbrev pub async_chunks : List AsyncTurn → List (List ℕ)
async_chunks [] = []
async_chunks (tried r ∷ ts) = with_chunk r (async_chunks ts)
async_chunks (t ∷ ts) = async_chunks ts

abbrev pub joined : List (List ℕ) → List ℕ
joined [] = []
joined (c ∷ cs) = c ++ joined cs

-- The frames of a stream whose reading pump has come to the end.
abbrev pub stream_frames : ℕ → List (List ℕ) → List OutFrame
stream_frames id [] = OutFrame.stream_close id ∷ []
stream_frames id (c ∷ cs) = OutFrame.stream_data id c ∷ stream_frames id cs

-- What the writing pump at the other end meets for a stream's frames: for each the attempts to write
-- it, and whether the queue was then empty.
abbrev pub arriving : List OutFrame → List (List Attempt × Bool) → List WriteTurn
arriving [] ds = []
arriving (OutFrame.stream_data id bs ∷ fs) ((as', idle) ∷ ds) =
    message (StreamMsg.bytes bs) as' idle ∷ arriving fs ds
arriving (OutFrame.stream_close id ∷ fs) ds = message StreamMsg.close [] true ∷ arriving fs ds
arriving (f ∷ fs) ds = arriving fs ds

-- Attempts that take each piece whole.
abbrev pub Suffices : (Attempt → Type 0) → List (List ℕ) → List (List Attempt × Bool) → Type 0
Suffices P [] ds = Unit
Suffices P (c ∷ cs) [] = ⊥
Suffices P (c ∷ cs) ((as', idle) ∷ ds) =
    (All P as' × (length c ≤ taken_bytes as')) × Suffices P cs ds

abbrev pub IsAsyncDraining : Attempt → Type 0
IsAsyncDraining (wrote n) = 0 < n
IsAsyncDraining (blocked polls) = Unit
IsAsyncDraining (Attempt.failed e) = ⊥

blocking_reader-chunks :
    (id : ℕ) (ts rest : List ReadTurn) (p : Progress)
    → All IsFlowing ts
    → (p' : Progress) × (blocking_reader id (ts ++ (readable at_end ∷ rest)) p
        ≡ some (stream_frames id (chunks ts), p'))
unfolding blocking_reader
blocking_reader-chunks id [] rest p h = (p, refl)
blocking_reader-chunks id (interrupted ∷ ts) rest p h = blocking_reader-chunks id ts rest p h.1
blocking_reader-chunks id (unknown ∷ ts) rest p h = blocking_reader-chunks id ts rest p h.1
blocking_reader-chunks id (readable again ∷ ts) rest p h = blocking_reader-chunks id ts rest p h.1
blocking_reader-chunks id (readable (taken b bs true) ∷ ts) rest p h =
    let (p', e) = blocking_reader-chunks id ts rest (debit (length (b ∷ bs)) p) h.1 in
    (p', ap (frame_first (OutFrame.stream_data id (b ∷ bs))) e)
blocking_reader-chunks id (readable (taken b bs false) ∷ ts) rest p h = absurd (ground arith)
blocking_reader-chunks id (readable at_end ∷ ts) rest p h = absurd h.0
blocking_reader-chunks id (readable broken ∷ ts) rest p h = absurd h.0
blocking_reader-chunks id (t ∷ ts) rest p h = absurd h.0

abbrev frame_before :
    OutFrame → Option (List OutFrame × Progress × Bool) → Option (List OutFrame × Progress × Bool)
frame_before f none = none
frame_before f (some (fs, q, told)) = some (f ∷ fs, q, told)

async_reader-chunks :
    (full_close : Bool) (id : ℕ) (ts rest : List AsyncTurn) (p : Progress)
    → All IsAsyncFlowing ts
    → (p' : Progress) × (async_reader full_close id (ts ++ (tried at_end ∷ rest)) p
        ≡ some (stream_frames id (async_chunks ts), p', full_close))
unfolding async_reader
async_reader-chunks full_close id [] rest p h = (p, refl)
async_reader-chunks full_close id (tried again ∷ ts) rest p h =
    async_reader-chunks full_close id ts rest p h.1
async_reader-chunks full_close id (tried (taken b bs true) ∷ ts) rest p h =
    let n = length (b ∷ bs) in
    let (p', e) =
      async_reader-chunks full_close id ts rest (Stream.queued n (debit n (Stream.read n p))) h.1 in
    (p', ap (frame_before (OutFrame.stream_data id (b ∷ bs))) e)
async_reader-chunks full_close id (tried (taken b bs false) ∷ ts) rest p h = absurd (ground arith)
async_reader-chunks full_close id (tried at_end ∷ ts) rest p h = absurd h.0
async_reader-chunks full_close id (tried broken ∷ ts) rest p h = absurd h.0
async_reader-chunks full_close id (t ∷ ts) rest p h = absurd h.0

write_async-[] : (as' : List Attempt) → write_async [] as' ≡ some (ok tt, [])
unfolding write_async
write_async-[] [] = refl
write_async-[] (a ∷ as') = refl

write_async-whole :
    (bs : List ℕ) (as' : List Attempt)
    → All IsAsyncDraining as'
    → length bs ≤ taken_bytes as'
    → write_async bs as' ≡ some (ok tt, bs)
unfolding write_async
write_async-whole [] as' h room = write_async-[] as'
write_async-whole (b ∷ bs) [] h room = absurd (omega (arith, room))
write_async-whole (b ∷ bs) (wrote n ∷ as') h room =
    ap (after (take n (b ∷ bs)))
      (write_async-whole (drop n (b ∷ bs)) as' h.1 (omega (arith, room, length-drop n (b ∷ bs))))
    ∙ ap (λ x. some (ok tt, x)) (take-append-drop n (b ∷ bs))
write_async-whole (b ∷ bs) (blocked polls ∷ as') h room = write_async-whole (b ∷ bs) as' h.1 room
write_async-whole (b ∷ bs) (Attempt.failed e ∷ as') h room = absurd h.0

-- A writing pump whose loop writes each message whole, on the frames of one stream.
write_pump-stream_frames :
    (write : List ℕ → List Attempt → Written) (P : Attempt → Type 0)
    → ((bs : List ℕ) (as' : List Attempt)
        → All P as'
        → length bs ≤ taken_bytes as'
        → write bs as' ≡ some (ok tt, bs))
    → (window : ℕ) (windowed : Bool) (id : ℕ) (cs : List (List ℕ)) (ds : List (List Attempt × Bool))
      (k : Sink)
    → Suffices P cs ds
    → (gs : List OutFrame) × (k' : Sink) × (write_pump write window windowed
          (arriving (stream_frames id cs) ds)
          k
        ≡ some (record { written = joined cs; grants = gs; sink = k' }))
unfolding write_pump
write_pump-stream_frames write P whole window windowed id [] ds k h = ([], _, refl)
write_pump-stream_frames write P whole window windowed id (c ∷ cs) [] k h = absurd h
write_pump-stream_frames write P whole window windowed id (c ∷ cs) ((as', idle) ∷ ds) k h =
    let step = consumed window windowed (length c) idle k in
    let (gs, k', e) = write_pump-stream_frames write P whole window windowed id cs ds step.1 h.1 in
    (
      granted step.0 ++ gs,
      k',
      ap
            (λ w.
              after_write windowed k w step.0
                (write_pump write window windowed (arriving (stream_frames id cs) ds) step.1))
            (whole c as' h.0.0 h.0.1)
          ∙ ap (then_drained c step.0) e,
    )

-- A descriptor that is passed on, as the peer uses it: what is read from it until its end is sent as
-- frames, and the pump at the other end, which meets these frames in order, writes exactly these
-- bytes to its socket and ends, whatever the sizes of the reads and of the writes. Reads may be
-- interrupted or find nothing, writes may be short or would block, and neither end fails.
pub async_writer-blocking_reader :
    (id : ℕ) (ts rest : List ReadTurn) (p : Progress) (window : ℕ) (windowed : Bool)
    (ds : List (List Attempt × Bool)) (k : Sink)
    → All IsFlowing ts
    → Suffices IsAsyncDraining (chunks ts) ds
    → (fs : List OutFrame) × (p' : Progress) × (gs : List OutFrame) × (k' : Sink) × (blocking_reader
          id
          (ts ++ (readable at_end ∷ rest))
          p
        ≡ some (fs, p'))
      × (async_writer window windowed (arriving fs ds) k
          ≡ some (record { written = joined (chunks ts); grants = gs; sink = k' }))
unfolding async_writer
async_writer-blocking_reader id ts rest p window windowed ds k h enough =
    let (p', sent) = blocking_reader-chunks id ts rest p h in
    let (gs, k', done) =
      write_pump-stream_frames write_async IsAsyncDraining write_async-whole window windowed id
        (chunks ts) ds k enough in
    (stream_frames id (chunks ts), p', gs, k', sent, done)

-- A socket that the multiplexer made, whose holder writes to it and closes it: what is read from
-- it until its end is sent as frames, and the pump at the other end, which meets these frames in
-- order, writes exactly these bytes to the caller's descriptor and ends. Reads may find nothing
-- yet; the caller's descriptor may be in non-blocking mode, and its writes short or interrupted;
-- neither end fails.
pub blocking_writer-async_reader :
    (full_close : Bool) (id : ℕ) (ts rest : List AsyncTurn) (p : Progress) (window : ℕ)
    (windowed : Bool) (ds : List (List Attempt × Bool)) (k : Sink)
    → All IsAsyncFlowing ts
    → Suffices IsDraining (async_chunks ts) ds
    → (fs : List OutFrame) × (p' : Progress) × (gs : List OutFrame) × (k' : Sink) × (async_reader
          full_close id
          (ts ++ (tried at_end ∷ rest))
          p
        ≡ some (fs, p', full_close))
      × (blocking_writer window windowed (arriving fs ds) k
          ≡ some (record { written = joined (async_chunks ts); grants = gs; sink = k' }))
unfolding blocking_writer
blocking_writer-async_reader full_close id ts rest p window windowed ds k h enough =
    let (p', sent) = async_reader-chunks full_close id ts rest p h in
    let (gs, k', done) =
      write_pump-stream_frames write_all_blocking IsDraining write_all_blocking-whole window
        windowed id (async_chunks ts) ds k enough in
    (stream_frames id (async_chunks ts), p', gs, k', sent, done)
