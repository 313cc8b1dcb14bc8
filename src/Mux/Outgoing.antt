-- ===== src/Mux/Outgoing.antt =====
-- The sending half of `MuxTransport`: `send` with `start_sender_pumps`, `MuxControlSender`, and the
-- `Drop` of the transport. A queue of frames that is full delays a send and changes nothing else.
use capsudo_rs.Base.{ℕ, suc, Bool, List, [], ◌∷◌, ◌++◌, Option, none, some, if◌then◌else◌}
use capsudo_rs.Base.Result.{Result, ok, err}
use capsudo_rs.Base.Assoc.{insert, remove}
use capsudo_rs.Proto.Defs.{Message}
use capsudo_rs.Proto.Message
use capsudo_rs.Transport.Defs.{IoError, TransportError, FdDir, FdSpec, reads, writes}
use capsudo_rs.Mux.Defs.{OutFrame}
use capsudo_rs.Mux.Stream.{Sink, open_sink}
use capsudo_rs.Mux.Flow.{Flow, open_stream}
use capsudo_rs.Mux.Flow
use capsudo_rs.Mux.Fds.{encode_fds}
use capsudo_rs.Mux.Ids.{alloc_id}
use capsudo_rs.Mux.Barrier.{View, barrier}

-- A pump that was started, on a duplicate of a descriptor, with the frames that were queued by then.
pub data Pump : Type 0 where
  writing reading : (id fd : ℕ) (queued_before : List OutFrame) → Pump

-- The transport: the queue as far as it was filled, and whether the writer still takes frames. `dups`
-- are the results of the calls of `dup`, in order.
pub record Sender : Type 0 where
  pub queue : List OutFrame
  pub open_ended : Bool
  pub next_id : ℕ
  pub streams : List (ℕ × ℕ)
  pub sinks : List (ℕ × Sink)
  pub next_sink : ℕ
  pub flow : Flow
  pub pumps : List Pump
  pub dups : List (Result IoError (Unit {0}))

abbrev pub Sent : Type 0
Sent = Result TransportError (Unit {0}) × Sender

-- `frame_tx.send`
abbrev pub queue_frame : OutFrame → Sender → Sent
queue_frame f s =
    if s.open_ended
    then (ok tt, record s { queue = s.queue ++ (f ∷ []) })
    else (err TransportError.unexpected_eof, s)

abbrev pub then_send : Sent → (Sender → Sent) → Sent
then_send (err e, s) k = (err e, s)
then_send (ok u, s) k = k s

-- `dup_owned`, where no result left is no descriptor left.
abbrev pub with_dup : List (Result IoError (Unit {0})) → (Sender → Sent) → Sender → Sender → Sent
with_dup [] k failed s = (err (TransportError.io (IoError.os 24)), failed)
with_dup (err e ∷ rest) k failed s = (err (TransportError.io e), record failed { dups = rest })
with_dup (ok u ∷ rest) k failed s = k (record s { dups = rest })

-- `if spec.dir.writes()`: the stream is registered first, and a sink without a pump is dropped again.
abbrev pub start_writing : ℕ → ℕ → Sender → Sent
start_writing id fd s =
    let opened : Sender = record s {
      streams = insert id s.next_sink s.streams;
      sinks = (s.next_sink, open_sink id) ∷ s.sinks;
      next_sink = suc s.next_sink;
    } in
    with_dup opened.dups
      (λ d. (ok tt, record d { pumps = d.pumps ++ (Pump.writing id fd d.queue ∷ []) }))
      (record opened { streams = remove id opened.streams }) opened

-- `if spec.dir.reads()`, with a duplicate of the pipe as well.
abbrev pub start_reading : ℕ → ℕ → Sender → Sent
start_reading id fd s =
    with_dup s.dups
      (λ d.
        with_dup d.dups
          (λ c. (
            ok tt,
            record c {
              flow = (open_stream c.flow id none).1;
              pumps = c.pumps ++ (Pump.reading id fd c.queue ∷ []);
            },
          ))
          d d)
      s s

unfoldable pub start_sender_pumps : ℕ → FdSpec → Sender → Sent
start_sender_pumps id spec s =
    then_send (if writes spec.dir then start_writing id spec.fd s else (ok tt, s))
      λ t. if reads spec.dir then start_reading id spec.fd t else (ok tt, t)

-- `planned`: an id for each descriptor.
unfoldable pub plan : ℕ → List FdSpec → List (ℕ × FdSpec) × ℕ
plan next [] = ([], next)
plan next (spec ∷ specs) =
    let (id, next') = alloc_id next in
    let (planned, last) = plan next' specs in ((id, spec) ∷ planned, last)

abbrev pub advertised : List (ℕ × FdSpec) → List (ℕ × FdDir)
advertised [] = []
advertised ((id, spec) ∷ planned) = (id, spec.dir) ∷ advertised planned

unfoldable pub start_all : List (ℕ × FdSpec) → Sender → Sent
start_all [] s = (ok tt, s)
start_all ((id, spec) ∷ planned) s = then_send (start_sender_pumps id spec s) (start_all planned)

-- `send` behind its barrier.
abbrev pub send_now : Message → List FdSpec → Sender → Sent
send_now m [] s = queue_frame (OutFrame.control (Message.encode m)) s
send_now m (spec ∷ specs) s =
    let (planned, next) = plan s.next_id (spec ∷ specs) in
    then_send
      (queue_frame (OutFrame.fds (encode_fds (advertised planned))) (record s { next_id = next }))
      (start_all planned)

-- What the barrier sees when it begins.
abbrev begin : (ℕ → ℕ) → Flow → View
begin unread f = record { flow = f; unread = unread; notified = [] }

-- The barrier, which the later views of the flow-control state let go on, and what follows it.
abbrev pub behind : Option (View × List View) → (Sender → Sent) → Sender → Option Sent
behind none k s = none
behind (some (g, later)) k s = some (k (record s { flow = g.flow }))

unfoldable pub send : (ℕ → ℕ) → List View → Message → List FdSpec → Sender → Option Sent
send unread views m specs s = behind (barrier (begin unread s.flow) views) (send_now m specs) s

-- `MuxControlSender::send_control`
unfoldable pub send_control : (ℕ → ℕ) → List View → Message → Sender → Option Sent
send_control unread views m s =
    behind (barrier (begin unread s.flow) views) (queue_frame (OutFrame.control (Message.encode m)))
      s

-- `Drop for MuxTransport`
unfoldable pub drop_transport : Sender → Sender
drop_transport s = record s { flow = Flow.close s.flow }
