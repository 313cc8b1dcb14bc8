-- ===== src/Core/Resize.antt =====
-- client.rs: the task that forwards terminal resizes, beside the session that waits for its outcome. It
-- sends over a sender of its own. A wake-up is one return of the signal stream; the list ends where the
-- task waits, or is aborted when the session returns.
use capsudo_rs.Base.{ℕ, List, [], ◌∷◌, Option, none, some}
use capsudo_rs.Base.Result.{Result, ok, err, to_option}
use capsudo_rs.Proto.Defs.{Message}
use capsudo_rs.Proto.Message
use capsudo_rs.Proto.Message.{Dims}
use capsudo_rs.Transport.Defs.{IoError, TransportError}
use capsudo_rs.Core.Defs.{CoreError, ClientRequest}

-- The `ioctl` on the terminal fails, or fills in the four fields.
unfoldable pub read_winsize : Result IoError Dims → Option Dims
read_winsize answer = to_option answer

-- A signal, with what the `ioctl` after it gives, or the end of the stream.
pub data Wake : Type 0 where
  signalled : Result IoError Dims → Wake
  ended : Wake

-- What the results of `send_control` are.
abbrev pub Answers : Type 0
Answers = List (Result TransportError (Unit {0}))

abbrev pub send_size : Dims → Answers → (Answers → List Message) → List Message
send_size dims [] rest = []
send_size dims (err e ∷ answers) rest = []
send_size dims (ok u ∷ answers) rest = Message.winsize dims ∷ rest answers

abbrev pub if_read : Option Dims → Answers → (Answers → List Message) → List Message
if_read none answers rest = rest answers
if_read (some dims) answers rest = send_size dims answers rest

-- The loop: what it has sent.
unfoldable pub forward_loop : List Wake → Answers → List Message
forward_loop [] answers = []
forward_loop (ended ∷ wakes) answers = []
forward_loop (signalled size ∷ wakes) answers =
    if_read (read_winsize size) answers (forward_loop wakes)

-- The task, whose handler may fail to be set up.
unfoldable pub winch_forwarder :
    (handler : Result IoError (Unit {0})) → List Wake → Answers → List Message
winch_forwarder (err e) wakes answers = []
winch_forwarder (ok u) wakes answers = forward_loop wakes answers

-- `control_sender`, if the task is to be spawned at all: the configuration has been sent and is that
-- of a terminal.
abbrev pub winch_sender :
    Result CoreError (Unit {0}) → Option Dims → (control_sender : Option ℕ) → Option ℕ
winch_sender (err e) size sender = none
winch_sender (ok u) none sender = none
winch_sender (ok u) (some dims) sender = sender

abbrev pub spawned : Option ℕ → List Message → List Message
spawned none sent = []
spawned (some sender) sent = sent

-- What a session sends beside its configuration.
unfoldable pub resizes :
    ClientRequest
    → (send_result : Result CoreError (Unit {0})) → (control_sender : Option ℕ)
    → (handler : Result IoError (Unit {0})) → List Wake
    → Answers
    → List Message
resizes q send_result sender handler wakes answers =
    spawned (winch_sender send_result q.winsize sender) (winch_forwarder handler wakes answers)
