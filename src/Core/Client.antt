-- ===== src/Core/Client.antt =====
-- client.rs: the client's half of a session. The task that forwards terminal resizes beside it
-- sends over a sender of its own, and stands in Core/Resize.antt.
use capsudo_rs.Base.{ℕ, List, [], ◌∷◌, Option, none, some}
use capsudo_rs.Base.Result.{Result, ok, err, map_err, unwrap_or}
use capsudo_rs.Base.Int.{ℤ}
use capsudo_rs.Proto.Defs.{FieldType, Message}
use capsudo_rs.Proto.Message
use capsudo_rs.Proto.Message.{Dims}
use capsudo_rs.Proto.Accessors.{as_str, as_i32}
use capsudo_rs.Transport.Defs.{FdSpec}
use capsudo_rs.Transport.FdSpec
use capsudo_rs.Core.Defs.{
  CoreError, proto, protocol, daemon_closed, refused, Stdio, ClientRequest, SessionOutcome, exited,
  failed, unauthorized,
}
use capsudo_rs.Core.Channel.{Event, Channel, M, return, ◌>>=◌, ◌>>◌, send, receiving}

-- `for entry in list { transport.send(&make(entry), &[]).await?; }`
unfoldable pub send_each : (List ℕ → Message) → List (List ℕ) → M (Result CoreError (Unit {0}))
send_each make [] = return (ok tt)
send_each make (s ∷ ss) = send (make s) [] >> send_each make ss

abbrev pub send_secret : Option (List ℕ) → M (Result CoreError (Unit {0}))
send_secret none = return (ok tt)
send_secret (some s) = send (Message.secret s) []

abbrev pub send_winsize : Option Dims → M (Result CoreError (Unit {0}))
send_winsize none = return (ok tt)
send_winsize (some dims) = send (Message.winsize dims) []

-- The directions of the three descriptors.
abbrev pub stdio_specs : Stdio → List FdSpec
stdio_specs (i, o, e) = FdSpec.read i ∷ FdSpec.write o ∷ FdSpec.write e ∷ []

unfoldable pub send_configuration :
    ClientRequest → Stdio → Option (List ℕ) → M (Result CoreError (Unit {0}))
unfolding send_each
send_configuration q stdio secret = do
  send_secret secret
  send_each Message.env q.env
  send_each Message.arg q.args
  send (Message.session_type q.session_type) []
  send_winsize q.winsize
  send (Message.fds 3) (stdio_specs stdio)
  send Message.end []

-- `b"password: "` and `b"<malformed error>"`
abbrev pub default_prompt : List ℕ
default_prompt = b'p' ∷ b'a' ∷ b's' ∷ b's' ∷ b'w' ∷ b'o' ∷ b'r' ∷ b'd' ∷ b':' ∷ b' ' ∷ []

abbrev pub malformed_error : List ℕ
malformed_error =
    b'<' ∷ b'm' ∷ b'a' ∷ b'l' ∷ b'f' ∷ b'o' ∷ b'r' ∷ b'm' ∷ b'e' ∷ b'd' ∷ b' ' ∷ b'e' ∷ b'r' ∷ b'r'
    ∷ b'o' ∷ b'r' ∷ b'>' ∷ []

-- What one message of the loop does: go on with the first error so far, or return.
pub data Turn : Type 0 where
  more : Option (List ℕ) → Turn
  finished : Result CoreError SessionOutcome → Turn

abbrev outcome : Option (List ℕ) → ℤ → SessionOutcome
outcome none code = exited code
outcome (some message) code = failed code message

abbrev exit_with : Option (List ℕ) → Result CoreError ℤ → Result CoreError SessionOutcome
exit_with failure (ok code) = ok (outcome failure code)
exit_with failure (err e) = err e

-- `get_or_insert_with`
abbrev pub keep_first : Option (List ℕ) → List ℕ → Option (List ℕ)
keep_first none message = some message
keep_first (some first) message = some first

unfoldable pub take_report : Message → Option (List ℕ) → FieldType → Turn
take_report m failure FieldType.exit = finished (exit_with failure (map_err proto (as_i32 m)))
take_report m failure FieldType.unauthorized =
    finished (ok (unauthorized (unwrap_or (as_str m) default_prompt)))
take_report m failure FieldType.error =
    more (keep_first failure (unwrap_or (as_str m) malformed_error))
take_report m failure other = more failure

unfoldable pub await_loop :
    Option (List ℕ) → List Event → Option (Result CoreError SessionOutcome × List Event)
await_loop failure [] = none
await_loop failure (err e ∷ es) = some (err (CoreError.transport e), es)
await_loop failure (ok none ∷ es) = some (err daemon_closed, es)
await_loop failure (ok (some r) ∷ es) = elim (take_report r.message failure r.message.field_type) [
  | finished result ↦ some (result, es)
  | more failure' ↦ await_loop failure' es
]

unfoldable pub await_outcome : List Event → Option (Result CoreError SessionOutcome × List Event)
unfolding await_loop
await_outcome = await_loop none

-- The `match (result, send_result)`.
abbrev pub merge :
    Result CoreError SessionOutcome → Result CoreError (Unit {0}) → Result CoreError SessionOutcome
merge (ok outcome) sent = ok outcome
merge (err recv_err) (ok u) = err recv_err
merge (err recv_err) (err send_err) = err send_err

abbrev merging :
    Result CoreError (Unit {0})
    → Option (Result CoreError SessionOutcome × Channel)
    → Option (Result CoreError SessionOutcome × Channel)
merging sent none = none
merging sent (some (result, ch)) = some (merge result sent, ch)

unfoldable pub run_session :
    ClientRequest → Stdio → Option (List ℕ) → M (Result CoreError SessionOutcome)
run_session q stdio secret ch = elim (send_configuration q stdio secret ch) [
  | none ↦ none
  | some (sent, ch') ↦ merging sent (receiving await_outcome ch')
]

abbrev pub status : SessionOutcome → Result CoreError ℤ
status (exited code) = ok code
status (failed code message) = err (refused message)
status (unauthorized prompt) = err (protocol "authentication required")

unfoldable pub run_client : ClientRequest → Stdio → M (Result CoreError ℤ)
run_client q stdio = run_session q stdio none >>= λ o. return (status o)
