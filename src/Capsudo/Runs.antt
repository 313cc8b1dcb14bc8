-- ===== src/Capsudo/Runs.antt =====
-- A session that is refused, and run again with a secret, and the theorems on it.
use capsudo_rs.Base.{ℕ, ◌≡◌, refl, List, [], ◌∷◌, Option, none, some}
use capsudo_rs.Base.Result.{ok}
use capsudo_rs.Base.Int.{pos, i32_bits, bits_i32}
use capsudo_rs.Base.Bytes.{to_le, from_le}
use capsudo_rs.Base.Utf8.{is_utf8}
use capsudo_rs.Proto.Defs.{SessionType}
use capsudo_rs.Proto.Message
use capsudo_rs.Proto.Accessors.{as_str, as_i32, fixed_payload}
use capsudo_rs.Core.Defs.{ClientRequest, Stdio, exited, unauthorized}
use capsudo_rs.Core.Channel.{Channel, send}
use capsudo_rs.Core.Client.{
  run_session, send_configuration, send_each, await_outcome, await_loop, take_report,
}
use capsudo_rs.Core.Outcome.{events}
use capsudo_rs.Core.Handshake.{config_messages}
use capsudo_rs.Capsudo.Retry.{connect_loop, connect_loop-twice}

abbrev pub request : ClientRequest
request = record { args = []; env = []; session_type = SessionType.non_interactive; winsize = none }

abbrev pub stdio : Stdio
stdio = (0, 1, 2)

abbrev prompt : List ℕ
prompt = b'?' ∷ []

abbrev pub secret : List ℕ
secret = b'p' ∷ b'w' ∷ []

abbrev pub typed : List ℕ → Unit {0} → Option (Option (List ℕ) × Unit {0})
typed text t = some (some secret, t)

-- The front-end demands a secret, and the next time the program ends with the status 3.
abbrev refusing : Channel
refusing = record {
  recvs = events (Message.unauthorized prompt ∷ []);
  sends = ok tt ∷ ok tt ∷ ok tt ∷ [];
  sent = [];
}

abbrev pub serving : Channel
serving = record {
  recvs = events (Message.exit (pos 3) ∷ []);
  sends = ok tt ∷ ok tt ∷ ok tt ∷ ok tt ∷ [];
  sent = [];
}

refused :
    run_session request stdio none refusing
    ≡ some (
      ok (unauthorized prompt),
      record { recvs = []; sends = []; sent = config_messages request stdio none },
    )
unfolding run_session send_configuration send_each send await_outcome await_loop take_report as_str
    is_utf8 Message.unauthorized
refused = refl

served :
    run_session request stdio (some secret) serving
    ≡ some (
      ok (exited (pos 3)),
      record { recvs = []; sends = []; sent = config_messages request stdio (some secret) },
    )
unfolding run_session send_configuration send_each send await_outcome await_loop take_report as_i32
    fixed_payload to_le from_le i32_bits bits_i32 Message.exit
served = refl

connect_loop-twice_example :
    connect_loop typed request stdio none (some refusing ∷ some serving ∷ none ∷ []) tt
    ≡ connect_loop typed request stdio none (some refusing ∷ some serving ∷ []) tt
connect_loop-twice_example =
    connect_loop-twice typed request stdio (some refusing) (some serving) (none ∷ []) [] tt
