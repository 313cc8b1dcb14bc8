-- ===== src/Capsudod/ServeRuns.antt =====
-- `main` of capsudod on a concrete command line, and its theorem at a concrete input.
use capsudo_rs.Base.{ℕ, ◌≡◌, refl, true, false, List, [], ◌∷◌, Option, none, some}
use capsudo_rs.Base.Result.{ok, err}
use capsudo_rs.Base.Int.{pos}
use capsudo_rs.Transport.Defs.{not_found, interrupted, TransportError}
use capsudo_rs.Unix.Connect.{from_fd}
use capsudo_rs.Unix.Listen.{Answer, Call, remove_file, bind_at, set_permissions}
use capsudo_rs.Core.Relay.{polled, finished}
use capsudo_rs.Core.System.{System}
use capsudo_rs.Core.Command.{str_eq}
use capsudo_rs.Capsudod.Options.{Valued, token, parse_options, parse_loop, defaults}
use capsudo_rs.Capsudod.CommandLine.{Setting, pin_argv, with_value}
use capsudo_rs.Capsudod.Serve.{Connection, Host, Session, exits, serve, one_shot, main}
use capsudo_rs.Capsudod.Gated.{pinned}

abbrev unix : System
unix = record {
  openpty = λ _. ok (10, 11);
  try_clone = λ _. ok tt;
  pipe = ok tt;
  spawn = λ _. ok 5;
  wait = λ _ _. ok (record { code = some (pos 3); signal = none });
  cancel = ok 1;
  typed = λ _. polled true false finished ∷ [];
  shown = polled false true finished ∷ [];
  to_string = λ _. b'x' ∷ [];
  unable_to_run = λ program e. program;
}

abbrev users : List ℕ → Option (ℕ × ℕ)
users name = none

abbrev groups : List ℕ → Option ℕ
groups name = none

-- The stale socket is not there, and all other calls go well.
abbrev answer : Answer
answer (remove_file path) = err not_found
answer c = ok tt

abbrev gone : Connection
gone = record {
  channel = record { recvs = ok none ∷ []; sends = ok tt ∷ ok tt ∷ []; sent = [] };
  context = none;
  messages = 0;
}

abbrev host : Host
host = record {
  stdin = gone;
  set_nonblocking = λ _. err interrupted;
  from_std = λ fd. ok fd;
  answer = answer;
  accepts = err (TransportError.io interrupted) ∷ ok gone ∷ [];
}

-- `-S s -m 600 -f`, and then `-- l`.
abbrev settings : List Setting
settings =
    with_value Valued.socket (b's' ∷ [])
    ∷ with_value Valued.mode (b'6' ∷ b'0' ∷ b'0' ∷ [])
    ∷ pin_argv
    ∷ []

abbrev program : List (List ℕ)
program = (b'l' ∷ []) ∷ []

-- Without a socket, and a stdin that is no socket.
no_socket : main unix users groups ((b'l' ∷ []) ∷ []) host ≡ exits 1
unfolding main parse_options parse_loop token defaults str_eq one_shot from_fd
no_socket = refl

abbrev calls : List Call
calls = remove_file (b's' ∷ []) ∷ bind_at (b's' ∷ []) ∷ set_permissions (b's' ∷ []) 0o600 ∷ []

abbrev sessions : List Session
sessions = serve unix (pinned settings program) gone ∷ []
