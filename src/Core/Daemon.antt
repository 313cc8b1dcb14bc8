-- ===== src/Core/Daemon.antt =====
-- daemon.rs: the configuration handshake with its attenuation.
use capsudo_rs.Base.{ℕ, List, [], ◌∷◌, ◌++◌, Option, none, some, if◌then◌else◌}
use capsudo_rs.Base.Result.{Result, ok, err, map_err, ok_or, ◌>>=◌}
use capsudo_rs.Proto.Defs.{FieldType, SessionType}
use capsudo_rs.Proto.Message.{Dims}
use capsudo_rs.Proto.Accessors.{as_str, as_session_type, as_winsize}
use capsudo_rs.Transport.Defs.{Received}
use capsudo_rs.Core.Defs.{
  CoreError, protocol, proto, client_closed, DaemonConfig, Stdio, SessionRequest,
}
use capsudo_rs.Core.Channel.{Event}

abbrev pub default_winsize : Dims
default_winsize = (24, 80, 0, 0)

-- The local variables of `receive_configuration`.
pub record Draft : Type 0 where
  pub argv : List (List ℕ)
  pub envp : List (List ℕ)
  pub session_type : SessionType
  pub stdio : Option Stdio
  pub winsize : Dims

-- What one message of the loop does: go on, or leave the loop.
pub data Turn : Type 0 where
  more : Draft → Turn
  finished : Turn

abbrev three : List ℕ → Result CoreError Stdio
three (a ∷ b ∷ c ∷ []) = ok (a, b, c)
three fds = err (protocol "expected exactly three stdio descriptors")

-- The `match` of the loop.
unfoldable pub take_field : DaemonConfig → Received → Draft → FieldType → Result CoreError Turn
take_field c r d FieldType.arg =
    if c.no_client_argv
    then ok (more d)
    else map_err proto (as_str r.message) >>= λ s.
        ok (more (record d { argv = d.argv ++ (s ∷ []) }))
take_field c r d FieldType.env =
    if c.no_client_env
    then ok (more d)
    else map_err proto (as_str r.message) >>= λ s.
        ok (more (record d { envp = d.envp ++ (s ∷ []) }))
take_field c r d FieldType.session_type =
    map_err proto (as_session_type r.message) >>= λ t. ok (more (record d { session_type = t }))
take_field c r d FieldType.winsize =
    map_err proto (as_winsize r.message) >>= λ w. ok (more (record d { winsize = w }))
take_field c r d FieldType.fd = three r.fds >>= λ s. ok (more (record d { stdio = some s }))
take_field c r d FieldType.secret = ok (more d)
take_field c r d FieldType.end = ok finished
take_field c r d other = ok (more d)

unfoldable pub receive_loop :
    DaemonConfig → Draft → List Event → Option (Result CoreError Draft × List Event)
receive_loop c d [] = none
receive_loop c d (err e ∷ es) = some (err (CoreError.transport e), es)
receive_loop c d (ok none ∷ es) = some (err client_closed, es)
receive_loop c d (ok (some r) ∷ es) = elim (take_field c r d r.message.field_type) [
  | err e ↦ some (err e, es)
  | ok finished ↦ some (ok d, es)
  | ok (more d') ↦ receive_loop c d' es
]

unfoldable pub initial : DaemonConfig → Draft
initial c = record {
  argv = c.fixed_args;
  envp = c.fixed_env;
  session_type = SessionType.non_interactive;
  stdio = none;
  winsize = default_winsize;
}

-- `"sh"`
abbrev pub shell : List ℕ
shell = b's' ∷ b'h' ∷ []

abbrev pub or_shell : List (List ℕ) → List (List ℕ)
or_shell [] = shell ∷ []
or_shell (a ∷ argv) = a ∷ argv

-- What follows the loop.
unfoldable pub finish : Draft → Result CoreError SessionRequest
finish d = ok_or d.stdio (protocol "client did not delegate stdio descriptors") >>= λ s.
    ok (record {
      argv = or_shell d.argv;
      envp = d.envp;
      session_type = d.session_type;
      stdio = s;
      winsize = d.winsize;
      secontext = none;
    })

abbrev pub finishing :
    Option (Result CoreError Draft × List Event)
    → Option (Result CoreError SessionRequest × List Event)
finishing none = none
finishing (some (r, es)) = some (r >>= finish, es)

unfoldable pub receive_configuration :
    DaemonConfig → List Event → Option (Result CoreError SessionRequest × List Event)
receive_configuration c es = finishing (receive_loop c (initial c) es)
