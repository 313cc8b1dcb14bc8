-- ===== src/Core/Defs.antt =====
-- Errors, the daemon's policy, and the two requests.
use Prim.Native.String.{String}
use capsudo_rs.Base.{ℕ, Bool, List, Option}
use capsudo_rs.Base.Int.{ℤ}
use capsudo_rs.Proto.Defs.{SessionType, ProtoError}
use capsudo_rs.Proto.Message.{Dims}
use capsudo_rs.Transport.Defs.{IoError, TransportError}

pub data CoreError : Type 0 where
  transport : TransportError → CoreError
  proto : ProtoError → CoreError
  io : IoError → CoreError
  daemon_closed : CoreError
  client_closed : CoreError
  protocol : String → CoreError
  refused : List ℕ → CoreError

pub record DaemonConfig : Type 0 where
  pub fixed_args : List (List ℕ)
  pub fixed_env : List (List ℕ)
  pub no_client_argv : Bool
  pub no_client_env : Bool

-- `[OwnedFd; 3]`
abbrev pub Stdio : Type 0
Stdio = ℕ × ℕ × ℕ

pub record SessionRequest : Type 0 where
  pub argv : List (List ℕ)
  pub envp : List (List ℕ)
  pub session_type : SessionType
  pub stdio : Stdio
  pub winsize : Dims
  pub secontext : Option (List ℕ)

pub record ClientRequest : Type 0 where
  pub args : List (List ℕ)
  pub env : List (List ℕ)
  pub session_type : SessionType
  pub winsize : Option Dims

pub data SessionOutcome : Type 0 where
  exited : ℤ → SessionOutcome
  failed : (code : ℤ) (message : List ℕ) → SessionOutcome
  unauthorized : List ℕ → SessionOutcome
