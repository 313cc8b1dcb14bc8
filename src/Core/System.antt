-- ===== src/Core/System.antt =====
-- What a session asks of the operating system, and `write_secontext_in_child` of
-- crates/capsudo-core/src/daemon.rs. A duplicate of a descriptor is the same open file and has the same
-- number here.
use capsudo_rs.Base.{ℕ, Bool, List, Option, ◌==◌, length, if◌then◌else◌}
use capsudo_rs.Base.Result.{Result, ok, err}
use capsudo_rs.Proto.Message.{Dims}
use capsudo_rs.Transport.Defs.{IoError}
use capsudo_rs.Core.Defs.{CoreError, Stdio}
use capsudo_rs.Core.Command.{Command, ExitStatus}
use capsudo_rs.Core.Relay.{Round}

-- A command with its stdio and its `pre_exec`: whether the child becomes a session leader with its
-- input as the controlling terminal, and the context it writes.
pub record Launch : Type 0 where
  pub command : Command
  pub stdio : Stdio
  pub terminal : Bool
  pub secontext : Option (List ℕ)

-- The places where a descriptor is duplicated.
pub data Clone : Type 0 where
  slave_in slave_out master_out master_in : Clone

-- A child is known by a number. `wait` is told whether the child was killed. `cancel` is the result of
-- writing a byte into the pipe, `typed` and `shown` are the rounds of the two threads that relay a
-- terminal's bytes, those of the thread with the pipe's other end by whether a byte is ever written
-- into it, and `to_string` is the text of an error.
pub record System : Type 0 where
  pub openpty : Dims → Result IoError (ℕ × ℕ)
  pub try_clone : Clone → Result IoError (Unit {0})
  pub pipe : Result IoError (Unit {0})
  pub spawn : Launch → Result IoError ℕ
  pub wait : ℕ → Bool → Result IoError ExitStatus
  pub cancel : Result IoError ℕ
  pub typed : (woken : Bool) → List Round
  pub shown : List Round
  pub to_string : CoreError → List ℕ
  pub unable_to_run : List ℕ → IoError → List ℕ

-- The calls of `open` and `write` by their results, and the error that is reported: `errno`.
unfoldable pub write_secontext_in_child :
    Result IoError ℕ
    → (ℕ → List ℕ → Result IoError ℕ)
    → IoError
    → List ℕ
    → Result IoError (Unit {0})
write_secontext_in_child (err e) write errno context = err e
write_secontext_in_child (ok fd) write errno context = elim (write fd context) [
  | err e ↦ err e
  | ok written ↦ if written == length context then ok tt else err errno
]
