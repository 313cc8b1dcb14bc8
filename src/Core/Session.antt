-- ===== src/Core/Session.antt =====
-- daemon.rs: `serve_connection` and `run_and_report`, from a client's first message to the report of
-- its program's end.
use capsudo_rs.Base.{ℕ, false, List, Option, none, some}
use capsudo_rs.Base.Result.{Result, ok, err}
use capsudo_rs.Base.Int.{pos}
use capsudo_rs.Proto.Defs.{SessionType}
use capsudo_rs.Core.Defs.{CoreError, DaemonConfig, SessionRequest}
use capsudo_rs.Core.Channel.{Channel, M, return, ◌>>=◌, receiving}
use capsudo_rs.Core.Daemon.{receive_configuration}
use capsudo_rs.Core.Command.{Command, build_command, exit_code, send_error, send_exit, ignoring}
use capsudo_rs.Core.System.{System, Launch}
use capsudo_rs.Core.Pty.{head, try_io, when_spawned, with_command, run_interactive}

abbrev pub launch : SessionRequest → Command → Launch
launch q command = record {
  command = command;
  stdio = q.stdio;
  terminal = false;
  secontext = q.secontext;
}

module _ (sys : System) where
  open sys use {spawn, wait, to_string}

  unfoldable pub report : ℕ → M (Result CoreError (Unit {0}))
  report child = try_io (wait child false) >>= λ status. send_exit (exit_code status)

  unfoldable pub run_direct : SessionRequest → M (Result CoreError (Unit {0}))
  run_direct q =
      with_command (build_command q.argv q.envp)
        λ command. when_spawned sys report (head q.argv) (spawn (launch q command))

  abbrev pub by_type : SessionType → ℕ → SessionRequest → M (Result CoreError (Unit {0}))
  by_type SessionType.interactive n q = run_interactive sys n q
  by_type other n q = run_direct q

  unfoldable pub run_and_report : ℕ → SessionRequest → M (Result CoreError (Unit {0}))
  run_and_report n q = by_type q.session_type n q

  abbrev pub served :
      ℕ
      → Option (List ℕ)
      → Option (Result CoreError SessionRequest × Channel)
      → Option (Result CoreError (Unit {0}) × Channel)
  served n context none = none
  served n context (some (ok q, ch)) = run_and_report n (record q { secontext = context }) ch
  served n context (some (err e, ch)) =
      ignoring (send_error (to_string e)) (ignoring (send_exit (pos 1)) (return (err e))) ch

  -- `context` is the transport's `peer_secontext`; `n` is as for `run_interactive`.
  unfoldable pub serve_connection :
      ℕ → Option (List ℕ) → DaemonConfig → M (Result CoreError (Unit {0}))
  serve_connection n context c ch = served n context (receiving (receive_configuration c) ch)
