-- ===== src/Capsudo/Program.antt =====
-- main.rs of capsudo: `main` as a whole, on a terminal. What it prints is left out.
use capsudo_rs.Base.{ℕ, Bool, List, Option, none, some}
use capsudo_rs.Base.Result.{Result}
use capsudo_rs.Proto.Defs.{SessionType}
use capsudo_rs.Proto.Message.{Dims}
use capsudo_rs.Transport.Defs.{IoError}
use capsudo_rs.Core.Defs.{ClientRequest}
use capsudo_rs.Core.Channel.{Channel}
use capsudo_rs.Core.Resize.{read_winsize}
use capsudo_rs.Capsudo.Options.{Options, parse_options, request}
use capsudo_rs.Capsudo.Retry.{Ended, connect_loop}
use capsudo_rs.Capsudo.Terminal.{
  Termios, RawMode, RawCalls, PromptCalls, enable, drop, prompt_secret,
}

-- What the host gives the process beside its arguments: its environment, whether stdin and stdout are
-- terminals, the size of the terminal, the results of its calls on the terminal, and the connections.
pub record Host : Type 0 where
  pub vars : List ℕ → Option (List ℕ)
  pub stdin_tty : Bool
  pub stdout_tty : Bool
  pub ioctl : Result IoError Dims
  pub cfmakeraw : Termios → Termios
  pub raw : RawCalls
  pub prompting : PromptCalls
  pub connections : List (Option Channel)

-- Raw mode for an interactive session only.
abbrev pub raw_guard : SessionType → Host → Termios → Option RawMode × Termios
raw_guard SessionType.interactive host t = enable host.cfmakeraw host.raw t
raw_guard other host t = (none, t)

abbrev pub client_request : Host → Options → ClientRequest
client_request host o = request host.vars host.stdin_tty host.stdout_tty (read_winsize host.ioctl) o

-- The end of `main`, which drops the guard.
abbrev pub leave : Host → Option RawMode → Option (Ended Termios) → Option (ℕ × Termios)
leave host guard none = none
leave host guard (some (code, cs, t)) = some (code, drop guard host.raw t)

abbrev pub run_guarded : Host → ClientRequest → Option RawMode × Termios → Option (ℕ × Termios)
run_guarded host q (guard, t) =
    leave host guard
      (connect_loop (prompt_secret host.prompting) q (0, 1, 2) none host.connections t)

unfoldable pub run : Host → ClientRequest → Termios → Option (ℕ × Termios)
run host q t = run_guarded host q (raw_guard q.session_type host t)

abbrev pub on_options : Host → Termios → Option Options → Option (ℕ × Termios)
on_options host t none = some (2, t)
on_options host t (some o) = run host (client_request host o) t

-- The exit code and the terminal at the end; `none` while `main` has not returned.
unfoldable pub main : Host → List (List ℕ) → Termios → Option (ℕ × Termios)
main host args t = on_options host t (parse_options args)
