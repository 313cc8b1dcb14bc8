-- ===== src/Capsudo/TerminalRuns.antt =====
-- The client on a terminal, and the theorems on it at concrete inputs.
use capsudo_rs.Base.{ℕ, ◌≡◌, refl, ap, Bool, true, false, List, [], ◌∷◌, Option, none, some}
use capsudo_rs.Base.Result.{ok}
use capsudo_rs.Base.Int.{pos, i32_bits, bits_i32}
use capsudo_rs.Base.Bytes.{to_le, from_le}
use capsudo_rs.Base.Utf8.{is_utf8}
use capsudo_rs.Proto.Message
use capsudo_rs.Proto.Accessors.{as_str, as_i32, fixed_payload}
use capsudo_rs.Core.Defs.{ClientRequest, unauthorized}
use capsudo_rs.Core.Channel.{Channel, send}
use capsudo_rs.Core.Client.{
  run_session, send_configuration, send_each, await_outcome, await_loop, take_report,
}
use capsudo_rs.Core.Handshake.{config_messages}
use capsudo_rs.Core.Outcome.{events}
use capsudo_rs.Core.Resize.{read_winsize}
use capsudo_rs.Capsudo.Options.{
  parse_options, parse_loop, defaults, request, append_default_env, forwarded,
  determine_session_type, secret_of, trim_end,
}
use capsudo_rs.Capsudo.Retry.{connect_loop, after_session}
use capsudo_rs.Capsudo.Terminal.{Termios, enable, drop, prompt_secret}
use capsudo_rs.Capsudo.Program.{Host, client_request, run, main}
use capsudo_rs.Capsudo.Restored.{main-restores}
use capsudo_rs.Capsudo.RawPrompt.{main-enter_waits}

abbrev cooked : Termios
cooked = record { echo = true; icanon = true; isig = true; icrnl = true; others = 7 }

abbrev raw : Termios → Termios
raw t = record { echo = false; icanon = false; isig = false; icrnl = false; others = 0 }

abbrev prompt : List ℕ
prompt = b'?' ∷ []

-- A demand of a secret, and a session that ends with the status 3.
abbrev refusing : Channel
refusing = record {
  recvs = events (Message.unauthorized prompt ∷ []);
  sends = ok tt ∷ ok tt ∷ ok tt ∷ ok tt ∷ [];
  sent = [];
}

abbrev serving : Channel
serving = record {
  recvs = events (Message.exit (pos 3) ∷ []);
  sends = ok tt ∷ ok tt ∷ ok tt ∷ ok tt ∷ ok tt ∷ [];
  sent = [];
}

-- The user types `pw` and Enter: with `icrnl` that is a line.
abbrev typed : Bool → Option (Option (List ℕ))
typed true = some (some (b'p' ∷ b'w' ∷ 10 ∷ []))
typed false = none

abbrev host : Host
host = record {
  vars = λ _. none;
  stdin_tty = true;
  stdout_tty = true;
  ioctl = ok (24, 80, 0, 0);
  cfmakeraw = raw;
  raw = record { get = ok tt; set = ok tt; restore = ok tt };
  prompting = record {
    open_tty = ok tt;
    get = ok tt;
    set_quiet = ok tt;
    read_line = λ t. typed t.icrnl;
    restore = ok tt;
  };
  connections = some refusing ∷ some serving ∷ [];
}

-- Off a terminal the secret is taken, and the session is run again.
abbrev piped : Host
piped = record host { stdout_tty = false }

authenticated : main piped [] cooked ≡ some (3, cooked)
unfolding main run parse_options parse_loop defaults request append_default_env forwarded
    determine_session_type connect_loop after_session prompt_secret secret_of trim_end drop
    run_session send_configuration send_each send await_outcome await_loop take_report as_str as_i32
    is_utf8 Message.unauthorized fixed_payload to_le from_le i32_bits bits_i32 Message.exit
authenticated = refl

-- A session in raw mode.
abbrev interactive : Host
interactive = record host {
  connections =
      some (record {
        recvs = events (Message.exit (pos 3) ∷ []);
        sends = ok tt ∷ ok tt ∷ ok tt ∷ ok tt ∷ [];
        sent = [];
      })
      ∷ [];
}

ended : main interactive [] cooked ≡ some (3, cooked)
unfolding main run parse_options parse_loop defaults request append_default_env forwarded
    determine_session_type read_winsize enable connect_loop after_session drop run_session
    send_configuration send_each send await_outcome await_loop take_report as_i32 fixed_payload
    to_le from_le i32_bits bits_i32 Message.exit
ended = refl

main-restores_example : cooked ≡ cooked
main-restores_example = main-restores interactive [] cooked cooked 3 refl refl ended

abbrev interactive_request : ClientRequest
interactive_request = client_request host defaults

demanded :
    run_session interactive_request (0, 1, 2) none refusing
    ≡ some (
      ok (unauthorized prompt),
      record { recvs = []; sends = []; sent = config_messages interactive_request (0, 1, 2) none },
    )
unfolding run_session send_configuration send_each send await_outcome await_loop take_report as_str
    is_utf8 Message.unauthorized request append_default_env forwarded determine_session_type
    defaults read_winsize
demanded = refl

parsed : parse_options [] ≡ some defaults
unfolding parse_options parse_loop
parsed = refl

main-enter_waits_example : main host [] cooked ≡ none
unfolding request defaults determine_session_type
main-enter_waits_example =
    main-enter_waits host [] defaults cooked refusing
      (record { recvs = []; sends = []; sent = config_messages interactive_request (0, 1, 2) none })
      prompt (some serving ∷ []) parsed refl refl refl refl refl refl refl
      (λ s line untranslated. ap typed untranslated) refl demanded
