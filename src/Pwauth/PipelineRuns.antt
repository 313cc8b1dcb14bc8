-- ===== src/Pwauth/PipelineRuns.antt =====
-- The pipeline on a concrete command line and client, and its theorems at concrete inputs.
use capsudo_rs.Base.{
  ℕ, ◌≡◌, refl, true, false, List, [], ◌∷◌, ◌++◌, none, some, ◌==◌, if◌then◌else◌,
}
use capsudo_rs.Base.Result.{ok, err}
use capsudo_rs.Base.Int.{pos}
use capsudo_rs.Proto.Defs.{SessionType}
use capsudo_rs.Proto.Message
use capsudo_rs.Transport.Defs.{not_found}
use capsudo_rs.Unix.Listen.{Call, remove_file, bind_at, set_permissions}
use capsudo_rs.Core.Defs.{ClientRequest}
use capsudo_rs.Core.Command.{Command, str_eq}
use capsudo_rs.Core.Relay.{polled, finished}
use capsudo_rs.Core.System.{System}
use capsudo_rs.Capsudod.Options.{flag}
use capsudo_rs.Capsudod.CommandLine
use capsudo_rs.Capsudod.Serve
use capsudo_rs.Pwauth.Options.{
  Valued, capsudod, parse_options, parse_loop, token, defaults, take_value,
}
use capsudo_rs.Pwauth.CommandLine.{Setting, given}
use capsudo_rs.Pwauth.Front.{Host, main, exits}
use capsudo_rs.Pwauth.Pipeline.{messages}

abbrev kim : List ℕ
kim = b'k' ∷ b'i' ∷ b'm' ∷ []

abbrev id_text : List ℕ
id_text = b'i' ∷ b'd' ∷ []

-- The line `kim:h:`, under a `crypt` by which every password has every hash.
abbrev host : Host
host = record {
  users = λ _. none;
  groups = λ _. none;
  user_of = λ uid. if uid == 1000 then some kim else none;
  name = none;
  crypt = λ key salt. some salt;
  shadow = some (kim ++ (b':' ∷ b'h' ∷ b':' ∷ []));
  answer = λ _. ok tt;
}

-- `-m 600 -S s`
abbrev settings : List Setting
settings = given Valued.mode (b'6' ∷ b'0' ∷ b'0' ∷ []) ∷ given Valued.socket (b's' ∷ []) ∷ []

-- Plain `capsudod` where no command is given, and no value for an option.
no_command :
    parse_options host.users host.groups (flag b'S' ∷ (b's' ∷ []) ∷ [])
    ≡ some (record defaults { socket = some (b's' ∷ []); capsudod_cmd = capsudod ∷ [] })
unfolding parse_options parse_loop token defaults take_value str_eq
no_command = refl

value_missing : parse_options host.users host.groups (flag b'm' ∷ []) ≡ none
unfolding parse_options parse_loop token str_eq
value_missing = refl

-- Without a socket it says how it is used.
no_socket : main host (kim ∷ []) [] ≡ exits 2
unfolding main parse_options parse_loop token defaults str_eq
no_socket = refl

-- `capsudod -f -- id`
abbrev daemon_settings : List CommandLine.Setting
daemon_settings = CommandLine.pin_argv ∷ []

abbrev unix : System
unix = record {
  openpty = λ _. ok (10, 11);
  try_clone = λ _. ok tt;
  pipe = ok tt;
  spawn = λ _. ok 5;
  wait = λ _ _. ok (record { code = some (pos 3); signal = none });
  cancel = ok 1;
  typed = λ _. polled true false finished ∷ [];
  shown = polled false true finished ∷ [];
  to_string = λ _. id_text;
  unable_to_run = λ program e. program;
}

abbrev request : ClientRequest
request = record {
  args = (b'l' ∷ b's' ∷ []) ∷ [];
  env = [];
  session_type = SessionType.non_interactive;
  winsize = none;
}

abbrev daemon : Serve.Host
daemon = record {
  stdin = record { channel = messages request (0, 1, 2) none [] []; context = none; messages = 0 };
  set_nonblocking = λ _. ok tt;
  from_std = λ fd. ok fd;
  answer = λ _. err not_found;
  accepts = [];
}

abbrev calls : List Call
calls = remove_file (b's' ∷ []) ∷ bind_at (b's' ∷ []) ∷ set_permissions (b's' ∷ []) 0o600 ∷ []

abbrev id_command : Command
id_command = record { program = id_text; args = []; env = [] }
