-- ===== src/Capsudo/OptionRuns.antt =====
-- Command lines on concrete arguments, and the theorems about them at concrete inputs.
use capsudo_rs.Base.{
  ℕ, ◌≡◌, refl, true, false, List, [], ◌∷◌, ◌++◌, Option, none, some, ◌==◌, if◌then◌else◌, inl,
}
use capsudo_rs.Proto.Defs.{SessionType}
use capsudo_rs.Core.Defs.{DaemonConfig, Stdio}
use capsudo_rs.Core.Delivery.{delegated}
use capsudo_rs.Core.Command.{Command, build_command, get_env, str_eq}
use capsudo_rs.Capsudo.Options.{
  Valued, Token, token, flag, default_socket, parse_loop, parse_options, defaults, request, Options,
  determine_session_type, secret_of, trim_end,
}
use capsudo_rs.Capsudo.CommandLine.{
  Setting, force_interactive, force_non_interactive, with_value, arguments, parse_options-arguments,
}
use capsudo_rs.Capsudo.Environment.{build_command-append_default_env}

abbrev ls : List ℕ
ls = b'l' ∷ b's' ∷ []

abbrev dumb : List ℕ
dumb = b'T' ∷ b'E' ∷ b'R' ∷ b'M' ∷ b'=' ∷ b'd' ∷ []

abbrev settings : List Setting
settings = force_interactive ∷ with_value Valued.env dumb ∷ force_non_interactive ∷ []

ls-word : token ls ≡ Token.word
unfolding token str_eq
ls-word = refl

-- What follows the program is its own, also what looks like an option.
parse_options-arguments_example :
    parse_options (arguments settings ++ (ls ∷ flag b'i' ∷ []))
    ≡ some (record {
      socket = default_socket;
      session = some SessionType.non_interactive;
      shell = false;
      env = dumb ∷ [];
      args = ls ∷ flag b'i' ∷ [];
    })
parse_options-arguments_example = parse_options-arguments settings ls (flag b'i' ∷ []) ls-word

-- `-S` without a path.
missing_value : parse_options (flag b'S' ∷ []) ≡ none
unfolding parse_options parse_loop token str_eq
missing_value = refl

-- A client on the terminal `x` that asks for `d`.
abbrev term : List ℕ
term = b'T' ∷ b'E' ∷ b'R' ∷ b'M' ∷ []

abbrev vars : List ℕ → Option (List ℕ)
vars [] = none
vars (b ∷ bs) = if b == b'T' then some (b'x' ∷ []) else none

-- A policy that takes what the client sends.
abbrev open_policy : DaemonConfig
open_policy = record {
  fixed_args = [];
  fixed_env = [];
  no_client_argv = false;
  no_client_env = false;
}

abbrev with_dumb : Options
with_dumb = record defaults { env = dumb ∷ []; args = ls ∷ [] }

abbrev descriptors : Stdio
descriptors = (0, 1, 2)

build_command-append_default_env_example :
    (built : Command) × (build_command
        (delegated open_policy (request vars true true none with_dumb) descriptors).argv
        (delegated open_policy (request vars true true none with_dumb) descriptors).envp
      ≡ some built)
    × (get_env term built.env ≡ some (b'x' ∷ []))
build_command-append_default_env_example =
    build_command-append_default_env vars term (b'x' ∷ []) true true none with_dumb open_policy
      descriptors (inl refl) refl refl

on_terminal :
    (request vars true true (some (24, 80, 0, 0)) (record defaults { args = ls ∷ [] })).session_type
    ≡ SessionType.interactive
unfolding request determine_session_type defaults
on_terminal = refl

secret_line : secret_of (some (b'p' ∷ b'w' ∷ 13 ∷ 10 ∷ [])) ≡ some (b'p' ∷ b'w' ∷ [])
unfolding secret_of trim_end
secret_line = refl

empty_line : secret_of (some (10 ∷ [])) ≡ none
unfolding secret_of trim_end
empty_line = refl
