-- ===== src/Capsudo/Options.antt =====
-- main.rs of capsudo: the command line, and the request that `main` makes of it. The client's
-- environment, its terminals and the size of its window are parameters.
use capsudo_rs.Base.{
  ℕ, Bool, true, false, ◌&&◌, ◌||◌, List, [], ◌∷◌, ◌++◌, Option, none, some, ◌==◌, if◌then◌else◌,
}
use capsudo_rs.Proto.Defs.{SessionType}
use capsudo_rs.Proto.Message.{Dims}
use capsudo_rs.Core.Defs.{ClientRequest}
use capsudo_rs.Core.Command.{str_eq}

pub record Options : Type 0 where
  pub socket : List ℕ
  pub session : Option SessionType
  pub shell : Bool
  pub env : List (List ℕ)
  pub args : List (List ℕ)

-- The options that take the next argument as their value.
pub data Valued : Type 0 where
  socket env : Valued

-- What a token of the command line is.
pub data Token : Type 0 where
  help interactive non_interactive shell dashes word : Token
  valued : Valued → Token

-- `-` and one letter.
abbrev pub flag : ℕ → List ℕ
flag b = b'-' ∷ b ∷ []

-- `--help`
abbrev pub long_help : List ℕ
long_help = b'-' ∷ b'-' ∷ b'h' ∷ b'e' ∷ b'l' ∷ b'p' ∷ []

-- `DEFAULT_SOCKET`, /run/capsudo/default
abbrev pub default_socket : List ℕ
default_socket =
    b'/' ∷ b'r' ∷ b'u' ∷ b'n' ∷ b'/' ∷ b'c' ∷ b'a' ∷ b'p' ∷ b's' ∷ b'u' ∷ b'd' ∷ b'o' ∷ b'/' ∷ b'd'
    ∷ b'e' ∷ b'f' ∷ b'a' ∷ b'u' ∷ b'l' ∷ b't' ∷ []

-- `DEFAULT_ENV`
abbrev pub default_env : List (List ℕ)
default_env =
    (b'T' ∷ b'E' ∷ b'R' ∷ b'M' ∷ [])
    ∷ (b'L' ∷ b'A' ∷ b'N' ∷ b'G' ∷ [])
    ∷ (b'L' ∷ b'C' ∷ b'_' ∷ b'A' ∷ b'L' ∷ b'L' ∷ [])
    ∷ (b'L' ∷ b'C' ∷ b'_' ∷ b'C' ∷ b'T' ∷ b'Y' ∷ b'P' ∷ b'E' ∷ [])
    ∷ (b'L' ∷ b'C' ∷ b'_' ∷ b'M' ∷ b'E' ∷ b'S' ∷ b'S' ∷ b'A' ∷ b'G' ∷ b'E' ∷ b'S' ∷ [])
    ∷ (b'C' ∷ b'O' ∷ b'L' ∷ b'O' ∷ b'R' ∷ b'T' ∷ b'E' ∷ b'R' ∷ b'M' ∷ [])
    ∷ []

unfoldable pub token : List ℕ → Token
token t =
    if str_eq t (flag b'h')
    then help
    else if str_eq t long_help
    then help
    else if str_eq t (flag b'i')
    then Token.interactive
    else if str_eq t (flag b'n')
    then Token.non_interactive
    else if str_eq t (flag b's')
    then Token.shell
    else if str_eq t (flag b'S')
    then valued Valued.socket
    else if str_eq t (flag b'e')
    then valued Valued.env
    else if str_eq t (flag b'-')
    then dashes
    else word

unfoldable pub defaults : Options
defaults = record { socket = default_socket; session = none; shell = false; env = []; args = [] }

abbrev pub take_value : Valued → List ℕ → Options → Options
take_value Valued.socket v o = record o { socket = v }
take_value Valued.env v o = record o { env = o.env ++ (v ∷ []) }

-- The loop over the arguments; the option whose value is the next one, if there is one. `none` is the
-- exit with code 2.
unfoldable pub parse_loop : Options → Option Valued → List (List ℕ) → Option Options
parse_loop o none [] = some o
parse_loop o (some k) [] = none
parse_loop o (some k) (v ∷ ts) = parse_loop (take_value k v o) none ts
parse_loop o none (t ∷ ts) = elim (token t) [
  | help ↦ none
  | interactive ↦ parse_loop (record o { session = some SessionType.interactive }) none ts
  | non_interactive ↦ parse_loop (record o { session = some SessionType.non_interactive }) none ts
  | shell ↦ parse_loop (record o { shell = true }) none ts
  | valued k ↦ parse_loop o (some k) ts
  | dashes ↦ some (record o { args = o.args ++ ts })
  | word ↦ some (record o { args = o.args ++ (t ∷ ts) })
]

unfoldable pub parse_options : List (List ℕ) → Option Options
parse_options = parse_loop defaults none

unfoldable pub determine_session_type : (stdin_tty stdout_tty : Bool) → SessionType
determine_session_type stdin_tty stdout_tty =
    if stdin_tty && stdout_tty then SessionType.interactive else SessionType.non_interactive

-- The entry that one name pushes, if the variable is set.
abbrev pub add_var : List ℕ → Option (List ℕ) → List (List ℕ) → List (List ℕ)
add_var name none rest = rest
add_var name (some value) rest = (name ++ (b'=' ∷ value)) ∷ rest

module _ (vars : List ℕ → Option (List ℕ)) where
  -- The entries that the loop over names pushes.
  unfoldable pub forwarded : List (List ℕ) → List (List ℕ)
  forwarded [] = []
  forwarded (name ∷ names) = add_var name (vars name) (forwarded names)

  unfoldable pub append_default_env : List (List ℕ) → List (List ℕ)
  unfolding forwarded
  append_default_env entries = entries ++ forwarded default_env

  abbrev or_sh : Option (List ℕ) → List ℕ
  or_sh none = b's' ∷ b'h' ∷ []
  or_sh (some program) = program

  -- `SHELL`
  abbrev shell_name : List ℕ
  shell_name = b'S' ∷ b'H' ∷ b'E' ∷ b'L' ∷ b'L' ∷ []

  abbrev session_of : Option SessionType → SessionType → SessionType
  session_of none t = t
  session_of (some forced) t = forced

  abbrev if_interactive : SessionType → Option Dims → Option Dims
  if_interactive SessionType.interactive size = size
  if_interactive t size = none

  -- `main` up to the request; `size` is what `read_winsize` gives.
  unfoldable pub request : (stdin_tty stdout_tty : Bool) → Option Dims → Options → ClientRequest
  unfolding append_default_env determine_session_type
  request stdin_tty stdout_tty size o =
      let t = session_of o.session (determine_session_type stdin_tty stdout_tty) in
      record {
        args = if o.shell then or_sh (vars shell_name) ∷ [] else o.args;
        env = append_default_env o.env;
        session_type = t;
        winsize = if_interactive t size;
      }

-- The end of `prompt_secret`: the line that was read, unless it is the end of the input or an error.
abbrev is_line_end : ℕ → Bool
is_line_end b = b == 13 || b == 10

abbrev unless_trimmed : ℕ → List ℕ → List ℕ
unless_trimmed b [] = if is_line_end b then [] else b ∷ []
unless_trimmed b (c ∷ cs) = b ∷ c ∷ cs

unfoldable pub trim_end : List ℕ → List ℕ
trim_end [] = []
trim_end (b ∷ bs) = unless_trimmed b (trim_end bs)

abbrev unless_empty : List ℕ → Option (List ℕ)
unless_empty [] = none
unless_empty (b ∷ bs) = some (b ∷ bs)

unfoldable pub secret_of : Option (List ℕ) → Option (List ℕ)
unfolding trim_end
secret_of none = none
secret_of (some line) = unless_empty (trim_end line)
