-- ===== src/Pwauth/Options.antt =====
-- main.rs of capsudod-pwauth: `parse_options`. The user and group databases are parameters, as in the
-- owner specs.
use capsudo_rs.Base.{ℕ, List, [], ◌∷◌, ◌++◌, Option, none, some, if◌then◌else◌}
use capsudo_rs.Core.Command.{str_eq}
use capsudo_rs.Transport.OwnerSpec.{parse_owner_spec, parse_mode}

pub record Options : Type 0 where
  pub socket : Option (List ℕ)
  pub uid : Option ℕ
  pub gid : Option ℕ
  pub mode : ℕ
  pub capsudod_cmd : List (List ℕ)

-- The options that take the next argument as their value.
pub data Valued : Type 0 where
  socket owner mode : Valued

-- What a token of the command line is.
pub data Token : Type 0 where
  help dashes word : Token
  valued : Valued → Token

-- `-` and one letter.
abbrev pub flag : ℕ → List ℕ
flag b = b'-' ∷ b ∷ []

-- `--help`
abbrev pub long_help : List ℕ
long_help = b'-' ∷ b'-' ∷ b'h' ∷ b'e' ∷ b'l' ∷ b'p' ∷ []

-- `capsudod`
abbrev pub capsudod : List ℕ
capsudod = b'c' ∷ b'a' ∷ b'p' ∷ b's' ∷ b'u' ∷ b'd' ∷ b'o' ∷ b'd' ∷ []

unfoldable pub token : List ℕ → Token
token t =
    if str_eq t (flag b'h')
    then help
    else if str_eq t long_help
    then help
    else if str_eq t (flag b'S')
    then valued Valued.socket
    else if str_eq t (flag b'o')
    then valued Valued.owner
    else if str_eq t (flag b'm')
    then valued Valued.mode
    else if str_eq t (flag b'-')
    then dashes
    else word

abbrev set_owner : Options → Option (Option ℕ × Option ℕ) → Option Options
set_owner o none = none
set_owner o (some (u, g)) = some (record o { uid = u; gid = g })

abbrev set_mode : Options → Option ℕ → Option Options
set_mode o none = none
set_mode o (some bits) = some (record o { mode = bits })

unfoldable pub defaults : Options
defaults = record { socket = none; uid = none; gid = none; mode = 0o770; capsudod_cmd = [] }

-- Plain `capsudod` if no command was given.
abbrev pub or_capsudod : List (List ℕ) → List (List ℕ)
or_capsudod [] = capsudod ∷ []
or_capsudod (program ∷ args) = program ∷ args

abbrev pub with_default : Option Options → Option Options
with_default none = none
with_default (some o) = some (record o { capsudod_cmd = or_capsudod o.capsudod_cmd })

module _ (users : List ℕ → Option (ℕ × ℕ)) (groups : List ℕ → Option ℕ) where
  -- `none` is the exit with code 2.
  unfoldable pub take_value : Valued → List ℕ → Options → Option Options
  take_value Valued.socket v o = some (record o { socket = some v })
  take_value Valued.owner v o = set_owner o (parse_owner_spec users groups v)
  take_value Valued.mode v o = set_mode o (parse_mode v)

  -- The loop over the arguments; the option whose value is the next one, if there is one.
  unfoldable pub parse_loop : Options → Option Valued → List (List ℕ) → Option Options
  parse_loop o none [] = some o
  parse_loop o (some k) [] = none
  parse_loop o (some k) (v ∷ ts) = elim (take_value k v o) [
    | none ↦ none
    | some o' ↦ parse_loop o' none ts
  ]
  parse_loop o none (t ∷ ts) = elim (token t) [
    | help ↦ none
    | valued k ↦ parse_loop o (some k) ts
    | dashes ↦ some (record o { capsudod_cmd = o.capsudod_cmd ++ ts })
    | word ↦ some (record o { capsudod_cmd = o.capsudod_cmd ++ (t ∷ ts) })
  ]

  unfoldable pub parse_options : List (List ℕ) → Option Options
  parse_options args = with_default (parse_loop defaults none args)
