-- ===== src/Capsudod/Runs.antt =====
-- The daemon's command line on a concrete one, and its theorem at a concrete input.
use capsudo_rs.Base.{ℕ, ◌≡◌, refl, true, false, List, [], ◌∷◌, ◌++◌, Option, none, some, All}
use capsudo_rs.Transport.OwnerSpec.{parse_mode}
use capsudo_rs.Transport.Radix.{from_str_radix, parse_digits, digit}
use capsudo_rs.Core.Command.{str_eq}
use capsudo_rs.Capsudod.Options.{
  Options, Valued, flag, token, parse_options, parse_loop, defaults, policy,
}
use capsudo_rs.Capsudod.CommandLine.{
  Setting, pin_argv, with_value, arguments, IsValid, parse_options-policy,
}

abbrev users : List ℕ → Option (ℕ × ℕ)
users name = none

abbrev groups : List ℕ → Option ℕ
groups name = none

-- `-m 660 -e A=1 -f`, and then `-- ls -f`.
abbrev settings : List Setting
settings =
    with_value Valued.mode (b'6' ∷ b'6' ∷ b'0' ∷ [])
    ∷ with_value Valued.env (b'A' ∷ b'=' ∷ b'1' ∷ [])
    ∷ pin_argv
    ∷ []

abbrev ls : List (List ℕ)
ls = (b'l' ∷ b's' ∷ []) ∷ flag b'f' ∷ []

settings-IsValid : All (IsValid users groups) settings
unfolding parse_mode from_str_radix parse_digits digit
settings-IsValid = ((0o660, refl), (tt, (tt, tt)))

-- An option without its value, and a flag that is not known, which begins the program.
value_missing : parse_options users groups (flag b'S' ∷ []) ≡ none
unfolding parse_options parse_loop token str_eq
value_missing = refl

unknown_flag :
    parse_options users groups (flag b'x' ∷ flag b'f' ∷ [])
    ≡ some (record defaults { program = flag b'x' ∷ flag b'f' ∷ [] })
unfolding parse_options parse_loop token str_eq defaults
unknown_flag = refl

parse_options-policy_example :
    (o : Options) × (parse_options users groups (arguments settings ++ (flag b'-' ∷ ls)) ≡ some o)
    × (policy o ≡ record {
      fixed_args = ls;
      fixed_env = (b'A' ∷ b'=' ∷ b'1' ∷ []) ∷ [];
      no_client_argv = true;
      no_client_env = false;
    })
parse_options-policy_example = parse_options-policy users groups settings ls settings-IsValid
