-- ===== src/Transport/Runs.antt =====
-- Owner and mode specs on concrete texts, and their theorems at concrete inputs.
use capsudo_rs.Base.{ℕ, ◌≡◌, refl, List, [], ◌∷◌, Option, none, some, arith, ◌==◌, if◌then◌else◌}
use capsudo_rs.Transport.Radix.{digit, parse_digits, from_str_radix, value, print_digits}
use capsudo_rs.Transport.OwnerSpec.{split_spec, parse_owner_spec, parse_mode, parse_mode-digits}

-- One user, `root`, with uid 0 and the primary group 0, and one group `wheel`.
abbrev root : List ℕ
root = b'r' ∷ b'o' ∷ b'o' ∷ b't' ∷ []

abbrev users : List ℕ → Option (ℕ × ℕ)
users [] = none
users (b ∷ bs) = if b == b'r' then some (0, 0) else none

abbrev groups : List ℕ → Option ℕ
groups [] = none
groups (b ∷ bs) = if b == b'w' then some 10 else none

abbrev mode_text : List ℕ
mode_text = b'0' ∷ b'7' ∷ b'7' ∷ b'0' ∷ []

mode_0770 : parse_mode mode_text ≡ some 0o770
unfolding parse_mode from_str_radix parse_digits digit
mode_0770 = refl

mode_too_large : parse_mode (b'1' ∷ b'7' ∷ b'7' ∷ b'7' ∷ b'7' ∷ []) ≡ none
unfolding parse_mode from_str_radix parse_digits digit
mode_too_large = refl

root_alone : parse_owner_spec users groups root ≡ some (some 0, some 0)
unfolding parse_owner_spec split_spec from_str_radix parse_digits digit
root_alone = refl

colon_alone : parse_owner_spec users groups (b':' ∷ []) ≡ none
unfolding parse_owner_spec split_spec
colon_alone = refl

parse_mode-digits_example : parse_mode (print_digits (0 ∷ 7 ∷ 7 ∷ 0 ∷ [])) ≡ some 0o770
unfolding value
parse_mode-digits_example = parse_mode-digits 0 (7 ∷ 7 ∷ 0 ∷ []) (omega arith)

ten : from_str_radix 10 (b'1' ∷ b'0' ∷ []) ≡ some 10
unfolding from_str_radix parse_digits digit
ten = refl
