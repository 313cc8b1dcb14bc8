-- ===== src/Transport/Radix.antt =====
-- `u32::from_str_radix`, on which the owner and mode specs stand.
use capsudo_rs.Base.{
  ℕ, ◌+◌, ◌-◌, ◌*◌, ◌^◌, ◌≤◌, ◌<◌, ◌≡◌, refl, false, ◌&&◌, List, [], ◌∷◌, Option, none, some, arith,
  ltb, leb, ltb→lt, lt→ltb, ge→ltb, ltb→ge, ne→==, ◌==◌, if◌then◌else◌, All, Option-cases,
  Bool-cases, inl, inr,
}
use native.Mathlib.Nat.{le_trans}

-- The value of one digit, in any radix up to 36.
unfoldable pub digit : ℕ → ℕ → Option ℕ
digit radix b =
    let below = λ (d : ℕ). if ltb d radix then some d else none in
    if leb b'0' b && leb b b'9'
    then below (b - b'0')
    else if leb b'a' b && leb b b'z'
    then below (b - b'a' + 10)
    else if leb b'A' b && leb b b'Z'
    then below (b - b'A' + 10)
    else none

abbrev next_digit : ℕ → ℕ → Option ℕ → Option ℕ
next_digit radix acc none = none
next_digit radix acc (some d) =
    if ltb (acc * radix + d) (2 ^ 32) then some (acc * radix + d) else none

next_digit-lt : (radix acc m : ℕ) (d : Option ℕ) → next_digit radix acc d ≡ some m → m < 2 ^ 32
next_digit-lt radix acc m none e = absurd (cc)
next_digit-lt radix acc m (some d) e = ground arith

-- The digits behind a value, with the overflow checks of `u32`.
unfoldable pub parse_digits : ℕ → ℕ → List ℕ → Option ℕ
parse_digits radix acc [] = some acc
parse_digits radix acc (b ∷ bs) = elim (next_digit radix acc (digit radix b)) [
  | none ↦ none
  | some acc' ↦ parse_digits radix acc' bs
]

-- One leading `+` is allowed before a digit; the empty text and a sign alone are not numbers.
unfoldable pub from_str_radix : ℕ → List ℕ → Option ℕ
from_str_radix radix [] = none
from_str_radix radix (b ∷ []) = if b == b'+' then none else parse_digits radix 0 (b ∷ [])
from_str_radix radix (b ∷ c ∷ bs) =
    if b == b'+' then parse_digits radix 0 (c ∷ bs) else parse_digits radix 0 (b ∷ c ∷ bs)

-- The text of a list of digit values, for a radix up to ten.
unfoldable pub print_digits : List ℕ → List ℕ
print_digits [] = []
print_digits (d ∷ ds) = (b'0' + d) ∷ print_digits ds

-- The number that a list of digit values stands for, behind `acc`.
unfoldable pub value : ℕ → ℕ → List ℕ → ℕ
value radix acc [] = acc
value radix acc (d ∷ ds) = value radix (acc * radix + d) ds

value_mono : (radix acc : ℕ) (ds : List ℕ) → 1 ≤ radix → acc ≤ value radix acc ds
unfolding value
value_mono radix acc [] h = omega arith
value_mono radix acc (d ∷ ds) h = le_trans (grind arith) (value_mono radix (acc * radix + d) ds h)

digit-decimal : (radix d : ℕ) → radix ≤ 10 → d < radix → digit radix (b'0' + d) ≡ some d
unfolding digit
digit-decimal radix d h k = ground arith

-- Digits are read as the number that they stand for if that fits a `u32`, and refused if not.
pub parse_digits-digits :
    (radix acc : ℕ) (ds : List ℕ)
    → 1 ≤ radix
    → radix ≤ 10
    → acc < 2 ^ 32
    → All (λ d. d < radix) ds
    → parse_digits radix acc (print_digits ds)
      ≡ (if ltb (value radix acc ds) (2 ^ 32) then some (value radix acc ds) else none)
unfolding parse_digits print_digits value
parse_digits-digits radix acc [] h k small all = rw (lt→ltb acc (2 ^ 32) small) refl
parse_digits-digits radix acc (d ∷ ds) h k small all =
    let next = acc * radix + d in
    elim (Bool-cases (ltb next (2 ^ 32))) [
      | inl fits ↦
          let step : next_digit radix acc (digit radix (b'0' + d)) ≡ some next =
            rw (digit-decimal radix d k all.0, fits) refl in
          rw (step, parse_digits)
            (parse_digits-digits radix next ds h k (ltb→lt next (2 ^ 32) fits) all.1)
      | inr over ↦
          let step : next_digit radix acc (digit radix (b'0' + d)) ≡ none =
            rw (digit-decimal radix d k all.0, over) refl in
          let large : ltb (value radix next ds) (2 ^ 32) ≡ false =
            ge→ltb (value radix next ds) (2 ^ 32)
              (le_trans (ltb→ge next (2 ^ 32) over) (value_mono radix next ds h)) in
          rw (step, parse_digits) (ground (arith, large))
    ]

-- A number in a radix up to ten, written with at least one digit and with or without a sign `+`.
pub from_str_radix-digits :
    (radix d : ℕ) (ds : List ℕ)
    → 1 ≤ radix
    → radix ≤ 10
    → All (λ x. x < radix) (d ∷ ds)
    → let n = value radix 0 (d ∷ ds) in
      let read = if ltb n (2 ^ 32) then some n else none in
      (from_str_radix radix (print_digits (d ∷ ds)) ≡ read)
      × (from_str_radix radix (b'+' ∷ print_digits (d ∷ ds)) ≡ read)
unfolding from_str_radix print_digits
from_str_radix-digits radix d [] h k all =
    let plain = parse_digits-digits radix 0 (d ∷ []) h k (omega arith) all in
    (rw (ne→== (b'0' + d) b'+' (omega arith)) (unfold print_digits in plain), plain)
from_str_radix-digits radix d (e ∷ ds) h k all =
    let plain = parse_digits-digits radix 0 (d ∷ e ∷ ds) h k (omega arith) all in
    (rw (ne→== (b'0' + d) b'+' (omega arith)) plain, plain)

pub parse_digits-lt :
    (radix acc n : ℕ) (s : List ℕ) → acc < 2 ^ 32 → parse_digits radix acc s ≡ some n → n < 2 ^ 32
unfolding parse_digits
parse_digits-lt radix acc n [] small e = ground arith
parse_digits-lt radix acc n (b ∷ bs) small e =
    elim (Option-cases (next_digit radix acc (digit radix b))) [
      | inl bad ↦ absurd (cc (rw (bad, parse_digits) at e))
      | inr (m, good) ↦
          parse_digits-lt radix m n bs (next_digit-lt radix acc m (digit radix b) good)
            (rw (good, parse_digits) at e)
    ]
