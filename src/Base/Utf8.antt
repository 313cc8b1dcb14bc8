-- ===== src/Base/Utf8.antt =====
-- UTF-8 validity, as `std::str::from_utf8` decides it. A Rust string is the list of its bytes.
use capsudo_rs.Base.Tests.{ltb, leb, ◌==◌, if◌then◌else◌}
use Prim.Native.Nat.{ℕ, zero, suc}
use mathlib.Core.Path.{◌≡◌}
use mathlib.Core.Bool.{Bool, true, false, ◌&&◌}
use mathlib.Core.Option.{Option, none, some}
use mathlib.Core.List.{List, [], ◌∷◌}

-- How many continuation bytes follow a first byte, and the range of the first of them.
abbrev utf8_lead : ℕ → Option (ℕ × ℕ × ℕ)
utf8_lead b =
    if ltb b 0x80
    then some (0, 0x80, 0xbf)
    else if ltb b 0xc2
    then none
    else if ltb b 0xe0
    then some (1, 0x80, 0xbf)
    else if b == 0xe0
    then some (2, 0xa0, 0xbf)
    else if b == 0xed
    then some (2, 0x80, 0x9f)
    else if ltb b 0xf0
    then some (2, 0x80, 0xbf)
    else if b == 0xf0
    then some (3, 0x90, 0xbf)
    else if ltb b 0xf4
    then some (3, 0x80, 0xbf)
    else if b == 0xf4
    then some (3, 0x80, 0x8f)
    else none

utf8_run : ℕ → ℕ → ℕ → List ℕ → Bool
utf8_run zero lo hi [] = true
utf8_run (suc n) lo hi [] = false
utf8_run zero lo hi (b ∷ bs) = elim (utf8_lead b) [
  | none ↦ false
  | some (n, lo', hi') ↦ utf8_run n lo' hi' bs
]
utf8_run (suc n) lo hi (b ∷ bs) = leb lo b && leb b hi && utf8_run n 0x80 0xbf bs

unfoldable pub is_utf8 : List ℕ → Bool
unfolding utf8_run
is_utf8 = utf8_run 0 0x80 0xbf

abbrev pub IsStr : List ℕ → Type 0
IsStr s = is_utf8 s ≡ true
