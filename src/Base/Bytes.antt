-- ===== src/Base/Bytes.antt =====
-- Bytes as numbers below 256, and fixed-width little-endian integers (`to_le_bytes`,
-- `from_le_bytes`) of any width.
use native.Mathlib.Nat.{pow-suc}
use capsudo_rs.Base.Lists.{length, All}
use Prim.Native.Nat.{ℕ, zero, suc, ◌+◌, ◌*◌, ◌/◌, ◌%◌, ◌^◌, ◌<◌}
use mathlib.Core.Path.{◌≡◌, refl, ap, ap₂, ◌∙◌}
use mathlib.Core.List.{List, [], ◌∷◌}
use native.Mathlib.Omega.{arith}

abbrev pub IsByte : ℕ → Type 0
IsByte b = b < 256

abbrev pub IsBytes : List ℕ → Type 0
IsBytes = All IsByte

abbrev pub IsU32 : ℕ → Type 0
IsU32 n = n < 2 ^ 32

abbrev pub IsU16 : ℕ → Type 0
IsU16 n = n < 2 ^ 16

unfoldable pub to_le : ℕ → ℕ → List ℕ
to_le zero n = []
to_le (suc w) n = n % 256 ∷ to_le w (n / 256)

unfoldable pub from_le : List ℕ → ℕ
from_le [] = 0
from_le (b ∷ bs) = b + 256 * from_le bs

pub length-to_le : (w n : ℕ) → length (to_le w n) ≡ w
unfolding to_le
length-to_le zero n = refl
length-to_le (suc w) n = ap suc (length-to_le w (n / 256))

pub to_le-IsBytes : (w n : ℕ) → IsBytes (to_le w n)
unfolding to_le
to_le-IsBytes zero n = tt
to_le-IsBytes (suc w) n = (omega arith, to_le-IsBytes w (n / 256))

pub from_le-to_le : (w n : ℕ) → n < 256 ^ w → from_le (to_le w n) ≡ n
unfolding to_le from_le
from_le-to_le zero n h = omega arith
from_le-to_le (suc w) n h = omega (arith, from_le-to_le w (n / 256) (omega (arith, pow-suc 256 w)))

pub from_le-lt : (bs : List ℕ) → IsBytes bs → from_le bs < 256 ^ length bs
unfolding from_le
from_le-lt [] h = omega arith
from_le-lt (b ∷ bs) h = omega (arith, from_le-lt bs h.1, pow-suc 256 (length bs))

pub to_le-from_le : (bs : List ℕ) → IsBytes bs → to_le (length bs) (from_le bs) ≡ bs
unfolding to_le from_le
to_le-from_le [] h = refl
to_le-from_le (b ∷ bs) h =
    ap₂ ◌∷◌ (omega arith) (ap (to_le (length bs)) (omega arith) ∙ to_le-from_le bs h.1)

-- The bytes of a field of known width are those of the number that they stand for.
pub to_le-from_le_width :
    (w : ℕ) (bs : List ℕ) → IsBytes bs → length bs ≡ w → to_le w (from_le bs) ≡ bs
to_le-from_le_width w bs h e = rw (← e) (to_le-from_le bs h)
