-- ===== src/Base/Int.antt =====
-- Signed numbers, and the two's-complement form of an `i32`.
use capsudo_rs.Base.Tests.{ltb, if◌then◌else◌}
use mathlib.Core.Logic.{◌⊎◌, inl, inr}
use Prim.Native.Nat.{ℕ, suc, ◌+◌, ◌-◌, ◌^◌, ◌<◌}
use mathlib.Core.Path.{◌≡◌, refl}
use native.Mathlib.Omega.{arith}

-- `negsuc n` is -(n + 1).
pub data ℤ : Type 0 where
  pos : ℕ → ℤ
  negsuc : ℕ → ℤ

-- The range of an `i32`.
abbrev pub IsI32 : ℤ → Type 0
IsI32 (pos n) = n < 2 ^ 31
IsI32 (negsuc n) = n < 2 ^ 31

unfoldable pub i32_bits : ℤ → ℕ
i32_bits (pos n) = n
i32_bits (negsuc n) = 2 ^ 32 - suc n

unfoldable pub bits_i32 : ℕ → ℤ
bits_i32 w = if ltb w (2 ^ 31) then pos w else negsuc (2 ^ 32 - suc w)

pub i32_bits-lt : (i : ℤ) → IsI32 i → i32_bits i < 2 ^ 32
unfolding i32_bits
i32_bits-lt (pos n) h = omega arith
i32_bits-lt (negsuc n) h = omega arith

pub bits_i32-i32_bits : (i : ℤ) → IsI32 i → bits_i32 (i32_bits i) ≡ i
unfolding i32_bits bits_i32
bits_i32-i32_bits (pos n) h = ground arith
bits_i32-i32_bits (negsuc n) h = ground arith

abbrev pub pos_part : ℤ → ℕ
pos_part (pos n) = n
pos_part (negsuc n) = 0

abbrev pub neg_part : ℤ → ℕ
neg_part (pos n) = 0
neg_part (negsuc n) = suc n

-- a - b, as an integer.
unfoldable pub sub_ℕ : ℕ → ℕ → ℤ
sub_ℕ a b = if ltb a b then negsuc (b - suc a) else pos (a - b)

infixl 65 ◌+ℤ◌ ◌-ℤ◌
unfoldable pub ◌+ℤ◌ : ℤ → ℤ → ℤ
unfolding sub_ℕ
a +ℤ b = sub_ℕ (pos_part a + pos_part b) (neg_part a + neg_part b)

unfoldable pub ◌-ℤ◌ : ℤ → ℤ → ℤ
unfolding sub_ℕ
a -ℤ b = sub_ℕ (pos_part a + neg_part b) (neg_part a + pos_part b)

-- `i64::saturating_add` of a number that is not negative, which can pass the upper end only.
unfoldable pub saturating_add_i64 : ℤ → ℕ → ℤ
unfolding ◌+ℤ◌
saturating_add_i64 a n =
    let s = a +ℤ pos n in if ltb (pos_part s) (2 ^ 63) then s else pos (2 ^ 63 - 1)

-- An integer has one part that is zero.
pub parts_apart : (a : ℤ) → (pos_part a ≡ 0) ⊎ (neg_part a ≡ 0)
parts_apart (pos n) = inr refl
parts_apart (negsuc n) = inl refl

pub +ℤ_parts :
    (a b : ℤ)
    → pos_part (a +ℤ b) + (neg_part a + neg_part b) ≡ neg_part (a +ℤ b) + (pos_part a + pos_part b)
unfolding ◌+ℤ◌
+ℤ_parts a b = ground arith

pub -ℤ_parts :
    (a b : ℤ)
    → pos_part (a -ℤ b) + (neg_part a + pos_part b) ≡ neg_part (a -ℤ b) + (pos_part a + neg_part b)
unfolding ◌-ℤ◌
-ℤ_parts a b = ground arith

-- Below the upper end a saturating addition is an addition.
pub saturating_add_parts :
    (a : ℤ) (n : ℕ)
    → pos_part a + n < 2 ^ 63
    → pos_part (saturating_add_i64 a n) + neg_part a
      ≡ neg_part (saturating_add_i64 a n) + (pos_part a + n)
unfolding saturating_add_i64
saturating_add_parts (pos k) n h = ground arith
saturating_add_parts (negsuc k) n h = ground arith
