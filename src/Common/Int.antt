-- ===== src/Common/Int.antt =====
-- Signed integers over the native numbers; `negsuc n` is -(n + 1). Sums go through the two parts of an
-- integer, which are numbers that `omega` reads.
use Prim.Native.Nat.{ℕ, suc, ◌+◌, ◌-◌, ◌*◌, ◌/◌, ◌≤◌, ◌<◌, min}
use mathlib.Core.Path.{◌≡◌}
use native.Mathlib.Omega.{arith}
use p2p_common.Common.Tests.{leb, if◌then◌else◌}

pub data ℤ : Type 0 where
  pos : ℕ → ℤ
  negsuc : ℕ → ℤ

abbrev pub pos_part : ℤ → ℕ
pos_part (pos n) = n
pos_part (negsuc n) = 0

abbrev pub neg_part : ℤ → ℕ
neg_part (pos n) = 0
neg_part (negsuc n) = suc n

-- a - b, as an integer
abbrev pub sub_ℕ : ℕ → ℕ → ℤ
sub_ℕ a b = if leb b a then pos (a - b) else negsuc (b - a - 1)

infixl 65 ◌+ℤ◌ ◌-ℤ◌
infixl 70 ◌*ℤ◌
unfoldable pub ◌+ℤ◌ : ℤ → ℤ → ℤ
a +ℤ b = sub_ℕ (pos_part a + pos_part b) (neg_part a + neg_part b)

unfoldable pub ◌-ℤ◌ : ℤ → ℤ → ℤ
a -ℤ b = sub_ℕ (pos_part a + neg_part b) (neg_part a + pos_part b)

unfoldable pub ◌*ℤ◌ : ℤ → ℤ → ℤ
a *ℤ b =
    sub_ℕ (pos_part a * pos_part b + neg_part a * neg_part b)
      (pos_part a * neg_part b + neg_part a * pos_part b)

-- `>> 8` of an `i32`, which keeps the sign
unfoldable pub shr8 : ℤ → ℤ
shr8 (pos n) = pos (n / 256)
shr8 (negsuc n) = negsuc (n / 256)

-- `.clamp(0, 255) as u8`
unfoldable pub clamp_u8 : ℤ → ℕ
clamp_u8 (pos n) = min n 255
clamp_u8 (negsuc n) = 0

-- The two parts of a result, in those of what it is made of
pub +ℤ_parts :
    (a b : ℤ)
    → pos_part (a +ℤ b) + neg_part a + neg_part b ≡ neg_part (a +ℤ b) + pos_part a + pos_part b
unfolding ◌+ℤ◌
+ℤ_parts a b = ground arith

pub -ℤ_parts :
    (a b : ℤ)
    → pos_part (a -ℤ b) + neg_part a + pos_part b ≡ neg_part (a -ℤ b) + pos_part a + neg_part b
unfolding ◌-ℤ◌
-ℤ_parts a b = ground arith

-- A factor that is a number
pub *ℤ_parts :
    (a : ℤ) (k : ℕ)
    → pos_part (a *ℤ pos k) + neg_part a * k ≡ neg_part (a *ℤ pos k) + pos_part a * k
unfolding ◌*ℤ◌
*ℤ_parts (pos n) k = ground arith
*ℤ_parts (negsuc n) k = ground arith

pub shr8_parts :
    (a : ℤ)
    → (256 * pos_part (shr8 a) + neg_part a ≤ pos_part a + 256 * neg_part (shr8 a))
      × (pos_part a + 256 * neg_part (shr8 a) < 256 * pos_part (shr8 a) + neg_part a + 256)
unfolding shr8
shr8_parts (pos n) = (omega arith, omega arith)
shr8_parts (negsuc n) = (omega arith, omega arith)

pub ruleset int_laws = (arith, +ℤ_parts, -ℤ_parts, *ℤ_parts, shr8_parts)

pub clamp_u8-le : (a : ℤ) (n : ℕ) → pos_part a ≤ n + neg_part a → clamp_u8 a ≤ n
unfolding clamp_u8
clamp_u8-le (pos m) n h = omega arith
clamp_u8-le (negsuc m) n h = omega arith

pub le-clamp_u8 : (a : ℤ) (n : ℕ) → n ≤ 255 → n + neg_part a ≤ pos_part a → n ≤ clamp_u8 a
unfolding clamp_u8
le-clamp_u8 (pos m) n small h = omega arith
le-clamp_u8 (negsuc m) n small h = omega arith

pub clamp_u8-lt : (a : ℤ) → clamp_u8 a < 256
unfolding clamp_u8
clamp_u8-lt (pos m) = omega arith
clamp_u8-lt (negsuc m) = omega arith

-- In range nothing is clamped.
pub clamp_u8_parts :
    (a : ℤ)
    → neg_part a ≤ pos_part a
    → pos_part a ≤ 255 + neg_part a
    → clamp_u8 a + neg_part a ≡ pos_part a
unfolding clamp_u8
clamp_u8_parts (pos m) low high = omega arith
clamp_u8_parts (negsuc m) low high = omega arith
