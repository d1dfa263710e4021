-- ===== src/Common/Int.antt =====
-- Signed integers, and the machine words that the program keeps them in.
use Prim.Native.Nat.{ℕ, zero, suc, ◌/◌, ◌+◌, ◌-◌, ◌*◌, ◌%◌, ◌^◌, ◌≤◌}
use mathlib.Core.Path.{◌≡◌}
use mathlib.Core.Bool.{Bool}
use native.Mathlib.Omega.{arith}
use deep_oj.Common.Tests.{ltb, leb, ◌==◌, if◌then◌else◌}

-- `negsuc n` is -(n + 1).
pub data ℤ : Type 0 where
  pos : ℕ → ℤ
  negsuc : ℕ → ℤ

abbrev pub pos_part : ℤ → ℕ
pos_part (pos n) = n
pos_part (negsuc n) = 0

abbrev pub neg_part : ℤ → ℕ
neg_part (pos n) = 0
neg_part (negsuc n) = suc n

abbrev pub sub_ℕ : ℕ → ℕ → ℤ
sub_ℕ a b = if leb b a then pos (a - b) else negsuc (b - a - 1)

infixl 65 ◌+ℤ◌ ◌-ℤ◌
infixl 70 ◌*ℤ◌
infix 50 ◌≤ℤ◌ ◌<ℤ◌
unfoldable pub ◌+ℤ◌ : ℤ → ℤ → ℤ
a +ℤ b = sub_ℕ (pos_part a + pos_part b) (neg_part a + neg_part b)

unfoldable pub ◌-ℤ◌ : ℤ → ℤ → ℤ
a -ℤ b = sub_ℕ (pos_part a + neg_part b) (neg_part a + pos_part b)

unfoldable pub ◌*ℤ◌ : ℤ → ℤ → ℤ
a *ℤ b =
    sub_ℕ (pos_part a * pos_part b + neg_part a * neg_part b)
      (pos_part a * neg_part b + neg_part a * pos_part b)

abbrev pub ◌≤ℤ◌ : ℤ → ℤ → Type 0
a ≤ℤ b = pos_part a + neg_part b ≤ pos_part b + neg_part a

abbrev pub ◌<ℤ◌ : ℤ → ℤ → Type 0
a <ℤ b = suc (pos_part a + neg_part b) ≤ pos_part b + neg_part a

abbrev pub ltb_ℤ : ℤ → ℤ → Bool
ltb_ℤ a b = ltb (pos_part a + neg_part b) (pos_part b + neg_part a)

abbrev pub leb_ℤ : ℤ → ℤ → Bool
leb_ℤ a b = leb (pos_part a + neg_part b) (pos_part b + neg_part a)

abbrev pub eqb_ℤ : ℤ → ℤ → Bool
eqb_ℤ a b = pos_part a + neg_part b == pos_part b + neg_part a

-- Minus a natural number, and the division of C, which rounds towards 0, by a positive number.
abbrev pub negate : ℕ → ℤ
negate zero = pos 0
negate (suc n) = negsuc n

abbrev pub quotient : ℤ → ℕ → ℤ
quotient (pos n) k = pos (n / k)
quotient (negsuc n) k = negate (suc n / k)

-- The bit pattern of an integer in an unsigned word of `w` bits: a conversion to `uint64_t`.
abbrev pub to_unsigned : ℕ → ℤ → ℕ
to_unsigned w (pos n) = n % 2 ^ w
to_unsigned w (negsuc n) = 2 ^ w - 1 - n % 2 ^ w

-- The integer that a bit pattern of `w + 1` bits stands for in two's complement.
abbrev pub from_pattern : ℕ → ℕ → ℤ
from_pattern w n = if ltb n (2 ^ w) then pos n else negsuc (2 ^ w + 2 ^ w - 1 - n)

-- The result of `int` arithmetic, and a conversion to `int`: wrapped to 32 bits.
unfoldable pub to_int : ℤ → ℤ
to_int z = from_pattern 31 (to_unsigned 32 z)

-- The same for `long` and `long long`.
unfoldable pub to_long : ℤ → ℤ
to_long z = from_pattern 63 (to_unsigned 64 z)

pub to_int_in_range : (z : ℤ) → negsuc (2 ^ 31 - 1) ≤ℤ z → z ≤ℤ pos (2 ^ 31 - 1) → to_int z ≡ z
unfolding to_int
to_int_in_range (pos n) lo hi = ground arith
to_int_in_range (negsuc n) lo hi = ground arith

pub to_long_in_range : (z : ℤ) → negsuc (2 ^ 63 - 1) ≤ℤ z → z ≤ℤ pos (2 ^ 63 - 1) → to_long z ≡ z
unfolding to_long
to_long_in_range (pos n) lo hi = ground arith
to_long_in_range (negsuc n) lo hi = ground arith

pub +ℤ_parts :
    (a b : ℤ)
    → pos_part (a +ℤ b) + neg_part a + neg_part b ≡ neg_part (a +ℤ b) + pos_part a + pos_part b
unfolding ◌+ℤ◌
+ℤ_parts a b = ground arith

pub -ℤ_parts :
    (a b : ℤ)
    → pos_part (a -ℤ b) + neg_part a + pos_part b ≡ neg_part (a -ℤ b) + pos_part a + neg_part b
unfolding ◌-ℤ◌
-ℤ_parts a b = ground arith

pub eq_of_parts : (a b : ℤ) → pos_part a + neg_part b ≡ pos_part b + neg_part a → a ≡ b
eq_of_parts a b h = ground arith

pub ruleset int_laws = (arith, +ℤ_parts, -ℤ_parts, eq_of_parts)
