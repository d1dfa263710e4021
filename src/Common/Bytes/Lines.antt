-- ===== src/Common/Bytes/Lines.antt =====
-- Texts without a newline.
use Prim.Native.Nat.{ℕ, zero, suc, ◌+◌, ◌/◌, ◌%◌}
use mathlib.Core.Path.{◌≡◌, refl}
use mathlib.Core.Bool.{Bool, true, not, ◌&&◌}
use mathlib.Core.List.{[], ◌∷◌, ◌++◌}
use native.Mathlib.Omega.{arith}
use deep_oj.Common.Tests.{◌==◌}
use deep_oj.Common.Lists.{all}
use deep_oj.Common.Bytes.{Bytes, digits_acc, print_ℕ}

abbrev pub one_line : Bytes → Bool
one_line = all (λ b. not (b == b'\n'))

pub one_line-append : (s t : Bytes) → one_line (s ++ t) ≡ (one_line s && one_line t)
one_line-append [] t = refl
one_line-append (b ∷ s) t = ground (arith, one_line-append s t)

one_line-digits :
    (f n : ℕ) (acc : Bytes) → one_line acc ≡ true → one_line (digits_acc f n acc) ≡ true
unfolding digits_acc
one_line-digits zero n acc h = h
one_line-digits (suc f) n acc h = ground (arith, one_line-digits f (n / 10) ((48 + n % 10) ∷ acc))

pub one_line-print : (n : ℕ) → one_line (print_ℕ n) ≡ true
unfolding print_ℕ
one_line-print n = one_line-digits (suc n) n [] refl
