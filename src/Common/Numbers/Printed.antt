-- ===== src/Common/Numbers/Printed.antt =====
-- Printed numbers, for the readers of the standard library.
use Prim.Native.Nat.{ℕ, zero, suc, ◌+◌, ◌-◌, ◌*◌, ◌/◌, ◌%◌, ◌^◌, ◌≤◌, ◌<◌}
use mathlib.Core.Path.{◌≡◌, refl, ◌∙◌, ap}
use mathlib.Core.Bool.{true, false}
use mathlib.Core.Option.{some}
use mathlib.Core.List.{[], ◌∷◌}
use mathlib.Core.Logic.{inl, inr}
use native.Mathlib.Omega.{arith}
use deep_oj.Common.Tests.{ltb, ◌==◌, Bool-cases}
use deep_oj.Common.Lists.{is_empty, length}
use deep_oj.Common.Bytes.{Bytes, digits_acc, print_ℕ}
use deep_oj.Common.Numbers.{
  isspace, isdigit, skip_spaces, read_digits, read_unsigned, after_sign, read_number, stoull,
}

isdigit_digit : (d : ℕ) → d < 10 → isdigit (48 + d) ≡ true
isdigit_digit d h = ground arith

read_digit :
    (v d : ℕ) (acc : Bytes) → d < 10 → read_digits v ((48 + d) ∷ acc) ≡ read_digits (v * 10 + d) acc
unfolding read_digits
read_digit v d acc h = rw (isdigit_digit d h) (ap (λ n. read_digits n acc) (drop_zero v d))
  where
    drop_zero : (v d : ℕ) → v * 10 + (48 + d - 48) ≡ v * 10 + d
    drop_zero v d = omega arith

read_digits-acc :
    (f n : ℕ) (acc : Bytes) → n < f → read_digits 0 (digits_acc f n acc) ≡ read_digits n acc
unfolding digits_acc
read_digits-acc zero n acc h = absurd (omega arith)
read_digits-acc (suc f) n acc h = elim (Bool-cases (ltb n 10)) [
  | inl e ↦ rw e (read_digit 0 n acc (ground arith) ∙ ap (λ k. read_digits k acc) (omega arith))
  | inr e ↦ rw e (
      read_digits-acc f (n / 10) ((48 + n % 10) ∷ acc) (ground arith)
      ∙ read_digit (n / 10) (n % 10) acc (omega arith)
      ∙ ap (λ k. read_digits k acc) (omega arith))
]

abbrev StartsDigit : Bytes → Type 0
StartsDigit [] = ⊥
StartsDigit (c ∷ s) = isdigit c ≡ true

digits_acc-StartsDigit : (f n : ℕ) (acc : Bytes) → n < f → StartsDigit (digits_acc f n acc)
unfolding digits_acc
digits_acc-StartsDigit zero n acc h = absurd (omega arith)
digits_acc-StartsDigit (suc f) n acc h = elim (Bool-cases (ltb n 10)) [
  | inl e ↦ rw e (ground arith)
  | inr e ↦ rw e (digits_acc-StartsDigit f (n / 10) ((48 + n % 10) ∷ acc) (ground arith))
]

StartsDigit-length : (s : Bytes) → StartsDigit s → (is_empty s ≡ false) × (1 ≤ length s)
StartsDigit-length [] d = absurd d
StartsDigit-length (c ∷ s) d = (refl, omega arith)

-- A printed number has a digit at least.
pub print_ℕ-length : (n : ℕ) → (is_empty (print_ℕ n) ≡ false) × (1 ≤ length (print_ℕ n))
unfolding print_ℕ
print_ℕ-length n =
    StartsDigit-length (print_ℕ n) (digits_acc-StartsDigit (suc n) n [] (omega arith))

no_front :
    (c : ℕ) → isdigit c ≡ true → (isspace c ≡ false) × ((c == b'-') ≡ false) × ((c == b'+') ≡ false)
no_front c d = ground arith

-- A text that begins with a digit has no space and no sign at its front.
read_number-StartsDigit :
    (s : Bytes)
    → StartsDigit s
    → read_number s ≡ some (false, (read_digits 0 s).0, (read_digits 0 s).1)
unfolding read_number skip_spaces after_sign read_unsigned
read_number-StartsDigit [] d = absurd d
read_number-StartsDigit (c ∷ s) d =
    let (space, minus, plus) = no_front c d in rw (space, minus, plus, d) refl

pub read_number-print : (n : ℕ) → read_number (print_ℕ n) ≡ some (false, n, [])
unfolding print_ℕ read_digits
read_number-print n =
    read_number-StartsDigit (print_ℕ n) (digits_acc-StartsDigit (suc n) n [] (omega arith))
    ∙ ap (λ r. some (false, r.0, r.1)) (read_digits-acc (suc n) n [] (omega arith))

-- A printed number is read back by `stoull`.
pub stoull-print : (n : ℕ) → n < 2 ^ 64 → stoull (print_ℕ n) ≡ some n
unfolding stoull
stoull-print n h = rw (read_number-print n) (ground arith)
