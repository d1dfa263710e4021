-- ===== src/Common/Bytes.antt =====
-- C strings and `std::string`s as lists of bytes, and the library functions on them.
pub mod Lines
use Prim.Native.Char.{code}
use Prim.Native.String.{String}
use Prim.Native.Nat.{ℕ, zero, suc, ◌+◌, ◌/◌, ◌%◌}
use mathlib.Core.Path.{◌≡◌, refl}
use mathlib.Core.Logic.{◌↔◌}
use mathlib.Core.Bool.{Bool, true, false, ◌&&◌}
use mathlib.Core.Option.{Option, none, some}
use mathlib.Core.List.{List, [], ◌∷◌, ◌++◌}
use native.Mathlib.Omega.{arith}
use deep_oj.Common.Tests.{ltb, ◌==◌, if◌then◌else◌}
use deep_oj.Common.Lists.{take}
use deep_oj.Common.Int.{ℤ, pos, negsuc}

abbrev pub Bytes : Type 0
Bytes = List ℕ

-- The UTF-8 bytes of a code point.
abbrev utf8 : ℕ → Bytes → Bytes
utf8 c rest =
    if ltb c 0x80
    then c ∷ rest
    else if ltb c 0x800
    then (0xc0 + c / 64) ∷ (0x80 + c % 64) ∷ rest
    else if ltb c 0x10000
    then (0xe0 + c / 4096) ∷ (0x80 + c / 64 % 64) ∷ (0x80 + c % 64) ∷ rest
    else (0xf0 + c / 262144)
      ∷ (0x80 + c / 4096 % 64)
      ∷ (0x80 + c / 64 % 64)
      ∷ (0x80 + c % 64)
      ∷ rest

-- A string literal of the source.
unfoldable pub text : String → Bytes
text String.[] = []
text (String.◌∷◌ c s) = utf8 (code c) (text s)

-- `==` on strings.
unfoldable pub bytes_eq : Bytes → Bytes → Bool
bytes_eq [] [] = true
bytes_eq [] (b ∷ t) = false
bytes_eq (a ∷ s) [] = false
bytes_eq (a ∷ s) (b ∷ t) = a == b && bytes_eq s t

pub bytes_eq_iff : (s t : Bytes) → (bytes_eq s t ≡ true) ↔ (s ≡ t)
unfolding bytes_eq
bytes_eq_iff [] [] = (λ h. refl, λ h. refl)
bytes_eq_iff [] (b ∷ t) = ground arith
bytes_eq_iff (a ∷ s) [] = ground arith
bytes_eq_iff (a ∷ s) (b ∷ t) = ground (arith, bytes_eq_iff s t)

-- What is left of `s` after the prefix `p`; `none` if it does not begin with it.
unfoldable pub strip_prefix : Bytes → Bytes → Option Bytes
strip_prefix [] s = some s
strip_prefix (a ∷ p) [] = none
strip_prefix (a ∷ p) (b ∷ s) = let rest = strip_prefix p s in if a == b then rest else none

pub strip_prefix-append : (p s : Bytes) → strip_prefix p (p ++ s) ≡ some s
unfolding strip_prefix
strip_prefix-append [] s = refl
strip_prefix-append (a ∷ p) s = ground (arith, strip_prefix-append p s)

-- `s.find(w) != npos`
unfoldable pub contains_text : Bytes → Bytes → Bool
contains_text w [] = elim (strip_prefix w []) [ none ↦ false | some _ ↦ true ]
contains_text w (b ∷ s) = elim (strip_prefix w (b ∷ s)) [ none ↦ contains_text w s | some _ ↦ true ]

-- The text before the last `c`, and the text behind it, as `strrchr` splits it.
unfoldable pub split_last : ℕ → Bytes → Option (Bytes × Bytes)
split_last c [] = none
split_last c (b ∷ s) = elim (split_last c s) [
  | some (before, behind) ↦ some (b ∷ before, behind)
  | none ↦ if b == c then some ([], s) else none
]

-- `strncpy` into a buffer of `n + 1` bytes whose last byte is 0: a longer text is cut off.
abbrev pub strncpy : ℕ → Bytes → Bytes
strncpy = take

-- `s.c_str()`, as far as a C function reads it: up to the first 0.
unfoldable pub c_str : Bytes → Bytes
c_str [] = []
c_str (b ∷ s) = let rest = b ∷ c_str s in if b == 0 then [] else rest

-- The decimal digits of a number, by repeated division with fuel.
unfoldable pub digits_acc : ℕ → ℕ → Bytes → Bytes
digits_acc zero n acc = acc
digits_acc (suc f) n acc =
    let rest = digits_acc f (n / 10) ((48 + n % 10) ∷ acc) in
    if ltb n 10 then (48 + n) ∷ acc else rest

-- `std::to_string` of an unsigned number, and of a signed one.
unfoldable pub print_ℕ : ℕ → Bytes
unfolding digits_acc
print_ℕ n = digits_acc (suc n) n []

unfoldable pub print_ℤ : ℤ → Bytes
unfolding print_ℕ
print_ℤ (pos n) = print_ℕ n
print_ℤ (negsuc n) = b'-' ∷ print_ℕ (suc n)
