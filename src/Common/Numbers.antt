-- ===== src/Common/Numbers.antt =====
-- How the standard library reads decimal numbers.
pub mod Printed
use deep_oj.Common.Tests.{ltb, leb, ◌==◌, if◌then◌else◌}
use deep_oj.Common.Int.{ℤ, pos, negate, leb_ℤ, to_unsigned}
use deep_oj.Common.Bytes.{Bytes}
use Prim.Native.Nat.{ℕ, ◌+◌, ◌-◌, ◌*◌, ◌^◌}
use mathlib.Core.Bool.{Bool, true, false, ◌&&◌, ◌||◌}
use mathlib.Core.Option.{Option, none, some}
use mathlib.Core.List.{[], ◌∷◌}

-- `isspace` and `isdigit` in the C locale.
abbrev pub isspace : ℕ → Bool
isspace c = c == 32 || leb 9 c && leb c 13

abbrev pub isdigit : ℕ → Bool
isdigit c = leb b'0' c && leb c b'9'

unfoldable pub skip_spaces : Bytes → Bytes
skip_spaces [] = []
skip_spaces (c ∷ s) = let rest = skip_spaces s in if isspace c then rest else c ∷ s

-- The value of the digits at the front, on top of those read before, and what follows them.
unfoldable pub read_digits : ℕ → Bytes → ℕ × Bytes
read_digits n [] = (n, [])
read_digits n (c ∷ s) =
    let rest = read_digits (n * 10 + (c - b'0')) s in if isdigit c then rest else (n, c ∷ s)

-- Digits, one at least.
unfoldable pub read_unsigned : Bytes → Option (ℕ × Bytes)
unfolding read_digits
read_unsigned [] = none
read_unsigned (c ∷ s) = if isdigit c then some (read_digits 0 (c ∷ s)) else none

abbrev pub signed : Bool → Option (ℕ × Bytes) → Option (Bool × ℕ × Bytes)
signed minus none = none
signed minus (some (n, rest)) = some (minus, n, rest)

unfoldable pub after_sign : Bytes → Option (Bool × ℕ × Bytes)
unfolding read_unsigned
after_sign [] = none
after_sign (c ∷ s) =
    if c == b'-'
    then signed true (read_unsigned s)
    else if c == b'+'
    then signed false (read_unsigned s)
    else signed false (read_unsigned (c ∷ s))

-- Spaces, a sign, and digits: whether there was a minus, the digits' value, and the rest.
unfoldable pub read_number : Bytes → Option (Bool × ℕ × Bytes)
unfolding after_sign skip_spaces
read_number s = after_sign (skip_spaces s)

abbrev value_of : Bool → ℕ → ℤ
value_of true n = negate n
value_of false n = pos n

-- Whether a value fits a signed word of `w + 1` bits.
abbrev pub fits : ℕ → ℤ → Bool
fits w z = leb_ℤ (negate (2 ^ w)) z && leb_ℤ z (pos (2 ^ w - 1))

abbrev pub in_word : ℕ → Option (Bool × ℕ × Bytes) → Option (ℤ × Bytes)
in_word w none = none
in_word w (some (minus, n, rest)) =
    let z = value_of minus n in if fits w z then some (z, rest) else none

-- A signed number of `w + 1` bits: `none` where there is none or where it does not fit.
unfoldable pub read_signed : ℕ → Bytes → Option (ℤ × Bytes)
unfolding read_number
read_signed w s = in_word w (read_number s)

drop_rest : Option (ℤ × Bytes) → Option ℤ
drop_rest none = none
drop_rest (some (z, rest)) = some z

-- `std::stoi` and `std::stoll`: what follows the digits is ignored, and `none` is an exception.
unfoldable pub stoi : Bytes → Option ℤ
unfolding drop_rest read_signed
stoi s = drop_rest (read_signed 31 s)

unfoldable pub stoll : Bytes → Option ℤ
unfolding drop_rest read_signed
stoll s = drop_rest (read_signed 63 s)

abbrev pub to_u64 : Option (Bool × ℕ × Bytes) → Option ℕ
to_u64 none = none
to_u64 (some (minus, n, rest)) =
    if ltb n (2 ^ 64) then some (to_unsigned 64 (value_of minus n)) else none

-- `std::stoull`, which takes a minus for wrapping around.
unfoldable pub stoull : Bytes → Option ℕ
unfolding read_number
stoull s = to_u64 (read_number s)
