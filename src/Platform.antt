-- ===== src/Platform.antt =====
-- What the engine takes from the machine and from libc: arithmetic on `double`, and the texts of
-- errors and signals, and what its JSON library refuses to write. They are parameters of the model.
use deep_oj.Common.{ℕ, Bool}
use deep_oj.Common.Int.{ℤ}
use deep_oj.Common.Bytes.{Bytes}
use deep_oj.Types.{Double}

pub record Platform : Type 0 where
  -- A conversion from an integer, and the literal m / 10 ^ k.
  pub of_int : ℤ → Double
  pub literal : ℕ → ℕ → Double
  pub add : Double → Double → Double
  pub mul : Double → Double → Double
  pub div : Double → Double → Double
  pub gt : Double → Double → Bool
  pub le : Double → Double → Bool
  -- `std::ceil`, the conversion to an integer, and `std::llround`.
  pub ceil : Double → Double
  pub truncate : Double → ℤ
  pub llround : Double → ℤ
  -- `major` and `minor` of a device number.
  pub dev_major : ℕ → ℕ
  pub dev_minor : ℕ → ℕ
  pub strerror : ℕ → Bytes
  pub strsignal : ℕ → Bytes
  -- Whether `json::dump` writes a text: it throws a `type_error` where that is not UTF-8.
  pub dumps : Bytes → Bool
