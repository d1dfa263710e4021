-- ===== src/Config/Loading.antt =====
-- The results of reading a configuration, and the ways in which `LoadConfig` gives up.
use deep_oj.Common.{Option, none, some}
use deep_oj.Common.Bytes.{Bytes}

-- A node that must be there is missing, `mount_dirs` is no list, or an exception of the library.
pub data Failure : Type 0 where
  missing : Bytes → Failure
  no_list : Failure
  exception : Failure

pub data Loaded (A : Type 0) : Type 0 where
  loaded : A → Loaded A
  refused : Failure → Loaded A

infixl 5 ◌>>=◌ ◌>>◌
unfoldable pub ◌>>=◌ : {A B : Type 0} → Loaded A → (A → Loaded B) → Loaded B
loaded a >>= f = f a
refused why >>= f = refused why

abbrev pub ◌>>◌ : {B : Type 0} → Loaded (Unit {0}) → Loaded B → Loaded B
m >> k = m >>= λ _. k

unfoldable pub or_throw : {A : Type 0} → Option A → Loaded A
or_throw none = refused exception
or_throw (some a) = loaded a
