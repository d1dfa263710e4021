-- ===== src/Common/Paths.antt =====
-- The operations of `std::filesystem::path` that the program uses.
use mathlib.Core.List.{[], ◌∷◌, ◌++◌}
use mathlib.Core.Option.{none, some}
use deep_oj.Common.Tests.{◌==◌, if◌then◌else◌}
use deep_oj.Common.Lists.{is_empty}
use deep_oj.Common.Bytes.{Bytes, split_last}

-- A directory's path without the `/`s at its end.
unfoldable pub strip_slashes : Bytes → Bytes
strip_slashes [] = []
strip_slashes (b ∷ s) = elim (strip_slashes s) [
  | [] ↦ if b == b'/' then [] else b ∷ []
  | c ∷ t ↦ b ∷ c ∷ t
]

-- `path.parent_path()`: the root is its own parent, and that of its entries.
unfoldable pub parent_path : Bytes → Bytes
unfolding split_last strip_slashes
parent_path path = elim (split_last b'/' path) [
  | none ↦ []
  | some (parent, name) ↦
      if is_empty (strip_slashes parent) then b'/' ∷ [] else strip_slashes parent
]

-- `path / name` for a relative `name`.
unfoldable pub join_path : Bytes → Bytes → Bytes
unfolding split_last
join_path path name = elim (split_last b'/' path) [
  | none ↦ if is_empty path then name else path ++ b'/' ∷ name
  | some (parent, last) ↦ if is_empty last then path ++ name else path ++ b'/' ∷ name
]
