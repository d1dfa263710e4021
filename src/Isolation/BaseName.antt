-- ===== src/Isolation/BaseName.antt =====
-- The names that the programs have in the new root.
use deep_oj.Common.{◌≡◌, refl, ap, Option, none, some, [], ◌∷◌, ◌==◌, arith, if◌then◌else◌}
use deep_oj.Common.Bytes.{Bytes, strncpy, split_last}
use deep_oj.Isolation.RunChild.{path_in_root}

-- What is left of a text behind each `/` of it, so in the end behind the last one.
abbrev pub behind_slash : Bytes → Bytes → Bytes
behind_slash name [] = name
behind_slash name (b ∷ s) = if b == b'/' then behind_slash s s else behind_slash name s

-- The name of a file, without its directory.
abbrev pub base_name : Bytes → Bytes
base_name path = behind_slash path path

-- That name below the root, in a buffer of 512 bytes.
abbrev pub at_root : Bytes → Bytes
at_root path = strncpy 511 (b'/' ∷ base_name path)

abbrev name_or : Bytes → Option (Bytes × Bytes) → Bytes
name_or name none = name
name_or name (some (dir, behind)) = behind

split_last-behind : (s name : Bytes) → name_or name (split_last b'/' s) ≡ behind_slash name s
unfolding split_last
split_last-behind [] name = refl
split_last-behind (b ∷ s) name = ground (arith, split_last-behind s name, split_last-behind s s)

pub path_in_root-at_root : (path : Bytes) → path_in_root path ≡ at_root path
unfolding path_in_root
path_in_root-at_root path = ap (λ name. strncpy 511 (b'/' ∷ name)) (split_last-behind path path)
