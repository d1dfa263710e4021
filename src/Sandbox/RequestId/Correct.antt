-- ===== src/Sandbox/RequestId/Correct.antt =====
-- Which request ids pass the test, and what they can name.
use deep_oj.Common.{ℕ, ◌≤◌, ◌≡◌, ◌≢◌, ◌↔◌, ◌⊎◌, true, none, [], ◌∷◌, arith, length, All}
use deep_oj.Common.Bytes.{Bytes, split_last}
use deep_oj.Sandbox.RequestId.{all_valid, is_valid_request_id}

-- A letter, a digit, `_` or `-`.
abbrev pub IsWordByte : ℕ → Type 0
IsWordByte c =
    ((b'0' ≤ c) × (c ≤ b'9'))
    ⊎ ((b'A' ≤ c) × (c ≤ b'Z'))
    ⊎ ((b'a' ≤ c) × (c ≤ b'z'))
    ⊎ (c ≡ b'_')
    ⊎ (c ≡ b'-')

all_valid_iff : (id : Bytes) → (all_valid id ≡ true) ↔ All IsWordByte id
unfolding all_valid
all_valid_iff [] = ground arith
all_valid_iff (c ∷ id) = ground (arith, all_valid_iff id)

-- An id passes just if it has 1 to 64 bytes, each a letter, a digit, `_` or `-`.
pub is_valid_request_id_iff :
    (id : Bytes)
    → (is_valid_request_id id ≡ true) ↔ ((1 ≤ length id) × (length id ≤ 64) × All IsWordByte id)
unfolding is_valid_request_id
is_valid_request_id_iff [] = ground arith
is_valid_request_id_iff (c ∷ id) = ground (arith, all_valid_iff (c ∷ id))

split_last-none : (id : Bytes) → All IsWordByte id → split_last b'/' id ≡ none
unfolding split_last
split_last-none [] h = ground arith
split_last-none (c ∷ id) h = ground (arith, split_last-none id)

-- A passed id holds no `/` and begins with no `.`, so it is a name of its own in any directory:
-- neither a path of several parts nor `.` or `..`.
pub is_valid_request_id_safe :
    (c : ℕ) (id : Bytes)
    → is_valid_request_id (c ∷ id) ≡ true
    → (split_last b'/' (c ∷ id) ≡ none) × (c ≢ b'.')
is_valid_request_id_safe c id h =
    let parts = (is_valid_request_id_iff (c ∷ id)).0 h in
    (split_last-none (c ∷ id) parts.2, ground arith)
