-- ===== src/Sandbox/RequestId.antt =====
-- The test of request ids, on which the paths of request directories rest.
pub mod Correct
use deep_oj.Common.{
  ℕ, Bool, true, false, not, ◌&&◌, ◌||◌, [], ◌∷◌, ltb, leb, ◌==◌, length, is_empty, if◌then◌else◌,
}
use deep_oj.Common.Bytes.{Bytes}

-- `std::isalnum` in the C locale.
abbrev pub isalnum : ℕ → Bool
isalnum c = leb b'0' c && leb c b'9' || leb b'A' c && leb c b'Z' || leb b'a' c && leb c b'z'

-- The loop over the characters.
unfoldable pub all_valid : Bytes → Bool
all_valid [] = true
all_valid (c ∷ id) =
    let rest = all_valid id in
    if not (isalnum c) && not (c == b'_') && not (c == b'-') then false else rest

unfoldable pub is_valid_request_id : Bytes → Bool
unfolding all_valid
is_valid_request_id id = if is_empty id || ltb 64 (length id) then false else all_valid id
