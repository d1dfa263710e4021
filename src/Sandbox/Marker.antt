-- ===== src/Sandbox/Marker.antt =====
-- The line by which a child that could not start the program tells its parent so: written by
-- `ExitRunExecError` (sandbox_isolation.cpp), read by `ReadRunExecFailureMarker` (sandbox.cpp).
pub mod Correct
use deep_oj.Common.{
  ℕ, Bool, true, false, none, some, List, [], ◌∷◌, ◌++◌, take, ◌==◌, is_empty, if◌then◌else◌,
}
use deep_oj.Common.Bytes.{Bytes, text, print_ℕ, strip_prefix}
use deep_oj.Os.{read_file}
use deep_oj.Os.Flow.{M, ◌>>=◌, pure, sys, failed}
use deep_oj.Platform.{Platform}

-- `struct RunExecFailureMarker`
pub record RunExecFailureMarker : Type 0 where
  pub found : Bool
  pub detail : Bytes

abbrev pub no_marker : RunExecFailureMarker
no_marker = record { found = false; detail = [] }

-- The texts that `std::getline` yields, one after another.
extend_first : ℕ → List Bytes → List Bytes
extend_first b [] = (b ∷ []) ∷ []
extend_first b (l ∷ ls) = (b ∷ l) ∷ ls

unfoldable pub lines : Bytes → List Bytes
unfolding extend_first
lines [] = []
lines (b ∷ s) = let rest = lines s in if b == b'\n' then [] ∷ rest else extend_first b rest

unfoldable pub marker_prefix : Bytes
unfolding text
marker_prefix = text "[sandbox][run_exec_failed]"

-- `detail.erase(0, 1)` if it begins with a space.
unfoldable pub drop_space : Bytes → Bytes
drop_space [] = []
drop_space (b ∷ s) = if b == b' ' then s else b ∷ s

-- The loop over the lines.
unfoldable pub find_marker : List Bytes → RunExecFailureMarker
unfolding drop_space
find_marker [] = no_marker
find_marker (l ∷ ls) = elim (strip_prefix marker_prefix l) [
  | none ↦ find_marker ls
  | some detail ↦ record { found = true; detail = drop_space detail }
]

unfoldable pub read_run_exec_failure_marker : Bytes → M RunExecFailureMarker
unfolding find_marker lines
read_run_exec_failure_marker stderr_path = if is_empty stderr_path then pure no_marker else do
  r ← sys (read_file stderr_path)
  if failed r then pure no_marker else pure (find_marker (lines r.bytes))

-- The message of `ExitRunExecError`, cut off at the size of its buffer, with the newline behind it.
unfoldable pub run_exec_error_message : Platform → ℕ → Bytes → Bytes
run_exec_error_message p errno exe =
    take 1023 (
      marker_prefix
      ++ (text " errno="
          ++ (print_ℕ errno ++ (text "(" ++ (p.strerror errno ++ (text ") exe=" ++ exe))))))
    ++ b'\n' ∷ []
