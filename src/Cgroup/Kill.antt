-- ===== src/Cgroup/Kill.antt =====
-- `KillAllProcesses`: SIGKILL for the processes that `ReadFromFile` yields of `cgroup.procs`.
use deep_oj.Common.{ℕ, zero, suc, none, some, List, [], ◌∷◌, ◌++◌, length}
use deep_oj.Common.Int.{ℤ, pos, ltb_ℤ}
use deep_oj.Common.Bytes.{Bytes, text}
use deep_oj.Common.Numbers.{read_signed}
use deep_oj.Os.{kill, sigkill}
use deep_oj.Os.Flow.{M, ◌>>=◌, ◌>>◌, skip, sys, when}
use deep_oj.Cgroup.Files.{read_from_file}

-- `while (iss >> pid)`: each round reads a byte at least.
unfoldable pub read_pids : ℕ → Bytes → List ℤ
read_pids zero s = []
read_pids (suc fuel) s = elim (read_signed 31 s) [
  | none ↦ []
  | some (pid, rest) ↦ pid ∷ read_pids fuel rest
]

unfoldable pub kill_each : List ℤ → M (Unit {0})
kill_each [] = skip
kill_each (pid ∷ pids) = do
  when (ltb_ℤ (pos 0) pid) (sys (kill pid sigkill) >> skip)
  kill_each pids

unfoldable pub kill_all : Bytes → M (Unit {0})
unfolding read_pids kill_each read_from_file
kill_all cgroup_path = do
  procs ← read_from_file (cgroup_path ++ text "/cgroup.procs")
  kill_each (read_pids (suc (length procs)) procs)
