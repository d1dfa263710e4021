-- ===== src/Cgroup/Numbers.antt =====
-- The numbers that the cgroup code reads from the kernel's files: the peak of the memory, and the
-- processes to kill.
use deep_oj.Common.{
  ℕ, zero, suc, ◌^◌, ◌<◌, ◌≡◌, refl, ◌∙◌, ap, Bool, true, false, some, [], ◌∷◌, ◌++◌, arith, length,
}
use deep_oj.Common.Int.{ℤ, pos, ltb_ℤ}
use deep_oj.Common.Bytes.{Bytes, text, print_ℕ}
use deep_oj.Common.Bytes.Lines.{one_line, one_line-print}
use deep_oj.Common.Numbers.{read_number, skip_spaces, after_sign, read_signed}
use deep_oj.Common.Numbers.Printed.{print_ℕ-length, read_number-print, stoull-print}
use deep_oj.Os.{History, Environment, read_file, kill, sigkill}
use deep_oj.Os.Flow.{returns, bind, ◌>>=◌, ◌>>◌, skip, when, sys, failed}
use deep_oj.Cgroup
use deep_oj.Cgroup.{CgroupManager}
use deep_oj.Cgroup.Files.{first_line, read_from_file}
use deep_oj.Cgroup.Kill.{read_pids, kill_each, kill_all}

first_line-cons : (l rest : Bytes) → one_line l ≡ true → first_line (l ++ b'\n' ∷ rest) ≡ l
unfolding first_line
first_line-cons [] rest h = refl
first_line-cons (b ∷ l) rest h = ground (arith, first_line-cons l rest)

-- A file whose first line is a number is read as that number's text.
read_from_file-print :
    (env : Environment) (h : History) (path rest : Bytes) (n : ℕ)
    → failed (env h (read_file path)) ≡ false
    → (env h (read_file path)).bytes ≡ print_ℕ n ++ b'\n' ∷ rest
    → read_from_file path env h ≡ returns (print_ℕ n) ((read_file path, env h (read_file path)) ∷ h)
unfolding read_from_file ◌>>=◌ sys
read_from_file-print env h path rest n ok e =
    rw (ok, e, first_line-cons (print_ℕ n) rest (one_line-print n)) refl

stat_value-print : (n : ℕ) → n < 2 ^ 64 → Cgroup.stat_value (print_ℕ n) ≡ some n
stat_value-print n h = rw ((print_ℕ-length n).0, stoull-print n h) refl

-- The peak that the kernel prints on the first line of memory.peak is the number that the engine
-- takes for it, if the cgroup exists, the file can be read and the number has 64 bits.
pub get_memory_peak_lem :
    (env : Environment) (h : History) (c : CgroupManager) (rest : Bytes) (n : ℕ)
    → c.created ≡ true
    → failed (env h (read_file (c.cgroup_path ++ text "/memory.peak"))) ≡ false
    → (env h (read_file (c.cgroup_path ++ text "/memory.peak"))).bytes ≡ print_ℕ n ++ b'\n' ∷ rest
    → n < 2 ^ 64
    → Cgroup.get_memory_peak c env h
      ≡ returns n (
          (
            read_file (c.cgroup_path ++ text "/memory.peak"),
            env h (read_file (c.cgroup_path ++ text "/memory.peak")),
          )
          ∷ h)
unfolding Cgroup.get_memory_peak ◌>>=◌
get_memory_peak_lem env h c rest n there ok e fits =
    rw
      (
        there,
        read_from_file-print env h (c.cgroup_path ++ text "/memory.peak") rest n ok e,
        stat_value-print n fits,
      )
      refl

read_signed-print : (n : ℕ) → n < 2 ^ 31 → read_signed 31 (print_ℕ n) ≡ some (pos n, [])
unfolding read_signed
read_signed-print n h = rw (read_number-print n) (ground arith)

read_pids-some :
    (f : ℕ) (s rest : Bytes) (z : ℤ)
    → read_signed 31 s ≡ some (z, rest)
    → read_pids (suc f) s ≡ z ∷ read_pids f rest
unfolding read_pids
read_pids-some f s rest z e = rw (read_pids, e) refl

read_pids-nil : (f : ℕ) → read_pids f [] ≡ []
unfolding read_pids read_signed read_number skip_spaces after_sign
read_pids-nil zero = refl
read_pids-nil (suc f) = refl

read_pids-print : (f n : ℕ) → n < 2 ^ 31 → read_pids (suc f) (print_ℕ n) ≡ pos n ∷ []
read_pids-print f n h =
    read_pids-some f (print_ℕ n) [] (pos n) (read_signed-print n h)
    ∙ ap (λ pids. pos n ∷ pids) (read_pids-nil f)

kill_one :
    (env : Environment) (h : History) (pid : ℕ)
    → 0 < pid
    → kill_each (pos pid ∷ []) env h
      ≡ returns tt ((kill (pos pid) sigkill, env h (kill (pos pid) sigkill)) ∷ h)
unfolding kill_each ◌>>=◌ sys
kill_one env h pid positive = by_test (ltb_ℤ (pos 0) (pos pid)) (ground arith)
  where
    by_test :
        (b : Bool)
        → b ≡ true
        → (when b (sys (kill (pos pid) sigkill) >> skip) >> kill_each []) env h
          ≡ returns tt ((kill (pos pid) sigkill, env h (kill (pos pid) sigkill)) ∷ h)
    by_test true e = refl
    by_test false e = absurd (ground arith)

-- The kernel prints one process on each line of cgroup.procs. `KillAllProcesses` sends SIGKILL to
-- the first of them, and to no other, whatever the further lines hold, if the file can be read.
pub kill_all-first :
    (env : Environment) (h : History) (path rest : Bytes) (pid : ℕ)
    → failed (env h (read_file (path ++ text "/cgroup.procs"))) ≡ false
    → (env h (read_file (path ++ text "/cgroup.procs"))).bytes ≡ print_ℕ pid ++ b'\n' ∷ rest
    → 0 < pid
    → pid < 2 ^ 31
    → kill_all path env h ≡ (
        let h' =
          (
            read_file (path ++ text "/cgroup.procs"),
            env h (read_file (path ++ text "/cgroup.procs")),
          )
          ∷ h in
        returns tt ((kill (pos pid) sigkill, env h' (kill (pos pid) sigkill)) ∷ h'))
unfolding kill_all ◌>>=◌
kill_all-first env h path rest pid ok e positive fits =
    let file = path ++ text "/cgroup.procs" in
    let h' = (read_file file, env h (read_file file)) ∷ h in
    ap (λ o. bind o (λ procs h'. kill_each (read_pids (suc (length procs)) procs) env h'))
      (read_from_file-print env h file rest pid ok e)
    ∙ ap (λ pids. kill_each pids env h') (read_pids-print (length (print_ℕ pid)) pid fits)
    ∙ kill_one env h' pid positive
