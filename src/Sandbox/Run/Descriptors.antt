-- ===== src/Sandbox/Run/Descriptors.antt =====
-- The descriptors of `Sandbox::Run`: those of its input, output and error, and of `/dev/null`.
use deep_oj.Common.{
  ℕ, ◌≡◌, refl, Bool, true, false, Option, none, some, List, [], ◌∷◌, is_empty, if◌then◌else◌, sym,
  subst, arith,
}
use deep_oj.Common.Int.{ℤ, pos, negsuc, eqb_ℤ, ltb_ℤ, leb_ℤ}
use deep_oj.Common.Bytes.{Bytes}
use deep_oj.Types.{GlobalConfig, RunChildArgs}
use deep_oj.Platform.{Platform}
use deep_oj.Os.{
  Call, Reply, Rusage, OpenFlag, History, Environment, open_file, dup, close, clone_run,
}
use deep_oj.Os.Flow.{M, ◌>>=◌, ◌>>◌, pure, sys, scoped, when, skip}
use deep_oj.Os.Tidy.{Leaves, Tidy, Stable, Tidy-pure, Tidy-bind, ◌⨟◌, Tidy-if}
use deep_oj.Os.Balance.{
  Balanced, with_fd, Handed, Tidy-Handed, Tidy-open, Balanced-Stable, Balanced-open, Balanced-close,
  Tidy-scoped,
}
use deep_oj.Cgroup.{CgroupManager}
use deep_oj.Cgroup.Quiet.{
  get_cgroup2_mount_root-Tidy, create-Tidy, set_memory_limit-Tidy, set_pids_limit-Tidy,
  set_cpu_limit-Tidy, set_io_limit-Tidy, add_process-Tidy, get_memory_peak-Tidy, destroy-Tidy,
}
use deep_oj.Sandbox.Guard.{auto_close}
use deep_oj.Sandbox.Watch.{Watched, ended, decided}
use deep_oj.Sandbox.Quiet.{Loops, any-Loops, guarded-Tidy, assess-Tidy}
use deep_oj.Sandbox.Run
use deep_oj.Sandbox.Run.{RunRequest}

module _ {U : Type 0} {env : Environment} {I : History → Type 0} (stable : Stable I) (p : Platform)
    (g : GlobalConfig) (q : RunRequest) where
  fill_cgroup-Tidy : (c : CgroupManager) (pid : ℤ) → Tidy U env I I (Run.fill_cgroup p g q c pid)
  unfolding Run.fill_cgroup
  fill_cgroup-Tidy c pid =
      set_pids_limit-Tidy stable c _
      ⨟ set_memory_limit-Tidy stable c _ true
      ⨟ set_cpu_limit-Tidy stable c p _
      ⨟ set_io_limit-Tidy stable c p _ _ _
      ⨟ add_process-Tidy stable c pid
      ⨟ Tidy-pure tt

  pub start_cgroup-Tidy : (pid : ℤ) → Tidy U env I I (Run.start_cgroup p g q pid)
  unfolding Run.start_cgroup
  start_cgroup-Tidy pid = Tidy-bind (get_cgroup2_mount_root-Tidy stable) (λ root.
      Tidy-if _ (Tidy-pure _) (
        Tidy-bind (create-Tidy stable _)
          (λ made. Tidy-if _ (fill_cgroup-Tidy _ pid ⨟ Tidy-pure _) (Tidy-pure _))))

  pub destroy_cgroup-Tidy : (c : Option CgroupManager) → Tidy U env I I (Run.destroy_cgroup p g q c)
  unfolding Run.destroy_cgroup
  destroy_cgroup-Tidy none = Tidy-pure tt
  destroy_cgroup-Tidy (some c) = destroy-Tidy stable c ⨟ Tidy-pure tt

  memory_used-Tidy :
      (c : Option CgroupManager) (usage : Rusage) → Tidy U env I I (Run.memory_used p g q c usage)
  unfolding Run.memory_used
  memory_used-Tidy none usage = Tidy-pure _
  memory_used-Tidy (some c) usage = Tidy-bind (get_memory_peak-Tidy stable c) (λ peak. Tidy-pure _)

  pub conclude-Tidy :
      (c : Option CgroupManager) (w : Watched) → Tidy U env I I (Run.conclude p g q c w)
  unfolding Run.conclude
  conclude-Tidy c (decided result) = Tidy-pure _
  conclude-Tidy c (ended status usage) =
      Tidy-bind (memory_used-Tidy c usage) (λ memory. assess-Tidy stable p g _ _ _ _ status usage _)

  pub supervise-Tidy :
      (fuel : ℕ)
      → Loops U env fuel p q.time_limit_ms q.memory_limit_kb
      → (pid : ℤ) → Tidy U env I I (Run.supervise p g q fuel pid)
  unfolding Run.supervise Run.watch_and_conclude
  supervise-Tidy fuel loops pid = Tidy-bind (start_cgroup-Tidy pid) (λ c.
      Tidy-scoped _
        (loops.watches I stable pid _
          (λ w. Tidy-bind (conclude-Tidy c w.0) (λ result. Tidy-pure _)))
        (destroy_cgroup-Tidy c))

-- What a scope needs for its descriptor: it is closed, if it is one.
auto_close-Tidy :
    {U : Type 0} {env : Environment} (fd : ℤ) (fds : List ℤ)
    → Tidy U env (Balanced (with_fd fd fds)) (Balanced fds) (auto_close fd)
unfolding auto_close ◌>>=◌ sys
auto_close-Tidy {U} {env} fd fds = by_fd (leb_ℤ (pos 0) fd)
  where
    by_fd :
        (e : Bool)
        → Tidy U env
            (Balanced (if e then fd ∷ fds else fds))
            (Balanced fds)
            (when e (sys (close fd) >> skip))
    by_fd true = record { run = λ h b. Balanced-close fd (env h (close fd)) fds h b }
    by_fd false = Tidy-pure tt

no_fd : (fd : ℤ) (fds : List ℤ) → ltb_ℤ fd (pos 0) ≡ true → with_fd fd fds ≡ fds
no_fd fd fds e = ground arith

dup-hands :
    (env : Environment) (null_fd : ℤ) (fds : List ℤ) (h : History)
    → Balanced fds h
    → Handed fds ((do r ← sys (dup null_fd); pure r.ret) env h)
unfolding ◌>>=◌ sys
dup-hands env null_fd fds h b =
    Balanced-open (dup null_fd) (env h (dup null_fd)) fds h refl (λ n. refl) b

open_or_null-Handed :
    (env : Environment) (null_fd : ℤ) (flags : List OpenFlag) (mode : ℕ) (path : Bytes)
    (fds : List ℤ) (h : History)
    → Balanced fds h
    → Handed fds (Run.open_or_null null_fd flags mode path env h)
unfolding Run.open_or_null ◌>>=◌ sys
open_or_null-Handed env null_fd flags mode path fds h b = by_path (is_empty path)
  where
    c : Call
    c = open_file path flags mode

    r : Reply
    r = env h c

    opened : Balanced (with_fd r.ret fds) ((c, r) ∷ h)
    opened = Balanced-open c r fds h refl (λ n. refl) b

    by_fd :
        (f : Bool)
        → ltb_ℤ r.ret (pos 0) ≡ f
        → Handed fds
            ((if f then (do r ← sys (dup null_fd); pure r.ret) else pure r.ret) env ((c, r) ∷ h))
    by_fd true e =
        dup-hands env null_fd fds ((c, r) ∷ h)
          (subst (λ x. Balanced x ((c, r) ∷ h)) (no_fd r.ret fds e) opened)
    by_fd false e = opened

    by_path :
        (e : Bool)
        → Handed fds (
            (if e then (do r ← sys (dup null_fd); pure r.ret) else (do
              fd ← sys c
              if ltb_ℤ fd.ret (pos 0) then (do r ← sys (dup null_fd); pure r.ret) else pure fd.ret))
              env h)
    by_path true = dup-hands env null_fd fds h b
    by_path false = by_fd (ltb_ℤ r.ret (pos 0)) refl

-- A descriptor, what is done with it, and the destructor that closes it.
with_descriptor-Tidy :
    {A : Type 0} {U : Type 0} {env : Environment} (null_fd : ℤ) (flags : List OpenFlag) (mode : ℕ)
    (path : Bytes) (fds : List ℤ) {f : ℤ → M A}
    → ((fd : ℤ) (fds : List ℤ) → Tidy U env (Balanced fds) (Balanced fds) (f fd))
    → Tidy U env
        (Balanced fds)
        (Balanced fds)
        (Run.open_or_null null_fd flags mode path >>= λ fd. scoped (f fd) (auto_close fd))
with_descriptor-Tidy {env} null_fd flags mode path fds df =
    Tidy-Handed fds _ (open_or_null-Handed env null_fd flags mode path fds)
      (λ fd. Tidy-scoped _ (df fd (with_fd fd fds)) (auto_close-Tidy fd fds))

clone_run-Balanced :
    (args : RunChildArgs) (r : Reply) (fds : List ℤ) (h : History)
    → Balanced fds h
    → Balanced fds ((clone_run args, r) ∷ h)
clone_run-Balanced args r fds h b n = ground (arith, b n)

module _ {U : Type 0} (env : Environment) (p : Platform) (g : GlobalConfig) (q : RunRequest)
    (fuel : ℕ) (loops : Loops U env fuel p q.time_limit_ms q.memory_limit_kb) where
  run_with-Tidy :
      (input_fd output_fd error_fd : ℤ) (fds : List ℤ)
      → Tidy U env
          (Balanced fds)
          (Balanced fds)
          (Run.run_with p g q fuel input_fd output_fd error_fd)
  unfolding Run.run_with sys
  run_with-Tidy input_fd output_fd error_fd fds =
      let args = Run.child_args g q input_fd output_fd error_fd in
      Tidy-bind (record { run = λ h b. clone_run-Balanced args (env h (clone_run args)) fds h b })
        (λ r. Tidy-if (eqb_ℤ r.ret (negsuc 0)) (Tidy-pure _) (
          guarded-Tidy (Balanced-Stable fds) fuel (loops.waits (Balanced fds) (Balanced-Stable fds))
            r.ret (supervise-Tidy (Balanced-Stable fds) p g q fuel loops r.ret)))

  with_input-Tidy :
      (null_fd : ℤ) (fds : List ℤ)
      → Tidy U env (Balanced fds) (Balanced fds) (Run.with_input p g q fuel null_fd)
  unfolding Run.with_input Run.with_output Run.with_error
  with_input-Tidy null_fd fds = with_descriptor-Tidy null_fd _ _ _ fds (λ input_fd fds.
      with_descriptor-Tidy null_fd _ _ _ fds (λ output_fd fds.
        with_descriptor-Tidy null_fd _ _ _ fds
          (λ error_fd fds. run_with-Tidy input_fd output_fd error_fd fds)))

  pub run-Tidy : Tidy U env (Balanced []) (Balanced []) (Run.run p g q fuel)
  unfolding Run.run
  run-Tidy = Tidy-open [] _ refl (λ n. refl) (λ null. by_fd null (ltb_ℤ null.ret (pos 0)) refl)
    where
      by_fd :
          (null : Reply) (e : Bool)
          → ltb_ℤ null.ret (pos 0) ≡ e
          → Tidy U env (Balanced (with_fd null.ret [])) (Balanced []) (
              if e
              then pure (Run.no_dev_null p g q null.errno)
              else scoped (Run.with_input p g q fuel null.ret) (auto_close null.ret))
      by_fd null true e =
          subst
            (λ fds.
              Tidy U env (Balanced fds) (Balanced []) (pure (Run.no_dev_null p g q null.errno)))
            (sym (no_fd null.ret [] e)) (Tidy-pure _)
      by_fd null false e =
          Tidy-scoped _ (with_input-Tidy null.ret (with_fd null.ret []))
            (auto_close-Tidy null.ret [])

-- In every environment `Run` comes back: it does not end the process, neither by an exit nor by an
-- exec, and when it returns or throws, each descriptor has been closed just as often as it was
-- handed out by `open` or `dup`. (A loop that has used up its fuel is not covered.)
pub run_closes_descriptors :
    (env : Environment) (p : Platform) (g : GlobalConfig) (q : RunRequest) (fuel : ℕ)
    → Leaves (Unit {0}) (Balanced []) (Run.run p g q fuel env [])
run_closes_descriptors env p g q fuel =
    (run-Tidy env p g q fuel (any-Loops env fuel p q.time_limit_ms q.memory_limit_kb)).run []
      (λ n. refl)
