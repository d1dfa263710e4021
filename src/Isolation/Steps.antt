-- ===== src/Isolation/Steps.antt =====
-- The steps of a child, each with the calls that have succeeded behind it.
use deep_oj.Common.{ℕ, ◌≡◌, false, Option, none, some, List, [], ◌∷◌, arith, Bool-cases, inl, inr}
use deep_oj.Common.Bytes.{Bytes, text}
use deep_oj.Types.{GlobalConfig, RunChildArgs}
use deep_oj.Os.{
  Call, Reply, History, Environment, dup2, chmod, chdir, mount, setrlimit, setgroups_none, setgid,
  setuid, seccomp_init, seccomp_rule_add, seccomp_load, execve, ScmpAction, ms_bind, ms_rdonly,
  ms_remount, ms_nosuid, ms_noexec, ms_nodev, rlimit_cpu, rlimit_as, rlimit_stack, rlimit_nproc,
  rlimit_fsize,
}
use deep_oj.Os.Flow.{failed, nonzero}
use deep_oj.Os.Trace.{
  Performed, later, Does, Does-pure, Does-exit, Does-sys, Does-bind, ◌⨾◌, Does-when, Does-check,
  Does-or_exit, Does-zero_or_exit,
}
use deep_oj.Seccomp.{Rule, give_up, or_give_up, add_rules, load_filter}
use deep_oj.Isolation.RunChild.{
  mkdir_or_exit, redirect_io, tmpfs_options, seal_root, cpu_soft, cpu_hard, address_space,
  nproc_cap, limit_resources, drop_privileges, exec,
}
use deep_oj.Isolation.RootfsCorrect.{ChildCode}

-- The rules of a filter, the last one first.
abbrev pub added : ScmpAction → List Rule → List Call → List Call
added action [] before = before
added action ((name, condition) ∷ rules) before =
    added action rules (seccomp_rule_add action name condition ∷ before)

abbrev pub filter_steps : ScmpAction → ScmpAction → List Rule → List Call → List Call
filter_steps other action rules before =
    seccomp_load ∷ added action rules (seccomp_init other ∷ before)

module _ {env : Environment} {X : Bytes → List Bytes → History → Type 0} where
  give_up-Does : {cs ds : List Call} → Does env ChildCode X cs ds (give_up {A = Unit})
  unfolding give_up
  give_up-Does = Does-sys _ ⨾ Does-exit 199 (ground arith)

  or_give_up-Does : {cs : List Call} (c : Call) → Does env ChildCode X cs (c ∷ cs) (or_give_up c)
  unfolding or_give_up
  or_give_up-Does c = Does-check c nonzero (λ r x. ground arith) (λ r. give_up-Does)

  add_rules-Does :
      {cs : List Call} (action : ScmpAction) (rules : List Rule)
      → Does env ChildCode X cs (added action rules cs) (add_rules action rules)
  unfolding add_rules
  add_rules-Does action [] = Does-pure tt
  add_rules-Does action ((name, condition) ∷ rules) =
      or_give_up-Does _ ⨾ add_rules-Does action rules

  pub load_filter-Does :
      {cs : List Call} (other action : ScmpAction) (rules : List Rule)
      → Does env ChildCode X cs
          (filter_steps other action rules cs)
          (load_filter other action rules)
  unfolding load_filter
  load_filter-Does other action rules =
      Does-or_exit _ 199 (ground arith)
      ⨾ add_rules-Does action rules
      ⨾ or_give_up-Does _
      ⨾ Does-sys _
      ⨾ Does-pure tt

  pub mkdir_or_exit-Does :
      {cs : List Call} (dir : Bytes) (mode n : ℕ)
      → ChildCode n
      → Does env ChildCode X cs cs (mkdir_or_exit dir mode n)
  unfolding mkdir_or_exit
  mkdir_or_exit-Does dir mode n e = Does-bind (Does-sys _) (λ r. Does-when _ (Does-exit n e))

  pub exec-Does :
      {cs : List Call} (path : Bytes) (argv : List Bytes) (envp : Option (List Bytes))
      → ((h : History) (r : Reply)
          → Performed cs h
          → failed r ≡ false
          → X path argv ((execve path argv envp, r) ∷ h))
      → Does env ChildCode X cs cs (exec path argv envp)
  unfolding exec
  exec-Does path argv envp f = record {
    run = λ h p.
        let c = execve path argv envp in
        let r = env h c in
        elim (Bool-cases (failed r)) [ inl e ↦ rw e (later c r p) | inr e ↦ rw e (f h r p e) ];
  }

-- The calls of each step, the last one first.
abbrev pub io_steps : RunChildArgs → List Call
io_steps args = dup2 args.error_fd 2 ∷ dup2 args.output_fd 1 ∷ dup2 args.input_fd 0 ∷ []

abbrev pub seal_steps : GlobalConfig → List Call → List Call
seal_steps g before =
    mount (some (text "proc")) (text "/proc") (some (text "proc"))
      (ms_remount ∷ ms_rdonly ∷ ms_nosuid ∷ ms_noexec ∷ ms_nodev ∷ []) none
    ∷ mount (some (text "proc")) (text "/proc") (some (text "proc")) [] none
    ∷ mount (some (text "tmpfs")) (text "/tmp") (some (text "tmpfs")) []
        (some (tmpfs_options g.run_tmpfs_size_mb 64))
    ∷ mount none (text "/") none (ms_remount ∷ ms_bind ∷ ms_rdonly ∷ []) none
    ∷ chmod (text "/") 0o555
    ∷ before

abbrev pub limit_steps : GlobalConfig → RunChildArgs → List Call → List Call
limit_steps g args before =
    setrlimit rlimit_fsize (some args.output_limit_bytes) (some args.output_limit_bytes)
    ∷ setrlimit rlimit_nproc (some (nproc_cap g)) (some (nproc_cap g))
    ∷ setrlimit rlimit_stack none none
    ∷ setrlimit rlimit_as (some (address_space g args.memory_limit_kb))
        (some (address_space g args.memory_limit_kb))
    ∷ setrlimit rlimit_cpu (some (cpu_soft args.time_limit_ms)) (some (cpu_hard args.time_limit_ms))
    ∷ before

abbrev pub drop_steps : GlobalConfig → List Call → List Call
drop_steps g before =
    setuid g.run_uid ∷ setgid g.run_gid ∷ chdir (text "/") ∷ setgroups_none ∷ before

module _ {env : Environment} {X : Bytes → List Bytes → History → Type 0} (g : GlobalConfig)
    (args : RunChildArgs) where
  pub redirect_io-Does : Does env ChildCode X [] (io_steps args) (redirect_io args)
  unfolding redirect_io
  redirect_io-Does =
      Does-or_exit _ 101 (ground arith)
      ⨾ Does-or_exit _ 102 (ground arith)
      ⨾ Does-or_exit _ 103 (ground arith)

  pub seal_root-Does : {cs : List Call} → Does env ChildCode X cs (seal_steps g cs) (seal_root g)
  unfolding seal_root
  seal_root-Does =
      mkdir_or_exit-Does _ _ _ (ground arith)
      ⨾ mkdir_or_exit-Does _ _ _ (ground arith)
      ⨾ Does-or_exit _ _ (ground arith)
      ⨾ Does-or_exit _ _ (ground arith)
      ⨾ Does-or_exit _ _ (ground arith)
      ⨾ Does-or_exit _ _ (ground arith)
      ⨾ Does-or_exit _ _ (ground arith)

  pub limit_resources-Does :
      {cs : List Call} → Does env ChildCode X cs (limit_steps g args cs) (limit_resources g args)
  unfolding limit_resources
  limit_resources-Does =
      Does-or_exit _ _ (ground arith)
      ⨾ Does-or_exit _ _ (ground arith)
      ⨾ Does-or_exit _ _ (ground arith)
      ⨾ Does-or_exit _ _ (ground arith)
      ⨾ Does-or_exit _ _ (ground arith)

  pub drop_privileges-Does :
      {cs : List Call} → Does env ChildCode X cs (drop_steps g cs) (drop_privileges g)
  unfolding drop_privileges
  drop_privileges-Does =
      Does-zero_or_exit _ _ (ground arith)
      ⨾ Does-zero_or_exit _ _ (ground arith)
      ⨾ Does-zero_or_exit _ _ (ground arith)
      ⨾ Does-zero_or_exit _ _ (ground arith)
