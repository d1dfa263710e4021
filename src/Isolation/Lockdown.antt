-- ===== src/Isolation/Lockdown.antt =====
-- What has been done to a child when the judged program starts in it, and how else it can end.
use deep_oj.Common.{◌≡◌, ◌≢◌, refl, true, Option, none, some, List, [], ◌∷◌, arith}
use deep_oj.Common.Bytes.{Bytes, text, bytes_eq_iff, strncpy, split_last}
use deep_oj.Types.{GlobalConfig, RunChildArgs}
use deep_oj.Platform.{Platform}
use deep_oj.Os.{Call, Reply, History, Environment, no_new_privs, getenv, act_allow, act_kill}
use deep_oj.Os.Flow.{◌>>=◌}
use deep_oj.Os.Trace.{
  Performed, start, later, Post, Does, Ends, Does-sys, Does-zero_or_exit, Ends-exit, Ends-bind,
  ◌⨾!◌,
}
use deep_oj.Seccomp.{mode_enables, should_enable_run_seccomp, run_rules, load_seccomp_rules}
use deep_oj.Isolation.RunChild.{run_in, enter_filter, exit_run_exec_error, start_program, run_child}
use deep_oj.Isolation.BaseName.{at_root, path_in_root-at_root}
use deep_oj.Isolation.Closing.{close_descriptors-Does}
use deep_oj.Os.{close_range_from}
use deep_oj.Isolation.RootfsCorrect.{ChildCode, rootfs_steps, setup_rootfs-Does}
use deep_oj.Isolation.Steps.{
  filter_steps, load_filter-Does, exec-Does, io_steps, seal_steps, limit_steps, drop_steps,
  redirect_io-Does, seal_root-Does, limit_resources-Does, drop_privileges-Does,
}

-- The filter is never switched off by JUDGE_RUN_SECCOMP_MODE.
abbrev pub Strict : Environment → Type 0
Strict env = (h : History) → (env h (getenv (text "JUDGE_RUN_SECCOMP_MODE"))).bytes ≢ text "off"

-- All that has succeeded when the program starts, the last call first.
abbrev pub lockdown : GlobalConfig → RunChildArgs → Bytes → List Call
lockdown g args work_dir = filter_steps act_kill act_allow run_rules (
    no_new_privs
    ∷ drop_steps g (
        limit_steps g args
          (seal_steps g (rootfs_steps g work_dir (close_range_from 3 ∷ io_steps args)))))

-- The program is the judged one, alone in its new root, and it was locked down before.
abbrev pub StartsLocked : GlobalConfig → RunChildArgs → Bytes → List Bytes → History → Type 0
StartsLocked g args path argv h =
    (path ≡ at_root args.exe_path)
    × (argv ≡ path ∷ [])
    × ((work_dir : Bytes) × (name : Bytes) × (split_last b'/' (strncpy 255 args.exe_path)
          ≡ some (work_dir, name))
        × Performed (lockdown g args work_dir) h)

mode_enables_strict : (r : Reply) → r.bytes ≢ text "off" → mode_enables r ≡ true
unfolding mode_enables
mode_enables_strict r h = ground (arith, bytes_eq_iff r.bytes (text "off"))

module _ (env : Environment) (p : Platform) (g : GlobalConfig) (args : RunChildArgs)
    (strict : Strict env) where
  -- The filter is loaded, since the mode is not `off`.
  filter-Does :
      {X : Bytes → List Bytes → History → Type 0} (cs : List Call)
      → Does env ChildCode X cs (filter_steps act_kill act_allow run_rules cs) enter_filter
  unfolding enter_filter should_enable_run_seccomp load_seccomp_rules ◌>>=◌
  filter-Does cs = record {
    run = λ h q.
        let c = getenv (text "JUDGE_RUN_SECCOMP_MODE") in
        rw (mode_enables_strict (env h c) (strict h)) (
          (load_filter-Does act_kill act_allow run_rules).run ((c, env h c) ∷ h)
            (later c (env h c) q));
  }

  start_program-Ends :
      (work_dir name : Bytes)
      → split_last b'/' (strncpy 255 args.exe_path) ≡ some (work_dir, name)
      → Ends env ChildCode
          (StartsLocked g args)
          (drop_steps g (
            limit_steps g args
              (seal_steps g (rootfs_steps g work_dir (close_range_from 3 ∷ io_steps args)))))
          (start_program p args)
  unfolding start_program exit_run_exec_error
  start_program-Ends work_dir name e =
      Does-zero_or_exit _ _ (ground arith)
      ⨾! filter-Does _
      ⨾! Ends-bind
          (exec-Does _ _ _ (λ h r q ran.
            (path_in_root-at_root args.exe_path, refl, (work_dir, name, e, later _ r q))))
          (λ r. Does-sys _ ⨾! Ends-exit 127 (ground arith))

  run_in-Ends :
      (o : Option (Bytes × Bytes))
      → split_last b'/' (strncpy 255 args.exe_path) ≡ o
      → Ends env ChildCode
          (StartsLocked g args)
          (close_range_from 3 ∷ io_steps args)
          (run_in p g args o)
  unfolding run_in
  run_in-Ends none e = Ends-exit 128 (ground arith)
  run_in-Ends (some (work_dir, name)) e =
      setup_rootfs-Does p g work_dir
      ⨾! seal_root-Does g args
      ⨾! limit_resources-Does g args
      ⨾! drop_privileges-Does g args
      ⨾! start_program-Ends work_dir name e

  pub run_child_locked : Post ChildCode (StartsLocked g args) (λ _ _. ⊥) (run_child p g args env [])
  unfolding run_child
  run_child_locked = whole.run [] start
    where
      whole : Ends env ChildCode (StartsLocked g args) [] (run_child p g args)
      whole =
          redirect_io-Does g args
          ⨾! close_descriptors-Does
          ⨾! run_in-Ends (split_last b'/' (strncpy 255 args.exe_path)) refl
