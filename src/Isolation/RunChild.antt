-- ===== src/Isolation/RunChild.antt =====
-- `RunChildFn`: from the clone to the judged program.
use deep_oj.Common.{
  ℕ, ◌+◌, ◌*◌, ◌%◌, ◌^◌, Option, none, some, List, [], ◌∷◌, ◌++◌, ltb, if◌then◌else◌,
}
use deep_oj.Common.Int.{ℤ, pos, ◌+ℤ◌, ltb_ℤ, to_int, to_unsigned, pos_part, quotient}
use deep_oj.Common.Bytes.{Bytes, text, print_ℤ, strncpy, split_last}
use deep_oj.Types.{
  code, err_chdir_failed, err_setgid_failed, err_setuid_failed, err_rlimit_cpu, err_rlimit_memory,
  err_rlimit_stack, err_rlimit_nproc, err_rlimit_fsize, err_remount_ro, err_mount_proc,
  err_mount_tmp, err_sandbox_exception, err_exec_failed, GlobalConfig, RunChildArgs,
}
use deep_oj.Platform.{Platform}
use deep_oj.Os.{
  Reply, dup2, write_fd, mkdir, chmod, chdir, mount, setrlimit, setgroups_none, setgid, setuid,
  no_new_privs, execve, ms_bind, ms_rdonly, ms_remount, ms_nosuid, ms_noexec, ms_nodev, rlimit_cpu,
  rlimit_as, rlimit_stack, rlimit_nproc, rlimit_fsize,
}
use deep_oj.Os.Flow.{
  M, returns, becomes, ◌>>=◌, ◌>>◌, sys, when, exit, failed, or_exit, zero_or_exit,
}
use deep_oj.Sandbox.Marker.{run_exec_error_message}
use deep_oj.Seccomp.{should_enable_run_seccomp, load_seccomp_rules}
use deep_oj.Isolation.Descriptors.{close_descriptors}
use deep_oj.Isolation.Rootfs.{failed_anew, setup_rootfs}

-- A `mkdir` that may find the directory there.
unfoldable pub mkdir_or_exit : Bytes → ℕ → ℕ → M (Unit {0})
mkdir_or_exit dir mode exit_code = do
  r ← sys (mkdir dir mode)
  when (failed_anew r) (exit exit_code)

-- Step 1: the descriptors that the parent opened become 0, 1 and 2.
unfoldable pub redirect_io : RunChildArgs → M (Unit {0})
redirect_io args = do
  or_exit (dup2 args.input_fd 0) 101
  or_exit (dup2 args.output_fd 1) 102
  or_exit (dup2 args.error_fd 2) 103

-- The options of a tmpfs.
unfoldable pub tmpfs_options : ℤ → ℕ → Bytes
unfolding text print_ℤ
tmpfs_options size_mb default_mb = strncpy 63 (
    text "size="
    ++ print_ℤ (if ltb_ℤ (pos 0) size_mb then size_mb else pos default_mb)
    ++ text "m,mode=1777")

-- Step 4: the root made read-only, and `/tmp` and `/proc` mounted over it.
unfoldable pub seal_root : GlobalConfig → M (Unit {0})
seal_root g = do
  mkdir_or_exit (text "/tmp") 0o1777 (code err_mount_tmp)
  mkdir_or_exit (text "/proc") 0o755 (code err_mount_proc)
  or_exit (chmod (text "/") 0o555) (code err_chdir_failed)
  or_exit (mount none (text "/") none (ms_remount ∷ ms_bind ∷ ms_rdonly ∷ []) none)
      (code err_remount_ro)
  or_exit
      (mount (some (text "tmpfs")) (text "/tmp") (some (text "tmpfs")) []
        (some (tmpfs_options g.run_tmpfs_size_mb 64)))
      (code err_mount_tmp)
  or_exit (mount (some (text "proc")) (text "/proc") (some (text "proc")) [] none)
      (code err_mount_proc)
  or_exit
      (mount (some (text "proc")) (text "/proc") (some (text "proc"))
        (ms_remount ∷ ms_rdonly ∷ ms_nosuid ∷ ms_noexec ∷ ms_nodev ∷ []) none)
      (code err_mount_proc)

-- Seconds of CPU time: the limit rounded up, 1 at least.
unfoldable pub cpu_soft : ℤ → ℕ
cpu_soft time_limit_ms =
    let seconds = to_unsigned 64 (quotient (to_int (time_limit_ms +ℤ pos 999)) 1000) in
    if ltb seconds 1 then 1 else seconds

unfoldable pub cpu_hard : ℤ → ℕ
unfolding cpu_soft
cpu_hard time_limit_ms = (cpu_soft time_limit_ms + 1) % 2 ^ 64

unfoldable pub address_space : GlobalConfig → ℤ → ℕ
address_space g memory_limit_kb =
    if ltb_ℤ (pos 0) memory_limit_kb
    then pos_part memory_limit_kb * 1024 % 2 ^ 64
    else to_unsigned 64 g.compile_mem_limit

unfoldable pub nproc_cap : GlobalConfig → ℕ
nproc_cap g =
    let cap = if ltb_ℤ (pos 0) g.cgroup_pids_limit then pos_part g.cgroup_pids_limit else 20 in
    if ltb cap 10 then 10 else cap

-- The resource limits of the task.
unfoldable pub limit_resources : GlobalConfig → RunChildArgs → M (Unit {0})
limit_resources g args = do
  or_exit
      (setrlimit rlimit_cpu (some (cpu_soft args.time_limit_ms))
        (some (cpu_hard args.time_limit_ms)))
      (code err_rlimit_cpu)
  let memory = address_space g args.memory_limit_kb
  or_exit (setrlimit rlimit_as (some memory) (some memory)) (code err_rlimit_memory)
  or_exit (setrlimit rlimit_stack none none) (code err_rlimit_stack)
  or_exit (setrlimit rlimit_nproc (some (nproc_cap g)) (some (nproc_cap g))) (code err_rlimit_nproc)
  or_exit (setrlimit rlimit_fsize (some args.output_limit_bytes) (some args.output_limit_bytes))
      (code err_rlimit_fsize)

-- Step 5: no group, and the configured user.
unfoldable pub drop_privileges : GlobalConfig → M (Unit {0})
drop_privileges g = do
  zero_or_exit setgroups_none (code err_setgid_failed)
  zero_or_exit (chdir (text "/")) (code err_chdir_failed)
  zero_or_exit (setgid g.run_gid) (code err_setgid_failed)
  zero_or_exit (setuid g.run_uid) (code err_setuid_failed)

-- `ExitRunExecError`
unfoldable pub exit_run_exec_error : {A : Type 0} → Platform → ℕ → Bytes → M A
unfolding run_exec_error_message
exit_run_exec_error p errno exe_path = do
  sys (write_fd 2 (run_exec_error_message p errno exe_path))
  exit (code err_exec_failed)

-- An `exec` that succeeds never returns.
unfoldable pub exec : Bytes → List Bytes → Option (List Bytes) → M Reply
exec path argv envp env h =
    let r = env h (execve path argv envp) in
    let h' = (execve path argv envp, r) ∷ h in
    if failed r then returns r h' else becomes path argv h'

-- What is behind the last `/`, in the new root.
unfoldable pub path_in_root : Bytes → Bytes
unfolding split_last
path_in_root path =
    strncpy 511 (b'/' ∷ (elim (split_last b'/' path) [ none ↦ path | some (dir, name) ↦ name ]))

unfoldable pub run_environment : List Bytes
unfolding text
run_environment = text "PATH=/bin:/usr/bin" ∷ []

-- The last step before `exec`.
unfoldable pub enter_filter : M (Unit {0})
enter_filter = do strict ← should_enable_run_seccomp; when strict load_seccomp_rules

-- Steps 6 to 8: no new privileges, the filter, and the program.
unfoldable pub start_program : Platform → RunChildArgs → M ℕ
start_program p args = do
  let new_exe = path_in_root args.exe_path
  zero_or_exit no_new_privs (code err_sandbox_exception)
  enter_filter
  r ← exec new_exe (new_exe ∷ []) (some run_environment)
  exit_run_exec_error p r.errno new_exe

-- What follows once the work directory is known.
unfoldable pub run_in : Platform → GlobalConfig → RunChildArgs → Option (Bytes × Bytes) → M ℕ
run_in p g args none = exit (code err_chdir_failed)
run_in p g args (some (work_dir, name)) = do
  setup_rootfs p g work_dir
  seal_root g
  limit_resources g args
  drop_privileges g
  start_program p args

unfoldable pub run_child : Platform → GlobalConfig → RunChildArgs → M ℕ
unfolding split_last run_in
run_child p g args = do
  redirect_io args
  close_descriptors
  run_in p g args (split_last b'/' (strncpy 255 args.exe_path))
