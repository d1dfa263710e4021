-- ===== src/Isolation/CompileChild.antt =====
-- `CompileChildFn`: from the clone to the compiler.
use deep_oj.Common.{ℕ, none, some, List, [], ◌∷◌, ◌++◌, if◌then◌else◌}
use deep_oj.Common.Int.{pos, ltb_ℤ, to_unsigned}
use deep_oj.Common.Bytes.{Bytes, text, print_ℤ, strncpy, split_last}
use deep_oj.Types.{
  code, err_open_output, err_dup2, err_setgid_failed, err_setuid_failed, err_rlimit_cpu,
  err_rlimit_memory, err_rlimit_fsize, err_mkdir_failed, err_mount_tmp, err_sandbox_exception,
  err_exec_failed, GlobalConfig, CompileArgs,
}
use deep_oj.Platform.{Platform}
use deep_oj.Os.{
  open_file, dup2, close, mount, setrlimit, setgroups_none, setgid, setuid, no_new_privs, o_wronly,
  o_creat, o_trunc, o_cloexec, rlimit_cpu, rlimit_as, rlimit_fsize,
}
use deep_oj.Os.Flow.{M, ◌>>=◌, ◌>>◌, skip, sys, when, exit, failed, or_exit, zero_or_exit}
use deep_oj.Seccomp.{load_compile_seccomp_rules}
use deep_oj.Isolation.Descriptors.{close_descriptors}
use deep_oj.Isolation.Rootfs.{setup_rootfs}
use deep_oj.Isolation.RunChild.{mkdir_or_exit, tmpfs_options, path_in_root, exec}

-- Step 3: the log becomes descriptor 2 before anything can fail.
unfoldable pub open_log : Bytes → M (Unit {0})
open_log log_path = do
  fd ← sys (open_file log_path (o_wronly ∷ o_creat ∷ o_trunc ∷ o_cloexec ∷ []) 0o644)
  when (failed fd) (exit (code err_open_output))
  r ← sys (dup2 fd.ret 2)
  when (failed r) (do sys (close fd.ret); exit (code err_dup2))
  sys (close fd.ret)
  skip

-- Step 6: the limits of the compiler.
unfoldable pub limit_compiler : GlobalConfig → M (Unit {0})
limit_compiler g = do
  or_exit
      (setrlimit rlimit_cpu (some (to_unsigned 64 g.compile_cpu_limit))
        (some (to_unsigned 64 g.compile_real_limit)))
      (code err_rlimit_cpu)
  let memory = to_unsigned 64 g.compile_mem_limit
  or_exit (setrlimit rlimit_as (some memory) (some memory)) (code err_rlimit_memory)
  let log =
      (if ltb_ℤ (pos 0) g.compile_log_max_bytes
        then to_unsigned 64 g.compile_log_max_bytes
        else 16777216)
  or_exit (setrlimit rlimit_fsize (some log) (some log)) (code err_rlimit_fsize)

-- Step 7: no group, the configured user, no new privileges, and the filter.
unfoldable pub confine_compiler : GlobalConfig → M (Unit {0})
confine_compiler g = do
  zero_or_exit setgroups_none (code err_setgid_failed)
  zero_or_exit (setgid g.run_gid) (code err_setgid_failed)
  zero_or_exit (setuid g.run_uid) (code err_setuid_failed)
  zero_or_exit no_new_privs (code err_sandbox_exception)
  load_compile_seccomp_rules

unfoldable pub max_errors_option : GlobalConfig → Bytes
unfolding text print_ℤ
max_errors_option g = strncpy 31 (
    text "-fmax-errors="
    ++ print_ℤ (if ltb_ℤ (pos 0) g.compile_max_errors then g.compile_max_errors else pos 10))

unfoldable pub compiler_argv : GlobalConfig → CompileArgs → List Bytes
unfolding text max_errors_option path_in_root
compiler_argv g args =
    g.compiler_path
    ∷ text "-std=c++20"
    ∷ text "-O2"
    ∷ text "-pipe"
    ∷ max_errors_option g
    ∷ path_in_root args.source_path
    ∷ text "-o"
    ∷ path_in_root args.exe_path
    ∷ []

-- The directory of the source; the whole path if it has no `/`.
unfoldable pub source_dir : Bytes → Bytes
unfolding split_last
source_dir path = elim (split_last b'/' path) [ none ↦ path | some (dir, name) ↦ dir ]

unfoldable pub compile_child : Platform → GlobalConfig → CompileArgs → M ℕ
compile_child p g args = do
  close_descriptors
  let work_dir = source_dir (strncpy 255 args.source_path)
  open_log args.log_path
  setup_rootfs p g work_dir
  mkdir_or_exit (text "/tmp") 0o1777 (code err_mkdir_failed)
  or_exit
      (mount (some (text "tmpfs")) (text "/tmp") (some (text "tmpfs")) []
        (some (tmpfs_options g.compile_tmpfs_size_mb 128)))
      (code err_mount_tmp)
  limit_compiler g
  confine_compiler g
  exec g.compiler_path (compiler_argv g args) none
  exit (code err_exec_failed)
