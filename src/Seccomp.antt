-- ===== src/Seccomp.antt =====
-- The system call filters: seccomp_rules.cpp.
pub mod Permits
use deep_oj.Common.{ℕ, Bool, true, not, ◌||◌, List, [], ◌∷◌, map, is_empty, if◌then◌else◌}
use deep_oj.Common.Bytes.{Bytes, text, bytes_eq}
use deep_oj.Types.{code, err_sandbox_exception}
use deep_oj.Os.{
  Call, Reply, getenv, seccomp_init, seccomp_rule_add, seccomp_load, seccomp_release, ScmpAction,
  act_allow, act_kill, ScmpCondition, always, masked_eq,
}
use deep_oj.Os.Flow.{M, ◌>>=◌, ◌>>◌, pure, skip, sys, when, exit, failed, nonzero, or_exit}

-- `ShouldEnableRunSeccomp`: a result of -1 stands for a null pointer.
unfoldable pub mode_enables : Reply → Bool
mode_enables mode =
    if failed mode || is_empty mode.bytes then true else not (bytes_eq mode.bytes (text "off"))

unfoldable pub should_enable_run_seccomp : M Bool
should_enable_run_seccomp = do
  mode ← sys (getenv (text "JUDGE_RUN_SECCOMP_MODE"))
  pure (mode_enables mode)

-- A rule: a system call, and a condition on its arguments.
abbrev pub Rule : Type 0
Rule = Bytes × ScmpCondition

-- O_WRONLY | O_RDWR
abbrev pub write_mask : ℕ
write_mask = 3

-- The system calls that `ALLOW_SYSCALL` names.
unfoldable pub allowed_syscalls : List Bytes
unfolding text
allowed_syscalls = map text (
    "read" ∷ "write" ∷ "close" ∷ "fstat" ∷ "lseek" ∷ "brk" ∷ "mmap" ∷ "munmap" ∷ "mprotect" ∷ "exit"
    ∷ "exit_group" ∷ "uname" ∷ "access" ∷ "readlink" ∷ "gettimeofday" ∷ "clock_gettime"
    ∷ "rt_sigaction" ∷ "rt_sigprocmask" ∷ "rt_sigreturn" ∷ "sigaltstack" ∷ "getpid" ∷ "getppid"
    ∷ "gettid" ∷ "getuid" ∷ "geteuid" ∷ "getgid" ∷ "getegid" ∷ "fcntl" ∷ "statx" ∷ "statfs"
    ∷ "fstatfs" ∷ "ioctl" ∷ "madvise" ∷ "sched_getaffinity" ∷ "prlimit64" ∷ "rseq" ∷ "getrandom"
    ∷ "futex" ∷ "newfstatat" ∷ "faccessat" ∷ "pread64" ∷ "arch_prctl" ∷ "set_tid_address"
    ∷ "set_robust_list" ∷ [])

-- The rules of `LoadSeccompRules`, in order.
unfoldable pub run_rules : List Rule
unfolding allowed_syscalls text
run_rules =
    (text "open", masked_eq 1 write_mask 0)
    ∷ (text "openat", masked_eq 2 write_mask 0)
    ∷ (text "execve", always)
    ∷ (text "execveat", always)
    ∷ map (λ name. (name, always)) allowed_syscalls

-- The rules of `LoadCompileSeccompRules`.
unfoldable pub compile_rules : List Rule
unfolding text
compile_rules =
    map (λ name. (text name, always))
      ("ptrace" ∷ "mount" ∷ "umount2" ∷ "reboot" ∷ "swapon" ∷ "swapoff" ∷ "kexec_load"
        ∷ "init_module" ∷ "finit_module" ∷ "delete_module" ∷ [])

-- A failed step gives the context back and ends the child.
unfoldable pub give_up : {A : Type 0} → M A
give_up = do sys seccomp_release; exit (code err_sandbox_exception)

unfoldable pub or_give_up : Call → M (Unit {0})
or_give_up c = do r ← sys c; when (nonzero r) give_up

unfoldable pub add_rules : ScmpAction → List Rule → M (Unit {0})
add_rules action [] = skip
add_rules action ((name, condition) ∷ rules) = do
  or_give_up (seccomp_rule_add action name condition)
  add_rules action rules

unfoldable pub load_filter : ScmpAction → ScmpAction → List Rule → M (Unit {0})
load_filter other action rules = do
  or_exit (seccomp_init other) (code err_sandbox_exception)
  add_rules action rules
  or_give_up seccomp_load
  sys seccomp_release
  skip

-- `LoadSeccompRules`: what is not listed kills.
unfoldable pub load_seccomp_rules : M (Unit {0})
load_seccomp_rules = load_filter act_kill act_allow run_rules

-- `LoadCompileSeccompRules`: what is listed kills.
unfoldable pub load_compile_seccomp_rules : M (Unit {0})
load_compile_seccomp_rules = load_filter act_allow act_kill compile_rules
