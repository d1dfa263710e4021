-- ===== src/Os/Calls.antt =====
-- The calls that the engine makes, and their replies.
use deep_oj.Common.{ℕ, Option, List}
use deep_oj.Common.Int.{ℤ}
use deep_oj.Common.Bytes.{Bytes}
use deep_oj.Types.{RunChildArgs, CompileArgs}

-- Flags of `open`, of `mount`, and the resources of `setrlimit`.
pub data OpenFlag : Type 0 where
  o_rdonly o_wronly o_rdwr o_creat o_trunc o_cloexec : OpenFlag

pub data MountFlag : Type 0 where
  ms_private ms_rec ms_bind ms_rdonly ms_remount ms_nosuid ms_noexec ms_nodev : MountFlag

pub data Resource : Type 0 where
  rlimit_cpu rlimit_as rlimit_stack rlimit_nproc rlimit_fsize : Resource

-- The action of a filter rule, and the condition on an argument that a rule may carry:
-- `masked_eq i mask v` is SCMP_CMP(i, SCMP_CMP_MASKED_EQ, mask, v).
pub data ScmpAction : Type 0 where
  act_allow act_kill : ScmpAction

pub data ScmpCondition : Type 0 where
  always : ScmpCondition
  masked_eq : ℕ → ℕ → ℕ → ScmpCondition

pub record Rusage : Type 0 where
  pub maxrss : ℤ
  pub utime_sec : ℤ
  pub utime_usec : ℤ
  pub stime_sec : ℤ
  pub stime_usec : ℤ

pub data Call : Type 0 where
  -- Descriptors. An `open` has its mode.
  open_file : Bytes → List OpenFlag → ℕ → Call
  dup : ℤ → Call
  dup2 : ℤ → ℕ → Call
  close : ℤ → Call
  close_range_from : ℕ → Call
  sysconf_open_max : Call
  write_fd : ℕ → Bytes → Call
  -- Files and directories.
  access_file : Bytes → Call
  access_exec : Bytes → Call
  mkdir : Bytes → ℕ → Call
  rmdir : Bytes → Call
  chmod : Bytes → ℕ → Call
  chown : Bytes → ℕ → ℕ → Call
  chdir : Bytes → Call
  exists : Bytes → Call
  file_size : Bytes → Call
  create_directories : Bytes → Call
  owner_only : Bytes → Call
  remove : Bytes → Call
  remove_all : Bytes → Call
  read_file : Bytes → Call
  write_file : Bytes → Bytes → Call
  statfs_magic : Bytes → Call
  stat_device : Bytes → Call
  -- Mounts.
  mount : Option Bytes → Bytes → Option Bytes → List MountFlag → Option Bytes → Call
  pivot_root : Bytes → Bytes → Call
  umount_detach : Bytes → Call
  -- Limits, identity and privileges. No value of a limit is RLIM_INFINITY.
  setrlimit : Resource → Option ℕ → Option ℕ → Call
  setgroups_none : Call
  setgid : ℕ → Call
  setuid : ℕ → Call
  getuid : Call
  getgid : Call
  geteuid : Call
  getegid : Call
  no_new_privs : Call
  getenv : Bytes → Call
  seccomp_init : ScmpAction → Call
  seccomp_rule_add : ScmpAction → Bytes → ScmpCondition → Call
  seccomp_load : Call
  seccomp_release : Call
  -- Processes and time.
  clone_run : RunChildArgs → Call
  clone_compile : CompileArgs → Call
  execve : Bytes → List Bytes → Option (List Bytes) → Call
  wait_nohang : ℤ → Call
  wait_blocking : ℤ → Call
  kill : ℤ → ℕ → Call
  clock_ms : Call
  sleep_ms : ℕ → Call

-- What a call gives back: its result, `errno`, and what it wrote: a number (a wait status, the type
-- of a file system, a device), an `rusage`, bytes. `wait4` may leave its status and
-- its `rusage` unwritten.
pub record Reply : Type 0 where
  pub ret : ℤ
  pub errno : ℕ
  pub out : Option ℕ
  pub usage : Option Rusage
  pub bytes : Bytes

-- The calls made so far, the last one first, and an environment that answers the next one.
abbrev pub History : Type 0
History = List (Call × Reply)

abbrev pub Environment : Type 0
Environment = History → Call → Reply

-- `errno` values of Linux.
abbrev pub eintr : ℕ
eintr = 4

abbrev pub eexist : ℕ
eexist = 17

abbrev pub ebusy : ℕ
ebusy = 16

abbrev pub enametoolong : ℕ
enametoolong = 36

-- Signal numbers of Linux.
abbrev pub sigabrt : ℕ
sigabrt = 6

abbrev pub sigkill : ℕ
sigkill = 9

abbrev pub sigsegv : ℕ
sigsegv = 11

abbrev pub sigxcpu : ℕ
sigxcpu = 24

abbrev pub sigxfsz : ℕ
sigxfsz = 25
