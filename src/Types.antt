-- ===== src/Types.antt =====
-- The data of sandbox.h and sandbox_internal.h: results, exit codes, configuration, child arguments.
use deep_oj.Common.{ℕ, ◌*◌, Bool, false, List, []}
use deep_oj.Common.Int.{ℤ, pos}
use deep_oj.Common.Bytes.{Bytes}

-- `enum class SandboxStatus`
pub data SandboxStatus : Type 0 where
  accepted : SandboxStatus
  time_limit_exceeded : SandboxStatus
  memory_limit_exceeded : SandboxStatus
  output_limit_exceeded : SandboxStatus
  runtime_error : SandboxStatus
  system_error : SandboxStatus

pub SandboxStatus-discrete : Discrete SandboxStatus
SandboxStatus-discrete = hlevel

-- `struct CompileResult`
pub record CompileResult : Type 0 where
  pub success : Bool
  pub exe_path : Bytes
  pub error_message : Bytes

abbrev pub new_compile_result : CompileResult
new_compile_result = record { success = false; exe_path = []; error_message = [] }

-- `struct RunResult`; `time_used` is in ms and `memory_used` in KB.
pub record RunResult : Type 0 where
  pub status : SandboxStatus
  pub time_used : ℤ
  pub memory_used : ℤ
  pub exit_code : ℤ
  pub exit_signal : ℤ
  pub sandbox_error : Bytes
  pub error_message : Bytes

abbrev pub new_run_result : RunResult
new_run_result = record {
  status = accepted;
  time_used = pos 0;
  memory_used = pos 0;
  exit_code = pos 0;
  exit_signal = pos 0;
  sandbox_error = [];
  error_message = [];
}

-- `const int STACK_SIZE`
abbrev pub stack_size : ℕ
stack_size = 8 * 1024 * 1024

-- `enum SandboxExitCode`, and the number of each code.
pub data SandboxExitCode : Type 0 where
  exit_ok : SandboxExitCode
  err_open_output : SandboxExitCode
  err_dup2 : SandboxExitCode
  err_exec_failed : SandboxExitCode
  err_chdir_failed : SandboxExitCode
  err_setgid_failed : SandboxExitCode
  err_setuid_failed : SandboxExitCode
  err_rlimit_cpu : SandboxExitCode
  err_rlimit_memory : SandboxExitCode
  err_rlimit_stack : SandboxExitCode
  err_rlimit_nproc : SandboxExitCode
  err_rlimit_fsize : SandboxExitCode
  err_mount_private : SandboxExitCode
  err_mount_bind_self : SandboxExitCode
  err_mount_bind_lib : SandboxExitCode
  err_remount_ro : SandboxExitCode
  err_pivot_root : SandboxExitCode
  err_chdir_new_root : SandboxExitCode
  err_umount_old : SandboxExitCode
  err_mount_proc : SandboxExitCode
  err_mkdir_failed : SandboxExitCode
  err_sandbox_exception : SandboxExitCode
  err_mount_tmp : SandboxExitCode

abbrev pub code : SandboxExitCode → ℕ
code exit_ok = 0
code err_open_output = 120
code err_dup2 = 121
code err_exec_failed = 127
code err_chdir_failed = 128
code err_setgid_failed = 129
code err_setuid_failed = 130
code err_rlimit_cpu = 141
code err_rlimit_memory = 142
code err_rlimit_stack = 143
code err_rlimit_nproc = 144
code err_rlimit_fsize = 145
code err_mount_private = 190
code err_mount_bind_self = 191
code err_mount_bind_lib = 192
code err_remount_ro = 193
code err_pivot_root = 194
code err_chdir_new_root = 195
code err_umount_old = 196
code err_mount_proc = 197
code err_mkdir_failed = 198
code err_sandbox_exception = 199
code err_mount_tmp = 200

-- A `double`, as its 64-bit pattern. What is computed with it is a parameter (Platform.antt).
abbrev pub Double : Type 0
Double = ℕ

-- `struct GlobalConfig`. An array with its count is a list; a `char[256]` is the text in it.
pub record GlobalConfig : Type 0 where
  pub workspace_root : Bytes
  pub compiler_path : Bytes
  pub mount_dirs : List Bytes
  pub mount_files : List Bytes
  pub compile_cpu_limit : ℤ
  pub compile_real_limit : ℤ
  pub compile_mem_limit : ℤ
  pub max_output_size : ℤ
  pub output_buffer_size : ℤ
  pub run_tmpfs_size_mb : ℤ
  pub compile_tmpfs_size_mb : ℤ
  pub compile_log_max_bytes : ℤ
  pub compile_max_errors : ℤ
  pub run_uid : ℕ
  pub run_gid : ℕ
  pub cgroup_pids_limit : ℤ
  pub cgroup_cpu_max_cores : Double
  pub cgroup_io_read_bps : ℤ
  pub cgroup_io_write_bps : ℤ

-- `struct RunChildArgs`, without its three file names, which nothing sets or reads.
pub record RunChildArgs : Type 0 where
  pub exe_path : Bytes
  pub time_limit_ms : ℤ
  pub memory_limit_kb : ℤ
  pub output_limit_bytes : ℕ
  pub input_fd : ℤ
  pub output_fd : ℤ
  pub error_fd : ℤ

-- `struct CompileArgs`
pub record CompileArgs : Type 0 where
  pub source_path : Bytes
  pub exe_path : Bytes
  pub log_path : Bytes
