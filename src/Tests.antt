-- ===== src/Tests.antt =====
-- The theorems at concrete inputs: a platform, a configuration, and systems in which all goes well
-- or the child never ends.
mod Setup
mod Children
mod Parts
use deep_oj.Common.{
  ℕ, ◌+◌, ◌*◌, ◌/◌, ◌≤◌, ◌≡◌, ◌≢◌, ◌↔◌, refl, Bool, true, false, none, some, [], ◌∷◌, ◌++◌, arith,
  ltb, leb, length, All,
}
use deep_oj.Common.Int.{ℤ, pos, pos_part, to_int, ◌+ℤ◌}
use deep_oj.Common.Bytes.{text, split_last, print_ℕ, print_ℤ, digits_acc, bytes_eq, strip_prefix}
use deep_oj.Types.{GlobalConfig, RunChildArgs, CompileArgs, RunResult, new_run_result}
use deep_oj.Platform.{Platform}
use deep_oj.Os.{
  Call, Reply, Rusage, Environment, clone_run, clone_compile, wait_nohang, exists, file_size,
  open_file, dup, History, wait_blocking, clock_ms,
}
use deep_oj.Os.Flow.{Outcome, returns, becomes, ◌>>=◌, or_exit, zero_or_exit, sys}
use deep_oj.Os.Tidy.{Leaves}
use deep_oj.Os.Balance.{Balanced}
use deep_oj.Isolation.SetupError.{exit_setup_error}
use deep_oj.Isolation.Descriptors.{close_from, close_descriptors}
use deep_oj.Isolation.Rootfs.{
  must, must_mkdir, make_prefixes, below_base, ensure_parent_dir, mount_dir, mount_file, for_each,
  change_root, setup_rootfs,
}
use deep_oj.Seccomp.{
  mode_enables, should_enable_run_seccomp, run_rules, load_seccomp_rules, add_rules,
  allowed_syscalls, give_up, or_give_up, load_filter,
}
use deep_oj.Isolation.RunChild.{
  redirect_io, seal_root, mkdir_or_exit, limit_resources, drop_privileges, address_space, cpu_hard,
  cpu_soft, enter_filter, exec, exit_run_exec_error, nproc_cap, path_in_root, run_environment,
  run_in, start_program, tmpfs_options, run_child,
}
use deep_oj.Sandbox.RequestId.{is_valid_request_id}
use deep_oj.Sandbox.RequestId.Correct.{
  IsWordByte, is_valid_request_id_iff, is_valid_request_id_safe,
}
use deep_oj.Sandbox.ExitStatus.{exit_code_to_sandbox_error}
use deep_oj.Sandbox.ExitStatus.Correct.{exit_code_to_sandbox_error_injective}
use deep_oj.Sandbox.Marker.{find_marker, lines, marker_prefix, run_exec_error_message}
use deep_oj.Sandbox.Marker.Correct.{exec_detail, unlines, find_marker-message}
use deep_oj.Sandbox.Verdict.{assess}
use deep_oj.Sandbox.Verdict.Correct.{Returns, Verdicts, assess_verdict}
use deep_oj.Sandbox.Run.{RunRequest, run}
use deep_oj.Sandbox.Run.Descriptors.{run_closes_descriptors}
use Prim.Native.Nat.{bit_and}
use deep_oj.Os.{act_kill, act_allow}
use deep_oj.Seccomp.Permits.{Arguments, verdict, forbidden, run_filter_denies}
use deep_oj.Sandbox.Workspace.{cleanup_request}
use deep_oj.Sandbox.Workspace.Correct.{Cleaned, cleanup_request_safe}
use deep_oj.Os.{read_file, kill, sigkill}
use deep_oj.Cgroup.{CgroupManager, new_cgroup, get_memory_peak}
use deep_oj.Cgroup.Kill.{kill_all}
use deep_oj.Cgroup.Numbers.{get_memory_peak_lem, kill_all-first}
use deep_oj.Types.{accepted}
use deep_oj.Main.{ExecutionConfig, main_run}
use deep_oj.Main.Answers.{Answered, to_verdict_injective, main_run_answers}
use deep_oj.Sandbox.Run.Termination.{run_comes_back}
use deep_oj.Sandbox.Compile.{compile, request_dir, compile_time_limit}
use deep_oj.Sandbox.Compile.Guards.{Gives, Swept}
use deep_oj.Sandbox.Compile.Directory.{Settled}
use deep_oj.Sandbox.Compile.Termination.{compile_settles}
use deep_oj.Common.Int.{◌*ℤ◌}
use deep_oj.Sandbox.Watch.Clock.{Clock, Uninterrupted, slept}

-- Doubles that are whole numbers, for the tests.
abbrev pub whole : Platform
whole = record {
  of_int = pos_part;
  literal = λ m k. m;
  add = λ a b. a + b;
  mul = λ a b. a * b;
  div = λ a b. a / b;
  gt = λ a b. ltb b a;
  le = λ a b. leb a b;
  ceil = λ a. a;
  truncate = λ a. pos a;
  llround = λ a. pos a;
  dev_major = λ d. d / 256;
  dev_minor = λ d. d;
  strerror = λ n. text "error";
  strsignal = λ n. text "signal";
  dumps = λ s. true;
}

abbrev pub config : GlobalConfig
config = record {
  workspace_root = text "/data/workspace";
  compiler_path = text "/usr/bin/g++";
  mount_dirs = text "/lib" ∷ text "/usr/lib" ∷ [];
  mount_files = text "/etc/ld.so.cache" ∷ [];
  compile_cpu_limit = pos 10;
  compile_real_limit = pos 20;
  compile_mem_limit = pos 536870912;
  max_output_size = pos 1000;
  output_buffer_size = pos 100;
  run_tmpfs_size_mb = pos 64;
  compile_tmpfs_size_mb = pos 128;
  compile_log_max_bytes = pos 0;
  compile_max_errors = pos 3;
  run_uid = 65534;
  run_gid = 65534;
  cgroup_pids_limit = pos 20;
  cgroup_cpu_max_cores = 1;
  cgroup_io_read_bps = pos 0;
  cgroup_io_write_bps = pos 0;
}

abbrev pub run_args : RunChildArgs
run_args = record {
  exe_path = text "/data/workspace/r1/main";
  time_limit_ms = pos 1000;
  memory_limit_kb = pos 65536;
  output_limit_bytes = 1100;
  input_fd = pos 4;
  output_fd = pos 5;
  error_fd = pos 6;
}

abbrev compile_args : CompileArgs
compile_args = record {
  source_path = text "/data/workspace/r1/main.cpp";
  exe_path = text "/data/workspace/r1/main";
  log_path = text "/data/workspace/r1/compile.log";
}

-- A call that gives a number and nothing else.
abbrev pub gives : ℤ → Reply
gives n = record { ret = n; errno = 0; out = none; usage = none; bytes = [] }

abbrev pub little : Rusage
little = record {
  maxrss = pos 2048;
  utime_sec = pos 0;
  utime_usec = pos 3000;
  stime_sec = pos 0;
  stime_usec = pos 1000;
}

-- All goes well, and the child has ended with exit code 0 when it is first looked at.
abbrev answer : Call → Reply
answer (open_file path flags mode) = gives (pos 3)
answer (dup fd) = gives (pos 4)
answer (clone_run args) = gives (pos 42)
answer (clone_compile args) = gives (pos 43)
answer (wait_nohang pid) = record (gives pid) { out = some 0; usage = some little }
answer (exists path) = gives (pos 1)
answer (file_size path) = gives (pos 10)
answer c = gives (pos 0)

abbrev pub calm : Environment
calm h c = answer c

is_exec : {A : Type 0} → Outcome A → Bool
is_exec (becomes path argv h) = true
is_exec _ = false

is_return : {A : Type 0} → Outcome A → Bool
is_return (returns a h) = true
is_return _ = false

run_child-calm : is_exec (run_child whole config run_args calm []) ≡ true
unfolding is_exec run_child ◌>>=◌ redirect_io or_exit close_descriptors text setup_rootfs must
    for_each mount_dir strip_prefix must_mkdir mount_file change_root seal_root mkdir_or_exit
    limit_resources drop_privileges bytes_eq digits_acc print_ℕ print_ℤ split_last to_int ◌+ℤ◌
    close_from below_base ensure_parent_dir make_prefixes address_space cpu_hard cpu_soft
    enter_filter exec exit_run_exec_error nproc_cap path_in_root run_environment run_in
    start_program tmpfs_options exit_setup_error sys zero_or_exit marker_prefix
    run_exec_error_message add_rules allowed_syscalls give_up load_filter load_seccomp_rules
    mode_enables or_give_up run_rules should_enable_run_seccomp
run_child-calm = refl

abbrev pub request : RunRequest
request = record {
  exe_path = text "/data/workspace/r1/main";
  stdin_path = [];
  stdout_path = text "/data/workspace/r1/out.txt";
  stderr_path = text "/data/workspace/r1/err.txt";
  time_limit_ms = pos 1000;
  memory_limit_kb = pos 65536;
}

run_closes_descriptors_example :
    Leaves (Unit {0}) (Balanced []) (run whole config request 5 calm [])
run_closes_descriptors_example = run_closes_descriptors calm whole config request 5

-- A clock that counts the sleeps, and a child that never ends by itself.
abbrev pub total : History → ℕ
total [] = 0
total ((c, r) ∷ h) = slept c + total h

abbrev pub endless : Environment
endless h clock_ms = gives (pos (total h))
endless h (wait_nohang pid) = gives (pos 0)
endless h (wait_blocking pid) = gives (pos 42)
endless h c = answer c

pub endless-Clock : Clock endless
endless-Clock = record {
  uptime = total;
  reads = λ h. refl;
  forward = λ h c r. omega arith;
  steady = λ h c r. omega arith;
}

pub endless-Uninterrupted : Uninterrupted endless
endless-Uninterrupted h (wait_nohang pid) w = refl
endless-Uninterrupted h (wait_blocking pid) w = refl
endless-Uninterrupted h _ w = absurd (ground arith)

run_comes_back_example : Leaves ⊥ (Balanced []) (run whole config request 202 endless [])
run_comes_back_example =
    run_comes_back endless endless-Uninterrupted endless-Clock whole config request 1000 201 refl
      (omega arith) (omega arith)

abbrev pub manager : CgroupManager
manager = record (new_cgroup (text "/sys/fs/cgroup/deep_oj") (text "run_42")) { created = true }
