-- ===== src/Sandbox/Run.antt =====
-- `Sandbox::Run`: descriptors, child, cgroup, loop and verdict.
pub mod Descriptors
pub mod Termination
pub mod Reaping
pub mod Limits
use deep_oj.Common.{
  ℕ, ◌+◌, ◌*◌, ◌/◌, ◌%◌, ◌^◌, Bool, true, false, not, ◌&&◌, Option, none, some, List, [], ◌∷◌, ◌++◌,
  ltb, ◌==◌, is_empty, if◌then◌else◌,
}
use deep_oj.Common.Int.{ℤ, pos, ◌+ℤ◌, ltb_ℤ, eqb_ℤ, negsuc, to_int, to_long, to_unsigned}
use deep_oj.Common.Bytes.{Bytes, text, print_ℤ, strncpy}
use deep_oj.Common.Paths.{parent_path, join_path}
use deep_oj.Types.{GlobalConfig, RunResult, new_run_result, system_error, RunChildArgs}
use deep_oj.Platform.{Platform}
use deep_oj.Os.{
  Call, Rusage, OpenFlag, o_rdonly, o_wronly, o_rdwr, o_creat, o_trunc, open_file, dup, clone_run,
  clock_ms,
}
use deep_oj.Os.Flow.{M, ◌>>=◌, ◌>>◌, pure, skip, sys, when, failed, scoped}
use deep_oj.Cgroup.{
  CgroupManager, new_cgroup, get_cgroup2_mount_root, create, set_memory_limit, set_pids_limit,
  set_cpu_limit, set_io_limit, add_process, get_memory_peak, destroy,
}
use deep_oj.Sandbox.Guard.{ProcessGuard, new_guard, auto_close, guarded}
use deep_oj.Sandbox.Watch.{Watched, ended, decided, nothing_seen, format_system_error, watch}
use deep_oj.Sandbox.Verdict.{cpu_time_ms, assess}

-- What `Run` is asked to do.
pub record RunRequest : Type 0 where
  pub exe_path : Bytes
  pub stdin_path : Bytes
  pub stdout_path : Bytes
  pub stderr_path : Bytes
  pub time_limit_ms : ℤ
  pub memory_limit_kb : ℤ

-- A descriptor for a path, or a copy of that of `/dev/null` if the path is empty or cannot be opened.
unfoldable pub open_or_null : ℤ → List OpenFlag → ℕ → Bytes → M ℤ
open_or_null null_fd flags mode path =
    if is_empty path then (do r ← sys (dup null_fd); pure r.ret) else do
      fd ← sys (open_file path flags mode)
      if ltb_ℤ fd.ret (pos 0) then (do r ← sys (dup null_fd); pure r.ret) else pure fd.ret

-- The output file whose size is checked.
unfoldable pub output_path : RunRequest → Bytes
output_path q =
    if is_empty q.stdout_path
    then join_path (parent_path q.exe_path) (text "output.txt")
    else q.stdout_path

-- The hard limit of the output: the configured one and a buffer, so that the parent sees an excess.
unfoldable pub output_limit_bytes : GlobalConfig → ℕ
output_limit_bytes g = to_unsigned 64 (to_long (g.max_output_size +ℤ g.output_buffer_size))

unfoldable pub child_args : GlobalConfig → RunRequest → ℤ → ℤ → ℤ → RunChildArgs
unfolding output_limit_bytes
child_args g q input_fd output_fd error_fd = record {
  exe_path = strncpy 255 q.exe_path;
  time_limit_ms = q.time_limit_ms;
  memory_limit_kb = q.memory_limit_kb;
  output_limit_bytes = output_limit_bytes g;
  input_fd = input_fd;
  output_fd = output_fd;
  error_fd = error_fd;
}

module _ (p : Platform) (g : GlobalConfig) (q : RunRequest) where
  -- The limits of the cgroup, and the child in it. Failures are only logged.
  unfoldable pub fill_cgroup : CgroupManager → ℤ → M (Unit {0})
  fill_cgroup c pid = do
    set_pids_limit c (if ltb_ℤ (pos 0) g.cgroup_pids_limit then g.cgroup_pids_limit else pos 20)
    set_memory_limit c (to_unsigned 64 q.memory_limit_kb * 1024 % 2 ^ 64) true
    set_cpu_limit p c (
        if p.gt g.cgroup_cpu_max_cores (p.of_int (pos 0))
        then g.cgroup_cpu_max_cores
        else p.literal 1 0)
    set_io_limit p c g.cgroup_io_read_bps g.cgroup_io_write_bps g.workspace_root
    add_process c pid
    skip

  -- The cgroup of the run, if the system has cgroups and it can be made.
  unfoldable pub start_cgroup : ℤ → M (Option CgroupManager)
  start_cgroup pid = do
    root ← get_cgroup2_mount_root
    if is_empty root then pure none else do
      (made, c) ← create (new_cgroup (root ++ text "/deep_oj") (text "run_" ++ print_ℤ pid))
      if made then (do fill_cgroup c pid; pure (some c)) else pure none

  unfoldable pub destroy_cgroup : Option CgroupManager → M (Unit {0})
  destroy_cgroup none = skip
  destroy_cgroup (some c) = destroy c >> skip

  -- Memory in KB: the peak of the cgroup if it has one, or else what the system counted.
  unfoldable pub memory_used : Option CgroupManager → Rusage → M ℤ
  memory_used none usage = pure usage.maxrss
  memory_used (some c) usage = do
    peak ← get_memory_peak c
    pure (if ltb 0 peak then to_long (pos (peak / 1024)) else usage.maxrss)

  -- Behind the loop.
  unfoldable pub conclude : Option CgroupManager → Watched → M RunResult
  conclude c (decided result) = pure result
  conclude c (ended status usage) = do
    memory ← memory_used c usage
    assess p g q.time_limit_ms q.memory_limit_kb (output_path q) q.stderr_path status usage
        (record new_run_result { time_used = cpu_time_ms p usage; memory_used = memory })

  -- From the clone on: the cgroup is destroyed first, and then the guard looks after the child.
  unfoldable pub watch_and_conclude : ℕ → ℤ → Option CgroupManager → M (RunResult × ProcessGuard)
  watch_and_conclude fuel pid c = do
    start ← sys clock_ms
    (seen, guard) ←
        watch p fuel q.time_limit_ms q.memory_limit_kb start.ret fuel (new_guard pid) nothing_seen
    result ← conclude c seen
    pure (result, guard)

  unfoldable pub supervise : ℕ → ℤ → M (RunResult × ProcessGuard)
  supervise fuel pid = do
    c ← start_cgroup pid
    scoped (watch_and_conclude fuel pid c) (destroy_cgroup c)

  unfoldable pub clone_failed : ℕ → RunResult
  clone_failed errno = record new_run_result {
    status = system_error;
    sandbox_error = text "clone_failed";
    error_message = format_system_error p (text "clone failed") errno;
  }

  unfoldable pub run_with : ℕ → ℤ → ℤ → ℤ → M RunResult
  run_with fuel input_fd output_fd error_fd = do
    r ← sys (clone_run (child_args g q input_fd output_fd error_fd))
    if eqb_ℤ r.ret (negsuc 0)
        then pure (clone_failed r.errno)
        else guarded fuel r.ret (supervise fuel r.ret)

  -- Each descriptor is opened, and closed when its scope is left; the last one first.
  unfoldable pub with_error : ℕ → ℤ → ℤ → ℤ → M RunResult
  with_error fuel null_fd input_fd output_fd = do
    error_fd ← open_or_null null_fd (o_wronly ∷ o_creat ∷ o_trunc ∷ []) 0o644 q.stderr_path
    scoped (run_with fuel input_fd output_fd error_fd) (auto_close error_fd)

  unfoldable pub with_output : ℕ → ℤ → ℤ → M RunResult
  with_output fuel null_fd input_fd = do
    output_fd ← open_or_null null_fd (o_wronly ∷ o_creat ∷ o_trunc ∷ []) 0o644 q.stdout_path
    scoped (with_error fuel null_fd input_fd output_fd) (auto_close output_fd)

  unfoldable pub with_input : ℕ → ℤ → M RunResult
  with_input fuel null_fd = do
    input_fd ← open_or_null null_fd (o_rdonly ∷ []) 0 q.stdin_path
    scoped (with_output fuel null_fd input_fd) (auto_close input_fd)

  unfoldable pub no_dev_null : ℕ → RunResult
  no_dev_null errno = record new_run_result {
    status = system_error;
    sandbox_error = text "open_dev_null_failed";
    error_message = format_system_error p (text "open /dev/null") errno;
  }

  unfoldable pub run : ℕ → M RunResult
  run fuel = do
    null ← sys (open_file (text "/dev/null") (o_rdwr ∷ []) 0)
    if ltb_ℤ null.ret (pos 0)
        then pure (no_dev_null null.errno)
        else scoped (with_input fuel null.ret) (auto_close null.ret)
