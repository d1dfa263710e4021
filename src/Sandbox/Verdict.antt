-- ===== src/Sandbox/Verdict.antt =====
-- How `Sandbox::Run` turns the end of the child into a verdict (sandbox.cpp, behind the loop).
pub mod Correct
pub mod Fitting
pub mod Child
pub mod Exec
use deep_oj.Common.{
  ℕ, ◌+◌, ◌*◌, ◌/◌, ◌^◌, ◌%◌, Bool, true, false, ◌&&◌, ◌||◌, Option, none, some, List, [], ◌∷◌,
  ◌++◌, ltb, leb, ◌==◌, is_empty, if◌then◌else◌,
}
use deep_oj.Common.Int.{ℤ, pos, ltb_ℤ, leb_ℤ, ◌*ℤ◌, ◌+ℤ◌, to_int, to_unsigned}
use deep_oj.Common.Bytes.{Bytes, text, print_ℕ}
use deep_oj.Types.{
  GlobalConfig, RunResult, accepted, time_limit_exceeded, memory_limit_exceeded,
  output_limit_exceeded, runtime_error, system_error, code, err_exec_failed,
}
use deep_oj.Platform.{Platform}
use deep_oj.Os.{Call, Rusage, exists, file_size, sigabrt, sigkill, sigsegv, sigxcpu, sigxfsz}
use deep_oj.Os.Flow.{M, ◌>>=◌, pure, sys, failed}
use deep_oj.Sandbox.ExitStatus.{
  exit_code_to_sandbox_error, get_exit_code_description, wifexited, wexitstatus, wifsignaled,
  wtermsig,
}
use deep_oj.Sandbox.Marker.{RunExecFailureMarker, read_run_exec_failure_marker}

module _ (p : Platform) where
  -- User and system time in ms, rounded up.
  unfoldable pub cpu_time_ms : Rusage → ℤ
  cpu_time_ms u =
      let ms = λ (sec usec : ℤ).
        p.add (p.of_int (sec *ℤ pos 1000)) (p.div (p.of_int usec) (p.literal 1000 0)) in
      to_int
        (p.truncate (p.ceil (p.add (ms u.utime_sec u.utime_usec) (ms u.stime_sec u.stime_usec))))

  unfoldable pub signal_message : ℕ → Bytes
  unfolding text print_ℕ
  signal_message s =
      text "Runtime Error (Signal " ++ print_ℕ s ++ text ": " ++ p.strsignal s ++ text ")"

  -- The least memory use at which an abort or a segmentation fault counts as a lack of memory.
  unfoldable pub near_limit : ℤ → ℤ
  near_limit memory_limit_kb =
      to_int (p.truncate (p.ceil (p.mul (p.of_int memory_limit_kb) (p.literal 95 2))))

  -- `WIFEXITED(status)`
  unfoldable pub judge_exit : RunExecFailureMarker → ℕ → RunResult → RunResult
  unfolding text print_ℕ exit_code_to_sandbox_error get_exit_code_description
  judge_exit marker exit_code result =
      let r = record result { exit_signal = pos 0; exit_code = pos exit_code } in
      if exit_code == 0
      then record r { status = accepted }
      else if exit_code == code err_exec_failed
      then (if marker.found
          then record r {
            status = system_error;
            sandbox_error = text "execve_failed";
            error_message =
                (if is_empty marker.detail
                  then text "程序启动失败: execve failed"
                  else text "程序启动失败: " ++ marker.detail);
          }
          else record r { status = runtime_error })
      else if leb 120 exit_code
      then record r {
        status = system_error;
        sandbox_error = exit_code_to_sandbox_error exit_code;
        error_message =
            text "沙箱恐慌 (退出码 "
            ++ print_ℕ exit_code
            ++ text "): "
            ++ get_exit_code_description exit_code;
      }
      else record r { status = runtime_error }

  -- `WIFSIGNALED(status)`
  unfoldable pub judge_signal : ℤ → ℤ → ℕ → RunResult → RunResult
  unfolding signal_message near_limit
  judge_signal time_limit_ms memory_limit_kb signal result =
      let r = record result { exit_signal = pos signal } in
      let plain = record r { status = runtime_error; error_message = signal_message signal } in
      if signal == sigxcpu
      then record r { status = time_limit_exceeded }
      else if signal == sigkill
      then (if ltb_ℤ time_limit_ms r.time_used
          then record r { status = time_limit_exceeded }
          else if ltb_ℤ memory_limit_kb r.memory_used
          then record r { status = memory_limit_exceeded }
          else plain)
      else if signal == sigxfsz
      then record r { status = output_limit_exceeded }
      else if signal == sigabrt || signal == sigsegv
      then (if leb_ℤ (near_limit memory_limit_kb) r.memory_used
          then record r { status = memory_limit_exceeded }
          else plain)
      else plain

  unfoldable pub judge_wait : ℤ → ℤ → RunExecFailureMarker → ℕ → RunResult → RunResult
  unfolding judge_exit judge_signal text
  judge_wait time_limit_ms memory_limit_kb marker status result =
      if wifexited status
      then judge_exit marker (wexitstatus status) result
      else if wifsignaled status
      then judge_signal time_limit_ms memory_limit_kb (wtermsig status) result
      else record result {
        status = system_error;
        sandbox_error = text "wait_status_unknown";
        error_message = text "unknown wait status";
      }

  -- The size of the output file, if there is one and its size can be read.
  unfoldable pub output_size : Bytes → M (Option ℕ)
  output_size output_path = do
    there ← sys (exists output_path)
    if ltb_ℤ (pos 0) there.ret
        then (do
          size ← sys (file_size output_path)
          pure (if failed size then none else some (to_unsigned 64 size.ret)))
        else pure none

  abbrev pub over_limit : GlobalConfig → Option ℕ → Bool
  over_limit g none = false
  over_limit g (some size) = ltb (to_unsigned 64 g.max_output_size) size

  -- The checks behind the loop: output, memory, and then the wait status.
  unfoldable pub assess :
      GlobalConfig → ℤ → ℤ → Bytes → Bytes → ℕ → Rusage → RunResult → M RunResult
  assess g time_limit_ms memory_limit_kb output_path stderr_path status usage result = do
    size ← output_size output_path
    if over_limit g size
        then pure (record result { status = output_limit_exceeded; memory_used = usage.maxrss })
        else if ltb_ℤ memory_limit_kb result.memory_used
        then pure (record result { status = memory_limit_exceeded })
        else do
          marker ← read_run_exec_failure_marker stderr_path
          pure (judge_wait time_limit_ms memory_limit_kb marker status result)
