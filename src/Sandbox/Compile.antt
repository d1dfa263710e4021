-- ===== src/Sandbox/Compile.antt =====
-- `Sandbox::Compile`: the source, the compiler's child, and its log.
pub mod Quiet
pub mod Guards
pub mod Directory
pub mod Termination
pub mod Reaping
pub mod Signals
use deep_oj.Common.{
  ℕ, zero, suc, ◌+◌, ◌≡◌, Bool, true, false, not, ◌||◌, Option, none, some, List, [], ◌∷◌, ◌++◌,
  leb, ◌==◌, is_empty, if◌then◌else◌,
}
use deep_oj.Common.Int.{ℤ, pos, negsuc, ◌-ℤ◌, ◌*ℤ◌, ltb_ℤ, eqb_ℤ, to_int, to_long}
use deep_oj.Common.Bytes.{Bytes, text, print_ℕ, print_ℤ, strncpy}
use deep_oj.Common.Paths.{join_path}
use deep_oj.Types.{GlobalConfig, CompileArgs, CompileResult, new_compile_result}
use deep_oj.Platform.{Platform}
use deep_oj.Os.{
  Call, Reply, Environment, History, create_directories, write_file, read_file, chown, owner_only,
  exists, remove_all, clone_compile, clock_ms, sleep_ms, eintr,
}
use deep_oj.Os.Flow.{
  Outcome, returns, exits, becomes, throws, unfinished, bind, M, ◌>>=◌, ◌>>◌, pure, skip, sys, when,
  throw, failed, nonzero, out_of_fuel,
}
use deep_oj.Sandbox.RequestId.{is_valid_request_id}
use deep_oj.Sandbox.ExitStatus.{
  get_exit_code_description, exit_code_to_sandbox_error, wifexited, wexitstatus, wifsignaled,
  wtermsig,
}
use deep_oj.Sandbox.Guard.{
  ProcessGuard, new_guard, wait_nonblock, wait, kill_process, release, guarded,
}
use deep_oj.Sandbox.Watch.{format_system_error, or_old}
use deep_oj.Sandbox.Workspace.{directory_guarded}

-- How the loop ends: with the wait status of a compiler that has ended, or with a message.
pub data Compiled : Type 0 where
  compiler_ended : ℕ → Compiled
  compiler_lost : Bytes → Compiled

-- COMPILE_TIME_LIMIT_MS
unfoldable pub compile_time_limit : GlobalConfig → ℤ
compile_time_limit g = to_int (g.compile_real_limit *ℤ pos 1000)

module _ (p : Platform) (g : GlobalConfig) (fuel : ℕ) (start : ℤ) where
  unfoldable pub compile_timeout : ProcessGuard → M (Compiled × ProcessGuard)
  compile_timeout guard = do
    kill_process fuel guard
    wait fuel guard
    pure (
      compiler_lost
          (text "编译超时 (> " ++ print_ℤ (compile_time_limit g) ++ text "ms). 可能存在极度复杂的模板展开。"),
      guard,
    )

  -- The rest of a round behind its wait, and what follows the round.
  unfoldable pub compile_reply :
      (ℕ → M (Compiled × ProcessGuard)) → ProcessGuard → ℕ → Reply → M (Compiled × ProcessGuard)
  compile_reply again guard status r =
      let status' = or_old r.out status in
      if failed r
      then (if r.errno == eintr
          then again status'
          else pure (compiler_lost (format_system_error p (text "系统调用 waitpid 失败") r.errno), guard))
      else if eqb_ℤ r.ret (pos 0)
      then (sys clock_ms >>= λ now.
          if ltb_ℤ (compile_time_limit g) (to_long (now.ret -ℤ start))
          then compile_timeout guard
          else sys (sleep_ms 50) >> again status')
      else pure (compiler_ended status', release fuel guard)

  -- The loop, with the rounds that it may still take.
  unfoldable pub watch_compiler : ℕ → ProcessGuard → ℕ → M (Compiled × ProcessGuard)
  watch_compiler zero guard status = out_of_fuel
  watch_compiler (suc rounds) guard status =
      wait_nonblock fuel guard >>= compile_reply (watch_compiler rounds guard) guard status

-- The paths of a request.
abbrev pub request_dir : Bytes → Bytes → Bytes
request_dir temp_dir request_id = join_path temp_dir request_id

abbrev pub exe_file : Bytes → Bytes
exe_file dir = join_path dir (text "main")

abbrev pub log_file : Bytes → Bytes
log_file dir = join_path dir (text "compile_error.log")

abbrev pub failing : CompileResult → Bytes → CompileResult
failing result message = record result { error_message = message }

-- The message for a compiler that exited with a code other than 0, with the log if there is one.
unfoldable pub compile_failure : ℕ → Bytes → Bytes
compile_failure exit_code compile_log =
    if leb 120 exit_code
    then text "编译沙箱系统错误 (退出码: "
      ++ print_ℕ exit_code
      ++ text ", sandbox_error: "
      ++ exit_code_to_sandbox_error exit_code
      ++ text "): "
      ++ get_exit_code_description exit_code
      ++ (if is_empty compile_log
          then text "\n(未读取到 compile_error.log)"
          else text "\n" ++ compile_log)
    else if is_empty compile_log
    then text "编译失败 (g++ 退出码: " ++ print_ℕ exit_code ++ text ")，且无法读取错误日志"
    else compile_log

-- Behind the loop: the result, and whether the directory is kept.
unfoldable pub judge_compile : Bytes → CompileResult → Compiled → M (CompileResult × Bool)
judge_compile dir result (compiler_lost message) = pure (failing result message, false)
judge_compile dir result (compiler_ended status) =
    if wifexited status
    then (if wexitstatus status == 0
        then pure (record result { success = true; exe_path = exe_file dir }, true)
        else do
          log ← sys (read_file (log_file dir))
          pure (
            failing result
                (compile_failure (wexitstatus status) (if failed log then [] else log.bytes)),
            false,
          ))
    else if wifsignaled status
    then pure
        (failing result (text "编译器异常终止 (Signal: " ++ print_ℕ (wtermsig status) ++ text ")"), false)
    else pure (failing result (text "编译器因未知原因结束"), false)

unfoldable pub compile_args : Bytes → CompileArgs
compile_args dir = record {
  source_path = strncpy 255 (join_path dir (text "main.cpp"));
  exe_path = strncpy 255 (exe_file dir);
  log_path = strncpy 255 (log_file dir);
}

module _ (p : Platform) (g : GlobalConfig) (fuel : ℕ) (dir : Bytes) (result : CompileResult) where
  -- From the clone on.
  unfoldable pub supervise_compiler : ℤ → M ((CompileResult × Bool) × ProcessGuard)
  supervise_compiler pid = do
    start ← sys clock_ms
    (end, guard) ← watch_compiler p g fuel start.ret fuel (new_guard pid) 0
    judged ← judge_compile dir result end
    pure (judged, guard)

  unfoldable pub run_compiler : M (CompileResult × Bool)
  run_compiler = do
    r ← sys (clone_compile (compile_args dir))
    if eqb_ℤ r.ret (negsuc 0)
        then pure
            (failing result (format_system_error p (text "系统调用 clone (compile) 失败") r.errno), false)
        else guarded fuel r.ret (supervise_compiler r.ret)

  -- The source is there, and the directory is made private to the configured user.
  unfoldable pub compile_in : M CompileResult
  compile_in = do
    owned ← sys (chown dir g.run_uid g.run_gid)
    if nonzero owned
        then pure (failing result (format_system_error p (text "无法修改目录所有者") owned.errno))
        else do
          restricted ← sys (owner_only dir)
          if failed restricted
              then pure (failing result (text "无法设置目录权限: " ++ p.strerror restricted.errno))
              else directory_guarded dir run_compiler

-- The result so far: a directory that cannot be made leaves its message, and nothing else.
unfoldable pub made_result : Platform → Bytes → Reply → CompileResult
made_result p dir made =
    if failed made
    then failing new_compile_result
        (text "无法创建请求目录 '" ++ dir ++ text "': " ++ p.strerror made.errno)
    else new_compile_result

-- For a valid request id. A write that gives -1 could not open the file.
unfoldable pub compile_request : Platform → GlobalConfig → ℕ → Bytes → Bytes → M CompileResult
compile_request p g fuel dir source_code = do
  let source_file = join_path dir (text "main.cpp")
  made ← sys (create_directories dir)
  let result = made_result p dir made
  written ← sys (write_file source_file source_code)
  if failed written
      then pure (failing result (text "无法打开文件进行写入: " ++ source_file))
      else if nonzero written
      then pure (failing result (text "写入源代码时发生 I/O 错误"))
      else compile_in p g fuel dir result

-- `Sandbox::Compile`
unfoldable pub compile : Platform → GlobalConfig → ℕ → Bytes → Bytes → Bytes → M CompileResult
compile p g fuel temp_dir request_id source_code =
    if not (is_valid_request_id request_id)
    then pure (failing new_compile_result (text "安全违规: 请求 ID 包含非法字符 (潜在路径遍历攻击)"))
    else compile_request p g fuel (request_dir temp_dir request_id) source_code
