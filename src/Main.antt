-- ===== src/Main.antt =====
-- main.cpp behind the parsing of its options: the configuration is checked, the mode chosen, and one
-- line of JSON is written for the worker.
pub mod Answers
pub mod Options
pub mod Sets
pub mod Parsing
pub mod Quiet
pub mod Liveness
pub mod Ends
pub mod Leftovers
use deep_oj.Common.{
  ℕ, Bool, true, false, not, ◌&&◌, ◌||◌, Option, none, some, List, [], ◌∷◌, ◌++◌, is_empty,
  if◌then◌else◌,
}
use deep_oj.Common.Int.{ℤ, pos, negsuc, ltb_ℤ}
use deep_oj.Common.Bytes.{Bytes, text, bytes_eq}
use deep_oj.Common.Numbers.{stoll}
use deep_oj.Common.Paths.{parent_path, join_path}
use deep_oj.Types.{
  GlobalConfig, SandboxStatus, accepted, time_limit_exceeded, memory_limit_exceeded,
  output_limit_exceeded, runtime_error, system_error, RunResult, CompileResult, new_run_result,
}
use deep_oj.Platform.{Platform}
use deep_oj.Os.{Reply, getenv, exists, access_exec, read_file}
use deep_oj.Os.Flow.{M, ◌>>=◌, ◌>>◌, pure, sys, throw, failed, nonzero}
use deep_oj.Sandbox.Workspace.{new_sandbox, cleanup_request}
use deep_oj.Sandbox.Compile.{compile}
use deep_oj.Sandbox.Run.{RunRequest, run}

-- `struct ExecutionConfig`
pub record ExecutionConfig : Type 0 where
  pub source_path : Bytes
  pub code_path : Bytes
  pub input_path : Bytes
  pub output_path : Bytes
  pub error_path : Bytes
  pub time_limit : ℤ
  pub memory_limit : ℤ
  pub work_dir : Bytes
  pub request_id : Bytes
  pub job_id : Bytes
  pub attempt_id : ℤ
  pub compile_only : Bool
  pub cleanup_only : Bool
  pub self_test : Bool
  pub attempt_explicit : Bool

-- A JSON object as the list of its members; the library that writes it is not modelled.
pub data Value : Type 0 where
  string : Bytes → Value
  number : ℤ → Value

abbrev pub Json : Type 0
Json = List (Bytes × Value)

-- How the process ends: with the line for the worker, if there is one, and its exit code.
pub record Answer : Type 0 where
  pub line : Option Json
  pub exit_code : ℕ

abbrev pub says : Json → ℕ → Answer
says json exit_code = record { line = some json; exit_code = exit_code }

abbrev pub silent : ℕ → Answer
silent exit_code = record { line = none; exit_code = exit_code }

-- Whether the library writes all texts of a line.
abbrev pub all_dumped : Platform → Json → Bool
all_dumped p [] = true
all_dumped p ((name, string s) ∷ json) = p.dumps s && all_dumped p json
all_dumped p ((name, number n) ∷ json) = all_dumped p json

abbrev pub writable : Platform → Option Json → Bool
writable p none = true
writable p (some json) = all_dumped p json

-- `EmitJSONLine`, and then the return from `main`: `out.dump()` throws where it refuses a text.
unfoldable pub emit : Platform → Answer → M Answer
emit p a = if writable p a.line then pure a else throw (text "type_error")

-- `ValidateConfig`: the error, if there is one. `fs::exists` throws where it cannot tell.
unfoldable pub validate_config : GlobalConfig → M (Option Bytes)
validate_config g =
    if is_empty g.workspace_root
    then pure (some (text "workspace_root not set"))
    else if is_empty g.compiler_path
    then pure (some (text "compiler_path not set"))
    else do
      there ← sys (exists g.workspace_root)
      if ltb_ℤ there.ret (pos 0)
          then throw (text "filesystem error")
          else if not (ltb_ℤ (pos 0) there.ret)
          then pure (some (text "workspace_root not found: " ++ g.workspace_root))
          else do
            executable ← sys (access_exec g.compiler_path)
            pure (
                if nonzero executable
                then some (text "compiler not executable: " ++ g.compiler_path)
                else none)

-- `FillRunMetaFromEnv`: a result of -1 stands for a null pointer.
unfoldable pub fill_job : ExecutionConfig → M ExecutionConfig
fill_job c =
    if is_empty c.job_id
    then (do
      job ← sys (getenv (text "JUDGE_JOB_ID"))
      pure (if failed job then c else record c { job_id = job.bytes }))
    else pure c

abbrev pub with_attempt : ExecutionConfig → Option ℤ → ExecutionConfig
with_attempt c none = c
with_attempt c (some n) = record c { attempt_id = n; attempt_explicit = true }

unfoldable pub fill_attempt : ExecutionConfig → M ExecutionConfig
fill_attempt c = if c.attempt_explicit then pure c else do
  attempt ← sys (getenv (text "JUDGE_ATTEMPT_ID"))
  pure (if failed attempt then c else with_attempt c (stoll attempt.bytes))

-- `ToVerdictAndStatus`
unfoldable pub to_verdict : SandboxStatus → Bytes
unfolding text
to_verdict accepted = text "OK"
to_verdict time_limit_exceeded = text "TLE"
to_verdict memory_limit_exceeded = text "MLE"
to_verdict output_limit_exceeded = text "OLE"
to_verdict system_error = text "SE"
to_verdict runtime_error = text "RE"

unfoldable pub to_status : SandboxStatus → Bytes
unfolding text
to_status accepted = text "Finished"
to_status time_limit_exceeded = text "Time Limit Exceeded"
to_status memory_limit_exceeded = text "Memory Limit Exceeded"
to_status output_limit_exceeded = text "Output Limit Exceeded"
to_status system_error = text "System Error"
to_status runtime_error = text "Runtime Error"

-- `BuildRunJSON`, with the result of a run for the eight arguments that come from one.
unfoldable pub build_run_json : ExecutionConfig → Bytes → Bytes → RunResult → Json
build_run_json c verdict status r =
    ((text "schema_version", number (pos 1))
      ∷ (text "job_id", string c.job_id)
      ∷ (text "attempt_id", number c.attempt_id)
      ∷ (text "verdict", string verdict)
      ∷ (text "time_ms", number r.time_used)
      ∷ (text "mem_kb", number r.memory_used)
      ∷ (text "exit_signal", number r.exit_signal)
      ∷ (text "sandbox_error", string r.sandbox_error)
      ∷ (text "status", string status)
      ∷ (text "time_used", number r.time_used)
      ∷ (text "memory_used", number r.memory_used)
      ∷ (text "exit_code", number r.exit_code)
      ∷ [])
    ++ (if is_empty r.error_message then [] else (text "error", string r.error_message) ∷ [])

-- `EmitRunSystemError`
unfoldable pub run_system_error : ExecutionConfig → Bytes → Bytes → Json
unfolding build_run_json
run_system_error c sandbox_error message =
    build_run_json c (text "SE") (text "System Error")
      (record new_run_result { sandbox_error = sandbox_error; error_message = message })

abbrev pub forget_attempt : ExecutionConfig → ExecutionConfig
forget_attempt c = if c.attempt_explicit then c else record c { attempt_id = negsuc 0 }

-- The answer to `--self_test`.
unfoldable pub answer_self_test : ExecutionConfig → Answer
answer_self_test c =
    if is_empty c.job_id
    then says
        (run_system_error (forget_attempt c) (text "missing_job_id")
          (text "missing required --job_id/JUDGE_JOB_ID"))
        0
    else if not c.attempt_explicit
    then says
        (run_system_error (forget_attempt c) (text "missing_attempt_id")
          (text "missing required --attempt_id/JUDGE_ATTEMPT_ID"))
        0
    else says
        (build_run_json c (text "OK") (text "Finished")
          (record new_run_result { time_used = pos 1; memory_used = pos 64 }))
        0

-- The answer where the configuration is invalid.
unfoldable pub answer_invalid : ExecutionConfig → Bytes → Answer
answer_invalid c error =
    if is_empty c.code_path && is_empty c.input_path && is_empty c.output_path
    then says
        ((text "schema_version", number (pos 1))
          ∷ (text "status", string (text "System Error"))
          ∷ (text "error", string error)
          ∷ [])
        1
    else says (run_system_error c (text "config_invalid") error) 1

unfoldable pub answer_compiled : CompileResult → Answer
answer_compiled r =
    if r.success
    then says
        ((text "schema_version", number (pos 1))
          ∷ (text "status", string (text "Compiled"))
          ∷ (text "exe_path", string r.exe_path)
          ∷ [])
        0
    else says
        ((text "schema_version", number (pos 1))
          ∷ (text "status", string (text "Compile Error"))
          ∷ (text "error", string r.error_message)
          ∷ [])
        2

-- The answer to a run: a system error without a name gets one.
unfoldable pub answer_run : ExecutionConfig → RunResult → Answer
answer_run c r =
    let named = bytes_eq (to_verdict r.status) (text "SE") && is_empty r.sandbox_error in
    says
      (build_run_json c (to_verdict r.status) (to_status r.status)
        (if named then record r { sandbox_error = text "system_error" } else r))
      0

-- The paths of a run, with the defaults of the missing ones.
unfoldable pub run_request : ExecutionConfig → RunRequest
run_request c =
    let dir = if is_empty c.work_dir then parent_path c.code_path else c.work_dir in
    record {
      exe_path = c.code_path;
      stdin_path = c.input_path;
      stdout_path = c.output_path;
      stderr_path =
          if is_empty c.error_path then join_path dir (text "stderr.txt") else c.error_path;
      time_limit_ms = c.time_limit;
      memory_limit_kb = c.memory_limit;
    }

module _ (p : Platform) (g : GlobalConfig) (fuel : ℕ) (c : ExecutionConfig) where
  unfoldable pub main_cleanup : M Answer
  main_cleanup = if is_empty c.request_id then pure (silent 1) else do
    cleanup_request g.workspace_root c.request_id
    emit p (
        says
          ((text "schema_version", number (pos 1))
            ∷ (text "status", string (text "Cleaned"))
            ∷ (text "request_id", string c.request_id)
            ∷ [])
          0)

  unfoldable pub main_compile : M Answer
  main_compile = if is_empty c.source_path || is_empty c.request_id then pure (silent 1) else do
    source ← sys (read_file c.source_path)
    if failed source then pure (silent 1) else do
      result ← compile p g fuel g.workspace_root c.request_id source.bytes
      emit p (answer_compiled result)

  unfoldable pub main_started : M Answer
  main_started = do result ← run p g (run_request c) fuel; emit p (answer_run c result)

  unfoldable pub main_run : M Answer
  main_run =
      if is_empty c.code_path || is_empty c.input_path || is_empty c.output_path
      then emit p (
          says
            (run_system_error c (text "missing_run_args") (text "run mode requires -c, -i and -o"))
            1)
      else if is_empty c.job_id
      then emit p (
          says
            (run_system_error c (text "missing_job_id")
              (text "missing required --job_id/JUDGE_JOB_ID"))
            1)
      else if not c.attempt_explicit
      then emit p (
          says
            (run_system_error c (text "missing_attempt_id")
              (text "missing required --attempt_id/JUDGE_ATTEMPT_ID"))
            1)
      else main_started

  -- The mode, for a valid configuration.
  unfoldable pub main_mode : M Answer
  main_mode = do
    new_sandbox p g.workspace_root
    if c.cleanup_only
        then main_cleanup
        else if c.compile_only || not (is_empty c.source_path)
        then main_compile
        else main_run

  -- `main` behind the parsing of the options and `FillRunMetaFromEnv`.
  unfoldable pub main_filled : M Answer
  main_filled = if c.self_test then emit p (answer_self_test c) else do
    error ← validate_config g
    elim error [ none ↦ main_mode | some message ↦ emit p (answer_invalid c message) ]

-- `main` behind the parsing of the options.
unfoldable pub main_parsed : Platform → GlobalConfig → ℕ → ExecutionConfig → M Answer
main_parsed p g fuel c = do c' ← fill_job c; c'' ← fill_attempt c'; main_filled p g fuel c''
