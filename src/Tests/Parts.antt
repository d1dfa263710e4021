-- ===== src/Tests/Parts.antt =====
-- The theorems on the parts of the engine that decide, read and print, at concrete inputs.
use deep_oj.Common.{
  ℕ, ◌≤◌, ◌≡◌, ◌≢◌, ◌↔◌, refl, true, false, none, [], ◌∷◌, ◌++◌, arith, length, All,
}
use deep_oj.Common.Int.{pos, to_int}
use deep_oj.Common.Bytes.{text, split_last, print_ℕ, digits_acc, strip_prefix}
use deep_oj.Types.{RunResult, new_run_result}
use deep_oj.Os.{Environment}
use deep_oj.Os.Flow.{returns}
use deep_oj.Os.Balance.{Balanced}
use deep_oj.Seccomp.{run_rules}
use deep_oj.Sandbox.RequestId.{is_valid_request_id}
use deep_oj.Sandbox.RequestId.Correct.{
  IsWordByte, is_valid_request_id_iff, is_valid_request_id_safe,
}
use deep_oj.Sandbox.ExitStatus.{exit_code_to_sandbox_error}
use deep_oj.Sandbox.ExitStatus.Correct.{exit_code_to_sandbox_error_injective}
use deep_oj.Sandbox.Marker.{find_marker, lines, marker_prefix, run_exec_error_message}
use deep_oj.Sandbox.Marker.Correct.{exec_detail, unlines, find_marker-message}
use deep_oj.Sandbox.Verdict.{assess}
use deep_oj.Sandbox.Verdict.Correct.{Returns, Verdicts, assess_verdict}
use Prim.Native.Nat.{bit_and}
use deep_oj.Os.{act_kill, act_allow}
use deep_oj.Seccomp.Permits.{Arguments, verdict, forbidden, run_filter_denies}
use deep_oj.Sandbox.Workspace.{cleanup_request}
use deep_oj.Sandbox.Workspace.Correct.{Cleaned, cleanup_request_safe}
use deep_oj.Os.{read_file, kill, sigkill}
use deep_oj.Cgroup.{get_memory_peak}
use deep_oj.Cgroup.Kill.{kill_all}
use deep_oj.Cgroup.Numbers.{get_memory_peak_lem, kill_all-first}
use deep_oj.Types.{accepted}
use deep_oj.Main.{ExecutionConfig, main_run}
use deep_oj.Main.Answers.{Answered, to_verdict_injective, main_run_answers}
use deep_oj.Sandbox.Compile.{compile, request_dir, compile_time_limit}
use deep_oj.Sandbox.Compile.Guards.{Gives, Swept}
use deep_oj.Sandbox.Compile.Directory.{Settled}
use deep_oj.Sandbox.Compile.Termination.{compile_settles}
use deep_oj.Common.Int.{◌*ℤ◌}
use deep_oj.Os.{Environment, read_file}
use deep_oj.Os.Flow.{returns}
use deep_oj.Types.{code, err_exec_failed, new_run_result}
use deep_oj.Sandbox.Verdict.Exec.{exec_failure, exec_failure_reported}
use deep_oj.Common.{◌*◌}
use deep_oj.Common.Bytes.{Bytes}
use deep_oj.Tests.{
  gives, little, whole, config, gives, calm, endless, endless-Clock, endless-Uninterrupted, manager,
}

compile_settles_example :
    Gives ⊥
      (Swept (request_dir (text "/data/workspace") (text "r1")))
      (Settled (text "/data/workspace") (text "r1"))
      (compile whole config 402
        (text "/data/workspace")
        (text "r1")
        (text "int main() {}")
        endless
        [])
unfolding compile_time_limit to_int ◌*ℤ◌
compile_settles_example =
    compile_settles endless endless-Uninterrupted endless-Clock whole config 20000 401 refl
      (omega arith) (omega arith) (text "/data/workspace") (text "r1") (text "int main() {}")

abbrev measured : RunResult
measured = record new_run_result { time_used = pos 4; memory_used = pos 2048 }

assess_verdict_example :
    Returns
      (assess whole config
        (pos 1000)
        (pos 65536)
        (text "out.txt")
        (text "err.txt")
        0
        little
        measured
        calm
        [])
      (Verdicts whole config
        (pos 1000)
        (pos 65536)
        (text "out.txt")
        (text "err.txt")
        0
        little
        measured
        calm
        [])
assess_verdict_example =
    assess_verdict whole config (pos 1000) (pos 65536) (text "out.txt") (text "err.txt") 0 little
      measured calm []

find_marker-message_example :
    find_marker (
      lines (
        unlines
          (text "warning" ∷ [])
          (run_exec_error_message whole 2 (text "/main") ++ text "more")))
    ≡ record { found = true; detail = exec_detail whole 2 (text "/main") }
unfolding text marker_prefix strip_prefix digits_acc print_ℕ
find_marker-message_example =
    find_marker-message whole 2 (text "/main") (text "warning" ∷ []) (text "more") (refl, refl, tt)
      refl refl (omega arith)

is_valid_request_id_iff_example : (is_valid_request_id (text "run_42-a") ≡ true) ↔ (
    (1 ≤ length (text "run_42-a"))
    × (length (text "run_42-a") ≤ 64)
    × All IsWordByte (text "run_42-a"))
is_valid_request_id_iff_example = is_valid_request_id_iff (text "run_42-a")

is_valid_request_id_safe_example :
    (split_last b'/' (b'r' ∷ b'1' ∷ []) ≡ none) × (◌≢◌ {A = ℕ} b'r' b'.')
unfolding is_valid_request_id
is_valid_request_id_safe_example = is_valid_request_id_safe b'r' (b'1' ∷ []) refl

exit_code_to_sandbox_error_injective_example :
    exit_code_to_sandbox_error 121 ≢ exit_code_to_sandbox_error 127
exit_code_to_sandbox_error_injective_example =
    exit_code_to_sandbox_error_injective 121 127 (omega arith) (omega arith) (ground arith)

abbrev no_flags : Arguments
no_flags i = 0

run_filter_denies_example :
    ((verdict act_kill act_allow run_rules (text "open") no_flags ≡ act_allow)
      ↔ (◌≡◌ {A = ℕ} (bit_and (no_flags 1) 3) 0))
    × ((verdict act_kill act_allow run_rules (text "openat") no_flags ≡ act_allow)
        ↔ (◌≡◌ {A = ℕ} (bit_and (no_flags 2) 3) 0))
    × All (λ name. verdict act_kill act_allow run_rules name no_flags ≡ act_kill) forbidden
run_filter_denies_example = run_filter_denies no_flags

cleanup_request_safe_example :
    Gives ⊥
      (λ h. ⊥)
      (Cleaned (text "/data/workspace") (text "r1") [])
      (cleanup_request (text "/data/workspace") (text "r1") calm [])
cleanup_request_safe_example = cleanup_request_safe calm [] (text "/data/workspace") (text "r1")

-- A kernel whose files hold a number and a second line.
abbrev numbered : ℕ → Environment
numbered n h c = record (gives (pos 0)) { bytes = print_ℕ n ++ b'\n' ∷ text "4343" }

get_memory_peak_lem_example :
    get_memory_peak manager (numbered 2097152) []
    ≡ returns 2097152 (
        (
          read_file (manager.cgroup_path ++ text "/memory.peak"),
          numbered 2097152 [] (read_file (manager.cgroup_path ++ text "/memory.peak")),
        )
        ∷ [])
get_memory_peak_lem_example =
    get_memory_peak_lem (numbered 2097152) [] manager (text "4343") 2097152 refl refl refl
      (omega arith)

kill_all-first_example :
    kill_all (text "/c") (numbered 4242) []
    ≡ returns tt (
        (
          kill (pos 4242) sigkill,
          numbered 4242
              ((
                read_file (text "/c" ++ text "/cgroup.procs"),
                numbered 4242 [] (read_file (text "/c" ++ text "/cgroup.procs")),
              )
                ∷ [])
              (kill (pos 4242) sigkill),
        )
        ∷ (
          read_file (text "/c" ++ text "/cgroup.procs"),
          numbered 4242 [] (read_file (text "/c" ++ text "/cgroup.procs")),
        )
        ∷ [])
kill_all-first_example =
    kill_all-first (numbered 4242) [] (text "/c") (text "4343") 4242 refl refl (omega arith)
      (omega arith)

to_verdict_injective_example : accepted ≡ accepted
to_verdict_injective_example = to_verdict_injective accepted accepted refl

abbrev execution : ExecutionConfig
execution = record {
  source_path = [];
  code_path = text "/data/workspace/r1/main";
  input_path = text "/data/in.txt";
  output_path = text "/data/out.txt";
  error_path = [];
  time_limit = pos 1000;
  memory_limit = pos 131072;
  work_dir = [];
  request_id = [];
  job_id = text "job";
  attempt_id = pos 1;
  compile_only = false;
  cleanup_only = false;
  self_test = false;
  attempt_explicit = true;
}

main_run_answers_example :
    Gives ⊥ (Balanced []) (λ a h. Answered a) (main_run whole config 202 execution endless [])
main_run_answers_example =
    main_run_answers endless endless-Uninterrupted endless-Clock whole config execution 1000 201
      refl (omega arith) (omega arith)

-- A program that has written to the file of its errors what the engine writes.
abbrev forged : Bytes
forged =
    unlines (text "warning" ∷ []) (run_exec_error_message whole 2 (text "/main") ++ text "more")

abbrev forging : Environment
forging h (read_file path) = record (gives (pos 0)) { bytes = forged }
forging h c = gives (pos 0)

exec_failure_reported_example :
    Returns
      (assess whole config
        (pos 1000)
        (pos 65536)
        (text "/o")
        (text "/e")
        (code err_exec_failed * 256)
        little
        new_run_result
        forging
        [])
      (λ v. v ≡ exec_failure new_run_result (exec_detail whole 2 (text "/main")))
unfolding text marker_prefix strip_prefix digits_acc print_ℕ
exec_failure_reported_example =
    exec_failure_reported forging whole config (pos 1000) (pos 65536) little new_run_result
      (text "/o") (text "/e") (text "/main") 2 (text "warning" ∷ []) (text "more") []
      (λ o. ground (arith, o.0)) (omega arith) refl (λ k. refl) (λ k. refl) (refl, refl, tt) refl
      refl (omega arith)
