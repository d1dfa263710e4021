-- ===== src/Sandbox/Verdict/Child.antt =====
-- How the parent judges a child that has given up before its program ran.
use deep_oj.Common.{ℕ, ◌*◌, ◌≤◌, ◌≡◌, ◌⊎◌, subst, arith, []}
use deep_oj.Common.Int.{ℤ, pos}
use deep_oj.Types.{GlobalConfig, RunChildArgs, RunResult, runtime_error, system_error}
use deep_oj.Platform.{Platform}
use deep_oj.Os.{History, Environment}
use deep_oj.Os.Flow.{exits}
use deep_oj.Os.Trace.{Post}
use deep_oj.Isolation.RunChild.{run_child}
use deep_oj.Isolation.RootfsCorrect.{ChildCode}
use deep_oj.Isolation.Lockdown.{Strict, StartsLocked, run_child_locked}
use deep_oj.Sandbox.Marker.{RunExecFailureMarker}
use deep_oj.Sandbox.ExitStatus.{exit_code_to_sandbox_error}
use deep_oj.Common.Bytes.{Bytes}
use deep_oj.Common.Int.{◌≤ℤ◌}
use deep_oj.Os.{Rusage}
use deep_oj.Sandbox.Verdict.{judge_wait, assess}
use deep_oj.Sandbox.Verdict.Correct.{OutputOver, Returns}
use deep_oj.Sandbox.Verdict.Fitting.{assess-Returns}

-- What a verdict on a child says that has exited with the code before its program ran.
abbrev pub Judged : ℕ → RunResult → Type 0
Judged c v =
    (v.exit_code ≡ pos c)
    × (((c ≤ 103) × (v.status ≡ runtime_error))
        ⊎ ((c ≡ 127) × ((v.status ≡ system_error) ⊎ (v.status ≡ runtime_error)))
        ⊎ ((120 ≤ c)
            × (v.status ≡ system_error)
            × (v.sandbox_error ≡ exit_code_to_sandbox_error c)))

code-Judged :
    (p : Platform) (time_limit memory_limit : ℤ) (marker : RunExecFailureMarker) (r : RunResult)
    (c : ℕ)
    → ChildCode c
    → Judged c (judge_wait p time_limit memory_limit marker (c * 256) r)
unfolding judge_wait
code-Judged p time_limit memory_limit marker r c code = (ground (arith, code), ground (arith, code))

-- If the filter is never switched off, then a child of a run that exits before its program runs is judged
-- by its exit code, where the output and the memory fit, as the engine's failure or as a runtime error,
-- and never in another way: as a runtime error where its redirection has failed, by 101 to 103; as either
-- where exec has failed, by 127; and as the engine's failure, with the name of the code, by any other.
pub failed_child_verdict :
    (env : Environment) (p : Platform) (g : GlobalConfig) (args : RunChildArgs) (c : ℕ)
    (h : History) (parent : Environment) (before : History) (time_limit memory_limit : ℤ)
    (output_path stderr_path : Bytes) (usage : Rusage) (r : RunResult)
    → Strict env
    → run_child p g args env [] ≡ exits c h
    → ¬ OutputOver p g output_path parent before
    → r.memory_used ≤ℤ memory_limit
    → Returns
        (assess p g time_limit memory_limit output_path stderr_path (c * 256) usage r parent before)
        (Judged c)
failed_child_verdict env p g args c h parent before time_limit memory_limit output_path stderr_path
      usage r strict exited small enough =
    assess-Returns p g time_limit memory_limit output_path stderr_path (c * 256) usage r parent
      before (small, enough) (Judged c)
      (λ marker. code-Judged p time_limit memory_limit marker r c (
        subst (Post ChildCode (StartsLocked g args) (λ _ _. ⊥)) exited
          (run_child_locked env p g args strict)))
