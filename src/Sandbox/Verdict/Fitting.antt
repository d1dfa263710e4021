-- ===== src/Sandbox/Verdict/Fitting.antt =====
-- The checks behind the loop of `Sandbox::Run` where the output and the memory fit.
use deep_oj.Common.{ℕ, ◌≡◌, refl, false, arith, inl, inr, Bool-cases}
use deep_oj.Common.Int.{ℤ, ltb_ℤ}
use deep_oj.Common.Bytes.{Bytes}
use deep_oj.Types.{GlobalConfig, RunResult}
use deep_oj.Platform.{Platform}
use deep_oj.Os.{Rusage, Environment, History}
use deep_oj.Os.Flow.{Outcome, returns, ◌>>=◌}
use deep_oj.Sandbox.Marker.{RunExecFailureMarker, read_run_exec_failure_marker}
use deep_oj.Sandbox.Verdict.{judge_wait, over_limit, assess}
use deep_oj.Sandbox.Verdict.Correct.{
  output_size_sound, Returns, Fits, Way, output, memory, waited, assess-Way,
}

module _ (p : Platform) (g : GlobalConfig) (time_limit memory_limit : ℤ)
    (output_path stderr_path : Bytes) (status : ℕ) (usage : Rusage) (r : RunResult)
    (env : Environment) (h : History)
    (fits : Fits p g time_limit memory_limit output_path stderr_path status usage r env h) where
  -- Then the wait status decides, with some marker.
  pub assess-Returns :
      (Q : RunResult → Type 0)
      → ((m : RunExecFailureMarker) → Q (judge_wait p time_limit memory_limit m status r))
      → Returns (assess p g time_limit memory_limit output_path stderr_path status usage r env h) Q
  assess-Returns Q judged =
      by_way _ (assess-Way p g time_limit memory_limit output_path stderr_path status usage r env h)
    where
      by_way :
          (o : Outcome RunResult)
          → Way p g time_limit memory_limit output_path stderr_path status usage r env h o
          → Returns o Q
      by_way o (output over e) = absurd (fits.0 over)
      by_way o (memory not_over more e) = absurd (ground (arith, more, fits.1))
      by_way o (waited m f) = judged m

  -- And with the marker that is read, if it is the same whenever it is read.
  pub assess-reads :
      (m : RunExecFailureMarker)
      → ((k : History)
          → (k' : History) × (read_run_exec_failure_marker stderr_path env k ≡ returns m k'))
      → Returns
          (assess p g time_limit memory_limit output_path stderr_path status usage r env h)
          (λ v. v ≡ judge_wait p time_limit memory_limit m status r)
  unfolding assess ◌>>=◌
  assess-reads m reads =
      let (o, h', e, over) = output_size_sound p g output_path env h in
      let (h'', f) = reads h' in
      let small : over_limit p g o ≡ false = elim (Bool-cases (over_limit p g o)) [
        | inl over_it ↦ absurd (fits.0 (over.0 over_it))
        | inr not_over ↦ not_over
      ] in
      let enough : ltb_ℤ memory_limit r.memory_used ≡ false = ground (arith, fits.1) in
      rw (e, small, enough, f) refl
