-- ===== src/Main/Answers.antt =====
-- The verdicts and the answers of main.cpp.
use deep_oj.Common.{
  ℕ, suc, ◌+◌, ◌*◌, ◌^◌, ◌≤◌, ◌<◌, ◌≡◌, refl, sym, ap, ◌∙◌, true, not, ◌||◌, is_some, is_empty,
  arith, if◌then◌else◌, [],
}
use deep_oj.Common.Int.{pos}
use deep_oj.Common.Bytes.{Bytes, text, bytes_eq}
use deep_oj.Types.{
  GlobalConfig, SandboxStatus, accepted, time_limit_exceeded, memory_limit_exceeded,
  output_limit_exceeded, runtime_error, system_error,
}
use deep_oj.Platform.{Platform}
use deep_oj.Os.{Environment}
use deep_oj.Os.Flow.{M}
use deep_oj.Os.Balance.{Balanced}
use deep_oj.Sandbox.Run.{run}
use deep_oj.Sandbox.Run.Termination.{run-live}
use deep_oj.Sandbox.Watch.Clock.{Uninterrupted, Clock}
use deep_oj.Os.Tidy.{Tidy}
use deep_oj.Os.Yields.{Gives, Yields, Yields-pure, Yields-bind, Yields-if, Yields-Tidy}
use deep_oj.Main
use deep_oj.Main.{ExecutionConfig, Answer, Json, says, run_request}

-- The status that a verdict stands for.
named_status : Bytes → SandboxStatus
unfolding text
named_status v =
    if bytes_eq v (text "OK")
    then accepted
    else if bytes_eq v (text "TLE")
    then time_limit_exceeded
    else if bytes_eq v (text "MLE")
    then memory_limit_exceeded
    else if bytes_eq v (text "OLE")
    then output_limit_exceeded
    else if bytes_eq v (text "SE")
    then system_error
    else runtime_error

named_status-verdict : (s : SandboxStatus) → named_status (Main.to_verdict s) ≡ s
unfolding named_status Main.to_verdict bytes_eq text
named_status-verdict accepted = refl
named_status-verdict time_limit_exceeded = refl
named_status-verdict memory_limit_exceeded = refl
named_status-verdict output_limit_exceeded = refl
named_status-verdict runtime_error = refl
named_status-verdict system_error = refl

-- The verdict that is sent to the worker determines the status of the run.
pub to_verdict_injective : (s t : SandboxStatus) → Main.to_verdict s ≡ Main.to_verdict t → s ≡ t
to_verdict_injective s t e =
    sym (named_status-verdict s) ∙ ap named_status e ∙ named_status-verdict t

-- A line was written, and the process ends with 0, or with 1 for missing arguments.
abbrev pub Answered : Answer → Type 0
Answered a = (is_some a.line ≡ true) × (a.exit_code ≤ 1)

module _ (env : Environment) (p : Platform) where
  -- A mode that keeps the descriptors balanced, and answers if it returns.
  abbrev Answers : M Answer → Type 0
  Answers m = Yields ⊥ env (Balanced []) (Balanced []) (λ a h. Answered a) m

  emit-Answers : (json : Json) (n : ℕ) → n ≤ 1 → Answers (Main.emit p (says json n))
  unfolding Main.emit
  emit-Answers json n small =
      Yields-if (Main.all_dumped p json) (λ _. Yields-pure _ (λ h b. (refl, small)))
        (λ _. record { run = λ h b. b })

  main_run-Answers :
      (g : GlobalConfig) (c : ExecutionConfig) (fuel : ℕ)
      → Tidy ⊥ env (Balanced []) (Balanced []) (run p g (run_request c) fuel)
      → Answers (Main.main_run p g fuel c)
  unfolding Main.main_run Main.main_started Main.answer_run
  main_run-Answers g c fuel live =
      Yields-if (is_empty c.code_path || is_empty c.input_path || is_empty c.output_path)
        (λ _. emit-Answers _ 1 (omega arith))
        (λ _.
          Yields-if (is_empty c.job_id) (λ _. emit-Answers _ 1 (omega arith))
            (λ _.
              Yields-if (not c.attempt_explicit) (λ _. emit-Answers _ 1 (omega arith))
                (λ _.
                  Yields-bind _ (Yields-Tidy (λ h b. b) live)
                    (λ result. emit-Answers _ 0 (omega arith)))))

-- If no wait is interrupted, the clock is steady, the time limit is below 2 ^ 28 ms and the fuel is
-- one more than a tenth of it and a second at least, then the run mode of `main` comes back: with its
-- line of JSON written and the exit code 0 or 1, or by an exception; it ends the process in no other
-- way. (An exception may come from `Run`, or from a line with a text that is not UTF-8.)
pub main_run_answers :
    (env : Environment)
    → Uninterrupted env
    → Clock env
    → (p : Platform) (g : GlobalConfig) (c : ExecutionConfig) (t fuel : ℕ) → c.time_limit ≡ pos t
    → t < 2 ^ 28
    → t + 1000 < 10 * fuel
    → Gives ⊥ (Balanced []) (λ a h. Answered a) (Main.main_run p g (suc fuel) c env [])
unfolding Main.run_request
main_run_answers env calm clock p g c t fuel e short enough =
    (main_run-Answers env p g c (suc fuel)
        (run-live env calm clock p g (run_request c) t fuel e short enough)).run
      [] (λ n. refl)
