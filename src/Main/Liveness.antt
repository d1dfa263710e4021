-- ===== src/Main/Liveness.antt =====
-- The whole of `main` ends, and has said how it went.
use deep_oj.Common.{
  ℕ, suc, ◌+◌, ◌*◌, ◌^◌, ◌≤◌, ◌<◌, ◌≡◌, ◌⊎◌, refl, sym, subst, ◌∙◌, Bool, true, false, not, ◌&&◌,
  ◌||◌, Option, none, some, [], is_some, is_empty, arith, inl, inr, if◌then◌else◌,
}
use deep_oj.Common.Int.{ℤ, pos}
use deep_oj.Common.Bytes.{Bytes}
use deep_oj.Common.Numbers.{stoll}
use deep_oj.Types.{GlobalConfig, CompileResult}
use deep_oj.Platform.{Platform}
use deep_oj.Os.{Call, History, Environment}
use deep_oj.Os.Flow.{M, pure, sys, failed}
use deep_oj.Os.Tidy.{is_quiet}
use deep_oj.Os.Balance.{Balanced, Balanced-Stable}
use deep_oj.Os.Yields.{
  Yields, Yields-quiet, Yields-pure, Yields-bind, Yields-if, Yields-pre, Yields-Tidy,
}
use deep_oj.Sandbox.Watch.Clock.{Uninterrupted, Clock}
use deep_oj.Sandbox.Run.Termination.{run-live}
use deep_oj.Sandbox.Compile.{compile_time_limit}
use deep_oj.Sandbox.Compile.Guards.{Any}
use deep_oj.Sandbox.Compile.Termination.{compile-live}
use deep_oj.Main.Quiet.{validate_config-Tidy, new_sandbox-Tidy, cleanup_request-Tidy}
use deep_oj.Main
use deep_oj.Main.{ExecutionConfig, Answer, Json, says, silent}

-- A line was written, or the process ends with 1; its exit code is 2 at most.
abbrev pub Spoken : Answer → Type 0
Spoken a = ((a.exit_code ≡ 1) ⊎ (is_some a.line ≡ true)) × (a.exit_code ≤ 2)

-- What is taken from the environment leaves the time limit alone.
abbrev SameLimit : ExecutionConfig → ExecutionConfig → History → Type 0
SameLimit c c' h = (c'.time_limit ≡ c.time_limit) × Balanced [] h

compiled-Spoken : (r : CompileResult) → Spoken (Main.answer_compiled r)
unfolding Main.answer_compiled
compiled-Spoken r = by_success r.success _ _
  where
    by_success : (b : Bool) (x y : Json) → Spoken (if b then says x 0 else says y 2)
    by_success true x y = (inr refl, omega arith)
    by_success false x y = (inr refl, omega arith)

self_test-Spoken : (c : ExecutionConfig) → Spoken (Main.answer_self_test c)
unfolding Main.answer_self_test
self_test-Spoken c = by_tests (is_empty c.job_id) (not c.attempt_explicit) _ _ _
  where
    by_tests :
        (b d : Bool) (x y z : Json)
        → Spoken (if b then says x 0 else if d then says y 0 else says z 0)
    by_tests true d x y z = (inr refl, omega arith)
    by_tests false true x y z = (inr refl, omega arith)
    by_tests false false x y z = (inr refl, omega arith)

invalid-Spoken : (c : ExecutionConfig) (e : Bytes) → Spoken (Main.answer_invalid c e)
unfolding Main.answer_invalid
invalid-Spoken c e =
    by_test (is_empty c.code_path && is_empty c.input_path && is_empty c.output_path) _ _
  where
    by_test : (b : Bool) (x y : Json) → Spoken (if b then says x 1 else says y 1)
    by_test true x y = (inl refl, omega arith)
    by_test false x y = (inl refl, omega arith)

module _ {env : Environment} where
  quiet : (c : Call) → is_quiet c ≡ true → Yields ⊥ env Any (Balanced []) (λ r. Balanced []) (sys c)
  quiet c q = Yields-quiet (Balanced-Stable []) c q

  fill_job-Yields :
      (c : ExecutionConfig) → Yields ⊥ env Any (Balanced []) (SameLimit c) (Main.fill_job c)
  unfolding Main.fill_job
  fill_job-Yields c =
      Yields-if (is_empty c.job_id)
        (λ _.
          Yields-bind _ (quiet _ refl)
            (λ job. Yields-pure _ (λ h b. (same (failed job) job.bytes, b))))
        (λ _. Yields-pure c (λ h b. (refl, b)))
    where
      same :
          (f : Bool) (id : Bytes)
          → (if f then c else record c { job_id = id }).time_limit ≡ c.time_limit
      same true id = refl
      same false id = refl

  fill_attempt-Yields :
      (c : ExecutionConfig) → Yields ⊥ env Any (Balanced []) (SameLimit c) (Main.fill_attempt c)
  unfolding Main.fill_attempt
  fill_attempt-Yields c =
      Yields-if c.attempt_explicit (λ _. Yields-pure c (λ h b. (refl, b)))
        (λ _.
          Yields-bind _ (quiet _ refl)
            (λ r. Yields-pure _ (λ h b. (same (failed r) (stoll r.bytes), b))))
    where
      same :
          (f : Bool) (n : Option ℤ)
          → (if f then c else Main.with_attempt c n).time_limit ≡ c.time_limit
      same true n = refl
      same false none = refl
      same false (some z) = refl

-- The time that a run and a compilation may take fits into the integers and the fuel.
pub record Timely (fuel : ℕ) (g : GlobalConfig) (limit : ℤ) : Type 0 where
  pub run_ms : ℕ
  pub run_known : limit ≡ pos run_ms
  pub run_short : run_ms < 2 ^ 28
  pub run_enough : run_ms + 1000 < 10 * fuel
  pub compile_ms : ℕ
  pub compile_known : compile_time_limit g ≡ pos compile_ms
  pub compile_short : compile_ms < 2 ^ 31
  pub compile_enough : compile_ms < 50 * fuel

module _ (env : Environment) (calm : Uninterrupted env) (clock : Clock env) (p : Platform)
    (g : GlobalConfig) (fuel : ℕ) where
  -- A mode of `main`.
  abbrev pub Speaks : M Answer → Type 0
  Speaks m = Yields ⊥ env Any (Balanced []) (λ a h. Spoken a) m

  emit-Speaks :
      {I : History → Type 0} (a : Answer)
      → Spoken a
      → Yields ⊥ env Any I (λ a h. Spoken a) (Main.emit p a)
  unfolding Main.emit
  emit-Speaks a spoken =
      Yields-if (Main.writable p a.line) (λ _. Yields-pure a (λ h b. spoken))
        (λ _. record { run = λ h b. tt })

  says-Speaks : (json : Json) (n : ℕ) → n ≤ 2 → Speaks (Main.emit p (says json n))
  says-Speaks json n small = emit-Speaks (says json n) (inr refl, small)

  silent-Speaks : Speaks (pure (silent 1))
  silent-Speaks = Yields-pure _ (λ h b. (inl refl, omega arith))

  main_cleanup-Speaks : (c : ExecutionConfig) → Speaks (Main.main_cleanup p g (suc fuel) c)
  unfolding Main.main_cleanup
  main_cleanup-Speaks c =
      Yields-if (is_empty c.request_id) (λ _. silent-Speaks)
        (λ _.
          Yields-bind _
            (Yields-Tidy (λ h b. tt)
              (cleanup_request-Tidy (Balanced-Stable []) g.workspace_root c.request_id))
            (λ u. says-Speaks _ 0 (omega arith)))

  module _ (c : ExecutionConfig) (timely : Timely fuel g c.time_limit) where
    main_compile-Speaks : Speaks (Main.main_compile p g (suc fuel) c)
    unfolding Main.main_compile
    main_compile-Speaks =
        Yields-if (is_empty c.source_path || is_empty c.request_id) (λ _. silent-Speaks)
          (λ _. Yields-bind _ (quiet _ refl) (λ source.
            Yields-if (failed source) (λ _. silent-Speaks)
              (λ _.
                Yields-pre (λ h b. tt)
                  (Yields-bind _
                    (Yields-Tidy (λ h b. tt)
                      (compile-live env calm clock p g timely.compile_ms fuel timely.compile_known
                        timely.compile_short timely.compile_enough g.workspace_root c.request_id
                        source.bytes))
                    (λ result. emit-Speaks _ (compiled-Spoken result))))))

    main_run-Speaks : Speaks (Main.main_run p g (suc fuel) c)
    unfolding Main.main_run Main.main_started Main.answer_run Main.run_request
    main_run-Speaks =
        Yields-if (is_empty c.code_path || is_empty c.input_path || is_empty c.output_path)
          (λ _. says-Speaks _ 1 (omega arith))
          (λ _.
            Yields-if (is_empty c.job_id) (λ _. says-Speaks _ 1 (omega arith))
              (λ _.
                Yields-if (not c.attempt_explicit) (λ _. says-Speaks _ 1 (omega arith))
                  (λ _.
                    Yields-bind _
                      (Yields-Tidy (λ h b. tt)
                        (run-live env calm clock p g (Main.run_request c) timely.run_ms fuel
                          timely.run_known timely.run_short timely.run_enough))
                      (λ result. says-Speaks _ 0 (omega arith)))))

    main_mode-Speaks : Speaks (Main.main_mode p g (suc fuel) c)
    unfolding Main.main_mode
    main_mode-Speaks =
        Yields-bind _
          (Yields-Tidy (λ h b. tt) (new_sandbox-Tidy (Balanced-Stable []) p g.workspace_root))
          (λ u.
            Yields-if c.cleanup_only (λ _. main_cleanup-Speaks c)
              (λ _.
                Yields-if (c.compile_only || not (is_empty c.source_path))
                  (λ _. main_compile-Speaks) (λ _. main_run-Speaks)))

    main_filled-Speaks : Speaks (Main.main_filled p g (suc fuel) c)
    unfolding Main.main_filled
    main_filled-Speaks =
        Yields-if c.self_test (λ _. emit-Speaks _ (self_test-Spoken c))
          (λ _.
            Yields-bind _ (Yields-Tidy (λ h b. tt) (validate_config-Tidy (Balanced-Stable []) g))
              (λ error. by_error error))
      where
        by_error :
            (error : Option Bytes)
            → Speaks (elim error [
              | none ↦ Main.main_mode p g (suc fuel) c
              | some message ↦ Main.emit p (Main.answer_invalid c message)
            ])
        by_error none = main_mode-Speaks
        by_error (some message) = emit-Speaks _ (invalid-Spoken c message)

  pub main_parsed-Speaks :
      (c : ExecutionConfig)
      → Timely fuel g c.time_limit
      → Speaks (Main.main_parsed p g (suc fuel) c)
  unfolding Main.main_parsed
  main_parsed-Speaks c timely = Yields-bind _ (fill_job-Yields c) (λ c'. record {
    run = λ h k.
        (Yields-bind _ (fill_attempt-Yields c') (λ c''. record {
          run = λ h' k'.
              (main_filled-Speaks c'' (subst (Timely fuel g) (sym (k'.0 ∙ k.0)) timely)).run h'
                k'.1;
        })).run
          h k.1;
  })
