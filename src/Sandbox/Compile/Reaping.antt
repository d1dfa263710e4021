-- ===== src/Sandbox/Compile/Reaping.antt =====
-- The compiler that `Sandbox::Compile` starts has been waited for when `Compile` comes back.
use deep_oj.Common.{ℕ, zero, suc, ◌≡◌, refl, inr, false, ◌==◌, arith}
use deep_oj.Common.Int.{ℤ, pos, eqb_ℤ, ltb_ℤ, leb_ℤ, to_long, ◌-ℤ◌}
use deep_oj.Common.Bytes.{Bytes}
use deep_oj.Types.{GlobalConfig, CompileResult}
use deep_oj.Platform.{Platform}
use deep_oj.Os.{History, Environment, eintr}
use deep_oj.Os.Flow.{failed, nonzero}
use deep_oj.Os.Tidy.{Leaves, Tidy, Tidy-pure, Tidy-bind, Tidy-if, Tidy-quiet}
use deep_oj.Os.Yields.{Yields-pure, Yields-bind, Yields-if, Yields-pre, Yields-quiet, Yields-Tidy}
use deep_oj.Os.Orphans.{Settled, Owed, Settled-Stable, Owed-Stable}
use deep_oj.Sandbox.Guard.{new_guard}
use deep_oj.Sandbox.Watch.{or_old}
use deep_oj.Sandbox.Quiet.{wait_loop-Tidy}
use deep_oj.Sandbox.Reaping.{Reaps, wait_nonblock-Reaps, kill_wait-Reaps, cloned-Tidy}
use deep_oj.Sandbox.Compile
use deep_oj.Sandbox.Compile.{Compiled, compiler_ended, compiler_lost}
use deep_oj.Sandbox.Compile.Quiet.{watch_compiler-Tidy, judge_compile-Tidy, directory_guarded-Tidy}

module _ (env : Environment) (pid : ℤ) (T : History → Type 0) (alive : leb_ℤ pid (pos 0) ≡ false)
    (p : Platform) (g : GlobalConfig) (fuel : ℕ) (start : ℤ) where
  -- However the loop ends, the compiler has been waited for.
  watch_compiler-Reaps :
      (rounds status : ℕ)
      → Reaps env pid T
          (λ w. Settled)
          (Compile.watch_compiler p g fuel start rounds (new_guard pid) status)
  unfolding Compile.watch_compiler Compile.compile_reply Compile.compile_timeout
  watch_compiler-Reaps zero status = record { run = λ h o. tt }
  watch_compiler-Reaps (suc rounds) status =
      Yields-bind _ (wait_nonblock-Reaps env pid T alive fuel) (λ r.
        let status' = or_old r.out status in
        Yields-if (failed r)
          (λ f.
            Yields-if (r.errno == eintr)
              (λ _. Yields-pre (λ h k. k.0) (watch_compiler-Reaps rounds status'))
              (λ _. Yields-pure _ (λ h k. k.1 (ground (arith, f)))))
          (λ f.
            Yields-if (eqb_ℤ r.ret (pos 0))
              (λ z.
                Yields-pre (λ h k. k.0)
                  (Yields-bind _ (Yields-quiet (Owed-Stable pid) _ refl) (λ now.
                    Yields-if (ltb_ℤ (Compile.compile_time_limit g) (to_long (now.ret -ℤ start)))
                      (λ _. kill_wait-Reaps env pid T alive fuel (λ r. _))
                      (λ _.
                        Yields-bind _ (Yields-quiet (Owed-Stable pid) _ refl)
                          (λ r. watch_compiler-Reaps rounds status')))))
              (λ z. Yields-pure _ (λ h k. k.1 z))))

module _ (env : Environment) (p : Platform) (g : GlobalConfig) (fuel : ℕ) where
  supervise_compiler-Reaps :
      (dir : Bytes) (result : CompileResult) (pid : ℤ)
      → leb_ℤ pid (pos 0) ≡ false
      → Reaps env pid (Owed pid) (λ a. Settled) (Compile.supervise_compiler p g fuel dir result pid)
  unfolding Compile.supervise_compiler
  supervise_compiler-Reaps dir result pid alive =
      Yields-bind _ (Yields-quiet (Owed-Stable pid) _ refl) (λ start.
        Yields-bind _ (watch_compiler-Reaps env pid (Owed pid) alive p g fuel start.ret fuel 0)
          (λ w.
            Yields-bind _
              (Yields-Tidy (λ h s. inr s) (judge_compile-Tidy Settled-Stable dir result w.0))
              (λ judged. Yields-pure _ (λ h s. s))))

  supervise_compiler-Settled :
      (dir : Bytes) (result : CompileResult) (pid : ℤ)
      → Tidy Unit env Settled Settled (Compile.supervise_compiler p g fuel dir result pid)
  unfolding Compile.supervise_compiler
  supervise_compiler-Settled dir result pid = Tidy-bind (Tidy-quiet Settled-Stable _ refl) (λ start.
      Tidy-bind
        (watch_compiler-Tidy Settled-Stable fuel (wait_loop-Tidy tt Settled-Stable fuel) p g
          start.ret tt fuel (new_guard pid) 0)
        (λ w. Tidy-bind (judge_compile-Tidy Settled-Stable dir result w.0) (λ judged. Tidy-pure _)))

  compile_in-Settled :
      (dir : Bytes) (result : CompileResult)
      → Tidy Unit env Settled Settled (Compile.compile_in p g fuel dir result)
  unfolding Compile.compile_in Compile.run_compiler
  compile_in-Settled dir result = Tidy-bind (Tidy-quiet Settled-Stable _ refl) (λ owned.
      Tidy-if (nonzero owned) (Tidy-pure _) (
        Tidy-bind (Tidy-quiet Settled-Stable _ refl) (λ restricted.
          Tidy-if (failed restricted) (Tidy-pure _) (
            directory_guarded-Tidy Settled-Stable dir (
              cloned-Tidy env fuel _ refl _ (Compile.supervise_compiler p g fuel dir result)
                (supervise_compiler-Reaps dir result) (supervise_compiler-Settled dir result))))))

  pub compile-Settled :
      (temp_dir request_id source_code : Bytes)
      → Tidy Unit env Settled Settled (Compile.compile p g fuel temp_dir request_id source_code)
  unfolding Compile.compile Compile.compile_request
  compile-Settled temp_dir request_id source_code = Tidy-if _ (Tidy-pure _) (
      Tidy-bind (Tidy-quiet Settled-Stable _ refl) (λ made.
        Tidy-bind (Tidy-quiet Settled-Stable _ refl) (λ written.
          Tidy-if (failed written) (Tidy-pure _)
            (Tidy-if (nonzero written) (Tidy-pure _) (compile_in-Settled _ _)))))

  -- In every environment, when `Compile` returns or throws, the compiler that it has started has
  -- been waited for, if there was one.
  pub compile_reaps :
      (temp_dir request_id source_code : Bytes) (h : History)
      → Settled h
      → Leaves (Unit {0}) Settled (Compile.compile p g fuel temp_dir request_id source_code env h)
  compile_reaps temp_dir request_id source_code h s =
      (compile-Settled temp_dir request_id source_code).run h s
