-- ===== src/Sandbox/Run/Termination.antt =====
-- When `Sandbox::Run` comes back.
use deep_oj.Common.{ℕ, suc, ◌+◌, ◌*◌, ◌^◌, ◌<◌, ◌≡◌, refl, sym, subst, [], ◌∷◌, arith}
use deep_oj.Common.Int.{ℤ, pos}
use deep_oj.Types.{GlobalConfig}
use deep_oj.Platform.{Platform}
use deep_oj.Os.{Environment, clock_ms}
use deep_oj.Os.Flow.{◌>>=◌, sys}
use deep_oj.Os.Tidy.{Leaves, Leaves-bind, Tidy}
use deep_oj.Os.Balance.{Balanced}
use deep_oj.Sandbox.Guard.{new_guard}
use deep_oj.Sandbox.Watch
use deep_oj.Sandbox.Watch.{Watched, ended, decided, Seen, see, nothing_seen}
use deep_oj.Sandbox.Quiet.{Loops}
use deep_oj.Sandbox.Run
use deep_oj.Sandbox.Run.{RunRequest}
use deep_oj.Sandbox.Run.Descriptors.{run-Tidy}
use deep_oj.Sandbox.Watch.Clock.{Uninterrupted, Clock, wait_loop-live}
use deep_oj.Sandbox.Watch.Live.{watch-live}

module _ (env : Environment) (calm : Uninterrupted env) where
  live-Loops :
      Clock env
      → (fuel : ℕ) (p : Platform) (t : ℕ) (m : ℤ) → t < 2 ^ 28
      → t + 1000 < 10 * fuel
      → Loops ⊥ env (suc fuel) p (pos t) m
  unfolding ◌>>=◌ sys
  live-Loops clock fuel p t m short enough = record {
    waits = λ I stable c w. wait_loop-live env calm stable fuel c w;
    watches = λ I stable pid k dk. record {
      run = λ h i.
          let now = env h clock_ms in
          let h' = (clock_ms, now) ∷ h in
          let on = clock.forward h clock_ms now in
          let off = clock.steady h clock_ms now in
          Leaves-bind ⊥ I
            (Watch.watch p (suc fuel) (pos t) m now.ret (suc fuel) (new_guard pid) nothing_seen env
              h')
            _
            (subst
              (λ z. Leaves ⊥ I (
                Watch.watch p (suc fuel) (pos t) m z (suc fuel) (new_guard pid) nothing_seen env
                  h'))
              (sym (clock.reads h))
              (watch-live env calm clock stable p fuel t m (clock.uptime h) short fuel
                (new_guard pid) nothing_seen h' (stable clock_ms now h refl i) (omega (arith, on))
                (omega (arith, off)) (omega (arith, on))))
            (λ w h'' j. (dk w).run h'' j);
    };
  }

  -- `Run` comes back, from wherever it begins.
  pub run-live :
      Clock env
      → (p : Platform) (g : GlobalConfig) (q : RunRequest) (t fuel : ℕ) → q.time_limit_ms ≡ pos t
      → t < 2 ^ 28
      → t + 1000 < 10 * fuel
      → Tidy ⊥ env (Balanced []) (Balanced []) (Run.run p g q (suc fuel))
  run-live clock p g q t fuel e short enough = run-Tidy env p g q (suc fuel) (
      subst (λ z. Loops ⊥ env (suc fuel) p z q.memory_limit_kb) (sym e)
        (live-Loops clock fuel p t q.memory_limit_kb short enough))

  -- If no wait is interrupted and the clock is steady, and the time limit is below 2 ^ 28 ms, then
  -- for a fuel of one more than a tenth of the limit and a second `Run` comes back: it returns
  -- or throws, whatever the child does and whatever else the system answers, and all descriptors
  -- that it opened are closed.
  pub run_comes_back :
      Clock env
      → (p : Platform) (g : GlobalConfig) (q : RunRequest) (t fuel : ℕ) → q.time_limit_ms ≡ pos t
      → t < 2 ^ 28
      → t + 1000 < 10 * fuel
      → Leaves ⊥ (Balanced []) (Run.run p g q (suc fuel) env [])
  run_comes_back clock p g q t fuel e short enough =
      (run-live clock p g q t fuel e short enough).run [] (λ n. refl)
