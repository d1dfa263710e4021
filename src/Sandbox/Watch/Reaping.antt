-- ===== src/Sandbox/Watch/Reaping.antt =====
-- However the loop of `Run` ends, its child has been waited for.
use deep_oj.Common.{ℕ, zero, suc, ◌≡◌, refl, false, ◌==◌, arith}
use deep_oj.Common.Int.{ℤ, pos, ltb_ℤ, leb_ℤ, eqb_ℤ, to_int, ◌+ℤ◌, ◌-ℤ◌}
use deep_oj.Platform.{Platform}
use deep_oj.Os.{History, Environment, eintr}
use deep_oj.Os.Flow.{failed}
use deep_oj.Os.Yields.{Yields-pure, Yields-pre, Yields-quiet, Yields-bind, Yields-if}
use deep_oj.Os.Orphans.{Settled, Settled-Stable, Owed-Stable}
use deep_oj.Sandbox.Guard
use deep_oj.Sandbox.Guard.{ProcessGuard, new_guard, interrupted}
use deep_oj.Sandbox.Watch
use deep_oj.Sandbox.Watch.{Watched, Seen, see}
use deep_oj.Sandbox.Reaping.{Reaps, kill_wait-Reaps, wait_nonblock-Reaps}

module _ (env : Environment) (pid : ℤ) (T : History → Type 0) (alive : leb_ℤ pid (pos 0) ≡ false)
    (fuel : ℕ) (p : Platform) (t m start : ℤ) where
  stop-Reaps : (seen : Seen) → Reaps env pid T (λ a. Settled) (Watch.stop fuel (new_guard pid) seen)
  unfolding Watch.stop
  stop-Reaps seen =
      kill_wait-Reaps env pid T alive fuel (λ r. (see r seen, Guard.release fuel (new_guard pid)))

  stop_for_memory-Reaps :
      (seen : Seen)
      → Reaps env pid T (λ w. Settled) (Watch.stop_for_memory p fuel t m start (new_guard pid) seen)
  unfolding Watch.stop_for_memory
  stop_for_memory-Reaps seen = Yields-bind _ (stop-Reaps seen) (λ after.
      Yields-bind _ (Yields-quiet Settled-Stable _ refl) (λ now. Yields-pure _ (λ h s. s)))

  stop_for_time-Reaps :
      (seen : Seen) (elapsed_ms : ℤ)
      → Reaps env pid T
          (λ w. Settled)
          (Watch.stop_for_time p fuel t m start (new_guard pid) seen elapsed_ms)
  unfolding Watch.stop_for_time
  stop_for_time-Reaps seen elapsed_ms =
      Yields-bind _ (stop-Reaps seen) (λ after. Yields-pure _ (λ h s. s))

  -- However the loop ends, the child has been waited for.
  pub watch-Reaps :
      (rounds : ℕ) (seen : Seen)
      → Reaps env pid T (λ w. Settled) (Watch.watch p fuel t m start rounds (new_guard pid) seen)
  unfolding Watch.watch Watch.watch_reply
  watch-Reaps zero seen = record { run = λ h o. tt }
  watch-Reaps (suc rounds) seen = Yields-bind _ (wait_nonblock-Reaps env pid T alive fuel) (λ r.
      let seen' = see r seen in
      Yields-if (failed r)
        (λ f.
          Yields-if (r.errno == eintr) (λ _. Yields-pre (λ h k. k.0) (watch-Reaps rounds seen'))
            (λ _. Yields-pure _ (λ h k. k.1 (ground (arith, f)))))
        (λ f.
          Yields-if (eqb_ℤ r.ret (pos 0))
            (λ z.
              Yields-pre (λ h k. k.0)
                (Yields-if (ltb_ℤ m seen'.usage.maxrss) (λ _. stop_for_memory-Reaps seen')
                  (λ _. Yields-bind _ (Yields-quiet (Owed-Stable pid) _ refl) (λ now.
                    Yields-if (ltb_ℤ (to_int (t +ℤ pos 1000)) (to_int (now.ret -ℤ start)))
                      (λ _. stop_for_time-Reaps seen' (to_int (now.ret -ℤ start)))
                      (λ _.
                        Yields-bind _ (Yields-quiet (Owed-Stable pid) _ refl)
                          (λ r. watch-Reaps rounds seen'))))))
            (λ z. Yields-pure _ (λ h k. k.1 z))))
