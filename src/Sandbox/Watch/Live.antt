-- ===== src/Sandbox/Watch/Live.antt =====
-- When the loop of `Sandbox::Run` is left: its rounds against the clock.
use deep_oj.Common.{
  ℕ, zero, suc, ◌+◌, ◌*◌, ◌^◌, ◌≤◌, ◌<◌, ◌≡◌, refl, sym, ◌∙◌, subst, Bool, true, false, ◌∷◌, ◌==◌,
  arith, if◌then◌else◌, Bool-cases, inl, inr,
}
use deep_oj.Common.Int.{ℤ, pos, ◌+ℤ◌, ◌-ℤ◌, ltb_ℤ, eqb_ℤ, to_int}
use deep_oj.Platform.{Platform}
use deep_oj.Os.{Reply, History, Environment, clock_ms, sleep_ms, eintr}
use deep_oj.Os.Flow.{M, ◌>>=◌, ◌>>◌, sys, failed}
use deep_oj.Os.Tidy.{Leaves, Stable}
use deep_oj.Sandbox.Guard.{ProcessGuard, interrupted, wait_nonblock}
use deep_oj.Sandbox.Watch
use deep_oj.Sandbox.Watch.{Watched, ended, decided, Seen, see, nothing_seen}
use deep_oj.Sandbox.Quiet.{stop_for_memory-Tidy, stop_for_time-Tidy}
use deep_oj.Sandbox.Watch.Clock.{
  wait_nonblock-Waited, after_wait, Uninterrupted, Clock, over_time, pause_bounds, ltb-false,
  wait_loop-live,
}

module _ (env : Environment) (calm : Uninterrupted env) where
  module _ (clock : Clock env) {I : History → Type 0} (stable : Stable I) where
    module _ (p : Platform) (fuel : ℕ) (t : ℕ) (m : ℤ) (s : ℕ) (short : t < 2 ^ 28) where
      -- What a round asks of the rest of the loop.
      abbrev Next : (Seen → M (Watched × ProcessGuard)) → History → Type 0
      Next again h =
          (seen : Seen) (h' : History)
          → I h'
          → clock.uptime h ≤ s + t + 1000
          → clock.uptime h + 10 ≤ clock.uptime h'
          → clock.uptime h' ≤ s + t + 1050 + 2 ^ 29
          → Leaves ⊥ I (again seen env h')

      -- Where the test of the loop does not hold, the limit has not been passed.
      in_time :
          (h : History)
          → s ≤ clock.uptime h
          → clock.uptime h < s + 2 ^ 31
          → ltb_ℤ (to_int (pos t +ℤ pos 1000)) (to_int ((env h clock_ms).ret -ℤ pos s)) ≡ false
          → clock.uptime h ≤ s + t + 1000
      in_time h low high e = ltb-false (s + t + 1000) (clock.uptime h) (
          sym (over_time t s (clock.uptime h) (omega arith) low high)
          ∙ subst (λ z. ltb_ℤ (to_int (pos t +ℤ pos 1000)) (to_int (z -ℤ pos s)) ≡ false)
              (clock.reads h) e)

      -- The child still runs and fits the memory: the clock decides.
      clock-live :
          (again : Seen → M (Watched × ProcessGuard)) (guard : ProcessGuard) (seen : Seen)
          (h : History)
          → I h
          → s ≤ clock.uptime h
          → clock.uptime h < s + 2 ^ 31
          → Next again h
          → Leaves ⊥ I (
              (sys clock_ms >>= λ now.
              if ltb_ℤ (to_int (pos t +ℤ pos 1000)) (to_int (now.ret -ℤ pos s))
              then Watch.stop_for_time p
                  (suc fuel)
                  (pos t)
                  m
                  (pos s)
                  guard
                  seen
                  (to_int (now.ret -ℤ pos s))
              else sys (sleep_ms (Watch.pause p (suc fuel) (pos t) m (pos s) seen.usage))
                >> again seen)
                env h)
      unfolding ◌>>=◌ sys
      clock-live again guard seen h i low high next = by_time _ refl
        where
          now : Reply
          now = env h clock_ms

          h' : History
          h' = (clock_ms, now) ∷ h

          n : ℕ
          n = Watch.pause p (suc fuel) (pos t) m (pos s) seen.usage

          r : Reply
          r = env h' (sleep_ms n)

          i' : I h'
          i' = stable clock_ms now h refl i

          by_time :
              (b : Bool)
              → ltb_ℤ (to_int (pos t +ℤ pos 1000)) (to_int (now.ret -ℤ pos s)) ≡ b
              → Leaves ⊥ I (
                  (if b
                      then Watch.stop_for_time p
                          (suc fuel)
                          (pos t)
                          m
                          (pos s)
                          guard
                          seen
                          (to_int (now.ret -ℤ pos s))
                      else sys (sleep_ms n) >> again seen)
                    env h')
          by_time true e =
              (stop_for_time-Tidy stable (suc fuel) (wait_loop-live env calm stable fuel) p (pos t)
                  m (pos s) guard seen _).run
                h' i'
          by_time false e =
              let passed = in_time h low high e in
              let pause = pause_bounds p (suc fuel) (pos t) m (pos s) seen.usage in
              next seen ((sleep_ms n, r) ∷ h') (stable (sleep_ms n) r h' refl i') passed
                (omega
                  (arith, pause.0, clock.forward h clock_ms now, clock.forward h' (sleep_ms n) r))
                (omega
                  (arith, pause.1, clock.steady h clock_ms now, clock.steady h' (sleep_ms n) r))

      reply-live :
          (again : Seen → M (Watched × ProcessGuard)) (guard : ProcessGuard) (seen : Seen)
          (r : Reply) (h : History)
          → interrupted r ≡ false
          → I h
          → s ≤ clock.uptime h
          → clock.uptime h < s + 2 ^ 31
          → Next again h
          → Leaves ⊥ I (Watch.watch_reply p (suc fuel) (pos t) m (pos s) again guard seen r env h)
      unfolding Watch.watch_reply
      reply-live again guard seen r h calm_r i low high next = elim (Bool-cases (failed r)) [
        | inl e ↦ elim (Bool-cases (r.errno == eintr)) [
          | inl f ↦ absurd (ground arith)
          | inr f ↦ rw (e, f) i
        ]
        | inr e ↦ elim (Bool-cases (eqb_ℤ r.ret (pos 0))) [
          | inl f ↦ elim (Bool-cases (ltb_ℤ m (see r seen).usage.maxrss)) [
            | inl g ↦
                rw (e, f, g)
                  ((stop_for_memory-Tidy stable (suc fuel) (wait_loop-live env calm stable fuel) p
                      (pos t) m (pos s) guard (see r seen)).run
                    h i)
            | inr g ↦ rw (e, f, g) (clock-live again guard (see r seen) h i low high next)
          ]
          | inr f ↦ rw (e, f) i
        ]
      ]

      round-live :
          (k : ℕ) (guard : ProcessGuard) (seen : Seen) (h : History)
          → I h
          → s ≤ clock.uptime h
          → clock.uptime h ≤ s + t + 1050 + 2 ^ 29
          → ((h' : History)
              → clock.uptime h ≤ clock.uptime h'
              → Next (Watch.watch p (suc fuel) (pos t) m (pos s) k guard) h')
          → Leaves ⊥ I (Watch.watch p (suc fuel) (pos t) m (pos s) (suc k) guard seen env h)
      unfolding Watch.watch ◌>>=◌
      round-live k guard seen h i low high next =
          let again = Watch.watch p (suc fuel) (pos t) m (pos s) k guard in
          after_wait env calm clock stable h (wait_nonblock (suc fuel) guard env h)
            (Watch.watch_reply p (suc fuel) (pos t) m (pos s) again guard seen)
            (wait_nonblock-Waited env calm clock stable fuel guard h i)
            (λ r h' calm_r on off i'.
              reply-live again guard seen r h' calm_r i' (omega arith) (omega arith) (next h' on))

      -- With enough rounds left the loop ends.
      pub watch-live :
          (k : ℕ) (guard : ProcessGuard) (seen : Seen) (h : History)
          → I h
          → s ≤ clock.uptime h
          → clock.uptime h ≤ s + t + 1050 + 2 ^ 29
          → s + t + 1000 < clock.uptime h + 10 * k
          → Leaves ⊥ I (Watch.watch p (suc fuel) (pos t) m (pos s) (suc k) guard seen env h)
      watch-live zero guard seen h i low high enough =
          round-live zero guard seen h i low high
            (λ h' on seen h'' i passed slept bound. absurd (omega arith))
      watch-live (suc k) guard seen h i low high enough =
          round-live (suc k) guard seen h i low high (λ h' on seen h'' i passed slept bound.
            watch-live k guard seen h'' i (omega arith) bound (omega arith))
