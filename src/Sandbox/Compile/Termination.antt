-- ===== src/Sandbox/Compile/Termination.antt =====
-- When `Sandbox::Compile` comes back, and what it leaves behind.
use deep_oj.Common.{
  ℕ, zero, suc, ◌+◌, ◌-◌, ◌*◌, ◌^◌, ◌≤◌, ◌<◌, ◌≡◌, refl, sym, ◌∙◌, subst, Bool, true, false, [],
  ◌∷◌, ◌==◌, arith, ltb, if◌then◌else◌, Bool-cases, inl, inr,
}
use deep_oj.Common.Int.{ℤ, pos, ◌-ℤ◌, ltb_ℤ, eqb_ℤ, to_long, to_long_in_range}
use deep_oj.Common.Bytes.{Bytes}
use deep_oj.Types.{GlobalConfig}
use deep_oj.Platform.{Platform}
use deep_oj.Os.{Reply, History, Environment, clock_ms, sleep_ms, eintr}
use deep_oj.Os.Flow.{M, ◌>>=◌, ◌>>◌, sys, failed}
use deep_oj.Os.Tidy.{Leaves, Leaves-bind, Tidy}
use deep_oj.Sandbox.Guard.{ProcessGuard, new_guard, interrupted, wait_nonblock}
use deep_oj.Sandbox.Watch.{or_old}
use deep_oj.Sandbox.Watch.Clock.{
  Uninterrupted, Clock, sub_pos, ltb-false, wait_loop-live, wait_nonblock-Waited, after_wait,
}
use deep_oj.Sandbox.Compile.Quiet.{compile-Tidy}
use deep_oj.Sandbox.Compile
use deep_oj.Sandbox.Compile.{Compiled, request_dir}
use deep_oj.Sandbox.Compile.Quiet.{compile_timeout-Tidy}
use deep_oj.Sandbox.Compile.Guards.{Gives, Swept, Any, Any-Stable}
use deep_oj.Sandbox.Compile.Directory.{Settled, compile-Gives}

-- The test of the loop, for a clock that has not run on too far.
over_limit_time :
    (limit s u : ℕ)
    → s ≤ u
    → u < s + 2 ^ 63
    → ltb_ℤ (pos limit) (to_long (pos u -ℤ pos s)) ≡ ltb (s + limit) u
over_limit_time limit s u su hu =
    rw (sub_pos u s su, to_long_in_range (pos (u - s)) (ground arith) (ground arith)) (ground arith)

module _ (env : Environment) (calm : Uninterrupted env) (clock : Clock env) (p : Platform)
    (g : GlobalConfig) (limit : ℕ) (short : limit < 2 ^ 31)
    (known : Compile.compile_time_limit g ≡ pos limit) (fuel : ℕ) (s : ℕ) where
  in_time :
      (h : History)
      → s ≤ clock.uptime h
      → clock.uptime h < s + 2 ^ 63
      → ltb_ℤ (pos limit) (to_long ((env h clock_ms).ret -ℤ pos s)) ≡ false
      → clock.uptime h ≤ s + limit
  in_time h low high e = ltb-false (s + limit) (clock.uptime h) (
      sym (over_limit_time limit s (clock.uptime h) low high)
      ∙ subst (λ z. ltb_ℤ (pos limit) (to_long (z -ℤ pos s)) ≡ false) (clock.reads h) e)

  -- What a round asks of the rest of the loop.
  abbrev Next : (ℕ → M (Compiled × ProcessGuard)) → History → Type 0
  Next again h =
      (status : ℕ) (h' : History)
      → clock.uptime h ≤ s + limit
      → clock.uptime h + 50 ≤ clock.uptime h'
      → clock.uptime h' ≤ s + limit + 50 + 2 ^ 29
      → Leaves ⊥ Any (again status env h')

  clock-live :
      (again : ℕ → M (Compiled × ProcessGuard)) (guard : ProcessGuard) (status : ℕ) (h : History)
      → s ≤ clock.uptime h
      → clock.uptime h < s + 2 ^ 63
      → Next again h
      → Leaves ⊥ Any (
          (sys clock_ms >>= λ now.
          if ltb_ℤ (Compile.compile_time_limit g) (to_long (now.ret -ℤ pos s))
          then Compile.compile_timeout p g (suc fuel) (pos s) guard
          else sys (sleep_ms 50) >> again status)
            env h)
  unfolding ◌>>=◌ sys
  clock-live again guard status h low high next = by_time _ refl
    where
      now : Reply
      now = env h clock_ms

      h' : History
      h' = (clock_ms, now) ∷ h

      r : Reply
      r = env h' (sleep_ms 50)

      by_time :
          (b : Bool)
          → ltb_ℤ (Compile.compile_time_limit g) (to_long (now.ret -ℤ pos s)) ≡ b
          → Leaves ⊥ Any (
              (if b
                  then Compile.compile_timeout p g (suc fuel) (pos s) guard
                  else sys (sleep_ms 50) >> again status)
                env h')
      by_time true e =
          (compile_timeout-Tidy Any-Stable (suc fuel) (wait_loop-live env calm Any-Stable fuel) p g
              (pos s) guard).run
            h' tt
      by_time false e =
          next status ((sleep_ms 50, r) ∷ h')
            (in_time h low high (subst (λ z. ltb_ℤ z (to_long (now.ret -ℤ pos s)) ≡ false) known e))
            (omega (arith, clock.forward h clock_ms now, clock.forward h' (sleep_ms 50) r))
            (let passed =
                in_time h low high
                  (subst (λ z. ltb_ℤ z (to_long (now.ret -ℤ pos s)) ≡ false) known e) in
              omega (arith, passed, clock.steady h clock_ms now, clock.steady h' (sleep_ms 50) r))

  reply-live :
      (again : ℕ → M (Compiled × ProcessGuard)) (guard : ProcessGuard) (status : ℕ) (r : Reply)
      (h : History)
      → interrupted r ≡ false
      → s ≤ clock.uptime h
      → clock.uptime h < s + 2 ^ 63
      → Next again h
      → Leaves ⊥ Any (Compile.compile_reply p g (suc fuel) (pos s) again guard status r env h)
  unfolding Compile.compile_reply
  reply-live again guard status r h calm_r low high next = elim (Bool-cases (failed r)) [
    | inl e ↦ elim (Bool-cases (r.errno == eintr)) [
      | inl f ↦ absurd (ground arith)
      | inr f ↦ rw (e, f) tt
    ]
    | inr e ↦ elim (Bool-cases (eqb_ℤ r.ret (pos 0))) [
      | inl f ↦ rw (e, f) (clock-live again guard (or_old r.out status) h low high next)
      | inr f ↦ rw (e, f) tt
    ]
  ]

  round-live :
      (k : ℕ) (guard : ProcessGuard) (status : ℕ) (h : History)
      → s ≤ clock.uptime h
      → clock.uptime h ≤ s + limit + 50 + 2 ^ 29
      → ((h' : History)
          → clock.uptime h ≤ clock.uptime h'
          → Next (Compile.watch_compiler p g (suc fuel) (pos s) k guard) h')
      → Leaves ⊥ Any (Compile.watch_compiler p g (suc fuel) (pos s) (suc k) guard status env h)
  unfolding Compile.watch_compiler ◌>>=◌
  round-live k guard status h low high next =
      let again = Compile.watch_compiler p g (suc fuel) (pos s) k guard in
      after_wait env calm clock Any-Stable h (wait_nonblock (suc fuel) guard env h)
        (Compile.compile_reply p g (suc fuel) (pos s) again guard status)
        (wait_nonblock-Waited env calm clock Any-Stable fuel guard h tt)
        (λ r h' calm_r on off i.
          reply-live again guard status r h' calm_r (omega arith) (omega arith) (next h' on))

  watch_compiler-live :
      (k : ℕ) (guard : ProcessGuard) (status : ℕ) (h : History)
      → s ≤ clock.uptime h
      → clock.uptime h ≤ s + limit + 50 + 2 ^ 29
      → s + limit < clock.uptime h + 50 * k
      → Leaves ⊥ Any (Compile.watch_compiler p g (suc fuel) (pos s) (suc k) guard status env h)
  watch_compiler-live zero guard status h low high enough =
      round-live zero guard status h low high
        (λ h' on status h'' passed slept bound. absurd (omega arith))
  watch_compiler-live (suc k) guard status h low high enough =
      round-live (suc k) guard status h low high (λ h' on status h'' passed slept bound.
        watch_compiler-live k guard status h'' (omega arith) bound (omega arith))

-- The loop from the reading of the clock on.
loop-live :
    (env : Environment)
    → Uninterrupted env
    → Clock env
    → (p : Platform) (g : GlobalConfig) (limit fuel : ℕ) → Compile.compile_time_limit g ≡ pos limit
    → limit < 2 ^ 31
    → limit < 50 * fuel
    → (pid : ℤ) (h : History)
    → let now = env h clock_ms in
      Leaves ⊥ Any (
        Compile.watch_compiler p g
          (suc fuel)
          now.ret
          (suc fuel)
          (new_guard pid)
          0
          env
          ((clock_ms, now) ∷ h))
loop-live env calm clock p g limit fuel known short enough pid h =
    let now = env h clock_ms in
    let h' = (clock_ms, now) ∷ h in
    let on = clock.forward h clock_ms now in
    let off = clock.steady h clock_ms now in
    subst
      (λ z.
        Leaves ⊥ Any (Compile.watch_compiler p g (suc fuel) z (suc fuel) (new_guard pid) 0 env h'))
      (sym (clock.reads h))
      (watch_compiler-live env calm clock p g limit short known fuel (clock.uptime h) fuel
        (new_guard pid) 0 h' (omega (arith, on)) (omega (arith, off)) (omega (arith, on)))

-- `Compile` comes back, from wherever it begins.
pub compile-live :
    (env : Environment)
    → Uninterrupted env
    → Clock env
    → (p : Platform) (g : GlobalConfig) (limit fuel : ℕ) → Compile.compile_time_limit g ≡ pos limit
    → limit < 2 ^ 31
    → limit < 50 * fuel
    → (temp_dir request_id source_code : Bytes)
    → Tidy ⊥ env Any Any (Compile.compile p g (suc fuel) temp_dir request_id source_code)
unfolding ◌>>=◌ sys
compile-live env calm clock p g limit fuel known short enough temp_dir request_id source_code =
    compile-Tidy Any-Stable (λ args. record { run = λ h i. tt }) (suc fuel)
      (wait_loop-live env calm Any-Stable fuel) p g
      (λ pid k dk. record {
        run = λ h i.
            Leaves-bind ⊥ Any
              (Compile.watch_compiler p g (suc fuel) (env h clock_ms).ret (suc fuel) (new_guard pid)
                0 env ((clock_ms, env h clock_ms) ∷ h))
              _ (loop-live env calm clock p g limit fuel known short enough pid h)
              (λ w h' j. (dk w).run h' j);
      })
      temp_dir request_id source_code

-- If no wait is interrupted, the clock is steady and the time limit of a compilation, in ms, does
-- not overflow, then for a fuel of one more than a fiftieth of it `Compile` comes back: it
-- returns, or throws with the directory swept. A success names the program in the directory of
-- a valid request; after a failure the directory has been swept, unless no compiler was started.
pub compile_settles :
    (env : Environment)
    → Uninterrupted env
    → Clock env
    → (p : Platform) (g : GlobalConfig) (limit fuel : ℕ) → Compile.compile_time_limit g ≡ pos limit
    → limit < 2 ^ 31
    → limit < 50 * fuel
    → (temp_dir request_id source_code : Bytes)
    → Gives ⊥
        (Swept (request_dir temp_dir request_id))
        (Settled temp_dir request_id)
        (Compile.compile p g (suc fuel) temp_dir request_id source_code env [])
compile_settles env calm clock p g limit fuel known short enough temp_dir request_id source_code =
    compile-Gives ⊥ env (suc fuel) (wait_loop-live env calm Any-Stable fuel) p g
      (loop-live env calm clock p g limit fuel known short enough) temp_dir request_id source_code
