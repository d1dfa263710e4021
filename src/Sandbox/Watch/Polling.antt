-- ===== src/Sandbox/Watch/Polling.antt =====
-- What the loop of `Sandbox::Run` learns of the memory of a child that still runs.
use deep_oj.Common.{
  ℕ, zero, suc, ◌≡◌, ◌⊎◌, refl, true, false, none, ◌∷◌, Bool-cases, inl, inr, ◌==◌, arith,
}
use deep_oj.Common.Int.{ℤ, pos, eqb_ℤ, ltb_ℤ, leb_ℤ, to_int, ◌+ℤ◌, ◌-ℤ◌}
use deep_oj.Types.{time_limit_exceeded, system_error}
use deep_oj.Platform.{Platform}
use deep_oj.Os.{Reply, History, Environment, eintr, wait_nohang}
use deep_oj.Os.Flow.{failed}
use deep_oj.Os.Tidy.{Stable}
use deep_oj.Os.Yields.{
  Gives, Yields, Yields-pure, Yields-bind, Yields-if, Yields-quiet, Yields-Tidy,
}
use deep_oj.Sandbox.Guard
use deep_oj.Sandbox.Guard.{ProcessGuard, new_guard, interrupted}
use deep_oj.Sandbox.Quiet.{wait_loop-Tidy, stop-Tidy}
use deep_oj.Sandbox.Watch
use deep_oj.Sandbox.Watch.{Watched, ended, decided, Seen, see, nothing_seen}

abbrev pub Whatever : History → Type 0
Whatever h = Unit {0}

Whatever-Stable : Stable Whatever
Whatever-Stable c r h q i = tt

-- `wait4` writes the usage only of a child that has ended.
abbrev pub UsageAtEnd : Environment → Type 0
UsageAtEnd env =
    (pid : ℤ) (h : History)
    → leb_ℤ (env h (wait_nohang pid)).ret (pos 0) ≡ true
    → (env h (wait_nohang pid)).usage ≡ none

-- The loop decides for the time or for a failure only.
abbrev pub NotForMemory : Watched → Type 0
NotForMemory (ended status usage) = Unit {0}
NotForMemory (decided r) = (r.status ≡ time_limit_exceeded) ⊎ (r.status ≡ system_error)

-- No usage where the wait has not found the end of the child.
abbrev Blind : Reply → History → Type 0
Blind r h = leb_ℤ r.ret (pos 0) ≡ true → r.usage ≡ none

module _ (env : Environment) (at_end : UsageAtEnd env) (fuel : ℕ) (guard : ProcessGuard) where
  wait_nonblock-Blind : Yields Unit env Whatever Whatever Blind (Guard.wait_nonblock fuel guard)
  unfolding Guard.wait_nonblock Guard.wait_loop
  wait_nonblock-Blind =
      Yields-if (leb_ℤ guard.pid (pos 0)) (λ _. Yields-pure _ (λ h _ _. refl))
        (λ _. record { run = λ h _. go fuel h })
    where
      go :
          (n : ℕ) (h : History)
          → Gives Unit Whatever Blind (Guard.wait_loop n (wait_nohang guard.pid) env h)
      go zero h = tt
      go (suc n) h =
          let c = wait_nohang guard.pid in
          elim (Bool-cases (interrupted (env h c))) [
            | inl e ↦ rw (Guard.wait_loop, e) (go n ((c, env h c) ∷ h))
            | inr e ↦ rw (Guard.wait_loop, e) (at_end guard.pid h)
          ]

  module _ (p : Platform) (t m start : ℤ) (limit : ltb_ℤ m (pos 0) ≡ false) where
    -- Nothing is known of the memory as long as the child runs.
    abbrev Unknown : Seen → Type 0
    Unknown seen = seen.usage.maxrss ≡ pos 0

    see-Unknown : (r : Reply) (seen : Seen) → r.usage ≡ none → Unknown seen → Unknown (see r seen)
    see-Unknown r seen nothing unknown = rw nothing unknown

    stop_for_time-NotForMemory :
        (seen : Seen) (elapsed_ms : ℤ)
        → Yields Unit env Whatever Whatever
            (λ w h. NotForMemory w.0)
            (Watch.stop_for_time p fuel t m start guard seen elapsed_ms)
    unfolding Watch.stop_for_time
    stop_for_time-NotForMemory seen elapsed_ms =
        Yields-bind _
          (Yields-Tidy (λ h _. tt)
            (stop-Tidy Whatever-Stable fuel (wait_loop-Tidy tt Whatever-Stable fuel) guard seen))
          (λ after. Yields-pure _ (λ h _. inl refl))

    watch-Unknown :
        (rounds : ℕ) (seen : Seen)
        → Unknown seen
        → Yields Unit env Whatever Whatever
            (λ w h. NotForMemory w.0)
            (Watch.watch p fuel t m start rounds guard seen)
    unfolding Watch.watch Watch.watch_reply Watch.wait_failed
    watch-Unknown zero seen unknown = record { run = λ h _. tt }
    watch-Unknown (suc rounds) seen unknown =
        Yields-bind _ wait_nonblock-Blind
          (λ r. record { run = λ h blind. (by_reply (watch-Unknown rounds) r blind).run h tt })
      where
        by_reply :
            ((s : Seen)
              → Unknown s
              → Yields Unit env Whatever Whatever
                  (λ w h. NotForMemory w.0)
                  (Watch.watch p fuel t m start rounds guard s))
            → (r : Reply) → (leb_ℤ r.ret (pos 0) ≡ true → r.usage ≡ none)
            → Yields Unit env Whatever Whatever
                (λ w h. NotForMemory w.0)
                (Watch.watch_reply p fuel t m start
                  (λ s. Watch.watch p fuel t m start rounds guard s)
                  guard
                  seen
                  r)
        by_reply again r blind =
            let seen' = see r seen in
            Yields-if (failed r)
              (λ f.
                Yields-if (r.errno == eintr)
                  (λ _. again seen' (see-Unknown r seen (blind (ground (arith, f))) unknown))
                  (λ _. Yields-pure _ (λ h _. inr refl)))
              (λ f.
                Yields-if (eqb_ℤ r.ret (pos 0))
                  (λ z.
                    let unknown' : Unknown seen' =
                      see-Unknown r seen (blind (ground (arith, z))) unknown in
                    Yields-if (ltb_ℤ m seen'.usage.maxrss)
                      (λ big. absurd (ground (arith, big, unknown', limit)))
                      (λ _. Yields-bind _ (Yields-quiet Whatever-Stable _ refl) (λ now.
                        Yields-if (ltb_ℤ (to_int (t +ℤ pos 1000)) (to_int (now.ret -ℤ start)))
                          (λ _. stop_for_time-NotForMemory seen' (to_int (now.ret -ℤ start)))
                          (λ _.
                            Yields-bind _ (Yields-quiet Whatever-Stable _ refl)
                              (λ _. again seen' unknown')))))
                  (λ z. Yields-pure _ (λ h _. tt)))

-- If the system reports the usage of a child only when it has ended, as wait4 does, and the memory limit
-- is not negative, then the loop of `Run` never decides for the memory limit: what it decides itself
-- is the time limit or a failed wait. (A loop that has used up its fuel is not covered.)
pub polling_blind :
    (env : Environment) (p : Platform) (fuel : ℕ) (t m start : ℤ) (rounds : ℕ)
    (guard : ProcessGuard) (h : History)
    → UsageAtEnd env
    → ltb_ℤ m (pos 0) ≡ false
    → Gives
        (Unit {0})
        Whatever
        (λ w h'. NotForMemory w.0)
        (Watch.watch p fuel t m start rounds guard nothing_seen env h)
polling_blind env p fuel t m start rounds guard h at_end limit =
    (watch-Unknown env at_end fuel guard p t m start limit rounds nothing_seen refl).run h tt
