-- ===== src/Sandbox/Watch/Clock.antt =====
-- What the loop of `Sandbox::Run` rests on: waits without interruption, and a steady clock.
use deep_oj.Common.{
  Bool, if◌then◌else◌, ℕ, suc, ◌+◌, ◌-◌, ◌^◌, ◌≤◌, ◌<◌, ◌≡◌, refl, true, false, ◌∷◌, arith, ltb,
}
use deep_oj.Common.Int.{
  ℤ, pos, ◌+ℤ◌, ◌-ℤ◌, leb_ℤ, ltb_ℤ, to_int, to_int_in_range, +ℤ_parts, -ℤ_parts, eq_of_parts,
}
use deep_oj.Platform.{Platform}
use deep_oj.Os.{wait_nohang, Call, Reply, Rusage, History, Environment, clock_ms, sleep_ms}
use deep_oj.Os.Flow.{Outcome, returns, exits, becomes, throws, unfinished, bind, M, pure}
use deep_oj.Os.Tidy.{Leaves, Tidy, Stable}
use deep_oj.Sandbox.Guard.{ProcessGuard, no_process, interrupted, wait_loop, wait_nonblock}
use deep_oj.Sandbox.Watch
use deep_oj.Sandbox.Watch.{Watched, ended, decided, Seen, see, nothing_seen}
use deep_oj.Sandbox.Quiet.{is_wait, wait-quiet}

-- No wait is interrupted by a signal.
abbrev pub Uninterrupted : Environment → Type 0
Uninterrupted env = (h : History) (c : Call) → is_wait c ≡ true → interrupted (env h c) ≡ false

-- What a call sleeps, in ms.
abbrev pub slept : Call → ℕ
slept (sleep_ms n) = n
slept _ = 0

-- A steady clock: it never goes back, a sleep lasts as long as it says at least, and beside that no
-- call takes more than 2 ^ 28 ms, three days.
pub record Clock (env : Environment) : Type 0 where
  pub uptime : History → ℕ
  pub reads : (h : History) → (env h clock_ms).ret ≡ pos (uptime h)
  pub forward : (h : History) (c : Call) (r : Reply) → uptime h + slept c ≤ uptime ((c, r) ∷ h)
  pub steady :
      (h : History) (c : Call) (r : Reply) → uptime ((c, r) ∷ h) ≤ uptime h + slept c + 2 ^ 28

to_int_pos : (n : ℕ) → n < 2 ^ 31 → to_int (pos n) ≡ pos n
to_int_pos n h = to_int_in_range (pos n) (ground arith) (ground arith)

add_pos : (a b : ℕ) → pos a +ℤ pos b ≡ pos (a + b)
add_pos a b = eq_of_parts (pos a +ℤ pos b) (pos (a + b)) (ground (arith, +ℤ_parts (pos a) (pos b)))

pub sub_pos : (u s : ℕ) → s ≤ u → pos u -ℤ pos s ≡ pos (u - s)
sub_pos u s h =
    eq_of_parts (pos u -ℤ pos s) (pos (u - s)) (ground (arith, -ℤ_parts (pos u) (pos s)))

-- The test of the loop, for a clock that has not run on too far.
pub over_time :
    (t s u : ℕ)
    → t + 1000 < 2 ^ 31
    → s ≤ u
    → u < s + 2 ^ 31
    → ltb_ℤ (to_int (pos t +ℤ pos 1000)) (to_int (pos u -ℤ pos s)) ≡ ltb (s + t + 1000) u
over_time t s u ht su hu =
    rw (add_pos t 1000, sub_pos u s su, to_int_pos (t + 1000) ht, to_int_pos (u - s) (omega arith))
      (ground arith)

pub pause_bounds :
    (p : Platform) (fuel : ℕ) (t m start : ℤ) (usage : Rusage)
    → (10 ≤ Watch.pause p fuel t m start usage) × (Watch.pause p fuel t m start usage ≤ 50)
unfolding Watch.pause
pause_bounds p fuel t m start usage = ground arith

pub ltb-false : (a b : ℕ) → ltb a b ≡ false → b ≤ a
ltb-false a b e = ground arith

module _ (env : Environment) (calm : Uninterrupted env) where
  -- A wait takes one call, which is not interrupted.
  pub wait_loop-once :
      (fuel : ℕ) (c : Call) (h : History)
      → is_wait c ≡ true
      → wait_loop (suc fuel) c env h ≡ returns (env h c) ((c, env h c) ∷ h)
  unfolding wait_loop
  wait_loop-once fuel c h w = rw (wait_loop, calm h c w) refl

  pub wait_loop-live :
      {I : History → Type 0}
      → Stable I
      → (fuel : ℕ) (c : Call) → is_wait c ≡ true
      → Tidy ⊥ env I I (wait_loop (suc fuel) c)
  wait_loop-live {I} stable fuel c w = record {
    run = λ h p. rw (Leaves, wait_loop-once fuel c h w) (stable c (env h c) h (wait-quiet c w) p);
  }

  module _ (clock : Clock env) {I : History → Type 0} (stable : Stable I) where
    -- Where a wait leaves the run: with a reply that is no interruption, three days later at most.
    abbrev pub Waited : History → Outcome Reply → Type 0
    Waited h (returns r h') =
        (interrupted r ≡ false)
        × (clock.uptime h ≤ clock.uptime h')
        × (clock.uptime h' ≤ clock.uptime h + 2 ^ 28)
        × I h'
    Waited h _ = ⊥

    pub wait_nonblock-Waited :
        (fuel : ℕ) (guard : ProcessGuard) (h : History)
        → I h
        → Waited h (wait_nonblock (suc fuel) guard env h)
    unfolding wait_nonblock
    wait_nonblock-Waited fuel guard h p = by_pid (leb_ℤ guard.pid (pos 0))
      where
        c : Call
        c = wait_nohang guard.pid

        by_pid :
            (b : Bool) → Waited h ((if b then pure no_process else wait_loop (suc fuel) c) env h)
        by_pid true = (refl, omega arith, omega arith, p)
        by_pid false =
            rw (Waited, wait_loop-once fuel c h refl)
              (
                calm h c refl,
                omega (arith, clock.forward h c (env h c)),
                omega (arith, clock.steady h c (env h c)),
                stable c (env h c) h refl p,
              )

    -- A wait that is over, and what follows it.
    pub after_wait :
        {A : Type 0} (h : History) (o : Outcome Reply) (k : Reply → M A)
        → Waited h o
        → ((r : Reply) (h' : History)
            → interrupted r ≡ false
            → clock.uptime h ≤ clock.uptime h'
            → clock.uptime h' ≤ clock.uptime h + 2 ^ 28
            → I h'
            → Leaves ⊥ I (k r env h'))
        → Leaves ⊥ I (bind o (λ r h'. k r env h'))
    after_wait h (returns r h') k w f = f r h' w.0 w.1 w.2 w.3
    after_wait h (exits c h') k w f = absurd w
    after_wait h (becomes path argv h') k w f = absurd w
    after_wait h (throws e raised h') k w f = absurd w
    after_wait h (unfinished h') k w f = absurd w
