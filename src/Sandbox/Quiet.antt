-- ===== src/Sandbox/Quiet.antt =====
-- The loop, the guard and the verdict open no descriptor and make no process: whatever the quiet
-- calls leave alone, they leave alone.
use deep_oj.Common.{
  ℕ, zero, suc, ◌≡◌, refl, Bool, true, false, ◌∷◌, Bool-cases, inl, inr, ◌==◌, arith,
}
use deep_oj.Common.Int.{ℤ, pos, ltb_ℤ, eqb_ℤ}
use deep_oj.Common.Bytes.{Bytes}
use deep_oj.Types.{GlobalConfig, RunResult}
use deep_oj.Platform.{Platform}
use deep_oj.Os.{Call, Rusage, History, Environment, eintr, wait_nohang, wait_blocking, clock_ms}
use deep_oj.Os.Flow.{Outcome, returns, exits, becomes, throws, unfinished, M, failed, sys, ◌>>=◌}
use deep_oj.Os.Tidy.{
  Leaves, Tidy, Stable, is_quiet, Tidy-pure, Tidy-out_of_fuel, Tidy-bind, ◌⨟◌, Tidy-when,
  Tidy-quiet, Tidy-if, Leaves-bind,
}
use deep_oj.Sandbox.Guard
use deep_oj.Sandbox.Guard.{ProcessGuard, new_guard, interrupted}
use deep_oj.Sandbox.Watch
use deep_oj.Sandbox.Watch.{Watched, Seen, see, nothing_seen}
use deep_oj.Sandbox.Verdict
use deep_oj.Sandbox.Marker.{read_run_exec_failure_marker}

abbrev pub is_wait : Call → Bool
is_wait (wait_nohang pid) = true
is_wait (wait_blocking pid) = true
is_wait _ = false

pub wait-quiet : (c : Call) → is_wait c ≡ true → is_quiet c ≡ true
wait-quiet (wait_nohang pid) w = refl
wait-quiet (wait_blocking pid) w = refl
wait-quiet _ w = absurd (ground arith)

-- The loop of a wait, with what is said of a run that used up its fuel.
pub wait_loop-Tidy :
    {U : Type 0} {env : Environment} {I : History → Type 0}
    → U
    → Stable I
    → (fuel : ℕ) (c : Call) → is_wait c ≡ true
    → Tidy U env I I (Guard.wait_loop fuel c)
unfolding Guard.wait_loop
wait_loop-Tidy {U} {env} {I} u stable fuel c w = record { run = go fuel }
  where
    go : (n : ℕ) (h : History) → I h → Leaves U I (Guard.wait_loop n c env h)
    go zero h p = u
    go (suc n) h p = elim (Bool-cases (interrupted (env h c))) [
      | inl e ↦
          rw (Guard.wait_loop, e)
            (go n ((c, env h c) ∷ h) (stable c (env h c) h (wait-quiet c w) p))
      | inr e ↦ rw (Guard.wait_loop, e) (stable c (env h c) h (wait-quiet c w) p)
    ]

-- The scope of a guard, where its destructor keeps the invariant.
pub guarded-By :
    {U : Type 0} {env : Environment} {I : History → Type 0} (fuel : ℕ)
    → ((guard : ProcessGuard) → Tidy U env I I (Guard.cleanup fuel guard))
    → {A : Type 0} (pid : ℤ) {body : M (A × ProcessGuard)} → Tidy U env I I body
    → Tidy U env I I (Guard.guarded fuel pid body)
unfolding Guard.guarded
guarded-By {U} {env} {I} fuel cleans {A} pid {body} d = record {
  run = λ h p. go (body env h) (d.run h p);
}
  where
    go :
        (o : Outcome (A × ProcessGuard))
        → Leaves U I o
        → Leaves U I (Guard.leave_guard fuel (new_guard pid) o env)
    go (returns (a, g) h) p =
        Leaves-bind U I (Guard.cleanup fuel g env h) (λ _ h'. returns a h') ((cleans g).run h p)
          (λ _ h' q. q)
    go (exits c h) p = p
    go (becomes path argv h) p = p
    go (throws e raised h) p =
        Leaves-bind U I (Guard.cleanup fuel (new_guard pid) env h) (λ _ h'. throws e raised h')
          ((cleans (new_guard pid)).run h p) (λ _ h' q. q)
    go (unfinished h) p = p

module _ {U : Type 0} {env : Environment} {I : History → Type 0} (stable : Stable I) (fuel : ℕ)
    (waits : (c : Call) → is_wait c ≡ true → Tidy U env I I (Guard.wait_loop fuel c)) where
  module _ (guard : ProcessGuard) where
    pub wait_nonblock-Tidy : Tidy U env I I (Guard.wait_nonblock fuel guard)
    unfolding Guard.wait_nonblock
    wait_nonblock-Tidy = Tidy-if _ (Tidy-pure _) (waits _ refl)

    pub wait-Tidy : Tidy U env I I (Guard.wait fuel guard)
    unfolding Guard.wait
    wait-Tidy = Tidy-if _ (Tidy-pure _) (waits _ refl)

    pub kill_process-Tidy : Tidy U env I I (Guard.kill_process fuel guard)
    unfolding Guard.kill_process
    kill_process-Tidy =
        Tidy-if _ (Tidy-pure _) (Tidy-bind (Tidy-quiet stable _ refl) (λ r. Tidy-pure _))

    pub cleanup-Tidy : Tidy U env I I (Guard.cleanup fuel guard)
    unfolding Guard.cleanup
    cleanup-Tidy = Tidy-if _ (Tidy-pure tt) (
        Tidy-bind (waits _ refl)
          (λ w. Tidy-when _ (Tidy-quiet stable _ refl ⨟ waits _ refl ⨟ Tidy-pure tt)))

    pub stop-Tidy : (seen : Seen) → Tidy U env I I (Watch.stop fuel guard seen)
    unfolding Watch.stop
    stop-Tidy seen = kill_process-Tidy ⨟ Tidy-bind wait-Tidy (λ r. Tidy-pure _)

  pub guarded-Tidy :
      {A : Type 0} (pid : ℤ) {body : M (A × ProcessGuard)}
      → Tidy U env I I body
      → Tidy U env I I (Guard.guarded fuel pid body)
  guarded-Tidy pid d = guarded-By fuel cleanup-Tidy pid d

  module _ (p : Platform) (t m start : ℤ) where
    pub stop_for_memory-Tidy :
        (guard : ProcessGuard) (seen : Seen)
        → Tidy U env I I (Watch.stop_for_memory p fuel t m start guard seen)
    unfolding Watch.stop_for_memory
    stop_for_memory-Tidy guard seen =
        Tidy-bind (stop-Tidy guard seen)
          (λ after. Tidy-bind (Tidy-quiet stable _ refl) (λ now. Tidy-pure _))

    pub stop_for_time-Tidy :
        (guard : ProcessGuard) (seen : Seen) (elapsed_ms : ℤ)
        → Tidy U env I I (Watch.stop_for_time p fuel t m start guard seen elapsed_ms)
    unfolding Watch.stop_for_time
    stop_for_time-Tidy guard seen elapsed_ms =
        Tidy-bind (stop-Tidy guard seen) (λ after. Tidy-pure _)

    pub watch-Tidy :
        U
        → (rounds : ℕ) (guard : ProcessGuard) (seen : Seen)
        → Tidy U env I I (Watch.watch p fuel t m start rounds guard seen)
    unfolding Watch.watch Watch.watch_reply
    watch-Tidy u zero guard seen = Tidy-out_of_fuel u
    watch-Tidy u (suc rounds) guard seen = Tidy-bind (wait_nonblock-Tidy guard) (λ r.
        let seen' = see r seen in
        Tidy-if (failed r)
          (Tidy-if (r.errno == eintr) (watch-Tidy u rounds guard seen') (Tidy-pure _))
          (Tidy-if (eqb_ℤ r.ret (pos 0))
            (Tidy-if (ltb_ℤ m seen'.usage.maxrss) (stop_for_memory-Tidy guard seen') (
              Tidy-bind (Tidy-quiet stable _ refl) (λ now.
                Tidy-if _ (stop_for_time-Tidy guard seen' _)
                  (Tidy-quiet stable _ refl ⨟ watch-Tidy u rounds guard seen'))))
            (Tidy-pure _)))

-- What the loops of `Run` leave alone: the waits, and the watching from the start of the clock on.
pub record Loops (U : Type 0) (env : Environment) (fuel : ℕ) (p : Platform) (t m : ℤ) : Type 1 where
  pub waits :
      (I : History → Type 0)
      → Stable I
      → (c : Call) → is_wait c ≡ true
      → Tidy U env I I (Guard.wait_loop fuel c)
  pub watches :
      (I : History → Type 0)
      → Stable I
      → (pid : ℤ) (k : Watched × ProcessGuard → M (RunResult × ProcessGuard))
      → ((w : Watched × ProcessGuard) → Tidy U env I I (k w))
      → Tidy U env I I (
          sys clock_ms >>= λ start.
          (Watch.watch p fuel t m start.ret fuel (new_guard pid) nothing_seen >>= k))

-- Where nothing is said of a run without fuel, they do so in every environment.
pub any-Loops :
    (env : Environment) (fuel : ℕ) (p : Platform) (t m : ℤ) → Loops (Unit {0}) env fuel p t m
any-Loops env fuel p t m = record {
  waits = λ I stable c w. wait_loop-Tidy tt stable fuel c w;
  watches = λ I stable pid k dk. Tidy-bind (Tidy-quiet stable _ refl) (λ start.
      Tidy-bind
        (watch-Tidy stable fuel (wait_loop-Tidy tt stable fuel) p t m start.ret tt fuel
          (new_guard pid) _)
        dk);
}

module _ {U : Type 0} {env : Environment} {I : History → Type 0} (stable : Stable I) where
  output_size-Tidy : (p : Platform) (path : Bytes) → Tidy U env I I (Verdict.output_size p path)
  unfolding Verdict.output_size
  output_size-Tidy p path = Tidy-bind (Tidy-quiet stable _ refl) (λ there.
      Tidy-if _ (Tidy-bind (Tidy-quiet stable _ refl) (λ size. Tidy-pure _)) (Tidy-pure _))

  read_run_exec_failure_marker-Tidy :
      (path : Bytes) → Tidy U env I I (read_run_exec_failure_marker path)
  unfolding read_run_exec_failure_marker
  read_run_exec_failure_marker-Tidy path =
      Tidy-if _ (Tidy-pure _)
        (Tidy-bind (Tidy-quiet stable _ refl) (λ r. Tidy-if _ (Tidy-pure _) (Tidy-pure _)))

  pub assess-Tidy :
      (p : Platform) (g : GlobalConfig) (t m : ℤ) (out err : Bytes) (status : ℕ) (u : Rusage)
      (result : RunResult)
      → Tidy U env I I (Verdict.assess p g t m out err status u result)
  unfolding Verdict.assess
  assess-Tidy p g t m out err status u result = Tidy-bind (output_size-Tidy p out) (λ size.
      Tidy-if (Verdict.over_limit p g size) (Tidy-pure _) (
        Tidy-if (ltb_ℤ m result.memory_used) (Tidy-pure _)
          (Tidy-bind (read_run_exec_failure_marker-Tidy err) (λ marker. Tidy-pure _))))
