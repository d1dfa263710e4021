-- ===== src/Sandbox/Reaping.antt =====
-- The guard of a child leaves no child behind that nobody waits for.
use deep_oj.Common.{
  ℕ, zero, suc, ◌≡◌, refl, Bool, true, false, ◌∷◌, Bool-cases, inl, inr, arith, if◌then◌else◌, [],
}
use deep_oj.Common.Int.{ℤ, pos, negsuc, ltb_ℤ, leb_ℤ, eqb_ℤ}
use deep_oj.Common.Bytes.{Bytes}
use deep_oj.Os.{
  clone_run, clone_compile, Call, Reply, History, Environment, wait_nohang, wait_blocking, kill,
  sigkill,
}
use deep_oj.Os.Flow
use deep_oj.Os.Flow.{
  Outcome, returns, exits, becomes, throws, unfinished, M, failed, ◌>>=◌, ◌>>◌, pure, sys, skip,
}
use deep_oj.Os.Tidy.{Leaves, Leaves-bind, Tidy-if, Tidy-pure, Tidy}
use deep_oj.Os.Yields.{Gives, Yields, Yields-pure, Yields-pre, Yields-quiet, Yields-bind}
use deep_oj.Os.Orphans.{
  makes_child, orphans, children_after, without, without_self, Settled, Owed, Settled-Stable,
  Owed-Stable,
}
use deep_oj.Sandbox.Guard
use deep_oj.Sandbox.Guard.{ProcessGuard, new_guard, interrupted}
use deep_oj.Sandbox.Quiet.{wait_loop-Tidy, guarded-Tidy, cleanup-Tidy}

-- A run that begins where the child may still be there, and may throw with `T`.
abbrev pub Reaps :
    {A : Type 0} → Environment → ℤ → (History → Type 0) → (A → History → Type 0) → M A → Type 0
Reaps env pid T P m = Yields Unit env T (Owed pid) P m

-- Behind a wait with an answer the child is gone.
answered :
    (pid : ℤ) (c : Call) (r : Reply) (h : History)
    → children_after c r (orphans h) ≡ without pid (orphans h)
    → Owed pid h
    → Settled ((c, r) ∷ h)
answered pid c r h e o = rw e (without_self pid (orphans h) o)

module _ (env : Environment) (pid : ℤ) (T : History → Type 0) where
  -- A wait that blocks has an answer when it comes back.
  pub blocking-Reaps :
      (fuel : ℕ) → Reaps env pid T (λ r. Settled) (Guard.wait_loop fuel (wait_blocking pid))
  unfolding Guard.wait_loop
  blocking-Reaps fuel = record { run = go fuel }
    where
      go :
          (n : ℕ) (h : History)
          → Owed pid h
          → Gives Unit T (λ r. Settled) (Guard.wait_loop n (wait_blocking pid) env h)
      go zero h o = tt
      go (suc n) h o =
          let c = wait_blocking pid in
          let r = env h c in
          elim (Bool-cases (interrupted r)) [
            | inl e ↦ rw (Guard.wait_loop, e) (go n ((c, r) ∷ h) (Owed-Stable pid c r h refl o))
            | inr e ↦ rw (Guard.wait_loop, e) (answered pid c r h (rw e) o)
          ]

  -- A wait that does not block has one unless it gives 0.
  pub nohang-Reaps :
      (fuel : ℕ)
      → Reaps env pid T
          (λ r h. Owed pid h × (eqb_ℤ r.ret (pos 0) ≡ false → Settled h))
          (Guard.wait_loop fuel (wait_nohang pid))
  unfolding Guard.wait_loop
  nohang-Reaps fuel = record { run = go fuel }
    where
      go :
          (n : ℕ) (h : History)
          → Owed pid h
          → Gives Unit T
              (λ r h. Owed pid h × (eqb_ℤ r.ret (pos 0) ≡ false → Settled h))
              (Guard.wait_loop n (wait_nohang pid) env h)
      go zero h o = tt
      go (suc n) h o =
          let c = wait_nohang pid in
          let r = env h c in
          elim (Bool-cases (interrupted r)) [
            | inl e ↦ rw (Guard.wait_loop, e) (go n ((c, r) ∷ h) (Owed-Stable pid c r h refl o))
            | inr e ↦
                rw (Guard.wait_loop, e)
                  (Owed-Stable pid c r h refl o, λ z. answered pid c r h (rw (e, z)) o)
          ]

  module _ (alive : leb_ℤ pid (pos 0) ≡ false) (fuel : ℕ) where
    pub wait-Reaps : Reaps env pid T (λ r. Settled) (Guard.wait fuel (new_guard pid))
    unfolding Guard.wait
    wait-Reaps = rw alive (blocking-Reaps fuel)

    pub wait_nonblock-Reaps :
        Reaps env pid T
          (λ r h. Owed pid h × (eqb_ℤ r.ret (pos 0) ≡ false → Settled h))
          (Guard.wait_nonblock fuel (new_guard pid))
    unfolding Guard.wait_nonblock
    wait_nonblock-Reaps = rw alive (nohang-Reaps fuel)

    kill_process-Reaps : Reaps env pid T (λ b. Owed pid) (Guard.kill_process fuel (new_guard pid))
    unfolding Guard.kill_process
    kill_process-Reaps =
        rw alive
          (Yields-bind _ (Yields-quiet (Owed-Stable pid) _ refl) (λ r. Yields-pure _ (λ h o. o)))

    -- Killed and waited for.
    pub kill_wait-Reaps :
        {A : Type 0} (f : Reply → A)
        → Reaps env pid T
            (λ a. Settled)
            (do
              Guard.kill_process fuel (new_guard pid)
              r ← Guard.wait fuel (new_guard pid)
              pure (f r))
    kill_wait-Reaps f =
        Yields-bind _ kill_process-Reaps
          (λ b. Yields-bind _ wait-Reaps (λ r. Yields-pure (f r) (λ h s. s)))

    -- Where the child has not been settled, the destructor of the guard does it.
    cleanup-Reaps : Reaps env pid T (λ u. Settled) (Guard.cleanup fuel (new_guard pid))
    unfolding Guard.cleanup
    cleanup-Reaps =
        rw alive (Yields-bind _ (nohang-Reaps fuel) (λ w. by_answer w (eqb_ℤ w.ret (pos 0)) refl))
      where
        by_answer :
            (w : Reply) (b : Bool)
            → eqb_ℤ w.ret (pos 0) ≡ b
            → Yields Unit env T
                (λ h. Owed pid h × (eqb_ℤ w.ret (pos 0) ≡ false → Settled h))
                (λ u. Settled)
                (Flow.when b
                  (do sys (kill pid sigkill); Guard.wait_loop fuel (wait_blocking pid); skip))
        by_answer w true e =
            Yields-pre (λ h k. k.0)
              (Yields-bind _ (Yields-quiet (Owed-Stable pid) _ refl)
                (λ r. Yields-bind _ (blocking-Reaps fuel) (λ r. Yields-pure tt (λ h s. s))))
        by_answer w false e = Yields-pure tt (λ h k. k.1 e)

-- The scope of the guard, for a body that has waited for the child when it returns.
pub guarded-Reaps :
    (env : Environment) (pid : ℤ)
    → leb_ℤ pid (pos 0) ≡ false
    → (fuel : ℕ) {A : Type 0} {body : M (A × ProcessGuard)}
    → Reaps env pid (Owed pid) (λ a. Settled) body
    → Tidy Unit env (Owed pid) Settled (Guard.guarded fuel pid body)
unfolding Guard.guarded
guarded-Reaps env pid alive fuel {A} {body} y = record { run = λ h o. go (body env h) (y.run h o) }
  where
    thrown :
        (x : Bytes) (raised : History) (o : Outcome (Unit {0}))
        → Gives Unit Settled (λ u. Settled) o
        → Leaves Unit Settled (Flow.bind {B = A} o (λ _ h'. throws x raised h'))
    thrown x raised (returns u h) s = s
    thrown x raised (exits c h) s = s
    thrown x raised (becomes path argv h) s = s
    thrown x raised (throws e since h) s = s
    thrown x raised (unfinished h) s = tt

    go :
        (o : Outcome (A × ProcessGuard))
        → Gives Unit (Owed pid) (λ a. Settled) o
        → Leaves Unit Settled (Guard.leave_guard fuel (new_guard pid) o env)
    go (returns (a, g) h) s =
        Leaves-bind Unit Settled (Guard.cleanup fuel g env h) (λ _ h'. returns a h')
          ((cleanup-Tidy Settled-Stable fuel (wait_loop-Tidy tt Settled-Stable fuel) g).run h s)
          (λ _ h' q. q)
    go (exits c h) s = s
    go (becomes path argv h) s = s
    go (throws x raised h) o =
        thrown x raised (Guard.cleanup fuel (new_guard pid) env h)
          ((cleanup-Reaps env pid Settled alive fuel).run h o)
    go (unfinished h) s = tt

-- What a clone leaves: the new child, if there is one.
clone-orphans :
    (c : Call) (r : Reply) (h : History)
    → makes_child c ≡ true
    → orphans ((c, r) ∷ h) ≡ (if ltb_ℤ (pos 0) r.ret then r.ret ∷ orphans h else orphans h)
clone-orphans (clone_run args) r h m = refl
clone-orphans (clone_compile args) r h m = refl
clone-orphans _ r h m = absurd (ground arith)

-- A clone, and the scope of the guard behind it.
pub cloned-Tidy :
    {A : Type 0} (env : Environment) (fuel : ℕ) (c : Call)
    → makes_child c ≡ true
    → (lost : Reply → A) (body : ℤ → M (A × ProcessGuard))
    → ((pid : ℤ) → leb_ℤ pid (pos 0) ≡ false → Reaps env pid (Owed pid) (λ a. Settled) (body pid))
    → ((pid : ℤ) → Tidy Unit env Settled Settled (body pid))
    → Tidy Unit env Settled Settled (
        sys c >>= λ r.
        if eqb_ℤ r.ret (negsuc 0) then pure (lost r) else Guard.guarded fuel r.ret (body r.ret))
unfolding ◌>>=◌ sys
cloned-Tidy {A} env fuel c m lost body reaps keeps = record {
  run = λ h s. go h s (env h c) (leb_ℤ (env h c).ret (pos 0)) refl;
}
  where
    go :
        (h : History)
        → Settled h
        → (r : Reply) (none_there : Bool) → leb_ℤ r.ret (pos 0) ≡ none_there
        → Leaves Unit Settled (
            (if eqb_ℤ r.ret (negsuc 0)
                then pure (lost r)
                else Guard.guarded fuel r.ret (body r.ret))
              env
              ((c, r) ∷ h))
    go h s r true e =
        let nobody : Settled ((c, r) ∷ h) = ground (arith, clone-orphans c r h m, e, s) in
        (Tidy-if (eqb_ℤ r.ret (negsuc 0)) (Tidy-pure (lost r)) (
            guarded-Tidy Settled-Stable fuel (wait_loop-Tidy tt Settled-Stable fuel) r.ret
              (keeps r.ret))).run
          ((c, r) ∷ h) nobody
    go h s r false e =
        let child : orphans ((c, r) ∷ h) ≡ r.ret ∷ [] =
          ground (arith, clone-orphans c r h m, e, s) in
        let there : eqb_ℤ r.ret (negsuc 0) ≡ false = ground (arith, e) in
        rw there ((guarded-Reaps env r.ret e fuel (reaps r.ret e)).run ((c, r) ∷ h) (inl child))
