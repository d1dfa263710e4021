-- ===== src/Os/Trace.antt =====
-- What a history shows: calls that succeeded, in order. A program's triple says which calls have
-- succeeded when it returns, with which codes it can exit, and that it ends in no other way.
use deep_oj.Common.{ℕ, ◌≡◌, Bool, true, false, List, [], ◌∷◌, arith, Bool-cases, inl, inr}
use deep_oj.Common.Bytes.{Bytes}
use deep_oj.Os.Sweeps.{all_closed}
use deep_oj.Os.Calls.{close_range_from, Call, Reply, History, Environment}
use deep_oj.Os.Flow.{
  Outcome, returns, exits, becomes, throws, unfinished, M, pure, bind, ◌>>=◌, ◌>>◌, exit, sys, when,
  failed, nonzero, or_exit, zero_or_exit,
}

-- The calls of the list were made and succeeded, the last one of the history first.
pub data Performed : List Call → History → Type 0 where
  start : {h : History} → Performed [] h
  later :
      {cs : List Call} {h : History} (c : Call) (r : Reply)
      → Performed cs h
      → Performed cs ((c, r) ∷ h)
  did :
      {cs : List Call} {h : History} (c : Call) (r : Reply)
      → failed r ≡ false
      → Performed cs h
      → Performed (c ∷ cs) ((c, r) ∷ h)
  -- Instead of the one call that closes them all, each descriptor was closed on its own, with any result.
  swept :
      {cs : List Call} {h : History}
      → all_closed h ≡ true
      → Performed cs h
      → Performed (close_range_from 3 ∷ cs) h

module _ (E : ℕ → Type 0) (X : Bytes → List Bytes → History → Type 0) where
  -- The end of a run: a return with `Q`, an exit with a code in `E`, or a program with `X`.
  abbrev pub Post : {A : Type 0} → (A → History → Type 0) → Outcome A → Type 0
  Post Q (returns a h) = Q a h
  Post Q (exits c h) = E c
  Post Q (becomes path argv h) = X path argv h
  Post Q (throws e raised h) = ⊥
  Post Q (unfinished h) = ⊥

  pub Post-bind :
      {A B : Type 0} (Q : A → History → Type 0) (R : B → History → Type 0) (o : Outcome A)
      (k : A → History → Outcome B)
      → Post Q o
      → ((a : A) (h : History) → Q a h → Post R (k a h))
      → Post R (bind o k)
  Post-bind Q R (returns a h) k q f = f a h q
  Post-bind Q R (exits c h) k q f = q
  Post-bind Q R (becomes path argv h) k q f = q
  Post-bind Q R (throws e raised h) k q f = q
  Post-bind Q R (unfinished h) k q f = q

module _ (env : Environment) (E : ℕ → Type 0) (X : Bytes → List Bytes → History → Type 0) where
  -- If `cs` has been performed before, then `ds` has been when the program returns.
  pub record Does {A : Type 0} (cs ds : List Call) (m : M A) : Type 0 where
    pub run : (h : History) → Performed cs h → Post E X (λ _ h'. Performed ds h') (m env h)

  -- From there the run never returns: it exits with a code in `E`, or becomes a program with `X`.
  pub record Ends {A : Type 0} (cs : List Call) (m : M A) : Type 0 where
    pub run : (h : History) → Performed cs h → Post E X (λ _ _. ⊥) (m env h)

module _ {env : Environment} {E : ℕ → Type 0} {X : Bytes → List Bytes → History → Type 0} where
  pub Does-pure : {A : Type 0} {cs : List Call} (a : A) → Does env E X cs cs (pure a)
  Does-pure a = record { run = λ h p. p }

  pub Does-exit :
      {A : Type 0} {cs ds : List Call} (c : ℕ) → E c → Does env E X cs ds (exit {A = A} c)
  Does-exit c e = record { run = λ h p. e }

  pub Does-sys : {cs : List Call} (c : Call) → Does env E X cs cs (sys c)
  unfolding sys
  Does-sys c = record { run = λ h p. later c (env h c) p }

  pub Does-bind :
      {A B : Type 0} {m : M A} {f : A → M B} {cs ds es : List Call}
      → Does env E X cs ds m
      → ((a : A) → Does env E X ds es (f a))
      → Does env E X cs es (m >>= f)
  unfolding ◌>>=◌
  Does-bind {m} {f} {ds} {es} dm df = record {
    run = λ h p.
        Post-bind E X (λ _ h'. Performed ds h') (λ _ h'. Performed es h') (m env h)
          (λ a h'. f a env h') (dm.run h p) (λ a h' q. (df a).run h' q);
  }

  pub Does-when :
      {cs : List Call} (b : Bool) {m : M (Unit {0})}
      → Does env E X cs cs m
      → Does env E X cs cs (when b m)
  Does-when true d = d
  Does-when false d = Does-pure tt

  -- A call whose bad replies send the program to an end: past it, the call has succeeded.
  pub Does-check :
      {cs : List Call} (c : Call) (bad : Reply → Bool) {m : Reply → M (Unit {0})}
      → ((r : Reply) → bad r ≡ false → failed r ≡ false)
      → ((r : Reply) → Does env E X cs (c ∷ cs) (m r))
      → Does env E X cs (c ∷ cs) (sys c >>= λ r. when (bad r) (m r))
  unfolding ◌>>=◌
  Does-check c bad {m} sound d = record {
    run = λ h p.
        let r = env h c in
        elim (Bool-cases (bad r)) [
          | inl e ↦ rw e ((d r).run ((c, r) ∷ h) (later c r p))
          | inr e ↦ rw e (did c r (sound r e) p)
        ];
  }

  pub Does-or_exit :
      {cs : List Call} (c : Call) (n : ℕ) → E n → Does env E X cs (c ∷ cs) (or_exit c n)
  unfolding or_exit
  Does-or_exit c n e = Does-check c failed (λ r x. x) (λ r. Does-exit n e)

  pub Does-zero_or_exit :
      {cs : List Call} (c : Call) (n : ℕ) → E n → Does env E X cs (c ∷ cs) (zero_or_exit c n)
  unfolding zero_or_exit
  Does-zero_or_exit c n e = Does-check c nonzero (λ r x. ground arith) (λ r. Does-exit n e)

  -- One statement after another.
  infixr 6 ◌⨾◌
  pub ◌⨾◌ :
      {A B : Type 0} {m : M A} {k : M B} {cs ds es : List Call}
      → Does env E X cs ds m
      → Does env E X ds es k
      → Does env E X cs es (m >> k)
  d ⨾ e = Does-bind d (λ _. e)

  pub Ends-exit : {A : Type 0} {cs : List Call} (c : ℕ) → E c → Ends env E X cs (exit {A = A} c)
  Ends-exit c e = record { run = λ h p. e }

  pub Ends-bind :
      {A B : Type 0} {m : M A} {f : A → M B} {cs ds : List Call}
      → Does env E X cs ds m
      → ((a : A) → Ends env E X ds (f a))
      → Ends env E X cs (m >>= f)
  unfolding ◌>>=◌
  Ends-bind {m} {f} {ds} dm df = record {
    run = λ h p.
        Post-bind E X (λ _ h'. Performed ds h') (λ _ _. ⊥) (m env h) (λ a h'. f a env h')
          (dm.run h p) (λ a h' q. (df a).run h' q);
  }

  infixr 6 ◌⨾!◌
  pub ◌⨾!◌ :
      {A B : Type 0} {m : M A} {k : M B} {cs ds : List Call}
      → Does env E X cs ds m
      → Ends env E X ds k
      → Ends env E X cs (m >> k)
  d ⨾! e = Ends-bind d (λ _. e)
