-- ===== src/Os/Yields.antt =====
-- Runs of the parent with a postcondition on what they return.
use deep_oj.Common.{◌≡◌, refl, Bool, true, false, if◌then◌else◌}
use deep_oj.Common.Bytes.{Bytes}
use deep_oj.Os.Calls.{Call, History, Environment}
use deep_oj.Os.Flow.{
  Outcome, returns, exits, becomes, throws, unfinished, M, pure, bind, ◌>>=◌, leave, scoped, sys,
}
use deep_oj.Os.Tidy.{Leaves, Tidy, Stable, is_quiet}

-- Where a run of the parent ends, with what it gives.
abbrev pub Gives :
    {A : Type 0} → Type 0 → (History → Type 0) → (A → History → Type 0) → Outcome A → Type 0
Gives U T P (returns a h) = P a h
Gives U T P (exits c h) = ⊥
Gives U T P (becomes path argv h) = ⊥
Gives U T P (throws e raised h) = T h
Gives U T P (unfinished h) = U

-- From a history with `I` the run gives a value with `P`, or throws with `T`.
pub record Yields {A : Type 0} (U : Type 0) (env : Environment) (T I : History → Type 0)
    (P : A → History → Type 0) (m : M A) : Type 0 where
  pub run : (h : History) → I h → Gives U T P (m env h)

pub Gives-then :
    {A B : Type 0} (U : Type 0) (T : History → Type 0) (P : A → History → Type 0)
    (Q : B → History → Type 0) (o : Outcome A) (k : A → History → Outcome B)
    → Gives U T P o
    → ((a : A) (h : History) → P a h → Gives U T Q (k a h))
    → Gives U T Q (bind o k)
Gives-then U T P Q (returns a h) k p f = f a h p
Gives-then U T P Q (exits c h) k p f = p
Gives-then U T P Q (becomes path argv h) k p f = p
Gives-then U T P Q (throws e raised h) k p f = p
Gives-then U T P Q (unfinished h) k p f = p

module _ {U : Type 0} {env : Environment} {T : History → Type 0} where
  pub Yields-pure :
      {A : Type 0} {I : History → Type 0} {P : A → History → Type 0} (a : A)
      → ((h : History) → I h → P a h)
      → Yields U env T I P (pure a)
  Yields-pure a f = record { run = f }

  pub Yields-bind :
      {A B : Type 0} {I : History → Type 0} (P : A → History → Type 0) {Q : B → History → Type 0}
      {m : M A} {f : A → M B}
      → Yields U env T I P m
      → ((a : A) → Yields U env T (P a) Q (f a))
      → Yields U env T I Q (m >>= f)
  unfolding ◌>>=◌
  Yields-bind P {Q} {m} {f} dm df = record {
    run = λ h i.
        Gives-then U T P Q (m env h) (λ a h'. f a env h') (dm.run h i) (λ a h' p. (df a).run h' p);
  }

  pub Yields-if :
      {A : Type 0} {I : History → Type 0} {P : A → History → Type 0} (b : Bool) {m k : M A}
      → (b ≡ true → Yields U env T I P m)
      → (b ≡ false → Yields U env T I P k)
      → Yields U env T I P (if b then m else k)
  Yields-if true t f = t refl
  Yields-if false t f = f refl

  pub Yields-quiet :
      {J : History → Type 0}
      → Stable J
      → (c : Call) → is_quiet c ≡ true
      → Yields U env T J (λ _. J) (sys c)
  unfolding sys
  Yields-quiet stable c q = record { run = λ h j. stable c (env h c) h q j }

  pub Yields-pre :
      {A : Type 0} {I J : History → Type 0} {P : A → History → Type 0} {m : M A}
      → ((h : History) → I h → J h)
      → Yields U env T J P m
      → Yields U env T I P m
  Yields-pre f y = record { run = λ h i. y.run h (f h i) }

  pub Yields-post :
      {A : Type 0} {I : History → Type 0} (P : A → History → Type 0) {R : A → History → Type 0}
      {m : M A}
      → Yields U env T I P m
      → ((a : A) (h : History) → P a h → R a h)
      → Yields U env T I R m
  Yields-post {A} {I} P {R} {m} y f = record { run = λ h i. go (m env h) (y.run h i) }
    where
      go : (o : Outcome A) → Gives U T P o → Gives U T R o
      go (returns a h) p = f a h p
      go (exits c h) p = p
      go (becomes path argv h) p = p
      go (throws e raised h) p = p
      go (unfinished h) p = p

  -- A run that keeps an invariant.
  pub Yields-Tidy :
      {A : Type 0} {J : History → Type 0} {m : M A}
      → ((h : History) → J h → T h)
      → Tidy U env J J m
      → Yields U env T J (λ _. J) m
  Yields-Tidy {A} {J} {m} weaken d = record { run = λ h i. go (m env h) (d.run h i) }
    where
      go : (o : Outcome A) → Leaves U J o → Gives U T (λ _. J) o
      go (returns a h) p = p
      go (exits c h) p = p
      go (becomes path argv h) p = p
      go (throws e raised h) p = weaken h p
      go (unfinished h) p = p

  -- A scope whose destructor keeps both what is returned with and what is thrown with.
  pub Yields-scoped :
      {A : Type 0} {I J : History → Type 0} {m : M A} {d : M (Unit {0})}
      → ((h : History) → J h → T h)
      → Yields U env T I (λ _. J) m
      → Tidy U env J J d
      → Tidy U env T T d
      → Yields U env T I (λ _. J) (scoped m d)
  Yields-scoped {A} {I} {J} {m} {d} weaken dm dj dt = record {
    run = λ h i. go (m env h) (dm.run h i);
  }
    where
      after_return :
          (a : A) (o : Outcome (Unit {0}))
          → Leaves U J o
          → Gives U T (λ (b : A). J) (bind o (λ _ h. returns a h))
      after_return a (returns u h) p = p
      after_return a (exits c h) p = p
      after_return a (becomes path argv h) p = p
      after_return a (throws e raised h) p = weaken h p
      after_return a (unfinished h) p = p

      after_throw :
          (x : Bytes) (raised : History) (o : Outcome (Unit {0}))
          → Leaves U T o
          → Gives U T (λ (b : A). J) (bind o (λ _ h. throws x raised h))
      after_throw x raised (returns u h) p = p
      after_throw x raised (exits c h) p = p
      after_throw x raised (becomes path argv h) p = p
      after_throw x raised (throws e since h) p = p
      after_throw x raised (unfinished h) p = p

      go : (o : Outcome A) → Gives U T (λ _. J) o → Gives U T (λ _. J) (leave o d env)
      go (returns a h) p = after_return a (d env h) (dj.run h p)
      go (exits c h) p = p
      go (becomes path argv h) p = p
      go (throws e raised h) p = after_throw e raised (d env h) (dt.run h p)
      go (unfinished h) p = p

-- A run that yields nothing but the invariant with which it may also throw.
pub Tidy-Yields :
    {A : Type 0} {U : Type 0} {env : Environment} {I J : History → Type 0} {m : M A}
    → Yields U env J I (λ _. J) m
    → Tidy U env I J m
Tidy-Yields {A} {U} {env} {I} {J} {m} y = record { run = λ h i. go (m env h) (y.run h i) }
  where
    go : (o : Outcome A) → Gives U J (λ _. J) o → Leaves U J o
    go (returns a h) p = p
    go (exits c h) p = p
    go (becomes path argv h) p = p
    go (throws e raised h) p = p
    go (unfinished h) p = p
