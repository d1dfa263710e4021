-- ===== src/Os/Tidy.antt =====
-- Invariants of the parent's history. The parent only returns or throws; a loop without fuel is
-- left to the theorems on termination.
use deep_oj.Common.{if◌then◌else◌, ◌≡◌, Bool, true, false, ◌∷◌}
use deep_oj.Common.Bytes.{Bytes}
use deep_oj.Os.Calls.{
  Call, open_file, dup, dup2, close, clone_run, clone_compile, Reply, History, Environment,
}
use deep_oj.Os.Flow.{
  Outcome, returns, exits, becomes, throws, unfinished, M, pure, bind, ◌>>=◌, ◌>>◌, sys, when,
  throw, out_of_fuel,
}

-- Where a run that keeps to itself can end: with `J` behind it.
abbrev pub Leaves : {A : Type 0} → Type 0 → (History → Type 0) → Outcome A → Type 0
Leaves U J (returns a h) = J h
Leaves U J (exits c h) = ⊥
Leaves U J (becomes path argv h) = ⊥
Leaves U J (throws e raised h) = J h
Leaves U J (unfinished h) = U

pub record Tidy {A : Type 0} (U : Type 0) (env : Environment) (I J : History → Type 0) (m : M A)
    : Type 0 where
  pub run : (h : History) → I h → Leaves U J (m env h)

-- A call that neither opens nor closes a descriptor, nor makes a process.
abbrev pub is_quiet : Call → Bool
is_quiet (open_file path flags mode) = false
is_quiet (dup fd) = false
is_quiet (dup2 fd n) = false
is_quiet (close fd) = false
is_quiet (clone_run args) = false
is_quiet (clone_compile args) = false
is_quiet _ = true

abbrev pub Stable : (History → Type 0) → Type 0
Stable I = (c : Call) (r : Reply) (h : History) → is_quiet c ≡ true → I h → I ((c, r) ∷ h)

pub Leaves-bind :
    {A B : Type 0} (U : Type 0) (I : History → Type 0) (o : Outcome A) (k : A → History → Outcome B)
    → Leaves U I o
    → ((a : A) (h : History) → I h → Leaves U I (k a h))
    → Leaves U I (bind o k)
Leaves-bind U I (returns a h) k p f = f a h p
Leaves-bind U I (exits c h) k p f = p
Leaves-bind U I (becomes path argv h) k p f = p
Leaves-bind U I (throws e raised h) k p f = p
Leaves-bind U I (unfinished h) k p f = p

module _ {U : Type 0} {env : Environment} {I : History → Type 0} where
  pub Tidy-pure : {A : Type 0} (a : A) → Tidy U env I I (pure a)
  Tidy-pure a = record { run = λ h p. p }

  pub Tidy-throw : {A : Type 0} (e : Bytes) → Tidy U env I I (throw {A = A} e)
  Tidy-throw e = record { run = λ h p. p }

  pub Tidy-out_of_fuel : {A : Type 0} → U → Tidy U env I I (out_of_fuel {A = A})
  Tidy-out_of_fuel u = record { run = λ h p. u }

  pub Tidy-bind :
      {A B : Type 0} {m : M A} {f : A → M B}
      → Tidy U env I I m
      → ((a : A) → Tidy U env I I (f a))
      → Tidy U env I I (m >>= f)
  unfolding ◌>>=◌
  Tidy-bind {m} {f} dm df = record {
    run = λ h p.
        Leaves-bind U I (m env h) (λ a h'. f a env h') (dm.run h p) (λ a h' q. (df a).run h' q);
  }

  infixr 6 ◌⨟◌
  pub ◌⨟◌ :
      {A B : Type 0} {m : M A} {k : M B}
      → Tidy U env I I m
      → Tidy U env I I k
      → Tidy U env I I (m >> k)
  d ⨟ e = Tidy-bind d (λ _. e)

  pub Tidy-when : (b : Bool) {m : M (Unit {0})} → Tidy U env I I m → Tidy U env I I (when b m)
  Tidy-when true d = d
  Tidy-when false d = Tidy-pure tt

  pub Tidy-quiet : Stable I → (c : Call) → is_quiet c ≡ true → Tidy U env I I (sys c)
  unfolding sys
  Tidy-quiet stable c q = record { run = λ h p. stable c (env h c) h q p }

  pub Tidy-if :
      {A : Type 0} (b : Bool) {m k : M A}
      → Tidy U env I I m
      → Tidy U env I I k
      → Tidy U env I I (if b then m else k)
  Tidy-if true dm dk = dm
  Tidy-if false dm dk = dk
