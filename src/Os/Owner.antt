-- ===== src/Os/Owner.antt =====
-- Classes whose objects own something of the system: a destructor, and what a move leaves behind.
use deep_oj.Common.{ℕ, false, ◌≡◌, refl, ◌==◌, if◌then◌else◌, arith}
use deep_oj.Os.Calls.{History, Environment}
use deep_oj.Os.Flow.{
  Outcome, returns, exits, becomes, throws, unfinished, M, bind, pure, ◌>>=◌, ◌>>◌,
}

-- A destructor, and the object that is left where its contents were moved away. Such an object owns
-- nothing: its destructor does nothing.
pub record Owner (A : Type 0) : Type 0 where
  pub destruct : A → M (Unit {0})
  pub emptied : A → A
  pub idle : (a : A) (env : Environment) (h : History) → destruct (emptied a) env h ≡ returns tt h

-- The objects of a class by their addresses.
abbrev pub Store : Type 0 → Type 0
Store A = ℕ → A

abbrev pub put : {A : Type 0} → ℕ → A → Store A → Store A
put i a store j = if j == i then a else store j

module _ {A : Type 0} (o : Owner A) where
  -- A new object at `i`, by the move constructor from the object at `j`.
  unfoldable pub move_to : ℕ → ℕ → Store A → Store A
  move_to i j store = put j (o.emptied (store j)) (put i (store j) store)

  -- The move assignment to the object at `i`: nothing if it is the same object, and else what it owned
  -- is given back first.
  unfoldable pub assign : ℕ → ℕ → Store A → M (Store A)
  assign i j store =
      if i == j then pure store else (o.destruct (store i) >> pure (move_to i j store))

  abbrev pub destruct_at : ℕ → Store A → M (Unit {0})
  destruct_at i store = o.destruct (store i)

  -- The two destructors behind a move constructor do what that of the first object would have done.
  abbrev pub Moves : ℕ → ℕ → Store A → Environment → History → Type 0
  Moves i j store env h =
      (destruct_at j (move_to i j store) >> destruct_at i (move_to i j store)) env h
      ≡ destruct_at j store env h

  -- An assignment and the two destructors behind it do what both destructors would have done.
  abbrev pub Assigns : ℕ → ℕ → Store A → Environment → History → Type 0
  Assigns i j store env h =
      (assign i j store >>= λ s. destruct_at j s >> destruct_at i s) env h
      ≡ (destruct_at i store >> destruct_at j store) env h

  empty_then :
      (old new a : A) (env : Environment) (h : History)
      → old ≡ o.emptied a
      → new ≡ a
      → (o.destruct old >> o.destruct new) env h ≡ o.destruct a env h
  unfolding ◌>>=◌
  empty_then old new a env h at_old at_new = rw (at_old, at_new, o.idle a env h) refl

  module _ (i j : ℕ) (store : Store A) (differ : (i == j) ≡ false) where
    move_to-source : move_to i j store j ≡ o.emptied (store j)
    unfolding move_to
    move_to-source = ground arith

    move_to-target : move_to i j store i ≡ store j
    unfolding move_to
    move_to-target = ground (arith, differ)

    pub move_to-destruct : (env : Environment) (h : History) → Moves i j store env h
    move_to-destruct env h =
        empty_then (move_to i j store j) (move_to i j store i) (store j) env h move_to-source
          move_to-target

    pub assign-destruct : (env : Environment) (h : History) → Assigns i j store env h
    unfolding ◌>>=◌ assign
    assign-destruct env h = rw differ (go (o.destruct (store i) env h))
      where
        go :
            (u : Outcome (Unit {0}))
            → bind
                (bind u (λ _ h'. returns (move_to i j store) h'))
                (λ s h'. bind (o.destruct (s j) env h') (λ _ h''. o.destruct (s i) env h''))
              ≡ bind u (λ _ h'. o.destruct (store j) env h')
        go (returns u h') = move_to-destruct env h'
        go (exits c h') = refl
        go (becomes p a h') = refl
        go (throws e raised h') = refl
        go (unfinished h') = refl
