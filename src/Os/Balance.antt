-- ===== src/Os/Balance.antt =====
-- Which descriptors of the process are open: those that were opened and not closed since.
use deep_oj.Common.{ℕ, ◌+◌, ◌≡◌, refl, Bool, true, false, ◌&&◌, List, [], ◌∷◌, arith, if◌then◌else◌}
use deep_oj.Common.Int.{ℤ, pos, leb_ℤ, eqb_ℤ}
use deep_oj.Os.Calls.{Call, open_file, dup, close, Reply, History, Environment}
use deep_oj.Os.Flow.{
  Outcome, returns, exits, becomes, throws, unfinished, M, bind, leave, scoped, ◌>>=◌, sys,
}
use deep_oj.Os.Tidy.{Leaves, Tidy, is_quiet, Stable}

-- A call whose result is a new descriptor, and the descriptor that a call closes.
abbrev pub opens : Call → Bool
opens (open_file path flags mode) = true
opens (dup fd) = true
opens _ = false

abbrev pub closes : ℤ → Call → Bool
closes n (close fd) = eqb_ℤ fd n
closes n _ = false

-- How often the descriptor `n` was handed out, and how often it was closed.
abbrev pub opened : ℤ → History → ℕ
opened n [] = 0
opened n ((c, r) ∷ h) =
    (if opens c && leb_ℤ (pos 0) r.ret && eqb_ℤ r.ret n then 1 else 0) + opened n h

abbrev pub closed : ℤ → History → ℕ
closed n [] = 0
closed n ((c, r) ∷ h) = (if closes n c then 1 else 0) + closed n h

abbrev pub occurs : ℤ → List ℤ → ℕ
occurs n [] = 0
occurs n (fd ∷ fds) = (if eqb_ℤ fd n then 1 else 0) + occurs n fds

-- Just the listed descriptors are open, each as often as it is listed.
abbrev pub Balanced : List ℤ → History → Type 0
Balanced fds h = (n : ℤ) → opened n h ≡ closed n h + occurs n fds

-- The descriptors with one more, if that is one.
abbrev pub with_fd : ℤ → List ℤ → List ℤ
with_fd fd fds = if leb_ℤ (pos 0) fd then fd ∷ fds else fds

quiet-opens : (c : Call) → is_quiet c ≡ true → opens c ≡ false
quiet-opens (open_file path flags mode) q = absurd (ground arith)
quiet-opens (dup fd) q = absurd (ground arith)
quiet-opens _ q = refl

quiet-closes : (n : ℤ) (c : Call) → is_quiet c ≡ true → closes n c ≡ false
quiet-closes n (close fd) q = absurd (ground arith)
quiet-closes n _ q = refl

pub Balanced-Stable : (fds : List ℤ) → Stable (Balanced fds)
Balanced-Stable fds c r h q b n = rw (quiet-opens c q, quiet-closes n c q) (omega (arith, b n))

pub Balanced-open :
    (c : Call) (r : Reply) (fds : List ℤ) (h : History)
    → opens c ≡ true
    → ((n : ℤ) → closes n c ≡ false)
    → Balanced fds h
    → Balanced (with_fd r.ret fds) ((c, r) ∷ h)
Balanced-open c r fds h o k b n = ground (arith, b n, k n)

pub Balanced-close :
    (fd : ℤ) (r : Reply) (fds : List ℤ) (h : History)
    → Balanced (fd ∷ fds) h
    → Balanced fds ((close fd, r) ∷ h)
Balanced-close fd r fds h b n = ground (arith, b n)

-- A scope whose destructor closes the descriptor that the scope was given.
pub Tidy-scoped :
    {A : Type 0} {U : Type 0} {env : Environment} {I J : History → Type 0} {m : M A}
    (d : M (Unit {0}))
    → Tidy U env I I m
    → Tidy U env I J d
    → Tidy U env I J (scoped m d)
Tidy-scoped {A} {U} {env} {I} {J} {m} d dm dd = record { run = λ h p. go (m env h) (dm.run h p) }
  where
    after :
        {B : Type 0} (o : Outcome B) (k : B → History → Outcome A)
        → Leaves U J o
        → ((b : B) (h : History) → J h → Leaves U J (k b h))
        → Leaves U J (bind o k)
    after (returns a h) k p f = f a h p
    after (exits c h) k p f = p
    after (becomes path argv h) k p f = p
    after (throws e raised h) k p f = p
    after (unfinished h) k p f = p

    go : (o : Outcome A) → Leaves U I o → Leaves U J (leave o d env)
    go (returns a h) p = after (d env h) (λ _ h'. returns a h') (dd.run h p) (λ _ h' q. q)
    go (exits c h) p = p
    go (becomes path argv h) p = p
    go (throws e raised h) p =
        after (d env h) (λ _ h'. throws e raised h') (dd.run h p) (λ _ h' q. q)
    go (unfinished h) p = p

-- A piece that hands out one descriptor, if it can.
abbrev pub Handed : List ℤ → Outcome ℤ → Type 0
Handed fds (returns fd h) = Balanced (with_fd fd fds) h
Handed fds (exits c h) = ⊥
Handed fds (becomes path argv h) = ⊥
Handed fds (throws e raised h) = ⊥
Handed fds (unfinished h) = ⊥

-- With what is handed out, the rest of the piece goes on.
pub Tidy-Handed :
    {A : Type 0} {U : Type 0} {env : Environment} (fds : List ℤ) (m : M ℤ) {f : ℤ → M A}
    → ((h : History) → Balanced fds h → Handed fds (m env h))
    → ((fd : ℤ) → Tidy U env (Balanced (with_fd fd fds)) (Balanced fds) (f fd))
    → Tidy U env (Balanced fds) (Balanced fds) (m >>= f)
unfolding ◌>>=◌
Tidy-Handed {A} {U} {env} fds m {f} hm df = record { run = λ h b. go (m env h) (hm h b) }
  where
    go : (o : Outcome ℤ) → Handed fds o → Leaves U (Balanced fds) (bind o (λ a h'. f a env h'))
    go (returns fd h) b = (df fd).run h b
    go (exits c h) b = b
    go (becomes path argv h) b = absurd b
    go (throws e raised h) b = absurd b
    go (unfinished h) b = absurd b

-- A call that opens a descriptor, and what is done with its reply.
pub Tidy-open :
    {A : Type 0} {U : Type 0} {env : Environment} (fds : List ℤ) (c : Call) {f : Reply → M A}
    → opens c ≡ true
    → ((n : ℤ) → closes n c ≡ false)
    → ((r : Reply) → Tidy U env (Balanced (with_fd r.ret fds)) (Balanced fds) (f r))
    → Tidy U env (Balanced fds) (Balanced fds) (sys c >>= f)
unfolding ◌>>=◌ sys
Tidy-open {env} fds c o k df = record {
  run = λ h b. let r = env h c in (df r).run ((c, r) ∷ h) (Balanced-open c r fds h o k b);
}
