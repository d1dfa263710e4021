-- ===== src/Os/Orphans.antt =====
-- Which children of the process still have to be waited for.
use deep_oj.Common.{
  ◌≡◌, refl, ◌⊎◌, inl, inr, Bool, true, false, ◌&&◌, ◌||◌, List, [], ◌∷◌, ◌==◌, arith,
  if◌then◌else◌,
}
use deep_oj.Common.Int.{ℤ, pos, negsuc, ltb_ℤ, eqb_ℤ}
use deep_oj.Os.Calls.{
  Call, clone_run, clone_compile, wait_nohang, wait_blocking, Reply, History, eintr,
}
use deep_oj.Os.Tidy.{is_quiet, Stable}

-- A wait without an answer: a signal came, or the child has not ended yet.
abbrev pub cut_short : Reply → Bool
cut_short r = eqb_ℤ r.ret (negsuc 0) && r.errno == eintr

abbrev pub undecided : Reply → Bool
undecided r = cut_short r || eqb_ℤ r.ret (pos 0)

abbrev pub without : ℤ → List ℤ → List ℤ
without n [] = []
without n (m ∷ ms) = if eqb_ℤ m n then without n ms else m ∷ without n ms

-- The children behind a call: a clone adds one, and a wait with an answer takes the child away,
-- whether it has ended or the system says that there is none.
abbrev pub children_after : Call → Reply → List ℤ → List ℤ
children_after (clone_run args) r ps = if ltb_ℤ (pos 0) r.ret then r.ret ∷ ps else ps
children_after (clone_compile args) r ps = if ltb_ℤ (pos 0) r.ret then r.ret ∷ ps else ps
children_after (wait_nohang pid) r ps = if undecided r then ps else without pid ps
children_after (wait_blocking pid) r ps = if cut_short r then ps else without pid ps
children_after _ r ps = ps

abbrev pub orphans : History → List ℤ
orphans [] = []
orphans ((c, r) ∷ h) = children_after c r (orphans h)

-- Nobody is left to be waited for, or at most the one child.
abbrev pub Settled : History → Type 0
Settled h = orphans h ≡ []

abbrev pub Owed : ℤ → History → Type 0
Owed pid h = (orphans h ≡ pid ∷ []) ⊎ (orphans h ≡ [])

without-nil : (pid : ℤ) (ps : List ℤ) → ps ≡ [] → without pid ps ≡ []
without-nil pid [] e = refl
without-nil pid (p ∷ ps) e = absurd (ground arith)

without-one :
    (n pid : ℤ) (ps : List ℤ)
    → (ps ≡ pid ∷ []) ⊎ (ps ≡ [])
    → (without n ps ≡ pid ∷ []) ⊎ (without n ps ≡ [])
without-one n pid ps (inl e) = rw e (one (eqb_ℤ pid n))
  where
    one :
        (b : Bool) → ((if b then [] else pid ∷ []) ≡ pid ∷ []) ⊎ ((if b then [] else pid ∷ []) ≡ [])
    one true = inr refl
    one false = inl refl
without-one n pid ps (inr e) = inr (without-nil n ps e)

pub without_self : (pid : ℤ) (ps : List ℤ) → (ps ≡ pid ∷ []) ⊎ (ps ≡ []) → without pid ps ≡ []
without_self pid ps (inl e) = rw e (ground arith)
without_self pid ps (inr e) = without-nil pid ps e

-- What a call other than a clone leaves.
abbrev pub makes_child : Call → Bool
makes_child (clone_run args) = true
makes_child (clone_compile args) = true
makes_child _ = false

pub Settled-kept :
    (c : Call) (r : Reply) (h : History) → makes_child c ≡ false → Settled h → Settled ((c, r) ∷ h)
Settled-kept (clone_run args) r h q s = absurd (ground arith)
Settled-kept (clone_compile args) r h q s = absurd (ground arith)
Settled-kept (wait_nohang pid) r h q s = by_reply (undecided r)
  where
    by_reply : (b : Bool) → (if b then orphans h else without pid (orphans h)) ≡ []
    by_reply true = s
    by_reply false = without-nil pid (orphans h) s
Settled-kept (wait_blocking pid) r h q s = by_reply (cut_short r)
  where
    by_reply : (b : Bool) → (if b then orphans h else without pid (orphans h)) ≡ []
    by_reply true = s
    by_reply false = without-nil pid (orphans h) s
Settled-kept _ r h q s = s

quiet-makes_child : (c : Call) → is_quiet c ≡ true → makes_child c ≡ false
quiet-makes_child (clone_run args) q = absurd (ground arith)
quiet-makes_child (clone_compile args) q = absurd (ground arith)
quiet-makes_child _ q = refl

pub Settled-Stable : Stable Settled
Settled-Stable c r h q s = Settled-kept c r h (quiet-makes_child c q) s

pub Owed-Stable : (pid : ℤ) → Stable (Owed pid)
Owed-Stable n (clone_run args) r h q o = absurd (ground arith)
Owed-Stable n (clone_compile args) r h q o = absurd (ground arith)
Owed-Stable n (wait_nohang pid) r h q o = by_reply (undecided r)
  where
    by_reply :
        (b : Bool)
        → ((if b then orphans h else without pid (orphans h)) ≡ n ∷ [])
          ⊎ ((if b then orphans h else without pid (orphans h)) ≡ [])
    by_reply true = o
    by_reply false = without-one pid n (orphans h) o
Owed-Stable n (wait_blocking pid) r h q o = by_reply (cut_short r)
  where
    by_reply :
        (b : Bool)
        → ((if b then orphans h else without pid (orphans h)) ≡ n ∷ [])
          ⊎ ((if b then orphans h else without pid (orphans h)) ≡ [])
    by_reply true = o
    by_reply false = without-one pid n (orphans h) o
Owed-Stable n _ r h q o = o
