-- ===== src/Isolation/Closing.antt =====
-- Behind the closing of descriptors, all but 0, 1 and 2 have been closed, in one call or one by one.
use deep_oj.Common.{
  ℕ, suc, zero, ◌+◌, ◌-◌, ◌≡◌, refl, true, List, ◌∷◌, arith, if◌then◌else◌, Bool-cases, inl, inr,
  subst,
}
use deep_oj.Common.Int.{ℤ, pos, negsuc, pos_part, ltb_ℤ, to_int}
use deep_oj.Common.Bytes.{Bytes}
use deep_oj.Os.{Call, Reply, History, Environment, close, close_range_from, sysconf_open_max}
use deep_oj.Os.Flow.{Outcome, returns, exits, becomes, throws, unfinished, nonzero, ◌>>=◌, sys}
use deep_oj.Os.Sweeps.{called, closed_from, open_max, fd_bound}
use deep_oj.Os.Trace.{Performed, later, did, swept, Post, Does}
use deep_oj.Isolation.RootfsCorrect.{ChildCode}
use deep_oj.Isolation.Descriptors.{close_from, close_descriptors, highest_fd}

highest_fd-bound : (n : ℤ) → pos_part (highest_fd n) ≡ fd_bound (to_int n)
highest_fd-bound n = by_int (to_int n)
  where
    by_int :
        (z : ℤ)
        → pos_part (
            let known = if ltb_ℤ z (pos 0) then pos 4096 else z in
            if ltb_ℤ (pos 65536) known then pos 65536 else known)
          ≡ fd_bound z
    by_int (pos n) = ground arith
    by_int (negsuc n) = ground arith

module _ (env : Environment) (X : Bytes → List Bytes → History → Type 0) where
  -- The loop closes each of its descriptors, and keeps what closing keeps.
  close_from-Closes :
      (K : History → Type 0)
      → ((n : ℤ) (r : Reply) (h : History) → K h → K ((close n, r) ∷ h))
      → (n fd : ℕ) (h : History) → K h
      → Post ChildCode X (λ _ h'. K h' × (closed_from n fd h' ≡ true)) (close_from n fd env h)
  unfolding close_from ◌>>=◌ sys
  close_from-Closes K keeps zero fd h k = (k, refl)
  close_from-Closes K keeps (suc n) fd h k =
      both (close_from n (fd + 1) env ((close (pos fd), env h (close (pos fd))) ∷ h)) (
        close_from-Closes (λ h'. K h' × (called fd h' ≡ true))
          (λ m r h' q. (keeps m r h' q.0, ground (arith, q.1))) n (fd + 1)
          ((close (pos fd), env h (close (pos fd))) ∷ h)
          (keeps (pos fd) (env h (close (pos fd))) h k, ground arith))
    where
      both :
          (o : Outcome (Unit {0}))
          → Post ChildCode X
              (λ _ h'. (K h' × (called fd h' ≡ true)) × (closed_from n (fd + 1) h' ≡ true))
              o
          → Post ChildCode X (λ _ h'. K h' × (closed_from (suc n) fd h' ≡ true)) o
      both (returns u h') q = (q.0.0, rw (q.0.1, q.1) refl)
      both (exits c h') q = q
      both (becomes path argv h') q = q
      both (throws e raised h') q = q
      both (unfinished h') q = q

pub close_descriptors-Does :
    {env : Environment} {X : Bytes → List Bytes → History → Type 0} {cs : List Call}
    → Does env ChildCode X cs (close_range_from 3 ∷ cs) close_descriptors
unfolding close_descriptors ◌>>=◌ sys
close_descriptors-Does {env} {X} {cs} = record { run = go }
  where
    done :
        (limit : ℤ) (o : Outcome (Unit {0}))
        → Post ChildCode X
            (λ _ h'.
              (Performed cs h' × (open_max h' ≡ limit))
              × (closed_from (pos_part (highest_fd limit) - 3) 3 h' ≡ true))
            o
        → Post ChildCode X (λ _ h'. Performed (close_range_from 3 ∷ cs) h') o
    done limit (returns u h') q =
        swept
          (rw (q.0.1) (subst (λ k. closed_from (k - 3) 3 h' ≡ true) (highest_fd-bound limit) q.1))
          q.0.0
    done limit (exits c h') q = q
    done limit (becomes path argv h') q = q
    done limit (throws e raised h') q = q
    done limit (unfinished h') q = q

    go :
        (h : History)
        → Performed cs h
        → Post ChildCode X
            (λ _ h'. Performed (close_range_from 3 ∷ cs) h')
            (close_descriptors env h)
    go h q =
        let c = close_range_from 3 in
        let r = env h c in
        let h1 = (c, r) ∷ h in
        let limit = env h1 sysconf_open_max in
        let h2 = (sysconf_open_max, limit) ∷ h1 in
        elim (Bool-cases (nonzero r)) [
          | inl e ↦ rw e (
              done limit.ret (close_from (pos_part (highest_fd limit.ret) - 3) 3 env h2) (
                close_from-Closes env X (λ h'. Performed cs h' × (open_max h' ≡ limit.ret))
                  (λ n r' h' k. (later (close n) r' k.0, k.1)) _ 3 h2
                  (later sysconf_open_max limit (later c r q), refl)))
          | inr e ↦ rw e (did c r (ground (arith, e)) q)
        ]
