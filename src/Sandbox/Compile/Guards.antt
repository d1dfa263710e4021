-- ===== src/Sandbox/Compile/Guards.antt =====
-- What `DirectoryGuard` and `ProcessGuard` make of the end of their scopes.
use deep_oj.Common.{ℕ, suc, ◌≡◌, ◌⊎◌, refl, Bool, true, false, [], ◌∷◌, arith, inl, inr}
use deep_oj.Common.Int.{pos, ltb_ℤ, ◌≤ℤ◌}
use deep_oj.Common.Bytes.{Bytes}
use deep_oj.Types.{CompileResult}
use deep_oj.Os.{Call, Reply, History, Environment, exists, remove_all, clone_compile}
use deep_oj.Os.Flow.{
  Outcome, returns, exits, becomes, throws, unfinished, bind, ◌>>=◌, ◌>>◌, sys, when, skip,
}
use deep_oj.Os.Tidy.{Leaves, Tidy, Stable}
pub use deep_oj.Os.Yields.{Gives}
use deep_oj.Sandbox.Guard.{ProcessGuard, leave_guard, cleanup, wait_loop}
use deep_oj.Sandbox.Quiet.{is_wait, cleanup-Tidy}
use deep_oj.Sandbox.Workspace.{remove_directory, leave_directory}
use deep_oj.Sandbox.Compile.{exe_file}

-- The last that was done was to remove the directory, or to see that there is none.
abbrev pub Swept : Bytes → History → Type 0
Swept dir h =
    (r : Reply) × (h' : History) × (((h ≡ (exists dir, r) ∷ h') × (r.ret ≤ℤ pos 0))
      ⊎ ((s : Reply) × (h ≡ (remove_all dir, s) ∷ (exists dir, r) ∷ h')))

-- How often a compiler was started.
abbrev pub compilers : History → ℕ
compilers [] = 0
compilers ((clone_compile args, r) ∷ h) = suc (compilers h)
compilers ((_, r) ∷ h) = compilers h

abbrev pub Any : History → Type 0
Any h = Unit

pub Any-Stable : Stable Any
Any-Stable c r h q i = tt

-- The directory is kept just where the result is a success.
abbrev pub Decided : Bytes → CompileResult × Bool → Type 0
Decided dir (v, committed) =
    ((committed ≡ true) × (v.success ≡ true) × (v.exe_path ≡ exe_file dir))
    ⊎ ((committed ≡ false) × (v.success ≡ false) × (v.exe_path ≡ []))

abbrev pub Fresh : CompileResult → Type 0
Fresh v = (v.success ≡ false) × (v.exe_path ≡ [])

pub remove-Swept :
    {A : Type 0} (dir : Bytes) (env : Environment) (h : History) (o : History → Outcome A)
    (Q : Outcome A → Type 0)
    → ((h' : History) → Swept dir h' → Q (o h'))
    → Q (bind (remove_directory dir env h) (λ _ h'. o h'))
unfolding remove_directory ◌>>=◌ sys
remove-Swept dir env h o Q f = by_size (ltb_ℤ (pos 0) there.ret) refl
  where
    there : Reply
    there = env h (exists dir)

    h' : History
    h' = (exists dir, there) ∷ h

    by_size :
        (b : Bool)
        → ltb_ℤ (pos 0) there.ret ≡ b
        → Q (bind (when b (sys (remove_all dir) >> skip) env h') (λ _ h''. o h''))
    by_size true e =
        f ((remove_all dir, env h' (remove_all dir)) ∷ h')
          (there, h, inr (env h' (remove_all dir), refl))
    by_size false e = f h' (there, h, inl (refl, ground arith))

-- The guard of the directory: it is kept where the body has decided so, and swept elsewhere.
abbrev pub Sorted : Bytes → CompileResult → History → Type 0
Sorted dir v h =
    ((v.success ≡ true) × (v.exe_path ≡ exe_file dir))
    ⊎ ((v.success ≡ false) × (v.exe_path ≡ []) × Swept dir h)

module _ (U : Type 0) where
  pub Gives-bind :
      {A B : Type 0} (T : History → Type 0) (P : B → History → Type 0) (o : Outcome A)
      (k : A → History → Outcome B)
      → Leaves U T o
      → ((a : A) (h : History) → Gives U T P (k a h))
      → Gives U T P (bind o k)
  Gives-bind T P (returns a h) k l f = f a h
  Gives-bind T P (exits c h) k l f = l
  Gives-bind T P (becomes path argv h) k l f = l
  Gives-bind T P (throws e raised h) k l f = l
  Gives-bind T P (unfinished h) k l f = l

  pub leave_directory-Gives :
      (dir : Bytes) (env : Environment) (o : Outcome (CompileResult × Bool))
      → Gives U Any (λ v h. Decided dir v) o
      → Gives U (Swept dir) (Sorted dir) (leave_directory dir o env)
  leave_directory-Gives dir env (returns (v, true) h) (inl d) = inl (d.1, d.2)
  leave_directory-Gives dir env (returns (v, true) h) (inr d) = absurd (ground arith)
  leave_directory-Gives dir env (returns (v, false) h) (inl d) = absurd (ground arith)
  leave_directory-Gives dir env (returns (v, false) h) (inr d) =
      remove-Swept dir env h (λ h'. returns v h') (Gives U (Swept dir) (Sorted dir))
        (λ h' s. inr (d.1, d.2, s))
  leave_directory-Gives dir env (exits c h) g = g
  leave_directory-Gives dir env (becomes path argv h) g = g
  leave_directory-Gives dir env (throws e raised h) g =
      remove-Swept dir env h (λ h'. throws e raised h') (Gives U (Swept dir) (Sorted dir))
        (λ h' s. s)
  leave_directory-Gives dir env (unfinished h) g = g

  module _ (env : Environment) (fuel : ℕ)
      (waits : (c : Call) → is_wait c ≡ true → Tidy U env Any Any (wait_loop fuel c)) where
    -- The guard of the process keeps what the body gives.
    pub leave_guard-Gives :
        {A : Type 0} (P : A → Type 0) (guard : ProcessGuard) (o : Outcome (A × ProcessGuard))
        → Gives U Any (λ v h. P v.0) o
        → Gives U Any (λ v h. P v) (leave_guard fuel guard o env)
    leave_guard-Gives P guard (returns (v, g) h) q =
        Gives-bind Any (λ v h. P v) (cleanup fuel g env h) (λ _ h'. returns v h')
          ((cleanup-Tidy Any-Stable fuel waits g).run h tt) (λ _ h'. q)
    leave_guard-Gives P guard (exits c h) q = q
    leave_guard-Gives P guard (becomes path argv h) q = q
    leave_guard-Gives P guard (throws e raised h) q =
        Gives-bind Any (λ v h. P v) (cleanup fuel guard env h) (λ _ h'. throws e raised h')
          ((cleanup-Tidy Any-Stable fuel waits guard).run h tt) (λ _ h'. tt)
    leave_guard-Gives P guard (unfinished h) q = q
