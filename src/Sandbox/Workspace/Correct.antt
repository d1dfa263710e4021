-- ===== src/Sandbox/Workspace/Correct.antt =====
-- What `Sandbox::Cleanup` removes.
use deep_oj.Common.{
  ◌≡◌, ◌⊎◌, refl, Bool, true, false, not, ◌||◌, [], ◌∷◌, inl, inr, is_empty, if◌then◌else◌, arith,
}
use deep_oj.Common.Bytes.{Bytes}
use deep_oj.Common.Paths.{join_path}
use deep_oj.Os.{History, Environment}
use deep_oj.Os.Flow.{Outcome, returns, exits, becomes, throws, unfinished, bind, skip}
use deep_oj.Sandbox.RequestId.{is_valid_request_id}
use deep_oj.Sandbox.Workspace
use deep_oj.Sandbox.Compile.Guards.{Gives, Swept, remove-Swept}

-- What a cleanup has done at its end.
abbrev pub Cleaned : Bytes → Bytes → History → Unit {0} → History → Type 0
Cleaned temp_dir request_id before done h =
    ((is_valid_request_id request_id ≡ false) × (h ≡ before))
    ⊎ ((is_valid_request_id request_id ≡ true) × Swept (join_path temp_dir request_id) h)

valid_nonempty : (id : Bytes) → is_valid_request_id id ≡ true → is_empty id ≡ false
unfolding is_valid_request_id
valid_nonempty [] e = absurd (ground arith)
valid_nonempty (b ∷ id) e = refl

unit_bind :
    (o : Outcome (Unit {0})) (P : Outcome (Unit {0}) → Type 0)
    → P (bind o (λ _ h. returns tt h))
    → P o
unit_bind (returns a h) P q = q
unit_bind (exits c h) P q = q
unit_bind (becomes path argv h) P q = q
unit_bind (throws e raised h) P q = q
unit_bind (unfinished h) P q = q

-- `Cleanup` always returns. For an id that is not valid it does nothing at all; for one that is, the
-- last that it does is to remove the directory of the request, or to see that there is none.
pub cleanup_request_safe :
    (env : Environment) (h : History) (temp_dir request_id : Bytes)
    → Gives ⊥
        (λ h'. ⊥)
        (Cleaned temp_dir request_id h)
        (Workspace.cleanup_request temp_dir request_id env h)
unfolding Workspace.cleanup_request
cleanup_request_safe env h temp_dir request_id =
    by_id (is_empty request_id) (is_valid_request_id request_id) refl refl
  where
    by_id :
        (b c : Bool)
        → is_empty request_id ≡ b
        → is_valid_request_id request_id ≡ c
        → Gives ⊥
            (λ h'. ⊥)
            (Cleaned temp_dir request_id h)
            ((if b || not c
                then skip
                else Workspace.remove_directory (join_path temp_dir request_id))
              env h)
    by_id true true e f = absurd (ground (arith, valid_nonempty request_id f))
    by_id true false e f = inl (f, refl)
    by_id false false e f = inl (f, refl)
    by_id false true e f =
        let dir = join_path temp_dir request_id in
        unit_bind (Workspace.remove_directory dir env h)
          (Gives ⊥ (λ h'. ⊥) (Cleaned temp_dir request_id h))
          (remove-Swept dir env h (λ h'. returns tt h')
            (Gives ⊥ (λ h'. ⊥) (Cleaned temp_dir request_id h)) (λ h' s. inr (f, s)))
