-- ===== src/Sandbox/ExitStatus/Correct.antt =====
-- The machine-readable errors of exit codes (ExitCodeToSandboxError).
use deep_oj.Common.{
  ℕ, zero, suc, ◌+◌, ◌-◌, ◌*◌, ◌<◌, ◌≡◌, ◌≢◌, ◌≤◌, ◌⊎◌, ◌↔◌, inl, inr, subst, false, refl, sym, ap,
  ◌∙◌, Bool, true, ◌&&◌, none, some, List, [], ◌∷◌, arith, ◌==◌, ==_iff, if◌then◌else◌,
}
use deep_oj.Common.Bytes.{Bytes, text, bytes_eq, strip_prefix}
use deep_oj.Sandbox.ExitStatus.{sandbox_error_cases, exit_code_to_sandbox_error}

read_digits : ℕ → Bytes → ℕ
read_digits n [] = n
read_digits n (d ∷ s) = read_digits (n * 10 + (d - 48)) s

-- The code that an error names.
named_code : List (ℕ × Bytes) → Bytes → ℕ
named_code [] t = elim (strip_prefix (text "sandbox_child_exit_") t) [
  | none ↦ 0
  | some digits ↦ read_digits 0 digits
]
named_code ((c, u) ∷ cases) t = let rest = named_code cases t in if bytes_eq u t then c else rest

&&_iff : (a b : Bool) → (a && b ≡ true) ↔ ((a ≡ true) × (b ≡ true))
&&_iff true b = ground arith
&&_iff false b = ground arith

≤_cases : (a b : ℕ) → a ≤ b → (a ≡ b) ⊎ (a < b)
≤_cases a b h = ground arith

-- Each code from `first` on, `count` of them, is named by its own error.
named_from : (first count : ℕ) → Bool
named_from first zero = true
named_from first (suc count) =
    let rest = named_from (suc first) count in
    (named_code sandbox_error_cases (exit_code_to_sandbox_error first) == first) && rest

named_from_sound :
    (first count n : ℕ)
    → named_from first count ≡ true
    → first ≤ n
    → n < first + count
    → named_code sandbox_error_cases (exit_code_to_sandbox_error n) ≡ n
unfolding named_from
named_from_sound first zero n h low high = absurd (omega arith)
named_from_sound first (suc count) n h low high =
    let parts =
      &&_iff (named_code sandbox_error_cases (exit_code_to_sandbox_error first) == first)
        (named_from (suc first) count) in
    elim (≤_cases first n low) [
      | inl e ↦
          subst (λ k. named_code sandbox_error_cases (exit_code_to_sandbox_error k) ≡ k) e
            ((==_iff _ first).0 (parts.0 h).0)
      | inr less ↦ named_from_sound (suc first) count n (parts.0 h).1 less (omega arith)
    ]

all_named : named_from 0 256 ≡ true
unfolding named_from named_code read_digits exit_code_to_sandbox_error bytes_eq strip_prefix
all_named = refl

named_code_exit :
    (n : ℕ) → n < 256 → named_code sandbox_error_cases (exit_code_to_sandbox_error n) ≡ n
named_code_exit n h = named_from_sound 0 256 n all_named (omega arith) h

-- Two different exit codes of a process are never reported by the same `sandbox_error`.
pub exit_code_to_sandbox_error_injective :
    (a b : ℕ)
    → a < 256
    → b < 256
    → a ≢ b
    → exit_code_to_sandbox_error a ≢ exit_code_to_sandbox_error b
exit_code_to_sandbox_error_injective a b ha hb d e =
    d (sym (named_code_exit a ha) ∙ ap (named_code sandbox_error_cases) e ∙ named_code_exit b hb)
