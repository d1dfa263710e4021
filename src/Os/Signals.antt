-- ===== src/Os/Signals.antt =====
-- Which signals have been sent to a child that the last wait for it has found running.
use deep_oj.Common.{arith, ◌≡◌, Bool, true, false, ◌&&◌, ◌∷◌, [], if◌then◌else◌}
use deep_oj.Common.Int.{ℤ, pos, eqb_ℤ}
use deep_oj.Os.Calls.{Call, kill, wait_nohang, wait_blocking, Reply, History, Environment}
use deep_oj.Os.Flow.{sys}
use deep_oj.Os.Tidy.{Tidy}

-- Whether the last wait for the process did not block and was answered by 0, which says that it is a
-- child that still runs.
abbrev pub running : ℤ → History → Bool
running pid [] = false
running pid ((wait_nohang n, r) ∷ h) = if eqb_ℤ n pid then eqb_ℤ r.ret (pos 0) else running pid h
running pid ((wait_blocking n, r) ∷ h) = if eqb_ℤ n pid then false else running pid h
running pid (_ ∷ h) = running pid h

-- All signals were sent to such children.
abbrev pub all_to_running : History → Bool
all_to_running [] = true
all_to_running ((kill pid signal, r) ∷ h) = running pid h && all_to_running h
all_to_running (_ ∷ h) = all_to_running h

abbrev pub Aimed : History → Type 0
Aimed h = all_to_running h ≡ true

abbrev pub is_kill : Call → Bool
is_kill (kill pid signal) = true
is_kill _ = false

pub Aimed-kept :
    (c : Call) (r : Reply) (h : History) → is_kill c ≡ false → Aimed h → Aimed ((c, r) ∷ h)
Aimed-kept (kill pid signal) r h q a = absurd (ground arith)
Aimed-kept _ r h q a = a

module _ {U : Type 0} {env : Environment} where
  pub Aimed-sys : (c : Call) → is_kill c ≡ false → Tidy U env Aimed Aimed (sys c)
  unfolding sys
  Aimed-sys c q = record { run = λ h a. Aimed-kept c (env h c) h q a }
