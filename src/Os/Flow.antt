-- ===== src/Os/Flow.antt =====
-- A run of a piece of the program: calls of the system, and the ways in which it can end.
use deep_oj.Common.{not, ℕ, Bool, true, false, List, ◌∷◌}
use deep_oj.Common.Int.{pos, negsuc, eqb_ℤ}
use deep_oj.Common.Bytes.{Bytes}
use deep_oj.Os.Calls.{Call, Reply, History, Environment}

-- `exits` is `_exit` or `exit`; `becomes` is an `exec` that succeeded; `throws` is an exception on
-- its way out to a caller that catches it, with the history at which it was raised and the one
-- behind the destructors that have run since; `unfinished` says that a loop used up its fuel.
pub data Outcome (A : Type 0) : Type 0 where
  returns : A → History → Outcome A
  exits : ℕ → History → Outcome A
  becomes : Bytes → List Bytes → History → Outcome A
  throws : Bytes → History → History → Outcome A
  unfinished : History → Outcome A

abbrev pub M : Type 0 → Type 0
M A = Environment → History → Outcome A

abbrev pub pure : {A : Type 0} → A → M A
pure a env h = returns a h

abbrev pub bind : {A B : Type 0} → Outcome A → (A → History → Outcome B) → Outcome B
bind (returns a h) k = k a h
bind (exits c h) k = exits c h
bind (becomes p a h) k = becomes p a h
bind (throws e raised h) k = throws e raised h
bind (unfinished h) k = unfinished h

-- A call of the system.
unfoldable pub sys : Call → M Reply
sys c env h = let r = env h c in returns r ((c, r) ∷ h)

infixl 5 ◌>>=◌ ◌>>◌
-- Shut, as `sys` is, so that the rules for proofs match a program by its text.
unfoldable pub ◌>>=◌ : {A B : Type 0} → M A → (A → M B) → M B
unfolding sys
◌>>=◌ m f env h = bind (m env h) (λ a h'. f a env h')

abbrev pub ◌>>◌ : {A B : Type 0} → M A → M B → M B
m >> k = m >>= λ _. k

abbrev pub exit : {A : Type 0} → ℕ → M A
exit c env h = exits c h

abbrev pub throw : {A : Type 0} → Bytes → M A
throw e env h = throws e h h

-- The fuel of a loop is used up.
abbrev pub out_of_fuel : {A : Type 0} → M A
out_of_fuel env h = unfinished h

abbrev pub skip : M (Unit {0})
skip = pure tt

abbrev pub when : Bool → M (Unit {0}) → M (Unit {0})
when true m = m
when false m = skip

-- Whether a system call failed, by its result -1.
abbrev pub failed : Reply → Bool
failed r = eqb_ℤ r.ret (negsuc 0)

-- Whether a call gave anything but 0.
abbrev pub nonzero : Reply → Bool
nonzero r = not (eqb_ℤ r.ret (pos 0))

-- A call that must not give -1: otherwise `_exit` with the code.
unfoldable pub or_exit : Call → ℕ → M (Unit {0})
or_exit c exit_code = do r ← sys c; when (failed r) (exit exit_code)

-- The same of a call that must give 0.
unfoldable pub zero_or_exit : Call → ℕ → M (Unit {0})
zero_or_exit c exit_code = do r ← sys c; when (nonzero r) (exit exit_code)

-- The body of a scope, and the destructor that runs when the scope is left by a return or by an
-- exception. `_exit` and `exec` run none.
abbrev pub leave : {A : Type 0} → Outcome A → M (Unit {0}) → Environment → Outcome A
leave (returns a h) d env = bind (d env h) (λ _ h'. returns a h')
leave (exits c h) d env = exits c h
leave (becomes p a h) d env = becomes p a h
leave (throws e raised h) d env = bind (d env h) (λ _ h'. throws e raised h')
leave (unfinished h) d env = unfinished h

abbrev pub scoped : {A : Type 0} → M A → M (Unit {0}) → M A
scoped m d env h = leave (m env h) d env

-- A function without a caller that could catch: an exception calls `std::terminate`, and no destructor
-- runs. (The language leaves that open; GCC does so.)
abbrev pub terminated : {A : Type 0} → Outcome A → Outcome A
terminated (returns a h) = returns a h
terminated (exits c h) = exits c h
terminated (becomes p a h) = becomes p a h
terminated (throws e raised h) = throws e raised raised
terminated (unfinished h) = unfinished h

abbrev pub uncaught : {A : Type 0} → M A → M A
uncaught m env h = terminated (m env h)

-- The history at which a run ended.
abbrev pub end : {A : Type 0} → Outcome A → History
end (returns a h) = h
end (exits c h) = h
end (becomes p a h) = h
end (throws e raised h) = h
end (unfinished h) = h
