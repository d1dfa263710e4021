-- ===== src/Sandbox/Guard.antt =====
-- `ProcessGuard` and `AutoCloseFd`: who reaps the child, and who closes the descriptors.
use deep_oj.Common.{none, [], ◌∷◌, ℕ, zero, suc, Bool, true, false, ◌&&◌, ◌||◌, ◌==◌, if◌then◌else◌}
use deep_oj.Common.Int.{ℤ, pos, negsuc, leb_ℤ, eqb_ℤ}
use deep_oj.Os.{Call, Reply, Environment, close, wait_nohang, wait_blocking, kill, sigkill, eintr}
use deep_oj.Os.Flow.{
  Outcome, returns, exits, becomes, throws, unfinished, M, bind, pure, ◌>>=◌, ◌>>◌, skip, sys, when,
  failed,
}

-- `class AutoCloseFd`: its destructor.
unfoldable pub auto_close : ℤ → M (Unit {0})
auto_close fd = when (leb_ℤ (pos 0) fd) (sys (close fd) >> skip)

-- `class ProcessGuard`
pub record ProcessGuard : Type 0 where
  pub pid : ℤ
  pub released : Bool

abbrev pub new_guard : ℤ → ProcessGuard
new_guard pid = record { pid = pid; released = false }

abbrev pub interrupted : Reply → Bool
interrupted r = failed r && r.errno == eintr

-- `for (;;) { w = wait…(); if (w == -1 && errno == EINTR) continue; return w; }`
unfoldable pub wait_loop : ℕ → Call → M Reply
wait_loop zero c env h = unfinished h
wait_loop (suc fuel) c env h =
    let r = env h c in
    let h' = (c, r) ∷ h in
    elim (interrupted r) [ true ↦ wait_loop fuel c env h' | false ↦ returns r h' ]

-- What a wait on a guard without a process gives.
abbrev pub no_process : Reply
no_process = record { ret = negsuc 0; errno = 0; out = none; usage = none; bytes = [] }

module _ (fuel : ℕ) (guard : ProcessGuard) where
  -- `wait_nonblock` and `wait_nonblock_rusage`
  unfoldable pub wait_nonblock : M Reply
  wait_nonblock =
      if leb_ℤ guard.pid (pos 0) then pure no_process else wait_loop fuel (wait_nohang guard.pid)

  -- `wait` and `wait_rusage`
  unfoldable pub wait : M Reply
  wait =
      if leb_ℤ guard.pid (pos 0) then pure no_process else wait_loop fuel (wait_blocking guard.pid)

  unfoldable pub kill_process : M Bool
  kill_process =
      if leb_ℤ guard.pid (pos 0)
      then pure false
      else do r ← sys (kill guard.pid sigkill); pure (eqb_ℤ r.ret (pos 0))

  unfoldable pub release : ProcessGuard
  release = record { pid = negsuc 0; released = true }

  -- `cleanup`: a child that still runs is killed and reaped.
  unfoldable pub cleanup : M (Unit {0})
  cleanup = if guard.released || leb_ℤ guard.pid (pos 0) then skip else do
    w ← wait_loop fuel (wait_nohang guard.pid)
    when (eqb_ℤ w.ret (pos 0))
        (do sys (kill guard.pid sigkill); wait_loop fuel (wait_blocking guard.pid); skip)

-- The scope of a guard, for a caller that catches what is thrown: its destructor sees the guard that the body leaves; where the body throws,
-- that is still the one that it began with.
abbrev pub leave_guard :
    {A : Type 0} → ℕ → ProcessGuard → Outcome (A × ProcessGuard) → Environment → Outcome A
leave_guard fuel guard (returns (a, g) h) env = bind (cleanup fuel g env h) (λ _ h'. returns a h')
leave_guard fuel guard (exits c h) env = exits c h
leave_guard fuel guard (becomes q a h) env = becomes q a h
leave_guard fuel guard (throws e raised h) env =
    bind (cleanup fuel guard env h) (λ _ h'. throws e raised h')
leave_guard fuel guard (unfinished h) env = unfinished h

unfoldable pub guarded : {A : Type 0} → ℕ → ℤ → M (A × ProcessGuard) → M A
guarded fuel pid body env h = leave_guard fuel (new_guard pid) (body env h) env
