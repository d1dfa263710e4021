-- ===== src/Os/Sweeps.antt =====
-- Whether every descriptor but 0, 1 and 2 has been closed one by one.
use deep_oj.Common.{
  ℕ, zero, suc, ◌+◌, ◌-◌, Bool, true, false, ◌&&◌, ◌||◌, [], ◌∷◌, if◌then◌else◌, leb,
}
use deep_oj.Common.Int.{ℤ, pos, negsuc, eqb_ℤ, to_int}
use deep_oj.Os.Calls.{close, sysconf_open_max, History}

-- Whether there is a call to close the descriptor.
abbrev pub called : ℕ → History → Bool
called fd [] = false
called fd ((close n, r) ∷ h) = eqb_ℤ n (pos fd) || called fd h
called fd (_ ∷ h) = called fd h

-- The same of a number of descriptors, from one on.
abbrev pub closed_from : ℕ → ℕ → History → Bool
closed_from zero fd h = true
closed_from (suc n) fd h = called fd h && closed_from n (fd + 1) h

-- What the system last gave for the number of descriptors that a process may have; where it was not
-- asked, the most that is ever closed.
abbrev pub open_max : History → ℤ
open_max [] = pos 65536
open_max ((sysconf_open_max, r) ∷ h) = r.ret
open_max (_ ∷ h) = open_max h

-- That number as an `int`, 4096 if it is negative, and 65536 at most.
abbrev pub fd_bound : ℤ → ℕ
fd_bound (pos n) = if leb n 65536 then n else 65536
fd_bound (negsuc n) = 4096

abbrev pub all_closed : History → Bool
all_closed h = closed_from (fd_bound (to_int (open_max h)) - 3) 3 h
