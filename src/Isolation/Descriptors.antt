-- ===== src/Isolation/Descriptors.antt =====
-- How both children close every descriptor but 0, 1 and 2.
use deep_oj.Common.{ℕ, zero, suc, ◌+◌, ◌-◌, if◌then◌else◌}
use deep_oj.Common.Int.{ℤ, pos, pos_part, ltb_ℤ, to_int}
use deep_oj.Os.{close, close_range_from, sysconf_open_max}
use deep_oj.Os.Flow.{M, ◌>>=◌, ◌>>◌, skip, sys, when, nonzero}

-- `for (int fd = 3; fd < max_fd; ++fd) close(fd);` by the rounds left.
unfoldable pub close_from : ℕ → ℕ → M (Unit {0})
close_from zero fd = skip
close_from (suc rounds) fd = do sys (close (pos fd)); close_from rounds (fd + 1)

-- The end of the loop: 4096 where the system gives no limit, and 65536 at most.
abbrev pub highest_fd : ℤ → ℤ
highest_fd open_max =
    let found = to_int open_max in
    let known = if ltb_ℤ found (pos 0) then pos 4096 else found in
    if ltb_ℤ (pos 65536) known then pos 65536 else known

unfoldable pub close_descriptors : M (Unit {0})
close_descriptors = do
  r ← sys (close_range_from 3)
  when (nonzero r)
      (do limit ← sys sysconf_open_max; close_from (pos_part (highest_fd limit.ret) - 3) 3)
