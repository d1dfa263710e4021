-- ===== src/Sandbox/Watch.antt =====
-- The loop in which `Sandbox::Run` watches its child.
pub mod Clock
pub mod Live
pub mod Polling
pub mod Reaping
use deep_oj.Common.{ℕ, zero, suc, ◌&&◌, Option, none, some, ◌++◌, ◌==◌, if◌then◌else◌}
use deep_oj.Common.Int.{ℤ, pos, ◌+ℤ◌, ◌-ℤ◌, ltb_ℤ, eqb_ℤ, to_int}
use deep_oj.Common.Bytes.{Bytes, text}
use deep_oj.Types.{
  RunResult, new_run_result, time_limit_exceeded, memory_limit_exceeded, system_error,
}
use deep_oj.Platform.{Platform}
use deep_oj.Os.{Reply, Rusage, clock_ms, sleep_ms, sigkill, eintr}
use deep_oj.Os.Flow.{M, out_of_fuel, ◌>>=◌, ◌>>◌, pure, sys, failed}
use deep_oj.Sandbox.Guard.{ProcessGuard, wait_nonblock, wait, kill_process, release}

-- `FormatSystemError`
unfoldable pub format_system_error : Platform → Bytes → ℕ → Bytes
unfolding text
format_system_error p prefix errno = prefix ++ (text ": " ++ p.strerror errno)

-- How the loop ends: with the wait status and the usage of a child that has ended by itself, or
-- with a result that `Run` returns at once.
pub data Watched : Type 0 where
  ended : ℕ → Rusage → Watched
  decided : RunResult → Watched

-- What is kept between two rounds: `status` and `usage`, which a wait may leave as they are.
pub record Seen : Type 0 where
  pub status : ℕ
  pub usage : Rusage

abbrev pub or_old {ℓ} : {A : Type ℓ} → Option A → A → A
or_old none old = old
or_old (some new) old = new

abbrev pub see : Reply → Seen → Seen
see r s = record { status = or_old r.out s.status; usage = or_old r.usage s.usage }

abbrev pub nothing_seen : Seen
nothing_seen = record {
  status = 0;
  usage = record {
    maxrss = pos 0;
    utime_sec = pos 0;
    utime_usec = pos 0;
    stime_sec = pos 0;
    stime_usec = pos 0;
  };
}

-- `kill`, `wait_rusage` and `release`: the child is stopped, and what it used is seen.
unfoldable pub stop : ℕ → ProcessGuard → Seen → M (Seen × ProcessGuard)
stop fuel guard seen = do
  kill_process fuel guard
  r ← wait fuel guard
  pure (see r seen, release fuel guard)

abbrev pub killed_result : RunResult → ℤ → ℤ → RunResult
killed_result r time_used memory_used = record r {
  time_used = time_used;
  memory_used = memory_used;
  exit_signal = pos sigkill;
}

module _ (p : Platform) (fuel : ℕ) (time_limit_ms memory_limit_kb start : ℤ) where
  abbrev elapsed : ℤ → ℤ
  elapsed now = to_int (now -ℤ start)

  -- Milliseconds until the next round: 10 while the memory is above four fifths of the limit.
  unfoldable pub pause : Rusage → ℕ
  pause usage =
      if ltb_ℤ (pos 0) memory_limit_kb
        && p.gt (p.div (p.of_int usage.maxrss) (p.of_int memory_limit_kb)) (p.literal 8 1)
      then 10
      else 50

  -- The memory is above the limit.
  unfoldable pub stop_for_memory : ProcessGuard → Seen → M (Watched × ProcessGuard)
  stop_for_memory guard seen = do
    (after, guard') ← stop fuel guard seen
    now ← sys clock_ms
    pure (
      decided (
          killed_result (record new_run_result { status = memory_limit_exceeded }) (elapsed now.ret)
            after.usage.maxrss),
      guard',
    )

  -- The time is above the limit.
  unfoldable pub stop_for_time : ProcessGuard → Seen → ℤ → M (Watched × ProcessGuard)
  stop_for_time guard seen elapsed_ms = do
    (after, guard') ← stop fuel guard seen
    pure (
      decided (
          killed_result (record new_run_result { status = time_limit_exceeded }) elapsed_ms
            after.usage.maxrss),
      guard',
    )

  unfoldable pub wait_failed : ℕ → RunResult
  wait_failed errno = record new_run_result {
    status = system_error;
    sandbox_error = text "waitpid_failed";
    error_message = format_system_error p (text "wait4 failed") errno;
  }

  -- The rest of a round behind its wait, and what follows the round.
  unfoldable pub watch_reply :
      (Seen → M (Watched × ProcessGuard)) → ProcessGuard → Seen → Reply → M (Watched × ProcessGuard)
  watch_reply again guard seen r =
      let seen' = see r seen in
      if failed r
      then (if r.errno == eintr then again seen' else pure (decided (wait_failed r.errno), guard))
      else if eqb_ℤ r.ret (pos 0)
      then (if ltb_ℤ memory_limit_kb seen'.usage.maxrss
          then stop_for_memory guard seen'
          else sys clock_ms >>= λ now.
              if ltb_ℤ (to_int (time_limit_ms +ℤ pos 1000)) (elapsed now.ret)
              then stop_for_time guard seen' (elapsed now.ret)
              else sys (sleep_ms (pause seen'.usage)) >> again seen')
      else pure (ended seen'.status seen'.usage, release fuel guard)

  -- The loop, with the rounds that it may still take.
  unfoldable pub watch : ℕ → ProcessGuard → Seen → M (Watched × ProcessGuard)
  watch zero guard seen = out_of_fuel
  watch (suc rounds) guard seen =
      wait_nonblock fuel guard >>= watch_reply (watch rounds guard) guard seen
