-- ===== src/Sandbox/Verdict/Correct.antt =====
-- When each verdict is given: laws of the functions behind the loop of `Sandbox::Run`.
use deep_oj.Common.{
  ℕ, ◌≤◌, ◌<◌, ◌≡◌, ◌≢◌, ◌↔◌, ◌⊎◌, refl, true, false, Option, none, some, arith, inl, inr,
  Bool-cases, [], ◌∷◌,
}
use deep_oj.Common.Int.{ℤ, pos, to_unsigned, ltb_ℤ, ◌≤ℤ◌, ◌<ℤ◌}
use deep_oj.Common.Bytes.{Bytes}
use deep_oj.Types.{
  GlobalConfig, RunResult, accepted, time_limit_exceeded, memory_limit_exceeded,
  output_limit_exceeded, system_error,
}
use deep_oj.Platform.{Platform}
use deep_oj.Os.{
  Reply, exists, file_size, read_file, Rusage, Environment, History, sigabrt, sigkill, sigsegv,
  sigxcpu, sigxfsz,
}
use deep_oj.Os.Flow.{◌>>=◌, failed, Outcome, returns, exits, becomes, throws, unfinished}
use deep_oj.Sandbox.ExitStatus.{wifexited, wexitstatus, wifsignaled, wtermsig}
use deep_oj.Sandbox.Marker.{
  no_marker, find_marker, lines, read_run_exec_failure_marker, RunExecFailureMarker,
}
use deep_oj.Sandbox.Verdict.{near_limit, judge_wait, output_size, over_limit, assess}

-- How the child ended, as its wait status says.
abbrev pub Exited : ℕ → ℕ → Type 0
Exited n status = (wifexited status ≡ true) × (wexitstatus status ≡ n)

abbrev pub Signalled : ℕ → ℕ → Type 0
Signalled n status =
    (wifexited status ≡ false) × (wifsignaled status ≡ true) × (wtermsig status ≡ n)

module _ (p : Platform) (time_limit memory_limit : ℤ) (marker : RunExecFailureMarker) (status : ℕ)
    (r : RunResult) where
  abbrev judged : RunResult
  judged = judge_wait p time_limit memory_limit marker status r

  pub judge_wait-accepted_iff : (judged.status ≡ accepted) ↔ Exited 0 status
  unfolding judge_wait
  judge_wait-accepted_iff = ground arith

  pub judge_wait-time_iff :
      (judged.status ≡ time_limit_exceeded)
      ↔ (Signalled sigxcpu status ⊎ (Signalled sigkill status × (time_limit <ℤ r.time_used)))
  unfolding judge_wait
  judge_wait-time_iff = ground arith

  pub judge_wait-memory_iff :
      r.memory_used ≤ℤ memory_limit
      → (judged.status ≡ memory_limit_exceeded) ↔ (
          (Signalled sigabrt status ⊎ Signalled sigsegv status)
          × (near_limit p memory_limit ≤ℤ r.memory_used))
  unfolding judge_wait
  judge_wait-memory_iff fits = ground arith

  pub judge_wait-output_iff : (judged.status ≡ output_limit_exceeded) ↔ Signalled sigxfsz status
  unfolding judge_wait
  judge_wait-output_iff = ground arith

  -- The exit codes that the engine takes for a failure of its own.
  abbrev pub SandboxFailure : Type 0
  SandboxFailure =
      (wifexited status ≡ true)
      × (120 ≤ wexitstatus status)
      × ((wexitstatus status ≢ 127) ⊎ (marker.found ≡ true))

  pub judge_wait-system_error_iff :
      (judged.status ≡ system_error)
      ↔ (SandboxFailure ⊎ ((wifexited status ≡ false) × (wifsignaled status ≡ false)))
  unfolding judge_wait
  judge_wait-system_error_iff = ground arith

-- What a run that returned has given; a run that ended in another way has given nothing.
abbrev pub Returns : {A : Type 0} → Outcome A → (A → Type 0) → Type 0
Returns (returns a h) P = P a
Returns (exits c h) P = ⊥
Returns (becomes q a h) P = ⊥
Returns (throws e raised h) P = ⊥
Returns (unfinished h) P = ⊥

read-returns :
    (path : Bytes) (env : Environment) (h : History)
    → (m : RunExecFailureMarker) × (h' : History) × (read_run_exec_failure_marker path env h
        ≡ returns m h')
unfolding read_run_exec_failure_marker ◌>>=◌
read-returns [] env h = (no_marker, h, refl)
read-returns (b ∷ path) env h =
    let r = env h (read_file (b ∷ path)) in
    elim (Bool-cases (failed r)) [
      | inl e ↦ (no_marker, (read_file (b ∷ path), r) ∷ h, rw e refl)
      | inr e ↦ (find_marker (lines r.bytes), (read_file (b ∷ path), r) ∷ h, rw e refl)
    ]

module _ (p : Platform) (g : GlobalConfig) (output_path : Bytes) (env : Environment)
    (h : History) where
  abbrev there : Reply
  there = env h (exists output_path)

  abbrev size : Reply
  size = env ((exists output_path, there) ∷ h) (file_size output_path)

  -- The output file is there, its size can be read, and it is above the limit.
  abbrev pub OutputOver : Type 0
  OutputOver =
      (pos 0 <ℤ there.ret)
      × (failed size ≡ false)
      × (to_unsigned 64 g.max_output_size < to_unsigned 64 size.ret)

  pub output_size_sound :
      (o : Option ℕ) × (h' : History) × (output_size p output_path env h ≡ returns o h')
      × ((over_limit p g o ≡ true) ↔ OutputOver)
  unfolding output_size ◌>>=◌
  output_size_sound = elim (Bool-cases (ltb_ℤ (pos 0) there.ret)) [
    | inl e ↦ elim (Bool-cases (failed size)) [
      | inl f ↦ (
        none,
        (file_size output_path, size) ∷ (exists output_path, there) ∷ h,
        rw (e, f) refl,
        ground arith,
      )
      | inr f ↦ (
        some (to_unsigned 64 size.ret),
        (file_size output_path, size) ∷ (exists output_path, there) ∷ h,
        rw (e, f) refl,
        ground arith,
      )
    ]
    | inr e ↦ (none, (exists output_path, there) ∷ h, rw e refl, ground arith)
  ]

module _ (p : Platform) (g : GlobalConfig) (time_limit memory_limit : ℤ)
    (output_path stderr_path : Bytes) (status : ℕ) (usage : Rusage) (r : RunResult)
    (env : Environment) (h : History) where
  abbrev pub assessed : Outcome RunResult
  assessed = assess p g time_limit memory_limit output_path stderr_path status usage r env h

  abbrev pub Over : Type 0
  Over = OutputOver p g output_path env h

  abbrev pub Fits : Type 0
  Fits = (¬ Over) × (r.memory_used ≤ℤ memory_limit)

  -- The three ways through `assess`.
  pub data Way : Outcome RunResult → Type 0 where
    output :
        {v : RunResult} {h' : History}
        → Over
        → v.status ≡ output_limit_exceeded
        → Way (returns v h')
    memory :
        {v : RunResult} {h' : History}
        → ¬ Over
        → memory_limit <ℤ r.memory_used
        → v.status ≡ memory_limit_exceeded
        → Way (returns v h')
    waited :
        {h' : History} (m : RunExecFailureMarker)
        → Fits
        → Way (returns (judge_wait p time_limit memory_limit m status r) h')

  pub assess-Way : Way assessed
  unfolding assess ◌>>=◌
  assess-Way =
      let (o, h', e, over) = output_size_sound p g output_path env h in
      elim (Bool-cases (over_limit p g o)) [
        | inl yes_over ↦ rw (e, yes_over) (Way.output (over.0 yes_over) refl)
        | inr not_over ↦ elim (Bool-cases (ltb_ℤ memory_limit r.memory_used)) [
          | inl more ↦ rw (e, not_over, more) (Way.memory (λ o. cc (over.1 o)) (ground arith) refl)
          | inr fits ↦
              let (m, h'', f) = read-returns stderr_path env h' in
              rw (e, not_over, fits, f) (Way.waited m ((λ o. cc (over.1 o)), ground arith))
        ]
      ]

  -- The ends of the child that `Run` answers with a failure of its own, whatever the marker, and
  -- those that it may answer so.
  abbrev Unexplained : Type 0
  Unexplained = (wifexited status ≡ false) × (wifsignaled status ≡ false)

  abbrev pub Verdicts : RunResult → Type 0
  Verdicts v =
      ((v.status ≡ accepted) ↔ (Fits × Exited 0 status))
      × ((v.status ≡ output_limit_exceeded) ↔ (Over ⊎ (Fits × Signalled sigxfsz status)))
      × ((v.status ≡ time_limit_exceeded) ↔ (
          Fits
          × (Signalled sigxcpu status ⊎ (Signalled sigkill status × (time_limit <ℤ r.time_used)))))
      × ((v.status ≡ memory_limit_exceeded) ↔ (
          ((¬ Over) × (memory_limit <ℤ r.memory_used))
          ⊎ (Fits
              × (Signalled sigabrt status ⊎ Signalled sigsegv status)
              × (near_limit p memory_limit ≤ℤ r.memory_used))))
      × ((v.status ≡ system_error)
          → Fits × (((wifexited status ≡ true) × (120 ≤ wexitstatus status)) ⊎ Unexplained))
      × (Fits
            × (((wifexited status ≡ true) × (120 ≤ wexitstatus status) × (wexitstatus status ≢ 127))
                ⊎ Unexplained)
          → v.status ≡ system_error)

  Way-Verdicts : {o : Outcome RunResult} → Way o → Returns o Verdicts
  Way-Verdicts (output over e) = ground arith
  Way-Verdicts (memory not_over more e) = ground arith
  Way-Verdicts (waited m fits) = ground (
    arith,
    judge_wait-accepted_iff p time_limit memory_limit m status r,
    judge_wait-output_iff p time_limit memory_limit m status r,
    judge_wait-time_iff p time_limit memory_limit m status r,
    judge_wait-memory_iff p time_limit memory_limit m status r fits.1,
    judge_wait-system_error_iff p time_limit memory_limit m status r,
  )

  -- For every answer of the system the checks behind the loop return a result. It is accepted just
  -- if the output and the memory fit and the child exited with 0. An output over the limit is
  -- reported whatever else holds, then too much memory; SIGXFSZ counts as output, SIGXCPU and a
  -- SIGKILL after the time limit as time, SIGABRT and SIGSEGV near the memory limit as memory. Every
  -- exit code from 120 on, but for 127, counts as a failure of the engine, and nothing else does but
  -- 127 and a wait status of no known kind.
  pub assess_verdict : Returns assessed Verdicts
  assess_verdict = Way-Verdicts assess-Way
