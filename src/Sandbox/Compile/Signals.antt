-- ===== src/Sandbox/Compile/Signals.antt =====
-- The signals of `Sandbox::Compile` go to a compiler that still runs.
use deep_oj.Common.{
  ℕ, zero, suc, ◌≡◌, refl, Bool, true, false, ◌∷◌, Bool-cases, inl, inr, ◌==◌, arith,
}
use deep_oj.Common.Int.{ℤ, pos, negsuc, eqb_ℤ, ltb_ℤ, leb_ℤ, to_long, ◌-ℤ◌}
use deep_oj.Common.Bytes.{Bytes}
use deep_oj.Types.{GlobalConfig, CompileResult}
use deep_oj.Platform.{Platform}
use deep_oj.Os.{
  Reply, History, Environment, eintr, clock_ms, kill, sigkill, wait_nohang, wait_blocking,
}
use deep_oj.Os.Flow
use deep_oj.Os.Flow.{sys, M, failed, nonzero, when, skip, ◌>>=◌, ◌>>◌}
use deep_oj.Os.Tidy.{Leaves, Tidy, Tidy-pure, Tidy-bind, Tidy-if, Tidy-when, ◌⨟◌}
use deep_oj.Os.Yields.{
  Gives, Yields, Yields-pure, Yields-bind, Yields-if, Yields-pre, Yields-Tidy, Tidy-Yields,
}
use deep_oj.Os.Signals.{running, Aimed, Aimed-sys}
use deep_oj.Sandbox.Guard
use deep_oj.Sandbox.Guard.{ProcessGuard, new_guard, interrupted}
use deep_oj.Sandbox.Watch.{or_old}
use deep_oj.Sandbox.Workspace.{remove_directory}
use deep_oj.Sandbox.Quiet.{guarded-By}
use deep_oj.Sandbox.Compile
use deep_oj.Sandbox.Compile.{Compiled, compiler_ended, compiler_lost}
use deep_oj.Sandbox.Compile.Quiet.{directory_guarded-By}

-- A wait that does not block and is answered by 0 has found the child running.
abbrev Seen : ℤ → Reply → History → Type 0
Seen pid r h = Aimed h × (eqb_ℤ r.ret (pos 0) ≡ true → running pid h ≡ true)

module _ (env : Environment) where
  blocking-Aimed :
      (fuel : ℕ) (pid : ℤ) → Tidy Unit env Aimed Aimed (Guard.wait_loop fuel (wait_blocking pid))
  unfolding Guard.wait_loop
  blocking-Aimed fuel pid = record { run = go fuel }
    where
      go :
          (n : ℕ) (h : History)
          → Aimed h
          → Leaves Unit Aimed (Guard.wait_loop n (wait_blocking pid) env h)
      go zero h a = tt
      go (suc n) h a =
          let c = wait_blocking pid in
          elim (Bool-cases (interrupted (env h c))) [
            | inl e ↦ rw (Guard.wait_loop, e) (go n ((c, env h c) ∷ h) a)
            | inr e ↦ rw (Guard.wait_loop, e) a
          ]

  nohang-Seen :
      (fuel : ℕ) (pid : ℤ)
      → Yields Unit env Aimed Aimed (Seen pid) (Guard.wait_loop fuel (wait_nohang pid))
  unfolding Guard.wait_loop
  nohang-Seen fuel pid = record { run = go fuel }
    where
      go :
          (n : ℕ) (h : History)
          → Aimed h
          → Gives Unit Aimed (Seen pid) (Guard.wait_loop n (wait_nohang pid) env h)
      go zero h a = tt
      go (suc n) h a =
          let c = wait_nohang pid in
          elim (Bool-cases (interrupted (env h c))) [
            | inl e ↦ rw (Guard.wait_loop, e) (go n ((c, env h c) ∷ h) a)
            | inr e ↦ rw (Guard.wait_loop, e) (a, λ z. ground (arith, z))
          ]

  -- A signal to a child that is known to run.
  kill-Aimed :
      (pid : ℤ) (n : ℕ)
      → Yields Unit env Aimed
          (λ h. Aimed h × (running pid h ≡ true))
          (λ r. Aimed)
          (Flow.sys (kill pid n))
  unfolding Flow.sys
  kill-Aimed pid n = record { run = λ h k. ground (arith, k.0, k.1) }

  -- The clock changes nothing about that.
  clock-Seen :
      (pid : ℤ) (r : Reply)
      → eqb_ℤ r.ret (pos 0) ≡ true
      → Yields Unit env Aimed
          (Seen pid r)
          (λ now h. Aimed h × (running pid h ≡ true))
          (Flow.sys clock_ms)
  unfolding Flow.sys
  clock-Seen pid r z = record { run = λ h k. (k.0, k.1 z) }

  module _ (fuel : ℕ) (guard : ProcessGuard) where
    cleanup-Aimed : Tidy Unit env Aimed Aimed (Guard.cleanup fuel guard)
    unfolding Guard.cleanup
    cleanup-Aimed = Tidy-if _ (Tidy-pure tt) (
        Tidy-Yields (
          Yields-bind _ (nohang-Seen fuel guard.pid) (λ w. by_answer w (eqb_ℤ w.ret (pos 0)) refl)))
      where
        by_answer :
            (w : Reply) (b : Bool)
            → eqb_ℤ w.ret (pos 0) ≡ b
            → Yields Unit env Aimed
                (Seen guard.pid w)
                (λ u. Aimed)
                (when b (do
                  sys (kill guard.pid sigkill)
                  Guard.wait_loop fuel (wait_blocking guard.pid)
                  skip))
        by_answer w true e =
            Yields-pre (λ h k. (k.0, k.1 e))
              (Yields-bind _ (kill-Aimed guard.pid sigkill)
                (λ r. Yields-Tidy (λ h a. a) (blocking-Aimed fuel guard.pid ⨟ Tidy-pure tt)))
        by_answer w false e = Yields-pure tt (λ h k. k.0)

    wait_nonblock-Seen :
        Yields Unit env Aimed Aimed (Seen guard.pid) (Guard.wait_nonblock fuel guard)
    unfolding Guard.wait_nonblock
    wait_nonblock-Seen =
        Yields-if (leb_ℤ guard.pid (pos 0))
          (λ _. Yields-pure _ (λ h a. (a, λ z. absurd (ground (arith, z)))))
          (λ _. nohang-Seen fuel guard.pid)

    timeout-Aimed :
        (p : Platform) (g : GlobalConfig) (start : ℤ)
        → Yields Unit env Aimed
            (λ h. Aimed h × (running guard.pid h ≡ true))
            (λ w. Aimed)
            (Compile.compile_timeout p g fuel start guard)
    unfolding Compile.compile_timeout Guard.kill_process Guard.wait
    timeout-Aimed p g start =
        Yields-bind (λ b. Aimed)
          (Yields-if (leb_ℤ guard.pid (pos 0)) (λ _. Yields-pure _ (λ h k. k.0))
            (λ _.
              Yields-bind (λ r. Aimed) (kill-Aimed guard.pid sigkill)
                (λ r. Yields-pure _ (λ h a. a))))
          (λ b.
            Yields-Tidy (λ h a. a)
              (Tidy-if _ (Tidy-pure _) (blocking-Aimed fuel guard.pid) ⨟ Tidy-pure _))

  module _ (p : Platform) (g : GlobalConfig) (fuel : ℕ) where
    watch_compiler-Aimed :
        (start : ℤ) (rounds : ℕ) (guard : ProcessGuard) (status : ℕ)
        → Yields Unit env Aimed Aimed
            (λ w. Aimed)
            (Compile.watch_compiler p g fuel start rounds guard status)
    unfolding Compile.watch_compiler Compile.compile_reply
    watch_compiler-Aimed start zero guard status = record { run = λ h a. tt }
    watch_compiler-Aimed start (suc rounds) guard status =
        Yields-bind _ (wait_nonblock-Seen fuel guard) (λ r.
          let status' = or_old r.out status in
          Yields-pre (λ h k. k)
            (Yields-if (failed r)
              (λ f.
                Yields-pre (λ h k. k.0)
                  (Yields-if (r.errno == eintr)
                    (λ _. watch_compiler-Aimed start rounds guard status')
                    (λ _. Yields-pure _ (λ h a. a))))
              (λ f.
                Yields-if (eqb_ℤ r.ret (pos 0))
                  (λ z.
                    Yields-bind (λ now h. Aimed h × (running guard.pid h ≡ true))
                      (clock-Seen guard.pid r z)
                      (λ now.
                        Yields-if
                          (ltb_ℤ (Compile.compile_time_limit g) (to_long (now.ret -ℤ start)))
                          (λ _. timeout-Aimed fuel guard p g start)
                          (λ _.
                            Yields-pre (λ h k. k.0)
                              (Yields-bind _ (Yields-Tidy (λ h a. a) (Aimed-sys _ refl))
                                (λ r. watch_compiler-Aimed start rounds guard status')))))
                  (λ z. Yields-pure _ (λ h k. k.0)))))

    judge_compile-Aimed :
        (dir : Bytes) (result : CompileResult) (c : Compiled)
        → Tidy Unit env Aimed Aimed (Compile.judge_compile dir result c)
    unfolding Compile.judge_compile
    judge_compile-Aimed dir result (compiler_lost message) = Tidy-pure _
    judge_compile-Aimed dir result (compiler_ended status) =
        Tidy-if _ (Tidy-if _ (Tidy-pure _) (Tidy-bind (Aimed-sys _ refl) (λ log. Tidy-pure _)))
          (Tidy-if _ (Tidy-pure _) (Tidy-pure _))

    supervise_compiler-Aimed :
        (dir : Bytes) (result : CompileResult) (pid : ℤ)
        → Tidy Unit env Aimed Aimed (Compile.supervise_compiler p g fuel dir result pid)
    unfolding Compile.supervise_compiler
    supervise_compiler-Aimed dir result pid = Tidy-bind (Aimed-sys _ refl) (λ start.
        Tidy-bind (Tidy-Yields (watch_compiler-Aimed start.ret fuel (new_guard pid) 0))
          (λ w. Tidy-bind (judge_compile-Aimed dir result w.0) (λ judged. Tidy-pure _)))

    remove_directory-Aimed : (path : Bytes) → Tidy Unit env Aimed Aimed (remove_directory path)
    unfolding remove_directory
    remove_directory-Aimed path =
        Tidy-bind (Aimed-sys _ refl) (λ there. Tidy-when _ (Aimed-sys _ refl ⨟ Tidy-pure tt))

    compile_in-Aimed :
        (dir : Bytes) (result : CompileResult)
        → Tidy Unit env Aimed Aimed (Compile.compile_in p g fuel dir result)
    unfolding Compile.compile_in Compile.run_compiler
    compile_in-Aimed dir result = Tidy-bind (Aimed-sys _ refl) (λ owned.
        Tidy-if (nonzero owned) (Tidy-pure _) (
          Tidy-bind (Aimed-sys _ refl) (λ restricted. Tidy-if (failed restricted) (Tidy-pure _) (
            directory_guarded-By dir (remove_directory-Aimed dir) (
              Tidy-bind (Aimed-sys _ refl) (λ r. Tidy-if (eqb_ℤ r.ret (negsuc 0)) (Tidy-pure _) (
                guarded-By fuel (cleanup-Aimed fuel) r.ret
                  (supervise_compiler-Aimed dir result r.ret))))))))

    compile-Aimed :
        (temp_dir request_id source_code : Bytes)
        → Tidy Unit env Aimed Aimed (Compile.compile p g fuel temp_dir request_id source_code)
    unfolding Compile.compile Compile.compile_request
    compile-Aimed temp_dir request_id source_code = Tidy-if _ (Tidy-pure _) (
        Tidy-bind (Aimed-sys _ refl) (λ made. Tidy-bind (Aimed-sys _ refl) (λ written.
          Tidy-if (failed written) (Tidy-pure _)
            (Tidy-if (nonzero written) (Tidy-pure _) (compile_in-Aimed _ _)))))

    -- In every environment, when `Compile` returns or throws, each signal that it has sent went to
    -- a process that the last wait for it, one that did not block, had found running: so never to a
    -- compiler that had been reaped.
    pub compile_aims :
        (temp_dir request_id source_code : Bytes) (h : History)
        → Aimed h
        → Leaves (Unit {0}) Aimed (Compile.compile p g fuel temp_dir request_id source_code env h)
    compile_aims temp_dir request_id source_code h a =
        (compile-Aimed temp_dir request_id source_code).run h a
