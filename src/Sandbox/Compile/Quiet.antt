-- ===== src/Sandbox/Compile/Quiet.antt =====
-- The loop in which `Sandbox::Compile` waits opens no descriptor and makes no process.
use deep_oj.Common.{ℕ, zero, suc, ◌≡◌, refl, Bool, true, false, ◌==◌}
use deep_oj.Common.Int.{ℤ, pos, negsuc, eqb_ℤ}
use deep_oj.Common.Bytes.{Bytes}
use deep_oj.Types.{GlobalConfig, CompileResult, CompileArgs}
use deep_oj.Platform.{Platform}
use deep_oj.Os.{Call, History, Environment, eintr, clone_compile, clock_ms}
use deep_oj.Os.Flow.{
  Outcome, returns, exits, becomes, throws, unfinished, M, ◌>>=◌, sys, failed, nonzero,
}
use deep_oj.Os.Tidy.{
  Leaves, Leaves-bind, Tidy, Stable, Tidy-pure, Tidy-out_of_fuel, Tidy-bind, ◌⨟◌, Tidy-when,
  Tidy-quiet, Tidy-if,
}
use deep_oj.Sandbox.Guard.{ProcessGuard, new_guard, wait_loop}
use deep_oj.Sandbox.Watch.{or_old}
use deep_oj.Sandbox.Workspace.{remove_directory, directory_guarded, leave_directory}
use deep_oj.Sandbox.Quiet.{is_wait, wait_nonblock-Tidy, wait-Tidy, kill_process-Tidy, guarded-Tidy}
use deep_oj.Sandbox.Compile
use deep_oj.Sandbox.Compile.{Compiled, compiler_ended, compiler_lost}

module _ {U : Type 0} {env : Environment} {I : History → Type 0} (stable : Stable I) (fuel : ℕ)
    (waits : (c : Call) → is_wait c ≡ true → Tidy U env I I (wait_loop fuel c)) (p : Platform)
    (g : GlobalConfig) (start : ℤ) where
  pub compile_timeout-Tidy :
      (guard : ProcessGuard) → Tidy U env I I (Compile.compile_timeout p g fuel start guard)
  unfolding Compile.compile_timeout
  compile_timeout-Tidy guard =
      kill_process-Tidy stable fuel waits guard ⨟ wait-Tidy stable fuel waits guard ⨟ Tidy-pure _

  pub watch_compiler-Tidy :
      U
      → (rounds : ℕ) (guard : ProcessGuard) (status : ℕ)
      → Tidy U env I I (Compile.watch_compiler p g fuel start rounds guard status)
  unfolding Compile.watch_compiler Compile.compile_reply
  watch_compiler-Tidy u zero guard status = Tidy-out_of_fuel u
  watch_compiler-Tidy u (suc rounds) guard status =
      Tidy-bind (wait_nonblock-Tidy stable fuel waits guard) (λ r.
        Tidy-if (failed r)
          (Tidy-if (r.errno == eintr) (watch_compiler-Tidy u rounds guard (or_old r.out status))
            (Tidy-pure _))
          (Tidy-if (eqb_ℤ r.ret (pos 0))
            (Tidy-bind (Tidy-quiet stable _ refl) (λ now. Tidy-if _ (compile_timeout-Tidy guard) (
              Tidy-quiet stable _ refl ⨟ watch_compiler-Tidy u rounds guard (or_old r.out status))))
            (Tidy-pure _)))

-- The scope of a directory, where its removal keeps the invariant.
pub directory_guarded-By :
    {U : Type 0} {env : Environment} {I : History → Type 0} {A : Type 0} (path : Bytes)
    {body : M (A × Bool)}
    → Tidy U env I I (remove_directory path)
    → Tidy U env I I body
    → Tidy U env I I (directory_guarded path body)
unfolding directory_guarded
directory_guarded-By {U} {env} {I} {A} path {body} removes d = record {
  run = λ h i. go (body env h) (d.run h i);
}
  where
    go : (o : Outcome (A × Bool)) → Leaves U I o → Leaves U I (leave_directory path o env)
    go (returns (a, true) h) i = i
    go (returns (a, false) h) i =
        Leaves-bind U I (remove_directory path env h) (λ _ h'. returns a h') (removes.run h i)
          (λ _ h' j. j)
    go (exits c h) i = i
    go (becomes q a h) i = i
    go (throws e raised h) i =
        Leaves-bind U I (remove_directory path env h) (λ _ h'. throws e raised h') (removes.run h i)
          (λ _ h' j. j)
    go (unfinished h) i = i

module _ {U : Type 0} {env : Environment} {I : History → Type 0} (stable : Stable I) where
  pub judge_compile-Tidy :
      (dir : Bytes) (result : CompileResult) (c : Compiled)
      → Tidy U env I I (Compile.judge_compile dir result c)
  unfolding Compile.judge_compile
  judge_compile-Tidy dir result (compiler_lost message) = Tidy-pure _
  judge_compile-Tidy dir result (compiler_ended status) =
      Tidy-if _
        (Tidy-if _ (Tidy-pure _) (Tidy-bind (Tidy-quiet stable _ refl) (λ log. Tidy-pure _)))
        (Tidy-if _ (Tidy-pure _) (Tidy-pure _))

  remove_directory-Tidy : (path : Bytes) → Tidy U env I I (remove_directory path)
  unfolding remove_directory
  remove_directory-Tidy path =
      Tidy-bind (Tidy-quiet stable _ refl)
        (λ there. Tidy-when _ (Tidy-quiet stable _ refl ⨟ Tidy-pure tt))

  pub directory_guarded-Tidy :
      {A : Type 0} (path : Bytes) {body : M (A × Bool)}
      → Tidy U env I I body
      → Tidy U env I I (directory_guarded path body)
  directory_guarded-Tidy path d = directory_guarded-By path (remove_directory-Tidy path) d

  -- The whole of `Compile`, for an invariant that a clone keeps too.
  module _ (clones : (args : CompileArgs) → Tidy U env I I (sys (clone_compile args))) (fuel : ℕ)
      (waits : (c : Call) → is_wait c ≡ true → Tidy U env I I (wait_loop fuel c)) (p : Platform)
      (g : GlobalConfig)
      (loop : (pid : ℤ) (k : Compiled × ProcessGuard → M ((CompileResult × Bool) × ProcessGuard))
        → ((w : Compiled × ProcessGuard) → Tidy U env I I (k w))
        → Tidy U env I I (
            sys clock_ms >>= λ start.
            (Compile.watch_compiler p g fuel start.ret fuel (new_guard pid) 0 >>= k))) where
    run_compiler-Tidy :
        (dir : Bytes) (result : CompileResult)
        → Tidy U env I I (Compile.run_compiler p g fuel dir result)
    unfolding Compile.run_compiler Compile.supervise_compiler
    run_compiler-Tidy dir result = Tidy-bind (clones (Compile.compile_args dir)) (λ r.
        Tidy-if (eqb_ℤ r.ret (negsuc 0)) (Tidy-pure _) (
          guarded-Tidy stable fuel waits r.ret
            (loop r.ret _ (λ w. Tidy-bind (judge_compile-Tidy dir result w.0) (λ j. Tidy-pure _)))))

    pub compile-Tidy :
        (temp_dir request_id source_code : Bytes)
        → Tidy U env I I (Compile.compile p g fuel temp_dir request_id source_code)
    unfolding Compile.compile Compile.compile_request Compile.compile_in
    compile-Tidy temp_dir request_id source_code = Tidy-if _ (Tidy-pure _) (
        Tidy-bind (Tidy-quiet stable _ refl) (λ made.
          Tidy-bind (Tidy-quiet stable _ refl) (λ written. Tidy-if (failed written) (Tidy-pure _) (
            Tidy-if (nonzero written) (Tidy-pure _) (
              Tidy-bind (Tidy-quiet stable _ refl) (λ owned. Tidy-if (nonzero owned) (Tidy-pure _) (
                Tidy-bind (Tidy-quiet stable _ refl) (λ restricted.
                  Tidy-if (failed restricted) (Tidy-pure _)
                    (directory_guarded-Tidy _ (run_compiler-Tidy _ _))))))))))
