-- ===== src/Main/Quiet.antt =====
-- What `main` does behind its options, beside running and compiling, leaves the invariants alone
-- that quiet calls keep; so all of it does where `Run` and `Compile` do.
use deep_oj.Common.{refl, not, ◌||◌, Option, none, some, is_empty, ℕ}
use deep_oj.Common.Bytes.{Bytes}
use deep_oj.Types.{GlobalConfig}
use deep_oj.Platform.{Platform}
use deep_oj.Os.{History, Environment}
use deep_oj.Os.Flow.{failed}
use deep_oj.Os.Tidy.{
  Stable, Tidy, Tidy-pure, Tidy-bind, ◌⨟◌, Tidy-if, Tidy-when, Tidy-quiet, Tidy-throw,
}
use deep_oj.Sandbox.Run.{RunRequest, run}
use deep_oj.Sandbox.Workspace.{new_sandbox, cleanup_request, remove_directory}
use deep_oj.Sandbox.Compile.{compile}
use deep_oj.Main
use deep_oj.Main.{ExecutionConfig, Answer}

module _ {U : Type 0} {env : Environment} {I : History → Type 0} (stable : Stable I) where
  pub validate_config-Tidy : (g : GlobalConfig) → Tidy U env I I (Main.validate_config g)
  unfolding Main.validate_config
  validate_config-Tidy g = Tidy-if (is_empty g.workspace_root) (Tidy-pure _) (
      Tidy-if (is_empty g.compiler_path) (Tidy-pure _) (
        Tidy-bind (Tidy-quiet stable _ refl) (λ there.
          Tidy-if _ (Tidy-throw _)
            (Tidy-if _ (Tidy-pure _) (Tidy-bind (Tidy-quiet stable _ refl) (λ x. Tidy-pure _))))))

  pub new_sandbox-Tidy : (p : Platform) (dir : Bytes) → Tidy U env I I (new_sandbox p dir)
  unfolding new_sandbox
  new_sandbox-Tidy p dir =
      Tidy-bind (Tidy-quiet stable _ refl) (λ made. Tidy-when (failed made) (Tidy-throw _))

  pub cleanup_request-Tidy : (dir id : Bytes) → Tidy U env I I (cleanup_request dir id)
  unfolding cleanup_request remove_directory
  cleanup_request-Tidy dir id = Tidy-if _ (Tidy-pure tt) (
      Tidy-bind (Tidy-quiet stable _ refl)
        (λ there. Tidy-when _ (Tidy-quiet stable _ refl ⨟ Tidy-pure tt)))

  emit-Tidy : (p : Platform) (a : Answer) → Tidy U env I I (Main.emit p a)
  unfolding Main.emit
  emit-Tidy p a = Tidy-if (Main.writable p a.line) (Tidy-pure a) (Tidy-throw _)

  module _ (p : Platform) (fuel : ℕ)
      (runs : (g : GlobalConfig) (q : RunRequest) → Tidy U env I I (run p g q fuel))
      (compiles : (g : GlobalConfig) (dir id source : Bytes)
        → Tidy U env I I (compile p g fuel dir id source)) where
    main_cleanup-Tidy :
        (g : GlobalConfig) (c : ExecutionConfig) → Tidy U env I I (Main.main_cleanup p g fuel c)
    unfolding Main.main_cleanup
    main_cleanup-Tidy g c =
        Tidy-if (is_empty c.request_id) (Tidy-pure _)
          (cleanup_request-Tidy g.workspace_root c.request_id ⨟ emit-Tidy p _)

    main_compile-Tidy :
        (g : GlobalConfig) (c : ExecutionConfig) → Tidy U env I I (Main.main_compile p g fuel c)
    unfolding Main.main_compile
    main_compile-Tidy g c =
        Tidy-if (is_empty c.source_path || is_empty c.request_id) (Tidy-pure _) (
          Tidy-bind (Tidy-quiet stable _ refl) (λ source.
            Tidy-if (failed source) (Tidy-pure _)
              (Tidy-bind (compiles g _ _ source.bytes) (λ result. emit-Tidy p _))))

    main_run-Tidy :
        (g : GlobalConfig) (c : ExecutionConfig) → Tidy U env I I (Main.main_run p g fuel c)
    unfolding Main.main_run Main.main_started
    main_run-Tidy g c =
        Tidy-if (is_empty c.code_path || is_empty c.input_path || is_empty c.output_path)
          (emit-Tidy p _)
          (Tidy-if (is_empty c.job_id) (emit-Tidy p _) (
            Tidy-if (not c.attempt_explicit) (emit-Tidy p _)
              (Tidy-bind (runs g (Main.run_request c)) (λ result. emit-Tidy p _))))

    main_mode-Tidy :
        (g : GlobalConfig) (c : ExecutionConfig) → Tidy U env I I (Main.main_mode p g fuel c)
    unfolding Main.main_mode
    main_mode-Tidy g c =
        new_sandbox-Tidy p g.workspace_root
        ⨟ Tidy-if c.cleanup_only (main_cleanup-Tidy g c) (
            Tidy-if (c.compile_only || not (is_empty c.source_path)) (main_compile-Tidy g c)
              (main_run-Tidy g c))

    main_filled-Tidy :
        (g : GlobalConfig) (c : ExecutionConfig) → Tidy U env I I (Main.main_filled p g fuel c)
    unfolding Main.main_filled
    main_filled-Tidy g c =
        Tidy-if c.self_test (emit-Tidy p _) (Tidy-bind (validate_config-Tidy g) by_error)
      where
        by_error :
            (error : Option Bytes)
            → Tidy U env I I (elim error [
              | none ↦ Main.main_mode p g fuel c
              | some message ↦ Main.emit p (Main.answer_invalid c message)
            ])
        by_error none = main_mode-Tidy g c
        by_error (some message) = emit-Tidy p _

    pub main_parsed-Tidy :
        (g : GlobalConfig) (c : ExecutionConfig) → Tidy U env I I (Main.main_parsed p g fuel c)
    unfolding Main.main_parsed Main.fill_job Main.fill_attempt
    main_parsed-Tidy g c =
        Tidy-bind
          (Tidy-if _ (Tidy-bind (Tidy-quiet stable _ refl) (λ job. Tidy-pure _)) (Tidy-pure _))
          (λ c'.
            Tidy-bind
              (Tidy-if _ (Tidy-pure _) (Tidy-bind (Tidy-quiet stable _ refl) (λ r. Tidy-pure _)))
              (λ c''. main_filled-Tidy g c''))
