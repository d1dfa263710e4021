-- ===== src/Sandbox/Run/Reaping.antt =====
-- The child of `Sandbox::Run` has been waited for when `Run` comes back.
use deep_oj.Common.{ℕ, ◌≡◌, refl, false, List, inr}
use deep_oj.Common.Int.{ℤ, pos, ltb_ℤ, leb_ℤ}
use deep_oj.Common.Bytes.{Bytes}
use deep_oj.Types.{GlobalConfig}
use deep_oj.Platform.{Platform}
use deep_oj.Os.{Call, OpenFlag, History, Environment, dup}
use deep_oj.Os.Flow.{M, ◌>>=◌, sys, scoped}
use deep_oj.Os.Tidy.{Leaves, Tidy, Tidy-pure, Tidy-bind, ◌⨟◌, Tidy-if, Tidy-when}
use deep_oj.Os.Balance.{Tidy-scoped}
use deep_oj.Os.Yields.{Yields-pure, Yields-bind, Yields-quiet, Yields-scoped, Yields-Tidy}
use deep_oj.Os.Orphans.{makes_child, Settled, Owed, Settled-kept, Settled-Stable, Owed-Stable}
use deep_oj.Sandbox.Guard.{auto_close}
use deep_oj.Sandbox.Quiet.{any-Loops}
use deep_oj.Sandbox.Reaping.{Reaps, cloned-Tidy}
use deep_oj.Sandbox.Watch.Reaping.{watch-Reaps}
use deep_oj.Sandbox.Run
use deep_oj.Sandbox.Run.{RunRequest}
use deep_oj.Sandbox.Run.Descriptors.{
  start_cgroup-Tidy, destroy_cgroup-Tidy, conclude-Tidy, supervise-Tidy,
}

module _ {env : Environment} where
  -- A call that makes no child.
  pub Settled-sys : (c : Call) → makes_child c ≡ false → Tidy Unit env Settled Settled (sys c)
  unfolding sys
  Settled-sys c q = record { run = λ h s. Settled-kept c (env h c) h q s }

  auto_close-Settled : (fd : ℤ) → Tidy Unit env Settled Settled (auto_close fd)
  unfolding auto_close
  auto_close-Settled fd = Tidy-when _ (Settled-sys _ refl ⨟ Tidy-pure tt)

  open_or_null-Settled :
      (null_fd : ℤ) (flags : List OpenFlag) (mode : ℕ) (path : Bytes)
      → Tidy Unit env Settled Settled (Run.open_or_null null_fd flags mode path)
  unfolding Run.open_or_null
  open_or_null-Settled null_fd flags mode path =
      let copied = Tidy-bind (Settled-sys (dup null_fd) refl) (λ r. Tidy-pure r.ret) in
      Tidy-if _ copied (Tidy-bind (Settled-sys _ refl) (λ fd. Tidy-if _ copied (Tidy-pure fd.ret)))

module _ (env : Environment) (p : Platform) (g : GlobalConfig) (q : RunRequest) (fuel : ℕ) where
  supervise-Reaps :
      (pid : ℤ)
      → leb_ℤ pid (pos 0) ≡ false
      → Reaps env pid (Owed pid) (λ a. Settled) (Run.supervise p g q fuel pid)
  unfolding Run.supervise Run.watch_and_conclude
  supervise-Reaps pid alive =
      Yields-bind _ (Yields-Tidy (λ h o. o) (start_cgroup-Tidy (Owed-Stable pid) p g q pid)) (λ c.
        Yields-scoped (λ h s. inr s)
          (Yields-bind _ (Yields-quiet (Owed-Stable pid) _ refl) (λ start.
            Yields-bind _
              (watch-Reaps env pid (Owed pid) alive fuel p q.time_limit_ms q.memory_limit_kb
                start.ret fuel _)
              (λ w.
                Yields-bind _
                  (Yields-Tidy (λ h s. inr s) (conclude-Tidy Settled-Stable p g q c w.0))
                  (λ result. Yields-pure _ (λ h s. s)))))
          (destroy_cgroup-Tidy Settled-Stable p g q c)
          (destroy_cgroup-Tidy (Owed-Stable pid) p g q c))

  run_with-Settled :
      (input_fd output_fd error_fd : ℤ)
      → Tidy Unit env Settled Settled (Run.run_with p g q fuel input_fd output_fd error_fd)
  unfolding Run.run_with
  run_with-Settled input_fd output_fd error_fd =
      cloned-Tidy env fuel _ refl (λ r. Run.clone_failed p g q r.errno) (Run.supervise p g q fuel)
        supervise-Reaps
        (supervise-Tidy Settled-Stable p g q fuel
          (any-Loops env fuel p q.time_limit_ms q.memory_limit_kb))

  -- A descriptor, what is done with it, and the destructor that closes it.
  with_descriptor-Settled :
      {A : Type 0} (null_fd : ℤ) (flags : List OpenFlag) (mode : ℕ) (path : Bytes) {f : ℤ → M A}
      → ((fd : ℤ) → Tidy Unit env Settled Settled (f fd))
      → Tidy Unit env Settled Settled
          (Run.open_or_null null_fd flags mode path >>= λ fd. scoped (f fd) (auto_close fd))
  with_descriptor-Settled null_fd flags mode path df =
      Tidy-bind (open_or_null-Settled null_fd flags mode path)
        (λ fd. Tidy-scoped _ (df fd) (auto_close-Settled fd))

  pub run-Settled : Tidy Unit env Settled Settled (Run.run p g q fuel)
  unfolding Run.run Run.with_input Run.with_output Run.with_error
  run-Settled = Tidy-bind (Settled-sys _ refl) (λ null.
      Tidy-if (ltb_ℤ null.ret (pos 0)) (Tidy-pure _) (
        Tidy-scoped _
          (with_descriptor-Settled null.ret _ _ _ (λ input_fd.
            with_descriptor-Settled null.ret _ _ _ (λ output_fd.
              with_descriptor-Settled null.ret _ _ _
                (λ error_fd. run_with-Settled input_fd output_fd error_fd))))
          (auto_close-Settled null.ret)))

  -- In every environment, when `Run` returns or throws, its child has been waited for, if there was
  -- one: behind the clone there is a wait for it that the system has answered by its end, or by
  -- the word that there is no such child.
  pub run_reaps : (h : History) → Settled h → Leaves (Unit {0}) Settled (Run.run p g q fuel env h)
  run_reaps h s = run-Settled.run h s
