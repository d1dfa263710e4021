-- ===== src/Tests/Children.antt =====
-- The theorems on the children of the engine, at concrete inputs.
use deep_oj.Common.{false, arith, refl, [], ◌*◌}
use deep_oj.Common.Bytes.{text}
use deep_oj.Os.Tidy.{Leaves}
use deep_oj.Os.Orphans.{Settled}
use deep_oj.Sandbox.Run.{run}
use deep_oj.Sandbox.Run.Reaping.{run_reaps}
use deep_oj.Sandbox.Compile.{compile}
use deep_oj.Sandbox.Compile.Reaping.{compile_reaps}
use deep_oj.Sandbox.Run.Limits.{controls, limits_in_force}
use deep_oj.Cgroup.Contents.{Holds}
use deep_oj.Os.Yields.{Gives}
use deep_oj.Os.Owner.{Moves, Assigns}
use deep_oj.Sandbox.Guard.{new_guard}
use deep_oj.Common.{true, ◌⊎◌, arith, ◌∷◌, ◌≡◌}
use deep_oj.Common.Int.{negsuc}
use deep_oj.Os.{Environment, dup2}
use deep_oj.Os.Flow.{exits, ◌>>=◌, sys, or_exit}
use deep_oj.Types.{new_run_result}
use deep_oj.Isolation.RunChild.{run_child, redirect_io}
use deep_oj.Isolation.Lockdown.{Strict}
use deep_oj.Sandbox.Verdict.Child.{Judged, failed_child_verdict}
use deep_oj.Tests.{run_args, gives}
use deep_oj.Common.Bytes.{contains_text, strip_prefix}
use deep_oj.Cgroup.{build_controller_enable_list, enable_list}
use deep_oj.Cgroup.Controllers.{additions, listed, build_controller_enable_list_lem}
use deep_oj.Os.Signals.{Aimed}
use deep_oj.Sandbox.Compile.Signals.{compile_aims}
use deep_oj.Sandbox.Watch.{watch, nothing_seen}
use deep_oj.Sandbox.Watch.Polling.{Whatever, NotForMemory, polling_blind}
use deep_oj.Sandbox.Verdict.{assess}
use deep_oj.Sandbox.Verdict.Correct.{Returns}
use deep_oj.Tests.{little}
use deep_oj.Sandbox.Moves.{process_owner, directory_owner, manager_owner, owned_once}
use deep_oj.Sandbox.Run
use deep_oj.Common.Int.{pos}
use deep_oj.Tests.{whole, config, calm, request, manager, endless}

run_reaps_example : Leaves (Unit {0}) Settled (run whole config request 5 calm [])
run_reaps_example = run_reaps calm whole config request 5 [] refl

compile_reaps_example :
    Leaves
      (Unit {0})
      Settled
      (compile whole config 5 (text "/data/workspace") (text "r1") (text "int main() {}") calm [])
compile_reaps_example =
    compile_reaps calm whole config 5 (text "/data/workspace") (text "r1") (text "int main() {}") []
      refl

limits_in_force_example :
    Gives ⊥
      (λ _. ⊥)
      (λ u. Holds calm manager.cgroup_path (controls whole config (pos 42) (65536 * 1024)))
      (Run.fill_cgroup whole config request manager (pos 42) calm [])
limits_in_force_example =
    limits_in_force calm whole config request manager (pos 42) 65536 [] refl (omega arith) refl
      (λ name value h. refl) refl

owned_once_example :
    Moves (process_owner 5) 0 1 (λ i. new_guard (pos 42)) calm []
    × Moves
        (directory_owner (λ s. []))
        0
        1
        (λ i. record { path = text "/data/workspace/r1"; committed = false })
        calm
        []
    × Moves (manager_owner (λ s. [])) 0 1 (λ i. manager) calm []
    × Assigns (process_owner 5) 0 1 (λ i. new_guard (pos 42)) calm []
    × Assigns (manager_owner (λ s. [])) 0 1 (λ i. manager) calm []
owned_once_example =
    owned_once 5 (λ s. []) 0 1 (λ i. new_guard (pos 42))
      (λ i. record { path = text "/data/workspace/r1"; committed = false }) (λ i. manager) calm []
      refl

-- No descriptor can be duplicated.
abbrev stuck : Environment
stuck h (dup2 fd n) = gives (negsuc 0)
stuck h c = gives (pos 0)

stuck-Strict : Strict stuck
unfolding text
stuck-Strict h = ground arith

stuck_child :
    run_child whole config run_args stuck [] ≡ exits 101 ((dup2 (pos 4) 0, gives (negsuc 0)) ∷ [])
unfolding run_child redirect_io or_exit ◌>>=◌ sys
stuck_child = refl

failed_child_verdict_example :
    Returns
      (assess whole config
        (pos 1000)
        (pos 65536)
        (text "/o")
        (text "/e")
        (101 * 256)
        little
        new_run_result
        stuck
        [])
      (Judged 101)
failed_child_verdict_example =
    failed_child_verdict stuck whole config run_args 101 ((dup2 (pos 4) 0, gives (negsuc 0)) ∷ [])
      stuck [] (pos 1000) (pos 65536) (text "/o") (text "/e") little new_run_result stuck-Strict
      stuck_child (λ o. ground (arith, o.0)) (omega arith)

build_controller_enable_list_lem_example :
    (build_controller_enable_list (text "cpuset io")
      ≡ additions
          (listed (text "cpuset io") (text "memory" ∷ text "pids" ∷ text "cpu" ∷ text "io" ∷ [])))
    × ((contains_text (text "cpuset") (text "cpuset io") ≡ false)
        ⊎ (contains_text (text "cpu") (text "cpuset io") ≡ true))
build_controller_enable_list_lem_example = build_controller_enable_list_lem (text "cpuset io")

cpuset_only : build_controller_enable_list (text "cpuset io") ≡ text "+cpu +io"
unfolding build_controller_enable_list enable_list contains_text strip_prefix text
cpuset_only = refl

compile_aims_example : Leaves (Unit {0}) Aimed (
    compile whole config 410 (text "/data/workspace") (text "r1") (text "int main() {}") endless [])
compile_aims_example =
    compile_aims endless whole config 410 (text "/data/workspace") (text "r1")
      (text "int main() {}") [] refl

polling_blind_example :
    Gives
      (Unit {0})
      Whatever
      (λ w h. NotForMemory w.0)
      (watch whole 5
        (pos 1000)
        (pos 65536)
        (pos 0)
        201
        (new_guard (pos 42))
        nothing_seen
        endless
        [])
polling_blind_example =
    polling_blind endless whole 5 (pos 1000) (pos 65536) (pos 0) 201 (new_guard (pos 42)) []
      (λ pid h e. refl) refl
