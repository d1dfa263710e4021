-- ===== src/Main/Leftovers.antt =====
-- What the process leaves behind, however it ends: `main` as a whole.
use deep_oj.Common.{
  arith, ℕ, refl, Bool, true, false, Option, none, some, List, [], ◌∷◌, if◌then◌else◌,
}
use deep_oj.Common.Bytes.{Bytes}
use deep_oj.Common.Numbers.{stoi}
use deep_oj.Types.{GlobalConfig, CompileArgs}
use deep_oj.Platform.{Platform}
use deep_oj.Os.{History, Environment, read_file, clone_compile}
use deep_oj.Os.Flow.{
  Outcome, returns, exits, becomes, throws, unfinished, terminated, M, bind, ◌>>=◌, sys, failed,
  exit,
}
use deep_oj.Os.Tidy.{Leaves, Stable, Tidy}
use deep_oj.Os.Tidy.{Tidy-bind, Tidy-quiet}
use deep_oj.Os.Balance.{Balanced, Balanced-Stable}
use deep_oj.Os.Orphans.{Settled, Settled-Stable}
use deep_oj.Sandbox.Guard.{new_guard}
use deep_oj.Sandbox.Quiet.{any-Loops, wait_loop-Tidy}
use deep_oj.Sandbox.Run.Descriptors.{run-Tidy}
use deep_oj.Sandbox.Run.Reaping.{run-Settled}
use deep_oj.Sandbox.Compile.{compile}
use deep_oj.Sandbox.Compile.Quiet.{watch_compiler-Tidy, compile-Tidy}
use deep_oj.Sandbox.Compile.Reaping.{compile-Settled}
use deep_oj.Main.Quiet.{main_parsed-Tidy}
use deep_oj.Config.{Yaml, load_config, or_fail, Loaded, loaded, refused}
use deep_oj.Main.{ExecutionConfig, main_parsed}
use deep_oj.Common.Int.{ℤ}
use deep_oj.Main.Options
use deep_oj.Main.Options.{
  GetOpt, opt_source, opt_request, opt_code, opt_time, opt_memory, opt_input, opt_output, opt_error,
  opt_dir, opt_config, opt_job, opt_attempt, opt_compile, opt_cleanup, opt_self_test, opt_help,
  unknown, Setup, Parsed, quits, goes_on, and_then, with_number, parse_options, apply_option,
  initial_setup, answering,
}

-- Where the process ends by a return or an exit, `I` holds; it never becomes another program. Nothing is
-- said of an exception, behind which no destructor runs; a loop without fuel is left to the theorems
-- on termination.
abbrev pub Over : {A : Type 0} → (History → Type 0) → Outcome A → Type 0
Over I (returns a h) = I h
Over I (exits c h) = I h
Over I (becomes path argv h) = ⊥
Over I (throws e raised h) = Unit {0}
Over I (unfinished h) = Unit {0}

Leaves-Over : {A : Type 0} (I : History → Type 0) (o : Outcome A) → Leaves (Unit {0}) I o → Over I o
Leaves-Over I (returns a h) i = i
Leaves-Over I (exits c h) i = absurd i
Leaves-Over I (becomes path argv h) i = i
Leaves-Over I (throws e raised h) i = tt
Leaves-Over I (unfinished h) i = tt

module _ {I : History → Type 0} where
  Over-bind :
      {A B : Type 0} (o : Outcome A) (k : A → History → Outcome B)
      → Over I o
      → ((a : A) (h : History) → I h → Over I (k a h))
      → Over I (bind o k)
  Over-bind (returns a h) k i f = f a h i
  Over-bind (exits c h) k i f = i
  Over-bind (becomes path argv h) k i f = i
  Over-bind (throws e raised h) k i f = i
  Over-bind (unfinished h) k i f = tt

  module _ {Node : Type 0} (y : Yaml Node) (p : Platform) (env : Environment)
      (stable : Stable I) where
    load_config-Over : (path : Bytes) (h : History) → I h → Over I (load_config y p path env h)
    unfolding load_config sys ◌>>=◌
    load_config-Over path h i = by_file (failed (env h (read_file path))) _
      where
        by_file :
            (f : Bool) (l : Loaded GlobalConfig)
            → Over I (
                (if f then exit 1 else or_fail l) env
                  ((read_file path, env h (read_file path)) ∷ h))
        by_file true l = stable (read_file path) (env h (read_file path)) h refl i
        by_file false (loaded g) = stable (read_file path) (env h (read_file path)) h refl i
        by_file false (refused why) = stable (read_file path) (env h (read_file path)) h refl i

    with_number-Over :
        (n : Option ℤ) (k : ℤ → M Parsed) (h : History)
        → I h
        → ((m : ℤ) → Over I (k m env h))
        → Over I (with_number n k env h)
    with_number-Over none k h i next = tt
    with_number-Over (some m) k h i next = next m

    apply_option-Over :
        (s : Setup) (opt : GetOpt) (h : History) → I h → Over I (apply_option y p s opt env h)
    unfolding apply_option ◌>>=◌
    apply_option-Over s (opt_time arg) h i = with_number-Over (stoi arg) _ h i (λ m. i)
    apply_option-Over s (opt_memory arg) h i = with_number-Over (stoi arg) _ h i (λ m. i)
    apply_option-Over s (opt_config arg) h i =
        Over-bind (load_config y p arg env h) _ (load_config-Over arg h i) (λ g h' i'. i')
    apply_option-Over s (opt_source arg) h i = i
    apply_option-Over s (opt_request arg) h i = i
    apply_option-Over s (opt_code arg) h i = i
    apply_option-Over s (opt_input arg) h i = i
    apply_option-Over s (opt_output arg) h i = i
    apply_option-Over s (opt_error arg) h i = i
    apply_option-Over s (opt_dir arg) h i = i
    apply_option-Over s (opt_job arg) h i = i
    apply_option-Over s (opt_attempt arg) h i = i
    apply_option-Over s opt_compile h i = i
    apply_option-Over s opt_cleanup h i = i
    apply_option-Over s opt_self_test h i = i
    apply_option-Over s opt_help h i = i
    apply_option-Over s unknown h i = i

    parse_options-Over :
        (s : Setup) (opts : List GetOpt) (h : History)
        → I h
        → Over I (parse_options y p s opts env h)
    unfolding parse_options ◌>>=◌
    parse_options-Over s [] h i = i
    parse_options-Over s (opt ∷ opts) h i =
        Over-bind (apply_option y p s opt env h) _ (apply_option-Over s opt h i)
          (next (λ s' h' i'. parse_options-Over s' opts h' i'))
      where
        next :
            ((s' : Setup) (h' : History) → I h' → Over I (parse_options y p s' opts env h'))
            → (parsed : Parsed) (h' : History) → I h'
            → Over I (and_then parsed (λ s'. parse_options y p s' opts) env h')
        next go (quits n) h' i' = i'
        next go (goes_on s') h' i' = go s' h' i'

    terminated-Over : {A : Type 0} (o : Outcome A) → Over I o → Over I (terminated o)
    terminated-Over (returns a h) i = i
    terminated-Over (exits c h) i = i
    terminated-Over (becomes path argv h) i = i
    terminated-Over (throws e raised h) i = i
    terminated-Over (unfinished h) i = i

    -- All of `main`, where it is so behind the options.
    main-Over :
        (fuel : ℕ) (opts : List GetOpt) (h : History)
        → ((g : GlobalConfig) (c : ExecutionConfig)
            → Tidy (Unit {0}) env I I (main_parsed p g fuel c))
        → I h
        → Over I (Options.main y p fuel opts env h)
    unfolding Options.main Options.main_body ◌>>=◌
    main-Over fuel opts h parsed i = terminated-Over _ (
        Over-bind (parse_options y p initial_setup opts env h) _
          (parse_options-Over initial_setup opts h i) next)
      where
        next : (o : Parsed) (h' : History) → I h' → Over I (answering p fuel o env h')
        next (quits n) h' i' = i'
        next (goes_on s) h' i' =
            Leaves-Over I (main_parsed p s.global fuel s.execution env h')
              ((parsed s.global s.execution).run h' i')

clone-Balanced :
    (env : Environment) (args : CompileArgs)
    → Tidy (Unit {0}) env (Balanced []) (Balanced []) (sys (clone_compile args))
unfolding sys
clone-Balanced env args = record { run = λ h b n. ground (arith, b n) }

-- `Compile` closes what it opens, as `Run` does.
compile-Balanced :
    (env : Environment) (p : Platform) (g : GlobalConfig) (fuel : ℕ)
    (temp_dir request_id source_code : Bytes)
    → Tidy
        (Unit {0})
        env
        (Balanced [])
        (Balanced [])
        (compile p g fuel temp_dir request_id source_code)
compile-Balanced env p g fuel =
    compile-Tidy (Balanced-Stable []) (clone-Balanced env) fuel
      (wait_loop-Tidy tt (Balanced-Stable []) fuel) p g
      (λ pid k dk. Tidy-bind (Tidy-quiet (Balanced-Stable []) _ refl) (λ start.
        Tidy-bind
          (watch_compiler-Tidy (Balanced-Stable []) fuel
            (wait_loop-Tidy tt (Balanced-Stable []) fuel) p g start.ret tt fuel (new_guard pid) 0)
          dk))

-- In every environment and for all options, where the process ends by a return from `main` or by an
-- exit, each child that it has made has been waited for, and each descriptor that it was given has been
-- closed just as often as it was given; and it never becomes another program. (An exception that
-- nothing catches is not covered, nor a loop that has used up its fuel.)
pub main_leaves_nothing :
    {Node : Type 0} (y : Yaml Node) (p : Platform) (env : Environment) (fuel : ℕ)
    (opts : List GetOpt)
    → Over Settled (Options.main y p fuel opts env [])
      × Over (Balanced []) (Options.main y p fuel opts env [])
main_leaves_nothing y p env fuel opts = (
  main-Over y p env Settled-Stable fuel opts []
      (main_parsed-Tidy Settled-Stable p fuel (λ g q. run-Settled env p g q fuel)
        (λ g. compile-Settled env p g fuel))
      refl,
  main-Over y p env (Balanced-Stable []) fuel opts []
      (main_parsed-Tidy (Balanced-Stable []) p fuel
        (λ g q. run-Tidy env p g q fuel (any-Loops env fuel p q.time_limit_ms q.memory_limit_kb))
        (λ g. compile-Balanced env p g fuel))
      (λ n. refl),
)
