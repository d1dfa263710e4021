-- ===== src/Main/Ends.antt =====
-- `main` as a whole, from its options on: how the process ends.
use deep_oj.Common.{
  ℕ, suc, ◌≡◌, ◌⊎◌, refl, sym, subst, Bool, true, false, List, [], ◌∷◌, ap, Option-cases, arith,
  inl, inr,
}
use deep_oj.Common.Bytes.{Bytes}
use deep_oj.Common.Numbers.{stoi}
use deep_oj.Types.{GlobalConfig}
use deep_oj.Platform.{Platform}
use deep_oj.Os.{History, Environment, read_file}
use deep_oj.Os.Flow.{Outcome, returns, exits, becomes, throws, unfinished, bind, terminated, ◌>>=◌}
use deep_oj.Os.Balance.{Balanced, Balanced-Stable}
use deep_oj.Os.Yields.{Gives}
use deep_oj.Sandbox.Watch.Clock.{Uninterrupted, Clock}
use deep_oj.Sandbox.Compile.Guards.{Any}
use deep_oj.Config.{Yaml, load_config}
use deep_oj.Config.Correct.{FitsOrFails, load_config_fits, load_config_iff}
use deep_oj.Main.{Answer, silent, main_parsed}
use deep_oj.Main.Liveness.{Spoken, Timely, main_parsed-Speaks}
use deep_oj.Main.Options
use deep_oj.Main.Options.{
  GetOpt, opt_source, opt_request, opt_code, opt_time, opt_memory, opt_input, opt_output, opt_error,
  opt_dir, opt_config, opt_job, opt_attempt, opt_compile, opt_cleanup, opt_self_test, opt_help,
  unknown, Setup, Parsed, quits, goes_on, and_then, with_number, parse_options, apply_option,
  initial_setup, answering,
}

-- Whether the usage is asked for.
abbrev pub helped : List GetOpt → Bool
helped [] = false
helped (opt_help ∷ opts) = true
helped (_ ∷ opts) = helped opts

-- How the loop over the options can end.
abbrev Through : Bool → Outcome Parsed → Type 0
Through help (returns (quits n) h) = (n ≡ 1) ⊎ ((n ≡ 0) × (help ≡ true))
Through help (returns (goes_on s) h) = Balanced [] h
Through help (exits c h) = c ≡ 1
Through help (becomes path argv h) = ⊥
Through help (throws e raised h) = Unit
Through help (unfinished h) = ⊥

-- How the process ends.
abbrev pub MainEnds : Bool → Outcome Answer → Type 0
MainEnds help (returns a h) = Spoken a ⊎ ((a ≡ silent 0) × (help ≡ true))
MainEnds help (exits c h) = c ≡ 1
MainEnds help (becomes path argv h) = ⊥
MainEnds help (throws e raised h) = Unit
MainEnds help (unfinished h) = ⊥

terminated-MainEnds :
    (help : Bool) (o : Outcome Answer) → MainEnds help o → MainEnds help (terminated o)
terminated-MainEnds help (returns a h) e = e
terminated-MainEnds help (exits c h) e = e
terminated-MainEnds help (becomes path argv h) e = e
terminated-MainEnds help (throws x raised h) e = e
terminated-MainEnds help (unfinished h) e = e

bind-bind :
    {A B C : Type 0} (o : Outcome A) (f : A → B) (k : B → History → Outcome C)
    → bind (bind o (λ a h. returns (f a) h)) k ≡ bind o (λ a h. k (f a) h)
bind-bind (returns a h) f k = refl
bind-bind (exits c h) f k = refl
bind-bind (becomes path argv h) f k = refl
bind-bind (throws x raised h) f k = refl
bind-bind (unfinished h) f k = refl

module _ {Node : Type 0} (y : Yaml Node) (p : Platform) (env : Environment) where
  -- What follows the loading of a configuration.
  loaded-Through :
      (help : Bool) (path : Bytes) (h : History) (o : Outcome GlobalConfig)
      (k : GlobalConfig → History → Outcome Parsed)
      → load_config y p path env h ≡ o
      → FitsOrFails y p path env h o
      → Balanced [] h
      → ((g : GlobalConfig) (h' : History) → Balanced [] h' → Through help (k g h'))
      → Through help (bind o k)
  loaded-Through help path h (returns g h') k e f b next =
      let r = env h (read_file path) in
      next g h' (
        subst (Balanced []) (sym ((load_config_iff y p path env h g h').0 e).2)
          (Balanced-Stable [] (read_file path) r h refl b))
  loaded-Through help path h (exits c h') k e f b next = f
  loaded-Through help path h (becomes q a h') k e f b next = f
  loaded-Through help path h (throws x raised h') k e f b next = tt
  loaded-Through help path h (unfinished h') k e f b next = f

  parse_options-Through :
      (s : Setup) (opts : List GetOpt) (h : History)
      → Balanced [] h
      → Through (helped opts) (parse_options y p s opts env h)
  unfolding parse_options apply_option ◌>>=◌
  parse_options-Through s [] h b = b
  parse_options-Through s (opt_source arg ∷ opts) h b = parse_options-Through _ opts h b
  parse_options-Through s (opt_request arg ∷ opts) h b = parse_options-Through _ opts h b
  parse_options-Through s (opt_code arg ∷ opts) h b = parse_options-Through _ opts h b
  parse_options-Through s (opt_time arg ∷ opts) h b = elim (Option-cases (stoi arg)) [
    | inl q ↦ rw q tt
    | inr (n, q) ↦ rw q (
        parse_options-Through (record s { execution = record s.execution { time_limit = n } }) opts
          h b)
  ]
  parse_options-Through s (opt_memory arg ∷ opts) h b = elim (Option-cases (stoi arg)) [
    | inl q ↦ rw q tt
    | inr (n, q) ↦ rw q (
        parse_options-Through (record s { execution = record s.execution { memory_limit = n } })
          opts h b)
  ]
  parse_options-Through s (opt_input arg ∷ opts) h b = parse_options-Through _ opts h b
  parse_options-Through s (opt_output arg ∷ opts) h b = parse_options-Through _ opts h b
  parse_options-Through s (opt_error arg ∷ opts) h b = parse_options-Through _ opts h b
  parse_options-Through s (opt_dir arg ∷ opts) h b = parse_options-Through _ opts h b
  parse_options-Through s (opt_config arg ∷ opts) h b =
      subst (Through (helped opts)) (sym (bind-bind (load_config y p arg env h) _ _)) (
        loaded-Through (helped opts) arg h (load_config y p arg env h) _ refl
          (load_config_fits y p arg env h) b
          (λ g h'. parse_options-Through (record s { global = g }) opts h'))
  parse_options-Through s (opt_job arg ∷ opts) h b = parse_options-Through _ opts h b
  parse_options-Through s (opt_attempt arg ∷ opts) h b = parse_options-Through _ opts h b
  parse_options-Through s (opt_compile ∷ opts) h b = parse_options-Through _ opts h b
  parse_options-Through s (opt_cleanup ∷ opts) h b = parse_options-Through _ opts h b
  parse_options-Through s (opt_self_test ∷ opts) h b = parse_options-Through _ opts h b
  parse_options-Through s (opt_help ∷ opts) h b = inr (refl, refl)
  parse_options-Through s (unknown ∷ opts) h b = inl refl

  module _ (calm : Uninterrupted env) (clock : Clock env) (fuel : ℕ) (opts : List GetOpt) where
    parsed-MainEnds :
        (o : Outcome Parsed)
        → Through (helped opts) o
        → ((s : Setup) (h : History)
            → o ≡ returns (goes_on s) h
            → Timely fuel s.global s.execution.time_limit)
        → MainEnds (helped opts) (bind o (λ parsed h. answering p (suc fuel) parsed env h))
    parsed-MainEnds (returns (quits n) h) (inl one) timely = inl (inl one, omega (arith, one))
    parsed-MainEnds (returns (quits n) h) (inr (zero, help)) timely = inr (ap silent zero, help)
    parsed-MainEnds (returns (goes_on s) h) b timely =
        ended (main_parsed p s.global (suc fuel) s.execution env h) (
          (main_parsed-Speaks env calm clock p s.global fuel s.execution (timely s h refl)).run h b)
      where
        ended : (o : Outcome Answer) → Gives ⊥ Any (λ a h. Spoken a) o → MainEnds (helped opts) o
        ended (returns a h) s = inl s
        ended (exits c h) s = absurd s
        ended (becomes path argv h) s = s
        ended (throws e raised h) s = tt
        ended (unfinished h) s = s
    parsed-MainEnds (exits c h) one timely = one
    parsed-MainEnds (becomes path argv h) t timely = t
    parsed-MainEnds (throws e raised h) t timely = tt
    parsed-MainEnds (unfinished h) t timely = t

    -- If no wait is interrupted, the clock is steady, and every setup that the options can lead to
    -- has limits that fit into the integers and the fuel, then the process always ends: with 1; or
    -- with 0 to 2 and its line of JSON; or with 0 and no line, where the usage was asked for; or
    -- by an exception. It does so whatever the options, the configuration, the child and the
    -- compiler are, and whatever else the system answers.
    pub main_ends :
        ((s : Setup) (h : History)
          → parse_options y p initial_setup opts env [] ≡ returns (goes_on s) h
          → Timely fuel s.global s.execution.time_limit)
        → MainEnds (helped opts) (Options.main y p (suc fuel) opts env [])
    unfolding Options.main Options.main_body ◌>>=◌
    main_ends timely = terminated-MainEnds (helped opts) _ (
        parsed-MainEnds (parse_options y p initial_setup opts env [])
          (parse_options-Through initial_setup opts [] (λ n. refl)) timely)
