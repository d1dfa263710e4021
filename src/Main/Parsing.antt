-- ===== src/Main/Parsing.antt =====
-- What the loop of `main` makes of the options, said without the loop: the last option of a kind
-- counts.
use deep_oj.Common.{
  ◌≡◌, refl, ◌∙◌, ap, subst, true, Option, none, some, List, [], ◌∷◌, ◌++◌, Option-cases, inl, inr,
  arith,
}
use deep_oj.Common.Int.{ℤ, negsuc}
use deep_oj.Common.Bytes.{Bytes}
use deep_oj.Common.Numbers.{stoi, stoll}
use deep_oj.Types.{GlobalConfig}
use deep_oj.Platform.{Platform}
use deep_oj.Os.{History, Environment}
use deep_oj.Os.Flow.{Outcome, returns, exits, becomes, throws, unfinished, bind, ◌>>=◌}
use deep_oj.Sandbox.Watch.{or_old}
use deep_oj.Config.{Yaml, load_config}
use deep_oj.Common.{ℕ, false, ◌||◌, is_empty}
use deep_oj.Main.{ExecutionConfig, fill_attempt, main_run, main_started}
use deep_oj.Main.Sets
use deep_oj.Main.Options.{
  GetOpt, opt_source, opt_request, opt_code, opt_time, opt_memory, opt_input, opt_output, opt_error,
  opt_dir, opt_config, opt_job, opt_attempt, opt_compile, opt_cleanup, opt_self_test, opt_help,
  unknown, Setup, goes_on, and_then, parse_options, apply_option,
}

-- What the last option that sets something sets.
abbrev pub last {ℓ} : {A : Type ℓ} → (GetOpt → Option A) → A → List GetOpt → A
last f old [] = old
last f old (opt ∷ opts) = last f (or_old (f opt) old) opts

-- What the options make of a setup.
abbrev pub Described : ExecutionConfig → List GetOpt → ExecutionConfig → Type 0
Described c opts c' =
    (c'.source_path ≡ last Sets.source c.source_path opts)
    × (c'.code_path ≡ last Sets.code c.code_path opts)
    × (c'.input_path ≡ last Sets.input c.input_path opts)
    × (c'.output_path ≡ last Sets.output c.output_path opts)
    × (c'.error_path ≡ last Sets.error c.error_path opts)
    × (c'.time_limit ≡ last Sets.time c.time_limit opts)
    × (c'.memory_limit ≡ last Sets.memory c.memory_limit opts)
    × (c'.work_dir ≡ last Sets.dir c.work_dir opts)
    × (c'.request_id ≡ last Sets.request c.request_id opts)
    × (c'.job_id ≡ last Sets.job c.job_id opts)
    × (c'.attempt_id ≡ last Sets.attempt c.attempt_id opts)
    × (c'.compile_only ≡ last Sets.compile c.compile_only opts)
    × (c'.cleanup_only ≡ last Sets.cleanup c.cleanup_only opts)
    × (c'.self_test ≡ last Sets.self_test c.self_test opts)
    × (c'.attempt_explicit ≡ last Sets.explicit c.attempt_explicit opts)

-- A value that is turned into another before what follows it.
bind-returns :
    {A B C : Type 0} (o : Outcome A) (f : A → B) (k : B → History → Outcome C) {c : C}
    {h' : History}
    → bind (bind o (λ a h. returns (f a) h)) k ≡ returns c h'
    → (a : A) × (h : History) × (o ≡ returns a h) × (k (f a) h ≡ returns c h')
bind-returns (returns a h) f k e = (a, h, refl, e)
bind-returns (exits c h) f k e = absurd (ground arith)
bind-returns (becomes path argv h) f k e = absurd (ground arith)
bind-returns (throws x raised h) f k e = absurd (ground arith)
bind-returns (unfinished h) f k e = absurd (ground arith)

module _ {Node : Type 0} (y : Yaml Node) (p : Platform) (env : Environment)
    (g0 : GlobalConfig) where
  -- Where the configuration comes from: the file that was loaded last, or else it is the old one.
  abbrev pub From : Option Bytes → GlobalConfig → Type 0
  From none g = g ≡ g0
  From (some path) g = (h : History) × (k : History) × (load_config y p path env h ≡ returns g k)

  module _ {s' : Setup} {h' : History} where
    -- A configuration that is loaded on the way.
    config-step :
        (arg : Bytes) (s : Setup) (opts : List GetOpt) (h : History)
        → parse_options y p s (opt_config arg ∷ opts) env h ≡ returns (goes_on s') h'
        → (g : GlobalConfig) × (k : History) × (load_config y p arg env h ≡ returns g k)
          × (parse_options y p (record s { global = g }) opts env k ≡ returns (goes_on s') h')
    unfolding parse_options apply_option ◌>>=◌
    config-step arg s opts h e =
        bind-returns (load_config y p arg env h) (λ g. goes_on (record s { global = g }))
          (λ parsed k. and_then parsed (λ s. parse_options y p s opts) env k) e

    parse_options-Described :
        (old : Option Bytes) (s : Setup) (opts : List GetOpt) (h : History)
        → From old s.global
        → parse_options y p s opts env h ≡ returns (goes_on s') h'
        → Described s.execution opts s'.execution × From (last Sets.loads old opts) s'.global
    unfolding parse_options apply_option ◌>>=◌
    parse_options-Described old s [] h f e =
        let same : s ≡ s' = cc in
        (ground (arith, same), subst (From old) (ap (λ (z : Setup). z.global) same) f)
    parse_options-Described old s (opt_source arg ∷ opts) h f e =
        parse_options-Described old _ opts h f e
    parse_options-Described old s (opt_request arg ∷ opts) h f e =
        parse_options-Described old _ opts h f e
    parse_options-Described old s (opt_code arg ∷ opts) h f e =
        parse_options-Described old _ opts h f e
    parse_options-Described old s (opt_time arg ∷ opts) h f e = elim (Option-cases (stoi arg)) [
      | inl q ↦ absurd (ground (arith, rw q at e))
      | inr (n, q) ↦ rw q (
          parse_options-Described old
            (record s { execution = record s.execution { time_limit = n } }) opts h f (rw q at e))
    ]
    parse_options-Described old s (opt_memory arg ∷ opts) h f e = elim (Option-cases (stoi arg)) [
      | inl q ↦ absurd (ground (arith, rw q at e))
      | inr (n, q) ↦ rw q (
          parse_options-Described old
            (record s { execution = record s.execution { memory_limit = n } }) opts h f (rw q at e))
    ]
    parse_options-Described old s (opt_input arg ∷ opts) h f e =
        parse_options-Described old _ opts h f e
    parse_options-Described old s (opt_output arg ∷ opts) h f e =
        parse_options-Described old _ opts h f e
    parse_options-Described old s (opt_error arg ∷ opts) h f e =
        parse_options-Described old _ opts h f e
    parse_options-Described old s (opt_dir arg ∷ opts) h f e =
        parse_options-Described old _ opts h f e
    parse_options-Described old s (opt_config arg ∷ opts) h f e =
        let (g, k, l, e') = config-step arg s opts h e in
        parse_options-Described (some arg) (record s { global = g }) opts k (h, k, l) e'
    parse_options-Described old s (opt_job arg ∷ opts) h f e =
        parse_options-Described old _ opts h f e
    parse_options-Described old s (opt_attempt arg ∷ opts) h f e = elim (Option-cases (stoll arg)) [
      | inl q ↦ rw q (
          parse_options-Described old
            (record s { execution = record s.execution { attempt_id = negsuc 0 } }) opts h f
            (rw q at e))
      | inr (n, q) ↦ rw q (
          parse_options-Described old
            (record s {
              execution = record s.execution { attempt_id = n; attempt_explicit = true };
            })
            opts h f (rw q at e))
    ]
    parse_options-Described old s (opt_compile ∷ opts) h f e =
        parse_options-Described old _ opts h f e
    parse_options-Described old s (opt_cleanup ∷ opts) h f e =
        parse_options-Described old _ opts h f e
    parse_options-Described old s (opt_self_test ∷ opts) h f e =
        parse_options-Described old _ opts h f e
    parse_options-Described old s (opt_help ∷ opts) h f e = absurd (ground arith)
    parse_options-Described old s (unknown ∷ opts) h f e = absurd (ground arith)

last-append :
    {A : Type 0} (f : GetOpt → Option A) (old : A) (xs ys : List GetOpt)
    → last f old (xs ++ ys) ≡ last f (last f old xs) ys
last-append f old [] ys = refl
last-append f old (x ∷ xs) ys = last-append f (or_old (f x) old) xs ys

module _ {Node : Type 0} (y : Yaml Node) (p : Platform) (env : Environment) where
  -- If the loop over the options comes to its end, then each setting is that of the last option of
  -- its kind, or else the one before the loop: `-t` and `-m` count by their numbers, an
  -- `--attempt_id` that is no number counts as -1, and the attempt is explicit from the first one
  -- on that is a number; and the configuration comes from the last file that was loaded.
  pub parse_options-last :
      (s s' : Setup) (opts : List GetOpt) (h h' : History)
      → parse_options y p s opts env h ≡ returns (goes_on s') h'
      → Described s.execution opts s'.execution
        × From y p env s.global (last Sets.loads none opts) s'.global
  parse_options-last s s' opts h h' e =
      parse_options-Described y p env s.global none s opts h refl e

  -- An `--attempt_id` that is a number, and at last one that is none, leave an attempt of -1. Then the
  -- environment is not asked for another, and the run mode is not refused for want of one: if the
  -- three paths and the job are given, it goes on to the run.
  pub attempt_lost :
      (s s' : Setup) (opts : List GetOpt) (good bad : Bytes) (n : ℤ) (h h' : History) (fuel : ℕ)
      (k : History)
      → stoll good ≡ some n
      → stoll bad ≡ none
      → parse_options y p s (opts ++ (opt_attempt good ∷ opt_attempt bad ∷ [])) env h
        ≡ returns (goes_on s') h'
      → is_empty s'.execution.code_path
          || is_empty s'.execution.input_path
          || is_empty s'.execution.output_path
        ≡ false
      → is_empty s'.execution.job_id ≡ false
      → (s'.execution.attempt_id ≡ negsuc 0)
        × (fill_attempt s'.execution env k ≡ returns s'.execution k)
        × (main_run p s'.global fuel s'.execution env k
            ≡ main_started p s'.global fuel s'.execution env k)
  unfolding fill_attempt main_run
  attempt_lost s s' opts good bad n h h' fuel k eg eb e paths job =
      let d = (parse_options-last s s' _ h h' e).0 in
      let tail = opt_attempt good ∷ opt_attempt bad ∷ [] in
      let explicit : s'.execution.attempt_explicit ≡ true =
        d.14 ∙ last-append Sets.explicit _ opts tail ∙ rw (eg, eb) in
      (
        d.10 ∙ last-append Sets.attempt _ opts tail ∙ rw eb,
        rw explicit refl,
        rw (paths, job, explicit) refl,
      )
