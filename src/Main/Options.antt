-- ===== src/Main/Options.antt =====
-- The loop of `main` over its options, and `main` as a whole. `getopt_long` is not modelled: what
-- it returns, with its argument, is the list that the loop runs through.
use deep_oj.Common.{ℕ, true, false, Option, none, some, List, [], ◌∷◌}
use deep_oj.Common.Int.{ℤ, pos, negsuc}
use deep_oj.Common.Bytes.{Bytes, text}
use deep_oj.Common.Numbers.{stoi, stoll}
use deep_oj.Types.{GlobalConfig}
use deep_oj.Platform.{Platform}
use deep_oj.Os.Flow.{M, ◌>>=◌, pure, throw, uncaught}
use deep_oj.Config.{Yaml, zero_config, load_config}
use deep_oj.Main.{ExecutionConfig, Answer, silent, main_parsed}

-- What `getopt_long` returns for the options of `long_opts` and of the text of short ones, with
-- `optarg`; `unknown` is `?`.
pub data GetOpt : Type 0 where
  opt_source opt_request opt_code opt_time opt_memory opt_input opt_output opt_error opt_dir
        opt_config opt_job opt_attempt :
      Bytes → GetOpt
  opt_compile opt_cleanup opt_self_test opt_help unknown : GetOpt

-- `struct ExecutionConfig` as it begins.
unfoldable pub default_execution : ExecutionConfig
default_execution = record {
  source_path = [];
  code_path = [];
  input_path = [];
  output_path = [];
  error_path = [];
  time_limit = pos 1000;
  memory_limit = pos 131072;
  work_dir = [];
  request_id = [];
  job_id = [];
  attempt_id = negsuc 0;
  compile_only = false;
  cleanup_only = false;
  self_test = false;
  attempt_explicit = false;
}

-- The two objects that the loop changes.
pub record Setup : Type 0 where
  pub execution : ExecutionConfig
  pub global : GlobalConfig

-- An option ends the process, or the loop goes on.
pub data Parsed : Type 0 where
  quits : ℕ → Parsed
  goes_on : Setup → Parsed

abbrev pub executing : Setup → ExecutionConfig → M Parsed
executing s c = pure (goes_on (record s { execution = c }))

-- `std::stoi(optarg)`, whose exceptions nothing catches.
abbrev pub with_number : Option ℤ → (ℤ → M Parsed) → M Parsed
with_number none k = throw (text "stoi")
with_number (some n) k = k n

-- `--attempt_id`: a text that is no number sets -1 and leaves `attempt_explicit` as it is.
abbrev pub set_attempt : ExecutionConfig → Option ℤ → ExecutionConfig
set_attempt c none = record c { attempt_id = negsuc 0 }
set_attempt c (some n) = record c { attempt_id = n; attempt_explicit = true }

unfoldable pub initial_setup : Setup
initial_setup = record { execution = default_execution; global = zero_config }

abbrev pub and_then : Parsed → (Setup → M Parsed) → M Parsed
and_then (quits n) k = pure (quits n)
and_then (goes_on s) k = k s

abbrev pub answering : Platform → ℕ → Parsed → M Answer
answering p fuel (quits n) = pure (silent n)
answering p fuel (goes_on s) = main_parsed p s.global fuel s.execution

module _ {Node : Type 0} (y : Yaml Node) (p : Platform) where
  -- One round of the loop.
  unfoldable pub apply_option : Setup → GetOpt → M Parsed
  apply_option s (opt_source arg) = executing s (record s.execution { source_path = arg })
  apply_option s (opt_request arg) = executing s (record s.execution { request_id = arg })
  apply_option s (opt_code arg) = executing s (record s.execution { code_path = arg })
  apply_option s (opt_time arg) =
      with_number (stoi arg) (λ n. executing s (record s.execution { time_limit = n }))
  apply_option s (opt_memory arg) =
      with_number (stoi arg) (λ n. executing s (record s.execution { memory_limit = n }))
  apply_option s (opt_input arg) = executing s (record s.execution { input_path = arg })
  apply_option s (opt_output arg) = executing s (record s.execution { output_path = arg })
  apply_option s (opt_error arg) = executing s (record s.execution { error_path = arg })
  apply_option s (opt_dir arg) = executing s (record s.execution { work_dir = arg })
  apply_option s (opt_config arg) = do
    g ← load_config y p arg
    pure (goes_on (record s { global = g }))
  apply_option s opt_compile = executing s (record s.execution { compile_only = true })
  apply_option s opt_cleanup = executing s (record s.execution { cleanup_only = true })
  apply_option s (opt_job arg) = executing s (record s.execution { job_id = arg })
  apply_option s (opt_attempt arg) = executing s (set_attempt s.execution (stoll arg))
  apply_option s opt_self_test = executing s (record s.execution { self_test = true })
  apply_option s opt_help = pure (quits 0)
  apply_option s unknown = pure (quits 1)

  unfoldable pub parse_options : Setup → List GetOpt → M Parsed
  parse_options s [] = pure (goes_on s)
  parse_options s (opt ∷ opts) = do
    parsed ← apply_option s opt
    and_then parsed (λ s'. parse_options s' opts)

  -- The body of `main`, and `main`, which nothing calls that could catch.
  unfoldable pub main_body : ℕ → List GetOpt → M Answer
  main_body fuel opts = do parsed ← parse_options initial_setup opts; answering p fuel parsed

  unfoldable pub main : ℕ → List GetOpt → M Answer
  main fuel opts = uncaught (main_body fuel opts)
