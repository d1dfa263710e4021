-- ===== src/Tests/Setup.antt =====
-- The theorems on the configuration and on the options, at concrete inputs.
use deep_oj.Common.{
  ℕ, ◌*◌, ◌^◌, ◌≡◌, ◌↔◌, refl, true, none, some, List, [], ◌∷◌, ◌++◌, subst, arith,
}
use deep_oj.Common.Int.{pos, negsuc, to_int, to_long, ◌*ℤ◌}
use deep_oj.Common.Bytes.{Bytes, text, c_str}
use deep_oj.Common.Numbers.{stoi, stoll}
use deep_oj.Types.{GlobalConfig}
use deep_oj.Os.{History, read_file}
use deep_oj.Os.Flow.{returns, sys}
use deep_oj.Os.Flow
use deep_oj.Config.{
  Yaml, loaded, load_config, read_config, ◌>>=◌, or_throw, child, check_node, read, read_or,
  read_runner, read_path, read_paths, read_mount_files, read_compile, read_security, into_buffer,
  default_config, zero_config, megabytes,
}
use deep_oj.Config.Correct.{IsLoaded, load_config_iff, FitsOrFails, load_config_fits, run_uid_wraps}
use deep_oj.Main.Options.{
  GetOpt, opt_config, opt_input, opt_output, opt_job, opt_attempt, goes_on, main, opt_code,
  opt_time, opt_compile, Setup, initial_setup, default_execution, parse_options, apply_option,
}
use deep_oj.Main.Parsing.{Described, From, last, parse_options-last, attempt_lost}
use deep_oj.Main.Sets
use deep_oj.Main.Liveness.{Timely}
use deep_oj.Os.Balance.{Balanced}
use deep_oj.Os.Orphans.{Settled}
use deep_oj.Main.Leftovers.{Over, main_leaves_nothing}
use deep_oj.Main.{fill_attempt, main_run, main_started}
use deep_oj.Common.{◌+◌}
use deep_oj.Main.Ends.{MainEnds, helped, main_ends}
use deep_oj.Sandbox.Compile.{compile_time_limit}
use deep_oj.Tests.{whole, calm, endless, endless-Uninterrupted, endless-Clock}

-- A document that has all settings; a node is the path to it.
abbrev document : ℕ → Yaml Bytes
document uid = record {
  parse = λ s. some [];
  get = λ n key. some (n ++ b'/' ∷ key);
  is_defined = λ n. true;
  is_sequence = λ n. true;
  size = λ n. 1;
  item = λ n i. some (text "/lib");
  as_string = λ n. some n;
  as_int = λ n. some (pos 5);
  as_long_long = λ n. some (pos 256);
  as_unsigned_long = λ n. some uid;
  as_double = λ n. some 1;
}

abbrev configured : ℕ → GlobalConfig
configured uid = record {
  workspace_root = text "/path/workspace_root";
  compiler_path = text "/path/compiler_bin";
  mount_dirs = text "/lib" ∷ [];
  mount_files = text "/lib" ∷ [];
  compile_cpu_limit = pos 5;
  compile_real_limit = pos 5;
  compile_mem_limit = pos 268435456;
  max_output_size = pos 256;
  output_buffer_size = pos 256;
  run_tmpfs_size_mb = pos 256;
  compile_tmpfs_size_mb = pos 256;
  compile_log_max_bytes = pos 268435456;
  compile_max_errors = pos 5;
  run_uid = uid;
  run_gid = uid;
  cgroup_pids_limit = pos 5;
  cgroup_cpu_max_cores = 1;
  cgroup_io_read_bps = pos 256;
  cgroup_io_write_bps = pos 256;
}

read_config-document : read_config (document 1000) whole [] ≡ loaded (configured 1000)
unfolding read_config ◌>>=◌ or_throw child check_node read read_or read_runner read_path read_paths
    read_mount_files read_compile read_security into_buffer default_config zero_config megabytes
    c_str text to_long ◌*ℤ◌
read_config-document = refl

load_config_iff_example :
    (load_config (document 1000) whole (text "/c.yaml") calm []
      ≡ returns
          (configured 1000)
          ((read_file (text "/c.yaml"), calm [] (read_file (text "/c.yaml"))) ∷ []))
    ↔ IsLoaded
        (document 1000)
        whole
        (text "/c.yaml")
        calm
        []
        (configured 1000)
        ((read_file (text "/c.yaml"), calm [] (read_file (text "/c.yaml"))) ∷ [])
load_config_iff_example =
    load_config_iff (document 1000) whole (text "/c.yaml") calm [] (configured 1000)
      ((read_file (text "/c.yaml"), calm [] (read_file (text "/c.yaml"))) ∷ [])

-- The left side of it.
loads-document :
    load_config (document 1000) whole (text "/c.yaml") calm []
    ≡ returns
        (configured 1000)
        ((read_file (text "/c.yaml"), calm [] (read_file (text "/c.yaml"))) ∷ [])
unfolding load_config read_config ◌>>=◌ or_throw child check_node read read_or read_runner read_path
    read_paths read_mount_files read_compile read_security into_buffer default_config zero_config
    megabytes c_str text to_long ◌*ℤ◌ sys Flow.◌>>=◌
loads-document = refl

load_config_fits_example :
    FitsOrFails
      (document 1000)
      whole
      (text "/c.yaml")
      calm
      []
      (load_config (document 1000) whole (text "/c.yaml") calm [])
load_config_fits_example = load_config_fits (document 1000) whole (text "/c.yaml") calm []

run_uid_wraps_example : (configured 7).run_uid ≡ 7
unfolding read_config ◌>>=◌ or_throw child check_node read read_or read_runner read_path read_paths
    read_mount_files read_compile read_security into_buffer default_config zero_config megabytes
    c_str text to_long ◌*ℤ◌
run_uid_wraps_example =
    run_uid_wraps (document (1 * 2 ^ 32 + 7)) whole [] (text "/security")
      (text "/security/run_as_uid") 1 7 (configured 7) refl refl refl (omega arith) refl

-- `-c a -t 500 -c b --compile`
abbrev options : List GetOpt
options = opt_code (text "a") ∷ opt_time (text "500") ∷ opt_code (text "b") ∷ opt_compile ∷ []

abbrev set_up : Setup
set_up = record {
  execution = record default_execution {
    code_path = text "b";
    time_limit = pos 500;
    compile_only = true;
  };
  global = zero_config;
}

parse_options-last_example :
    Described initial_setup.execution options set_up.execution
    × From
        (document 1000)
        whole
        calm
        initial_setup.global
        (last Sets.loads none options)
        set_up.global
unfolding parse_options apply_option Flow.◌>>=◌ initial_setup default_execution zero_config stoi
    text
parse_options-last_example =
    parse_options-last (document 1000) whole calm initial_setup set_up options [] [] refl

-- `-c c -i i -o o --job_id j --attempt_id 7 --attempt_id x`
abbrev lost : Setup
lost = record {
  execution = record default_execution {
    code_path = text "c";
    input_path = text "i";
    output_path = text "o";
    job_id = text "j";
    attempt_id = negsuc 0;
    attempt_explicit = true;
  };
  global = zero_config;
}

abbrev lost_options : List GetOpt
lost_options =
    opt_code (text "c") ∷ opt_input (text "i") ∷ opt_output (text "o") ∷ opt_job (text "j") ∷ []

attempt_lost_example :
    (lost.execution.attempt_id ≡ negsuc 0)
    × (fill_attempt lost.execution calm [] ≡ returns lost.execution [])
    × (main_run whole lost.global 5 lost.execution calm []
        ≡ main_started whole lost.global 5 lost.execution calm [])
unfolding parse_options apply_option Flow.◌>>=◌ initial_setup default_execution zero_config stoll
    text
attempt_lost_example =
    attempt_lost (document 1000) whole calm initial_setup lost lost_options (text "7") (text "x")
      (pos 7) [] [] 5 [] refl refl refl refl refl

-- `-C /c.yaml -c /r1/main -i /in -o /out -t 1000 --job_id j --attempt_id 7`
abbrev run_options : List GetOpt
run_options =
    opt_config (text "/c.yaml")
    ∷ opt_code (text "/r1/main")
    ∷ opt_input (text "/in")
    ∷ opt_output (text "/out")
    ∷ opt_time (text "1000")
    ∷ opt_job (text "j")
    ∷ opt_attempt (text "7")
    ∷ []

abbrev run_set_up : Setup
run_set_up = record {
  execution = record default_execution {
    code_path = text "/r1/main";
    input_path = text "/in";
    output_path = text "/out";
    job_id = text "j";
    attempt_id = pos 7;
    attempt_explicit = true;
  };
  global = configured 1000;
}

parse-run_options :
    parse_options (document 1000) whole initial_setup run_options endless []
    ≡ returns
        (goes_on run_set_up)
        ((read_file (text "/c.yaml"), endless [] (read_file (text "/c.yaml"))) ∷ [])
unfolding parse_options apply_option Flow.◌>>=◌ initial_setup default_execution zero_config stoi
    stoll text load_config read_config ◌>>=◌ or_throw child check_node read read_or read_runner
    read_path read_paths read_mount_files read_compile read_security into_buffer default_config
    megabytes c_str to_long ◌*ℤ◌ sys
parse-run_options = refl

run_set_up-Timely : Timely 201 run_set_up.global run_set_up.execution.time_limit
unfolding default_execution compile_time_limit to_int ◌*ℤ◌
run_set_up-Timely = record {
  run_ms = 1000;
  run_known = refl;
  run_short = omega arith;
  run_enough = omega arith;
  compile_ms = 5000;
  compile_known = refl;
  compile_short = omega arith;
  compile_enough = omega arith;
}

timely :
    (s : Setup) (h : History)
    → parse_options (document 1000) whole initial_setup run_options endless []
      ≡ returns (goes_on s) h
    → Timely 201 s.global s.execution.time_limit
timely s h e =
    let same : run_set_up ≡ s = cc parse-run_options in
    subst (λ (z : Setup). Timely 201 z.global z.execution.time_limit) same run_set_up-Timely

main_ends_example :
    MainEnds (helped run_options) (main (document 1000) whole 202 run_options endless [])
main_ends_example =
    main_ends (document 1000) whole endless endless-Uninterrupted endless-Clock 201 run_options
      timely

main_leaves_nothing_example :
    Over Settled (main (document 1000) whole 202 run_options endless [])
    × Over (Balanced []) (main (document 1000) whole 202 run_options endless [])
main_leaves_nothing_example = main_leaves_nothing (document 1000) whole endless 202 run_options
