-- ===== src/Config.antt =====
-- config.cpp: `LoadConfig`, over the part of yaml-cpp that it calls.
mod Loading
pub mod Meaning
pub mod Sound
pub mod Complete
pub mod Correct
use deep_oj.Common.{
  ℕ, zero, suc, ◌+◌, ◌*◌, ◌^◌, ◌%◌, Bool, true, false, not, Option, none, some, List, [], ◌∷◌, leb,
  if◌then◌else◌,
}
use mathlib.Core.Option
use deep_oj.Common.Int.{ℤ, pos, ◌*ℤ◌, leb_ℤ, to_long}
use deep_oj.Common.Bytes.{Bytes, text, strncpy, c_str}
use deep_oj.Types.{GlobalConfig, Double}
use deep_oj.Platform.{Platform}
use deep_oj.Os.{read_file}
use deep_oj.Os.Flow
use deep_oj.Os.Flow.{M, pure, sys, exit, failed}
pub use Loading.{Loaded, loaded, refused, ◌>>◌, Failure, missing, no_list, exception}
unfoldable pub use Loading.{◌>>=◌, or_throw}

-- What the program calls of yaml-cpp. `none` is an exception; a node may be looked up and yet be
-- undefined, and a conversion fails where the node has another form or the value does not fit.
pub record Yaml (Node : Type 0) : Type 0 where
  pub parse : Bytes → Option Node
  pub get : Node → Bytes → Option Node
  pub is_defined : Node → Bool
  pub is_sequence : Node → Bool
  pub size : Node → ℕ
  pub item : Node → ℕ → Option Node
  pub as_string : Node → Option Bytes
  pub as_int : Node → Option ℤ
  pub as_long_long : Node → Option ℤ
  pub as_unsigned_long : Node → Option ℕ
  pub as_double : Node → Option Double

-- `g_runner_config` before and behind the `memset`.
unfoldable pub zero_config : GlobalConfig
zero_config = record {
  workspace_root = [];
  compiler_path = [];
  mount_dirs = [];
  mount_files = [];
  compile_cpu_limit = pos 0;
  compile_real_limit = pos 0;
  compile_mem_limit = pos 0;
  max_output_size = pos 0;
  output_buffer_size = pos 0;
  run_tmpfs_size_mb = pos 0;
  compile_tmpfs_size_mb = pos 0;
  compile_log_max_bytes = pos 0;
  compile_max_errors = pos 0;
  run_uid = 0;
  run_gid = 0;
  cgroup_pids_limit = pos 0;
  cgroup_cpu_max_cores = 0;
  cgroup_io_read_bps = pos 0;
  cgroup_io_write_bps = pos 0;
}

-- The defaults that are set before anything is read.
unfoldable pub default_config : Platform → GlobalConfig
unfolding zero_config
default_config p = record zero_config {
  run_tmpfs_size_mb = pos 64;
  compile_tmpfs_size_mb = pos 128;
  compile_log_max_bytes = pos (16 * 1024 * 1024);
  compile_max_errors = pos 10;
  cgroup_pids_limit = pos 20;
  cgroup_cpu_max_cores = p.literal 1 0;
  cgroup_io_read_bps = pos (100 * 1024 * 1024);
  cgroup_io_write_bps = pos (100 * 1024 * 1024);
}

-- `mb * 1024LL * 1024LL`
unfoldable pub megabytes : ℤ → ℤ
megabytes mb = to_long (to_long (mb *ℤ pos 1024) *ℤ pos 1024)

-- A text in a `char[256]`.
unfoldable pub into_buffer : Bytes → Bytes
unfolding c_str
into_buffer s = strncpy 255 (c_str s)

-- How `LoadConfig` ends: each failure and each exception ends in `exit(EXIT_FAILURE)`.
abbrev pub or_fail : {A : Type 0} → Loaded A → M A
or_fail (loaded a) = pure a
or_fail (refused why) = exit 1

module _ {Node : Type 0} (y : Yaml Node) where
  -- `parent["key"]`
  unfoldable pub child : Node → Bytes → Loaded Node
  child parent key = or_throw (y.get parent key)

  -- `CHECK_NODE(parent["key"], name)`: the process ends where there is no such node.
  unfoldable pub check_node : Node → Bytes → Bytes → Loaded (Unit {0})
  check_node parent key name = do
    node ← child parent key
    if y.is_defined node then loaded tt else refused (missing name)

  -- `parent["key"].as<T>()`
  unfoldable pub read : {A : Type 0} → (Node → Option A) → Node → Bytes → Loaded A
  read as_type parent key = do node ← child parent key; or_throw (as_type node)

  -- `parent["key"] ? parent["key"].as<T>() : old`
  unfoldable pub read_or : {A : Type 0} → (Node → Option A) → A → Node → Bytes → Loaded A
  read_or as_type old parent key = do
    node ← child parent key
    if y.is_defined node then read as_type parent key else loaded old

  -- The section `runner`, which may be missing.
  unfoldable pub read_runner : Node → GlobalConfig → Loaded GlobalConfig
  read_runner config g = do
    section ← child config (text "runner")
    if y.is_defined section
        then (do
          output ← read_or y.as_long_long (pos (10 * 1024 * 1024)) section (text "max_output_size")
          buffer ←
              read_or y.as_long_long (pos (2 * 1024 * 1024)) section (text "output_buffer_size")
          tmpfs ← read_or y.as_long_long g.run_tmpfs_size_mb section (text "tmpfs_size_mb")
          pids ← read_or y.as_int g.cgroup_pids_limit section (text "cgroup_pids_limit")
          cores ← read_or y.as_double g.cgroup_cpu_max_cores section (text "cgroup_cpu_max_cores")
          read_bps ← read_or y.as_long_long g.cgroup_io_read_bps section (text "cgroup_io_read_bps")
          write_bps ←
              read_or y.as_long_long g.cgroup_io_write_bps section (text "cgroup_io_write_bps")
          loaded (record g {
            max_output_size = output;
            output_buffer_size = buffer;
            run_tmpfs_size_mb = tmpfs;
            cgroup_pids_limit = pids;
            cgroup_cpu_max_cores = cores;
            cgroup_io_read_bps = read_bps;
            cgroup_io_write_bps = write_bps;
          }))
        else loaded (record g {
          max_output_size = pos (10 * 1024 * 1024);
          output_buffer_size = pos (2 * 1024 * 1024);
        })

  -- The loop over a list of paths: `left` items from `i` on, of which `count` are kept so far.
  -- There is room for 16.
  unfoldable pub read_paths : Node → ℕ → ℕ → ℕ → Loaded (List Bytes)
  read_paths node zero i count = loaded []
  read_paths node (suc left) i count = if leb 16 count then loaded [] else do
    entry ← or_throw (y.item node i)
    path ← or_throw (y.as_string entry)
    rest ← read_paths node left (suc i) (suc count)
    loaded (into_buffer path ∷ rest)

  -- `path.mount_files`, which may be missing or no list.
  unfoldable pub read_mount_files : Node → Loaded (List Bytes)
  read_mount_files section = do
    node ← child section (text "mount_files")
    if not (y.is_defined node)
        then loaded []
        else if not (y.is_sequence node)
        then loaded []
        else read_paths node (y.size node) 0 0

  -- The section `path`.
  unfoldable pub read_path : Node → GlobalConfig → Loaded GlobalConfig
  read_path config g = do
    check_node config (text "path") (text "path")
    section ← child config (text "path")
    check_node section (text "workspace_root") (text "path.workspace_root")
    check_node section (text "compiler_bin") (text "path.compiler_bin")
    check_node section (text "mount_dirs") (text "path.mount_dirs")
    workspace ← read y.as_string section (text "workspace_root")
    compiler ← read y.as_string section (text "compiler_bin")
    dirs ← child section (text "mount_dirs")
    if not (y.is_sequence dirs) then refused no_list else do
      mount_dirs ← read_paths dirs (y.size dirs) 0 0
      mount_files ← read_mount_files section
      loaded (record g {
        workspace_root = into_buffer workspace;
        compiler_path = into_buffer compiler;
        mount_dirs = mount_dirs;
        mount_files = mount_files;
      })

  -- The section `compile`.
  unfoldable pub read_compile : Node → GlobalConfig → Loaded GlobalConfig
  read_compile config g = do
    check_node config (text "compile") (text "compile")
    section ← child config (text "compile")
    check_node section (text "cpu_limit_s") (text "compile.cpu_limit_s")
    check_node section (text "real_time_limit_s") (text "compile.real_time_limit_s")
    check_node section (text "memory_limit_mb") (text "compile.memory_limit_mb")
    cpu ← read y.as_int section (text "cpu_limit_s")
    real ← read y.as_int section (text "real_time_limit_s")
    mem_mb ← read y.as_long_long section (text "memory_limit_mb")
    tmpfs ← read_or y.as_long_long g.compile_tmpfs_size_mb section (text "tmpfs_size_mb")
    log_max ←
        read_or (λ n. Option.map megabytes (y.as_long_long n)) g.compile_log_max_bytes section
          (text "log_max_size_mb")
    errors ← read_or y.as_int g.compile_max_errors section (text "max_errors")
    loaded (record g {
      compile_cpu_limit = cpu;
      compile_real_limit = real;
      compile_mem_limit = megabytes mem_mb;
      compile_tmpfs_size_mb = tmpfs;
      compile_log_max_bytes = log_max;
      compile_max_errors = if leb_ℤ errors (pos 0) then pos 10 else errors;
    })

  -- The section `security`. `uid_t` and `gid_t` have 32 bits, `unsigned long` has 64.
  unfoldable pub read_security : Node → GlobalConfig → Loaded GlobalConfig
  read_security config g = do
    check_node config (text "security") (text "security")
    section ← child config (text "security")
    check_node section (text "run_as_uid") (text "security.run_as_uid")
    check_node section (text "run_as_gid") (text "security.run_as_gid")
    uid ← read y.as_unsigned_long section (text "run_as_uid")
    gid ← read y.as_unsigned_long section (text "run_as_gid")
    loaded (record g { run_uid = uid % 2 ^ 32; run_gid = gid % 2 ^ 32 })

  -- The sections of a document, in their order.
  unfoldable pub read_config : Platform → Node → Loaded GlobalConfig
  read_config p config = do
    with_runner ← read_runner config (default_config p)
    with_path ← read_path config with_runner
    with_compile ← read_compile config with_path
    read_security config with_compile

  -- `LoadConfig`. What it leaves in `g_runner_config` is its result.
  unfoldable pub load_config : Platform → Bytes → M GlobalConfig
  load_config p path = Flow.◌>>=◌ (sys (read_file path)) (λ file.
      if failed file then exit 1 else or_fail (or_throw (y.parse file.bytes) >>= read_config p))
