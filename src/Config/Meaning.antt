-- ===== src/Config/Meaning.antt =====
-- What a configuration file means, said without the code: which node of the document gives which
-- field of the configuration.
use deep_oj.Common.{
  ℕ, suc, ◌^◌, ◌%◌, ◌≡◌, ◌⊎◌, min, true, false, Option, some, List, [], ◌∷◌, length, if◌then◌else◌,
}
use deep_oj.Common.Int.{ℤ, pos, leb_ℤ, to_long, ◌*ℤ◌}
use mathlib.Core.Option
use deep_oj.Common.Bytes.{Bytes, text, strncpy, c_str}
use deep_oj.Types.{GlobalConfig}
use deep_oj.Platform.{Platform}
use deep_oj.Config.{Yaml}

-- A number of megabytes in bytes, each product wrapped around.
abbrev pub bytes_of : ℤ → ℤ
bytes_of mb = to_long (to_long (mb *ℤ pos 1024) *ℤ pos 1024)

-- The 255 bytes at most that a text leaves in a buffer.
abbrev pub buffered : Bytes → Bytes
buffered s = strncpy 255 (c_str s)

module _ {Node : Type 0} (y : Yaml Node) where
  -- A node that is there.
  abbrev pub There : Node → Bytes → Node → Type 0
  There parent key n = (y.get parent key ≡ some n) × (y.is_defined n ≡ true)

  -- A setting that must be there, with its value.
  abbrev pub Sets : {A : Type 0} → (Node → Option A) → Node → Bytes → A → Type 0
  Sets as_type parent key a = (n : Node) × There parent key n × (as_type n ≡ some a)

  -- A setting that may be missing: its value is then the default.
  abbrev pub SetsOr : {A : Type 0} → (Node → Option A) → A → Node → Bytes → A → Type 0
  SetsOr as_type default parent key a =
      (n : Node) × (y.get parent key ≡ some n)
      × (((y.is_defined n ≡ true) × (as_type n ≡ some a))
          ⊎ ((y.is_defined n ≡ false) × (a ≡ default)))

  -- The items of a list from `i` on are these paths, cut off at the size of a buffer.
  abbrev pub Items : Node → ℕ → List Bytes → Type 0
  Items node i [] = Unit
  Items node i (path ∷ paths) =
      ((n : Node) × (s : Bytes) × (y.item node i ≡ some n)
        × (y.as_string n ≡ some s)
        × (path ≡ buffered s))
      × Items node (suc i) paths

  -- The first 16 items of a list.
  abbrev pub Paths : Node → List Bytes → Type 0
  Paths node paths = (length paths ≡ min 16 (y.size node)) × Items node 0 paths

  abbrev pub MountFiles : Node → List Bytes → Type 0
  MountFiles section paths =
      (n : Node) × (y.get section (text "mount_files") ≡ some n)
      × (((y.is_defined n ≡ true) × (y.is_sequence n ≡ true) × Paths n paths)
          ⊎ (((y.is_defined n ≡ false) ⊎ (y.is_sequence n ≡ false)) × (paths ≡ [])))

  -- The settings of a section `runner` that is there.
  abbrev pub RunnerSettings : Platform → Node → GlobalConfig → Type 0
  RunnerSettings p s g =
      SetsOr y.as_long_long (pos 10485760) s (text "max_output_size") g.max_output_size
      × SetsOr y.as_long_long (pos 2097152) s (text "output_buffer_size") g.output_buffer_size
      × SetsOr y.as_long_long (pos 64) s (text "tmpfs_size_mb") g.run_tmpfs_size_mb
      × SetsOr y.as_int (pos 20) s (text "cgroup_pids_limit") g.cgroup_pids_limit
      × SetsOr y.as_double (p.literal 1 0) s (text "cgroup_cpu_max_cores") g.cgroup_cpu_max_cores
      × SetsOr y.as_long_long (pos 104857600) s (text "cgroup_io_read_bps") g.cgroup_io_read_bps
      × SetsOr y.as_long_long (pos 104857600) s (text "cgroup_io_write_bps") g.cgroup_io_write_bps

  abbrev pub RunnerDefaults : Platform → GlobalConfig → Type 0
  RunnerDefaults p g =
      (g.max_output_size ≡ pos 10485760)
      × (g.output_buffer_size ≡ pos 2097152)
      × (g.run_tmpfs_size_mb ≡ pos 64)
      × (g.cgroup_pids_limit ≡ pos 20)
      × (g.cgroup_cpu_max_cores ≡ p.literal 1 0)
      × (g.cgroup_io_read_bps ≡ pos 104857600)
      × (g.cgroup_io_write_bps ≡ pos 104857600)

  abbrev pub Runner : Platform → Node → GlobalConfig → Type 0
  Runner p config g =
      (s : Node) × (y.get config (text "runner") ≡ some s)
      × (((y.is_defined s ≡ true) × RunnerSettings p s g)
          ⊎ ((y.is_defined s ≡ false) × RunnerDefaults p g))

  abbrev pub PathSettings : Node → GlobalConfig → Type 0
  PathSettings s g =
      ((w : Bytes) × Sets y.as_string s (text "workspace_root") w × (g.workspace_root ≡ buffered w))
      × ((c : Bytes) × Sets y.as_string s (text "compiler_bin") c × (g.compiler_path ≡ buffered c))
      × ((n : Node) × There s (text "mount_dirs") n
          × (y.is_sequence n ≡ true)
          × Paths n g.mount_dirs)
      × MountFiles s g.mount_files

  -- With the defaults of three of them.
  abbrev pub CompileSettings : ℤ → ℤ → ℤ → Node → GlobalConfig → Type 0
  CompileSettings tmpfs log_max max_errors s g =
      Sets y.as_int s (text "cpu_limit_s") g.compile_cpu_limit
      × Sets y.as_int s (text "real_time_limit_s") g.compile_real_limit
      × ((mb : ℤ) × Sets y.as_long_long s (text "memory_limit_mb") mb
          × (g.compile_mem_limit ≡ bytes_of mb))
      × SetsOr y.as_long_long tmpfs s (text "tmpfs_size_mb") g.compile_tmpfs_size_mb
      × SetsOr (λ n. Option.map bytes_of (y.as_long_long n)) log_max s (text "log_max_size_mb")
          g.compile_log_max_bytes
      × ((e : ℤ) × SetsOr y.as_int max_errors s (text "max_errors") e
          × (g.compile_max_errors ≡ (if leb_ℤ e (pos 0) then pos 10 else e)))

  abbrev pub SecuritySettings : Node → GlobalConfig → Type 0
  SecuritySettings s g =
      ((uid : ℕ) × Sets y.as_unsigned_long s (text "run_as_uid") uid × (g.run_uid ≡ uid % 2 ^ 32))
      × ((gid : ℕ) × Sets y.as_unsigned_long s (text "run_as_gid") gid × (g.run_gid ≡ gid % 2 ^ 32))

  -- A section that must be there.
  abbrev pub Section : Node → Bytes → (Node → Type 0) → Type 0
  Section config key Settings = (s : Node) × There config key s × Settings s

  -- The whole document.
  pub record Means (p : Platform) (config : Node) (g : GlobalConfig) : Type 0 where
    pub runner : Runner p config g
    pub path : Section config (text "path") (λ s. PathSettings s g)
    pub compile :
        Section config (text "compile") (λ s. CompileSettings (pos 128) (pos 16777216) (pos 10) s g)
    pub security : Section config (text "security") (λ s. SecuritySettings s g)
