-- ===== src/Config/Complete.antt =====
-- A document that means something is loaded as that.
use deep_oj.Common.{
  ℕ, zero, suc, ◌-◌, ◌≡◌, refl, min, false, Option, some, List, [], ◌∷◌, length, leb, arith, inl,
  inr,
}
use deep_oj.Common.Bytes.{Bytes, text}
use deep_oj.Types.{GlobalConfig}
use deep_oj.Platform.{Platform}
use deep_oj.Config
use deep_oj.Config.{
  Yaml, Loaded, loaded, refused, or_throw, ◌>>=◌, ◌>>◌, into_buffer, megabytes, default_config,
}
use deep_oj.Config.Meaning.{
  There, Sets, SetsOr, Items, MountFiles, Runner, PathSettings, CompileSettings, SecuritySettings,
  Section, Means,
}

module _ {Node : Type 0} (y : Yaml Node) where
  child-loaded :
      (parent : Node) (key : Bytes) (n : Node)
      → y.get parent key ≡ some n
      → Config.child y parent key ≡ loaded n
  unfolding Config.child or_throw
  child-loaded parent key n e = rw e

  check_node-loaded :
      (parent : Node) (key name : Bytes) (n : Node)
      → There y parent key n
      → Config.check_node y parent key name ≡ loaded tt
  unfolding Config.check_node ◌>>=◌
  check_node-loaded parent key name n (e, d) = rw (child-loaded parent key n e, d)

  read-loaded :
      {A : Type 0} (as_type : Node → Option A) (parent : Node) (key : Bytes) (a : A)
      → Sets y as_type parent key a
      → Config.read y as_type parent key ≡ loaded a
  unfolding Config.read ◌>>=◌ or_throw
  read-loaded as_type parent key a (n, (e, d), v) = rw (child-loaded parent key n e, v)

  read_or-loaded :
      {A : Type 0} (as_type : Node → Option A) (old : A) (parent : Node) (key : Bytes) (a : A)
      → SetsOr y as_type old parent key a
      → Config.read_or y as_type old parent key ≡ loaded a
  unfolding Config.read_or ◌>>=◌
  read_or-loaded as_type old parent key a (n, e, inl (d, v)) =
      rw (child-loaded parent key n e, d) (read-loaded as_type parent key a (n, (e, d), v))
  read_or-loaded as_type old parent key a (n, e, inr (d, v)) =
      rw (child-loaded parent key n e, d, v)

  read_paths-loaded :
      (node : Node) (left i count : ℕ) (ps : List Bytes)
      → length ps ≡ min (16 - count) left
      → Items y node i ps
      → Config.read_paths y node left i count ≡ loaded ps
  unfolding Config.read_paths ◌>>=◌ or_throw into_buffer
  read_paths-loaded node zero i count [] l it = refl
  read_paths-loaded node zero i count (p ∷ ps) l it = absurd (omega (arith, l))
  read_paths-loaded node (suc left) i count [] l it = ground (arith, l)
  read_paths-loaded node (suc left) i count (p ∷ ps) l ((n, s, e, v, q), it) =
      let room : leb 16 count ≡ false = ground (arith, l) in
      let rest : length ps ≡ min (16 - suc count) left = ground (arith, l) in
      rw (room, e, v, read_paths-loaded node left (suc i) (suc count) ps rest it, q)

  read_mount_files-loaded :
      (section : Node) (ps : List Bytes)
      → MountFiles y section ps
      → Config.read_mount_files y section ≡ loaded ps
  unfolding Config.read_mount_files ◌>>=◌
  read_mount_files-loaded section ps (n, e, inl (d, q, r)) =
      rw (child-loaded section (text "mount_files") n e, d, q)
        (read_paths-loaded n (y.size n) 0 0 ps r.0 r.1)
  read_mount_files-loaded section ps (n, e, inr (inl d, p)) =
      rw (child-loaded section (text "mount_files") n e, d, p)
  read_mount_files-loaded section ps (n, e, inr (inr q, p)) =
      rw (child-loaded section (text "mount_files") n e, p) (ground (arith, q))

module _ {Node : Type 0} (y : Yaml Node) (config : Node) (g g' : GlobalConfig) where
  read_path-loaded :
      Section y config (text "path") (λ s. PathSettings y s g')
      → Config.read_path y config g
        ≡ loaded (record g {
          workspace_root = g'.workspace_root;
          compiler_path = g'.compiler_path;
          mount_dirs = g'.mount_dirs;
          mount_files = g'.mount_files;
        })
  unfolding Config.read_path ◌>>=◌ into_buffer
  read_path-loaded (s, here, ((w, w1, w2), (c, c1, c2), (n, n1, q, r), m)) = rw (
    check_node-loaded y config (text "path") (text "path") s here,
    child-loaded y config (text "path") s here.0,
    check_node-loaded y s (text "workspace_root") (text "path.workspace_root") w1.0 w1.1,
    check_node-loaded y s (text "compiler_bin") (text "path.compiler_bin") c1.0 c1.1,
    check_node-loaded y s (text "mount_dirs") (text "path.mount_dirs") n n1,
    read-loaded y y.as_string s (text "workspace_root") w w1,
    read-loaded y y.as_string s (text "compiler_bin") c c1,
    child-loaded y s (text "mount_dirs") n n1.0,
    q,
    read_paths-loaded y n (y.size n) 0 0 g'.mount_dirs r.0 r.1,
    read_mount_files-loaded y s g'.mount_files m,
    w2,
    c2,
  )

  read_compile-loaded :
      Section y config (text "compile") (λ s.
        CompileSettings y g.compile_tmpfs_size_mb g.compile_log_max_bytes g.compile_max_errors s g')
      → Config.read_compile y config g
        ≡ loaded (record g {
          compile_cpu_limit = g'.compile_cpu_limit;
          compile_real_limit = g'.compile_real_limit;
          compile_mem_limit = g'.compile_mem_limit;
          compile_tmpfs_size_mb = g'.compile_tmpfs_size_mb;
          compile_log_max_bytes = g'.compile_log_max_bytes;
          compile_max_errors = g'.compile_max_errors;
        })
  unfolding Config.read_compile ◌>>=◌ megabytes
  read_compile-loaded (s, here, (cpu, real, (mb, m1, m2), tmpfs, log, (e, e1, e2))) = rw (
    check_node-loaded y config (text "compile") (text "compile") s here,
    child-loaded y config (text "compile") s here.0,
    check_node-loaded y s (text "cpu_limit_s") (text "compile.cpu_limit_s") cpu.0 cpu.1,
    check_node-loaded y s (text "real_time_limit_s") (text "compile.real_time_limit_s") real.0
        real.1,
    check_node-loaded y s (text "memory_limit_mb") (text "compile.memory_limit_mb") m1.0 m1.1,
    read-loaded y y.as_int s (text "cpu_limit_s") g'.compile_cpu_limit cpu,
    read-loaded y y.as_int s (text "real_time_limit_s") g'.compile_real_limit real,
    read-loaded y y.as_long_long s (text "memory_limit_mb") mb m1,
    read_or-loaded y y.as_long_long _ s (text "tmpfs_size_mb") g'.compile_tmpfs_size_mb tmpfs,
    read_or-loaded y _ _ s (text "log_max_size_mb") g'.compile_log_max_bytes log,
    read_or-loaded y y.as_int _ s (text "max_errors") e e1,
    m2,
    e2,
  )

  read_security-loaded :
      Section y config (text "security") (λ s. SecuritySettings y s g')
      → Config.read_security y config g
        ≡ loaded (record g { run_uid = g'.run_uid; run_gid = g'.run_gid })
  unfolding Config.read_security ◌>>=◌
  read_security-loaded (s, here, ((uid, u1, u2), (gid, v1, v2))) = rw (
    check_node-loaded y config (text "security") (text "security") s here,
    child-loaded y config (text "security") s here.0,
    check_node-loaded y s (text "run_as_uid") (text "security.run_as_uid") u1.0 u1.1,
    check_node-loaded y s (text "run_as_gid") (text "security.run_as_gid") v1.0 v1.1,
    read-loaded y y.as_unsigned_long s (text "run_as_uid") uid u1,
    read-loaded y y.as_unsigned_long s (text "run_as_gid") gid v1,
    u2,
    v2,
  )

module _ {Node : Type 0} (y : Yaml Node) (p : Platform) (config : Node) (g' : GlobalConfig) where
  -- The defaults, and what the sections make of them.
  abbrev with_runner : GlobalConfig
  with_runner = record (default_config p) {
    max_output_size = g'.max_output_size;
    output_buffer_size = g'.output_buffer_size;
    run_tmpfs_size_mb = g'.run_tmpfs_size_mb;
    cgroup_pids_limit = g'.cgroup_pids_limit;
    cgroup_cpu_max_cores = g'.cgroup_cpu_max_cores;
    cgroup_io_read_bps = g'.cgroup_io_read_bps;
    cgroup_io_write_bps = g'.cgroup_io_write_bps;
  }

  abbrev with_path : GlobalConfig
  with_path = record with_runner {
    workspace_root = g'.workspace_root;
    compiler_path = g'.compiler_path;
    mount_dirs = g'.mount_dirs;
    mount_files = g'.mount_files;
  }

  abbrev with_compile : GlobalConfig
  with_compile = record with_path {
    compile_cpu_limit = g'.compile_cpu_limit;
    compile_real_limit = g'.compile_real_limit;
    compile_mem_limit = g'.compile_mem_limit;
    compile_tmpfs_size_mb = g'.compile_tmpfs_size_mb;
    compile_log_max_bytes = g'.compile_log_max_bytes;
    compile_max_errors = g'.compile_max_errors;
  }

  read_runner-loaded :
      Runner y p config g' → Config.read_runner y config (default_config p) ≡ loaded with_runner
  unfolding Config.read_runner ◌>>=◌ default_config Config.zero_config
  read_runner-loaded (s, e, inl (d, (v1, v2, v3, v4, v5, v6, v7))) = rw (
    child-loaded y config (text "runner") s e,
    d,
    read_or-loaded y y.as_long_long _ s (text "max_output_size") g'.max_output_size v1,
    read_or-loaded y y.as_long_long _ s (text "output_buffer_size") g'.output_buffer_size v2,
    read_or-loaded y y.as_long_long _ s (text "tmpfs_size_mb") g'.run_tmpfs_size_mb v3,
    read_or-loaded y y.as_int _ s (text "cgroup_pids_limit") g'.cgroup_pids_limit v4,
    read_or-loaded y y.as_double _ s (text "cgroup_cpu_max_cores") g'.cgroup_cpu_max_cores v5,
    read_or-loaded y y.as_long_long _ s (text "cgroup_io_read_bps") g'.cgroup_io_read_bps v6,
    read_or-loaded y y.as_long_long _ s (text "cgroup_io_write_bps") g'.cgroup_io_write_bps v7,
  )
  read_runner-loaded (s, e, inr (d, (v1, v2, v3, v4, v5, v6, v7))) =
      rw (child-loaded y config (text "runner") s e, d, v1, v2, v3, v4, v5, v6, v7)

  pub read_config-loaded : Means y p config g' → Config.read_config y p config ≡ loaded g'
  unfolding Config.read_config ◌>>=◌ default_config Config.zero_config
  read_config-loaded m = rw (
    read_runner-loaded m.runner,
    read_path-loaded y config with_runner g' m.path,
    read_compile-loaded y config with_path g' m.compile,
    read_security-loaded y config with_compile g' m.security,
  )
