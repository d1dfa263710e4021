-- ===== src/Isolation/Confinement.antt =====
-- What has been done to a child when the compiler starts in it, and how else it can end.
use deep_oj.Common.{ℕ, ◌≡◌, some, List, [], ◌∷◌, if◌then◌else◌}
use deep_oj.Common.Int.{pos, ltb_ℤ, to_unsigned}
use deep_oj.Common.Bytes.{Bytes, text, strncpy}
use deep_oj.Types.{GlobalConfig, CompileArgs}
use deep_oj.Platform.{Platform}
use deep_oj.Os.{
  Call, History, mount, setrlimit, setgroups_none, setgid, setuid, no_new_privs, act_allow,
  act_kill, rlimit_cpu, rlimit_as, rlimit_fsize,
}
use deep_oj.Os.Trace.{Performed}
use deep_oj.Seccomp.{compile_rules}
use deep_oj.Isolation.RunChild.{tmpfs_options}
use deep_oj.Isolation.CompileChild.{source_dir}
use deep_oj.Common.Int.{ℤ, leb_ℤ}
use deep_oj.Common.{◌++◌}
use deep_oj.Common.Bytes.{print_ℤ}
use deep_oj.Isolation.BaseName.{at_root}
use deep_oj.Os.{close_range_from}
use deep_oj.Isolation.RootfsCorrect.{rootfs_steps}
use deep_oj.Isolation.Steps.{filter_steps}

-- The size to which the log of the compiler is limited.
abbrev pub log_limit : GlobalConfig → ℕ
log_limit g =
    if ltb_ℤ (pos 0) g.compile_log_max_bytes
    then to_unsigned 64 g.compile_log_max_bytes
    else 16777216

abbrev pub limit_steps : GlobalConfig → List Call → List Call
limit_steps g before =
    setrlimit rlimit_fsize (some (log_limit g)) (some (log_limit g))
    ∷ setrlimit rlimit_as (some (to_unsigned 64 g.compile_mem_limit))
        (some (to_unsigned 64 g.compile_mem_limit))
    ∷ setrlimit rlimit_cpu (some (to_unsigned 64 g.compile_cpu_limit))
        (some (to_unsigned 64 g.compile_real_limit))
    ∷ before

-- All that has succeeded when the compiler starts, the last call first.
abbrev pub confinement : GlobalConfig → Bytes → List Call
confinement g work_dir = filter_steps act_allow act_kill compile_rules (
    no_new_privs
    ∷ setuid g.run_uid
    ∷ setgid g.run_gid
    ∷ setgroups_none
    ∷ limit_steps g (
        mount (some (text "tmpfs")) (text "/tmp") (some (text "tmpfs")) []
          (some (tmpfs_options g.compile_tmpfs_size_mb 128))
        ∷ rootfs_steps g work_dir (close_range_from 3 ∷ [])))

-- How many errors the compiler may report.
abbrev pub errors_shown : GlobalConfig → ℤ
errors_shown g = if leb_ℤ g.compile_max_errors (pos 0) then pos 10 else g.compile_max_errors

abbrev pub StartsConfined : GlobalConfig → CompileArgs → Bytes → List Bytes → History → Type 0
StartsConfined g args path argv h =
    (path ≡ g.compiler_path)
    × (argv
        ≡ g.compiler_path
          ∷ text "-std=c++20"
          ∷ text "-O2"
          ∷ text "-pipe"
          ∷ strncpy 31 (text "-fmax-errors=" ++ print_ℤ (errors_shown g))
          ∷ at_root args.source_path
          ∷ text "-o"
          ∷ at_root args.exe_path
          ∷ [])
    × Performed (confinement g (source_dir (strncpy 255 args.source_path))) h
