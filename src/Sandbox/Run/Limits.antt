-- ===== src/Sandbox/Run/Limits.antt =====
-- What the control files of a cgroup hold when `Run` has put its child into it.
use deep_oj.Common.{
  ℕ, ◌*◌, ◌^◌, ◌%◌, ◌<◌, ◌≡◌, refl, true, false, List, [], ◌∷◌, ◌++◌, arith, if◌then◌else◌,
}
use deep_oj.Common.Int.{ℤ, pos, ltb_ℤ, leb_ℤ, to_unsigned}
use deep_oj.Common.Bytes.{Bytes, text, bytes_eq, print_ℕ, print_ℤ}
use deep_oj.Types.{GlobalConfig, Double}
use deep_oj.Platform.{Platform}
use deep_oj.Os.{History, Environment}
use deep_oj.Os.Yields.{Gives, Yields, Yields-pure, Yields-bind}
use deep_oj.Cgroup.{CgroupManager, cpu_quota}
use deep_oj.Sandbox.Run
use deep_oj.Sandbox.Run.{RunRequest}
use deep_oj.Cgroup.Contents.{
  Holds, Writable, Keeps-Holds, set_pids_limit-Has, set_memory_limit-Has, set_cpu_limit-Has,
  set_io_limit-Keeps, add_process-Has,
}

-- The time on the CPU in 100000 us for a number of cores: 1000 us at least.
abbrev pub quota_of : Platform → Double → ℤ
quota_of p cores =
    let quota = p.llround (p.mul cores (p.of_int (pos 100000))) in
    if leb_ℤ (pos 1000) quota then quota else pos 1000

cpu_quota-quota_of : (p : Platform) (cores : Double) → cpu_quota p cores ≡ quota_of p cores
unfolding cpu_quota
cpu_quota-quota_of p cores = ground arith

-- The cores that a run may use, and the processes.
abbrev pub cores_of : Platform → GlobalConfig → Double
cores_of p g =
    if p.gt g.cgroup_cpu_max_cores (p.of_int (pos 0)) then g.cgroup_cpu_max_cores else p.literal 1 0

abbrev pub pids_of : GlobalConfig → ℤ
pids_of g = if ltb_ℤ (pos 0) g.cgroup_pids_limit then g.cgroup_pids_limit else pos 20

module _ (p : Platform) (g : GlobalConfig) where
  abbrev pub pids_set : List (Bytes × Bytes)
  pids_set = (text "/pids.max", print_ℤ (pids_of g)) ∷ []

  abbrev pub cpu_set : ℕ → List (Bytes × Bytes)
  cpu_set memory =
      (text "/cpu.max", print_ℤ (quota_of p (cores_of p g)) ++ (text " " ++ print_ℕ 100000))
      ∷ (text "/memory.swap.max", text "0")
      ∷ (text "/memory.max", print_ℕ memory)
      ∷ pids_set

  -- The four controls that are always set, and the child as a member, the last write first.
  abbrev pub controls : ℤ → ℕ → List (Bytes × Bytes)
  controls pid memory = (text "/cgroup.procs", print_ℤ pid) ∷ cpu_set memory

  fill_cgroup-Holds :
      (env : Environment) (q : RunRequest) (c : CgroupManager) (pid : ℤ) (memory : ℕ)
      → to_unsigned 64 q.memory_limit_kb * 1024 % 2 ^ 64 ≡ memory
      → c.created ≡ true
      → Writable env c.cgroup_path
      → p.le (cores_of p g) (p.of_int (pos 0)) ≡ false
      → Yields ⊥ env
          (λ _. ⊥)
          (λ h. Unit {0})
          (λ u. Holds env c.cgroup_path (controls pid memory))
          (Run.fill_cgroup p g q c pid)
  unfolding Run.fill_cgroup bytes_eq text
  fill_cgroup-Holds env q c pid memory size made writable positive = rw size (
      Yields-bind _ (set_pids_limit-Has env c made writable (pids_of g) _ (λ v r h k. tt)) (λ a.
        Yields-bind _
          (set_memory_limit-Has env c made writable memory _
            (Keeps-Holds env c.cgroup_path (text "/memory.max") pids_set refl)
            (Keeps-Holds env c.cgroup_path (text "/memory.swap.max") pids_set refl))
          (λ b.
            Yields-bind _
              (set_cpu_limit-Has env c made writable p (cores_of p g) (quota_of p (cores_of p g)) _
                (cpu_quota-quota_of p (cores_of p g)) positive
                (Keeps-Holds env c.cgroup_path (text "/cpu.max")
                  ((text "/memory.swap.max", text "0")
                    ∷ (text "/memory.max", print_ℕ memory)
                    ∷ pids_set)
                  refl))
              (λ d.
                Yields-bind _
                  (set_io_limit-Keeps env c made writable p g.cgroup_io_read_bps
                    g.cgroup_io_write_bps g.workspace_root _
                    (Keeps-Holds env c.cgroup_path (text "/io.max") (cpu_set memory) refl)
                    (λ r h k. k))
                  (λ e.
                    Yields-bind _
                      (add_process-Has env c made writable pid _ (
                        Keeps-Holds env c.cgroup_path (text "/cgroup.procs") (cpu_set memory) refl))
                      (λ f. Yields-pure tt (λ h k. k)))))))

-- Behind `fill_cgroup` the four controls that a run always sets are in force, and the child is in the
-- cgroup, if the cgroup was made, its files can be written, the memory limit times 1024 has 64 bits,
-- and the number of cores is positive. The memory has the limit of the request and no swap. The
-- processes have the limit of the configuration, or 20. In each 100000 us the CPU is given for
-- `llround` of 100000 times the cores of the configuration, or of 1.0 core, and for 1000 us at least.
pub limits_in_force :
    (env : Environment) (p : Platform) (g : GlobalConfig) (q : RunRequest) (c : CgroupManager)
    (pid : ℤ) (kb : ℕ) (h : History)
    → q.memory_limit_kb ≡ pos kb
    → kb < 2 ^ 54
    → c.created ≡ true
    → Writable env c.cgroup_path
    → p.le (cores_of p g) (p.of_int (pos 0)) ≡ false
    → Gives ⊥
        (λ _. ⊥)
        (λ u. Holds env c.cgroup_path (controls p g pid (kb * 1024)))
        (Run.fill_cgroup p g q c pid env h)
limits_in_force env p g q c pid kb h limit small made writable positive =
    (fill_cgroup-Holds p g env q c pid (kb * 1024) size made writable positive).run h tt
  where
    size : to_unsigned 64 q.memory_limit_kb * 1024 % 2 ^ 64 ≡ kb * 1024
    size = rw limit (ground (arith, small))
