-- ===== src/Cgroup/Quiet.antt =====
-- The cgroup code opens no descriptor that it keeps and makes no process: whatever the quiet calls
-- leave alone, it leaves alone.
use deep_oj.Common.{ℕ, refl, Bool, true, false, Option, none, some, List, [], ◌∷◌}
use deep_oj.Common.Int.{ℤ}
use deep_oj.Common.Bytes.{Bytes}
use deep_oj.Types.{Double}
use deep_oj.Platform.{Platform}
use deep_oj.Os.{History, Environment}
use deep_oj.Os.Flow.{M}
use deep_oj.Os.Tidy.{
  Tidy, Stable, Tidy-pure, Tidy-throw, Tidy-bind, ◌⨟◌, Tidy-when, Tidy-quiet, Tidy-if,
}
use deep_oj.Cgroup.Files.{write_to_file, read_from_file}
use deep_oj.Cgroup.Kill.{kill_each, kill_all}
use deep_oj.Cgroup

module _ {U : Type 0} {env : Environment} {I : History → Type 0} (stable : Stable I) where
  write_to_file-Tidy : (path value : Bytes) → Tidy U env I I (write_to_file path value)
  unfolding write_to_file
  write_to_file-Tidy path value = Tidy-bind (Tidy-quiet stable _ refl) (λ r. Tidy-pure _)

  read_from_file-Tidy : (path : Bytes) → Tidy U env I I (read_from_file path)
  unfolding read_from_file
  read_from_file-Tidy path = Tidy-bind (Tidy-quiet stable _ refl) (λ r. Tidy-pure _)

  kill_each-Tidy : (pids : List ℤ) → Tidy U env I I (kill_each pids)
  unfolding kill_each
  kill_each-Tidy [] = Tidy-pure tt
  kill_each-Tidy (pid ∷ pids) =
      Tidy-when _ (Tidy-quiet stable _ refl ⨟ Tidy-pure tt) ⨟ kill_each-Tidy pids

  kill_all-Tidy : (path : Bytes) → Tidy U env I I (kill_all path)
  unfolding kill_all
  kill_all-Tidy path = Tidy-bind (read_from_file-Tidy _) (λ procs. kill_each-Tidy _)

  find_mount_root-Tidy : (roots : List Bytes) → Tidy U env I I (Cgroup.find_mount_root roots)
  unfolding Cgroup.find_mount_root
  find_mount_root-Tidy [] = Tidy-pure []
  find_mount_root-Tidy (root ∷ roots) = Tidy-bind (Tidy-quiet stable _ refl) (λ stat.
      Tidy-if _ (find_mount_root-Tidy roots) (
        Tidy-if _ (find_mount_root-Tidy roots) (
          Tidy-bind (Tidy-quiet stable _ refl) (λ there.
            Tidy-if _ (Tidy-throw _) (Tidy-if _ (find_mount_root-Tidy roots) (Tidy-pure root))))))

  pub get_cgroup2_mount_root-Tidy : Tidy U env I I Cgroup.get_cgroup2_mount_root
  unfolding Cgroup.get_cgroup2_mount_root
  get_cgroup2_mount_root-Tidy = find_mount_root-Tidy _

  known_or-Tidy : (o : Option ℕ) {m : M ℕ} → Tidy U env I I m → Tidy U env I I (Cgroup.known_or o m)
  known_or-Tidy none d = d
  known_or-Tidy (some n) d = Tidy-pure n

  module _ (c : Cgroup.CgroupManager) where
    enable_controllers-Tidy : Tidy U env I I (Cgroup.enable_controllers c)
    unfolding Cgroup.enable_controllers
    enable_controllers-Tidy = Tidy-bind (read_from_file-Tidy _) (λ raw.
        Tidy-when _ (write_to_file-Tidy _ _ ⨟ Tidy-pure tt)
        ⨟ Tidy-bind (read_from_file-Tidy _)
            (λ ours. Tidy-if _ (Tidy-pure false) (write_to_file-Tidy _ _)))

    ensure_parent_ready-Tidy : Tidy U env I I (Cgroup.ensure_parent_ready c)
    unfolding Cgroup.ensure_parent_ready
    ensure_parent_ready-Tidy = Tidy-bind (Tidy-quiet stable _ refl) (λ there.
        Tidy-if _ enable_controllers-Tidy (
          Tidy-bind (Tidy-quiet stable _ refl)
            (λ made. Tidy-if _ enable_controllers-Tidy (Tidy-pure false))))

    pub create-Tidy : Tidy U env I I (Cgroup.create c)
    unfolding Cgroup.create
    create-Tidy = Tidy-if _ (Tidy-pure _) (
        Tidy-bind ensure_parent_ready-Tidy (λ ready.
          Tidy-if _ (Tidy-pure _)
            (Tidy-bind (Tidy-quiet stable _ refl) (λ made. Tidy-if _ (Tidy-pure _) (Tidy-pure _)))))

    pub set_memory_limit-Tidy :
        (bytes : ℕ) (disable_swap : Bool)
        → Tidy U env I I (Cgroup.set_memory_limit c bytes disable_swap)
    unfolding Cgroup.set_memory_limit
    set_memory_limit-Tidy bytes disable_swap = Tidy-if _ (Tidy-pure false) (
        Tidy-bind (write_to_file-Tidy _ _) (λ done.
          Tidy-if _ (Tidy-pure false)
            (Tidy-when _ (write_to_file-Tidy _ _ ⨟ Tidy-pure tt) ⨟ Tidy-pure true)))

    pub set_pids_limit-Tidy : (n : ℤ) → Tidy U env I I (Cgroup.set_pids_limit c n)
    unfolding Cgroup.set_pids_limit
    set_pids_limit-Tidy n = Tidy-if _ (Tidy-pure false) (write_to_file-Tidy _ _)

    pub set_cpu_limit-Tidy :
        (p : Platform) (cores : Double) → Tidy U env I I (Cgroup.set_cpu_limit p c cores)
    unfolding Cgroup.set_cpu_limit
    set_cpu_limit-Tidy p cores =
        Tidy-if _ (Tidy-pure false) (Tidy-if _ (Tidy-pure false) (write_to_file-Tidy _ _))

    pub set_io_limit-Tidy :
        (p : Platform) (r w : ℤ) (path : Bytes) → Tidy U env I I (Cgroup.set_io_limit p c r w path)
    unfolding Cgroup.set_io_limit
    set_io_limit-Tidy p r w path = Tidy-if _ (Tidy-pure false) (
        Tidy-if _ (Tidy-pure true) (
          Tidy-bind (Tidy-quiet stable _ refl)
            (λ st. Tidy-if _ (Tidy-pure false) (write_to_file-Tidy _ _))))

    pub add_process-Tidy : (pid : ℤ) → Tidy U env I I (Cgroup.add_process c pid)
    unfolding Cgroup.add_process
    add_process-Tidy pid = Tidy-if _ (Tidy-pure false) (write_to_file-Tidy _ _)

    pub get_memory_peak-Tidy : Tidy U env I I (Cgroup.get_memory_peak c)
    unfolding Cgroup.get_memory_peak Cgroup.get_memory_current
    get_memory_peak-Tidy = Tidy-if _ (Tidy-pure 0) (
        Tidy-bind (read_from_file-Tidy _) (λ val. known_or-Tidy _ (
          Tidy-if _ (Tidy-pure 0)
            (Tidy-bind (read_from_file-Tidy _) (λ current. known_or-Tidy _ (Tidy-pure 0))))))

    pub destroy-Tidy : Tidy U env I I (Cgroup.destroy c)
    unfolding Cgroup.destroy
    destroy-Tidy = Tidy-if _ (Tidy-pure c) (
        kill_all-Tidy _
        ⨟ Tidy-quiet stable _ refl
        ⨟ kill_all-Tidy _
        ⨟ Tidy-quiet stable _ refl
        ⨟ Tidy-bind (Tidy-quiet stable _ refl) (λ removed.
          Tidy-when _ (
            Tidy-quiet stable _ refl
            ⨟ kill_all-Tidy _
            ⨟ Tidy-quiet stable _ refl
            ⨟ Tidy-quiet stable _ refl
            ⨟ Tidy-pure tt)
          ⨟ Tidy-pure _))
