-- ===== src/Cgroup.antt =====
-- `class CgroupManager` (cgroup_manager.cpp): the cgroup of one run. Log lines are left out.
pub mod Files
pub mod Contents
pub mod Controllers
pub mod Kill
pub mod Quiet
pub mod Numbers
use deep_oj.Common.{
  ℕ, suc, ◌+◌, ◌*◌, Bool, true, false, not, ◌&&◌, Option, none, some, List, [], ◌∷◌, ◌++◌, ltb,
  ◌==◌, is_empty, if◌then◌else◌,
}
use deep_oj.Common.Int.{ℤ, pos, ltb_ℤ, leb_ℤ, eqb_ℤ}
use deep_oj.Common.Bytes.{Bytes, text, print_ℕ, print_ℤ, contains_text, split_last}
use deep_oj.Common.Numbers.{stoull}
use deep_oj.Common.Paths.{parent_path}
use deep_oj.Types.{Double}
use deep_oj.Platform.{Platform}
use deep_oj.Os.{Call, exists, create_directories, remove, statfs_magic, stat_device, sleep_ms}
use deep_oj.Os.Flow.{M, ◌>>=◌, ◌>>◌, pure, skip, sys, when, throw, failed, nonzero}
use Files.{write_to_file, read_from_file}
use Kill.{kill_all}

pub record CgroupManager : Type 0 where
  pub cgroup_root : Bytes
  pub job_id : Bytes
  pub cgroup_path : Bytes
  pub created : Bool

unfoldable pub new_cgroup : Bytes → Bytes → CgroupManager
unfolding text
new_cgroup root job_id = record {
  cgroup_root = root;
  job_id = job_id;
  cgroup_path = root ++ (text "/" ++ job_id);
  created = false;
}

abbrev pub get_path : CgroupManager → Bytes
get_path c = c.cgroup_path

abbrev pub is_created : CgroupManager → Bool
is_created c = c.created

-- CGROUP2_SUPER_MAGIC
abbrev pub cgroup2_magic : ℕ
cgroup2_magic = 0x63677270

abbrev is_magic : Option ℕ → Bool
is_magic none = false
is_magic (some n) = n == cgroup2_magic

-- The loop over the candidates of `GetCgroup2MountRoot`; `fs::exists` throws where it cannot tell.
unfoldable pub find_mount_root : List Bytes → M Bytes
find_mount_root [] = pure []
find_mount_root (root ∷ roots) = do
  stat ← sys (statfs_magic root)
  if nonzero stat
      then find_mount_root roots
      else if not (is_magic stat.out)
      then find_mount_root roots
      else do
        controllers ← sys (exists (root ++ text "/cgroup.controllers"))
        if ltb_ℤ controllers.ret (pos 0)
            then throw (text "filesystem_error")
            else if eqb_ℤ controllers.ret (pos 0)
            then find_mount_root roots
            else pure root

unfoldable pub get_cgroup2_mount_root : M Bytes
get_cgroup2_mount_root =
    find_mount_root (text "/sys/fs/cgroup/unified" ∷ text "/sys/fs/cgroup" ∷ [])

unfoldable pub is_supported : M Bool
is_supported = do root ← get_cgroup2_mount_root; pure (not (is_empty root))

-- `buildControllerEnableList`: a controller is wanted where its name is found anywhere in the text.
unfoldable pub enable_list : List Bytes → Bytes → Bytes → Bytes
enable_list [] raw out = out
enable_list (controller ∷ wanted) raw out = enable_list wanted raw (
    if contains_text controller raw
    then (if is_empty out then out else out ++ text " ") ++ (text "+" ++ controller)
    else out)

unfoldable pub build_controller_enable_list : Bytes → Bytes
unfolding enable_list
build_controller_enable_list raw =
    enable_list (text "memory" ∷ text "pids" ∷ text "cpu" ∷ text "io" ∷ []) raw []

-- Steps 2 to 4 of `EnsureParentReady`.
unfoldable pub enable_controllers : CgroupManager → M Bool
enable_controllers c = do
  let parent = parent_path c.cgroup_root
  parent_controllers ← read_from_file (parent ++ text "/cgroup.controllers")
  let enable_parent = build_controller_enable_list parent_controllers
  when (not (is_empty enable_parent))
      (write_to_file (parent ++ text "/cgroup.subtree_control") enable_parent >> skip)
  our_controllers ← read_from_file (c.cgroup_root ++ text "/cgroup.controllers")
  let enable_our = build_controller_enable_list our_controllers
  if is_empty enable_our
      then pure false
      else write_to_file (c.cgroup_root ++ text "/cgroup.subtree_control") enable_our

-- `create_directories` gives 1 where it made the directory, 0 where it was there, -1 on an error.
unfoldable pub ensure_parent_ready : CgroupManager → M Bool
ensure_parent_ready c = do
  there ← sys (exists c.cgroup_root)
  if ltb_ℤ (pos 0) there.ret then enable_controllers c else do
    made ← sys (create_directories c.cgroup_root)
    if ltb_ℤ (pos 0) made.ret then enable_controllers c else pure false

unfoldable pub create : CgroupManager → M (Bool × CgroupManager)
create c = if c.created then pure (true, c) else do
  ready ← ensure_parent_ready c
  if not ready then pure (false, c) else do
    made ← sys (create_directories c.cgroup_path)
    if failed made then pure (false, c) else pure (true, record c { created = true })

-- A limit is written into a file of the cgroup, once that is there.
unfoldable pub set_memory_limit : CgroupManager → ℕ → Bool → M Bool
set_memory_limit c bytes disable_swap = if not c.created then pure false else do
  done ← write_to_file (c.cgroup_path ++ text "/memory.max") (print_ℕ bytes)
  if not done then pure false else do
    when disable_swap (write_to_file (c.cgroup_path ++ text "/memory.swap.max") (text "0") >> skip)
    pure true

unfoldable pub set_pids_limit : CgroupManager → ℤ → M Bool
set_pids_limit c max_pids =
    if not c.created
    then pure false
    else write_to_file (c.cgroup_path ++ text "/pids.max") (print_ℤ max_pids)

-- The quota in a period of 100000 us: 1000 us at least.
unfoldable pub cpu_quota : Platform → Double → ℤ
cpu_quota p max_cores =
    let quota = p.llround (p.mul max_cores (p.of_int (pos 100000))) in
    if ltb_ℤ quota (pos 1000) then pos 1000 else quota

unfoldable pub set_cpu_limit : Platform → CgroupManager → Double → M Bool
set_cpu_limit p c max_cores =
    if not c.created
    then pure false
    else if p.le max_cores (p.of_int (pos 0))
    then pure false
    else write_to_file (c.cgroup_path ++ text "/cpu.max")
        (print_ℤ (cpu_quota p max_cores) ++ (text " " ++ print_ℕ 100000))

abbrev pub device_of : Option ℕ → ℕ
device_of none = 0
device_of (some n) = n

-- The line of io.max for the device with the given number.
abbrev pub io_limits : Platform → ℤ → ℤ → ℕ → Bytes
io_limits p read_bps write_bps device =
    print_ℕ (p.dev_major device)
    ++ (text ":"
        ++ (print_ℕ (p.dev_minor device)
            ++ ((if ltb_ℤ (pos 0) read_bps then text " rbps=" ++ print_ℤ read_bps else [])
                ++ (if ltb_ℤ (pos 0) write_bps then text " wbps=" ++ print_ℤ write_bps else []))))

unfoldable pub set_io_limit : Platform → CgroupManager → ℤ → ℤ → Bytes → M Bool
set_io_limit p c read_bps write_bps target_path =
    if not c.created
    then pure false
    else if leb_ℤ read_bps (pos 0) && leb_ℤ write_bps (pos 0)
    then pure true
    else do
      st ← sys (stat_device target_path)
      if nonzero st
          then pure false
          else write_to_file (c.cgroup_path ++ text "/io.max")
              (io_limits p read_bps write_bps (device_of st.out))

unfoldable pub add_process : CgroupManager → ℤ → M Bool
add_process c pid =
    if not c.created
    then pure false
    else write_to_file (c.cgroup_path ++ text "/cgroup.procs") (print_ℤ pid)

-- A number read from a file of statistics.
abbrev pub stat_value : Bytes → Option ℕ
stat_value val = if is_empty val then none else stoull val

-- That number, or else the result of what is tried next.
abbrev pub known_or : Option ℕ → M ℕ → M ℕ
known_or none other = other
known_or (some n) other = pure n

unfoldable pub get_memory_current : CgroupManager → M ℕ
get_memory_current c = if not c.created then pure 0 else do
  val ← read_from_file (c.cgroup_path ++ text "/memory.current")
  known_or (stat_value val) (pure 0)

unfoldable pub get_memory_peak : CgroupManager → M ℕ
get_memory_peak c = if not c.created then pure 0 else do
  val ← read_from_file (c.cgroup_path ++ text "/memory.peak")
  known_or (stat_value val) (get_memory_current c)

-- The processes are killed twice, and a third time if the directory cannot be removed.
unfoldable pub destroy : CgroupManager → M CgroupManager
destroy c = if not c.created then pure c else do
  kill_all c.cgroup_path
  sys (sleep_ms 50)
  kill_all c.cgroup_path
  sys (sleep_ms 10)
  removed ← sys (remove c.cgroup_path)
  when (leb_ℤ removed.ret (pos 0)) (do
    sys (sleep_ms 100)
    kill_all c.cgroup_path
    sys (sleep_ms 50)
    sys (remove c.cgroup_path)
    skip)
  pure (record c { created = false })
