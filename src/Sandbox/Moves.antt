-- ===== src/Sandbox/Moves.antt =====
-- The move constructors and the move assignments of ProcessGuard, DirectoryGuard and CgroupManager.
use deep_oj.Common.{ℕ, true, false, ◌≡◌, refl, ◌==◌}
use deep_oj.Common.Int.{negsuc}
use deep_oj.Common.Bytes.{Bytes}
use deep_oj.Os.{History, Environment}
use deep_oj.Os.Flow.{M, ◌>>◌, skip, when}
use deep_oj.Os.Owner.{Owner, Store, Moves, Assigns, move_to-destruct, assign-destruct}
use deep_oj.Sandbox.Guard.{ProcessGuard, cleanup}
use deep_oj.Sandbox.Workspace.{DirectoryGuard, destruct_directory}
use deep_oj.Cgroup.{CgroupManager, destroy}

-- `ProcessGuard`: no child, and released.
abbrev pub empty_guard : ProcessGuard → ProcessGuard
empty_guard guard = record { pid = negsuc 0; released = true }

abbrev pub process_owner : ℕ → Owner ProcessGuard
unfolding cleanup
process_owner fuel = record {
  destruct = cleanup fuel;
  emptied = empty_guard;
  idle = λ guard env h. refl;
}

-- What the move of a string leaves of it is not specified, so `rest` may be anything.
module _ (rest : Bytes → Bytes) where
  -- `DirectoryGuard`, whose move assignment is deleted.
  abbrev pub empty_directory : DirectoryGuard → DirectoryGuard
  empty_directory guard = record { path = rest guard.path; committed = true }

  abbrev pub directory_owner : Owner DirectoryGuard
  directory_owner = record {
    destruct = destruct_directory;
    emptied = empty_directory;
    idle = λ guard env h. refl;
  }

  abbrev pub empty_manager : CgroupManager → CgroupManager
  empty_manager c = record {
    cgroup_root = rest c.cgroup_root;
    job_id = rest c.job_id;
    cgroup_path = rest c.cgroup_path;
    created = false;
  }

  -- `~CgroupManager`
  abbrev pub close_manager : CgroupManager → M (Unit {0})
  close_manager c = when c.created (destroy c >> skip)

  abbrev pub manager_owner : Owner CgroupManager
  manager_owner = record {
    destruct = close_manager;
    emptied = empty_manager;
    idle = λ c env h. refl;
  }

-- Between two different objects: behind a move constructor, the two destructors do just the calls that
-- the destructor of the first object would have done; behind a move assignment, the two destructors
-- and the assignment do those of both destructors before it, in their order. So a child is reaped
-- once, a directory removed once and a cgroup destroyed once, whatever is left of moved strings.
pub owned_once :
    (fuel : ℕ) (rest : Bytes → Bytes) (i j : ℕ) (guards : Store ProcessGuard)
    (directories : Store DirectoryGuard) (managers : Store CgroupManager) (env : Environment)
    (h : History)
    → (i == j) ≡ false
    → Moves (process_owner fuel) i j guards env h
      × Moves (directory_owner rest) i j directories env h
      × Moves (manager_owner rest) i j managers env h
      × Assigns (process_owner fuel) i j guards env h
      × Assigns (manager_owner rest) i j managers env h
owned_once fuel rest i j guards directories managers env h differ = (
  move_to-destruct (process_owner fuel) i j guards differ env h,
  move_to-destruct (directory_owner rest) i j directories differ env h,
  move_to-destruct (manager_owner rest) i j managers differ env h,
  assign-destruct (process_owner fuel) i j guards differ env h,
  assign-destruct (manager_owner rest) i j managers differ env h,
)
