-- ===== src/Isolation/Rootfs.antt =====
-- `EnsureParentDir` and `SetupRootfs`: the new root of a child.
use deep_oj.Common.{
  Bool, not, ◌&&◌, Option, none, some, List, [], ◌∷◌, ◌++◌, leb, ◌==◌, length, is_empty,
  if◌then◌else◌,
}
use deep_oj.Common.Bytes.{Bytes, text, strncpy, split_last, strip_prefix}
use deep_oj.Types.{
  SandboxExitCode, code, err_mount_private, err_mount_bind_self, err_mount_bind_lib, err_remount_ro,
  err_pivot_root, err_chdir_new_root, err_umount_old, err_mkdir_failed, GlobalConfig,
}
use deep_oj.Platform.{Platform}
use deep_oj.Os.{
  Call, Reply, open_file, close, access_file, mkdir, rmdir, chdir, mount, pivot_root, umount_detach,
  o_creat, o_rdwr, ms_private, ms_rec, ms_bind, ms_rdonly, ms_remount, eexist, enametoolong,
}
use deep_oj.Os.Flow.{M, ◌>>=◌, ◌>>◌, skip, sys, when, failed, nonzero}
use deep_oj.Isolation.SetupError.{exit_setup_error}

-- A failure that is not EEXIST.
abbrev pub failed_anew : Reply → Bool
failed_anew r = failed r && not (r.errno == eexist)

module _ (p : Platform) where
  -- A call that must succeed: on -1 the step is reported and the child exits.
  unfoldable pub must : Call → SandboxExitCode → Bytes → Bytes → Bytes → Bytes → M (Unit {0})
  must c exit_code step work_dir src target = do
    r ← sys c
    when (failed r) (exit_setup_error p (code exit_code) r.errno step work_dir src target)

  -- The same of a `mkdir` that may find the directory there.
  unfoldable pub must_mkdir : Bytes → Bytes → Bytes → Bytes → M (Unit {0})
  must_mkdir dir step work_dir src = do
    r ← sys (mkdir dir 0o755)
    when (failed_anew r) (exit_setup_error p (code err_mkdir_failed) r.errno step work_dir src dir)

  -- The loop of `EnsureParentDir`: a directory for each prefix that ends before a `/` or at the end.
  unfoldable pub make_prefixes : Bytes → Bytes → Bytes → M (Unit {0})
  unfolding text
  make_prefixes base done [] = must_mkdir done (text "mkdir_parent") base []
  make_prefixes base done (b ∷ rest) = do
    when (b == b'/') (must_mkdir done (text "mkdir_parent") base [])
    make_prefixes base (done ++ b ∷ []) rest

  unfoldable pub below_base : Bytes → Option Bytes → M (Unit {0})
  unfolding make_prefixes
  below_base base none = skip
  below_base base (some []) = skip
  below_base base (some (b ∷ rest)) = make_prefixes base (base ++ b ∷ []) rest

  unfoldable pub ensure_parent_dir : Bytes → Bytes → M (Unit {0})
  unfolding below_base
  ensure_parent_dir path base = elim (split_last b'/' (strncpy 511 path)) [
    | none ↦ skip
    | some (parent, name) ↦
        if is_empty base then skip else below_base base (strip_prefix base parent)
  ]

  -- One round of the loop over `mount_dirs`.
  unfoldable pub mount_dir : Bytes → Bytes → M (Unit {0})
  unfolding ensure_parent_dir text
  mount_dir work_dir src = do
    there ← sys (access_file src)
    when (nonzero there) (
        exit_setup_error p (code err_mount_bind_lib) there.errno (text "mount_dir_not_found")
          work_dir src [])
    let target = strncpy 511 (work_dir ++ src)
    when (leb 512 (length (work_dir ++ src))) (
        exit_setup_error p (code err_mkdir_failed) enametoolong (text "mount_dir_target_too_long")
          work_dir src target)
    ensure_parent_dir target work_dir
    must_mkdir target (text "mkdir_mount_dir") work_dir src
    must (mount (some src) target none (ms_bind ∷ ms_rec ∷ []) none) err_mount_bind_lib
        (text "mount_bind_dir") work_dir src target
    must (mount (some src) target none (ms_bind ∷ ms_rec ∷ ms_rdonly ∷ ms_remount ∷ []) none)
        err_remount_ro (text "mount_remount_dir_ro") work_dir src target

  -- One round of the loop over `mount_files`.
  unfoldable pub mount_file : Bytes → Bytes → M (Unit {0})
  unfolding ensure_parent_dir text
  mount_file work_dir src = do
    there ← sys (access_file src)
    when (nonzero there) (
        exit_setup_error p (code err_mount_bind_lib) there.errno (text "mount_file_not_found")
          work_dir src [])
    let target = strncpy 511 (work_dir ++ src)
    ensure_parent_dir target work_dir
    fd ← sys (open_file target (o_creat ∷ o_rdwr ∷ []) 0o666)
    when (not (failed fd)) (sys (close fd.ret) >> skip)
    when (failed_anew fd) (
        exit_setup_error p (code err_mkdir_failed) fd.errno (text "touch_mount_file_target")
          work_dir src target)
    must (mount (some src) target none (ms_bind ∷ []) none) err_mount_bind_lib
        (text "mount_bind_file") work_dir src target
    must (mount (some src) target none (ms_bind ∷ ms_remount ∷ ms_rdonly ∷ []) none) err_remount_ro
        (text "mount_remount_file_ro") work_dir src target

  -- A loop over the configured paths.
  unfoldable pub for_each : (Bytes → M (Unit {0})) → List Bytes → M (Unit {0})
  for_each body [] = skip
  for_each body (x ∷ xs) = do body x; for_each body xs

  -- The end of `SetupRootfs`: from the old root to the new one.
  unfoldable pub change_root : Bytes → M (Unit {0})
  unfolding text
  change_root work_dir = do
    let old_root = strncpy 511 (work_dir ++ text "/old_root")
    must_mkdir old_root (text "mkdir_old_root") work_dir []
    must (pivot_root work_dir old_root) err_pivot_root (text "pivot_root") work_dir work_dir
        old_root
    must (chdir (text "/")) err_chdir_new_root (text "chdir_new_root") work_dir (text "/")
        (text "/")
    must (umount_detach (text "/old_root")) err_umount_old (text "umount_old_root") work_dir
        (text "/old_root") []
    sys (rmdir (text "old_root"))
    skip

  unfoldable pub setup_rootfs : GlobalConfig → Bytes → M (Unit {0})
  setup_rootfs g work_dir = do
    must (mount none (text "/") none (ms_private ∷ ms_rec ∷ []) none) err_mount_private
        (text "mount_private_root") work_dir (text "/") (text "/")
    must (mount (some work_dir) work_dir none (ms_bind ∷ ms_rec ∷ []) none) err_mount_bind_self
        (text "mount_bind_self") work_dir work_dir work_dir
    for_each (mount_dir work_dir) g.mount_dirs
    for_each (mount_file work_dir) g.mount_files
    change_root work_dir
