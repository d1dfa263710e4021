-- ===== src/Isolation/RootfsCorrect.antt =====
-- What has been done when a root file system is set up, and the codes of a child that failed to.
use deep_oj.Common.{
  ℕ, ◌≤◌, ◌⊎◌, Option, none, some, List, [], ◌∷◌, ◌++◌, arith, ◌==◌, is_empty, if◌then◌else◌,
  Bool-cases, inl, inr,
}
use deep_oj.Common.Bytes.{Bytes, text, strncpy, split_last, strip_prefix}
use deep_oj.Types.{SandboxExitCode, code, GlobalConfig}
use deep_oj.Platform.{Platform}
use deep_oj.Os.{
  Call, History, Environment, chdir, mount, pivot_root, umount_detach, ms_private, ms_rec, ms_bind,
  ms_rdonly, ms_remount,
}
use deep_oj.Os.Flow.{M, skip, failed}
use deep_oj.Os.Trace.{Does, Does-pure, Does-exit, Does-sys, Does-bind, ◌⨾◌, Does-when, Does-check}
use deep_oj.Isolation.SetupError.{exit_setup_error}
use deep_oj.Isolation.Rootfs.{
  failed_anew, must, must_mkdir, make_prefixes, below_base, ensure_parent_dir, mount_dir,
  mount_file, for_each, change_root, setup_rootfs,
}

-- The codes that a child can exit with before the judged program runs.
abbrev pub ChildCode : ℕ → Type 0
ChildCode c = ((101 ≤ c) × (c ≤ 103)) ⊎ ((120 ≤ c) × (c ≤ 200))

pub code-ChildCode : (e : SandboxExitCode) → (1 ≤ code e) → ChildCode (code e)
code-ChildCode e h = ground arith

module _ {env : Environment} {X : Bytes → List Bytes → History → Type 0} where
  exit_setup_error-Does :
      {cs ds : List Call} (p : Platform) (c errno : ℕ) (step work_dir src target : Bytes)
      → ChildCode c
      → Does env ChildCode X cs ds (exit_setup_error {A = Unit} p c errno step work_dir src target)
  unfolding exit_setup_error
  exit_setup_error-Does p c errno step work_dir src target e = Does-bind (Does-sys _) (λ uid.
      Does-bind (Does-sys _) (λ gid.
        Does-bind (Does-sys _)
          (λ euid. Does-bind (Does-sys _) (λ egid. Does-sys _ ⨾ Does-exit c e))))

  module _ (p : Platform) where
    must-Does :
        {cs : List Call} (c : Call) (n : SandboxExitCode) (step work_dir src target : Bytes)
        → ChildCode (code n)
        → Does env ChildCode X cs (c ∷ cs) (must p c n step work_dir src target)
    unfolding must
    must-Does c n step work_dir src target e =
        Does-check c failed (λ r x. x)
          (λ r. exit_setup_error-Does p (code n) r.errno step work_dir src target e)

    must_mkdir-Does :
        {cs : List Call} (dir step work_dir src : Bytes)
        → Does env ChildCode X cs cs (must_mkdir p dir step work_dir src)
    unfolding must_mkdir
    must_mkdir-Does dir step work_dir src = Does-bind (Does-sys _) (λ r.
        Does-when (failed_anew r)
          (exit_setup_error-Does p 198 r.errno step work_dir src dir (ground arith)))

    make_prefixes-Does :
        {cs : List Call} (base made rest : Bytes)
        → Does env ChildCode X cs cs (make_prefixes p base made rest)
    unfolding make_prefixes
    make_prefixes-Does base made [] = must_mkdir-Does made _ base []
    make_prefixes-Does base made (b ∷ rest) =
        Does-bind (Does-when (b == b'/') (must_mkdir-Does made _ base []))
          (λ _. make_prefixes-Does base (made ++ b ∷ []) rest)

    below_base-Does :
        {cs : List Call} (base : Bytes) (o : Option Bytes)
        → Does env ChildCode X cs cs (below_base p base o)
    unfolding below_base
    below_base-Does base none = Does-pure tt
    below_base-Does base (some []) = Does-pure tt
    below_base-Does base (some (b ∷ rest)) = make_prefixes-Does base (base ++ b ∷ []) rest

    ensure_parent_dir-Does :
        {cs : List Call} (path base : Bytes)
        → Does env ChildCode X cs cs (ensure_parent_dir p path base)
    unfolding ensure_parent_dir
    ensure_parent_dir-Does path base = go (split_last b'/' (strncpy 511 path))
      where
        go :
            {cs : List Call} (o : Option (Bytes × Bytes))
            → Does env ChildCode X cs cs (elim o [
              | none ↦ skip
              | some (parent, name) ↦
                  if is_empty base then skip else below_base p base (strip_prefix base parent)
            ])
        go none = Does-pure tt
        go (some (parent, name)) = elim (Bool-cases (is_empty base)) [
          | inl e ↦ rw e (Does-pure tt)
          | inr e ↦ rw e (below_base-Does base (strip_prefix base parent))
        ]

-- The mounts of one configured directory, or file, the last one first.
abbrev pub target_of : Bytes → Bytes → Bytes
target_of work_dir src = strncpy 511 (work_dir ++ src)

abbrev pub dir_mounts : Bytes → Bytes → List Call
dir_mounts work_dir src =
    mount (some src) (target_of work_dir src) none (ms_bind ∷ ms_rec ∷ ms_rdonly ∷ ms_remount ∷ [])
      none
    ∷ mount (some src) (target_of work_dir src) none (ms_bind ∷ ms_rec ∷ []) none
    ∷ []

abbrev pub file_mounts : Bytes → Bytes → List Call
file_mounts work_dir src =
    mount (some src) (target_of work_dir src) none (ms_bind ∷ ms_remount ∷ ms_rdonly ∷ []) none
    ∷ mount (some src) (target_of work_dir src) none (ms_bind ∷ []) none
    ∷ []

-- The calls of a loop on top of those before it.
abbrev pub each : (Bytes → List Call) → List Bytes → List Call → List Call
each steps [] before = before
each steps (x ∷ xs) before = each steps xs (steps x ++ before)

-- All that must have succeeded when the new root stands.
abbrev pub rootfs_steps : GlobalConfig → Bytes → List Call → List Call
rootfs_steps g work_dir before =
    umount_detach (text "/old_root")
    ∷ chdir (text "/")
    ∷ pivot_root work_dir (strncpy 511 (work_dir ++ text "/old_root"))
    ∷ each (file_mounts work_dir) g.mount_files (
        each (dir_mounts work_dir) g.mount_dirs (
          mount (some work_dir) work_dir none (ms_bind ∷ ms_rec ∷ []) none
          ∷ mount none (text "/") none (ms_private ∷ ms_rec ∷ []) none
          ∷ before))

module _ {env : Environment} {X : Bytes → List Bytes → History → Type 0} (p : Platform) where
  mount_dir-Does :
      {cs : List Call} (work_dir src : Bytes)
      → Does env ChildCode X cs (dir_mounts work_dir src ++ cs) (mount_dir p work_dir src)
  unfolding mount_dir
  mount_dir-Does work_dir src = Does-bind (Does-sys _) (λ there.
      Does-when _ (exit_setup_error-Does p _ _ _ _ _ _ (ground arith))
      ⨾ Does-when _ (exit_setup_error-Does p _ _ _ _ _ _ (ground arith))
      ⨾ ensure_parent_dir-Does p _ _
      ⨾ must_mkdir-Does p _ _ _ _
      ⨾ must-Does p _ _ _ _ _ _ (ground arith)
      ⨾ must-Does p _ _ _ _ _ _ (ground arith))

  mount_file-Does :
      {cs : List Call} (work_dir src : Bytes)
      → Does env ChildCode X cs (file_mounts work_dir src ++ cs) (mount_file p work_dir src)
  unfolding mount_file
  mount_file-Does work_dir src = Does-bind (Does-sys _) (λ there.
      Does-when _ (exit_setup_error-Does p _ _ _ _ _ _ (ground arith))
      ⨾ ensure_parent_dir-Does p _ _
      ⨾ Does-bind (Does-sys _) (λ fd.
        Does-when _ (Does-sys _ ⨾ Does-pure tt)
        ⨾ Does-when _ (exit_setup_error-Does p _ _ _ _ _ _ (ground arith))
        ⨾ must-Does p _ _ _ _ _ _ (ground arith)
        ⨾ must-Does p _ _ _ _ _ _ (ground arith)))

  for_each-Does :
      (steps : Bytes → List Call) (body : Bytes → M (Unit {0}))
      → ((cs : List Call) (x : Bytes) → Does env ChildCode X cs (steps x ++ cs) (body x))
      → (cs : List Call) (xs : List Bytes)
      → Does env ChildCode X cs (each steps xs cs) (for_each p body xs)
  unfolding for_each
  for_each-Does steps body d cs [] = Does-pure tt
  for_each-Does steps body d cs (x ∷ xs) =
      Does-bind (d cs x) (λ _. for_each-Does steps body d (steps x ++ cs) xs)

  pub setup_rootfs-Does :
      {cs : List Call} (g : GlobalConfig) (work_dir : Bytes)
      → Does env ChildCode X cs (rootfs_steps g work_dir cs) (setup_rootfs p g work_dir)
  unfolding setup_rootfs change_root
  setup_rootfs-Does g work_dir =
      must-Does p _ _ _ _ _ _ (ground arith)
      ⨾ must-Does p _ _ _ _ _ _ (ground arith)
      ⨾ for_each-Does (dir_mounts work_dir) _ (λ cs x. mount_dir-Does work_dir x) _ g.mount_dirs
      ⨾ for_each-Does (file_mounts work_dir) _ (λ cs x. mount_file-Does work_dir x) _ g.mount_files
      ⨾ must_mkdir-Does p _ _ _ _
      ⨾ must-Does p _ _ _ _ _ _ (ground arith)
      ⨾ must-Does p _ _ _ _ _ _ (ground arith)
      ⨾ must-Does p _ _ _ _ _ _ (ground arith)
      ⨾ Does-sys _
      ⨾ Does-pure tt
