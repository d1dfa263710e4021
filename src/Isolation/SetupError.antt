-- ===== src/Isolation/SetupError.antt =====
-- `ExitSetupError`: the report of a failed step of the root file system, and the exit.
use deep_oj.Common.{ℕ, [], ◌∷◌, ◌++◌, take}
use deep_oj.Common.Bytes.{Bytes, text, print_ℕ, print_ℤ}
use deep_oj.Platform.{Platform}
use deep_oj.Os.{getuid, getgid, geteuid, getegid, write_fd}
use deep_oj.Os.Flow.{M, ◌>>=◌, ◌>>◌, sys, exit}

-- A part of the report that is left out where its text is null or empty; both are [].
abbrev optional : Bytes → Bytes → Bytes
optional label [] = []
optional label (b ∷ s) = label ++ (b ∷ s)

-- The parts are printed one behind another into 1536 bytes, and a newline ends what fitted.
unfoldable pub exit_setup_error :
    {A : Type 0} → Platform → ℕ → ℕ → Bytes → Bytes → Bytes → Bytes → M A
unfolding text print_ℕ print_ℤ
exit_setup_error p exit_code errno step work_dir src_path target_path = do
  uid ← sys getuid
  gid ← sys getgid
  euid ← sys geteuid
  egid ← sys getegid
  let message =
      text "[sandbox][setup_rootfs] step="
      ++ step
      ++ text " code="
      ++ print_ℕ exit_code
      ++ text " errno="
      ++ print_ℕ errno
      ++ text "("
      ++ p.strerror errno
      ++ text ") uid="
      ++ print_ℤ uid.ret
      ++ text " gid="
      ++ print_ℤ gid.ret
      ++ text " euid="
      ++ print_ℤ euid.ret
      ++ text " egid="
      ++ print_ℤ egid.ret
      ++ text " work_dir="
      ++ work_dir
      ++ optional (text " src=") src_path
      ++ optional (text " target=") target_path
  sys (write_fd 2 (take 1535 message ++ b'\n' ∷ []))
  exit exit_code
