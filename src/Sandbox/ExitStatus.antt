-- ===== src/Sandbox/ExitStatus.antt =====
-- The meaning of exit codes and of wait statuses.
pub mod Correct
use deep_oj.Common.{ℕ, ◌/◌, ◌%◌, Bool, not, ◌&&◌, List, [], ◌∷◌, ◌++◌, ◌==◌, if◌then◌else◌}
use deep_oj.Common.Bytes.{Bytes, text, print_ℕ}
use deep_oj.Types.{
  code, err_open_output, err_dup2, err_exec_failed, err_chdir_failed, err_setgid_failed,
  err_setuid_failed, err_rlimit_cpu, err_rlimit_memory, err_rlimit_stack, err_rlimit_nproc,
  err_rlimit_fsize, err_mount_private, err_mount_bind_self, err_mount_bind_lib, err_remount_ro,
  err_pivot_root, err_chdir_new_root, err_umount_old, err_mount_proc, err_mkdir_failed,
  err_sandbox_exception, err_mount_tmp,
}

-- A `switch` whose cases return a text.
unfoldable pub switch : ℕ → List (ℕ × Bytes) → Bytes → Bytes
switch n [] other = other
switch n ((c, t) ∷ cases) other = if n == c then t else switch n cases other

unfoldable pub get_exit_code_description : ℕ → Bytes
unfolding switch
get_exit_code_description n =
    switch n
      ((code err_open_output, text "无法打开输出文件 (IO Redirect)")
        ∷ (code err_dup2, text "dup2 调用失败 (IO Redirect)")
        ∷ (code err_exec_failed, text "execle 调用失败 (程序启动失败)")
        ∷ (code err_chdir_failed, text "chdir 切换工作目录失败")
        ∷ (code err_setgid_failed, text "setgid 失败 (降权失败)")
        ∷ (code err_setuid_failed, text "setuid 失败 (降权失败)")
        ∷ (code err_rlimit_cpu, text "setrlimit(CPU) 失败")
        ∷ (code err_rlimit_memory, text "setrlimit(AS) 失败")
        ∷ (code err_rlimit_stack, text "setrlimit(STACK) 失败")
        ∷ (code err_rlimit_nproc, text "setrlimit(NPROC) 失败")
        ∷ (code err_rlimit_fsize, text "setrlimit(FSIZE) 失败")
        ∷ (code err_mount_private, text "mount --make-rprivate 失败")
        ∷ (code err_mount_bind_self, text "bind mount 工作目录失败")
        ∷ (code err_mount_bind_lib, text "bind mount 系统库失败")
        ∷ (code err_remount_ro, text "remount 系统库 (RO) 失败")
        ∷ (code err_pivot_root, text "pivot_root 系统调用失败")
        ∷ (code err_chdir_new_root, text "切换到新根目录失败")
        ∷ (code err_umount_old, text "umount /old_root 失败")
        ∷ (code err_mount_proc, text "mount /proc 失败")
        ∷ (code err_mount_tmp, text "mount /tmp (tmpfs) 失败")
        ∷ (code err_mkdir_failed, text "mkdir (构建 Rootfs) 失败")
        ∷ (code err_sandbox_exception, text "沙箱内部异常 (C++ Throw)")
        ∷ [])
      (text "与系统相关的未知错误")

-- The cases of `ExitCodeToSandboxError`.
abbrev pub sandbox_error_cases : List (ℕ × Bytes)
sandbox_error_cases =
    (code err_open_output, text "io_open_output_failed")
    ∷ (code err_dup2, text "io_dup2_failed")
    ∷ (code err_exec_failed, text "execve_failed")
    ∷ (code err_chdir_failed, text "chdir_failed")
    ∷ (code err_setgid_failed, text "setgid_failed")
    ∷ (code err_setuid_failed, text "setuid_failed")
    ∷ (code err_rlimit_cpu, text "rlimit_cpu_failed")
    ∷ (code err_rlimit_memory, text "rlimit_memory_failed")
    ∷ (code err_rlimit_stack, text "rlimit_stack_failed")
    ∷ (code err_rlimit_nproc, text "rlimit_nproc_failed")
    ∷ (code err_rlimit_fsize, text "rlimit_fsize_failed")
    ∷ (code err_mount_private, text "mount_private_failed")
    ∷ (code err_mount_bind_self, text "mount_bind_self_failed")
    ∷ (code err_mount_bind_lib, text "mount_bind_lib_failed")
    ∷ (code err_remount_ro, text "remount_ro_failed")
    ∷ (code err_pivot_root, text "pivot_root_failed")
    ∷ (code err_chdir_new_root, text "chdir_new_root_failed")
    ∷ (code err_umount_old, text "umount_old_root_failed")
    ∷ (code err_mount_proc, text "mount_proc_failed")
    ∷ (code err_mount_tmp, text "mount_tmpfs_failed")
    ∷ (code err_mkdir_failed, text "mkdir_failed")
    ∷ (code err_sandbox_exception, text "sandbox_exception")
    ∷ []

unfoldable pub exit_code_to_sandbox_error : ℕ → Bytes
unfolding switch text print_ℕ
exit_code_to_sandbox_error n =
    switch n sandbox_error_cases (text "sandbox_child_exit_" ++ print_ℕ n)

-- WIFEXITED, WEXITSTATUS, WIFSIGNALED and WTERMSIG on the bit pattern of a wait status.
abbrev pub wifexited : ℕ → Bool
wifexited s = s % 128 == 0

abbrev pub wexitstatus : ℕ → ℕ
wexitstatus s = s / 256 % 256

abbrev pub wifsignaled : ℕ → Bool
wifsignaled s = not (s % 128 == 0) && not (s % 128 == 127)

abbrev pub wtermsig : ℕ → ℕ
wtermsig s = s % 128
