-- ===== src/Sandbox/Workspace.antt =====
-- The constructor of `Sandbox`, `Sandbox::Cleanup` and `DirectoryGuard`: the directories of requests.
pub mod Correct
use deep_oj.Common.{Bool, not, ◌||◌, ◌++◌, is_empty, if◌then◌else◌}
use deep_oj.Common.Int.{pos, ltb_ℤ}
use deep_oj.Common.Bytes.{Bytes, text}
use deep_oj.Common.Paths.{join_path}
use deep_oj.Platform.{Platform}
use deep_oj.Os.{Environment, create_directories, exists, remove_all}
use deep_oj.Os.Flow.{
  Outcome, returns, exits, becomes, throws, unfinished, bind, M, ◌>>=◌, ◌>>◌, skip, sys, when,
  throw, failed,
}
use deep_oj.Sandbox.RequestId.{is_valid_request_id}

-- The constructor: the root of all requests is made.
unfoldable pub new_sandbox : Platform → Bytes → M (Unit {0})
new_sandbox p temp_dir = do
  made ← sys (create_directories temp_dir)
  when (failed made)
      (throw (text "Sandbox 初始化失败: 无法创建根临时目录 '" ++ temp_dir ++ text "': " ++ p.strerror made.errno))

unfoldable pub remove_directory : Bytes → M (Unit {0})
remove_directory path = do
  there ← sys (exists path)
  when (ltb_ℤ (pos 0) there.ret) (sys (remove_all path) >> skip)

-- `Sandbox::Cleanup`
unfoldable pub cleanup_request : Bytes → Bytes → M (Unit {0})
cleanup_request temp_dir request_id =
    if is_empty request_id || not (is_valid_request_id request_id)
    then skip
    else remove_directory (join_path temp_dir request_id)

-- `class DirectoryGuard`, and its destructor.
pub record DirectoryGuard : Type 0 where
  pub path : Bytes
  pub committed : Bool

abbrev pub destruct_directory : DirectoryGuard → M (Unit {0})
destruct_directory guard = if guard.committed then skip else remove_directory guard.path

-- Its scope, round a body that says whether it has committed. An exception leaves the body before
-- it could commit.
abbrev pub leave_directory : {A : Type 0} → Bytes → Outcome (A × Bool) → Environment → Outcome A
leave_directory path (returns (a, committed) h) env =
    bind (destruct_directory (record { path = path; committed = committed }) env h)
      (λ _ h'. returns a h')
leave_directory path (exits c h) env = exits c h
leave_directory path (becomes q a h) env = becomes q a h
leave_directory path (throws e raised h) env =
    bind (remove_directory path env h) (λ _ h'. throws e raised h')
leave_directory path (unfinished h) env = unfinished h

unfoldable pub directory_guarded : {A : Type 0} → Bytes → M (A × Bool) → M A
directory_guarded path body env h = leave_directory path (body env h) env
