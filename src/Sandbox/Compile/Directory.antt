-- ===== src/Sandbox/Compile/Directory.antt =====
-- What becomes of the directory of a request in `Sandbox::Compile`.
use deep_oj.Common.{
  ℕ, ◌≡◌, ◌⊎◌, refl, Bool, true, false, [], ◌∷◌, ◌++◌, arith, ◌==◌, inl, inr, if◌then◌else◌, not,
}
use deep_oj.Common.Int.{ℤ, negsuc, eqb_ℤ}
use deep_oj.Common.Bytes.{Bytes, text, print_ℕ}
use deep_oj.Types.{GlobalConfig, CompileResult, new_compile_result}
use deep_oj.Platform.{Platform}
use deep_oj.Os.{
  Call, Reply, History, Environment, clone_compile, create_directories, write_file, chown,
  owner_only, read_file, clock_ms,
}
use deep_oj.Os.Flow.{
  Outcome, returns, exits, becomes, throws, unfinished, bind, ◌>>=◌, pure, sys, failed, nonzero,
}
use deep_oj.Os.Tidy.{Leaves, Tidy}
use deep_oj.Sandbox.Guard.{ProcessGuard, new_guard, guarded, wait_loop}
use deep_oj.Sandbox.Quiet.{is_wait}
use deep_oj.Sandbox.ExitStatus.{wifexited, wexitstatus, wifsignaled, wtermsig}
use deep_oj.Sandbox.Watch.{format_system_error}
use deep_oj.Sandbox.RequestId.{is_valid_request_id}
use deep_oj.Sandbox.Workspace.{leave_directory, directory_guarded}
use deep_oj.Common.Paths.{join_path}
use deep_oj.Sandbox.Compile
use deep_oj.Sandbox.Compile.{Compiled, compiler_ended, compiler_lost, request_dir, exe_file}
use deep_oj.Sandbox.Compile.Guards.{
  Swept, compilers, Gives, Any, Decided, Fresh, Sorted, Gives-bind, leave_directory-Gives,
  leave_guard-Gives,
}

-- Either no compiler was started, or the directory is in order.
abbrev Orderly : Bytes → CompileResult → History → Type 0
Orderly dir v h = Sorted dir v h ⊎ (Fresh v × (compilers h ≡ 0))

module _ (U : Type 0) (env : Environment) (fuel : ℕ)
    (waits : (c : Call) → is_wait c ≡ true → Tidy U env Any Any (wait_loop fuel c)) where
  module _ (p : Platform) (g : GlobalConfig) (dir : Bytes) (result : CompileResult)
      (fresh : Fresh result) where
    judge_compile-Gives :
        (c : Compiled) (h : History)
        → Gives U Any (λ v h. Decided dir v) (Compile.judge_compile dir result c env h)
    unfolding Compile.judge_compile ◌>>=◌ sys
    judge_compile-Gives (compiler_lost message) h = inr (refl, fresh.0, fresh.1)
    judge_compile-Gives (compiler_ended status) h =
        by_exit (wifexited status) (wexitstatus status == 0) (wifsignaled status)
      where
        by_exit :
            (b ok signalled : Bool)
            → Gives U Any
                (λ v h. Decided dir v)
                ((if b
                    then (if ok
                        then pure (record result { success = true; exe_path = exe_file dir }, true)
                        else do
                          log ← sys (read_file (Compile.log_file dir))
                          pure (
                            Compile.failing result (
                                Compile.compile_failure
                                  (wexitstatus status)
                                  (if failed log then [] else log.bytes)),
                            false,
                          ))
                    else if signalled
                    then pure (
                      Compile.failing result
                          (text "编译器异常终止 (Signal: " ++ print_ℕ (wtermsig status) ++ text ")"),
                      false,
                    )
                    else pure (Compile.failing result (text "编译器因未知原因结束"), false))
                  env h)
        by_exit true true signalled = inl (refl, refl, refl)
        by_exit true false signalled = inr (refl, fresh.0, fresh.1)
        by_exit false ok true = inr (refl, fresh.0, fresh.1)
        by_exit false ok false = inr (refl, fresh.0, fresh.1)

    -- The loop of the compilation, with what is said of a run without fuel.
    module _
        (loop : (pid : ℤ) (h : History)
          → Leaves U Any (
              Compile.watch_compiler p g fuel
                (env h clock_ms).ret
                fuel
                (new_guard pid)
                0
                env
                ((clock_ms, env h clock_ms) ∷ h))) where
      supervise_compiler-Gives :
          (pid : ℤ) (h : History)
          → Gives {A = (CompileResult × Bool) × ProcessGuard} U Any
              (λ v h. Decided dir v.0)
              (Compile.supervise_compiler p g fuel dir result pid env h)
      unfolding Compile.supervise_compiler ◌>>=◌ sys
      supervise_compiler-Gives pid h =
          Gives-bind U {B = (CompileResult × Bool) × ProcessGuard} Any (λ v h. Decided dir v.0)
            (Compile.watch_compiler p g fuel (env h clock_ms).ret fuel (new_guard pid) 0 env
              ((clock_ms, env h clock_ms) ∷ h))
            _ (loop pid h)
            (λ w h'.
              keep_guard w.1 (Compile.judge_compile dir result w.0 env h')
                (judge_compile-Gives w.0 h'))
        where
          keep_guard :
              (guard : ProcessGuard) (o : Outcome (CompileResult × Bool))
              → Gives U Any (λ v h. Decided dir v) o
              → Gives {A = (CompileResult × Bool) × ProcessGuard} U Any
                  (λ v h. Decided dir v.0)
                  (bind o (λ v h. returns (v, guard) h))
          keep_guard guard (returns v h) d = d
          keep_guard guard (exits c h) d = d
          keep_guard guard (becomes path argv h) d = d
          keep_guard guard (throws e raised h) d = d
          keep_guard guard (unfinished h) d = d

      run_compiler-Gives :
          (h : History)
          → Gives U Any (λ v h. Decided dir v) (Compile.run_compiler p g fuel dir result env h)
      unfolding Compile.run_compiler ◌>>=◌ sys guarded
      run_compiler-Gives h = by_pid (eqb_ℤ r.ret (negsuc 0))
        where
          r : Reply
          r = env h (clone_compile (Compile.compile_args dir))

          h' : History
          h' = (clone_compile (Compile.compile_args dir), r) ∷ h

          by_pid :
              (b : Bool)
              → Gives U Any
                  (λ v h. Decided dir v)
                  ((if b
                      then pure (
                        Compile.failing result
                            (format_system_error p (text "系统调用 clone (compile) 失败") r.errno),
                        false,
                      )
                      else guarded fuel r.ret
                          (Compile.supervise_compiler p g fuel dir result r.ret))
                    env h')
          by_pid true = inr (refl, fresh.0, fresh.1)
          by_pid false =
              leave_guard-Gives U env fuel waits (λ v. Decided dir v) (new_guard r.ret) _
                (supervise_compiler-Gives r.ret h')

      Gives-inl :
          (o : Outcome (CompileResult × Bool))
          → Gives U Any (λ v h. Decided dir v) o
          → Gives U (Swept dir) (Orderly dir) (leave_directory dir o env)
      Gives-inl o d = widen (leave_directory dir o env) (leave_directory-Gives U dir env o d)
        where
          widen :
              (o : Outcome CompileResult)
              → Gives U (Swept dir) (Sorted dir) o
              → Gives U (Swept dir) (Orderly dir) o
          widen (returns v h) d = inl d
          widen (exits c h) d = d
          widen (becomes path argv h) d = d
          widen (throws e raised h) d = d
          widen (unfinished h) d = d

      -- Either no compiler was started, or the directory is in order.
      compile_in-Gives :
          (h : History)
          → compilers h ≡ 0
          → Gives U (Swept dir) (Orderly dir) (Compile.compile_in p g fuel dir result env h)
      unfolding Compile.compile_in ◌>>=◌ sys directory_guarded
      compile_in-Gives h none = by_owner (nonzero owned)
        where
          owned : Reply
          owned = env h (chown dir g.run_uid g.run_gid)

          h1 : History
          h1 = (chown dir g.run_uid g.run_gid, owned) ∷ h

          restricted : Reply
          restricted = env h1 (owner_only dir)

          h2 : History
          h2 = (owner_only dir, restricted) ∷ h1

          by_mode :
              (b : Bool)
              → Gives U (Swept dir) (Orderly dir) (
                  (if b
                      then pure (
                          Compile.failing result (text "无法设置目录权限: " ++ p.strerror restricted.errno))
                      else directory_guarded dir (Compile.run_compiler p g fuel dir result))
                    env h2)
          by_mode true = inr (fresh, none)
          by_mode false =
              Gives-inl (Compile.run_compiler p g fuel dir result env h2) (run_compiler-Gives h2)

          by_owner :
              (b : Bool)
              → Gives U (Swept dir) (Orderly dir) (
                  (if b
                      then pure (
                          Compile.failing result
                            (format_system_error p (text "无法修改目录所有者") owned.errno))
                      else (do
                        r ← sys (owner_only dir)
                        if failed r
                            then pure
                                (Compile.failing result (text "无法设置目录权限: " ++ p.strerror r.errno))
                            else directory_guarded dir (Compile.run_compiler p g fuel dir result)))
                    env h1)
          by_owner true = inr (fresh, none)
          by_owner false = by_mode (failed restricted)

-- What a compilation gives: a success with the program in the directory of a valid request, or a
-- failure, after which the directory has been swept or no compiler was started.
abbrev pub Settled : Bytes → Bytes → CompileResult → History → Type 0
Settled temp_dir request_id v h =
    ((v.success ≡ true)
      × (v.exe_path ≡ exe_file (request_dir temp_dir request_id))
      × (is_valid_request_id request_id ≡ true))
    ⊎ ((v.success ≡ false)
        × (v.exe_path ≡ [])
        × (Swept (request_dir temp_dir request_id) h ⊎ (compilers h ≡ 0)))

module _ (U : Type 0) (env : Environment) (fuel : ℕ)
    (waits : (c : Call) → is_wait c ≡ true → Tidy U env Any Any (wait_loop fuel c)) (p : Platform)
    (g : GlobalConfig)
    (loop : (pid : ℤ) (h : History)
      → Leaves U Any (
          Compile.watch_compiler p g fuel
            (env h clock_ms).ret
            fuel
            (new_guard pid)
            0
            env
            ((clock_ms, env h clock_ms) ∷ h))) where
  made_result-Fresh : (dir : Bytes) (made : Reply) → Fresh (Compile.made_result p dir made)
  unfolding Compile.made_result
  made_result-Fresh dir made = ground arith

  compile_request-Gives :
      (dir source_code : Bytes)
      → Gives U (Swept dir) (Orderly dir) (Compile.compile_request p g fuel dir source_code env [])
  unfolding Compile.compile_request ◌>>=◌ sys
  compile_request-Gives dir source_code = by_write (failed written) (nonzero written)
    where
      file : Bytes
      file = join_path dir (text "main.cpp")

      made : Reply
      made = env [] (create_directories dir)

      result : CompileResult
      result = Compile.made_result p dir made

      fresh : Fresh result
      fresh = made_result-Fresh dir made

      written : Reply
      written = env ((create_directories dir, made) ∷ []) (write_file file source_code)

      h : History
      h = (write_file file source_code, written) ∷ (create_directories dir, made) ∷ []

      by_write :
          (b c : Bool)
          → Gives U (Swept dir) (Orderly dir) (
              (if b
                  then pure (Compile.failing result (text "无法打开文件进行写入: " ++ file))
                  else if c
                  then pure (Compile.failing result (text "写入源代码时发生 I/O 错误"))
                  else Compile.compile_in p g fuel dir result)
                env h)
      by_write true c = inr (fresh, refl)
      by_write false true = inr (fresh, refl)
      by_write false false = compile_in-Gives U env fuel waits p g dir result fresh loop h refl

  pub compile-Gives :
      (temp_dir request_id source_code : Bytes)
      → Gives U
          (Swept (request_dir temp_dir request_id))
          (Settled temp_dir request_id)
          (Compile.compile p g fuel temp_dir request_id source_code env [])
  unfolding Compile.compile
  compile-Gives temp_dir request_id source_code = by_id (is_valid_request_id request_id) refl
    where
      dir : Bytes
      dir = request_dir temp_dir request_id

      settle :
          (o : Outcome CompileResult)
          → is_valid_request_id request_id ≡ true
          → Gives U (Swept dir) (Orderly dir) o
          → Gives U (Swept dir) (Settled temp_dir request_id) o
      settle (returns v h) e (inl (inl s)) = inl (s.0, s.1, e)
      settle (returns v h) e (inl (inr s)) = inr (s.0, s.1, inl s.2)
      settle (returns v h) e (inr s) = inr (s.0.0, s.0.1, inr s.1)
      settle (exits c h) e g = g
      settle (becomes path argv h) e g = g
      settle (throws m raised h) e g = g
      settle (unfinished h) e g = g

      by_id :
          (b : Bool)
          → is_valid_request_id request_id ≡ b
          → Gives U (Swept dir) (Settled temp_dir request_id) (
              (if not b
                  then pure
                      (Compile.failing new_compile_result (text "安全违规: 请求 ID 包含非法字符 (潜在路径遍历攻击)"))
                  else Compile.compile_request p g fuel dir source_code)
                env [])
      by_id true e =
          settle (Compile.compile_request p g fuel dir source_code env []) e
            (compile_request-Gives dir source_code)
      by_id false e = inr (refl, refl, inr refl)
