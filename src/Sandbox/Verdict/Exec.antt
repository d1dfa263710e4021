-- ===== src/Sandbox/Verdict/Exec.antt =====
-- A failed exec of the child, from its message to the verdict of the parent.
use deep_oj.Common.{ℕ, ◌*◌, ◌≤◌, ◌≡◌, refl, true, false, List, ◌∷◌, ◌++◌, length, is_empty, ap, ◌∙◌}
use deep_oj.Common.Int.{ℤ, pos}
use deep_oj.Common.Bytes.{Bytes, text}
use deep_oj.Common.Bytes.Lines.{one_line}
use deep_oj.Types.{RunResult, system_error, code, err_exec_failed}
use deep_oj.Platform.{Platform}
use deep_oj.Os.{History, Environment, read_file}
use deep_oj.Os.Flow.{returns, failed, ◌>>=◌, sys}
use deep_oj.Sandbox.Marker.{
  find_marker, lines, marker_prefix, run_exec_error_message, read_run_exec_failure_marker,
  RunExecFailureMarker,
}
use deep_oj.Sandbox.Marker.Correct.{
  unlines, ArePlain, exec_report, exec_detail, find_marker-message,
}
use deep_oj.Common.{subst}
use deep_oj.Common.Int.{◌≤ℤ◌}
use deep_oj.Os.{Rusage}
use deep_oj.Types.{GlobalConfig}
use deep_oj.Sandbox.Verdict.{judge_wait, assess}
use deep_oj.Sandbox.Verdict.Correct.{OutputOver, Returns}
use deep_oj.Sandbox.Verdict.Fitting.{assess-reads}

-- The verdict on a failed exec.
abbrev pub exec_failure : RunResult → Bytes → RunResult
exec_failure r detail = record r {
  exit_signal = pos 0;
  exit_code = pos (code err_exec_failed);
  status = system_error;
  sandbox_error = text "execve_failed";
  error_message = text "程序启动失败: " ++ detail;
}

exit_127 :
    (p : Platform) (t m : ℤ) (r : RunResult) (marker : RunExecFailureMarker) (detail : Bytes)
    → marker ≡ record { found = true; detail = detail }
    → is_empty detail ≡ false
    → judge_wait p t m marker (code err_exec_failed * 256) r ≡ exec_failure r detail
unfolding judge_wait
exit_127 p t m r marker detail found some_detail = rw (found, some_detail) refl

detail-some : (p : Platform) (errno : ℕ) (exe : Bytes) → is_empty (exec_detail p errno exe) ≡ false
unfolding text
detail-some p errno exe = refl

-- The message of a child whose exec has failed, in the file of its errors, and its exit code of 127
-- lead to a SYSTEM_ERROR that quotes the number and the text of the error and the path, where the output
-- and the memory fit, whatever whole lines without the marker stand before the message and whatever
-- follows it, if the file has a name and can be read whenever it is, the message fits the child's
-- buffer, and neither the text nor the path holds a newline.
pub exec_failure_reported :
    (env : Environment) (p : Platform) (g : GlobalConfig) (t m : ℤ) (usage : Rusage) (r : RunResult)
    (output_path path exe : Bytes) (errno : ℕ) (before : List Bytes) (after : Bytes) (h : History)
    → ¬ OutputOver p g output_path env h
    → r.memory_used ≤ℤ m
    → is_empty path ≡ false
    → ((k : History) → failed (env k (read_file path)) ≡ false)
    → ((k : History)
        → (env k (read_file path)).bytes
          ≡ unlines before (run_exec_error_message p errno exe ++ after))
    → ArePlain before
    → one_line (p.strerror errno) ≡ true
    → one_line exe ≡ true
    → length (marker_prefix ++ exec_report p errno exe) ≤ 1023
    → Returns
        (assess p g t m output_path path (code err_exec_failed * 256) usage r env h)
        (λ v. v ≡ exec_failure r (exec_detail p errno exe))
unfolding read_run_exec_failure_marker ◌>>=◌ sys
exec_failure_reported env p g t m usage r output_path path exe errno before after h small enough
      named readable holds plain he hx short =
    let found : RunExecFailureMarker = record { found = true; detail = exec_detail p errno exe } in
    subst
      (λ w.
        Returns (assess p g t m output_path path (code err_exec_failed * 256) usage r env h)
          (λ v. v ≡ w))
      (exit_127 p t m r found (exec_detail p errno exe) refl (detail-some p errno exe))
      (assess-reads p g t m output_path path (code err_exec_failed * 256) usage r env h
        (small, enough) found
        (λ k. (
          (read_file path, env k (read_file path)) ∷ k,
          rw (named, readable k)
              (ap (λ marker. returns marker ((read_file path, env k (read_file path)) ∷ k))
                (ap (λ bytes. find_marker (lines bytes)) (holds k)
                  ∙ find_marker-message p errno exe before after plain he hx short)),
        )))
