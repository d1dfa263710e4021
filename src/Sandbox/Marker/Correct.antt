-- ===== src/Sandbox/Marker/Correct.antt =====
-- The message of a failed `execle`, from the child to the parent.
use deep_oj.Common.{
  ℕ, zero, suc, ◌≤◌, ◌≡◌, refl, ◌∙◌, ap, true, none, some, List, [], ◌∷◌, ◌++◌, arith, take, length,
}
use mathlib.Core.List.{append_assoc}
use deep_oj.Common.Bytes.{Bytes, text, print_ℕ, strip_prefix, strip_prefix-append}
use deep_oj.Common.Bytes.Lines.{one_line, one_line-append, one_line-print}
use deep_oj.Platform.{Platform}
use deep_oj.Sandbox.Marker.{lines, marker_prefix, drop_space, find_marker, run_exec_error_message}

lines-cons : (l rest : Bytes) → one_line l ≡ true → lines (l ++ b'\n' ∷ rest) ≡ l ∷ lines rest
unfolding lines
lines-cons [] rest h = refl
lines-cons (b ∷ l) rest h = ground (arith, lines-cons l rest)

-- The lines of a text, each with its newline.
abbrev pub unlines : List Bytes → Bytes → Bytes
unlines [] rest = rest
unlines (l ∷ ls) rest = l ++ b'\n' ∷ unlines ls rest

-- Lines that are whole and of which none begins with the marker.
abbrev pub ArePlain : List Bytes → Type 0
ArePlain [] = Unit
ArePlain (l ∷ ls) = (one_line l ≡ true) × (strip_prefix marker_prefix l ≡ none) × ArePlain ls

step_lem :
    (l : Bytes) (ls : List Bytes)
    → strip_prefix marker_prefix l ≡ none
    → find_marker (l ∷ ls) ≡ find_marker ls
unfolding find_marker
step_lem l ls plain = rw (plain, find_marker)

step_found :
    (l d : Bytes) (ls : List Bytes)
    → strip_prefix marker_prefix l ≡ some d
    → find_marker (l ∷ ls) ≡ record { found = true; detail = drop_space d }
unfolding find_marker
step_found l d ls begins = rw (begins, find_marker)

find_marker-plain :
    (ls : List Bytes) (rest : Bytes)
    → ArePlain ls
    → find_marker (lines (unlines ls rest)) ≡ find_marker (lines rest)
find_marker-plain [] rest h = refl
find_marker-plain (l ∷ ls) rest (whole, plain, h) =
    rw (lines-cons l (unlines ls rest) whole) (step ∙ find_marker-plain ls rest h)
  where
    step : find_marker (l ∷ lines (unlines ls rest)) ≡ find_marker (lines (unlines ls rest))
    step = step_lem l _ plain

take_all : (n : ℕ) (s : Bytes) → length s ≤ n → take n s ≡ s
take_all zero [] h = refl
take_all zero (b ∷ s) h = absurd (omega arith)
take_all (suc n) [] h = refl
take_all (suc n) (b ∷ s) h = ap (λ t. b ∷ t) (take_all n s (omega arith))

-- The line behind the marker, with its space and without.
abbrev pub exec_report : Platform → ℕ → Bytes → Bytes
exec_report p errno exe =
    text " errno=" ++ (print_ℕ errno ++ (text "(" ++ (p.strerror errno ++ (text ") exe=" ++ exe))))

abbrev pub exec_detail : Platform → ℕ → Bytes → Bytes
exec_detail p errno exe =
    text "errno=" ++ (print_ℕ errno ++ (text "(" ++ (p.strerror errno ++ (text ") exe=" ++ exe))))

literals :
    (one_line (text " errno=") ≡ true)
    × (one_line (text "(") ≡ true)
    × (one_line (text ") exe=") ≡ true)
    × (one_line marker_prefix ≡ true)
unfolding text marker_prefix
literals = (refl, refl, refl, refl)

module _ (p : Platform) (errno : ℕ) (exe : Bytes) where
  report-one_line :
      one_line (p.strerror errno) ≡ true
      → one_line exe ≡ true
      → one_line (marker_prefix ++ exec_report p errno exe) ≡ true
  report-one_line he hx =
      simp (one_line-append, one_line-print, literals.0, literals.1, literals.2, literals.3, he, hx)

  drop_space-report : drop_space (exec_report p errno exe) ≡ exec_detail p errno exe
  unfolding drop_space text
  drop_space-report = refl

  -- Whatever whole lines stand before it and whatever follows it, the message that the child
  -- writes is found and its detail is read back, if it fits the child's buffer and neither the
  -- error text nor the path holds a newline.
  pub find_marker-message :
      (before : List Bytes) (after : Bytes)
      → ArePlain before
      → one_line (p.strerror errno) ≡ true
      → one_line exe ≡ true
      → length (marker_prefix ++ exec_report p errno exe) ≤ 1023
      → find_marker (lines (unlines before (run_exec_error_message p errno exe ++ after)))
        ≡ record { found = true; detail = exec_detail p errno exe }
  unfolding run_exec_error_message
  find_marker-message before after plain he hx short =
      find_marker-plain before _ plain
      ∙ rw
          (
            take_all 1023 (marker_prefix ++ exec_report p errno exe) short,
            append_assoc,
            lines-cons _ after (report-one_line he hx),
          )
          (step_found _ _ _ (strip_prefix-append marker_prefix (exec_report p errno exe))
            ∙ rw drop_space-report)
