-- ===== src/Cgroup/Controllers.antt =====
-- Which controllers are enabled for the children of a cgroup (`buildControllerEnableList`).
use deep_oj.Common.{
  is_some, inl, inr, ◌⊎◌, Bool-cases, true, false, ◌≡◌, List, [], ◌∷◌, ◌++◌, if◌then◌else◌, arith,
}
use deep_oj.Common.Bytes.{Bytes, text, contains_text, strip_prefix}
use deep_oj.Cgroup.{enable_list, build_controller_enable_list}

-- The names that stand anywhere in the text.
abbrev pub listed : Bytes → List Bytes → List Bytes
listed raw [] = []
listed raw (name ∷ names) =
    if contains_text name raw then name ∷ listed raw names else listed raw names

-- Each name with a + before it, and a blank between two.
abbrev pub additions : List Bytes → Bytes
additions [] = []
additions (name ∷ []) = text "+" ++ name
additions (name ∷ next ∷ names) = text "+" ++ (name ++ (text " " ++ additions (next ∷ names)))

strip_prefix-append :
    (w v s : Bytes) → is_some (strip_prefix (w ++ v) s) ≡ true → is_some (strip_prefix w s) ≡ true
unfolding strip_prefix
strip_prefix-append [] v s e = ground arith
strip_prefix-append (c ∷ w) v [] e = ground (arith, e)
strip_prefix-append (c ∷ w) v (b ∷ s) e = ground (arith, strip_prefix-append w v s, e)

-- What a text contains, it contains with its end cut off.
contains_text-append : (w v s : Bytes) → contains_text (w ++ v) s ≡ true → contains_text w s ≡ true
unfolding contains_text
contains_text-append w v [] e = ground (arith, strip_prefix-append w v [], e)
contains_text-append w v (b ∷ s) e =
    ground (arith, strip_prefix-append w v (b ∷ s), contains_text-append w v s, e)

-- The text for cgroup.subtree_control has each of the four controllers whose name stands anywhere in
-- the list of the kernel, in a fixed order, with a + and blanks; so cpu is enabled too where the list has
-- just cpuset.
pub build_controller_enable_list_lem :
    (raw : Bytes)
    → (build_controller_enable_list raw
        ≡ additions (listed raw (text "memory" ∷ text "pids" ∷ text "cpu" ∷ text "io" ∷ [])))
      × ((contains_text (text "cpuset") raw ≡ false) ⊎ (contains_text (text "cpu") raw ≡ true))
unfolding build_controller_enable_list text enable_list
build_controller_enable_list_lem raw =
    (ground arith, by_cpuset (Bool-cases (contains_text (text "cpuset") raw)))
  where
    by_cpuset :
        (contains_text (text "cpuset") raw ≡ true) ⊎ (contains_text (text "cpuset") raw ≡ false)
        → (contains_text (text "cpuset") raw ≡ false) ⊎ (contains_text (text "cpu") raw ≡ true)
    by_cpuset (inl there) = inr (contains_text-append (text "cpu") (text "set") raw there)
    by_cpuset (inr missing) = inl missing
