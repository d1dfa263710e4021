-- ===== src/Seccomp/Permits.antt =====
-- What the filters let through: the rules of seccomp_rules.cpp under the documented meaning of a
-- libseccomp filter.
use Prim.Native.Nat.{bit_and}
use deep_oj.Common.{
  ℕ, ◌≡◌, ◌↔◌, refl, Bool, true, false, ◌&&◌, ◌||◌, List, [], ◌∷◌, map, ◌==◌, All, all, not,
  Bool-cases, inl, inr, if◌then◌else◌, arith,
}
use deep_oj.Common.Bytes.{Bytes, text, bytes_eq}
use deep_oj.Os.{ScmpCondition, always, masked_eq, ScmpAction, act_allow, act_kill}
use deep_oj.Seccomp.{Rule, run_rules, allowed_syscalls}

-- The arguments of a system call, by their numbers.
abbrev pub Arguments : Type 0
Arguments = ℕ → ℕ

abbrev pub holds : ScmpCondition → Arguments → Bool
holds always a = true
holds (masked_eq i mask v) a = bit_and (a i) mask == v

-- Whether some rule speaks of the call.
unfoldable pub matches : List Rule → Bytes → Arguments → Bool
matches [] name a = false
matches ((rule_name, condition) ∷ rules) name a =
    let rest = matches rules name a in bytes_eq rule_name name && holds condition a || rest

-- The action for a call: that of the rules if one speaks of it, or else the filter's own.
unfoldable pub verdict : ScmpAction → ScmpAction → List Rule → Bytes → Arguments → ScmpAction
unfolding matches
verdict other action rules name a = if matches rules name a then action else other

-- What a judged program must not do: start processes, use the network, trace, mount, change files
-- or identities.
unfoldable pub forbidden : List Bytes
unfolding text
forbidden = map text (
    "fork" ∷ "vfork" ∷ "clone" ∷ "clone3" ∷ "socket" ∷ "connect" ∷ "bind" ∷ "ptrace" ∷ "mount"
    ∷ "umount2" ∷ "unshare" ∷ "setns" ∷ "chroot" ∷ "pivot_root" ∷ "kill" ∷ "unlink" ∷ "rename"
    ∷ "mkdir" ∷ "chmod" ∷ "chown" ∷ "creat" ∷ "openat2" ∷ "setuid" ∷ "setgid" ∷ "bpf" ∷ [])

or_false : (b : Bool) → (b || false) ≡ b
or_false true = refl
or_false false = refl

open_rule : (a : Arguments) → matches run_rules (text "open") a ≡ (bit_and (a 1) 3 == 0)
unfolding matches run_rules allowed_syscalls text bytes_eq
open_rule a = or_false (bit_and (a 1) 3 == 0)

openat_rule : (a : Arguments) → matches run_rules (text "openat") a ≡ (bit_and (a 2) 3 == 0)
unfolding matches run_rules allowed_syscalls text bytes_eq
openat_rule a = or_false (bit_and (a 2) 3 == 0)

zero_test :
    (b : Bool) (n : ℕ) → b ≡ (n == 0) → ((if b then act_allow else act_kill) ≡ act_allow) ↔ (n ≡ 0)
zero_test true n e = ground arith
zero_test false n e = ground arith

forbidden_rules : (a : Arguments) → all (λ name. not (matches run_rules name a)) forbidden ≡ true
unfolding matches run_rules allowed_syscalls text bytes_eq forbidden
forbidden_rules a = refl

denied :
    (a : Arguments) (names : List Bytes)
    → all (λ name. not (matches run_rules name a)) names ≡ true
    → All (λ name. verdict act_kill act_allow run_rules name a ≡ act_kill) names
unfolding verdict
denied a [] m = tt
denied a (name ∷ names) m = elim (Bool-cases (matches run_rules name a)) [
  | inl e ↦ absurd (ground arith)
  | inr e ↦ (rw e refl, denied a names (ground arith))
]

-- The filter of a judged program lets `open` and `openat` through just for reading, that is, if
-- neither bit of O_WRONLY | O_RDWR is set in their flags; whatever the arguments, it kills for each
-- listed call that starts a process, uses the network, traces, mounts, or changes files, roots or
-- identities.
pub run_filter_denies :
    (a : Arguments)
    → ((verdict act_kill act_allow run_rules (text "open") a ≡ act_allow) ↔ (bit_and (a 1) 3 ≡ 0))
      × ((verdict act_kill act_allow run_rules (text "openat") a ≡ act_allow)
          ↔ (bit_and (a 2) 3 ≡ 0))
      × All (λ name. verdict act_kill act_allow run_rules name a ≡ act_kill) forbidden
unfolding verdict
run_filter_denies a = (
  zero_test (matches run_rules (text "open") a) (bit_and (a 1) 3) (open_rule a),
  zero_test (matches run_rules (text "openat") a) (bit_and (a 2) 3) (openat_rule a),
  denied a forbidden (forbidden_rules a),
)
