-- ===== src/Config/Correct.antt =====
-- What `LoadConfig` promises to the rest of the engine.
use deep_oj.Common.{
  ℕ, zero, suc, ◌+◌, ◌*◌, ◌≢◌, Bool-cases, inl, inr, ◌^◌, ◌≤◌, ◌<◌, ◌≡◌, ◌↔◌, refl, sym, ◌∙◌, Bool,
  true, false, Option, none, some, List, [], ◌∷◌, length, All, length-take, arith, if◌then◌else◌,
  ◌==◌,
}
use deep_oj.Common.Int.{ℤ, pos, ◌<ℤ◌, leb_ℤ}
use deep_oj.Common.Bytes.{Bytes, text, strncpy, c_str}
use deep_oj.Types.{GlobalConfig}
use deep_oj.Platform.{Platform}
use deep_oj.Os.{History, Environment, read_file}
use deep_oj.Os.Flow.{Outcome, returns, exits, becomes, throws, unfinished, failed, sys}
use deep_oj.Os.Flow
use deep_oj.Config
use deep_oj.Config.{Yaml, Loaded, loaded, refused, ◌>>=◌, or_throw, or_fail}
use deep_oj.Config.Meaning.{Sets, Items, Paths, MountFiles, Means, buffered}
use deep_oj.Config.Sound.{Sound-at, read_config-Sound}
use deep_oj.Config.Complete.{read_config-loaded}

-- A text that stands in a `char[256]` with its 0 behind it.
abbrev pub InBuffer : Bytes → Type 0
InBuffer s = (length s ≤ 255) × All (λ b. b ≢ 0) s

-- The configuration keeps to its arrays, and to the ranges that the code wants or its types have.
abbrev pub Fits : GlobalConfig → Type 0
Fits g =
    InBuffer g.workspace_root
    × InBuffer g.compiler_path
    × ((length g.mount_dirs ≤ 16) × All InBuffer g.mount_dirs)
    × ((length g.mount_files ≤ 16) × All InBuffer g.mount_files)
    × (pos 0 <ℤ g.compile_max_errors)
    × (g.run_uid < 2 ^ 32)
    × (g.run_gid < 2 ^ 32)

take-nonzero : (n : ℕ) (s : Bytes) → All (λ b. b ≢ 0) s → All (λ b. b ≢ 0) (strncpy n s)
take-nonzero zero s a = tt
take-nonzero (suc n) [] a = tt
take-nonzero (suc n) (b ∷ s) (ne, a) = (ne, take-nonzero n s a)

c_str-nonzero : (s : Bytes) → All (λ b. b ≢ 0) (c_str s)
unfolding c_str
c_str-nonzero [] = tt
c_str-nonzero (b ∷ s) = elim (Bool-cases (b == 0)) [
  | inl e ↦ rw e tt
  | inr e ↦ rw e ((λ z. ground (arith, z, e)), c_str-nonzero s)
]

buffered-InBuffer : (s : Bytes) → InBuffer (buffered s)
buffered-InBuffer s =
    (omega (arith, length-take 255 (c_str s)), take-nonzero 255 (c_str s) (c_str-nonzero s))

positive_errors : (e n : ℤ) → n ≡ (if leb_ℤ e (pos 0) then pos 10 else e) → pos 0 <ℤ n
positive_errors e n q = ground arith

module _ {Node : Type 0} (y : Yaml Node) where
  Items-InBuffer : (node : Node) (i : ℕ) (ps : List Bytes) → Items y node i ps → All InBuffer ps
  Items-InBuffer node i [] it = tt
  Items-InBuffer node i (path ∷ ps) ((n, s, e, v, q), it) =
      (rw q (buffered-InBuffer s), Items-InBuffer node (suc i) ps it)

  Paths-Fits :
      (node : Node) (ps : List Bytes) → Paths y node ps → (length ps ≤ 16) × All InBuffer ps
  Paths-Fits node ps (l, it) = (omega (arith, l), Items-InBuffer node 0 ps it)

  MountFiles-Fits :
      (section : Node) (ps : List Bytes)
      → MountFiles y section ps
      → (length ps ≤ 16) × All InBuffer ps
  MountFiles-Fits section ps (n, e, inl (d, q, r)) = Paths-Fits n ps r
  MountFiles-Fits section ps (n, e, inr (d, q)) = rw q (omega arith, tt)

  Means-Fits : (p : Platform) (config : Node) (g : GlobalConfig) → Means y p config g → Fits g
  Means-Fits p config g m =
      let path = m.path.2 in
      let errors = m.compile.2.5 in
      let ids = m.security.2 in
      (
        rw path.0.2 (buffered-InBuffer path.0.0),
        rw path.1.2 (buffered-InBuffer path.1.0),
        Paths-Fits path.2.0 g.mount_dirs path.2.3,
        MountFiles-Fits m.path.0 g.mount_files path.3,
        positive_errors errors.0 g.compile_max_errors errors.2,
        omega (arith, ids.0.2),
        omega (arith, ids.1.2),
      )

module _ {Node : Type 0} (y : Yaml Node) (p : Platform) (path : Bytes) (env : Environment)
    (h : History) where
  -- The file is read, its text is a document, and the document means the configuration.
  abbrev pub IsLoaded : GlobalConfig → History → Type 0
  IsLoaded g h' =
      let r = env h (read_file path) in
      (failed r ≡ false)
      × ((config : Node) × (y.parse r.bytes ≡ some config) × Means y p config g)
      × (h' ≡ (read_file path, r) ∷ h)

  -- What follows the reading of the file.
  abbrev ended : Bool → Option Node → History → Outcome GlobalConfig
  ended unread document h' =
      (if unread then Flow.exit 1 else or_fail (or_throw document >>= Config.read_config y p)) env
        h'

  load_config-ended :
      let r = env h (read_file path) in
      Config.load_config y p path env h
      ≡ ended (failed r) (y.parse r.bytes) ((read_file path, r) ∷ h)
  unfolding Config.load_config Flow.◌>>=◌ sys
  load_config-ended = refl

  loaded-returns :
      (m : Loaded GlobalConfig) (g : GlobalConfig) (k h' : History)
      → or_fail m env k ≡ returns g h'
      → (m ≡ loaded g) × (h' ≡ k)
  loaded-returns (loaded a) g k h' e = (cc, cc)
  loaded-returns (refused why) g k h' e = absurd (ground arith)

  ended-returns :
      (unread : Bool) (document : Option Node) (k : History) (g : GlobalConfig) (h' : History)
      → ended unread document k ≡ returns g h'
      → (unread ≡ false)
        × ((config : Node) × (document ≡ some config) × Means y p config g)
        × (h' ≡ k)
  unfolding ◌>>=◌ or_throw
  ended-returns true document k g h' e = absurd (ground arith)
  ended-returns false none k g h' e = absurd (ground arith)
  ended-returns false (some config) k g h' e =
      let back = loaded-returns (Config.read_config y p config) g k h' e in
      (refl, (config, refl, Sound-at g (read_config-Sound y p config) back.0), back.1)

  -- `LoadConfig` comes back with a configuration just where the file can be read, its text is a
  -- YAML document, and the document means that configuration.
  pub load_config_iff :
      (g : GlobalConfig) (h' : History)
      → (Config.load_config y p path env h ≡ returns g h') ↔ IsLoaded g h'
  unfolding ◌>>=◌ or_throw
  load_config_iff g h' =
      let r = env h (read_file path) in
      (
        λ e.
            ended-returns (failed r) (y.parse r.bytes) ((read_file path, r) ∷ h) g h'
              (sym load_config-ended ∙ e),
        λ l. load_config-ended ∙ rw (l.0, l.1.1, read_config-loaded y p l.1.0 g l.1.2, l.2),
      )

  -- The end with a configuration that fits, or with the exit of a failure.
  abbrev pub FitsOrFails : Outcome GlobalConfig → Type 0
  FitsOrFails (returns g h') = Fits g
  FitsOrFails (exits c h') = c ≡ 1
  FitsOrFails (becomes program argv h') = ⊥
  FitsOrFails (throws e raised h') = ⊥
  FitsOrFails (unfinished h') = ⊥

  read-FitsOrFails :
      (config : Node) (m : Loaded GlobalConfig) (k : History)
      → Config.read_config y p config ≡ m
      → FitsOrFails (or_fail m env k)
  read-FitsOrFails config (loaded g) k e =
      Means-Fits y p config g (Sound-at g (read_config-Sound y p config) e)
  read-FitsOrFails config (refused why) k e = refl

  ended-FitsOrFails :
      (unread : Bool) (document : Option Node) (k : History) → FitsOrFails (ended unread document k)
  unfolding ◌>>=◌ or_throw
  ended-FitsOrFails true document k = refl
  ended-FitsOrFails false none k = refl
  ended-FitsOrFails false (some config) k =
      read-FitsOrFails config (Config.read_config y p config) k refl

  -- Whatever the file holds, `LoadConfig` ends the process with 1 or comes back, and then both
  -- paths and all paths of mounts stand in their buffers with a 0 behind them, there are 16 mounts
  -- of each kind at most, the compiler may report one error at least, and both ids have 32 bits.
  pub load_config_fits : FitsOrFails (Config.load_config y p path env h)
  load_config_fits =
      let r = env h (read_file path) in
      rw load_config-ended
        (ended-FitsOrFails (failed r) (y.parse r.bytes) ((read_file path, r) ∷ h))

one_value :
    {Node : Type 0} (y : Yaml Node) {config s' : Node} {key name : Bytes} {a b : ℕ} (s n : Node)
    → y.get config key ≡ some s'
    → y.get config key ≡ some s
    → Sets y y.as_unsigned_long s' name a
    → y.get s name ≡ some n
    → y.as_unsigned_long n ≡ some b
    → a ≡ b
one_value y s n here es (m, (em, d), vm) en v = cc

-- The user of the judged program is the number of the document without all but its lower 32 bits, and
-- so root where a multiple of 2 ^ 32 passes as `run_as_uid`.
pub run_uid_wraps :
    {Node : Type 0} (y : Yaml Node) (p : Platform) (config s n : Node) (k low : ℕ)
    (g : GlobalConfig)
    → y.get config (text "security") ≡ some s
    → y.get s (text "run_as_uid") ≡ some n
    → y.as_unsigned_long n ≡ some (k * 2 ^ 32 + low)
    → low < 2 ^ 32
    → Config.read_config y p config ≡ loaded g
    → g.run_uid ≡ low
run_uid_wraps y p config s n k low g es en v small e =
    let m = (Sound-at g (read_config-Sound y p config) e).security in
    let value : m.2.0.0 ≡ k * 2 ^ 32 + low = one_value y s n m.1.0 es m.2.0.1 en v in
    omega (arith, m.2.0.2, value, small)
