-- ===== src/Config/Sound.antt =====
-- A configuration that is loaded is what the document means.
use deep_oj.Common.{
  ℕ, zero, suc, ◌-◌, ◌≡◌, subst, refl, min, Bool, true, false, not, Option, none, some, List,
  length, leb, arith, inl, inr, if◌then◌else◌,
}
use deep_oj.Common.Int.{ℤ, pos}
use deep_oj.Common.Bytes.{Bytes, text}
use deep_oj.Types.{GlobalConfig}
use deep_oj.Platform.{Platform}
use deep_oj.Config
use deep_oj.Config.{
  Yaml, Loaded, loaded, refused, Failure, or_throw, ◌>>=◌, ◌>>◌, into_buffer, megabytes,
  default_config,
}
use deep_oj.Config.Meaning.{
  There, Sets, SetsOr, Items, MountFiles, Runner, PathSettings, CompileSettings, SecuritySettings,
  Section, Means,
}

abbrev Holds : {A : Type 0} → (A → Type 0) → Loaded A → Type 0
Holds P (loaded a) = P a
Holds P (refused why) = Unit

-- What is said of a result, if there is one.
pub record Sound {A : Type 0} (P : A → Type 0) (m : Loaded A) : Type 0 where
  pub run : Holds P m

pub Sound-at : {A : Type 0} {P : A → Type 0} {m : Loaded A} (a : A) → Sound P m → m ≡ loaded a → P a
Sound-at {P} a s e = subst (Holds P) e s.run

module _ {B : Type 0} {Q : B → Type 0} where
  Sound-loaded : {b : B} → Q b → Sound Q (loaded b)
  Sound-loaded q = record { run = q }

  Sound-refused : {why : Failure} → Sound Q (refused why)
  Sound-refused = record { run = tt }

  -- What follows an `or_throw` knows where its value comes from.
  Sound-or_throw :
      {A : Type 0} (o : Option A) {f : A → Loaded B}
      → ((a : A) → o ≡ some a → Sound Q (f a))
      → Sound Q (or_throw o >>= f)
  unfolding or_throw ◌>>=◌
  Sound-or_throw none k = record { run = tt }
  Sound-or_throw (some a) k = k a refl

  Sound-value : (o : Option B) → ((b : B) → o ≡ some b → Q b) → Sound Q (or_throw o)
  unfolding or_throw
  Sound-value none k = record { run = tt }
  Sound-value (some b) k = record { run = k b refl }

  Sound-bind :
      {A : Type 0} (P : A → Type 0) {m : Loaded A} {f : A → Loaded B}
      → Sound P m
      → ((a : A) → P a → Sound Q (f a))
      → Sound Q (m >>= f)
  unfolding ◌>>=◌
  Sound-bind {A} P {m} {f} s k = go m s.run
    where
      go : (o : Loaded A) → Holds P o → Sound Q (o >>= f)
      go (loaded a) p = k a p
      go (refused why) p = record { run = tt }

  Sound-weaken : (P : B → Type 0) {m : Loaded B} → Sound P m → ((b : B) → P b → Q b) → Sound Q m
  Sound-weaken P {m} s k = go m s.run
    where
      go : (o : Loaded B) → Holds P o → Sound Q o
      go (loaded b) p = record { run = k b p }
      go (refused why) p = record { run = tt }

  Sound-if :
      (b : Bool) {m k : Loaded B}
      → (b ≡ true → Sound Q m)
      → (b ≡ false → Sound Q k)
      → Sound Q (if b then m else k)
  Sound-if true t f = t refl
  Sound-if false t f = f refl

module _ {Node : Type 0} (y : Yaml Node) where
  check_node-Sound :
      (parent : Node) (key name : Bytes)
      → Sound (λ _. (n : Node) × There y parent key n) (Config.check_node y parent key name)
  unfolding Config.check_node Config.child
  check_node-Sound parent key name =
      Sound-or_throw (y.get parent key)
        (λ n e. Sound-if (y.is_defined n) (λ d. Sound-loaded (n, (e, d))) (λ _. Sound-refused))

  read-Sound :
      {A : Type 0} (as_type : Node → Option A) (parent : Node) (key : Bytes)
      → Sound
          (λ a. (n : Node) × (y.get parent key ≡ some n) × (as_type n ≡ some a))
          (Config.read y as_type parent key)
  unfolding Config.read Config.child
  read-Sound as_type parent key =
      Sound-or_throw (y.get parent key) (λ n e. Sound-value (as_type n) (λ a v. (n, e, v)))

  There-of :
      (parent : Node) (key : Bytes) (m : Node)
      → (n : Node) × There y parent key n
      → y.get parent key ≡ some m
      → There y parent key m
  There-of parent key m (n, (e, d)) e' = (e', ground arith)

  -- A section that must be there is checked and then taken.
  Sound-section :
      {B : Type 0} {Q : B → Type 0} (parent : Node) (key name : Bytes) {f : Node → Loaded B}
      → ((s : Node) → There y parent key s → Sound Q (f s))
      → Sound Q (Config.check_node y parent key name >> (Config.child y parent key >>= f))
  unfolding Config.child
  Sound-section parent key name k =
      Sound-bind _ (check_node-Sound parent key name)
        (λ _ here. Sound-or_throw (y.get parent key) (λ s e. k s (There-of parent key s here e)))

  same_node :
      {A : Type 0} (as_type : Node → Option A) (parent : Node) (key : Bytes) (a : A) (n m : Node)
      → There y parent key n
      → y.get parent key ≡ some m
      → as_type m ≡ some a
      → Sets y as_type parent key a
  same_node as_type parent key a n m (e, d) e' v = (m, (e', ground arith), v)

  -- A value that is read behind its check.
  read-Sets :
      {A : Type 0} (as_type : Node → Option A) (parent : Node) (key : Bytes)
      → (n : Node) × There y parent key n
      → Sound (Sets y as_type parent key) (Config.read y as_type parent key)
  read-Sets as_type parent key (n, t) =
      Sound-weaken _ (read-Sound as_type parent key)
        (λ a r. same_node as_type parent key a n r.0 t r.1 r.2)

  read_or-Sound :
      {A : Type 0} (as_type : Node → Option A) (old : A) (parent : Node) (key : Bytes)
      → Sound (SetsOr y as_type old parent key) (Config.read_or y as_type old parent key)
  unfolding Config.read_or Config.child
  read_or-Sound as_type old parent key = Sound-or_throw (y.get parent key) (λ n e.
      Sound-if (y.is_defined n)
        (λ d.
          Sound-weaken _ (read-Sets as_type parent key (n, (e, d)))
            (λ a r. (r.0, r.1.0, inl (r.1.1, r.2))))
        (λ d. Sound-loaded (n, e, inr (d, refl))))

  read_paths-Sound :
      (node : Node) (left i count : ℕ)
      → Sound
          (λ ps. (length ps ≡ min (16 - count) left) × Items y node i ps)
          (Config.read_paths y node left i count)
  unfolding Config.read_paths into_buffer
  read_paths-Sound node zero i count = Sound-loaded (omega arith, tt)
  read_paths-Sound node (suc left) i count =
      Sound-if (leb 16 count) (λ full. Sound-loaded (ground arith, tt))
        (λ room. Sound-or_throw (y.item node i) (λ n e. Sound-or_throw (y.as_string n) (λ s v.
          Sound-bind _ (read_paths-Sound node left (suc i) (suc count))
            (λ ps r. Sound-loaded (ground (arith, r.0), ((n, s, e, v, refl), r.1))))))

  read_mount_files-Sound :
      (section : Node) → Sound (MountFiles y section) (Config.read_mount_files y section)
  unfolding Config.read_mount_files Config.child
  read_mount_files-Sound section = Sound-or_throw (y.get section (text "mount_files")) (λ n e.
      Sound-if (not (y.is_defined n)) (λ d. Sound-loaded (n, e, inr (inl (ground arith), refl)))
        (λ d.
          Sound-if (not (y.is_sequence n))
            (λ q. Sound-loaded (n, e, inr (inr (ground arith), refl)))
            (λ q.
              Sound-weaken _ (read_paths-Sound n (y.size n) 0 0)
                (λ ps r. (n, e, inl (ground arith, ground arith, r))))))

module _ {Node : Type 0} (y : Yaml Node) (config : Node) (g : GlobalConfig)
    (Q : GlobalConfig → Type 0) where
  read_path-Sound :
      ((w c : Bytes) (dirs files : List Bytes)
        → let g' : GlobalConfig = record g {
          workspace_root = w;
          compiler_path = c;
          mount_dirs = dirs;
          mount_files = files;
        } in
          Section y config (text "path") (λ s. PathSettings y s g') → Q g')
      → Sound Q (Config.read_path y config g)
  unfolding Config.read_path Config.child into_buffer
  read_path-Sound k = Sound-section y config (text "path") (text "path") (λ s here.
      Sound-bind _ (check_node-Sound y s (text "workspace_root") _) (λ _ t1.
        Sound-bind _ (check_node-Sound y s (text "compiler_bin") _) (λ _ t2.
          Sound-bind _ (check_node-Sound y s (text "mount_dirs") _) (λ _ t3.
            Sound-bind _ (read-Sets y y.as_string s (text "workspace_root") t1) (λ w v1.
              Sound-bind _ (read-Sets y y.as_string s (text "compiler_bin") t2) (λ c v2.
                Sound-or_throw (y.get s (text "mount_dirs")) (λ dirs e3.
                  Sound-if (not (y.is_sequence dirs)) (λ _. Sound-refused)
                    (λ q. Sound-bind _ (read_paths-Sound y dirs (y.size dirs) 0 0) (λ ds r.
                      Sound-bind _ (read_mount_files-Sound y s) (λ fs m. Sound-loaded (
                        k _ _ ds fs (
                          s,
                          here,
                          (
                            (w, v1, refl),
                            (c, v2, refl),
                            (dirs, There-of y s (text "mount_dirs") dirs t3 e3, ground arith, r),
                            m,
                          ),
                        ))))))))))))

  read_compile-Sound :
      ((cpu real mem tmpfs log_max errors : ℤ)
        → let g' : GlobalConfig = record g {
          compile_cpu_limit = cpu;
          compile_real_limit = real;
          compile_mem_limit = mem;
          compile_tmpfs_size_mb = tmpfs;
          compile_log_max_bytes = log_max;
          compile_max_errors = errors;
        } in
          Section y config (text "compile") (λ s.
            CompileSettings y g.compile_tmpfs_size_mb g.compile_log_max_bytes g.compile_max_errors s
              g')
          → Q g')
      → Sound Q (Config.read_compile y config g)
  unfolding Config.read_compile megabytes
  read_compile-Sound k = Sound-section y config (text "compile") (text "compile") (λ s here.
      Sound-bind _ (check_node-Sound y s (text "cpu_limit_s") _) (λ _ t1.
        Sound-bind _ (check_node-Sound y s (text "real_time_limit_s") _) (λ _ t2.
          Sound-bind _ (check_node-Sound y s (text "memory_limit_mb") _) (λ _ t3.
            Sound-bind _ (read-Sets y y.as_int s (text "cpu_limit_s") t1) (λ cpu v1.
              Sound-bind _ (read-Sets y y.as_int s (text "real_time_limit_s") t2) (λ real v2.
                Sound-bind _ (read-Sets y y.as_long_long s (text "memory_limit_mb") t3) (λ mb v3.
                  Sound-bind _ (read_or-Sound y y.as_long_long _ s (text "tmpfs_size_mb"))
                    (λ tmpfs v4.
                      Sound-bind _ (read_or-Sound y _ _ s (text "log_max_size_mb")) (λ log v5.
                        Sound-bind _ (read_or-Sound y y.as_int _ s (text "max_errors")) (λ e v6.
                          Sound-loaded (
                            k _ _ _ _ _ _
                              (s, here, (v1, v2, (mb, v3, refl), v4, v5, (e, v6, refl))))))))))))))

  read_security-Sound :
      ((uid gid : ℕ)
        → let g' : GlobalConfig = record g { run_uid = uid; run_gid = gid } in
          Section y config (text "security") (λ s. SecuritySettings y s g') → Q g')
      → Sound Q (Config.read_security y config g)
  unfolding Config.read_security
  read_security-Sound k = Sound-section y config (text "security") (text "security") (λ s here.
      Sound-bind _ (check_node-Sound y s (text "run_as_uid") _) (λ _ t1.
        Sound-bind _ (check_node-Sound y s (text "run_as_gid") _) (λ _ t2.
          Sound-bind _ (read-Sets y y.as_unsigned_long s (text "run_as_uid") t1) (λ uid v1.
            Sound-bind _ (read-Sets y y.as_unsigned_long s (text "run_as_gid") t2)
              (λ gid v2. Sound-loaded (k _ _ (s, here, ((uid, v1, refl), (gid, v2, refl)))))))))

module _ {Node : Type 0} (y : Yaml Node) (p : Platform) (config : Node)
    (Q : GlobalConfig → Type 0) where
  read_runner-Sound :
      ((g : GlobalConfig)
        → Runner y p config g
        → g.compile_tmpfs_size_mb ≡ pos 128
        → g.compile_log_max_bytes ≡ pos 16777216
        → g.compile_max_errors ≡ pos 10
        → Q g)
      → Sound Q (Config.read_runner y config (default_config p))
  unfolding Config.read_runner Config.child default_config Config.zero_config
  read_runner-Sound k = Sound-or_throw (y.get config (text "runner")) (λ s e.
      Sound-if (y.is_defined s)
        (λ d. Sound-bind _ (read_or-Sound y y.as_long_long _ s (text "max_output_size")) (λ v1 c1.
          Sound-bind _ (read_or-Sound y y.as_long_long _ s (text "output_buffer_size")) (λ v2 c2.
            Sound-bind _ (read_or-Sound y y.as_long_long _ s (text "tmpfs_size_mb")) (λ v3 c3.
              Sound-bind _ (read_or-Sound y y.as_int _ s (text "cgroup_pids_limit")) (λ v4 c4.
                Sound-bind _ (read_or-Sound y y.as_double _ s (text "cgroup_cpu_max_cores"))
                  (λ v5 c5.
                    Sound-bind _ (read_or-Sound y y.as_long_long _ s (text "cgroup_io_read_bps"))
                      (λ v6 c6.
                        Sound-bind _
                          (read_or-Sound y y.as_long_long _ s (text "cgroup_io_write_bps"))
                          (λ v7 c7. Sound-loaded (
                            k _ (s, e, inl (d, (c1, c2, c3, c4, c5, c6, c7))) refl refl
                              refl)))))))))
        (λ d.
          Sound-loaded
            (k _ (s, e, inr (d, (refl, refl, refl, refl, refl, refl, refl))) refl refl refl)))

compile_defaults :
    {Node : Type 0} (y : Yaml Node) (config : Node) (g : GlobalConfig) {a b c : ℤ}
    → a ≡ pos 128
    → b ≡ pos 16777216
    → c ≡ pos 10
    → Section y config (text "compile") (λ s. CompileSettings y a b c s g)
    → Section y config
        (text "compile")
        (λ s. CompileSettings y (pos 128) (pos 16777216) (pos 10) s g)
compile_defaults y config g {a} {b} {c} e f h x =
    let S = λ (u v w : ℤ). Section y config (text "compile") (λ s. CompileSettings y u v w s g) in
    subst (λ u. S u (pos 16777216) (pos 10)) e (subst (λ v. S a v (pos 10)) f (subst (S a b) h x))

-- The configuration that is read is the one that the document means.
pub read_config-Sound :
    {Node : Type 0} (y : Yaml Node) (p : Platform) (config : Node)
    → Sound (Means y p config) (Config.read_config y p config)
unfolding Config.read_config
read_config-Sound y p config =
    Sound-bind
      (λ g.
        Runner y p config g
        × (g.compile_tmpfs_size_mb ≡ pos 128)
        × (g.compile_log_max_bytes ≡ pos 16777216)
        × (g.compile_max_errors ≡ pos 10))
      (read_runner-Sound y p config _ (λ g r d1 d2 d3. (r, d1, d2, d3)))
      (λ g1 known.
        Sound-bind
          (λ g.
            Runner y p config g
            × Section y config (text "path") (λ s. PathSettings y s g)
            × (g.compile_tmpfs_size_mb ≡ pos 128)
            × (g.compile_log_max_bytes ≡ pos 16777216)
            × (g.compile_max_errors ≡ pos 10))
          (read_path-Sound y config g1 _
            (λ w c ds fs path. (known.0, path, known.1, known.2, known.3)))
          (λ g2 known.
            Sound-bind
              (λ g.
                Runner y p config g
                × Section y config (text "path") (λ s. PathSettings y s g)
                × Section y config (text "compile") (λ s.
                  CompileSettings y g2.compile_tmpfs_size_mb g2.compile_log_max_bytes
                    g2.compile_max_errors s g))
              (read_compile-Sound y config g2 _ (λ a b c d e f comp. (known.0, known.1, comp)))
              (λ g3 known'. read_security-Sound y config g3 _ (λ uid gid sec. record {
                runner = known'.0;
                path = known'.1;
                compile = compile_defaults y config g3 known.2 known.3 known.4 known'.2;
                security = sec;
              }))))
