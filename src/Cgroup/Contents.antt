-- ===== src/Cgroup/Contents.antt =====
-- What the files of a cgroup hold behind the operations of CgroupManager that write them.
use deep_oj.Common.{
  ℕ, ◌≡◌, refl, Bool, true, false, not, ◌&&◌, Option, none, some, List, [], ◌∷◌, ◌++◌, arith,
  if◌then◌else◌,
}
use deep_oj.Common.Int.{ℤ, pos, leb_ℤ}
use deep_oj.Common.Bytes.{Bytes, text, bytes_eq, bytes_eq_iff, print_ℕ, print_ℤ}
use deep_oj.Types.{Double}
use deep_oj.Platform.{Platform}
use deep_oj.Os.{Reply, History, Environment, write_file, stat_device}
use deep_oj.Os.Flow.{M, ◌>>=◌, pure, sys, nonzero}
use deep_oj.Os.Yields.{Yields, Yields-pure, Yields-bind, Yields-if, Yields-pre, Yields-post}
use deep_oj.Cgroup
use deep_oj.Cgroup.{CgroupManager, cpu_quota, device_of, io_limits}
use deep_oj.Cgroup.Files.{write_to_file}

-- A file holds what was written last, if the write has succeeded.
abbrev pub content : Bytes → History → Option Bytes
content path [] = none
content path ((write_file other value, r) ∷ h) =
    if bytes_eq other path && not (nonzero r) then some value else content path h
content path ((_, r) ∷ h) = content path h

bytes_eq-append : (dir s t : Bytes) → bytes_eq (dir ++ s) (dir ++ t) ≡ bytes_eq s t
unfolding bytes_eq
bytes_eq-append [] s t = refl
bytes_eq-append (b ∷ dir) s t = ground (arith, bytes_eq-append dir s t)

bytes_eq_refl : (s : Bytes) → bytes_eq s s ≡ true
bytes_eq_refl s = (bytes_eq_iff s s).1 refl

module _ (env : Environment) (dir : Bytes) where
  -- A file of the cgroup holds a value.
  abbrev pub Has : Bytes → Bytes → History → Type 0
  Has name value h = content (dir ++ name) h ≡ some value

  -- What a write of another file leaves.
  abbrev Keeps : Bytes → (History → Type 0) → Type 0
  Keeps name Q =
      (value : Bytes) (r : Reply) (h : History) → Q h → Q ((write_file (dir ++ name) value, r) ∷ h)

  Keeps-Has :
      (name other value : Bytes) → bytes_eq name other ≡ false → Keeps name (Has other value)
  Keeps-Has name other value differ v r h has = rw (bytes_eq-append dir name other, differ) has

  -- The files of the cgroup hold the listed values.
  abbrev pub Holds : List (Bytes × Bytes) → History → Type 0
  Holds [] h = Unit {0}
  Holds ((name, value) ∷ files) h = Has name value h × Holds files h

  abbrev is_other : Bytes → List (Bytes × Bytes) → Bool
  is_other name [] = true
  is_other name ((other, _) ∷ files) = not (bytes_eq name other) && is_other name files

  pub Keeps-Holds :
      (name : Bytes) (files : List (Bytes × Bytes))
      → is_other name files ≡ true
      → Keeps name (Holds files)
  Keeps-Holds name [] others v r h k = tt
  Keeps-Holds name ((other, value) ∷ files) others v r h k = (
    Keeps-Has name other value (ground (arith, others)) v r h k.0,
    Keeps-Holds name files (ground (arith, others)) v r h k.1,
  )

  -- All writes of files of the cgroup succeed.
  abbrev pub Writable : Type 0
  Writable =
      (name value : Bytes) (h : History) → nonzero (env h (write_file (dir ++ name) value)) ≡ false

  module _ (writable : Writable) where
    write-Has :
        (name value : Bytes) (Q : History → Type 0)
        → Keeps name Q
        → Yields ⊥ env
            (λ _. ⊥)
            Q
            (λ done h. (done ≡ true) × Has name value h × Q h)
            (write_to_file (dir ++ name) value)
    unfolding write_to_file ◌>>=◌ sys
    write-Has name value Q keeps = record {
      run = λ h q.
          let r = env h (write_file (dir ++ name) value) in
          (
            ground (arith, writable name value h),
            rw (bytes_eq_refl (dir ++ name), writable name value h),
            keeps value r h q,
          );
    }

swap_differs : bytes_eq (text "/memory.swap.max") (text "/memory.max") ≡ false
unfolding bytes_eq text
swap_differs = refl

module _ (env : Environment) (c : CgroupManager) (made : c.created ≡ true)
    (writable : Writable env c.cgroup_path) where
  -- A run that cannot throw, and keeps what was said before.
  abbrev Adds : {A : Type 0} → (History → Type 0) → (History → Type 0) → M A → Type 0
  Adds Q P m = Yields ⊥ env (λ _. ⊥) Q (λ a h. P h × Q h) m

  -- One file is written.
  writes :
      (name value : Bytes) (Q : History → Type 0)
      → Keeps env c.cgroup_path name Q
      → Adds Q (Has env c.cgroup_path name value) (write_to_file (c.cgroup_path ++ name) value)
  writes name value Q keeps =
      Yields-post _ (write-Has env c.cgroup_path writable name value Q keeps)
        (λ done h k. (k.1, k.2))

  pub set_pids_limit-Has :
      (n : ℤ) (Q : History → Type 0)
      → Keeps env c.cgroup_path (text "/pids.max") Q
      → Adds Q (Has env c.cgroup_path (text "/pids.max") (print_ℤ n)) (Cgroup.set_pids_limit c n)
  unfolding Cgroup.set_pids_limit
  set_pids_limit-Has n Q keeps = rw made (writes (text "/pids.max") (print_ℤ n) Q keeps)

  pub set_memory_limit-Has :
      (n : ℕ) (Q : History → Type 0)
      → Keeps env c.cgroup_path (text "/memory.max") Q
      → Keeps env c.cgroup_path (text "/memory.swap.max") Q
      → Yields ⊥ env
          (λ _. ⊥)
          Q
          (λ done h.
            Has env c.cgroup_path (text "/memory.swap.max") (text "0") h
            × (Has env c.cgroup_path (text "/memory.max") (print_ℕ n) h × Q h))
          (Cgroup.set_memory_limit c n true)
  unfolding Cgroup.set_memory_limit
  set_memory_limit-Has n Q keeps keeps' = rw made (
      Yields-bind _ (write-Has env c.cgroup_path writable (text "/memory.max") (print_ℕ n) Q keeps)
        (λ done.
          Yields-if (not done) (λ f. Yields-pure false (λ h k. absurd (ground (arith, k.0, f))))
            (λ _.
              Yields-bind
                (λ u h.
                  Has env c.cgroup_path (text "/memory.swap.max") (text "0") h
                  × (Has env c.cgroup_path (text "/memory.max") (print_ℕ n) h × Q h))
                (Yields-bind _
                  (Yields-pre (λ h k. (k.1, k.2))
                    (writes (text "/memory.swap.max") (text "0")
                      (λ h. Has env c.cgroup_path (text "/memory.max") (print_ℕ n) h × Q h)
                      (λ v r h k. (
                        Keeps-Has env c.cgroup_path (text "/memory.swap.max") (text "/memory.max")
                            (print_ℕ n) swap_differs v r h k.0,
                        keeps' v r h k.1,
                      ))))
                  (λ b. Yields-pure tt (λ h k. k)))
                (λ u. Yields-pure true (λ h k. k)))))

  pub set_cpu_limit-Has :
      (p : Platform) (cores : Double) (quota : ℤ) (Q : History → Type 0)
      → cpu_quota p cores ≡ quota
      → p.le cores (p.of_int (pos 0)) ≡ false
      → Keeps env c.cgroup_path (text "/cpu.max") Q
      → Adds Q
          (Has env c.cgroup_path (text "/cpu.max") (print_ℤ quota ++ (text " " ++ print_ℕ 100000)))
          (Cgroup.set_cpu_limit p c cores)
  unfolding Cgroup.set_cpu_limit
  set_cpu_limit-Has p cores quota Q e positive keeps =
      rw (made, positive, e) (writes (text "/cpu.max") _ Q keeps)

  pub add_process-Has :
      (pid : ℤ) (Q : History → Type 0)
      → Keeps env c.cgroup_path (text "/cgroup.procs") Q
      → Adds Q
          (Has env c.cgroup_path (text "/cgroup.procs") (print_ℤ pid))
          (Cgroup.add_process c pid)
  unfolding Cgroup.add_process
  add_process-Has pid Q keeps = rw made (writes (text "/cgroup.procs") (print_ℤ pid) Q keeps)

  stat-Keeps :
      (target : Bytes) (Q : History → Type 0)
      → ((r : Reply) (h : History) → Q h → Q ((stat_device target, r) ∷ h))
      → Yields ⊥ env (λ _. ⊥) Q (λ r. Q) (sys (stat_device target))
  unfolding sys
  stat-Keeps target Q stats = record { run = λ h q. stats (env h (stat_device target)) h q }

  -- The limit of the traffic, if there is one, leaves the other files alone.
  pub set_io_limit-Keeps :
      (p : Platform) (reads writes : ℤ) (target : Bytes) (Q : History → Type 0)
      → Keeps env c.cgroup_path (text "/io.max") Q
      → ((r : Reply) (h : History) → Q h → Q ((stat_device target, r) ∷ h))
      → Yields ⊥ env (λ _. ⊥) Q (λ done. Q) (Cgroup.set_io_limit p c reads writes target)
  unfolding Cgroup.set_io_limit
  set_io_limit-Keeps p reads writes' target Q keeps stats = rw made (
      Yields-if (leb_ℤ reads (pos 0) && leb_ℤ writes' (pos 0))
        {k = sys (stat_device target) >>= (λ st.
          if nonzero st
          then pure false
          else write_to_file (c.cgroup_path ++ text "/io.max")
              (io_limits p reads writes' (device_of st.out)))}
        (λ _. Yields-pure true (λ h q. q))
        (λ _.
          Yields-bind (λ r. Q) (stat-Keeps target Q stats)
            (λ st.
              Yields-if (nonzero st)
                {k = write_to_file (c.cgroup_path ++ text "/io.max")
                  (io_limits p reads writes' (device_of st.out))}
                (λ _. Yields-pure false (λ h q. q))
                (λ _.
                  Yields-post _
                    (writes (text "/io.max") (io_limits p reads writes' (device_of st.out)) Q keeps)
                    (λ done h k. k.1)))))
