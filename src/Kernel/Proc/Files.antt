-- ===== src/Kernel/Proc/Files.antt =====
-- The files of src/lkm/ums_proc.c for the workers of a scheduler: which one a lookup finds.
use aosv_project.Base.{
  ℕ, ◌≡◌, ◌⊎◌, refl, some, [], ◌∷◌, ◌==◌, if◌then◌else◌, inl, inr, Option-cases, Bool-cases, true,
  false, update, inc,
}
use aosv_project.Hashtable.{Hashtable}
use aosv_project.Kernel.Entries.{Pup, Folder, File}
use aosv_project.Kernel.Objects.{Ptr}
use aosv_project.Kernel.Outcome.{ok, fault}
use aosv_project.Kernel.State.{Kernel, Alloc, folders, files}
use aosv_project.Kernel.Valid.{Ends}
use aosv_project.Kernel.Valid.Set.{Ends-and_then, Ends-mono}
use aosv_project.Kernel.Proc.{create_workers_file, open_file, file_loop, file_loops}
use aosv_project.Kernel.Proc.Find.{first_file, first_file_of, get_worker}
use aosv_project.Kernel.Proc.Collide.{first, first-add, reads_own, modify-then, List-cases}

module _ ⦃ht : Hashtable⦄ where
  open ht use {Table, bucket, possible}

  first_file-one :
      (s : Kernel Table) (q j : ℕ) (f : Folder Table)
      → s.proc.folders q ≡ some f
      → first_file j (q ∷ []) s ≡ ok (first (possible f.workers_htable j)) s
  unfolding first_file
  first_file-one s q j f here =
      rw (here, first_file)
        (elim (List-cases (possible f.workers_htable j)) [
          | inl empty ↦ rw (empty, first_file)
          | inr (w, ws, e) ↦ rw e
        ])

  get_worker-one :
      (s : Kernel Table) (p q j sched_id parent_pid : ℕ) (u : Pup Table) (f : Folder Table)
      (r : Ptr)
      → possible s.proc.htable parent_pid ≡ p ∷ []
      → s.proc.pups p ≡ some u
      → possible u.schedulers_htable sched_id ≡ q ∷ []
      → s.proc.folders q ≡ some f
      → first (possible f.workers_htable j) ≡ r
      → get_worker j sched_id parent_pid s ≡ ok r s
  unfolding get_worker first_file_of
  get_worker-one s p q j sched_id parent_pid u f r alone here_u alone_q here_f same =
      rw (alone, first_file_of, here_u, alone_q)
        (rw (first_file-one s q j f here_f, same)
          (elim (Option-cases r) [ inl e ↦ rw (e, first_file_of) | inr (w, e) ↦ rw e ]))

  -- What opening a file for a worker leaves behind: its identifier, its structure, the scheduler's
  -- directory with the identifier after it, and the lookups.
  pub record Filed (s : Kernel Table) (w q wt_pid sched_id parent_pid : ℕ) (f : Folder Table)
      (id : ℕ) (t : Kernel Table) : Type 0 where
    pub file : File
    pub next : id ≡ f.last_wt_id
    pub there : t.proc.files w ≡ some file
    pub pid : file.wt_pid ≡ wt_pid
    pub folder : Folder Table
    pub owner : t.proc.folders q ≡ some folder
    pub counted : folder.last_wt_id ≡ inc f.last_wt_id
    pub released : folder.unlocked ≡ true
    pub found :
        (j : ℕ)
        → get_worker j sched_id parent_pid t
          ≡ ok (if bucket id == bucket j then some w else first (possible f.workers_htable j)) t
    pub frame : t ≡ record s { proc = t.proc }

  module _ (s : Kernel Table) (w p q wt_pid sched_id parent_pid : ℕ) (u : Pup Table)
      (f : Folder Table) (x : File) (alone : possible s.proc.htable parent_pid ≡ p ∷ [])
      (here_u : s.proc.pups p ≡ some u) (alone_q : possible u.schedulers_htable sched_id ≡ q ∷ [])
      (here_f : s.proc.folders q ≡ some f) (here_w : s.proc.files w ≡ some x) where
    open_file-faults : f.unlocked ≡ false → open_file (some w) wt_pid q s ≡ fault
    unfolding open_file
    open_file-faults garbage = rw (here_f, garbage) refl

    file_loops-faults :
        f.unlocked ≡ false → file_loops (some w) wt_pid sched_id (p ∷ []) false 0 s ≡ fault
    unfolding file_loops file_loop
    file_loops-faults garbage = rw (here_u, alone_q, open_file-faults garbage) refl

    module _ (free : f.unlocked ≡ true) where
      open_file-Filed :
          Ends (Filed s w q wt_pid sched_id parent_pid f) (open_file (some w) wt_pid q s)
      unfolding open_file
      open_file-Filed =
          rw (here_f, free)
            (modify-then _ files _ w _ _ _ here_w (
              modify-then _ folders _ q _ _ _ here_f (
                modify-then _ files _ w _ _ _ (reads_own w _ _) (record {
                  file = record { worker = _; wt_pid = wt_pid };
                  next = refl;
                  there = reads_own w _ _;
                  pid = refl;
                  folder = _;
                  owner = reads_own q _ _;
                  counted = refl;
                  released = free;
                  found = λ j.
                      get_worker-one _ p q j sched_id parent_pid u _ _ alone here_u alone_q
                        (reads_own q _ _) (first-add f.last_wt_id w j f.workers_htable);
                  frame = refl;
                }))))

      file_loop-Filed :
          Ends
            (λ r. Filed s w q wt_pid sched_id parent_pid f (r.1))
            (file_loop (some w) wt_pid (q ∷ []) false 0 s)
      unfolding file_loop
      file_loop-Filed =
          Ends-and_then _ (open_file (some w) wt_pid q s) _ open_file-Filed λ id t a. a

      file_loops-Filed :
          Ends
            (Filed s w q wt_pid sched_id parent_pid f)
            (file_loops (some w) wt_pid sched_id (p ∷ []) false 0 s)
      unfolding file_loops
      file_loops-Filed =
          rw (here_u, alone_q)
            (Ends-and_then _ (file_loop (some w) wt_pid (q ∷ []) false 0 s) _ file_loop-Filed
              λ r t a. a)

  -- Where a process is alone in its bucket of the table of processes, and a scheduler in that of the
  -- process's table of schedulers: if the bytes of the scheduler's mutex, which nothing initialises,
  -- are not those of a free mutex, the call goes wrong at its lock. If they are, a new file gets the
  -- scheduler's next identifier for a worker, which the scheduler counts, and its structure the
  -- worker's pid. A lookup by that identifier then finds it, and so does a lookup by every other
  -- identifier of the same bucket, whatever it found before; all other lookups for the scheduler find
  -- what they found. Beside the tree in /proc nothing changes.
  pub create_workers_file-opens :
      (s : Kernel Table) (a : Alloc File) (w p q wt_pid sched_id parent_pid : ℕ) (u : Pup Table)
      (f : Folder Table)
      → a.at ≡ some w
      → possible s.proc.htable parent_pid ≡ p ∷ []
      → s.proc.pups p ≡ some u
      → possible u.schedulers_htable sched_id ≡ q ∷ []
      → s.proc.folders q ≡ some f
      → (f.unlocked ≡ false) × (create_workers_file a wt_pid sched_id parent_pid s ≡ fault)
        ⊎ (f.unlocked ≡ true)
          × Ends
              (Filed s w q wt_pid sched_id parent_pid f)
              (create_workers_file a wt_pid sched_id parent_pid s)
  unfolding create_workers_file
  create_workers_file-opens s a w p q wt_pid sched_id parent_pid u f at alone here_u alone_q
        here_f =
      let s' = record s { proc = record s.proc { files = update s.proc.files w (some a.bytes) } } in
      elim (Bool-cases f.unlocked) [
        | inr garbage ↦ inl (
          garbage,
          rw (at, alone)
              (file_loops-faults s' w p q wt_pid sched_id parent_pid u f a.bytes alone here_u
                alone_q here_f (reads_own w _ _) garbage),
        )
        | inl free ↦ inr (
          free,
          rw (at, alone)
              (Ends-mono {P = Filed s' w q wt_pid sched_id parent_pid f} _
                (file_loops-Filed s' w p q wt_pid sched_id parent_pid u f a.bytes alone here_u
                  alone_q here_f (reads_own w _ _) free)
                λ id t b. record {
                  file = b.file;
                  next = b.next;
                  there = b.there;
                  pid = b.pid;
                  folder = b.folder;
                  owner = b.owner;
                  counted = b.counted;
                  released = b.released;
                  found = b.found;
                  frame = b.frame;
                }),
        )
      ]
