-- ===== src/Kernel/Proc/Collide.antt =====
-- The identifiers of src/lkm/ums_proc.c: which directory a lookup by them finds.
use aosv_project.Base.{
  inc, ℕ, ◌≡◌, refl, sym, subst, none, some, List, [], ◌∷◌, ◌==◌, if◌then◌else◌, ==-refl,
  Bool-cases, Option-cases, ◌⊎◌, inl, inr, update,
}
use aosv_project.Hashtable.{Hashtable}
use aosv_project.Kernel.Entries.{Pup, Folder}
use aosv_project.Kernel.Objects.{Ptr}
use aosv_project.Kernel.Outcome.{Outcome, ok, and_then}
use aosv_project.Kernel.State.{Heap, Kernel, Alloc, pups, folders, load, modify}
use aosv_project.Kernel.Valid.{Ends}
use aosv_project.Kernel.Proc.{create_scheduler_folder}
use aosv_project.Kernel.Proc.Find.{first_folder, get_scheduler}

-- The first node of a bucket.
abbrev pub first : List ℕ → Ptr
first [] = none
first (q ∷ qs) = some q

pub List-cases : (xs : List ℕ) → (xs ≡ []) ⊎ ((x : ℕ) × (ys : List ℕ) × (xs ≡ x ∷ ys))
List-cases [] = inl refl
List-cases (x ∷ xs) = inr (x, xs, refl)

pub reads_own : {A : Type 0} (q : ℕ) (a b : A) → (if q == q then a else b) ≡ a
reads_own q a b = rw (==-refl q)

-- A write through a pointer to an object, and the code behind it.
pub modify-then :
    {T A B : Type 0} (Q : B → Kernel T → Type 0) (c : Heap T A) (s : Kernel T) (p : ℕ) (a : A)
    (f : A → A) (k : Unit {0} → Kernel T → Outcome (Kernel T) B)
    → c.get s p ≡ some a
    → Ends Q (k tt (c.put (update (c.get s) p (some (f a))) s))
    → Ends Q (and_then (modify c (some p) f s) k)
unfolding modify load
modify-then Q c s p a f k here next =
    let e : modify c (some p) f s ≡ ok tt (c.put (update (c.get s) p (some (f a))) s) =
      rw (here, load) in
    subst (λ r. Ends Q (and_then r k)) (sym e) next

module _ ⦃ht : Hashtable⦄ where
  open ht use {Table, bucket, add, possible, possible-add, possible-bucket}

  first_folder-bucket :
      (i j : ℕ) (ps : List ℕ) (s : Kernel Table)
      → bucket i ≡ bucket j
      → first_folder i ps s ≡ first_folder j ps s
  unfolding first_folder
  first_folder-bucket i j [] s same = refl
  first_folder-bucket i j (p ∷ ps) s same =
      let rest = first_folder-bucket i j ps s same in
      elim (Option-cases (s.proc.pups p)) [
        | inl gone ↦ rw gone
        | inr (u, here) ↦
            rw (here, possible-bucket u.schedulers_htable i j same)
              (elim (List-cases (possible u.schedulers_htable j)) [
                | inl empty ↦ rw empty rest
                | inr (q, qs, e) ↦ rw e
              ])
      ]

  -- A lookup of a scheduler's directory never looks at its identifier again, once that has chosen a
  -- bucket: two identifiers of one bucket always find the same directory.
  pub get_scheduler-bucket :
      (i j parent_pid : ℕ) (s : Kernel Table)
      → bucket i ≡ bucket j
      → get_scheduler i parent_pid s ≡ get_scheduler j parent_pid s
  unfolding get_scheduler
  get_scheduler-bucket i j parent_pid s same =
      first_folder-bucket i j (possible s.proc.htable parent_pid) s same

  pub first-add :
      (id q j : ℕ) (t : Table)
      → first (possible (add id q t) j)
        ≡ (if bucket id == bucket j then some q else first (possible t j))
  first-add id q j t =
      rw (possible-add id q t j)
        (elim (Bool-cases (bucket id == bucket j)) [ inl e ↦ rw e | inr e ↦ rw e ])

  get_scheduler-one :
      (s : Kernel Table) (p j parent_pid : ℕ) (u : Pup Table) (r : Ptr)
      → possible s.proc.htable parent_pid ≡ p ∷ []
      → s.proc.pups p ≡ some u
      → first (possible u.schedulers_htable j) ≡ r
      → get_scheduler j parent_pid s ≡ ok r s
  unfolding get_scheduler first_folder
  get_scheduler-one s p j parent_pid u r alone here same =
      rw (← same, alone, first_folder, here)
        (elim (List-cases (possible u.schedulers_htable j)) [
          | inl empty ↦ rw (empty, first_folder)
          | inr (q, qs, e) ↦ rw e
        ])

  -- What opening a directory for a scheduler leaves behind: its identifier, its structure, the
  -- process with the identifier after it, and the lookups.
  pub record Opened (s : Kernel Table) (q p sched_pid parent_pid : ℕ) (u : Pup Table) (id : ℕ)
      (t : Kernel Table) : Type 0 where
    pub folder : Folder Table
    pub next : id ≡ u.last_sched_id
    pub there : t.proc.folders q ≡ some folder
    pub pid : folder.sched_pid ≡ sched_pid
    pub first_id : folder.last_wt_id ≡ 0
    pub process : Pup Table
    pub owner : t.proc.pups p ≡ some process
    pub counted : process.last_sched_id ≡ inc u.last_sched_id
    pub found :
        (j : ℕ)
        → get_scheduler j parent_pid t
          ≡ ok (if bucket id == bucket j then some q else first (possible u.schedulers_htable j)) t
    pub frame : t ≡ record s { proc = t.proc }

  -- Where a process is alone in its bucket of the table of processes, a new scheduler's directory
  -- gets the process's next identifier, which the process counts, and its structure the scheduler's
  -- pid and no workers. A lookup by that identifier then finds it, and so does a lookup by every
  -- other identifier of the same bucket, whatever it found before; all other lookups for the process
  -- find what they found. Beside the tree in /proc nothing changes.
  pub create_scheduler_folder-opens :
      (s : Kernel Table) (a : Alloc (Folder Table)) (q p sched_pid parent_pid : ℕ) (u : Pup Table)
      → a.at ≡ some q
      → possible s.proc.htable parent_pid ≡ p ∷ []
      → s.proc.pups p ≡ some u
      → Ends
          (Opened s q p sched_pid parent_pid u)
          (create_scheduler_folder a sched_pid parent_pid s)
  unfolding create_scheduler_folder
  create_scheduler_folder-opens s a q p sched_pid parent_pid u at alone here =
      rw (at, alone, here)
        (modify-then _ folders _ q _ _ _ (reads_own q _ _) (
          modify-then _ pups _ p _ _ _ here (
            modify-then _ folders _ q _ _ _ (reads_own q _ _) (record {
              folder = _;
              next = refl;
              there = reads_own q _ _;
              pid = refl;
              first_id = refl;
              process = _;
              owner = reads_own p _ _;
              counted = refl;
              found = λ j.
                  get_scheduler-one _ p j parent_pid _ _ alone (reads_own p _ _)
                    (first-add u.last_sched_id q j u.schedulers_htable);
              frame = refl;
            }))))
