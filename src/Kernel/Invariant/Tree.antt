-- ===== src/Kernel/Invariant/Tree.antt =====
-- The code of src/lkm/ums_proc.c keeps a state valid: it leaves the registries alone.
use aosv_project.Base.{
  ℕ, Option, Bool, true, false, refl, ◌≡◌, none, some, List, [], ◌∷◌, Option-cases, inl, inr,
  update,
}
use aosv_project.Hashtable.{Hashtable}
use aosv_project.Text.{print_int}
use aosv_project.Kernel.Entries.{Pup, Folder, File, ProcUms, Call, mkdir}
use aosv_project.Kernel.Objects.{Ptr}
use aosv_project.Kernel.Outcome.{ok}
use aosv_project.Kernel.State.{Heap, Kernel, Alloc, pups, folders, files, load, store, modify, free}
use aosv_project.Kernel.Valid.Keep.{
  Keeps, Keeps-bind, Keeps-load, Keeps-reads, Keeps-fault, IsValid-proc, keep_rules,
}
use aosv_project.Kernel.Proc.{
  procfs, proc_remove, add_pup, create_proc_ums_pid, open_folder, folder_loop,
  create_scheduler_folder, open_file, file_loop, file_loops, create_workers_file,
}
use aosv_project.Kernel.Proc.Remove.{remove_files, remove_folders, remove_pups, remove_proc_ums_pid}

module _ ⦃ht : Hashtable⦄ where
  open ht use {Table, init, add, del, possible, nodes}

  -- Objects of the tree, of any kind.
  abbrev InTree : {A : Type 0} → Heap Table A → Type 0
  InTree {A} c =
      (s : Kernel Table) (h : ℕ → Option A)
      → (x : ProcUms Table) × (c.put h s ≡ record s { proc = x })

  pups_in : InTree pups
  pups_in s h = (_, refl)

  folders_in : InTree folders
  folders_in s h = (_, refl)

  files_in : InTree files
  files_in s h = (_, refl)

  module _ {A : Type 0} (c : Heap Table A) (inside : InTree c) where
    Keeps-store : (p : Ptr) (a : Option A) → Keeps (store c p a)
    unfolding store
    Keeps-store none a = Keeps-fault
    Keeps-store (some p) a = record {
      at = λ s v. let (x, e) = inside s (update (c.get s) p a) in rw e (IsValid-proc v x);
    }

    Keeps-modify : (p : Ptr) (f : A → A) → Keeps (modify c p f)
    unfolding modify
    Keeps-modify p f = search (keep_rules, Keeps-store)

    Keeps-free : (p : Ptr) → Keeps (free c p)
    unfolding free
    Keeps-free p = search (keep_rules, Keeps-store)

  Keeps-procfs : (c : Call) → Keeps (procfs c)
  unfolding procfs
  Keeps-procfs c = record { at = λ s v. IsValid-proc v _ }

  Keeps-proc_remove : (e : Ptr) → Keeps (proc_remove e)
  unfolding proc_remove
  Keeps-proc_remove e = search (keep_rules, Keeps-procfs)

  Keeps-add_pup : (pid : ℕ) (p : Ptr) → Keeps (add_pup pid p)
  unfolding add_pup
  Keeps-add_pup pid none = record { at = λ s v. tt }
  Keeps-add_pup pid (some p) = record { at = λ s v. IsValid-proc v _ }

  ruleset tree_rules = (
    keep_rules, Keeps-store, Keeps-modify, Keeps-free, Keeps-procfs, Keeps-proc_remove,
    Keeps-add_pup, pups_in, folders_in, files_in,
  )

  Keeps-open_folder : (sched sched_pid p : ℕ) → Keeps (open_folder sched sched_pid p)
  unfolding open_folder
  Keeps-open_folder sched sched_pid p = search tree_rules depth 16

  Keeps-folder_loop : (sched sched_pid : ℕ) (ps : List ℕ) → Keeps (folder_loop sched sched_pid ps)
  unfolding folder_loop
  Keeps-folder_loop sched sched_pid [] = search tree_rules
  Keeps-folder_loop sched sched_pid (p ∷ []) = Keeps-open_folder sched sched_pid p
  Keeps-folder_loop sched sched_pid (p ∷ q ∷ ps) = search tree_rules

  pub Keeps-create_scheduler_folder :
      (a : Alloc (Folder Table)) (sched_pid parent_pid : ℕ)
      → Keeps (create_scheduler_folder a sched_pid parent_pid)
  unfolding create_scheduler_folder
  Keeps-create_scheduler_folder a sched_pid parent_pid = elim (Option-cases a.at) [
    | inl gone ↦ rw (gone, create_scheduler_folder) Keeps-fault
    | inr (sched, at) ↦
        rw (at, create_scheduler_folder)
          (Keeps-bind (store folders (some sched) _) _
            (Keeps-store folders folders_in (some sched) _)
            λ _.
              Keeps-reads (λ s. possible s.proc.htable parent_pid) (folder_loop sched sched_pid)
                (Keeps-folder_loop sched sched_pid))
  ]

  pub Keeps-create_proc_ums_pid :
      (a : Alloc (Pup Table)) (pid : ℕ) → Keeps (create_proc_ums_pid a pid)
  unfolding create_proc_ums_pid
  Keeps-create_proc_ums_pid a pid =
      search
        (tree_rules, Keeps-reads (λ s. s.proc.proc_ums) (λ d. procfs (mkdir (print_int pid) d)))
        depth 16

  Keeps-open_file : (w : Ptr) (wt_pid q : ℕ) → Keeps (open_file w wt_pid q)
  unfolding open_file
  Keeps-open_file none wt_pid q = search tree_rules
  Keeps-open_file (some w) wt_pid q = search tree_rules depth 16

  Keeps-file_loop :
      (w : Ptr) (wt_pid : ℕ) (qs : List ℕ) (linked : Bool) (last : ℕ)
      → Keeps (file_loop w wt_pid qs linked last)
  unfolding file_loop
  Keeps-file_loop w wt_pid [] linked last = search tree_rules
  Keeps-file_loop w wt_pid (q ∷ qs) true last = search tree_rules
  Keeps-file_loop w wt_pid (q ∷ qs) false last =
      search (tree_rules, Keeps-open_file, Keeps-file_loop w wt_pid qs)

  Keeps-file_loops :
      (w : Ptr) (wt_pid sched_id : ℕ) (ps : List ℕ) (linked : Bool) (last : ℕ)
      → Keeps (file_loops w wt_pid sched_id ps linked last)
  unfolding file_loops
  Keeps-file_loops w wt_pid sched_id [] linked last = search tree_rules
  Keeps-file_loops w wt_pid sched_id (p ∷ ps) linked last =
      search (tree_rules, Keeps-file_loop, Keeps-file_loops w wt_pid sched_id ps)

  pub Keeps-create_workers_file :
      (a : Alloc File) (wt_pid sched_id parent_pid : ℕ)
      → Keeps (create_workers_file a wt_pid sched_id parent_pid)
  unfolding create_workers_file
  Keeps-create_workers_file a wt_pid sched_id parent_pid = elim (Option-cases a.at) [
    | inl gone ↦ rw (gone, create_workers_file) (search (tree_rules, loops none))
    | inr (w, at) ↦
        rw (at, create_workers_file)
          (Keeps-bind (store files (some w) _) _ (Keeps-store files files_in (some w) _)
            λ _. loops (some w))
  ]
    where
      loops :
          (w : Ptr)
          → Keeps (λ s. file_loops w wt_pid sched_id (possible s.proc.htable parent_pid) false 0 s)
      loops w =
          Keeps-reads (λ s. possible s.proc.htable parent_pid)
            (λ ps. file_loops w wt_pid sched_id ps false 0)
            λ ps. Keeps-file_loops w wt_pid sched_id ps false 0

  Keeps-remove_files : (q : ℕ) (ws : List ℕ) → Keeps (remove_files q ws)
  unfolding remove_files
  Keeps-remove_files q [] = search tree_rules
  Keeps-remove_files q (w ∷ ws) =
      Keeps-bind (load files (some w)) _ (Keeps-load files (some w)) λ x.
        Keeps-bind (proc_remove x.worker) _ (Keeps-proc_remove x.worker) λ _.
          Keeps-bind (modify folders (some q) _) _ (Keeps-modify folders folders_in (some q) _) λ _.
            Keeps-bind (free files (some w)) _ (Keeps-free files files_in (some w))
              λ _. Keeps-remove_files q ws

  Keeps-remove_folders : (p : ℕ) (qs : List ℕ) → Keeps (remove_folders p qs)
  unfolding remove_folders
  Keeps-remove_folders p [] = search tree_rules
  Keeps-remove_folders p (q ∷ qs) =
      Keeps-bind (load folders (some q)) _ (Keeps-load folders (some q)) λ f.
        Keeps-bind (remove_files q _) _ (Keeps-remove_files q (nodes f.workers_htable)) λ _.
          Keeps-bind (load folders (some q)) _ (Keeps-load folders (some q)) λ g.
            Keeps-bind (proc_remove g.scheduler) _ (Keeps-proc_remove g.scheduler) λ _.
              Keeps-bind (proc_remove g.scheduler_info) _ (Keeps-proc_remove g.scheduler_info) λ _.
                Keeps-bind (proc_remove g.workers) _ (Keeps-proc_remove g.workers) λ _.
                  Keeps-bind (modify pups (some p) _) _ (Keeps-modify pups pups_in (some p) _) λ _.
                    Keeps-bind (free folders (some q)) _ (Keeps-free folders folders_in (some q))
                      λ _. Keeps-remove_folders p qs

  Keeps-drop_pup :
      (p : ℕ)
      → Keeps (λ s. ok tt (record s { proc = record s.proc { htable = del p s.proc.htable } }))
  Keeps-drop_pup p = record { at = λ s v. IsValid-proc v _ }

  Keeps-remove_pups : (ps : List ℕ) → Keeps (remove_pups ps)
  unfolding remove_pups
  Keeps-remove_pups [] = search tree_rules
  Keeps-remove_pups (p ∷ ps) = Keeps-bind (load pups (some p)) _ (Keeps-load pups (some p)) λ u.
      Keeps-bind (remove_folders p _) _ (Keeps-remove_folders p (nodes u.schedulers_htable)) λ _.
        Keeps-bind (load pups (some p)) _ (Keeps-load pups (some p)) λ w.
          Keeps-bind (proc_remove w.proc_ums_pid) _ (Keeps-proc_remove w.proc_ums_pid) λ _.
            Keeps-bind (proc_remove w.proc_ums_pid_schedulers) _
              (Keeps-proc_remove w.proc_ums_pid_schedulers)
              λ _. Keeps-bind _ _ (Keeps-drop_pup p) λ _.
                Keeps-bind (free pups (some p)) _ (Keeps-free pups pups_in (some p))
                  λ _. Keeps-remove_pups ps

  pub Keeps-remove_proc_ums_pid : Keeps remove_proc_ums_pid
  unfolding remove_proc_ums_pid
  Keeps-remove_proc_ums_pid = Keeps-reads (λ s. nodes s.proc.htable) remove_pups Keeps-remove_pups
