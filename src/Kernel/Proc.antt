-- ===== src/Kernel/Proc.antt =====
-- src/lkm/ums_proc.c: how the module's tree in /proc is made.
pub mod Find
pub mod Remove
pub mod Info
pub mod Collide
pub mod Files
pub mod Read
use aosv_project.Base.{
  ℕ, ◌+◌, Bool, true, false, Option, none, some, List, [], ◌∷◌, if◌then◌else◌, inc,
}
use aosv_project.Hashtable.{Hashtable}
use aosv_project.Text.{Text, codes, print_int}
use aosv_project.Kernel.Entries.{Pup, Folder, File, Call, mkdir, create, remove}
use aosv_project.Kernel.Objects.{Ptr}
use aosv_project.Kernel.Outcome.{ok, fault, pure, ◌>>=◌, ◌>>◌}
use aosv_project.Kernel.State.{Alloc, M, pups, folders, files, load, store, modify}

module _ {T : Type 0} where
  -- A call to procfs, which returns an entry.
  unfoldable pub procfs : Call → M T Ptr
  procfs c s =
      let calls = c ∷ s.proc.calls in
      ok (s.proc.entry calls) (record s { proc = record s.proc { calls = calls } })

  unfoldable pub proc_remove : Ptr → M T (Unit {0})
  unfolding procfs
  proc_remove e = procfs (remove e) >> pure tt

module _ ⦃ht : Hashtable⦄ where
  open ht use {Table, init, add, possible}

  unfoldable pub create_proc_ums : M Table (Unit {0})
  unfolding procfs
  create_proc_ums = do
    dir ← procfs (mkdir (codes "ums") none)
    λ s. ok tt (record s { proc = record s.proc { proc_ums = dir; htable = init } })

  -- `hash_add_rcu` on `proc_ums_pids.htable`
  unfoldable pub add_pup : (pid : ℕ) → Ptr → M Table (Unit {0})
  add_pup pid none s = fault
  add_pup pid (some p) s =
      ok tt (record s { proc = record s.proc { htable = add pid p s.proc.htable } })

  -- `pid` is `current->pid`.
  unfoldable pub create_proc_ums_pid : Alloc (Pup Table) → (pid : ℕ) → M Table (Unit {0})
  unfolding store modify procfs add_pup
  create_proc_ums_pid a pid = do
    store pups a.at (some (record a.bytes { last_sched_id = 0 }))
    dir ← λ s. procfs (mkdir (print_int pid) s.proc.proc_ums) s
    modify pups a.at λ u. record u { proc_ums_pid = dir }
    add_pup pid a.at
    schedulers ← procfs (mkdir (codes "schedulers") dir)
    modify pups a.at
        λ u. record u { proc_ums_pid_schedulers = schedulers; schedulers_htable = init }

  -- One round of the loop of `create_scheduler_folder`, at the process `p`. The result is the
  -- identifier that the folder gets.
  unfoldable pub open_folder : (sched : ℕ) → (sched_pid p : ℕ) → M Table ℕ
  unfolding load procfs
  open_folder sched sched_pid p = do
    u ← load pups (some p)
    let id = u.last_sched_id
    dir ← procfs (mkdir (print_int id) u.proc_ums_pid_schedulers)
    modify folders (some sched) λ f. record f { scheduler = dir }
    modify pups (some p) λ u. record u {
      schedulers_htable = add id sched u.schedulers_htable;
      last_sched_id = inc u.last_sched_id;
    }
    info ← procfs (create (codes "info") dir)
    workers ← procfs (mkdir (codes "workers") dir)
    modify folders (some sched) λ f. record f {
      scheduler_info = info;
      workers = workers;
      sched_pid = sched_pid;
      workers_htable = init;
    }
    pure id

  -- A node that stands in a table must not be added to another one: a second round is a fault.
  unfoldable pub folder_loop : (sched : ℕ) → (sched_pid : ℕ) → List ℕ → M Table ℕ
  unfolding open_folder
  folder_loop sched sched_pid [] = pure 0
  folder_loop sched sched_pid (p ∷ []) = open_folder sched sched_pid p
  folder_loop sched sched_pid (p ∷ q ∷ ps) = λ _. fault

  unfoldable pub create_scheduler_folder :
      Alloc (Folder Table) → (sched_pid parent_pid : ℕ) → M Table ℕ
  unfolding store folder_loop
  create_scheduler_folder a sched_pid parent_pid = elim a.at [
    | none ↦ λ _. fault
    | some sched ↦ (do
      store folders (some sched) (some (record a.bytes { last_wt_id = 0 }))
      λ s. folder_loop sched sched_pid (possible s.proc.htable parent_pid) s)
  ]

  -- One round of the inner loop of `create_workers_file`, at the scheduler `q`. Its mutex has never
  -- been initialised: what `mutex_lock` does is known only where the bytes that `kmalloc` found are
  -- those of a free mutex, which `mutex_unlock` then makes it again; all else is a fault.
  unfoldable pub open_file : (w : Ptr) → (wt_pid q : ℕ) → M Table ℕ
  unfolding load procfs
  open_file none wt_pid q = λ _. fault
  open_file (some w) wt_pid q = do
    f ← load folders (some q)
    if f.unlocked
        then (do
          let id = f.last_wt_id
          file ← procfs (create (print_int id) f.workers)
          modify files (some w) λ x. record x { worker = file }
          modify folders (some q) λ f. record f {
            workers_htable = add id w f.workers_htable;
            last_wt_id = inc f.last_wt_id;
          }
          modify files (some w) λ x. record x { wt_pid = wt_pid }
          pure id)
        else (λ _. fault)

  -- The inner loop, with the identifier so far; `linked` says that the node stands in a table.
  unfoldable pub file_loop : (w : Ptr) → (wt_pid : ℕ) → List ℕ → Bool → ℕ → M Table (Bool × ℕ)
  file_loop w wt_pid [] linked last = pure (linked, last)
  file_loop w wt_pid (q ∷ qs) true last = λ _. fault
  file_loop w wt_pid (q ∷ qs) false last = do
    id ← open_file w wt_pid q
    file_loop w wt_pid qs true id

  unfoldable pub file_loops : (w : Ptr) → (wt_pid sched_id : ℕ) → List ℕ → Bool → ℕ → M Table ℕ
  unfolding load
  file_loops w wt_pid sched_id [] linked last = pure last
  file_loops w wt_pid sched_id (p ∷ ps) linked last = do
    u ← load pups (some p)
    (linked', last') ← file_loop w wt_pid (possible u.schedulers_htable sched_id) linked last
    file_loops w wt_pid sched_id ps linked' last'

  unfoldable pub create_workers_file : Alloc File → (wt_pid sched_id parent_pid : ℕ) → M Table ℕ
  unfolding store
  create_workers_file a wt_pid sched_id parent_pid = do
    elim a.at [ none ↦ pure tt | some w ↦ store files (some w) (some a.bytes) ]
    λ s. file_loops a.at wt_pid sched_id (possible s.proc.htable parent_pid) false 0 s
