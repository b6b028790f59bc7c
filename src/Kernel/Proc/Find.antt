-- ===== src/Kernel/Proc/Find.antt =====
-- The lookups of src/lkm/ums_proc.c: a directory or a file by its identifiers.
use aosv_project.Base.{ℕ, none, some, List, [], ◌∷◌}
use aosv_project.Hashtable.{Hashtable}
use aosv_project.Kernel.Objects.{Ptr}
use aosv_project.Kernel.Outcome.{pure, ◌>>=◌}
use aosv_project.Kernel.State.{M, pups, folders, load}

module _ ⦃ht : Hashtable⦄ where
  open ht use {Table, possible}

  -- The first folder in the buckets of a list of processes; no key is compared.
  unfoldable pub first_folder : (sched_id : ℕ) → List ℕ → M Table Ptr
  unfolding load
  first_folder sched_id [] = pure none
  first_folder sched_id (p ∷ ps) = do
    u ← load pups (some p)
    elim (possible u.schedulers_htable sched_id) [
      | [] ↦ first_folder sched_id ps
      | q ∷ _ ↦ pure (some q)
    ]

  unfoldable pub get_scheduler : (sched_id parent_pid : ℕ) → M Table Ptr
  unfolding first_folder
  get_scheduler sched_id parent_pid s = first_folder sched_id (possible s.proc.htable parent_pid) s

  unfoldable pub first_file : (wt_id : ℕ) → List ℕ → M Table Ptr
  unfolding load
  first_file wt_id [] = pure none
  first_file wt_id (q ∷ qs) = do
    f ← load folders (some q)
    elim (possible f.workers_htable wt_id) [ [] ↦ first_file wt_id qs | w ∷ _ ↦ pure (some w) ]

  unfoldable pub first_file_of : (wt_id sched_id : ℕ) → List ℕ → M Table Ptr
  unfolding load first_file
  first_file_of wt_id sched_id [] = pure none
  first_file_of wt_id sched_id (p ∷ ps) = do
    u ← load pups (some p)
    w ← first_file wt_id (possible u.schedulers_htable sched_id)
    elim w [ none ↦ first_file_of wt_id sched_id ps | some x ↦ pure (some x) ]

  unfoldable pub get_worker : (wt_id sched_id parent_pid : ℕ) → M Table Ptr
  unfolding first_file_of
  get_worker wt_id sched_id parent_pid s =
      first_file_of wt_id sched_id (possible s.proc.htable parent_pid) s
