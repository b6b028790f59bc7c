-- ===== src/Kernel/Scheduler.antt =====
-- src/lkm/ksched_thread.c and the macros of src/lkm/ksched_thread.h.
pub mod Registry
pub mod Unload
use aosv_project.Base.{ℕ, Option, none, some, List, [], ◌∷◌, if◌then◌else◌, inc, is_some, ◌==◌}
use aosv_project.Hashtable.{Hashtable}
use aosv_project.Interface.{wt_running}
use aosv_project.Kernel.Objects.{Ptr, scan}
use aosv_project.Kernel.Outcome.{ok, fault, blocked, pure, ◌>>=◌, ◌>>◌}
use aosv_project.Kernel.State.{
  Kst, Alloc, M, workers, schedulers, load, store, modify, free, wake_up_process,
}

abbrev pub kst_tid : Kst → ℕ
kst_tid k = k.tid

module _ {T : Type 0} where
  unfoldable pub set_kst_in_running_state : Ptr → (wt : ℕ) → M T (Unit {0})
  unfolding modify
  set_kst_in_running_state kst wt =
      modify schedulers kst
        λ k. record k { nswitches = inc k.nswitches; wt_running = wt; running = 1 }

  unfoldable pub set_kst_in_idle_state : Ptr → (elapsed : ℕ) → M T (Unit {0})
  unfolding modify
  set_kst_in_idle_state kst elapsed =
      modify schedulers kst λ k. record k { elapsed_wt_running = elapsed; running = 0 }

  -- The `while` loop: the thread sleeps again for as long as the worker runs.
  unfoldable pub wait_worker_thread : Ptr → M T (Unit {0})
  unfolding load
  wait_worker_thread kwt = do
    w ← load workers kwt
    if w.state == wt_running then (λ _. blocked) else pure tt

  unfoldable pub wake_up_worker : Ptr → M T (Unit {0})
  unfolding load wake_up_process
  wake_up_worker kwt = do w ← load workers kwt; wake_up_process w.tid

module _ ⦃ht : Hashtable⦄ where
  open ht use {Table, add, del, possible, nodes}

  -- `hash_add_rcu` on `st_htable`
  unfoldable pub add_kst : (tid : ℕ) → Ptr → M Table (Unit {0})
  add_kst tid none s = fault
  add_kst tid (some p) s = ok tt (record s { st_htable = add tid p s.st_htable })

  -- `pid` is `current->pid`. The function does not write `proc_id` and `wt_running`.
  unfoldable pub create_sched_thread : Alloc Kst → (pid clid : ℕ) → M Table (Unit {0})
  unfolding store add_kst
  create_sched_thread a pid clid = do
    store schedulers a.at (
        some (record a.bytes {
          tid = pid;
          running = 0;
          elapsed_wt_running = 0;
          nswitches = 0;
          clc = clid;
        }))
    add_kst pid a.at

  unfoldable pub get_ksched_thread : ℕ → M Table Ptr
  get_ksched_thread tid s = elim (scan kst_tid s.ksts tid (possible s.st_htable tid)) [
    | none ↦ fault
    | some r ↦ ok r s
  ]

  -- `none` is the result -1.
  unfoldable pub ksched_thread_copy : ℕ → M Table (Option Kst)
  unfolding load
  ksched_thread_copy tid = do
    kst ← get_ksched_thread tid
    if is_some kst then (do k ← load schedulers kst; pure (some k)) else pure none

  -- `hash_del` and `kfree` on a scheduler
  unfoldable pub discard_kst : Ptr → M Table (Unit {0})
  unfolding free
  discard_kst none = λ _. fault
  discard_kst (some p) = do
    free schedulers (some p)
    λ s. ok tt (record s { st_htable = del p s.st_htable })

  -- The pointer -1 of an unknown scheduler is read.
  unfoldable pub destroy_ksched_thread : ℕ → M Table (Unit {0})
  unfolding discard_kst
  destroy_ksched_thread tid = do kst ← get_ksched_thread tid; discard_kst kst

  discard_all : List ℕ → M Table (Unit {0})
  unfolding discard_kst
  discard_all [] = pure tt
  discard_all (p ∷ ps) = do discard_kst (some p); discard_all ps

  unfoldable pub destroy_kst_htable : M Table (Unit {0})
  unfolding discard_all
  destroy_kst_htable s = discard_all (nodes s.st_htable) s
