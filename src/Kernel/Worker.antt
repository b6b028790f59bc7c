-- ===== src/Kernel/Worker.antt =====
-- src/lkm/kworker_thread.c and the macros of src/lkm/kworker_thread.h.
pub mod Mutex
pub mod Registry
pub mod Unload
use aosv_project.Base.{
  ℕ, ◌+◌, ◌-◌, ◌%◌, Bool, true, false, Option, none, some, List, [], ◌∷◌, if◌then◌else◌, inc,
  minus_one, long_mod, is_some,
}
use aosv_project.Hashtable.{Hashtable}
use aosv_project.Interface.{wt_idle, wt_running, wt_exiting}
use aosv_project.Kernel.Objects.{Ptr, scan}
use aosv_project.Kernel.Outcome.{ok, fault, blocked, pure, ◌>>=◌, ◌>>◌}
use aosv_project.Kernel.State.{Kwt, Alloc, M, workers, load, store, modify, free, wake_up_process}

abbrev pub kwt_tid : Kwt → ℕ
kwt_tid w = w.tid

module _ {T : Type 0} where
  unfoldable pub mutex_lock : Ptr → M T (Unit {0})
  unfolding load store
  mutex_lock kwt = do
    w ← load workers kwt
    if w.mutex then (λ _. blocked) else store workers kwt (some (record w { mutex = true }))

  unfoldable pub mutex_trylock : Ptr → M T Bool
  unfolding load store
  mutex_trylock kwt = do
    w ← load workers kwt
    if w.mutex
        then pure false
        else (store workers kwt (some (record w { mutex = true })) >> pure true)

  unfoldable pub mutex_unlock : Ptr → M T (Unit {0})
  unfolding modify
  mutex_unlock kwt = modify workers kwt λ w. record w { mutex = false }

  -- `now` is what `ktime_get` returns.
  unfoldable pub set_kwt_in_running_state : Ptr → (tid now : ℕ) → M T (Unit {0})
  unfolding modify
  set_kwt_in_running_state kwt tid now =
      modify workers kwt
        λ w. record w { state = wt_running; last_measured = now; curr_sched_tid = tid }

  unfoldable pub set_kwt_in_idle_state : Ptr → M T (Unit {0})
  unfolding modify
  set_kwt_in_idle_state kwt =
      modify workers kwt λ w. record w { nswitches = inc w.nswitches; state = wt_idle }

  unfoldable pub set_kwt_in_exiting_state : Ptr → M T (Unit {0})
  unfolding modify
  set_kwt_in_exiting_state kwt = modify workers kwt λ w. record w { state = wt_exiting }

  -- The result is `elapsed_wt_running`.
  unfoldable pub update_time_measured : Ptr → (now : ℕ) → M T ℕ
  unfolding load modify
  update_time_measured kwt now = do
    w ← load workers kwt
    let elapsed = (now + long_mod - w.last_measured) % long_mod
    modify workers kwt λ v. record v {
      total_measured = (v.total_measured + elapsed) % long_mod;
      last_measured = now;
    }
    pure elapsed

  unfoldable pub wake_up_scheduler : Ptr → M T (Unit {0})
  unfolding load modify wake_up_process
  wake_up_scheduler kwt = do
    w ← load workers kwt
    wake_up_process w.curr_sched_tid
    modify workers kwt λ v. record v { curr_sched_tid = minus_one }

module _ ⦃ht : Hashtable⦄ where
  open ht use {Table, add, del, possible, nodes}

  -- `hash_add_rcu` on `wt_htable`
  unfoldable pub add_kwt : (tid : ℕ) → Ptr → M Table (Unit {0})
  add_kwt tid none s = fault
  add_kwt tid (some p) s = ok tt (record s { wt_htable = add tid p s.wt_htable })

  -- The bytes that the function does not write keep what `kmalloc` found there.
  unfoldable pub create_worker_thread : Alloc Kwt → (tid : ℕ) → M Table (Unit {0})
  unfolding store add_kwt
  create_worker_thread a tid = do
    store workers a.at (
        some (record a.bytes {
          tid = tid;
          state = wt_idle;
          nswitches = 0;
          total_measured = 0;
          mutex = false;
          clid_list = [];
          curr_sched_tid = minus_one;
        }))
    add_kwt tid a.at

  unfoldable pub get_kworker_thread : ℕ → M Table Ptr
  get_kworker_thread tid s = elim (scan kwt_tid s.kwts tid (possible s.wt_htable tid)) [
    | none ↦ fault
    | some r ↦ ok r s
  ]

  -- `cle` is what `kmalloc` returns for the new `clid_list_elem`.
  unfoldable pub worker_thread_add_clid : (cle : Ptr) → (tid clid : ℕ) → M Table (Unit {0})
  unfolding mutex_lock modify mutex_unlock
  worker_thread_add_clid cle tid clid = do
    kwt ← get_kworker_thread tid
    if is_some cle
        then (do
          mutex_lock kwt
          modify workers kwt λ w. record w { clid_list = clid ∷ w.clid_list }
          mutex_unlock kwt)
        else (λ _. fault)

  -- `none` is the result -1.
  unfoldable pub kworker_thread_copy : ℕ → M Table (Option Kwt)
  unfolding load
  kworker_thread_copy tid = do
    kwt ← get_kworker_thread tid
    if is_some kwt then (do w ← load workers kwt; pure (some w)) else pure none

  -- `hash_del` and `kfree` on a worker
  unfoldable pub discard_kwt : ℕ → M Table (Unit {0})
  unfolding free
  discard_kwt p = do free workers (some p); λ s. ok tt (record s { wt_htable = del p s.wt_htable })

  unfoldable pub destroy_kworker_thread : ℕ → M Table (Unit {0})
  unfolding discard_kwt
  destroy_kworker_thread tid = do
    kwt ← get_kworker_thread tid
    elim kwt [ none ↦ pure tt | some p ↦ discard_kwt p ]

  discard_all : List ℕ → M Table (Unit {0})
  unfolding discard_kwt
  discard_all [] = pure tt
  discard_all (p ∷ ps) = do discard_kwt p; discard_all ps

  unfoldable pub destroy_kwt_htable : M Table (Unit {0})
  unfolding discard_all
  destroy_kwt_htable s = discard_all (nodes s.wt_htable) s
