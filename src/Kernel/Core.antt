-- ===== src/Kernel/Core.antt =====
-- The requests of `ums_ioctl` in src/lkm/ums_core.c, each cut where its thread calls `schedule`.
-- `pid` is `current->pid`, `now` is what `ktime_get` returns.
pub mod Execute
pub mod Finish
pub mod Switch
pub mod Exit
pub mod Slice
pub mod Wait
pub mod Link
pub mod Ioctl
pub mod Freed
use aosv_project.Base.{ℕ, List, ◌||◌, if◌then◌else◌, ◌==◌, is_positive, is_some, Bool}
use aosv_project.Hashtable.{Hashtable}
use aosv_project.Interface.{wt_idle}
use aosv_project.Kernel.Objects.{Ptr}
use aosv_project.Kernel.Outcome.{blocked, pure, ◌>>=◌, ◌>>◌}
use aosv_project.Kernel.State.{Kwt, Alloc, M, workers, schedulers, lists, load, wake_up_process}
use aosv_project.Kernel.Worker.{
  get_kworker_thread, create_worker_thread, worker_thread_add_clid, mutex_unlock,
  set_kwt_in_running_state, set_kwt_in_idle_state, set_kwt_in_exiting_state, update_time_measured,
  wake_up_scheduler,
}
use aosv_project.Kernel.Scheduler.{
  get_ksched_thread, set_kst_in_running_state, set_kst_in_idle_state, wait_worker_thread,
  wake_up_worker,
}
use aosv_project.Kernel.CompletionList.{
  get_kcompletion_list, add_worker_thread, get_wt_ready_queue, for_each_inc_kcl_threads_ready,
  for_each_dec_kcl_nthreads, wake_up_schedulers,
}

module _ ⦃ht : Hashtable⦄ where
  open ht use {Table}

  -- CREATEWORKERTHREAD, up to the sleep that ends it
  unfoldable pub create_request : Alloc Kwt → (parent_tid tid : ℕ) → M Table (Unit {0})
  unfolding create_worker_thread wake_up_process
  create_request a parent_tid tid = do create_worker_thread a tid; wake_up_process parent_tid

  -- WAITWTCREATION: the thread sleeps again until the worker is there.
  unfoldable pub wait_creation : (tid : ℕ) → M Table (Unit {0})
  unfolding load
  wait_creation tid = do
    kwt ← get_kworker_thread tid
    if is_some kwt then (do w ← load workers kwt; pure tt) else (λ _. blocked)

  -- DEQUEUECOMPLLIST: the condition of `wait_event_interruptible`, then one round. The loop goes
  -- round again, which changes nothing, while the round finds no worker. Each try looks the list up
  -- again, where the source keeps its pointer. `signal` says whether a signal is pending: it ends the
  -- wait as well, and since the result of the wait is not looked at, the round runs and the loop goes on.
  unfoldable pub dequeue : (signal : Bool) → (clid : ℕ) → List ℕ → M Table (ℕ × List ℕ)
  unfolding load
  dequeue signal clid out = do
    kcl ← get_kcompletion_list clid
    c ← load lists kcl
    if signal || (is_positive c.threads_ready || c.nthreads == 0)
        then (do
          (n, out') ← get_wt_ready_queue clid out
          if n == 0 then (λ _. blocked) else pure (n, out'))
        else (λ _. blocked)

  -- COMPLLISTADD
  unfoldable pub list_add : (cle kcle : Ptr) → (tid clid : ℕ) → M Table (Unit {0})
  list_add cle kcle tid clid = do
    worker_thread_add_clid cle tid clid
    add_worker_thread kcle tid clid

  -- EXECUTEUMSTHREAD, up to `wait_worker_thread`
  unfoldable pub execute_begin : (pid tid now : ℕ) → M Table (Ptr × Ptr)
  unfolding load set_kst_in_running_state set_kwt_in_running_state
  execute_begin pid tid now = do
    kwt ← get_kworker_thread tid
    kst ← get_ksched_thread pid
    set_kst_in_running_state kst tid
    k ← load schedulers kst
    set_kwt_in_running_state kwt k.tid now
    wake_up_worker kwt
    pure (kwt, kst)

  -- The end of EXECUTEUMSTHREAD, after the scheduler is idle again
  unfoldable pub release_worker : (kwt : Ptr) → M Table (Unit {0})
  unfolding load
  release_worker kwt = do
    w ← load workers kwt
    if w.state == wt_idle then for_each_inc_kcl_threads_ready kwt else pure tt
    wake_up_schedulers kwt
    mutex_unlock kwt

  -- EXECUTEUMSTHREAD, from `wait_worker_thread` on
  unfoldable pub execute_finish : (kwt kst : Ptr) → (now : ℕ) → M Table (Unit {0})
  unfolding wait_worker_thread
  execute_finish kwt kst now = do
    wait_worker_thread kwt
    elapsed ← update_time_measured kwt now
    set_kst_in_idle_state kst elapsed
    release_worker kwt

  -- UMSTHREADTYIELD, up to the sleep that ends it
  unfoldable pub thread_yield : (tid : ℕ) → M Table (Unit {0})
  thread_yield tid = do
    kwt ← get_kworker_thread tid
    set_kwt_in_idle_state kwt
    wake_up_scheduler kwt

  -- WORKERTHREADEXIT
  unfoldable pub thread_exit : (tid : ℕ) → M Table (Unit {0})
  thread_exit tid = do
    kwt ← get_kworker_thread tid
    set_kwt_in_exiting_state kwt
    for_each_dec_kcl_nthreads kwt
    wake_up_scheduler kwt
