-- ===== src/Library/Calls.antt =====
-- The calls of src/lib/ums.c that schedulers, workers and the whole program make.
use aosv_project.Base.{ℕ, List, if◌then◌else◌, minus_one}
use aosv_project.Library.{
  WorkerThread, CompletionList, Ioctl, is_negative, start, enter, dequeue_list, execute, yield,
  destroy_list, destroy_worker, destroy_scheduler, finish,
}

-- The system's calls, over the state `D` of the system.
pub record System (D Cpu : Type 0) : Type 0 where
  pub open_device : D → ℕ × D
  pub close : D → ℕ × D
  pub ioctl : Ioctl D
  pub sched_setaffinity : Cpu → D → D

-- `dequeue_completion_list_args`
pub record DequeueArgs : Type 0 where
  pub clc : ℕ
  pub n : ℕ
  pub wt_ready_tid : List ℕ

module _ {D Cpu : Type 0} (sys : System D Cpu) where
  -- `scheduler_proc` is what the procedure of that name does to the system.
  unfoldable pub enter_ums_scheduling_mode :
      CompletionList → Cpu → (scheduler_proc : D → D) → D → ℕ × D
  enter_ums_scheduling_mode list cpu_set scheduler_proc d =
      let (r, _, e) = sys.ioctl (enter list.clc) (sys.sched_setaffinity cpu_set d) in
      let (q, _, f) = sys.ioctl destroy_scheduler (scheduler_proc e) in
      if is_negative r then (minus_one, e) else (if is_negative q then (minus_one, f) else (0, f))

  unfoldable pub dequeue_ums_completion_list_items :
      DequeueArgs → CompletionList → D → ℕ × DequeueArgs × D
  dequeue_ums_completion_list_items args list d =
      let asked = record args { clc = list.clc } in
      let (r, reply, e) = sys.ioctl (dequeue_list list.clc) d in
      if is_negative r
      then (minus_one, asked, e)
      else (0, record asked { n = reply.n; wt_ready_tid = reply.wt_ready_tid }, e)

  unfoldable pub ums_init : D → ℕ × D
  ums_init d =
      let (descriptor, e) = sys.open_device d in
      let (r, _, f) = sys.ioctl start e in
      if is_negative descriptor
      then (minus_one, e)
      else (if is_negative r then (minus_one, f) else (0, f))

  unfoldable pub ums_destroy : D → ℕ × D
  ums_destroy d =
      let (r, _, e) = sys.ioctl finish d in if is_negative r then (minus_one, e) else sys.close e

  unfoldable pub ums_completion_list_destroy : CompletionList → D → ℕ × D
  ums_completion_list_destroy list d =
      let (r, _, e) = sys.ioctl (destroy_list list.clc) d in
      if is_negative r then (minus_one, e) else (0, e)

  module _ {Routine : Type 0} where
    unfoldable pub execute_ums_thread :
        WorkerThread Cpu Routine → Cpu → D → ℕ × WorkerThread Cpu Routine × D
    execute_ums_thread wt cpu_set d =
        let wt' = record wt { cpu_set = cpu_set } in
        let (r, _, e) = sys.ioctl (execute wt.tid) d in
        if is_negative r then (minus_one, wt', e) else (0, wt', e)

    -- `self` is a pointer to memory that other threads write: what it reads depends on the state.
    unfoldable pub ums_thread_yield : (self : D → WorkerThread Cpu Routine) → D → ℕ × D
    ums_thread_yield self d =
        let (r, _, e) = sys.ioctl (yield (self d).tid) d in
        if is_negative r then (minus_one, e) else (0, sys.sched_setaffinity (self e).cpu_set e)

    unfoldable pub ums_worker_thread_destroy : WorkerThread Cpu Routine → D → ℕ × D
    ums_worker_thread_destroy wt d =
        let (r, _, e) = sys.ioctl (destroy_worker wt.tid) d in
        if is_negative r then (minus_one, e) else (0, e)
