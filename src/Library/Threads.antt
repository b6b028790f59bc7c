-- ===== src/Library/Threads.antt =====
-- `ums_create_worker_thread` of src/lib/ums.c before and after the meeting of its two threads, which
-- Library/Create.antt takes step by step, and the rest of the new thread,
-- `ums_create_worker_thread_aux`. A pointer to a worker is what it reads in a state of the system,
-- since other threads write there.
pub mod Routine
pub mod Start
use aosv_project.Base.{ℕ, Bool, Option, none, some, ◌==◌, not, if◌then◌else◌, minus_one}
use aosv_project.Library.{
  WorkerThread, is_negative, create_worker, wait_worker, exit_worker, worker_thread_init,
}
use aosv_project.Library.Calls.{System}

-- The calls of pthreads that the creating thread makes before its loop, over the state of the system;
-- each gives its result. A result other than 0 says that nothing was made.
pub record Pthreads (D : Type 0) : Type 0 where
  pub cond_init : D → ℕ × D
  pub mutex_init : D → ℕ × D
  pub create : D → ℕ × D

module _ {D Cpu Routine : Type 0} where
  module _ (sys : System D Cpu) where
    -- The new thread from CREATEWORKERTHREAD on; `routine` is what `wt->worker_routine(wt)` does.
    unfoldable pub ums_create_worker_thread_aux :
        (parent_tid : ℕ) → (wt : D → WorkerThread Cpu Routine) → (routine : D → D) → D → ℕ × D
    ums_create_worker_thread_aux parent_tid wt routine d =
        let (r, _, e) = sys.ioctl (create_worker parent_tid (wt d).tid) d in
        let ran = routine (sys.sched_setaffinity (wt e).cpu_set e) in
        let (q, _, f) = sys.ioctl (exit_worker (wt ran).tid) ran in
        if is_negative r then (minus_one, e) else (if is_negative q then (minus_one, f) else (0, f))

    -- The creating thread from WAITWTCREATION on.
    unfoldable pub wait_wt_creation : (wt : D → WorkerThread Cpu Routine) → D → ℕ × D
    wait_wt_creation wt d =
        let (r, _, e) = sys.ioctl (wait_worker (wt d).tid) d in
        if is_negative r then (minus_one, e) else (0, e)

  -- The creating thread up to its loop: `none` where it has returned -1, and otherwise whether
  -- `pthread_create` has made the new thread. The result of that call is not looked at, so the
  -- creating thread goes on to its loop in both cases.
  unfoldable pub ums_create_worker_thread :
      Pthreads D
      → WorkerThread Cpu Routine
      → Routine
      → D
      → Option Bool × WorkerThread Cpu Routine × D
  unfolding worker_thread_init
  ums_create_worker_thread pthreads wt routine d =
      let fresh = worker_thread_init wt routine in
      let (c, e) = pthreads.cond_init d in
      let (m, f) = pthreads.mutex_init e in
      let (r, g) = pthreads.create f in
      if not (c == 0)
      then (none, fresh, e)
      else (if not (m == 0) then (none, fresh, f) else (some (r == 0), fresh, g))
