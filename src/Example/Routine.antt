-- ===== src/Example/Routine.antt =====
-- `f` of src/example/main.c, the routine of the workers, as `ums_create_worker_thread_aux` runs it.
use aosv_project.Library.{WorkerThread, yield}
use aosv_project.Library.Calls.{System}
use aosv_project.Library.Threads.Routine.{after}

module _ {D Cpu Routine : Type 0} (sys : System D Cpu) (self : D → WorkerThread Cpu Routine) where
  -- A worker that is woken in the state `e` takes the processors that its structure holds there.
  abbrev pub placed : D → D
  placed e = sys.sched_setaffinity (self e).cpu_set e

  -- A yield that succeeds: the request, and what the worker does when it is woken.
  abbrev pub yielded : D → D
  yielded d = placed (after sys (yield (self d).tid) d)
