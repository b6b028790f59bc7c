-- ===== src/Kernel/Core/Freed.antt =====
-- WORKERTHREADDESTROY of src/lkm/ums_core.c while a scheduler waits for the worker.
use aosv_project.Base.{ℕ, ◌≡◌, true, some, refl, ==-refl}
use aosv_project.Hashtable.{Hashtable}
use aosv_project.Kernel.Objects.{Ptr}
use aosv_project.Kernel.Outcome.{fault, ◌>>=◌, ◌>>◌}
use aosv_project.Kernel.State.{Kwt, Kst, Kernel, M, load}
use aosv_project.Kernel.Valid.{IsValid, WorkerAt, worker, scheduler}
use aosv_project.Kernel.Valid.Set.{and_then-eq}
use aosv_project.Kernel.Worker.{destroy_kworker_thread}
use aosv_project.Kernel.Worker.Registry.{get-at}
use aosv_project.Kernel.Core.{execute_begin, execute_finish}
use aosv_project.Kernel.Core.Execute.{Switched, Waiting, busy, started, execute_begin-starts}

module _ ⦃ht : Hashtable⦄ where
  open ht use {Table}

  -- A scheduler waits for a worker, another thread destroys the worker, and the scheduler goes on.
  abbrev pub destroyed_in_wait : (pid tid now later : ℕ) → M Table (Unit {0})
  destroyed_in_wait pid tid now later = do
    (kwt, kst) ← execute_begin pid tid now
    destroy_kworker_thread tid
    execute_finish kwt kst later

  finish-freed :
      (t : Kernel Table) (tid p later : ℕ) (kst : Ptr) (x : Kwt)
      → WorkerAt t tid p x
      → (destroy_kworker_thread tid >> execute_finish (some p) kst later) t ≡ fault
  unfolding destroy_kworker_thread execute_finish
  finish-freed t tid p later kst x at = rw (get-at t at, at.there, ==-refl p, load) refl

  -- In a valid state with the worker and the calling scheduler in the maps, and the worker's thread
  -- alive: if the worker is destroyed while the scheduler waits for it, the scheduler reads freed
  -- memory as soon as it goes on.
  pub destroyed_in_wait-faults :
      (s : Kernel Table) (pid tid now later : ℕ) (w : Kwt) (k : Kst)
      → IsValid s
      → worker s tid ≡ some w
      → scheduler s pid ≡ some k
      → s.alive tid ≡ true
      → destroyed_in_wait pid tid now later s ≡ fault
  destroyed_in_wait-faults s pid tid now later w k v here_w here_k lives =
      and_then-eq
        {P = λ r t.
          Switched s t tid pid (started w pid now) (busy k tid) _
          × Waiting t tid pid (started w pid now) (busy k tid) r}
        (execute_begin pid tid now s) _ fault
        (execute_begin-starts s pid tid now w k v here_w here_k lives)
        λ r t e.
          rw (e.1.pointers)
            (finish-freed t tid e.1.kwt later (some e.1.kst) (started w pid now) e.1.kwt_at)
