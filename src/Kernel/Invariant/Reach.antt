-- ===== src/Kernel/Invariant/Reach.antt =====
-- Every request of src/lkm/ums_core.c keeps a state valid, and so does every history of them.
use aosv_project.Base.{ℕ, Bool, ◌+◌, ◌<◌, ◌^◌, ◌≡◌, none}
use aosv_project.Hashtable.{Hashtable}
use aosv_project.Kernel.Entries.{Folder, File}
use aosv_project.Kernel.Objects.{Ptr}
use aosv_project.Kernel.Outcome.{ok, pure, ◌>>=◌}
use aosv_project.Kernel.State.{Kwt, Kst, Kernel, Alloc, M}
use aosv_project.Kernel.Valid.{IsValid, worker, scheduler}
use aosv_project.Kernel.Valid.Keep.{After, After-ok, After-and_then}
use aosv_project.Kernel.Worker.{create_worker_thread, destroy_kworker_thread}
use aosv_project.Kernel.Scheduler.{create_sched_thread, destroy_ksched_thread}
use aosv_project.Kernel.CompletionList.{init_completion_list, destroy_completion_list}
use aosv_project.Kernel.Core.{
  create_request, wait_creation, dequeue, list_add, execute_begin, execute_finish, thread_yield,
  thread_exit,
}
use aosv_project.Kernel.Core.Ioctl.{
  Request, Reply, umsinit, umsinitcompllist, enterumsschedmode, createworkerthread, waitwtcreation,
  dequeuecompllist, compllistadd, executeumsthread, umsthreadtyield, workerthreadexit,
  compllistdestroy, workerthreaddestroy, schedthreaddestroy, umsdestroy, other, enter_sched_mode,
  ums_ioctl,
}
use aosv_project.Kernel.Proc.{create_proc_ums_pid}
use aosv_project.Kernel.Proc.Remove.{remove_proc_ums_pid}
use aosv_project.Kernel.Invariant.Registries.{Keeps-wake_up_process}
use aosv_project.Kernel.Invariant.Tree.{Keeps-create_proc_ums_pid, Keeps-remove_proc_ums_pid}
use aosv_project.Kernel.Invariant.Requests.{
  Keeps-wait_creation, Keeps-dequeue, Keeps-list_add, Keeps-execute_begin, Keeps-execute_finish,
  Keeps-thread_yield, Keeps-thread_exit, Keeps-enter_rest,
}
use aosv_project.Kernel.Invariant.Lifetime.{
  Fresh, create_worker_thread-After, create_sched_thread-After, init_completion_list-After,
  destroy_kworker_thread-After, destroy_ksched_thread-After, destroy_completion_list-After,
}

module _ ⦃ht : Hashtable⦄ where
  open ht use {Table, nodes}

  -- What a request asks of the state: what is made is new, and the next identifier of a list is an
  -- `int` of its own.
  abbrev pub IsAdmissible : Kernel Table → (pid : ℕ) → Request Table → Type 0
  IsAdmissible s pid (umsinitcompllist a) =
      Fresh a s.compl_list_htable × (s.compl_list_last_id + 1 < 2 ^ 32)
  IsAdmissible s pid (enterumsschedmode clid a folder files) =
      Fresh a s.st_htable × (scheduler s pid ≡ none)
  IsAdmissible s pid (createworkerthread a parent_tid tid) =
      Fresh a s.wt_htable × (worker s tid ≡ none)
  IsAdmissible s pid r = Unit

  pub enter_sched_mode-After :
      (s : Kernel Table) (pid leader clid : ℕ) (a : Alloc Kst) (folder : Alloc (Folder Table))
      (files : ℕ → Alloc File)
      → IsValid s
      → Fresh a s.st_htable
      → scheduler s pid ≡ none
      → After IsValid (enter_sched_mode pid leader clid a folder files s)
  unfolding enter_sched_mode
  enter_sched_mode-After s pid leader clid a folder files v fresh free =
      After-and_then IsValid IsValid (create_sched_thread a pid clid s) _
        (create_sched_thread-After s v a pid clid fresh free)
        λ _ t. (Keeps-enter_rest pid leader clid folder files).at t

  create_request-After :
      (s : Kernel Table) (a : Alloc Kwt) (parent_tid tid : ℕ)
      → IsValid s
      → Fresh a s.wt_htable
      → worker s tid ≡ none
      → After IsValid (create_request a parent_tid tid s)
  unfolding create_request
  create_request-After s a parent_tid tid v fresh free =
      After-and_then IsValid IsValid (create_worker_thread a tid s) _
        (create_worker_thread-After s v a tid fresh free)
        λ _ t. (Keeps-wake_up_process parent_tid).at t

  -- Code in front of a result.
  replies :
      {A : Type 0} (m : M Table A) (f : A → Reply) (s : Kernel Table)
      → After IsValid (m s)
      → After IsValid ((m >>= λ a. pure (f a)) s)
  replies m f s after = After-and_then IsValid IsValid (m s) _ after λ a t v. v

  ums_ioctl-After :
      (s : Kernel Table) (pid leader now : ℕ) (r : Request Table)
      → IsValid s
      → IsAdmissible s pid r
      → After IsValid (ums_ioctl pid leader now r s)
  unfolding ums_ioctl
  ums_ioctl-After s pid leader now (umsinit a) v h =
      replies (create_proc_ums_pid a pid) _ s ((Keeps-create_proc_ums_pid a pid).at s v)
  ums_ioctl-After s pid leader now (umsinitcompllist a) v (fresh, room) =
      replies (init_completion_list a) _ s (init_completion_list-After s v a fresh room)
  ums_ioctl-After s pid leader now (enterumsschedmode clid a folder files) v (fresh, free) =
      replies (enter_sched_mode pid leader clid a folder files) _ s
        (enter_sched_mode-After s pid leader clid a folder files v fresh free)
  ums_ioctl-After s pid leader now (createworkerthread a parent_tid tid) v (fresh, free) =
      replies (create_request a parent_tid tid) _ s
        (create_request-After s a parent_tid tid v fresh free)
  ums_ioctl-After s pid leader now (waitwtcreation tid) v h =
      replies (wait_creation tid) _ s ((Keeps-wait_creation tid).at s v)
  ums_ioctl-After s pid leader now (dequeuecompllist signal clid out) v h =
      replies (dequeue signal clid out) _ s ((Keeps-dequeue signal clid out).at s v)
  ums_ioctl-After s pid leader now (compllistadd cle kcle tid clid) v h =
      replies (list_add cle kcle tid clid) _ s ((Keeps-list_add cle kcle tid clid).at s v)
  ums_ioctl-After s pid leader now (executeumsthread tid) v h =
      replies (execute_begin pid tid now) _ s ((Keeps-execute_begin pid tid now).at s v)
  ums_ioctl-After s pid leader now (umsthreadtyield tid) v h =
      replies (thread_yield tid) _ s ((Keeps-thread_yield tid).at s v)
  ums_ioctl-After s pid leader now (workerthreadexit tid) v h =
      replies (thread_exit tid) _ s ((Keeps-thread_exit tid).at s v)
  ums_ioctl-After s pid leader now (compllistdestroy clid) v h =
      replies (destroy_completion_list clid) _ s (destroy_completion_list-After s v clid)
  ums_ioctl-After s pid leader now (workerthreaddestroy tid) v h =
      replies (destroy_kworker_thread tid) _ s (destroy_kworker_thread-After s v tid)
  ums_ioctl-After s pid leader now schedthreaddestroy v h =
      replies (destroy_ksched_thread pid) _ s (destroy_ksched_thread-After s v pid)
  ums_ioctl-After s pid leader now umsdestroy v h =
      replies remove_proc_ums_pid _ s (Keeps-remove_proc_ums_pid.at s v)
  ums_ioctl-After s pid leader now (other request) v h = v

  -- One thread's run up to where it sleeps or returns: a request, or what is left of
  -- EXECUTEUMSTHREAD for a scheduler that waited. The kernel's other threads change `alive`.
  pub data Step (s : Kernel Table) : Kernel Table → Type 0 where
    request :
        (pid leader now : ℕ) (r : Request Table) {a : Reply} {t : Kernel Table}
        → IsAdmissible s pid r
        → ums_ioctl pid leader now r s ≡ ok a t
        → Step s t
    resume :
        (kwt kst : Ptr) (now : ℕ) {t : Kernel Table}
        → execute_finish kwt kst now s ≡ ok tt t
        → Step s t
    threads : (alive : ℕ → Bool) → Step s (record s { alive = alive })

  pub data Reachable (s : Kernel Table) : Kernel Table → Type 0 where
    start : Reachable s s
    later : {t u : Kernel Table} → Reachable s t → Step t u → Reachable s u

  -- A request that ends well on a valid state leaves a valid state, whatever the request is and
  -- whatever pointers and identifiers it comes with: the table of each registry still leads to one
  -- live object for each key, and the identifiers of lists are below the next one. What the request
  -- makes must be new: its address stands in no table, a new worker or scheduler is not yet there,
  -- and the identifiers of lists are not used up.
  pub ums_ioctl-IsValid :
      (s t : Kernel Table) (pid leader now : ℕ) (r : Request Table) (a : Reply)
      → IsValid s
      → IsAdmissible s pid r
      → ums_ioctl pid leader now r s ≡ ok a t
      → IsValid t
  ums_ioctl-IsValid s t pid leader now r a v h e =
      After-ok IsValid (ums_ioctl-After s pid leader now r v h) e

  Step-IsValid : {s t : Kernel Table} → Step s t → IsValid s → IsValid t
  Step-IsValid {s} {t} (request pid leader now r {a} h e) v =
      ums_ioctl-IsValid s t pid leader now r a v h e
  Step-IsValid {s} (resume kwt kst now e) v =
      After-ok IsValid ((Keeps-execute_finish kwt kst now).at s v) e
  Step-IsValid (threads alive) v = record {
    workers = v.workers;
    schedulers = v.schedulers;
    lists = v.lists;
    recent = v.recent;
  }

  -- Every state that a history of requests reaches from a valid state is valid, in whatever order
  -- the threads come, sleep and go on, and whatever threads live. Each request of the history must
  -- make only what is new. A scheduler that goes on may hold any two pointers.
  pub Reachable-IsValid : (s t : Kernel Table) → IsValid s → Reachable s t → IsValid t
  Reachable-IsValid s _ v start = v
  Reachable-IsValid s u v (later {t} before step) =
      Step-IsValid step (Reachable-IsValid s t v before)
