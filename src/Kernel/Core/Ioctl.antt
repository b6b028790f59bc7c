-- ===== src/Kernel/Core/Ioctl.antt =====
-- `ums_ioctl` of src/lkm/ums_core.c: ENTERUMSSCHEDMODE, and the switch over all requests.
use aosv_project.Base.{ℕ, suc, List, [], ◌∷◌, Bool}
use aosv_project.Hashtable.{Hashtable}
use aosv_project.Kernel.Entries.{Pup, Folder, File}
use aosv_project.Kernel.Objects.{Ptr}
use aosv_project.Kernel.Outcome.{pure, ◌>>=◌, ◌>>◌}
use aosv_project.Kernel.State.{Kwt, Kst, Kcl, Alloc, M, schedulers, lists, load, modify}
use aosv_project.Kernel.Worker.{destroy_kworker_thread}
use aosv_project.Kernel.Scheduler.{create_sched_thread, get_ksched_thread, destroy_ksched_thread}
use aosv_project.Kernel.CompletionList.{
  get_kcompletion_list, init_completion_list, destroy_completion_list,
}
use aosv_project.Kernel.Proc.{create_proc_ums_pid, create_scheduler_folder, create_workers_file}
use aosv_project.Kernel.Proc.Remove.{remove_proc_ums_pid}
use aosv_project.Kernel.Proc.Info.{einval}
use aosv_project.Kernel.Core.{
  create_request, wait_creation, dequeue, list_add, execute_begin, thread_yield, thread_exit,
}

-- The value of `request`, with what `copy_from_user` reads for it and what `kmalloc` returns, and
-- whether a signal is pending where the code sleeps until one comes.
pub data Request (T : Type 0) : Type 0 where
  umsinit : Alloc (Pup T) → Request T
  umsinitcompllist : Alloc (Kcl T) → Request T
  enterumsschedmode :
      (clid : ℕ) → Alloc Kst → Alloc (Folder T) → (files : ℕ → Alloc File) → Request T
  createworkerthread : Alloc Kwt → (parent_tid tid : ℕ) → Request T
  waitwtcreation : (tid : ℕ) → Request T
  dequeuecompllist : (signal : Bool) → (clid : ℕ) → (wt_ready_tid : List ℕ) → Request T
  compllistadd : (cle kcle : Ptr) → (tid clid : ℕ) → Request T
  executeumsthread : (tid : ℕ) → Request T
  umsthreadtyield : (tid : ℕ) → Request T
  workerthreadexit : (tid : ℕ) → Request T
  compllistdestroy : (clid : ℕ) → Request T
  workerthreaddestroy : (tid : ℕ) → Request T
  schedthreaddestroy : Request T
  umsdestroy : Request T
  other : (request : ℕ) → Request T

-- Where the code hands the thread back: the result of the call, with what `copy_to_user` writes
-- before it; the `schedule` before the result 0; or the wait for a worker that runs.
pub data Reply : Type 0 where
  returned : (result : ℕ) → Reply
  returned_list : (id : ℕ) → Reply
  returned_ready : (n : ℕ) → (wt_ready_tid : List ℕ) → Reply
  asleep : Reply
  waits : (kwt kst : Ptr) → Reply

module _ ⦃ht : Hashtable⦄ where
  open ht use {Table, nodes}

  -- `hash_for_each_rcu` over the queue, with the number of rounds that are over
  unfoldable pub files_loop :
      (ℕ → Alloc File) → (kst : Ptr) → (leader : ℕ) → (round : ℕ) → List ℕ → M Table (Unit {0})
  unfolding load
  files_loop files kst leader round [] = pure tt
  files_loop files kst leader round (tid ∷ tids) = do
    k ← load schedulers kst
    create_workers_file (files round) tid k.proc_id leader
    files_loop files kst leader (suc round) tids

  -- ENTERUMSSCHEDMODE, with `leader` for `current->group_leader->pid`
  unfoldable pub enter_sched_mode :
      (pid leader clid : ℕ)
      → Alloc Kst
      → Alloc (Folder Table)
      → (ℕ → Alloc File)
      → M Table (Unit {0})
  unfolding load modify files_loop
  enter_sched_mode pid leader clid a folder files = do
    create_sched_thread a pid clid
    kst ← get_ksched_thread pid
    kcl ← get_kcompletion_list clid
    id ← create_scheduler_folder folder pid leader
    modify schedulers kst λ k. record k { proc_id = id }
    c ← load lists kcl
    files_loop files kst leader 0 (nodes c.wt_ready_queue)

  unfoldable pub ums_ioctl : (pid leader now : ℕ) → Request Table → M Table Reply
  ums_ioctl pid leader now (umsinit a) = create_proc_ums_pid a pid >> pure (returned 0)
  ums_ioctl pid leader now (umsinitcompllist a) = do
    id ← init_completion_list a
    pure (returned_list id)
  ums_ioctl pid leader now (enterumsschedmode clid a folder files) =
      enter_sched_mode pid leader clid a folder files >> pure (returned 0)
  ums_ioctl pid leader now (createworkerthread a parent_tid tid) =
      create_request a parent_tid tid >> pure asleep
  ums_ioctl pid leader now (waitwtcreation tid) = wait_creation tid >> pure (returned 0)
  ums_ioctl pid leader now (dequeuecompllist signal clid out) = do
    (n, out') ← dequeue signal clid out
    pure (returned_ready n out')
  ums_ioctl pid leader now (compllistadd cle kcle tid clid) =
      list_add cle kcle tid clid >> pure (returned 0)
  ums_ioctl pid leader now (executeumsthread tid) = do
    (kwt, kst) ← execute_begin pid tid now
    pure (waits kwt kst)
  ums_ioctl pid leader now (umsthreadtyield tid) = thread_yield tid >> pure asleep
  ums_ioctl pid leader now (workerthreadexit tid) = thread_exit tid >> pure (returned 0)
  ums_ioctl pid leader now (compllistdestroy clid) =
      destroy_completion_list clid >> pure (returned 0)
  ums_ioctl pid leader now (workerthreaddestroy tid) =
      destroy_kworker_thread tid >> pure (returned 0)
  ums_ioctl pid leader now schedthreaddestroy = destroy_ksched_thread pid >> pure (returned 0)
  ums_ioctl pid leader now umsdestroy = remove_proc_ums_pid >> pure (returned 0)
  ums_ioctl pid leader now (other request) = pure (returned einval)
