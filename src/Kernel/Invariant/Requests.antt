-- ===== src/Kernel/Invariant/Requests.antt =====
-- The requests of src/lkm/ums_core.c that make and destroy nothing keep a state valid.
use aosv_project.Base.{ℕ, suc, List, [], ◌∷◌, Bool}
use aosv_project.Hashtable.{Hashtable}
use aosv_project.Kernel.Entries.{Folder, File}
use aosv_project.Kernel.Objects.{Ptr}
use aosv_project.Kernel.Outcome.{◌>>=◌, ◌>>◌}
use aosv_project.Kernel.State.{Alloc, schedulers, lists, load, modify}
use aosv_project.Kernel.Valid.Keep.{Keeps, Keeps-bind, Keeps-load}
use aosv_project.Kernel.Scheduler.{get_ksched_thread}
use aosv_project.Kernel.CompletionList.{get_kcompletion_list}
use aosv_project.Kernel.Core.{
  wait_creation, dequeue, list_add, execute_begin, release_worker, execute_finish, thread_yield,
  thread_exit,
}
use aosv_project.Kernel.Proc.{create_scheduler_folder, create_workers_file}
use aosv_project.Kernel.Core.Ioctl.{files_loop}
use aosv_project.Kernel.Invariant.Registries.{
  Keeps-update_time_measured, Keeps-wake_up_scheduler, Keeps-worker_thread_add_clid,
  Keeps-wait_worker_thread, Keeps-wake_up_worker,
}
use aosv_project.Kernel.Invariant.Lists.{
  list_rules, Keeps-add_worker_thread, Keeps-for_each_inc_kcl_threads_ready,
  Keeps-for_each_dec_kcl_nthreads, Keeps-wake_up_schedulers, Keeps-get_wt_ready_queue,
}
use aosv_project.Kernel.Invariant.Tree.{
  Keeps-create_proc_ums_pid, Keeps-create_scheduler_folder, Keeps-create_workers_file,
  Keeps-remove_proc_ums_pid,
}

module _ ⦃ht : Hashtable⦄ where
  open ht use {Table, nodes}

  ruleset request_rules = (
    list_rules, Keeps-update_time_measured, Keeps-wake_up_scheduler, Keeps-worker_thread_add_clid,
    Keeps-wait_worker_thread, Keeps-wake_up_worker, Keeps-add_worker_thread,
    Keeps-for_each_inc_kcl_threads_ready, Keeps-for_each_dec_kcl_nthreads, Keeps-wake_up_schedulers,
    Keeps-get_wt_ready_queue, Keeps-create_proc_ums_pid, Keeps-create_scheduler_folder,
    Keeps-create_workers_file, Keeps-remove_proc_ums_pid,
  )

  pub Keeps-wait_creation : (tid : ℕ) → Keeps (wait_creation tid)
  unfolding wait_creation
  Keeps-wait_creation tid = search request_rules depth 16

  pub Keeps-dequeue : (signal : Bool) (clid : ℕ) (out : List ℕ) → Keeps (dequeue signal clid out)
  unfolding dequeue
  Keeps-dequeue signal clid out = search request_rules depth 16

  pub Keeps-list_add : (cle kcle : Ptr) (tid clid : ℕ) → Keeps (list_add cle kcle tid clid)
  unfolding list_add
  Keeps-list_add cle kcle tid clid = search request_rules depth 16

  pub Keeps-execute_begin : (pid tid now : ℕ) → Keeps (execute_begin pid tid now)
  unfolding execute_begin
  Keeps-execute_begin pid tid now = search request_rules depth 16

  Keeps-release_worker : (kwt : Ptr) → Keeps (release_worker kwt)
  unfolding release_worker
  Keeps-release_worker kwt = search request_rules depth 16

  pub Keeps-execute_finish : (kwt kst : Ptr) (now : ℕ) → Keeps (execute_finish kwt kst now)
  unfolding execute_finish
  Keeps-execute_finish kwt kst now = search (request_rules, Keeps-release_worker) depth 16

  pub Keeps-thread_yield : (tid : ℕ) → Keeps (thread_yield tid)
  unfolding thread_yield
  Keeps-thread_yield tid = search request_rules depth 16

  pub Keeps-thread_exit : (tid : ℕ) → Keeps (thread_exit tid)
  unfolding thread_exit
  Keeps-thread_exit tid = search request_rules depth 16

  Keeps-files_loop :
      (files : ℕ → Alloc File) (kst : Ptr) (leader round : ℕ) (tids : List ℕ)
      → Keeps (files_loop files kst leader round tids)
  unfolding files_loop
  Keeps-files_loop files kst leader round [] = search request_rules
  Keeps-files_loop files kst leader round (tid ∷ tids) =
      Keeps-bind (load schedulers kst) _ (Keeps-load schedulers kst) λ k.
        Keeps-bind (create_workers_file (files round) tid k.proc_id leader) _
          (Keeps-create_workers_file (files round) tid k.proc_id leader)
          λ _. Keeps-files_loop files kst leader (suc round) tids

  -- The rest of ENTERUMSSCHEDMODE, behind the creation of the scheduler.
  pub Keeps-enter_rest :
      (pid leader clid : ℕ) (folder : Alloc (Folder Table)) (files : ℕ → Alloc File)
      → Keeps (do
        kst ← get_ksched_thread pid
        kcl ← get_kcompletion_list clid
        id ← create_scheduler_folder folder pid leader
        modify schedulers kst λ k. record k { proc_id = id }
        c ← load lists kcl
        files_loop files kst leader 0 (nodes c.wt_ready_queue))
  Keeps-enter_rest pid leader clid folder files = search (request_rules, Keeps-files_loop) depth 20
