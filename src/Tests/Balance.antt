-- ===== src/Tests/Balance.antt =====
-- Counters that count, on a module that makes a list, creates a worker and adds it.
use aosv_project.Base.{◌≡◌, refl, true, ℕ, List, some, ◌∷◌, [], arith, update}
use aosv_project.Hashtable.Chained.{chained}
use aosv_project.Kernel.Objects.{scan}
use aosv_project.Kernel.Objects.Index.{IsIndex-init}
use aosv_project.Kernel.Outcome.{ok}
use aosv_project.Kernel.State.{Kwt, Kcl, Kernel, Alloc, wake, wake_up_process}
use aosv_project.Kernel.Worker.{
  kwt_tid, create_worker_thread, get_kworker_thread, worker_thread_add_clid, mutex_lock,
  mutex_unlock,
}
use aosv_project.Kernel.Worker.Registry.{new_worker}
use aosv_project.Kernel.Scheduler.{kst_tid}
use aosv_project.Kernel.CompletionList.{
  kcl_id, init_completion_list, get_kcompletion_list, add_worker_thread,
}
use aosv_project.Kernel.CompletionList.Registry.{new_list}
use aosv_project.Kernel.Core.{create_request, list_add}
use aosv_project.Kernel.Core.Link.{joined}
use aosv_project.Kernel.Balance.{IsBalanced}
use aosv_project.Kernel.Balance.Steps.{creates, makes, adds}
use aosv_project.Kernel.Balance.History.{
  History, start, further, empty-IsBalanced, History-IsBalanced,
}
use aosv_project.Kernel.Balance.Sleep.{Served, dequeue-serves}
use aosv_project.Tests.World.{Table, world, idle_worker, shared_list}

abbrev pub blank : Kernel Table
blank = record world {
  compl_list_htable = chained.init;
  wt_htable = chained.init;
  st_htable = chained.init;
}

pub blank-IsBalanced : IsBalanced blank
unfolding scan
blank-IsBalanced =
    empty-IsBalanced blank
      (record {
        workers = IsIndex-init kwt_tid blank.kwts;
        schedulers = IsIndex-init kst_tid blank.ksts;
        lists = IsIndex-init kcl_id blank.kcls;
        recent = λ clid c e. absurd (ground (arith, e));
      })
      (λ j. refl) λ j. refl

abbrev list_at : Alloc (Kcl Table)
list_at = record { at = some 250; bytes = shared_list }

abbrev with_list : Kernel Table
with_list = record blank {
  compl_list_htable = chained.add 3 250 chained.init;
  compl_list_last_id = 4;
  kcls = update blank.kcls 250 (some (new_list shared_list 3));
}

made : init_completion_list list_at blank ≡ ok 3 with_list
unfolding init_completion_list
made = refl

abbrev worker_at : Alloc Kwt
worker_at = record { at = some 140; bytes = idle_worker 23 }

abbrev pub with_worker : Kernel Table
with_worker = record with_list {
  wt_htable = chained.add 7 140 chained.init;
  kwts = update with_list.kwts 140 (some (new_worker (idle_worker 23) 7));
  events = wake 3 ∷ [];
}

created : create_request worker_at 3 7 with_list ≡ ok tt with_worker
unfolding create_request create_worker_thread wake_up_process
created = refl

abbrev pub own_worker : Kwt
own_worker = new_worker (idle_worker 23) 7

abbrev pub own_list : Kcl Table
own_list = new_list shared_list 3

abbrev pub added_worker : Kwt
added_worker = record own_worker { clid_list = 3 ∷ [] }

abbrev pub filled : Kernel Table
filled = record with_worker {
  kwts =
      update
        (update (update with_worker.kwts 140 (some (record own_worker { mutex = true }))) 140
          (some (record added_worker { mutex = true })))
        140 (some added_worker);
  kcls = update with_worker.kcls 250 (some (joined own_list 7));
}

pub added : list_add (some 1) (some 2) 7 3 with_worker ≡ ok tt filled
unfolding list_add worker_thread_add_clid add_worker_thread get_kworker_thread get_kcompletion_list
    mutex_lock mutex_unlock scan
added = refl

-- A list and a worker that know nothing of each other.
pub with_worker-History : History blank with_worker
unfolding scan
with_worker-History =
    further (further start (makes list_at (λ p e. refl) (omega arith) made))
      (creates worker_at 3 7 (λ p e. refl) refl created)

filled-History : History blank filled
unfolding scan
filled-History =
    further with_worker-History (adds 1 2 7 3 own_worker own_list refl refl (omega arith) added)

History-IsBalanced_example : IsBalanced filled
History-IsBalanced_example = History-IsBalanced blank filled blank-IsBalanced filled-History

abbrev pub out : List ℕ
out = 0 ∷ 0 ∷ 0 ∷ 0 ∷ 0 ∷ 0 ∷ 0 ∷ 0 ∷ []

filled-IsBalanced : IsBalanced filled
filled-IsBalanced = History-IsBalanced blank filled blank-IsBalanced filled-History

dequeue-serves_example : Served filled true 3 (7 ∷ []) out
unfolding scan
dequeue-serves_example =
    dequeue-serves filled true 3 (joined own_list 7) out filled-IsBalanced refl (omega arith)
      (omega arith)
