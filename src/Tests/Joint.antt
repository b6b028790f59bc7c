-- ===== src/Tests/Joint.antt =====
-- The library adds a worker to a list, and a scheduler dequeues it.
use aosv_project.Base.{ℕ, ◌≡◌, refl, arith, true, Option, none, some, List, [], ◌∷◌, update, false}
use aosv_project.Hashtable.Chained.{chained}
use aosv_project.Kernel.Objects.{scan}
use aosv_project.Kernel.Outcome.{ok}
use aosv_project.Kernel.State.{Kernel}
use aosv_project.Kernel.Worker.{get_kworker_thread, mutex_trylock}
use aosv_project.Kernel.CompletionList.{
  get_kcompletion_list, for_each_clid, dec_threads_ready, for_each_dec_kcl_threads_ready,
  take_ready, ready_loop, get_wt_ready_queue,
}
use aosv_project.Kernel.Core.{dequeue}
use aosv_project.Kernel.Core.Link.{joined}
use aosv_project.Kernel.Balance.{IsBalanced, places}
use aosv_project.Kernel.Balance.History.{History-IsBalanced}
use aosv_project.Library.{
  WorkerThread, CompletionList, Ioctl, completion_list_add, ums_completion_list_add,
}
use aosv_project.Joint.{Coherent, Course, start, onward, adds_worker, Course-Coherent}
use aosv_project.Joint.Dequeue.{AllFound, dequeue-finds}
use aosv_project.Tests.World.{Table}
use aosv_project.Tests.Library.{thread}
use aosv_project.Tests.Balance.{
  blank, with_worker, own_worker, own_list, added_worker, filled, out, added, blank-IsBalanced,
  with_worker-History,
}

abbrev structures : ℕ → Option (WorkerThread ℕ ℕ)
structures = update (λ _. none) 900 (some (thread 7))

abbrev no_worker : CompletionList
no_worker = record { last_index = 0; clc = 3; wt = 0 ∷ 0 ∷ 0 ∷ 0 ∷ 0 ∷ 0 ∷ 0 ∷ 0 ∷ [] }

abbrev own_array : CompletionList
own_array = record { last_index = 1; clc = 3; wt = 900 ∷ 0 ∷ 0 ∷ 0 ∷ 0 ∷ 0 ∷ 0 ∷ 0 ∷ [] }

with_worker-IsBalanced : IsBalanced with_worker
with_worker-IsBalanced = History-IsBalanced blank with_worker blank-IsBalanced with_worker-History

no_places : (tid : ℕ) → places with_worker 3 tid ≡ 0
unfolding scan
no_places tid = omega (arith, (with_worker-IsBalanced.counts 3 own_list refl).members tid)

with_worker-Coherent : Coherent structures no_worker with_worker
with_worker-Coherent = record {
  fits = record { size = refl; bounded = omega arith };
  live = λ j h. absurd (omega (arith, h));
  balanced = with_worker-IsBalanced;
  known = λ tid h. absurd (omega (arith, h, no_places tid));
}

-- The device answers with the state that the kernel's request leaves.
abbrev answering : Ioctl (Kernel Table)
answering _ s = (0, record { id = 0; n = 0; wt_ready_tid = [] }, filled)

adds : ums_completion_list_add answering 900 7 no_worker with_worker ≡ ok 0 (own_array, filled)
unfolding ums_completion_list_add completion_list_add
adds = refl

filled-Course : Course structures no_worker with_worker structures own_array filled
unfolding scan
filled-Course = onward start (
    adds_worker answering 1 2 900 0 (thread 7) own_worker own_list refl (omega arith) refl refl
      (omega arith) refl added adds)

Course-Coherent_example : Coherent structures own_array filled
Course-Coherent_example =
    Course-Coherent structures no_worker with_worker structures own_array filled
      with_worker-Coherent filled-Course

abbrev served : Kernel Table
served = record filled {
  kwts = update filled.kwts 140 (some (record added_worker { mutex = true }));
  kcls = update filled.kcls 250 (some (record (joined own_list 7) { threads_ready = 0 }));
}

abbrev seven : List ℕ
seven = 7 ∷ 0 ∷ 0 ∷ 0 ∷ 0 ∷ 0 ∷ 0 ∷ 0 ∷ []

serves : dequeue false 3 out filled ≡ ok (1, seven) served
unfolding dequeue get_wt_ready_queue ready_loop take_ready mutex_trylock get_kcompletion_list
    get_kworker_thread for_each_dec_kcl_threads_ready for_each_clid dec_threads_ready scan
serves = refl

filled-Coherent : Coherent structures own_array filled
filled-Coherent =
    Course-Coherent structures no_worker with_worker structures own_array filled
      with_worker-Coherent filled-Course

dequeue-finds_example : AllFound structures own_array (1, seven)
unfolding scan
dequeue-finds_example =
    dequeue-finds structures own_array filled served (joined own_list 7) out (1, seven) false
      filled-Coherent refl (omega arith) serves
