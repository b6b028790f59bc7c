-- ===== src/Tests/Requests.antt =====
-- The requests of schedulers and workers.
use aosv_project.Base.{◌≡◌, ◌≢◌, refl, ◌⊎◌, true, false, some, [], ◌∷◌, arith}
use aosv_project.Hashtable.Chained.{chained}
use aosv_project.Interface.{wt_running}
use aosv_project.Kernel.Objects.{scan}
use aosv_project.Kernel.Outcome.{fault, blocked}
use aosv_project.Kernel.State.{wake}
use aosv_project.Kernel.CompletionList.Loops.{Known}
use aosv_project.Kernel.Valid.{Ends, WorkerAt, SchedulerAt}
use aosv_project.Kernel.Core.{execute_finish, thread_yield, thread_exit, list_add}
use aosv_project.Kernel.Core.Finish.{Finished, execute_finish-releases}
use aosv_project.Kernel.Core.Switch.{Woken, parted, paused, thread_yield-wakes}
use aosv_project.Kernel.Core.Exit.{Departed, thread_exit-departs}
use aosv_project.Kernel.Core.Link.{Linked, list_add-links}
use aosv_project.Kernel.Core.Slice.{time_slice, Sliced, time_slice-works}
use aosv_project.Tests.World.{
  world, world-IsValid, idle_worker, busy_worker, own_scheduler, shared_list,
}

worker_at : WorkerAt world 7 100 (idle_worker 7)
unfolding scan
worker_at = record { found = refl; there = refl; same = refl; inside = omega arith }

scheduler_at : SchedulerAt world 3 300 own_scheduler
unfolding scan
scheduler_at = record { found = refl; there = refl; same = refl; inside = omega arith }

Known-list : Known world (1 ∷ [])
unfolding scan
Known-list = ((shared_list, refl), tt)

execute_finish-releases_example :
    (0 ≡ wt_running) × (execute_finish (some 100) (some 300) 30 world ≡ blocked)
    ⊎ (0 ≢ wt_running)
      × Ends
          (λ _ t. Finished world t 7 3 (idle_worker 7) own_scheduler 30)
          (execute_finish (some 100) (some 300) 30 world)
execute_finish-releases_example =
    execute_finish-releases world 7 3 100 300 30 (idle_worker 7) own_scheduler world-IsValid
      worker_at scheduler_at Known-list

thread_yield-wakes_example :
    (world.alive 3 ≡ false) × (thread_yield 15 world ≡ fault)
    ⊎ (world.alive 3 ≡ true)
      × Ends
          (λ _ t. Woken world t 15 (parted (paused busy_worker)) (wake 3))
          (thread_yield 15 world)
unfolding scan
thread_yield-wakes_example = thread_yield-wakes world 15 busy_worker world-IsValid refl

thread_exit-departs_example : Ends (λ _ t. Departed world t 15 busy_worker) (thread_exit 15 world)
unfolding scan
thread_exit-departs_example =
    thread_exit-departs world 15 busy_worker world-IsValid refl Known-list refl

time_slice-works_example :
    Ends
      (λ _ u. Sliced world u 3 7 20 35 (idle_worker 7) own_scheduler)
      (time_slice 3 7 20 35 world)
unfolding scan
time_slice-works_example =
    time_slice-works world 3 7 20 35 (idle_worker 7) own_scheduler world-IsValid refl refl refl refl
      Known-list

list_add-links_example :
    Ends
      (λ _ u. Linked world u 23 1 (idle_worker 23) shared_list)
      (list_add (some 400) (some 500) 23 1 world)
unfolding scan
list_add-links_example =
    list_add-links world 400 500 23 1 (idle_worker 23) shared_list world-IsValid refl refl refl
