-- ===== src/Tests/Life.antt =====
-- Histories of requests, and the life of the module.
use aosv_project.Base.{◌≡◌, refl, none, some, ◌∷◌, [], arith, update, false, minus_one}
use aosv_project.Hashtable.Chained.{chained}
use aosv_project.Interface.{wt_idle}
use aosv_project.Kernel.Objects.{scan}
use aosv_project.Kernel.Outcome.{ok, fault}
use aosv_project.Kernel.State.{Kwt, Kernel, wake}
use aosv_project.Kernel.Valid.{Ends, IsValid}
use aosv_project.Kernel.Core.Ioctl.{
  ums_ioctl, asleep, returned, umsthreadtyield, workerthreaddestroy,
}
use aosv_project.Kernel.Core.{thread_yield}
use aosv_project.Kernel.Core.Freed.{destroyed_in_wait, destroyed_in_wait-faults}
use aosv_project.Kernel.Worker.{
  set_kwt_in_idle_state, wake_up_scheduler, get_kworker_thread, destroy_kworker_thread,
}
use aosv_project.Kernel.Invariant.Reach.{
  Reachable, start, later, request, threads, Reachable-IsValid,
}
use aosv_project.Kernel.Spec.{maps, spec, Agrees}
use aosv_project.Kernel.Spec.Refine.{ums_ioctl-refines}
use aosv_project.Kernel.Module.{ums_init, ums_exit}
use aosv_project.Kernel.Module.Unload.{Unloaded, ums_exit-unloads}
use aosv_project.Kernel.Module.Life.{ums_init-lives}
use aosv_project.Tests.World.{Table, world, world-IsValid, idle_worker, busy_worker, own_scheduler}

-- The worker 15 after it yields, before and after it lets its scheduler go.
abbrev paused_worker : Kwt
paused_worker = record busy_worker { state = wt_idle; nswitches = 1 }

abbrev yielded : Kernel Table
yielded = record world {
  kwts =
      update (update world.kwts 110 (some paused_worker)) 110
        (some (record paused_worker { curr_sched_tid = minus_one }));
  events = wake 3 ∷ [];
}

yields : ums_ioctl 15 42 20 (umsthreadtyield 15) world ≡ ok asleep yielded
unfolding ums_ioctl thread_yield get_kworker_thread set_kwt_in_idle_state wake_up_scheduler scan
yields = refl

-- The worker yields, and then all threads end.
abbrev deserted : Kernel Table
deserted = record yielded { alive = λ tid. false }

Reachable-IsValid_example : IsValid deserted
Reachable-IsValid_example =
    Reachable-IsValid world deserted world-IsValid (
      later (later start (request 15 42 20 (umsthreadtyield 15) tt yields))
        (threads (λ tid. false)))

destroyed_in_wait-faults_example : destroyed_in_wait 3 7 20 30 world ≡ fault
unfolding scan
destroyed_in_wait-faults_example =
    destroyed_in_wait-faults world 3 7 20 30 (idle_worker 7) own_scheduler world-IsValid refl refl
      refl

ums_exit-unloads_example : Ends (λ _ t. Unloaded world t) (ums_exit world)
ums_exit-unloads_example = ums_exit-unloads world world-IsValid

abbrev empty : Kernel Table
empty = record world {
  compl_list_htable = chained.init;
  wt_htable = chained.init;
  st_htable = chained.init;
}

ums_init-lives_example :
    Ends
      (λ r t.
        (r ≡ 0) × ((u : Kernel Table) → Reachable t u → Ends (λ _ x. Unloaded u x) (ums_exit u)))
      (ums_init 0 empty)
ums_init-lives_example =
    ums_init-lives empty 0 (record { workers = refl; schedulers = refl; lists = refl })
      (omega arith)

-- The worker 15 is destroyed.
abbrev bereft : Kernel Table
bereft = record world {
  wt_htable = chained.del 110 world.wt_htable;
  kwts = update world.kwts 110 none;
}

destroys : ums_ioctl 3 42 20 (workerthreaddestroy 15) world ≡ ok (returned 0) bereft
unfolding ums_ioctl destroy_kworker_thread get_kworker_thread scan
destroys = refl

ums_ioctl-refines_example : Agrees (maps bereft) (spec 3 (workerthreaddestroy 15) (maps world))
ums_ioctl-refines_example =
    ums_ioctl-refines world bereft 3 42 20 (workerthreaddestroy 15) (returned 0) world-IsValid tt
      refl destroys
