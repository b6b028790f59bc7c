-- ===== src/Tests/Registries.antt =====
-- The registries of workers and schedulers.
use aosv_project.Base.{ℕ, ◌≡◌, ◌⊎◌, refl, arith, none, some, ◌==◌, if◌then◌else◌}
use aosv_project.Hashtable.Chained.{chained}
use aosv_project.Kernel.Outcome.{fault, ◌>>=◌}
use aosv_project.Kernel.State.{Kwt, Kst, Kcl, Alloc}
use aosv_project.Kernel.Valid.{Ends, IsValid, scheduler, completion_list}
use aosv_project.Kernel.Scheduler.{destroy_ksched_thread}
use aosv_project.Kernel.Scheduler.Registry.{destroy_ksched_thread-deletes}
use aosv_project.Kernel.Objects.{scan}
use aosv_project.Kernel.CompletionList.{init_completion_list, destroy_completion_list}
use aosv_project.Kernel.Roundtrip.{destroy_completion_list-init}
use aosv_project.Tests.World.{Table, world, world-IsValid, idle_worker, own_scheduler, shared_list}

abbrev fresh_worker : Alloc Kwt
fresh_worker = record { at = some 120; bytes = idle_worker 0 }

abbrev fresh_scheduler : Alloc Kst
fresh_scheduler = record { at = some 310; bytes = own_scheduler }

destroy_ksched_thread-deletes_example :
    (scheduler world 3 ≡ none) × (destroy_ksched_thread 3 world ≡ fault)
    ⊎ Ends
        (λ _ t.
          IsValid t
          × ((j : ℕ) → scheduler t j ≡ (if 3 == j then none else scheduler world j))
          × (t ≡ record world { st_htable = t.st_htable; ksts = t.ksts }))
        (destroy_ksched_thread 3 world)
destroy_ksched_thread-deletes_example = destroy_ksched_thread-deletes world 3 world-IsValid

abbrev fresh_list : Alloc (Kcl Table)
fresh_list = record { at = some 290; bytes = shared_list }

destroy_completion_list-init_example :
    Ends
      (λ _ u.
        IsValid u
        × ((j : ℕ) → completion_list u j ≡ completion_list world j)
        × (u ≡ record world {
          compl_list_htable = u.compl_list_htable;
          kcls = u.kcls;
          compl_list_last_id = 4;
        }))
      ((init_completion_list fresh_list >>= λ id. destroy_completion_list id) world)
unfolding scan
destroy_completion_list-init_example =
    destroy_completion_list-init world fresh_list 290 world-IsValid refl refl (omega arith)
