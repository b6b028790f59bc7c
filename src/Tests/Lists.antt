-- ===== src/Tests/Lists.antt =====
-- The completion lists of the kernel.
use aosv_project.Base.{
  ℕ, ◌<◌, ◌≡◌, ◌≢◌, refl, ◌⊎◌, none, some, List, [], ◌∷◌, arith, ◌==◌, if◌then◌else◌, inc,
  minus_one, get_elem?,
}
use aosv_project.Hashtable.Chained.{chained}
use aosv_project.Kernel.Objects.{scan}
use aosv_project.Kernel.Outcome.{ok, fault}
use aosv_project.Kernel.State.{Kcl, Alloc}
use aosv_project.Kernel.Valid.{Ends, IsValid, completion_list}
use aosv_project.Kernel.CompletionList.{
  add_worker_thread, destroy_completion_list, get_wt_ready_queue,
}
use aosv_project.Kernel.CompletionList.Registry.{
  add_worker_thread-adds, destroy_completion_list-deletes,
}
use aosv_project.Kernel.CompletionList.Dequeue.{Ready}
use aosv_project.Kernel.CompletionList.Reserve.{Dequeued, get_wt_ready_queue-reserves}
use aosv_project.Kernel.CompletionList.Exclusion.{get_wt_ready_queue-excludes}
use aosv_project.Tests.World.{
  Table, world, world-IsValid, idle_worker, busy_worker, shared_list, other_list,
}

abbrev fresh_list : Alloc (Kcl Table)
fresh_list = record { at = some 220; bytes = shared_list }

add_worker_thread-adds_example :
    (completion_list world 1 ≡ none) × (add_worker_thread (some 500) 23 1 world ≡ fault)
    ⊎ ((c : Kcl Table) × (completion_list world 1 ≡ some c)
        × Ends
            (λ _ t.
              IsValid t
              × ((j : ℕ)
                  → completion_list t j ≡ (
                      if j == 1
                      then some (record c {
                        wt_ready_queue = chained.add 23 23 c.wt_ready_queue;
                        threads_ready = inc c.threads_ready;
                        nthreads = inc c.nthreads;
                      })
                      else completion_list world j))
              × (t ≡ record world { kcls = t.kcls }))
            (add_worker_thread (some 500) 23 1 world))
add_worker_thread-adds_example = add_worker_thread-adds world 500 23 1 world-IsValid

destroy_completion_list-deletes_example :
    (completion_list world 1 ≡ none) × (destroy_completion_list 1 world ≡ fault)
    ⊎ Ends
        (λ _ t.
          IsValid t
          × ((j : ℕ) → completion_list t j ≡ (if 1 == j then none else completion_list world j))
          × (t ≡ record world { compl_list_htable = t.compl_list_htable; kcls = t.kcls }))
        (destroy_completion_list 1 world)
destroy_completion_list-deletes_example = destroy_completion_list-deletes world 1 world-IsValid

shared-Ready : Ready world (chained.nodes shared_list.wt_ready_queue)
unfolding scan
shared-Ready = (
  (idle_worker 7, refl, ((shared_list, refl), tt)),
  ((busy_worker, refl, ((shared_list, refl), tt)), tt),
)

abbrev room : List ℕ
room = 0 ∷ 0 ∷ 0 ∷ 0 ∷ 0 ∷ 0 ∷ 0 ∷ 0 ∷ []

get_wt_ready_queue-reserves_example :
    (shared_list.nthreads ≡ 0) × (get_wt_ready_queue 1 room world ≡ ok (minus_one, room) world)
    ⊎ (shared_list.nthreads ≢ 0)
      × Ends
          (Dequeued world (chained.nodes shared_list.wt_ready_queue))
          (get_wt_ready_queue 1 room world)
unfolding scan
get_wt_ready_queue-reserves_example =
    get_wt_ready_queue-reserves world 1 shared_list room world-IsValid refl shared-Ready
      (omega arith)

other-Ready : Ready world (chained.nodes other_list.wt_ready_queue)
unfolding scan
other-Ready = (
  (idle_worker 7, refl, ((shared_list, refl), tt)),
  ((idle_worker 23, refl, ((shared_list, refl), tt)), tt),
)

get_wt_ready_queue-excludes_example :
    Ends
      (λ r t.
        Ends
          (λ r' u. (i k : ℕ) → i < r.0 → k < r'.0 → get_elem? (r.1) i ≢ get_elem? (r'.1) k)
          (get_wt_ready_queue 2 room t))
      (get_wt_ready_queue 1 room world)
unfolding scan
get_wt_ready_queue-excludes_example =
    get_wt_ready_queue-excludes world 1 2 shared_list other_list room room world-IsValid refl refl
      shared-Ready other-Ready (λ e. absurd (omega (arith, e))) (λ e. absurd (omega (arith, e)))
      (omega arith) (omega arith)
