-- ===== src/Kernel/Spec/Effects.antt =====
-- What making and destroying an object does to the maps from ids to objects.
use aosv_project.Base.{
  ℕ, ◌+◌, ◌<◌, ◌^◌, ◌≡◌, ap, none, some, Option-cases, inl, inr, subst, if◌then◌else◌, ◌==◌,
}
use aosv_project.Hashtable.{Hashtable}
use aosv_project.Kernel.State.{Kwt, Kcl, Kernel, Alloc}
use aosv_project.Kernel.Valid.{IsValid, worker, scheduler, completion_list}
use aosv_project.Kernel.Valid.Keep.{After, Ends-After}
use aosv_project.Kernel.Worker.{create_worker_thread, destroy_kworker_thread}
use aosv_project.Kernel.Worker.Registry.{
  create_worker_thread-inserts, destroy_kworker_thread-deletes,
}
use aosv_project.Kernel.Scheduler.{destroy_ksched_thread}
use aosv_project.Kernel.Scheduler.Registry.{destroy_ksched_thread-deletes}
use aosv_project.Kernel.CompletionList.{init_completion_list, destroy_completion_list}
use aosv_project.Kernel.CompletionList.Registry.{
  new_list, init_completion_list-inserts, destroy_completion_list-deletes,
}
use aosv_project.Kernel.Core.Ioctl.{
  Request, umsinitcompllist, createworkerthread, compllistdestroy, workerthreaddestroy,
  schedthreaddestroy,
}
use aosv_project.Kernel.Invariant.Lifetime.{Fresh}
use aosv_project.Kernel.Spec.{maps, Agrees, spec}

module _ ⦃ht : Hashtable⦄ where
  open ht use {Table}

  -- The state `t` has the maps that the request makes of those of `s`.
  abbrev pub Refines : (s : Kernel Table) (pid : ℕ) → Request Table → Kernel Table → Type 0
  Refines s pid r t = Agrees (maps t) (spec pid r (maps s))

  module _ (s : Kernel Table) (v : IsValid s) where
    pub init-Refines :
        (a : Alloc (Kcl Table)) (pid : ℕ)
        → Fresh a s.compl_list_htable
        → s.compl_list_last_id + 1 < 2 ^ 32
        → After (Refines s pid (umsinitcompllist a)) (init_completion_list a s)
    unfolding init_completion_list
    init-Refines a pid fresh room = elim (Option-cases a.at) [
      | inl gone ↦ rw (gone, init_completion_list) tt
      | inr (p, at) ↦
          Ends-After (init_completion_list a s)
            (init_completion_list-inserts s a p v at (fresh p at) room)
            λ id t (next, unused, valid, map, frame). record {
              workers = λ j. ap (λ (r : Kernel Table). worker r j) frame;
              schedulers = λ j. ap (λ (r : Kernel Table). scheduler r j) frame;
              lists = λ j.
                  subst
                    (λ i.
                      completion_list t j
                      ≡ (if i == j then some (new_list a.bytes i) else completion_list s j))
                    next (map j);
              last_id = ap (λ (r : Kernel Table). r.compl_list_last_id) frame;
            }
    ]

    pub create-Refines :
        (a : Alloc Kwt) (pid parent_tid tid : ℕ)
        → Fresh a s.wt_htable
        → worker s tid ≡ none
        → After (Refines s pid (createworkerthread a parent_tid tid)) (create_worker_thread a tid s)
    unfolding create_worker_thread
    create-Refines a pid parent_tid tid fresh free = elim (Option-cases a.at) [
      | inl gone ↦ rw (gone, create_worker_thread) tt
      | inr (p, at) ↦
          Ends-After (create_worker_thread a tid s)
            (create_worker_thread-inserts s a tid p v at (fresh p at) free)
            λ _ t (valid, map, frame). record {
              workers = map;
              schedulers = λ j. ap (λ (r : Kernel Table). scheduler r j) frame;
              lists = λ j. ap (λ (r : Kernel Table). completion_list r j) frame;
              last_id = ap (λ (r : Kernel Table). r.compl_list_last_id) frame;
            }
    ]

    pub destroy_list-Refines :
        (clid pid : ℕ)
        → After (Refines s pid (compllistdestroy clid)) (destroy_completion_list clid s)
    destroy_list-Refines clid pid = elim (destroy_completion_list-deletes s clid v) [
      | inl (_, fails) ↦ rw fails tt
      | inr ends ↦ Ends-After (destroy_completion_list clid s) ends λ _ t (valid, map, frame).
          record {
            workers = λ j. ap (λ (r : Kernel Table). worker r j) frame;
            schedulers = λ j. ap (λ (r : Kernel Table). scheduler r j) frame;
            lists = map;
            last_id = ap (λ (r : Kernel Table). r.compl_list_last_id) frame;
          }
    ]

    pub destroy_worker-Refines :
        (tid pid : ℕ)
        → After (Refines s pid (workerthreaddestroy tid)) (destroy_kworker_thread tid s)
    destroy_worker-Refines tid pid =
        Ends-After (destroy_kworker_thread tid s) (destroy_kworker_thread-deletes s tid v)
          λ _ t (valid, map, frame). record {
            workers = map;
            schedulers = λ j. ap (λ (r : Kernel Table). scheduler r j) frame;
            lists = λ j. ap (λ (r : Kernel Table). completion_list r j) frame;
            last_id = ap (λ (r : Kernel Table). r.compl_list_last_id) frame;
          }

    pub destroy_scheduler-Refines :
        (pid : ℕ) → After (Refines s pid schedthreaddestroy) (destroy_ksched_thread pid s)
    destroy_scheduler-Refines pid = elim (destroy_ksched_thread-deletes s pid v) [
      | inl (_, fails) ↦ rw fails tt
      | inr ends ↦ Ends-After (destroy_ksched_thread pid s) ends λ _ t (valid, map, frame). record {
        workers = λ j. ap (λ (r : Kernel Table). worker r j) frame;
        schedulers = map;
        lists = λ j. ap (λ (r : Kernel Table). completion_list r j) frame;
        last_id = ap (λ (r : Kernel Table). r.compl_list_last_id) frame;
      }
    ]
