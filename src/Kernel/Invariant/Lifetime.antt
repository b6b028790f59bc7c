-- ===== src/Kernel/Invariant/Lifetime.antt =====
-- The registries of src/lkm: making and destroying an object keeps a state valid.
use aosv_project.Base.{ℕ, ◌+◌, ◌<◌, ◌^◌, ◌≡◌, none, some, Option-cases, inl, inr, count}
use aosv_project.Hashtable.{Hashtable}
use aosv_project.Kernel.State.{Kwt, Kst, Kcl, Kernel, Alloc}
use aosv_project.Kernel.Valid.{IsValid, worker, scheduler}
use aosv_project.Kernel.Valid.Keep.{After, Ends-After}
use aosv_project.Kernel.Worker.{create_worker_thread, destroy_kworker_thread}
use aosv_project.Kernel.Worker.Registry.{
  create_worker_thread-inserts, destroy_kworker_thread-deletes,
}
use aosv_project.Kernel.Scheduler.{create_sched_thread, destroy_ksched_thread}
use aosv_project.Kernel.Scheduler.Registry.{
  create_sched_thread-inserts, destroy_ksched_thread-deletes,
}
use aosv_project.Kernel.CompletionList.{init_completion_list, destroy_completion_list}
use aosv_project.Kernel.CompletionList.Registry.{
  init_completion_list-inserts, destroy_completion_list-deletes,
}

module _ ⦃ht : Hashtable⦄ where
  open ht use {Table, nodes}

  -- The new object stands where the table has no object yet.
  abbrev pub Fresh : {A : Type 0} → Alloc A → Table → Type 0
  Fresh a t = (p : ℕ) → a.at ≡ some p → count p (nodes t) ≡ 0

  module _ (s : Kernel Table) (v : IsValid s) where
    pub create_worker_thread-After :
        (a : Alloc Kwt) (tid : ℕ)
        → Fresh a s.wt_htable
        → worker s tid ≡ none
        → After IsValid (create_worker_thread a tid s)
    unfolding create_worker_thread
    create_worker_thread-After a tid fresh free = elim (Option-cases a.at) [
      | inl gone ↦ rw (gone, create_worker_thread) tt
      | inr (p, at) ↦
          Ends-After (create_worker_thread a tid s)
            (create_worker_thread-inserts s a tid p v at (fresh p at) free) λ _ t e. e.0
    ]

    pub create_sched_thread-After :
        (a : Alloc Kst) (pid clid : ℕ)
        → Fresh a s.st_htable
        → scheduler s pid ≡ none
        → After IsValid (create_sched_thread a pid clid s)
    unfolding create_sched_thread
    create_sched_thread-After a pid clid fresh free = elim (Option-cases a.at) [
      | inl gone ↦ rw (gone, create_sched_thread) tt
      | inr (p, at) ↦
          Ends-After (create_sched_thread a pid clid s)
            (create_sched_thread-inserts s a pid clid p v at (fresh p at) free) λ _ t e. e.0
    ]

    pub init_completion_list-After :
        (a : Alloc (Kcl Table))
        → Fresh a s.compl_list_htable
        → s.compl_list_last_id + 1 < 2 ^ 32
        → After IsValid (init_completion_list a s)
    unfolding init_completion_list
    init_completion_list-After a fresh room = elim (Option-cases a.at) [
      | inl gone ↦ rw (gone, init_completion_list) tt
      | inr (p, at) ↦
          Ends-After (init_completion_list a s)
            (init_completion_list-inserts s a p v at (fresh p at) room) λ _ t e. e.2
    ]

    pub destroy_kworker_thread-After : (tid : ℕ) → After IsValid (destroy_kworker_thread tid s)
    destroy_kworker_thread-After tid =
        Ends-After (destroy_kworker_thread tid s) (destroy_kworker_thread-deletes s tid v)
          λ _ t e. e.0

    pub destroy_ksched_thread-After : (tid : ℕ) → After IsValid (destroy_ksched_thread tid s)
    destroy_ksched_thread-After tid = elim (destroy_ksched_thread-deletes s tid v) [
      | inl (_, fails) ↦ rw fails tt
      | inr ends ↦ Ends-After (destroy_ksched_thread tid s) ends λ _ t e. e.0
    ]

    pub destroy_completion_list-After : (clid : ℕ) → After IsValid (destroy_completion_list clid s)
    destroy_completion_list-After clid = elim (destroy_completion_list-deletes s clid v) [
      | inl (_, fails) ↦ rw fails tt
      | inr ends ↦ Ends-After (destroy_completion_list clid s) ends λ _ t e. e.0
    ]
