-- ===== src/Kernel/Scheduler/Registry.antt =====
-- The table of the schedulers in src/lkm/ksched_thread.c as a finite map: what
-- `create_sched_thread`, `ksched_thread_copy` and `destroy_ksched_thread` do to it.
use aosv_project.Base.{
  ℕ, ◌≡◌, refl, ◌⊎◌, inl, inr, none, some, ◌==◌, if◌then◌else◌, count, Option-cases,
}
use aosv_project.Hashtable.{Hashtable}
use aosv_project.Kernel.Objects.Index.{
  IsIndex-add, IsIndex-del, object-add, object-del, lookup-object, lookup-none,
}
use aosv_project.Kernel.Outcome.{ok, fault}
use aosv_project.Kernel.State.{Kst, Kernel, Alloc}
use aosv_project.Kernel.Valid.{Ends, IsValid, SchedulerAt, scheduler}
use aosv_project.Kernel.Scheduler.{
  kst_tid, get_ksched_thread, create_sched_thread, ksched_thread_copy, destroy_ksched_thread,
}

-- A scheduler that was just created, over the bytes of its allocation.
abbrev pub new_scheduler : Kst → (pid clid : ℕ) → Kst
new_scheduler bytes pid clid = record bytes {
  tid = pid;
  running = 0;
  elapsed_wt_running = 0;
  nswitches = 0;
  clc = clid;
}

module _ ⦃ht : Hashtable⦄ where
  open ht use {Table, nodes}

  pub get-SchedulerAt :
      (s : Kernel Table) {tid p : ℕ} {k : Kst}
      → SchedulerAt s tid p k
      → get_ksched_thread tid s ≡ ok (some p) s
  unfolding get_ksched_thread
  get-SchedulerAt s at = rw (at.found, get_ksched_thread)

  pub get-scheduler-none :
      (s : Kernel Table) (tid : ℕ)
      → IsValid s
      → scheduler s tid ≡ none
      → get_ksched_thread tid s ≡ ok none s
  unfolding get_ksched_thread
  get-scheduler-none s tid v gone =
      rw (lookup-none kst_tid s.st_htable s.ksts v.schedulers tid gone, get_ksched_thread)

  -- In a valid state whose table does not hold the new address, a thread that is no scheduler
  -- becomes one: the map of the schedulers gains it, idle and with no switch counted, the state
  -- stays valid, and nothing but the table and the objects of the schedulers changes.
  pub create_sched_thread-inserts :
      (s : Kernel Table) (a : Alloc Kst) (pid clid p : ℕ)
      → IsValid s
      → a.at ≡ some p
      → count p (nodes s.st_htable) ≡ 0
      → scheduler s pid ≡ none
      → Ends
          (λ _ t.
            IsValid t
            × ((j : ℕ)
                → scheduler t j
                  ≡ (if pid == j then some (new_scheduler a.bytes pid clid) else scheduler s j))
            × (t ≡ record s { st_htable = t.st_htable; ksts = t.ksts }))
          (create_sched_thread a pid clid s)
  unfolding create_sched_thread
  create_sched_thread-inserts s a pid clid p v at fresh free = rw at (
    record {
      workers = v.workers;
      schedulers =
          IsIndex-add kst_tid s.st_htable s.ksts v.schedulers p (new_scheduler a.bytes pid clid)
            fresh (lookup-none kst_tid s.st_htable s.ksts v.schedulers pid free);
      lists = v.lists;
      recent = v.recent;
    },
    (λ j.
        object-add kst_tid s.st_htable s.ksts v.schedulers p j (new_scheduler a.bytes pid clid)
          fresh),
    refl,
  )

  -- In a valid state, a copy of a scheduler is the scheduler of the map, or -1 where the map has
  -- none; it changes nothing.
  pub ksched_thread_copy-reads :
      (s : Kernel Table) (tid : ℕ) → IsValid s → ksched_thread_copy tid s ≡ ok (scheduler s tid) s
  unfolding ksched_thread_copy
  ksched_thread_copy-reads s tid v = elim (Option-cases (scheduler s tid)) [
    | inl gone ↦ rw (get-scheduler-none s tid v gone, gone)
    | inr (k, here) ↦
        let (p, at) = lookup-object kst_tid s.st_htable s.ksts v.schedulers tid k here in
        rw (get-SchedulerAt s at, at.there, here)
  ]

  -- In a valid state, destroying a scheduler of the map succeeds: the map loses its tid, the state
  -- stays valid, and nothing but the table and the objects of the schedulers changes. For a thread
  -- that is no scheduler the code reads through the pointer -1.
  pub destroy_ksched_thread-deletes :
      (s : Kernel Table) (tid : ℕ)
      → IsValid s
      → ((scheduler s tid ≡ none) × (destroy_ksched_thread tid s ≡ fault))
        ⊎ Ends
            (λ _ t.
              IsValid t
              × ((j : ℕ) → scheduler t j ≡ (if tid == j then none else scheduler s j))
              × (t ≡ record s { st_htable = t.st_htable; ksts = t.ksts }))
            (destroy_ksched_thread tid s)
  unfolding destroy_ksched_thread
  destroy_ksched_thread-deletes s tid v = elim (Option-cases (scheduler s tid)) [
    | inl gone ↦ inl (gone, rw (get-scheduler-none s tid v gone))
    | inr (k, here) ↦
        let (p, at) = lookup-object kst_tid s.st_htable s.ksts v.schedulers tid k here in
        inr (
          rw (get-SchedulerAt s at, at.there)
            (
              record {
                workers = v.workers;
                schedulers = IsIndex-del kst_tid s.st_htable s.ksts v.schedulers p;
                lists = v.lists;
                recent = v.recent;
              },
              (λ j.
                  rw (← at.same)
                    (object-del kst_tid s.st_htable s.ksts v.schedulers p j k at.there at.inside)),
              refl,
            ))
  ]
