-- ===== src/Kernel/Worker/Registry.antt =====
-- The table of the workers in src/lkm/kworker_thread.c as a finite map: what `create_worker_thread`,
-- `get_kworker_thread`, `kworker_thread_copy`, `worker_thread_add_clid` and
-- `destroy_kworker_thread` do to it.
use aosv_project.Base.{
  ℕ, ◌≡◌, refl, ◌⊎◌, true, false, inl, inr, none, some, [], ◌∷◌, arith, ◌==◌, if◌then◌else◌, count,
  minus_one, Option-cases, Bool-cases,
}
use aosv_project.Hashtable.{Hashtable}
use aosv_project.Interface.{wt_idle}
use aosv_project.Kernel.Objects.Index.{
  IsIndex-add, IsIndex-del, object-add, object-del, lookup-object, lookup-none,
}
use aosv_project.Kernel.Outcome.{ok, blocked}
use aosv_project.Kernel.State.{Kwt, Kernel, Alloc, workers, modify}
use aosv_project.Kernel.Valid.{Ends, IsValid, WorkerAt, worker}
use aosv_project.Kernel.Valid.Set.{Ends-and_then, Ends-mono, WorkerSet-trans, modify-WorkerSet}
use aosv_project.Kernel.Worker.Mutex.{mutex_lock-held, mutex_lock-free, mutex_unlock-WorkerSet}
use aosv_project.Kernel.Worker.{
  kwt_tid, get_kworker_thread, create_worker_thread, kworker_thread_copy, destroy_kworker_thread,
  worker_thread_add_clid, mutex_lock, mutex_unlock,
}

-- A worker that was just created, over the bytes of its allocation.
abbrev pub new_worker : Kwt → ℕ → Kwt
new_worker bytes tid = record bytes {
  tid = tid;
  state = wt_idle;
  nswitches = 0;
  total_measured = 0;
  mutex = false;
  clid_list = [];
  curr_sched_tid = minus_one;
}

module _ ⦃ht : Hashtable⦄ where
  open ht use {Table, nodes}

  pub get-at :
      (s : Kernel Table) {tid p : ℕ} {w : Kwt}
      → WorkerAt s tid p w
      → get_kworker_thread tid s ≡ ok (some p) s
  unfolding get_kworker_thread
  get-at s at = rw (at.found, get_kworker_thread)

  pub get-none :
      {s : Kernel Table} (tid : ℕ)
      → IsValid s
      → worker s tid ≡ none
      → get_kworker_thread tid s ≡ ok none s
  unfolding get_kworker_thread
  get-none {s} tid v gone =
      rw (lookup-none kwt_tid s.wt_htable s.kwts v.workers tid gone, get_kworker_thread)

  -- In a valid state whose table does not hold the new address, creating a worker under an unused
  -- tid succeeds: the map of the workers gains it, idle and unlocked, the state stays valid, and
  -- nothing but the table and the objects of the workers changes.
  pub create_worker_thread-inserts :
      (s : Kernel Table) (a : Alloc Kwt) (tid p : ℕ)
      → IsValid s
      → a.at ≡ some p
      → count p (nodes s.wt_htable) ≡ 0
      → worker s tid ≡ none
      → Ends
          (λ _ t.
            IsValid t
            × ((j : ℕ)
                → worker t j ≡ (if tid == j then some (new_worker a.bytes tid) else worker s j))
            × (t ≡ record s { wt_htable = t.wt_htable; kwts = t.kwts }))
          (create_worker_thread a tid s)
  unfolding create_worker_thread
  create_worker_thread-inserts s a tid p v at fresh free = rw at (
    record {
      workers =
          IsIndex-add kwt_tid s.wt_htable s.kwts v.workers p (new_worker a.bytes tid) fresh
            (lookup-none kwt_tid s.wt_htable s.kwts v.workers tid free);
      schedulers = v.schedulers;
      lists = v.lists;
      recent = v.recent;
    },
    (λ j. object-add kwt_tid s.wt_htable s.kwts v.workers p j (new_worker a.bytes tid) fresh),
    refl,
  )

  -- In a valid state, destroying a worker succeeds whether it exists or not: the map of the workers
  -- loses its tid, the state stays valid, and nothing but the table and the objects of the workers
  -- changes.
  pub destroy_kworker_thread-deletes :
      (s : Kernel Table) (tid : ℕ)
      → IsValid s
      → Ends
          (λ _ t.
            IsValid t
            × ((j : ℕ) → worker t j ≡ (if tid == j then none else worker s j))
            × (t ≡ record s { wt_htable = t.wt_htable; kwts = t.kwts }))
          (destroy_kworker_thread tid s)
  unfolding destroy_kworker_thread
  destroy_kworker_thread-deletes s tid v = elim (Option-cases (worker s tid)) [
    | inl gone ↦ rw (get-none tid v gone) (v, (λ j. ground arith), refl)
    | inr (w, here) ↦
        let (p, at) = lookup-object kwt_tid s.wt_htable s.kwts v.workers tid w here in
        rw (get-at s at, at.there)
          (
            record {
              workers = IsIndex-del kwt_tid s.wt_htable s.kwts v.workers p;
              schedulers = v.schedulers;
              lists = v.lists;
              recent = v.recent;
            },
            (λ j.
                rw (← at.same)
                  (object-del kwt_tid s.wt_htable s.kwts v.workers p j w at.there at.inside)),
            refl,
          )
  ]

  -- In a valid state, a copy of a worker is the worker of the map, or -1 where the map has none; it
  -- changes nothing.
  pub kworker_thread_copy-reads :
      (s : Kernel Table) (tid : ℕ) → IsValid s → kworker_thread_copy tid s ≡ ok (worker s tid) s
  unfolding kworker_thread_copy
  kworker_thread_copy-reads s tid v = elim (Option-cases (worker s tid)) [
    | inl gone ↦ rw (get-none tid v gone, gone)
    | inr (w, here) ↦
        let (p, at) = lookup-object kwt_tid s.wt_htable s.kwts v.workers tid w here in
        rw (get-at s at, at.there, here)
  ]

  -- In a valid state, adding a list to a worker of the map waits where the worker's mutex is held,
  -- and otherwise puts the id first in the worker's `clid_list`: no other worker and nothing else
  -- changes, and the state stays valid.
  pub worker_thread_add_clid-adds :
      (s : Kernel Table) (cle tid clid : ℕ) (w : Kwt)
      → IsValid s
      → worker s tid ≡ some w
      → ((w.mutex ≡ true) × (worker_thread_add_clid (some cle) tid clid s ≡ blocked))
        ⊎ Ends
            (λ _ t.
              (w.mutex ≡ false)
              × IsValid t
              × ((j : ℕ)
                  → worker t j ≡ (
                      if j == tid
                      then some (record w { clid_list = clid ∷ w.clid_list })
                      else worker s j))
              × (t ≡ record s { kwts = t.kwts }))
            (worker_thread_add_clid (some cle) tid clid s)
  unfolding worker_thread_add_clid
  worker_thread_add_clid-adds s cle tid clid w v here =
      let (p, at) = lookup-object kwt_tid s.wt_htable s.kwts v.workers tid w here in
      rw (get-at s at) (elim (Bool-cases w.mutex) [
        | inl held ↦ inl (held, rw (mutex_lock-held v at held))
        | inr free ↦ inr (
            Ends-and_then _ (mutex_lock (some p) s) _ (mutex_lock-free v at free) λ _ t a.
              Ends-and_then _ (modify workers (some p) add t) _
                (modify-WorkerSet a.valid add a.at refl)
                λ _ u b.
                  Ends-mono (mutex_unlock (some p) u) (mutex_unlock-WorkerSet b.valid b.at) λ _ x c.
                    let d = WorkerSet-trans a (WorkerSet-trans b c) in
                    (free, d.valid, (λ j. ground (arith, d.workers j)), d.frame))
      ])
    where
      add : Kwt → Kwt
      add x = record x { clid_list = clid ∷ x.clid_list }
