-- ===== src/Kernel/CompletionList.antt =====
-- src/lkm/kcompletion_list.c and the macros of src/lkm/kcompletion_list.h.
pub mod Registry
pub mod Unload
pub mod Loops
pub mod Grab
pub mod Take
pub mod Dequeue
pub mod Reserve
pub mod Exclusion
use aosv_project.Base.{
  ℕ, ◌+◌, none, some, List, [], ◌∷◌, if◌then◌else◌, ltb, ◌==◌, inc, dec, minus_one, is_some, set,
}
use aosv_project.Hashtable.{Hashtable}
use aosv_project.Interface.{max_wt}
use aosv_project.Kernel.Objects.{Ptr, scan}
use aosv_project.Kernel.Outcome.{ok, fault, pure, ◌>>=◌, ◌>>◌}
use aosv_project.Kernel.State.{
  Kcl, Alloc, M, workers, lists, load, store, modify, free, wake_up_all,
}
use aosv_project.Kernel.Worker.{get_kworker_thread, mutex_trylock}

abbrev pub kcl_id : {T : Type 0} → Kcl T → ℕ
kcl_id c = c.clc

module _ ⦃ht : Hashtable⦄ where
  open ht use {Table, init, add, del, possible, nodes}

  -- `hash_add_rcu` on `compl_list_htable`
  unfoldable pub add_kcl : (clid : ℕ) → Ptr → M Table (Unit {0})
  add_kcl clid none s = fault
  add_kcl clid (some p) s = ok tt (record s { compl_list_htable = add clid p s.compl_list_htable })

  -- The result is the `id` that the caller's structure gets.
  unfoldable pub init_completion_list : Alloc (Kcl Table) → M Table ℕ
  unfolding store add_kcl
  init_completion_list a s =
      let id = s.compl_list_last_id in
      (do
        store lists a.at (
            some
              (record a.bytes { clc = id; threads_ready = 0; nthreads = 0; wt_ready_queue = init }))
        add_kcl id a.at
        λ t. ok id (record t { compl_list_last_id = inc t.compl_list_last_id }))
        s

  unfoldable pub get_kcompletion_list : ℕ → M Table Ptr
  get_kcompletion_list clid s = elim (scan kcl_id s.kcls clid (possible s.compl_list_htable clid)) [
    | none ↦ fault
    | some r ↦ ok r s
  ]

  -- `kcle` is what `kmalloc` returns for the new `kcompletion_list_elem`.
  unfoldable pub add_worker_thread : (kcle : Ptr) → (tid clid : ℕ) → M Table (Unit {0})
  unfolding modify
  add_worker_thread kcle tid clid =
      if is_some kcle
      then (do
        kcl ← get_kcompletion_list clid
        modify lists kcl λ c. record c {
          wt_ready_queue = add tid tid c.wt_ready_queue;
          threads_ready = inc c.threads_ready;
          nthreads = inc c.nthreads;
        })
      else (λ _. fault)

  -- `list_for_each(lpos, &kwt->clid_list)`
  unfoldable pub for_each_clid : (ℕ → M Table (Unit {0})) → List ℕ → M Table (Unit {0})
  for_each_clid body [] = pure tt
  for_each_clid body (clid ∷ clids) = do body clid; for_each_clid body clids

  unfoldable pub inc_threads_ready : ℕ → M Table (Unit {0})
  unfolding modify
  inc_threads_ready clid = do
    kcl ← get_kcompletion_list clid
    modify lists kcl λ c. record c { threads_ready = inc c.threads_ready }

  unfoldable pub dec_threads_ready : ℕ → M Table (Unit {0})
  unfolding modify
  dec_threads_ready clid = do
    kcl ← get_kcompletion_list clid
    modify lists kcl λ c. record c { threads_ready = dec c.threads_ready }

  -- `hash_for_each_possible_safe`, with `hash_del` on each node of the worker
  unfoldable pub drop_elems : (tid : ℕ) → List ℕ → Table → Table
  drop_elems tid [] q = q
  drop_elems tid (t ∷ ts) q = drop_elems tid ts (if t == tid then del t q else q)

  unfoldable pub dec_nthreads : (tid clid : ℕ) → M Table (Unit {0})
  unfolding modify drop_elems
  dec_nthreads tid clid = do
    kcl ← get_kcompletion_list clid
    modify lists kcl λ c. record c {
      wt_ready_queue = drop_elems tid (possible c.wt_ready_queue tid) c.wt_ready_queue;
      nthreads = dec c.nthreads;
    }

  unfoldable pub wake_up_waiting : ℕ → M Table (Unit {0})
  unfolding load wake_up_all
  wake_up_waiting clid = do kcl ← get_kcompletion_list clid; c ← load lists kcl; wake_up_all c.clc

  unfoldable pub for_each_inc_kcl_threads_ready : Ptr → M Table (Unit {0})
  unfolding load for_each_clid inc_threads_ready
  for_each_inc_kcl_threads_ready kwt = do
    w ← load workers kwt
    for_each_clid inc_threads_ready w.clid_list

  unfoldable pub for_each_dec_kcl_threads_ready : Ptr → M Table (Unit {0})
  unfolding load for_each_clid dec_threads_ready
  for_each_dec_kcl_threads_ready kwt = do
    w ← load workers kwt
    for_each_clid dec_threads_ready w.clid_list

  unfoldable pub for_each_dec_kcl_nthreads : Ptr → M Table (Unit {0})
  unfolding load for_each_clid dec_nthreads
  for_each_dec_kcl_nthreads kwt = do
    w ← load workers kwt
    for_each_clid (dec_nthreads w.tid) w.clid_list

  unfoldable pub wake_up_schedulers : Ptr → M Table (Unit {0})
  unfolding load for_each_clid wake_up_waiting
  wake_up_schedulers kwt = do w ← load workers kwt; for_each_clid wake_up_waiting w.clid_list

  -- The body of the loop of `get_wt_ready_queue`, at `i < MAX_WT`.
  unfoldable pub take_ready : Ptr → ℕ → List ℕ → M Table (ℕ × List ℕ)
  unfolding mutex_trylock load
  take_ready kwt i out = do
    locked ← mutex_trylock kwt
    if locked
        then (do
          w ← load workers kwt
          for_each_dec_kcl_threads_ready kwt
          pure (i + 1, set out i w.tid))
        else pure (i, out)

  unfoldable pub ready_loop : List ℕ → ℕ → List ℕ → M Table (ℕ × List ℕ)
  ready_loop [] i out = pure (i, out)
  ready_loop (tid ∷ tids) i out = do
    kwt ← get_kworker_thread tid
    (j, out') ← if ltb i max_wt then take_ready kwt i out else pure (i, out)
    ready_loop tids j out'

  -- The result is `i`, and the array `wt_ready_queue` of the caller.
  unfoldable pub get_wt_ready_queue : (clid : ℕ) → List ℕ → M Table (ℕ × List ℕ)
  unfolding load
  get_wt_ready_queue clid out = do
    kcl ← get_kcompletion_list clid
    c ← load lists kcl
    if c.nthreads == 0 then pure (minus_one, out) else ready_loop (nodes c.wt_ready_queue) 0 out

  drop_all : List ℕ → Table → Table
  drop_all [] q = q
  drop_all (t ∷ ts) q = drop_all ts (del t q)

  -- The two loops that empty a list and free it.
  unfoldable pub discard_kcl : Ptr → M Table (Unit {0})
  unfolding load modify drop_all free
  discard_kcl none = λ _. fault
  discard_kcl (some p) = do
    modify lists (some p)
        λ c. record c { wt_ready_queue = drop_all (nodes c.wt_ready_queue) c.wt_ready_queue }
    free lists (some p)
    λ s. ok tt (record s { compl_list_htable = del p s.compl_list_htable })

  unfoldable pub destroy_completion_list : ℕ → M Table (Unit {0})
  unfolding discard_kcl
  destroy_completion_list clid = do kcl ← get_kcompletion_list clid; discard_kcl kcl

  discard_all : List ℕ → M Table (Unit {0})
  unfolding discard_kcl
  discard_all [] = pure tt
  discard_all (p ∷ ps) = do discard_kcl (some p); discard_all ps

  unfoldable pub destroy_kcl_htable : M Table (Unit {0})
  unfolding discard_all
  destroy_kcl_htable s = discard_all (nodes s.compl_list_htable) s
