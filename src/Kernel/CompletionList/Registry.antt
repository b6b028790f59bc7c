-- ===== src/Kernel/CompletionList/Registry.antt =====
-- The table of the completion lists in src/lkm/kcompletion_list.c as a finite map: what
-- `init_completion_list`, `add_worker_thread` and `destroy_completion_list` do to it.
use aosv_project.Base.{
  ℕ, ◌+◌, ◌^◌, ◌<◌, ◌≡◌, refl, ◌⊎◌, inl, inr, none, some, arith, ◌==◌, if◌then◌else◌, count, inc,
  update, ap, Option-cases,
}
use aosv_project.Hashtable.{Hashtable}
use aosv_project.Kernel.Objects.Index.{
  object, IsIndex-add, IsIndex-del, object-add, object-del, lookup-object, lookup-none,
}
use aosv_project.Kernel.Outcome.{fault}
use aosv_project.Kernel.State.{Kcl, Kernel, Alloc, lists, modify}
use aosv_project.Kernel.Valid.{Ends, IsValid, ListAt, completion_list}
use aosv_project.Kernel.Valid.Set.{Ends-and_then, Ends-mono, modify-ListSet}
use aosv_project.Kernel.CompletionList.{
  kcl_id, init_completion_list, add_worker_thread, destroy_completion_list, discard_kcl, drop_all,
}
use aosv_project.Kernel.CompletionList.Loops.{get-ListAt, get-list_none}

module _ ⦃ht : Hashtable⦄ where
  open ht use {Table, init, add, del, nodes}

  -- A list that was just created, over the bytes of its allocation.
  abbrev pub new_list : Kcl Table → ℕ → Kcl Table
  new_list bytes clid = record bytes {
    clc = clid;
    threads_ready = 0;
    nthreads = 0;
    wt_ready_queue = init;
  }

  unused : (s : Kernel Table) → IsValid s → completion_list s s.compl_list_last_id ≡ none
  unused s v = elim (Option-cases (completion_list s s.compl_list_last_id)) [
    | inl e ↦ e
    | inr (c, e) ↦ absurd (omega (arith, v.recent s.compl_list_last_id c e))
  ]

  -- In a valid state whose table does not hold the new address, and whose next id is not the last
  -- `int`, creating a completion list succeeds: its id is the next one, which no list has, the map
  -- of the lists gains an empty list with that id, the state stays valid, and beside the lists only
  -- the next id changes.
  pub init_completion_list-inserts :
      (s : Kernel Table) (a : Alloc (Kcl Table)) (p : ℕ)
      → IsValid s
      → a.at ≡ some p
      → count p (nodes s.compl_list_htable) ≡ 0
      → s.compl_list_last_id + 1 < 2 ^ 32
      → Ends
          (λ id t.
            (id ≡ s.compl_list_last_id)
            × (completion_list s id ≡ none)
            × IsValid t
            × ((j : ℕ)
                → completion_list t j
                  ≡ (if id == j then some (new_list a.bytes id) else completion_list s j))
            × (t ≡ record s {
              compl_list_htable = t.compl_list_htable;
              compl_list_last_id = s.compl_list_last_id + 1;
              kcls = t.kcls;
            }))
          (init_completion_list a s)
  unfolding init_completion_list
  init_completion_list-inserts s a p v at fresh room = rw at (
    refl,
    unused s v,
    record {
      workers = v.workers;
      schedulers = v.schedulers;
      lists =
          IsIndex-add kcl_id s.compl_list_htable s.kcls v.lists p
            (new_list a.bytes s.compl_list_last_id) fresh
            (lookup-none kcl_id s.compl_list_htable s.kcls v.lists s.compl_list_last_id
              (unused s v));
      recent = λ j c e. ground (arith, insert j, v.recent j c);
    },
    insert,
    ground arith,
  )
    where
      insert :
          (j : ℕ)
          → object kcl_id
              (add s.compl_list_last_id p s.compl_list_htable)
              (update s.kcls p (some (new_list a.bytes s.compl_list_last_id)))
              j
            ≡ (if s.compl_list_last_id == j
                then some (new_list a.bytes s.compl_list_last_id)
                else completion_list s j)
      insert j =
          object-add kcl_id s.compl_list_htable s.kcls v.lists p j
            (new_list a.bytes s.compl_list_last_id) fresh

  -- In a valid state, adding a worker to a list of the map puts its tid into the list's ready queue
  -- and counts it as ready and as one that can run: no other list and nothing else changes, and
  -- the state stays valid. For an id that no list has the code reads through the pointer -1.
  pub add_worker_thread-adds :
      (s : Kernel Table) (kcle tid clid : ℕ)
      → IsValid s
      → ((completion_list s clid ≡ none) × (add_worker_thread (some kcle) tid clid s ≡ fault))
        ⊎ ((c : Kcl Table) × (completion_list s clid ≡ some c)
            × Ends
                (λ _ t.
                  IsValid t
                  × ((j : ℕ)
                      → completion_list t j ≡ (
                          if j == clid
                          then some (record c {
                            wt_ready_queue = add tid tid c.wt_ready_queue;
                            threads_ready = inc c.threads_ready;
                            nthreads = inc c.nthreads;
                          })
                          else completion_list s j))
                  × (t ≡ record s { kcls = t.kcls }))
                (add_worker_thread (some kcle) tid clid s))
  unfolding add_worker_thread
  add_worker_thread-adds s kcle tid clid v = elim (Option-cases (completion_list s clid)) [
    | inl gone ↦ inl (gone, rw (get-list_none s clid v gone))
    | inr (c, here) ↦
        let (p, at) = lookup-object kcl_id s.compl_list_htable s.kcls v.lists clid c here in
        inr (
          c,
          here,
          rw (get-ListAt s at) (
              Ends-mono (modify lists (some p) _ s) (modify-ListSet v _ at refl)
                λ _ t b. (b.valid, b.lists, b.frame)),
        )
  ]

  discard_kcl-deletes :
      (s : Kernel Table) (clid p : ℕ) (c : Kcl Table)
      → IsValid s
      → ListAt s clid p c
      → Ends
          (λ _ t.
            IsValid t
            × ((j : ℕ) → completion_list t j ≡ (if clid == j then none else completion_list s j))
            × (t ≡ record s { compl_list_htable = t.compl_list_htable; kcls = t.kcls }))
          (discard_kcl (some p) s)
  unfolding discard_kcl
  discard_kcl-deletes s clid p c v at =
      Ends-and_then _ (modify lists (some p) empty s) _ (modify-ListSet v empty at refl) λ _ t b.
        rw b.at.there (
          record {
            workers = b.valid.workers;
            schedulers = b.valid.schedulers;
            lists = IsIndex-del kcl_id t.compl_list_htable t.kcls b.valid.lists p;
            recent =
                λ j d e. ground (arith, deleted t (empty c) b.valid b.at j, b.valid.recent j d);
          },
          (λ j. ground (arith, deleted t (empty c) b.valid b.at j, b.lists j)),
          ap
              (λ (r : Kernel Table). record r {
                compl_list_htable = del p t.compl_list_htable;
                kcls = update t.kcls p none;
              })
              b.frame,
        )
    where
      empty : Kcl Table → Kcl Table
      empty d = record d { wt_ready_queue = drop_all (nodes d.wt_ready_queue) d.wt_ready_queue }

      deleted :
          (t : Kernel Table) (d : Kcl Table)
          → IsValid t
          → ListAt t clid p d
          → (j : ℕ)
          → object kcl_id (del p t.compl_list_htable) (update t.kcls p none) j
            ≡ (if clid == j then none else completion_list t j)
      deleted t d w at' j =
          rw (← at'.same)
            (object-del kcl_id t.compl_list_htable t.kcls w.lists p j d at'.there at'.inside)

  -- In a valid state, destroying a list of the map succeeds: the map loses its id, the state stays
  -- valid, and nothing but the lists changes. For an id that no list has the code reads through the
  -- pointer -1.
  pub destroy_completion_list-deletes :
      (s : Kernel Table) (clid : ℕ)
      → IsValid s
      → ((completion_list s clid ≡ none) × (destroy_completion_list clid s ≡ fault))
        ⊎ Ends
            (λ _ t.
              IsValid t
              × ((j : ℕ) → completion_list t j ≡ (if clid == j then none else completion_list s j))
              × (t ≡ record s { compl_list_htable = t.compl_list_htable; kcls = t.kcls }))
            (destroy_completion_list clid s)
  unfolding destroy_completion_list
  destroy_completion_list-deletes s clid v = elim (Option-cases (completion_list s clid)) [
    | inl gone ↦ inl (gone, rw (get-list_none s clid v gone))
    | inr (c, here) ↦
        let (p, at) = lookup-object kcl_id s.compl_list_htable s.kcls v.lists clid c here in
        inr (rw (get-ListAt s at) (discard_kcl-deletes s clid p c v at))
  ]
