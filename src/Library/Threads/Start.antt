-- ===== src/Library/Threads/Start.antt =====
-- `ums_create_worker_thread` of src/lib/ums.c from its start to the end of its loop, with and without
-- a new thread.
use aosv_project.Base.{
  ℕ, ◌≡◌, ◌≢◌, ◌⊎◌, refl, sym, subst, ap, ◌∙◌, inl, inr, Bool, true, false, some, arith, ◌==◌,
  minus_one, Bool-cases, eq_of_==,
}
use aosv_project.Library.{WorkerThread, worker_thread_init}
use aosv_project.Library.Create.{
  Parent, Create, locking, testing, waiting, woken, leaving, asking, created, entering, begin,
  parent_at, child_at,
}
use aosv_project.Library.Create.Handshake.{
  Next, at_places, is_past, Reach, start, later, turn, parent_turn, child_turn, spurious,
}
use aosv_project.Library.Create.Meet.{Reach-is_past}
use aosv_project.Library.Threads.{Pthreads, ums_create_worker_thread}

-- The states that the creating thread and, if it was made, the new one reach from the start of the
-- loop. `there` says whether the new thread was made; its tid is `me`.
pub data Runs (there : Bool) (me : ℕ) : Create → Type 0 where
  fresh : Runs there me begin
  parent_goes : {s t : Create} → Runs there me s → parent_at s.parent s ≡ some t → Runs there me t
  child_goes :
      {s t : Create}
      → Runs there me s
      → there ≡ true
      → child_at me s.child s ≡ some t
      → Runs there me t
  wakes :
      {s : Create}
      → Runs there me s
      → s.parent ≡ waiting
      → Runs there me (record s { parent = woken })

Runs-Reach : {there : Bool} {me : ℕ} {t : Create} → Runs there me t → Reach me t
Runs-Reach fresh = start
Runs-Reach (parent_goes r e) = later (Runs-Reach r) (turn (parent_turn e))
Runs-Reach (child_goes r h e) = later (Runs-Reach r) (turn (child_turn e))
Runs-Reach (wakes r h) = later (Runs-Reach r) (spurious h)

-- A creating thread that is alone stays before the end of its loop.
record Alone (me : ℕ) (s : Create) : Type 0 where
  past : is_past s.parent ≡ false
  same : s ≡ at_places me s.parent entering

parent_at-Alone :
    (me : ℕ) (p : Parent)
    → is_past p ≡ false
    → Next (Alone me) (parent_at p (at_places me p entering))
unfolding parent_at
parent_at-Alone me locking h = record { past = refl; same = refl }
parent_at-Alone me testing h = record { past = refl; same = refl }
parent_at-Alone me waiting h = tt
parent_at-Alone me woken h = record { past = refl; same = refl }
parent_at-Alone me leaving h = absurd (ground arith)
parent_at-Alone me asking h = absurd (ground arith)
parent_at-Alone me created h = absurd (ground arith)

Runs-Alone : {me : ℕ} {t : Create} → Runs false me t → Alone me t
Runs-Alone fresh = record { past = refl; same = refl }
Runs-Alone {me} (parent_goes {s} r e) =
    let a = Runs-Alone r in
    subst (Next (Alone me)) e (
      subst (λ x. Next (Alone me) (parent_at s.parent x)) (sym a.same)
        (parent_at-Alone me s.parent a.past))
Runs-Alone (child_goes r h e) = absurd (ground (arith, h))
Runs-Alone {me} (wakes {s} r h) =
    let a = Runs-Alone r in
    record {
      past = refl;
      same =
          ap (λ (x : Create). record x { parent = woken })
            (a.same ∙ ap (λ p. at_places me p entering) h);
    }

module _ {D Cpu Routine : Type 0} where
  module _ (pthreads : Pthreads D) (wt : WorkerThread Cpu Routine) (routine : Routine) (d : D) where
    -- The result of `pthread_create`, and the worker at the start of the loop.
    abbrev pub create_result : ℕ
    create_result = (pthreads.create (pthreads.mutex_init (pthreads.cond_init d).1).1).0

    abbrev pub prepared : WorkerThread Cpu Routine
    prepared = (ums_create_worker_thread pthreads wt routine d).1

    made :
        (there : Bool)
        → (ums_create_worker_thread pthreads wt routine d).0 ≡ some there
        → ((create_result == 0) ≡ there)
          × (prepared ≡ record wt { tid = begin.tid; worker_routine = routine })
    unfolding ums_create_worker_thread worker_thread_init
    made there h = elim (Bool-cases ((pthreads.cond_init d).0 == 0)) [
      | inr no_cond ↦ absurd (ground (arith, no_cond, h))
      | inl cond ↦ elim (Bool-cases ((pthreads.mutex_init (pthreads.cond_init d).1).0 == 0)) [
        | inr no_mutex ↦ absurd (ground (arith, cond, no_mutex, h))
        | inl mutex ↦ (
          ground (arith, cond, mutex, h),
          rw (prepared, ums_create_worker_thread, cond, mutex) refl,
        )
      ]
    ]

    -- A call of `ums_create_worker_thread` that comes to its loop has given the worker its routine and
    -- the tid -1. If `pthread_create` has failed, the tid stays -1 and the call never gets behind the
    -- loop, however often it is woken. If it has made a thread, the call gets behind its loop only with
    -- the tid of that thread in the worker, if that tid is not -1.
    pub ums_create_worker_thread-meets :
        (there : Bool) (me : ℕ) (t : Create)
        → (ums_create_worker_thread pthreads wt routine d).0 ≡ some there
        → (me == minus_one) ≡ false
        → Runs there me t
        → (prepared ≡ record wt { tid = begin.tid; worker_routine = routine })
          × ((create_result ≢ 0) × (t.tid ≡ minus_one) × (is_past t.parent ≡ false)
              ⊎ (create_result ≡ 0) × ((is_past t.parent ≡ false) ⊎ (t.tid ≡ me)))
    ums_create_worker_thread-meets there me t loops real run =
        let (known, ready) = made there loops in
        (
          ready,
          elim (Bool-cases (create_result == 0)) [
            | inr failed ↦
                let a = Runs-Alone (subst (λ b. Runs b me t) (sym known ∙ failed) run) in
                inl (ground (arith, failed), ap (λ (x : Create). x.tid) a.same, a.past)
            | inl ok ↦ inr (
              eq_of_== create_result 0 ok,
              elim (Bool-cases (is_past t.parent)) [
                | inr before ↦ inl before
                | inl past ↦ inr ((Reach-is_past me t real (Runs-Reach run)).1 past)
              ],
            )
          ],
        )
