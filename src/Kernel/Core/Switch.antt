-- ===== src/Kernel/Core/Switch.antt =====
-- UMSTHREADTYIELD and WORKERTHREADEXIT of src/lkm/ums_core.c: a worker gives the processor back to
-- its scheduler.
use mathlib.Core.Option
use aosv_project.Base.{
  ℕ, ◌≡◌, refl, sym, ap, subst, ◌∙◌, true, false, ◌⊎◌, inl, inr, some, ◌∷◌, arith, ◌==◌,
  if◌then◌else◌, count, inc, dec, minus_one, Bool-cases,
}
use aosv_project.Hashtable.{Hashtable}
use aosv_project.Interface.{wt_exiting, wt_idle}
use aosv_project.Kernel.Objects.Index.{lookup-object}
use aosv_project.Kernel.Outcome.{fault}
use aosv_project.Kernel.State.{Kwt, Kcl, Kernel, Event, wake, workers, modify}
use aosv_project.Kernel.Worker.{
  kwt_tid, set_kwt_in_idle_state, set_kwt_in_exiting_state, wake_up_scheduler,
}
use aosv_project.Kernel.Worker.Registry.{get-at}
use aosv_project.Kernel.CompletionList.{dec_nthreads, for_each_dec_kcl_nthreads, drop_elems}
use aosv_project.Kernel.CompletionList.Loops.{
  iterate, Known, ListsSet, for_each_clid-iterates, dec_nthreads-Applies,
}
use aosv_project.Kernel.Valid.{Ends, IsValid, WorkerAt, worker, completion_list}
use aosv_project.Kernel.Valid.Step.{IsValid-events}
use aosv_project.Kernel.Valid.Set.{Ends-and_then, and_then-eq, Ends-mono, modify-WorkerSet}
use aosv_project.Kernel.Core.{thread_yield, thread_exit}

module _ ⦃ht : Hashtable⦄ where
  open ht use {Table, possible}

  abbrev pub parted : Kwt → Kwt
  parted w = record w { curr_sched_tid = minus_one }

  -- `t` is `s` with `x` for the worker `tid`, and one more event.
  pub record Woken (s t : Kernel Table) (tid : ℕ) (x : Kwt) (e : Event) : Type 0 where
    pub valid : IsValid t
    pub workers : (j : ℕ) → worker t j ≡ (if j == tid then some x else worker s j)
    pub frame : t ≡ record s { kwts = t.kwts; events = e ∷ s.events }

  wake_up_scheduler-wakes :
      (s : Kernel Table) (tid p : ℕ) (w : Kwt)
      → IsValid s
      → WorkerAt s tid p w
      → s.alive w.curr_sched_tid ≡ true
      → Ends
          (λ _ t. Woken s t tid (parted w) (wake w.curr_sched_tid) × WorkerAt t tid p (parted w))
          (wake_up_scheduler (some p) s)
  unfolding wake_up_scheduler
  wake_up_scheduler-wakes s tid p w v at lives =
      rw (at.there, lives)
        (Ends-mono
          (modify workers (some p) parted (record s { events = wake w.curr_sched_tid ∷ s.events }))
          (modify-WorkerSet (IsValid-events v _) parted at refl)
          λ _ t a. (record { valid = a.valid; workers = a.workers; frame = a.frame }, a.at))

  wake_up_scheduler-dead :
      (s : Kernel Table) (tid p : ℕ) (w : Kwt)
      → WorkerAt s tid p w
      → s.alive w.curr_sched_tid ≡ false
      → wake_up_scheduler (some p) s ≡ fault
  unfolding wake_up_scheduler
  wake_up_scheduler-dead s tid p w at dead = rw (at.there, dead)

  abbrev pub paused : Kwt → Kwt
  paused w = record w { nswitches = inc w.nswitches; state = wt_idle }

  -- The worker stays where it is.
  pub yield-alive :
      (s : Kernel Table) (tid p : ℕ) (w : Kwt)
      → IsValid s
      → WorkerAt s tid p w
      → s.alive w.curr_sched_tid ≡ true
      → Ends
          (λ _ t.
            Woken s t tid (parted (paused w)) (wake w.curr_sched_tid)
            × WorkerAt t tid p (parted (paused w)))
          (thread_yield tid s)
  unfolding thread_yield set_kwt_in_idle_state
  yield-alive s tid p w v at lives = rw (get-at s at) (
      Ends-and_then _ (modify workers (some p) paused s) _ (modify-WorkerSet v paused at refl)
        λ _ t a.
          Ends-mono (wake_up_scheduler (some p) t)
            (wake_up_scheduler-wakes t tid p (paused w) a.valid a.at (ground (arith, a.frame)))
            λ _ u (b, at'). (
              record {
                valid = b.valid;
                workers = λ j. ground (arith, b.workers j, a.workers j);
                frame = ground (arith, b.frame, a.frame);
              },
              at',
            ))

  yield-dead :
      (s : Kernel Table) (tid p : ℕ) (w : Kwt)
      → IsValid s
      → WorkerAt s tid p w
      → s.alive w.curr_sched_tid ≡ false
      → thread_yield tid s ≡ fault
  unfolding thread_yield set_kwt_in_idle_state
  yield-dead s tid p w v at dead = rw (get-at s at) (
      and_then-eq (modify workers (some p) paused s) _ fault (modify-WorkerSet v paused at refl)
        λ _ t a. wake_up_scheduler-dead t tid p (paused w) a.at (ground (arith, a.frame)))

  -- In a valid state with the worker in the map: if the thread of the worker's scheduler is alive,
  -- a yield counts a switch, marks the worker idle and without a scheduler, wakes the scheduler,
  -- changes nothing else and keeps the state valid. If it is not, as for a worker that no scheduler
  -- runs and whose `curr_sched_tid` is -1, the code reads through a null pointer.
  pub thread_yield-wakes :
      (s : Kernel Table) (tid : ℕ) (w : Kwt)
      → IsValid s
      → worker s tid ≡ some w
      → ((s.alive w.curr_sched_tid ≡ false) × (thread_yield tid s ≡ fault))
        ⊎ ((s.alive w.curr_sched_tid ≡ true)
            × Ends
                (λ _ t. Woken s t tid (parted (paused w)) (wake w.curr_sched_tid))
                (thread_yield tid s))
  thread_yield-wakes s tid w v here =
      let (p, at) = lookup-object kwt_tid s.wt_htable s.kwts v.workers tid w here in
      elim (Bool-cases (s.alive w.curr_sched_tid)) [
        | inl lives ↦ inr (
          lives,
          Ends-mono (thread_yield tid s) (yield-alive s tid p w v at lives) λ _ t (a, _). a,
        )
        | inr dead ↦ inl (dead, yield-dead s tid p w v at dead)
      ]

  abbrev pub ended : Kwt → Kwt
  ended w = record w { state = wt_exiting }

  -- A list without the worker `tid`: it can run no more.
  abbrev pub without : (tid : ℕ) → Kcl Table → Kcl Table
  without tid c = record c {
    wt_ready_queue = drop_elems tid (possible c.wt_ready_queue tid) c.wt_ready_queue;
    nthreads = dec c.nthreads;
  }

  -- What WORKERTHREADEXIT leaves behind, of a worker `w`.
  pub record Exited (s t : Kernel Table) (tid : ℕ) (w : Kwt) : Type 0 where
    pub valid : IsValid t
    pub workers : (j : ℕ) → worker t j ≡ (if j == tid then some (parted (ended w)) else worker s j)
    pub lists :
        (j : ℕ)
        → completion_list t j
          ≡ Option.map (iterate (count j w.clid_list) (without w.tid)) (completion_list s j)
    pub frame :
        t ≡ record s { kwts = t.kwts; kcls = t.kcls; events = wake w.curr_sched_tid ∷ s.events }

  leave_lists :
      (s : Kernel Table) (tid p : ℕ) (w : Kwt)
      → IsValid s
      → WorkerAt s tid p w
      → Known s w.clid_list
      → Ends
          (λ _ t.
            ListsSet s t (λ j.
              Option.map (iterate (count j w.clid_list) (without w.tid)) (completion_list s j)))
          (for_each_dec_kcl_nthreads (some p) s)
  unfolding for_each_dec_kcl_nthreads
  leave_lists s tid p w v at known = rw at.there (
      for_each_clid-iterates (without w.tid) (λ c. refl) (dec_nthreads w.tid)
        (dec_nthreads-Applies w.tid) w.clid_list s v known)

  exit-at :
      (s : Kernel Table) (tid p : ℕ) (w : Kwt)
      → IsValid s
      → WorkerAt s tid p w
      → Known s w.clid_list
      → s.alive w.curr_sched_tid ≡ true
      → Ends (λ _ t. Exited s t tid w) (thread_exit tid s)
  unfolding thread_exit set_kwt_in_exiting_state
  exit-at s tid p w v at known lives = rw (get-at s at) (
      Ends-and_then _ (modify workers (some p) ended s) _ (modify-WorkerSet v ended at refl)
        λ _ t a.
          Ends-and_then _ (for_each_dec_kcl_nthreads (some p) t) _
            (leave_lists t tid p (ended w) a.valid a.at
              (subst (λ (r : Kernel Table). Known r w.clid_list) (sym a.frame) known))
            λ _ u b.
              Ends-mono (wake_up_scheduler (some p) u)
                (wake_up_scheduler-wakes u tid p (ended w) b.valid
                  (subst (λ (r : Kernel Table). WorkerAt r tid p (ended w)) (sym b.frame) a.at)
                  (ground (arith, b.frame, a.frame)))
                λ _ e (c, _). record {
                  valid = c.valid;
                  workers = λ j. ground (arith, c.workers j, b.frame, a.workers j);
                  lists = λ j.
                      ap (λ (r : Kernel Table). completion_list r j) c.frame
                      ∙ b.lists j
                      ∙ ap
                          (λ (r : Kernel Table).
                            Option.map (iterate (count j w.clid_list) (without w.tid))
                              (completion_list r j))
                          a.frame;
                  frame = ground (arith, c.frame, b.frame, a.frame);
                })

  -- In a valid state with the worker in the map, its scheduler's thread alive and every list of the
  -- worker there, an exit marks the worker as exiting and without a scheduler, takes it off the
  -- ready queue of each of its lists, lowers the list's count of threads that can run once for each
  -- time that the worker names it, wakes the scheduler, changes nothing else and keeps the state
  -- valid.
  pub thread_exit-leaves :
      (s : Kernel Table) (tid : ℕ) (w : Kwt)
      → IsValid s
      → worker s tid ≡ some w
      → Known s w.clid_list
      → s.alive w.curr_sched_tid ≡ true
      → Ends (λ _ t. Exited s t tid w) (thread_exit tid s)
  thread_exit-leaves s tid w v here known lives =
      let (p, at) = lookup-object kwt_tid s.wt_htable s.kwts v.workers tid w here in
      exit-at s tid p w v at known lives
