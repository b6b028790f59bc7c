-- ===== src/Kernel/Core/Execute.antt =====
-- EXECUTEUMSTHREAD of src/lkm/ums_core.c: what a scheduler does before it waits for a worker.
use aosv_project.Base.{
  ℕ, ◌≡◌, refl, sym, subst, true, some, List, ◌∷◌, arith, ◌==◌, if◌then◌else◌, inc,
}
use aosv_project.Hashtable.{Hashtable}
use aosv_project.Interface.{wt_running}
use aosv_project.Kernel.Objects.{Ptr}
use aosv_project.Kernel.Objects.Index.{lookup-object}
use aosv_project.Kernel.Outcome.{pure, ◌>>◌}
use aosv_project.Kernel.State.{Kwt, Kst, Kernel, Event, wake, workers, schedulers, modify}
use aosv_project.Kernel.Worker.{kwt_tid}
use aosv_project.Kernel.Worker.Registry.{get-at}
use aosv_project.Kernel.Scheduler.{kst_tid, wake_up_worker}
use aosv_project.Kernel.Scheduler.Registry.{get-SchedulerAt}
use aosv_project.Kernel.Valid.{Ends, IsValid, WorkerAt, SchedulerAt, worker, scheduler}
use aosv_project.Kernel.Valid.Step.{IsValid-events}
use aosv_project.Kernel.Valid.Set.{
  Ends-and_then, WorkerSet, SchedulerSet, modify-WorkerSet, modify-SchedulerSet,
}
use aosv_project.Kernel.Core.{execute_begin}

module _ ⦃ht : Hashtable⦄ where
  open ht use {Table}

  -- `t` is `s` with `x` for the worker `tid`, `y` for the scheduler `pid`, and the events `es`.
  pub record Switched (s t : Kernel Table) (tid pid : ℕ) (x : Kwt) (y : Kst) (es : List Event)
      : Type 0 where
    pub valid : IsValid t
    pub workers : (j : ℕ) → worker t j ≡ (if j == tid then some x else worker s j)
    pub schedulers : (j : ℕ) → scheduler t j ≡ (if j == pid then some y else scheduler s j)
    pub frame : t ≡ record s { kwts = t.kwts; ksts = t.ksts; events = es }

  -- The pointers that EXECUTEUMSTHREAD keeps while it waits.
  pub record Waiting (t : Kernel Table) (tid pid : ℕ) (x : Kwt) (y : Kst) (r : Ptr × Ptr)
      : Type 0 where
    pub kwt : ℕ
    pub kst : ℕ
    pub pointers : r ≡ (some kwt, some kst)
    pub kwt_at : WorkerAt t tid kwt x
    pub kst_at : SchedulerAt t pid kst y

  abbrev pub busy : Kst → ℕ → Kst
  busy k tid = record k { nswitches = inc k.nswitches; wt_running = tid; running = 1 }

  abbrev pub started : Kwt → (pid now : ℕ) → Kwt
  started w pid now = record w { state = wt_running; last_measured = now; curr_sched_tid = pid }

  -- The worker's thread is woken, after both objects have been written.
  execute_begin-wake :
      (s t u : Kernel Table) (tid pid p q : ℕ) (x : Kwt) (y : Kst)
      → SchedulerSet s t pid q y
      → WorkerSet t u tid p x
      → s.alive tid ≡ true
      → Ends
          (λ r e. Switched s e tid pid x y (wake tid ∷ s.events) × Waiting e tid pid x y r)
          ((wake_up_worker (some p) >> pure (some p, some q)) u)
  unfolding wake_up_worker
  execute_begin-wake s t u tid pid p q x y a b lives =
      rw (b.at.there, alive)
        (
          record {
            valid = IsValid-events b.valid _;
            workers = λ j. ground (arith, b.workers j, a.frame);
            schedulers = λ j. ground (arith, a.schedulers j, b.frame);
            frame = ground (arith, a.frame, b.frame, b.at.same);
          },
          record {
            kwt = p;
            kst = q;
            pointers = refl;
            kwt_at = b.at;
            kst_at = subst (λ (r : Kernel Table). SchedulerAt r pid q y) (sym b.frame) a.at;
          },
        )
    where
      alive : u.alive x.tid ≡ true
      alive = ground (arith, b.frame, a.frame, b.at.same)

  execute_begin-at :
      (s : Kernel Table) (pid tid now p q : ℕ) (w : Kwt) (k : Kst)
      → IsValid s
      → WorkerAt s tid p w
      → SchedulerAt s pid q k
      → s.alive tid ≡ true
      → Ends
          (λ r t.
            Switched s t tid pid (started w k.tid now) (busy k tid) (wake tid ∷ s.events)
            × Waiting t tid pid (started w k.tid now) (busy k tid) r)
          (execute_begin pid tid now s)
  unfolding execute_begin
  execute_begin-at s pid tid now p q w k v at_w at_k lives =
      rw (get-at s at_w, get-SchedulerAt s at_k)
        (Ends-and_then _ (modify schedulers (some q) (λ k. busy k tid) s) _
          (modify-SchedulerSet v (λ k. busy k tid) at_k refl)
          λ _ t a. rw a.at.there (
            Ends-and_then _ (modify workers (some p) (λ w. started w k.tid now) t) _
              (modify-WorkerSet a.valid (λ w. started w k.tid now)
                (subst (λ (r : Kernel Table). WorkerAt r tid p w) (sym a.frame) at_w) refl)
              λ _ u b. execute_begin-wake s t u tid pid p q _ _ a b lives))

  -- In a valid state with the worker and the calling scheduler in the maps, and the worker's thread
  -- alive, the request marks the worker as running for this scheduler since `now` and the scheduler
  -- as running this worker, counts a switch, and wakes the worker. Nothing else changes, the state
  -- stays valid, and the thread waits with the pointers of the two.
  pub execute_begin-starts :
      (s : Kernel Table) (pid tid now : ℕ) (w : Kwt) (k : Kst)
      → IsValid s
      → worker s tid ≡ some w
      → scheduler s pid ≡ some k
      → s.alive tid ≡ true
      → Ends
          (λ r t.
            Switched s t tid pid (started w pid now) (busy k tid) (wake tid ∷ s.events)
            × Waiting t tid pid (started w pid now) (busy k tid) r)
          (execute_begin pid tid now s)
  execute_begin-starts s pid tid now w k v here_w here_k lives =
      let (p, at_w) = lookup-object kwt_tid s.wt_htable s.kwts v.workers tid w here_w in
      let (q, at_k) = lookup-object kst_tid s.st_htable s.ksts v.schedulers pid k here_k in
      subst
        (λ n.
          Ends
            (λ r t.
              Switched s t tid pid (started w n now) (busy k tid) (wake tid ∷ s.events)
              × Waiting t tid pid (started w n now) (busy k tid) r)
            (execute_begin pid tid now s))
        at_k.same (execute_begin-at s pid tid now p q w k v at_w at_k lives)
