-- ===== src/Kernel/Core/Finish.antt =====
-- EXECUTEUMSTHREAD of src/lkm/ums_core.c: what a scheduler does once its worker has given the
-- processor back.
use mathlib.Core.Option
use aosv_project.Base.{
  ℕ, ◌+◌, ◌-◌, ◌%◌, ◌≡◌, refl, sym, ap, subst, ◌∙◌, false, inl, inr, some, arith, ◌==◌,
  if◌then◌else◌, count, inc, long_mod, Bool-cases, eq_of_==, ◌⊎◌, ◌≢◌,
}
use aosv_project.Hashtable.{Hashtable}
use aosv_project.Interface.{wt_running, wt_idle}
use aosv_project.Kernel.Outcome.{blocked, ◌>>◌}
use aosv_project.Kernel.State.{Kwt, Kst, Kcl, Kernel, workers, schedulers, modify}
use aosv_project.Kernel.Worker.{mutex_unlock, update_time_measured}
use aosv_project.Kernel.Scheduler.{set_kst_in_idle_state}
use aosv_project.Kernel.Worker.Mutex.{mutex_unlock-WorkerSet}
use aosv_project.Kernel.CompletionList.{
  for_each_clid, inc_threads_ready, for_each_inc_kcl_threads_ready, wake_up_schedulers,
}
use aosv_project.Kernel.CompletionList.Loops.{
  iterate, wakes, Known, for_each_clid-iterates, inc_threads_ready-Applies, wake_up_waiting-wakes,
  Known-kept_all,
}
use aosv_project.Kernel.Valid.{
  Ends, IsValid, WorkerAt, SchedulerAt, worker, scheduler, completion_list,
}
use aosv_project.Kernel.Valid.Step.{IsValid-events}
use aosv_project.Kernel.Valid.Set.{
  Ends-and_then, Ends-mono, WorkerSet, modify-WorkerSet, modify-SchedulerSet,
}
use aosv_project.Kernel.Core.{execute_finish, release_worker}

abbrev pub more_ready : {T : Type 0} → Kcl T → Kcl T
more_ready c = record c { threads_ready = inc c.threads_ready }

module _ ⦃ht : Hashtable⦄ where
  open ht use {Table}

  abbrev pub freed : Kwt → Kwt
  freed w = record w { mutex = false }

  release :
      (s : Kernel Table) (tid p : ℕ) (w : Kwt)
      → IsValid s
      → WorkerAt s tid p w
      → Known s w.clid_list
      → Ends
          (λ _ t.
            IsValid t
            × ((j : ℕ) → worker t j ≡ (if j == tid then some (freed w) else worker s j))
            × (t ≡ record s { kwts = t.kwts; events = wakes w.clid_list s.events }))
          ((wake_up_schedulers (some p) >> mutex_unlock (some p)) s)
  unfolding wake_up_schedulers
  release s tid p w v at known =
      rw (at.there, wake_up_waiting-wakes w.clid_list s v known)
        (Ends-mono (mutex_unlock (some p) (record s { events = wakes w.clid_list s.events }))
          (mutex_unlock-WorkerSet (IsValid-events v (wakes w.clid_list s.events)) at)
          λ _ t a. (a.valid, a.workers, a.frame))

  -- What the end of the request does to the lists and the worker.
  pub record Released (s t : Kernel Table) (tid : ℕ) (w : Kwt) : Type 0 where
    pub valid : IsValid t
    pub workers : (j : ℕ) → worker t j ≡ (if j == tid then some (freed w) else worker s j)
    pub lists :
        (j : ℕ)
        → completion_list t j
          ≡ Option.map
              (iterate (if w.state == wt_idle then count j w.clid_list else 0) more_ready)
              (completion_list s j)
    pub frame : t ≡ record s { kwts = t.kwts; kcls = t.kcls; events = wakes w.clid_list s.events }

  count_and_release :
      (s : Kernel Table) (tid p : ℕ) (w : Kwt)
      → IsValid s
      → WorkerAt s tid p w
      → Known s w.clid_list
      → Ends (λ _ t. Released s t tid w) (release_worker (some p) s)
  unfolding release_worker for_each_inc_kcl_threads_ready
  count_and_release s tid p w v at known = elim (Bool-cases (w.state == wt_idle)) [
    | inl idle ↦
        rw (at.there, idle, at.there)
          (Ends-and_then _ (for_each_clid inc_threads_ready w.clid_list s) _
            (for_each_clid-iterates more_ready (λ c. refl) inc_threads_ready
              inc_threads_ready-Applies w.clid_list s v known)
            λ _ t a.
              Ends-mono ((wake_up_schedulers (some p) >> mutex_unlock (some p)) t)
                (release t tid p w a.valid
                  (subst (λ (r : Kernel Table). WorkerAt r tid p w) (sym a.frame) at)
                  (Known-kept_all more_ready (λ c. refl) s t (λ j. count j w.clid_list) w.clid_list
                    a.lists known))
                λ _ u (valid, workers, frame). record {
                  valid = valid;
                  workers = λ j. ground (arith, workers j, a.frame);
                  lists = λ j.
                      rw idle (ap (λ (r : Kernel Table). completion_list r j) frame ∙ a.lists j);
                  frame = ground (arith, a.frame);
                })
    | inr other ↦
        rw (at.there, other)
          (Ends-mono ((wake_up_schedulers (some p) >> mutex_unlock (some p)) s)
            (release s tid p w v at known)
            λ _ u (valid, workers, frame). record {
              valid = valid;
              workers = workers;
              lists = λ j. ground (arith, ap (λ (r : Kernel Table). completion_list r j) frame);
              frame = ground arith;
            })
  ]

  abbrev pub elapsed : Kwt → (now : ℕ) → ℕ
  elapsed w now = (now + long_mod - w.last_measured) % long_mod

  abbrev pub timed : Kwt → (now : ℕ) → Kwt
  timed w now = record w {
    total_measured = (w.total_measured + elapsed w now) % long_mod;
    last_measured = now;
  }

  abbrev pub rested : Kst → (elapsed : ℕ) → Kst
  rested k elapsed = record k { elapsed_wt_running = elapsed; running = 0 }

  -- What EXECUTEUMSTHREAD leaves behind, of a worker `w` and a scheduler `k`.
  pub record Finished (s t : Kernel Table) (tid pid : ℕ) (w : Kwt) (k : Kst) (now : ℕ)
      : Type 0 where
    pub valid : IsValid t
    pub workers :
        (j : ℕ) → worker t j ≡ (if j == tid then some (freed (timed w now)) else worker s j)
    pub schedulers :
        (j : ℕ)
        → scheduler t j ≡ (if j == pid then some (rested k (elapsed w now)) else scheduler s j)
    pub lists :
        (j : ℕ)
        → completion_list t j
          ≡ Option.map
              (iterate (if w.state == wt_idle then count j w.clid_list else 0) more_ready)
              (completion_list s j)
    pub frame : t ≡ record s {
      kwts = t.kwts;
      ksts = t.ksts;
      kcls = t.kcls;
      events = wakes w.clid_list s.events;
    }

  measure :
      (s : Kernel Table) (tid p now : ℕ) (w : Kwt)
      → IsValid s
      → WorkerAt s tid p w
      → Ends
          (λ e t. (e ≡ elapsed w now) × WorkerSet s t tid p (timed w now))
          (update_time_measured (some p) now s)
  unfolding update_time_measured
  measure s tid p now w v at = rw at.there (
      Ends-and_then _ (modify workers (some p) charge s) _ (modify-WorkerSet v charge at refl)
        λ _ t a. (refl, a))
    where
      charge : Kwt → Kwt
      charge x = record x {
        total_measured = (x.total_measured + elapsed w now) % long_mod;
        last_measured = now;
      }

  -- The request once the worker's time has been charged.
  conclude :
      (s t : Kernel Table) (tid pid p q now : ℕ) (w : Kwt) (k : Kst)
      → WorkerSet s t tid p (timed w now)
      → SchedulerAt s pid q k
      → Known s w.clid_list
      → Ends
          (λ _ e. Finished s e tid pid w k now)
          ((set_kst_in_idle_state (some q) (elapsed w now) >> release_worker (some p)) t)
  unfolding set_kst_in_idle_state
  conclude s t tid pid p q now w k a at_k known =
      Ends-and_then _ (modify schedulers (some q) (λ k. rested k (elapsed w now)) t) _
        (modify-SchedulerSet a.valid (λ k. rested k (elapsed w now))
          (subst (λ (r : Kernel Table). SchedulerAt r pid q k) (sym a.frame) at_k) refl)
        λ _ u b.
          let at_w =
            subst (λ (r : Kernel Table). WorkerAt r tid p (timed w now)) (sym b.frame) a.at in
          let same : Known u w.clid_list =
            subst (λ (r : Kernel Table). Known r w.clid_list)
              (sym (b.frame ∙ ap (λ (r : Kernel Table). record r { ksts = u.ksts }) a.frame))
              known in
          Ends-mono (release_worker (some p) u)
            (count_and_release u tid p (timed w now) b.valid at_w same)
            λ _ e c. record {
              valid = c.valid;
              workers = λ j. ground (arith, c.workers j, b.frame, a.workers j);
              schedulers = λ j.
                  ap (λ (r : Kernel Table). scheduler r j) c.frame
                  ∙ b.schedulers j
                  ∙ ap
                      (λ (r : Kernel Table).
                        if j == pid then some (rested k (elapsed w now)) else scheduler r j)
                      a.frame;
              lists = λ j.
                  c.lists j
                  ∙ ap
                      (λ (r : Kernel Table).
                        Option.map
                          (iterate (if w.state == wt_idle then count j w.clid_list else 0)
                            more_ready)
                          (completion_list r j))
                      (b.frame ∙ ap (λ (r : Kernel Table). record r { ksts = u.ksts }) a.frame);
              frame = ground (arith, c.frame, b.frame, a.frame);
            }

  execute_finish-stopped :
      (s : Kernel Table) (tid pid p q now : ℕ) (w : Kwt) (k : Kst)
      → IsValid s
      → WorkerAt s tid p w
      → SchedulerAt s pid q k
      → Known s w.clid_list
      → (w.state == wt_running) ≡ false
      → Ends (λ _ t. Finished s t tid pid w k now) (execute_finish (some p) (some q) now s)
  unfolding execute_finish
  execute_finish-stopped s tid pid p q now w k v at_w at_k known stopped =
      rw (at_w.there, stopped)
        (Ends-and_then _ (update_time_measured (some p) now s) _ (measure s tid p now w v at_w)
          λ e t (same, a). rw same (conclude s t tid pid p q now w k a at_k known))

  -- In a valid state where the two pointers of a waiting scheduler still lead to its worker and to
  -- itself, and every list of the worker exists: while the worker runs, the scheduler goes on
  -- waiting. Otherwise the time since the worker was started is charged to it, its mutex is freed,
  -- the scheduler is idle again, every list of an idle worker counts one more ready worker for
  -- each time that the worker names it, the schedulers waiting on the worker's lists are woken,
  -- nothing else changes, and the state stays valid.
  pub execute_finish-releases :
      (s : Kernel Table) (tid pid p q now : ℕ) (w : Kwt) (k : Kst)
      → IsValid s
      → WorkerAt s tid p w
      → SchedulerAt s pid q k
      → Known s w.clid_list
      → ((w.state ≡ wt_running) × (execute_finish (some p) (some q) now s ≡ blocked))
        ⊎ ((w.state ≢ wt_running)
            × Ends (λ _ t. Finished s t tid pid w k now) (execute_finish (some p) (some q) now s))
  unfolding execute_finish
  execute_finish-releases s tid pid p q now w k v at_w at_k known =
      elim (Bool-cases (w.state == wt_running)) [
        | inl running ↦ inl (eq_of_== w.state wt_running running, rw (at_w.there, running))
        | inr stopped ↦
            inr
              (ground arith, execute_finish-stopped s tid pid p q now w k v at_w at_k known stopped)
      ]
