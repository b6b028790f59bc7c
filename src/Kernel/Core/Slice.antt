-- ===== src/Kernel/Core/Slice.antt =====
-- A worker's time slice, over three requests of src/lkm/ums_core.c: its scheduler starts it with
-- EXECUTEUMSTHREAD, it gives up the processor with UMSTHREADTYIELD, and the scheduler goes on.
use mathlib.Core.Option
use aosv_project.Base.{
  ℕ, ◌+◌, ◌-◌, ◌%◌, ◌≡◌, sym, ap, subst, ◌∙◌, false, true, inl, inr, some, ◌∷◌, arith, ◌==◌,
  if◌then◌else◌, count, inc, long_mod, minus_one,
}
use aosv_project.Hashtable.{Hashtable}
use aosv_project.Interface.{wt_idle}
use aosv_project.Kernel.Objects.{Ptr}
use aosv_project.Kernel.Outcome.{◌>>=◌, ◌>>◌}
use aosv_project.Kernel.State.{Kwt, Kst, Kernel, M, wake}
use aosv_project.Kernel.CompletionList.Loops.{iterate, wakes, Known}
use aosv_project.Kernel.Valid.{Ends, IsValid, SchedulerAt, worker, scheduler, completion_list}
use aosv_project.Kernel.Valid.Set.{Ends-and_then, Ends-mono}
use aosv_project.Kernel.Core.{execute_begin, execute_finish, thread_yield}
use aosv_project.Kernel.Core.Execute.{Switched, busy, started, execute_begin-starts}
use aosv_project.Kernel.Core.Finish.{Finished, more_ready, execute_finish-releases}
use aosv_project.Kernel.Core.Switch.{Woken, parted, paused, yield-alive}

module _ ⦃ht : Hashtable⦄ where
  open ht use {Table}

  -- The scheduler `pid` runs the worker `tid` from the time `now` to the time `later`.
  abbrev pub time_slice : (pid tid now later : ℕ) → M Table (Unit {0})
  time_slice pid tid now later s =
      (execute_begin pid tid now >>= λ (r : Ptr × Ptr).
      thread_yield tid >> execute_finish (r.0) (r.1) later)
        s

  abbrev pub spent_time : (now later : ℕ) → ℕ
  spent_time now later = (later + long_mod - now) % long_mod

  -- A worker and a scheduler after a time slice.
  abbrev pub worked : Kwt → (now later : ℕ) → Kwt
  worked w now later = record w {
    state = wt_idle;
    nswitches = inc w.nswitches;
    last_measured = later;
    total_measured = (w.total_measured + spent_time now later) % long_mod;
    mutex = false;
    curr_sched_tid = minus_one;
  }

  abbrev pub scheduled : Kst → (tid now later : ℕ) → Kst
  scheduled k tid now later = record k {
    running = 0;
    nswitches = inc k.nswitches;
    wt_running = tid;
    elapsed_wt_running = spent_time now later;
  }

  pub record Sliced (s u : Kernel Table) (pid tid now later : ℕ) (w : Kwt) (k : Kst) : Type 0 where
    pub valid : IsValid u
    pub workers :
        (j : ℕ) → worker u j ≡ (if j == tid then some (worked w now later) else worker s j)
    pub schedulers :
        (j : ℕ)
        → scheduler u j ≡ (if j == pid then some (scheduled k tid now later) else scheduler s j)
    pub lists :
        (j : ℕ)
        → completion_list u j
          ≡ Option.map (iterate (count j w.clid_list) more_ready) (completion_list s j)
    pub frame : u ≡ record s {
      kwts = u.kwts;
      ksts = u.ksts;
      kcls = u.kcls;
      events = wakes w.clid_list (wake pid ∷ wake tid ∷ s.events);
    }

  module _ (s t u e : Kernel Table) (pid tid now later : ℕ) (w : Kwt) (k : Kst)
      (a : Switched s t tid pid (started w pid now) (busy k tid) (wake tid ∷ s.events))
      (b : Woken t u tid (parted (paused (started w pid now))) (wake pid))
      (c : Finished u e tid pid (parted (paused (started w pid now))) (busy k tid) later) where
    Finished-Sliced : Sliced s e pid tid now later w k
    Finished-Sliced = record {
      valid = c.valid;
      workers = λ j. ground (arith, c.workers j, b.workers j, a.workers j);
      schedulers = λ j.
          c.schedulers j
          ∙ ap
              (λ (r : Kernel Table).
                if j == pid then some (scheduled k tid now later) else scheduler r j)
              b.frame
          ∙ ground (arith, a.schedulers j);
      lists = λ j.
          c.lists j
          ∙ ap
              (λ (r : Kernel Table).
                Option.map (iterate (count j w.clid_list) more_ready) (completion_list r j))
              (b.frame
                ∙ ap
                    (λ (r : Kernel Table). record r { kwts = u.kwts; events = wake pid ∷ t.events })
                    a.frame);
      frame = ground (arith, c.frame, b.frame, a.frame);
    }

  Known-slice :
      (s t u : Kernel Table) (pid tid now : ℕ) (w : Kwt) (k : Kst)
      → Switched s t tid pid (started w pid now) (busy k tid) (wake tid ∷ s.events)
      → Woken t u tid (parted (paused (started w pid now))) (wake pid)
      → Known s w.clid_list
      → Known u w.clid_list
  Known-slice s t u pid tid now w k a b known =
      let at_start : Known t w.clid_list =
        subst (λ (q : Kernel Table). Known q w.clid_list) (sym a.frame) known in
      subst (λ (q : Kernel Table). Known q w.clid_list) (sym b.frame) at_start

  -- In a valid state with the worker and the scheduler there, both threads alive and the worker's
  -- lists there: over a time slice of the worker nothing faults or sleeps for ever. After it the
  -- worker is idle, unlocked and without a scheduler, has one more switch, and has been charged the
  -- time from its start to the end; the scheduler is idle and has one more switch; each list
  -- counts one more ready worker for each time that the worker names it; the worker's thread, the
  -- scheduler's and those waiting on the lists have been woken in this order, nothing else has
  -- changed, and the state is valid.
  pub time_slice-works :
      (s : Kernel Table) (pid tid now later : ℕ) (w : Kwt) (k : Kst)
      → IsValid s
      → worker s tid ≡ some w
      → scheduler s pid ≡ some k
      → s.alive tid ≡ true
      → s.alive pid ≡ true
      → Known s w.clid_list
      → Ends (λ _ u. Sliced s u pid tid now later w k) (time_slice pid tid now later s)
  time_slice-works s pid tid now later w k v here_w here_k lives_w lives_k known =
      Ends-and_then _ (execute_begin pid tid now s) _
        (execute_begin-starts s pid tid now w k v here_w here_k lives_w)
        λ r t (a, waiting).
          let kwt = waiting.kwt in
          let kst = waiting.kst in
          let alive : t.alive pid ≡ true = ground (arith, a.frame, lives_k) in
          rw waiting.pointers (
            Ends-and_then _ (thread_yield tid t) _
              (yield-alive t tid kwt (started w pid now) a.valid waiting.kwt_at alive)
              λ _ u (b, at).
                elim (execute_finish-releases u tid pid kwt kst later
                  (parted (paused (started w pid now))) (busy k tid) b.valid at
                  (subst (λ (q : Kernel Table). SchedulerAt q pid kst (busy k tid)) (sym b.frame)
                    waiting.kst_at)
                  (Known-slice s t u pid tid now w k a b known)) [
                    | inl (running, _) ↦ absurd (omega (arith, running))
                    | inr (_, ends) ↦
                        Ends-mono (execute_finish (some kwt) (some kst) later u) ends
                          λ _ e c. Finished-Sliced s t u e pid tid now later w k a b c
                  ])
