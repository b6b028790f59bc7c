-- ===== src/Example/Repeats.antt =====
-- `scheduler_proc` of src/example/main.c: its loop as long as the dequeues fail.
use aosv_project.Base.{
  ℕ, zero, suc, ◌≤◌, ◌<◌, ◌≡◌, refl, sym, subst, ap, ◌∙◌, true, false, List, arith, count, length,
  is_positive, minus_one,
}
use aosv_project.Kernel.CompletionList.Loops.{iterate}
use aosv_project.Kernel.Valid.{Ends}
use aosv_project.Kernel.Valid.Set.{Ends-and_then, Ends-mono}
use aosv_project.Library.{CompletionList, is_negative, dequeue_list}
use aosv_project.Library.Array.{Fits, Live}
use aosv_project.Library.Calls.{System, DequeueArgs, dequeue_ums_completion_list_items}
use aosv_project.Library.Threads.Routine.{result, after}
use aosv_project.Example.{Threads, run_items, scheduler_proc}
use aosv_project.Example.Rounds.{
  take, executed, SameTids, Has, Live-same, Has-same, run_items-executes,
}

module _ {D Cpu : Type 0} (sys : System D Cpu) (list : CompletionList) where
  -- The device after a dequeue that gives nothing and the execution of the workers of `tids`.
  abbrev pub again : List ℕ → D → D
  again tids d = executed sys tids (after sys (dequeue_list list.clc) d)

  -- The dequeue at the start of each of the next `rounds` rounds over the workers of `tids` fails.
  abbrev pub Refused : (rounds : ℕ) → List ℕ → D → Type 0
  Refused rounds tids d =
      (k : ℕ)
      → k < rounds
      → is_negative (result sys (dequeue_list list.clc) (iterate k (again tids) d)) ≡ true

  dequeue-refused :
      (args : DequeueArgs) (d : D)
      → is_negative (result sys (dequeue_list list.clc) d) ≡ true
      → dequeue_ums_completion_list_items sys args list d
        ≡ (minus_one, record args { clc = list.clc }, after sys (dequeue_list list.clc) d)
  unfolding dequeue_ums_completion_list_items
  dequeue-refused args d failed = rw failed

  module _ {Routine : Type 0} (cpu_set : Cpu) (fits : Fits list) where
    -- Where the arguments of a scheduler hold a positive number of tids, those of workers of the list,
    -- and the dequeues of the next `fuel` rounds fail, all of these rounds run and the loop does not
    -- come to its end: each of them asks the device to execute these same workers again, in their
    -- order, and the workers stay where they are with their tids. The list's array has its size and
    -- leads to workers.
    pub scheduler_proc-repeats :
        (fuel : ℕ) (args : DequeueArgs) (mem : Threads Cpu Routine) (d : D)
        → Live mem list.wt list.last_index
        → is_positive args.n ≡ true
        → args.n ≤ length args.wt_ready_tid
        → ((tid : ℕ) → 0 < count tid (take args.n args.wt_ready_tid) → Has mem list tid)
        → Refused fuel (take args.n args.wt_ready_tid) d
        → Ends
            (λ done (later, e).
              (done ≡ false)
              × SameTids mem later
              × (e ≡ iterate fuel (again (take args.n args.wt_ready_tid)) d))
            (scheduler_proc sys list cpu_set fuel args (mem, d))
    unfolding scheduler_proc
    scheduler_proc-repeats zero args mem d live more room has refused = (refl, λ p. refl, refl)
    scheduler_proc-repeats (suc fuel) args mem d live more room has refused =
        let tids = take args.n args.wt_ready_tid in
        let e = after sys (dequeue_list list.clc) d in
        rw (dequeue-refused args d (refused 0 (omega arith)), more)
          (Ends-and_then _ (run_items sys list cpu_set args.wt_ready_tid args.n 0 (mem, e)) _
            (run_items-executes sys list cpu_set fits args.n args.wt_ready_tid mem e live room has)
            λ _ (mem', f) (same, done).
              Ends-mono
                (scheduler_proc sys list cpu_set fuel (record args { clc = list.clc }) (mem', f))
                (scheduler_proc-repeats fuel (record args { clc = list.clc }) mem' f
                  (Live-same mem mem' same list.wt list.last_index live) more room
                  (λ k g. Has-same mem mem' same list k (has k g))
                  λ k g.
                    subst
                      (λ x.
                        is_negative (result sys (dequeue_list list.clc) (iterate k (again tids) x))
                        ≡ true)
                      (sym done) (refused (suc k) (omega (arith, g))))
                λ over (later, g) (going, same', ends).
                  (going, λ p. same' p ∙ same p, ends ∙ ap (iterate fuel (again tids)) done))
