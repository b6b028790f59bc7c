-- ===== src/Example.antt =====
-- src/example/main.c: the procedure of its schedulers, the routine of its workers, and its own calls.
pub mod Rounds
pub mod Repeats
pub mod Routine
pub mod Plan
use aosv_project.Base.{
  ℕ, zero, suc, ◌+◌, ◌*◌, ◌/◌, Bool, true, false, Option, none, some, List, [], ◌∷◌, ◌++◌,
  if◌then◌else◌, ltb, minus_one, is_positive, get_elem?, update,
}
use aosv_project.Kernel.Outcome.{Outcome, ok, fault, pure, ◌>>=◌, ◌>>◌}
use aosv_project.Library.{WorkerThread, CompletionList, found, missing, wild, completion_list_get}
use aosv_project.Library.Calls.{
  System, DequeueArgs, dequeue_ums_completion_list_items, execute_ums_thread, ums_thread_yield,
}

-- The workers in the program's memory.
abbrev pub Threads : Type 0 → Type 0 → Type 0
Threads Cpu Routine = ℕ → Option (WorkerThread Cpu Routine)

module _ {D Cpu Routine : Type 0} (sys : System D Cpu) where
  -- The body of the loop over the workers that a dequeue gave.
  unfoldable pub run_item :
      CompletionList
      → Cpu
      → (tid : ℕ) → Threads Cpu Routine × D
      → Outcome (Threads Cpu Routine × D) (Unit {0})
  run_item list cpu_set tid (mem, d) = elim (completion_list_get mem list tid) [
    | missing ↦ ok tt (mem, d)
    | wild ↦ fault
    | found p ↦ elim (mem p) [
      | none ↦ fault
      | some wt ↦
          let (_, wt', e) = execute_ums_thread sys wt cpu_set d in
          ok tt (update mem p (some wt'), e)
    ]
  ]

  -- The loop, with `steps` rounds left at the index `i`.
  unfoldable pub run_items :
      CompletionList
      → Cpu
      → (wt_ready_tid : List ℕ) (steps i : ℕ) → Threads Cpu Routine × D
      → Outcome (Threads Cpu Routine × D) (Unit {0})
  unfolding run_item
  run_items list cpu_set tids zero i s = ok tt s
  run_items list cpu_set tids (suc steps) i s = elim (get_elem? tids i) [
    | none ↦ fault
    | some tid ↦ (run_item list cpu_set tid >> run_items list cpu_set tids steps (i + 1)) s
  ]

  -- `scheduler_proc`; the result says whether its loop has come to its end within the fuel. The
  -- result of the dequeue is not looked at, nor is the set of processors that the loop asks for.
  unfoldable pub scheduler_proc :
      CompletionList
      → Cpu
      → (fuel : ℕ) → DequeueArgs
      → Threads Cpu Routine × D
      → Outcome (Threads Cpu Routine × D) Bool
  unfolding run_items
  scheduler_proc list cpu_set zero args s = ok false s
  scheduler_proc list cpu_set (suc fuel) args (mem, d) =
      let (_, args', e) = dequeue_ums_completion_list_items sys args list d in
      let again = scheduler_proc list cpu_set fuel args' in
      if is_positive args'.n
      then (run_items list cpu_set args'.wt_ready_tid args'.n 0 >> again) (mem, e)
      else ok true (mem, e)

  -- `f`: a worker yields `n` times; `self` is what its pointer reads in a state.
  unfoldable pub worker_routine : (n : ℕ) → (self : D → WorkerThread Cpu Routine) → D → D
  worker_routine zero self d = d
  worker_routine (suc n) self d =
      let (_, e) = ums_thread_yield sys self d in worker_routine n self e
