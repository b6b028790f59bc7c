-- ===== src/Library.antt =====
-- src/lib/worker_thread.c and src/lib/completion_list.c, with the functions of src/lib/ums.c
-- that make a list and fill it.
pub mod Array
pub mod Handover
pub mod Calls
pub mod Create
pub mod Threads
use aosv_project.Base.{
  ℕ, zero, suc, ◌+◌, ◌%◌, ◌^◌, Bool, Option, none, some, List, if◌then◌else◌, ltb, ◌==◌, inc,
  int_mod, minus_one, is_positive, get_elem?, set,
}
use aosv_project.Interface.{max_wt}
use aosv_project.Kernel.Outcome.{Outcome, ok, fault, blocked}

-- `a < b` for signed `int`s
abbrev pub int_ltb : ℕ → ℕ → Bool
int_ltb a b = ltb ((a + 2 ^ 31) % int_mod) ((b + 2 ^ 31) % int_mod)

-- `worker_thread`; the types of `cpu_set` and `worker_routine` are the system's.
pub record WorkerThread (Cpu Routine : Type 0) : Type 0 where
  pub tid : ℕ
  pub cpu_set : Cpu
  pub worker_routine : Routine

-- `completion_list`: `clc` is the kernel's id, `wt` the array of `MAX_WT` pointers.
pub record CompletionList : Type 0 where
  pub last_index : ℕ
  pub clc : ℕ
  pub wt : List ℕ

-- What a call of `completion_list_get` ends with: a pointer, the pointer -1, or a read outside of
-- the array or through a pointer to no object.
pub data Found : Type 0 where
  found : ℕ → Found
  missing : Found
  wild : Found

module _ {Cpu Routine : Type 0} where
  unfoldable pub worker_thread_init : WorkerThread Cpu Routine → Routine → WorkerThread Cpu Routine
  worker_thread_init wt routine = record wt { tid = minus_one; worker_routine = routine }

  unfoldable pub worker_thread_set_tid : WorkerThread Cpu Routine → ℕ → WorkerThread Cpu Routine
  worker_thread_set_tid wt tid = record wt { tid = tid }

  -- The body of the loop of `completion_list_get` and the rest of the loop, from `i` on.
  unfoldable pub find_tid :
      (ℕ → Option (WorkerThread Cpu Routine)) → List ℕ → (tid steps i : ℕ) → Found
  find_tid mem wt tid zero i = missing
  find_tid mem wt tid (suc steps) i =
      let rest = find_tid mem wt tid steps (i + 1) in
      elim (get_elem? wt i) [
        | none ↦ wild
        | some p ↦ elim (mem p) [ none ↦ wild | some w ↦ if w.tid == tid then found p else rest ]
      ]

  -- A negative `n` is below 0: the loop is not entered.
  unfoldable pub completion_list_get :
      (ℕ → Option (WorkerThread Cpu Routine)) → CompletionList → (tid : ℕ) → Found
  unfolding find_tid
  completion_list_get mem list tid =
      let n = list.last_index in
      let run = find_tid mem list.wt tid n 0 in if is_positive n then run else missing

unfoldable pub completion_list_init : CompletionList → CompletionList
completion_list_init list = record list { last_index = 0 }

-- The result is that of the call. A write outside of the array is a fault.
unfoldable pub completion_list_add : (wt : ℕ) → CompletionList → Outcome CompletionList ℕ
completion_list_add wt list =
    if int_ltb list.last_index max_wt
    then (if ltb list.last_index max_wt
        then ok 0
            (record list { wt = set list.wt list.last_index wt; last_index = inc list.last_index })
        else fault)
    else ok minus_one list

-- What `ums.c` asks of the device, with what the request passes.
pub data Request : Type 0 where
  start : Request
  init_list : Request
  enter : (clid : ℕ) → Request
  create_worker : (parent_tid tid : ℕ) → Request
  wait_worker : (tid : ℕ) → Request
  exit_worker : (tid : ℕ) → Request
  add_to_list : (clid tid : ℕ) → Request
  dequeue_list : (clid : ℕ) → Request
  execute : (tid : ℕ) → Request
  yield : (tid : ℕ) → Request
  destroy_list : (clid : ℕ) → Request
  destroy_worker : (tid : ℕ) → Request
  destroy_scheduler : Request
  finish : Request

-- What a request writes back: the id of a new list, and the workers of a dequeue with their number.
pub record Reply : Type 0 where
  pub id : ℕ
  pub n : ℕ
  pub wt_ready_tid : List ℕ

-- What `ioctl` does to a device `D`: its result, what it writes back, and the device.
abbrev pub Ioctl : Type 0 → Type 0
Ioctl D = Request → D → ℕ × Reply × D

abbrev pub is_negative : ℕ → Bool
is_negative a = int_ltb a 0

-- A call whose end is in the state of a larger piece of code.
abbrev pub hand_on : {S T A B : Type 0} → Outcome S A → (A → S → Outcome T B) → Outcome T B
hand_on (ok a s) k = k a s
hand_on fault k = fault
hand_on blocked k = blocked

module _ {D : Type 0} (ioctl : Ioctl D) where
  unfoldable pub ums_completion_list_init : CompletionList → D → ℕ × CompletionList × D
  unfolding completion_list_init
  ums_completion_list_init list d =
      let (r, reply, e) = ioctl init_list d in
      let list' = completion_list_init list in
      if is_negative r then (minus_one, list', e) else (0, record list' { clc = reply.id }, e)

  -- `tid` is `wt->wtc`. The result of `completion_list_add` is not looked at.
  unfoldable pub ums_completion_list_add :
      (wt tid : ℕ) → CompletionList → D → Outcome (CompletionList × D) ℕ
  ums_completion_list_add wt tid list d = hand_on (completion_list_add wt list) λ _ list'.
      let (r, reply, e) = ioctl (add_to_list list'.clc tid) d in
      if is_negative r then ok minus_one (list', e) else ok 0 (list', e)
