-- ===== src/Kernel/CompletionList/Reserve.antt =====
-- `get_wt_ready_queue` of src/lkm/kcompletion_list.c: what a scheduler gets of a list's queue.
use aosv_project.Base.{
  ℕ, ◌+◌, ◌≤◌, ◌<◌, ◌≡◌, ◌≢◌, sym, ap, ◌∙◌, ◌⊎◌, inl, inr, Bool, true, some, List, arith, ◌==◌,
  count, length, get_elem?, minus_one, Bool-cases, eq_of_==,
}
use aosv_project.Hashtable.{Hashtable}
use aosv_project.Interface.{max_wt}
use aosv_project.Kernel.Objects.Index.{lookup-object}
use aosv_project.Kernel.Outcome.{ok}
use aosv_project.Kernel.State.{Kcl, Kernel}
use aosv_project.Kernel.Valid.{Ends, IsValid, completion_list}
use aosv_project.Kernel.Valid.Set.{Ends-mono}
use aosv_project.Kernel.CompletionList.{kcl_id, ready_loop, get_wt_ready_queue}
use aosv_project.Kernel.CompletionList.Loops.{get-ListAt}
use aosv_project.Kernel.CompletionList.Grab.{
  grab, grab_sound, grab_complete, length-grab-le, write, get_elem?-write,
}
use aosv_project.Kernel.CompletionList.Take.{Taken, is_free}
use aosv_project.Kernel.CompletionList.Dequeue.{Ready, Reserves, ready_loop-Reserves}

-- `taken` is a choice of free workers of a queue: at most `max_wt`, each once, and all of them if
-- there is room.
pub record IsChoice (free : ℕ → Bool) (queue taken : List ℕ) : Type 0 where
  pub bounded : length taken ≤ max_wt
  pub free_once :
      (j : ℕ) → 0 < count j taken → (free j ≡ true) × (count j taken ≡ 1) × (0 < count j queue)
  pub complete :
      (j : ℕ) → length taken < max_wt → free j ≡ true → 0 < count j queue → 0 < count j taken

grab-IsChoice : (free : ℕ → Bool) (queue : List ℕ) → IsChoice free queue (grab free max_wt queue)
grab-IsChoice free queue = record {
  bounded = length-grab-le free max_wt queue;
  free_once = λ j. grab_sound free max_wt queue j;
  complete = λ j. grab_complete free max_wt queue j;
}

module _ ⦃ht : Hashtable⦄ where
  open ht use {Table, nodes}

  -- What a caller of `get_wt_ready_queue` gets, and the state after it.
  pub record Dequeued (s : Kernel Table) (queue : List ℕ) (r : ℕ × List ℕ) (t : Kernel Table)
      : Type 0 where
    pub taken : List ℕ
    pub choice : IsChoice (is_free s) queue taken
    pub number : r.0 ≡ length taken
    pub written : (j : ℕ) → j < length taken → get_elem? r.1 j ≡ get_elem? taken j
    pub after : Taken s t taken

  Reserves-Dequeued :
      (s : Kernel Table) (queue out : List ℕ) (r : ℕ × List ℕ) (t : Kernel Table)
      → max_wt ≤ length out
      → Reserves s 0 out (grab (is_free s) max_wt queue) r t
      → Dequeued s queue r t
  Reserves-Dequeued s queue out r t room (e, a) =
      let taken = grab (is_free s) max_wt queue in
      let bound = length-grab-le (is_free s) max_wt queue in
      record {
        taken = taken;
        choice = grab-IsChoice (is_free s) queue;
        number = ap (λ x. x.0) e ∙ omega arith;
        written = λ j h.
            let n : 0 + j ≡ j = omega arith in
            ap (λ x. get_elem? x.1 j) e
            ∙ ap (get_elem? (write out 0 taken)) (sym n)
            ∙ get_elem?-write out 0 j taken (omega (arith, bound, room)) h;
        after = a;
      }

  -- In a valid state where every tid in the queue of a list is that of a worker whose lists exist:
  -- if the list counts no worker that can run, the code returns -1 and changes nothing. Otherwise
  -- it ends, writes at most `MAX_WT` tids to an array that has room for them, and returns their
  -- number: each is that of a free worker of the queue, no tid is written twice, and no free worker
  -- is left out unless the array is full. Exactly these workers are then locked, the ready counter
  -- of each list has gone down once for each time that they name the list, nothing else has
  -- changed, and the state is valid.
  pub get_wt_ready_queue-reserves :
      (s : Kernel Table) (clid : ℕ) (c : Kcl Table) (out : List ℕ)
      → IsValid s
      → completion_list s clid ≡ some c
      → Ready s (nodes c.wt_ready_queue)
      → max_wt ≤ length out
      → ((c.nthreads ≡ 0) × (get_wt_ready_queue clid out s ≡ ok (minus_one, out) s))
        ⊎ ((c.nthreads ≢ 0)
            × Ends (Dequeued s (nodes c.wt_ready_queue)) (get_wt_ready_queue clid out s))
  unfolding get_wt_ready_queue
  get_wt_ready_queue-reserves s clid c out v here ready room =
      let (p, at) = lookup-object kcl_id s.compl_list_htable s.kcls v.lists clid c here in
      let queue = nodes c.wt_ready_queue in
      elim (Bool-cases (c.nthreads == 0)) [
        | inl empty ↦ inl (eq_of_== c.nthreads 0 empty, rw (get-ListAt s at, at.there, empty))
        | inr some_left ↦ inr (
          ground arith,
          rw (get-ListAt s at, at.there, some_left)
              (Ends-mono (ready_loop queue 0 out s)
                (ready_loop-Reserves queue s 0 out v ready (omega arith))
                λ r t. Reserves-Dequeued s queue out r t room),
        )
      ]
