-- ===== src/Kernel/Core/Wait.antt =====
-- DEQUEUECOMPLLIST of src/lkm/ums_core.c: when a scheduler that asks for workers sleeps.
use aosv_project.Base.{
  ℕ, ◌≤◌, ◌<◌, ◌≡◌, ◌≢◌, sym, ◌∙◌, ◌⊎◌, inl, inr, true, false, ◌||◌, some, List, [], ◌∷◌, arith,
  ◌==◌, if◌then◌else◌, count, length, minus_one, is_positive, Bool-cases, eq_of_==, Bool,
}
use aosv_project.Hashtable.{Hashtable}
use aosv_project.Interface.{max_wt}
use aosv_project.Kernel.Objects.Index.{lookup-object}
use aosv_project.Kernel.Outcome.{ok, blocked}
use aosv_project.Kernel.State.{Kcl, Kernel}
use aosv_project.Kernel.Valid.{Ends, IsValid, ListAt, completion_list}
use aosv_project.Kernel.Valid.Set.{Ends-result}
use aosv_project.Kernel.CompletionList.{kcl_id, get_wt_ready_queue}
use aosv_project.Kernel.CompletionList.Loops.{get-ListAt}
use aosv_project.Kernel.CompletionList.Take.{is_free}
use aosv_project.Kernel.CompletionList.Dequeue.{Ready}
use aosv_project.Kernel.CompletionList.Reserve.{Dequeued, get_wt_ready_queue-reserves}
use aosv_project.Kernel.Core.{dequeue}

count-le-length : (j : ℕ) (xs : List ℕ) → count j xs ≤ length xs
count-le-length j [] = omega arith
count-le-length j (x ∷ xs) = ground (arith, count-le-length j xs)

module _ ⦃ht : Hashtable⦄ where
  open ht use {Table, nodes}

  -- No worker of a queue is free.
  abbrev pub AllHeld : Kernel Table → List ℕ → Type 0
  AllHeld s queue = (j : ℕ) → 0 < count j queue → is_free s j ≢ true

  none_taken :
      {s t : Kernel Table} {queue : List ℕ} {r : ℕ × List ℕ}
      → Dequeued s queue r t
      → r.0 ≡ 0
      → AllHeld s queue
  none_taken d e j m free =
      let z : length d.taken ≡ 0 = sym d.number ∙ e in
      let some_taken = d.choice.complete j (omega (arith, z)) free m in
      omega (arith, z, some_taken, count-le-length j d.taken)

  -- What a scheduler's request for workers of a list ends with.
  abbrev pub Answered : Kernel Table → (signal : Bool) → (clid : ℕ) → Kcl Table → List ℕ → Type 0
  Answered s signal clid c out =
      (c.nthreads ≡ 0) × (dequeue signal clid out s ≡ ok (minus_one, out) s)
      ⊎ (c.nthreads ≢ 0)
        × ((dequeue signal clid out s ≡ blocked)
              × ((is_positive c.threads_ready ≡ false) ⊎ AllHeld s (nodes c.wt_ready_queue))
            ⊎ Ends (λ r t. (0 < r.0) × Dequeued s (nodes c.wt_ready_queue) r t)
                (dequeue signal clid out s))

  module _ (s : Kernel Table) (signal : Bool) (clid p : ℕ) (c : Kcl Table) (out : List ℕ)
      (at : ListAt s clid p c) where
    dequeue-sleeps :
        (signal || (is_positive c.threads_ready || c.nthreads == 0)) ≡ false
        → dequeue signal clid out s ≡ blocked
    unfolding dequeue
    dequeue-sleeps sleep = rw (get-ListAt s at, at.there, sleep)

    dequeue-tries :
        (r : ℕ × List ℕ) (t : Kernel Table)
        → (signal || (is_positive c.threads_ready || c.nthreads == 0)) ≡ true
        → get_wt_ready_queue clid out s ≡ ok r t
        → dequeue signal clid out s ≡ (if r.0 == 0 then blocked else ok r t)
    unfolding dequeue
    dequeue-tries r t awake e =
        rw (get-ListAt s at, at.there, awake, e)
          (elim (Bool-cases (r.0 == 0)) [ inl nobody ↦ rw nobody | inr somebody ↦ rw somebody ])

    -- One round of the loop that finds the list with workers that can run.
    answered :
        c.nthreads ≢ 0
        → Ends (Dequeued s (nodes c.wt_ready_queue)) (get_wt_ready_queue clid out s)
        → (signal || is_positive c.threads_ready) ≡ true
        → (dequeue signal clid out s ≡ blocked) × AllHeld s (nodes c.wt_ready_queue)
          ⊎ Ends
              (λ r t. (0 < r.0) × Dequeued s (nodes c.wt_ready_queue) r t)
              (dequeue signal clid out s)
    answered left ends ready =
        let (r, t, e, d) = Ends-result (get_wt_ready_queue clid out s) ends in
        let run = dequeue-tries r t (ground (arith, ready)) e in
        elim (Bool-cases (r.0 == 0)) [
          | inl nobody ↦ inl (run ∙ rw nobody, none_taken d (eq_of_== (r.0) 0 nobody))
          | inr somebody ↦ inr (rw (run, somebody) (ground arith, d))
        ]

  -- In a valid state where the queue of a list holds the tids of workers whose lists exist, a
  -- scheduler that asks for workers gets -1 at once if the list counts no worker that can run.
  -- Otherwise, with a signal pending or not, it sleeps or goes round again only while the list's
  -- ready counter is not positive or no worker of its queue is free, and if it comes back it gets at
  -- least one worker, as `Dequeued` says.
  pub dequeue-answers :
      (s : Kernel Table) (signal : Bool) (clid : ℕ) (c : Kcl Table) (out : List ℕ)
      → IsValid s
      → completion_list s clid ≡ some c
      → Ready s (nodes c.wt_ready_queue)
      → max_wt ≤ length out
      → Answered s signal clid c out
  dequeue-answers s signal clid c out v here ready room =
      let (p, at) = lookup-object kcl_id s.compl_list_htable s.kcls v.lists clid c here in
      elim (get_wt_ready_queue-reserves s clid c out v here ready room) [
        | inl (empty, e) ↦ inl (
          empty,
          dequeue-tries s signal clid p c out at (minus_one, out) s (ground (arith, empty)) e,
        )
        | inr (left, ends) ↦ inr (
          left,
          elim (Bool-cases (signal || is_positive c.threads_ready)) [
            | inr idle ↦ inl (
              dequeue-sleeps s signal clid p c out at (ground (arith, idle, left)),
              inl (ground (arith, idle)),
            )
            | inl ready_left ↦ elim (answered s signal clid p c out at left ends ready_left) [
              | inl (asleep, all_held) ↦ inl (asleep, inr all_held)
              | inr got ↦ inr got
            ]
          ],
        )
      ]
