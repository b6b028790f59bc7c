-- ===== src/Kernel/Balance/Sleep.antt =====
-- DEQUEUECOMPLLIST of src/lkm/ums_core.c over counters that count: when a scheduler sleeps.
use aosv_project.Base.{
  ℕ, ◌^◌, ◌≤◌, ◌<◌, ◌≡◌, ◌⊎◌, inl, inr, true, some, List, arith, count, length, minus_one,
  is_positive, ◌∙◌, Bool,
}
use aosv_project.Hashtable.{Hashtable}
use aosv_project.Interface.{max_wt}
use aosv_project.Kernel.Outcome.{ok, blocked}
use aosv_project.Kernel.State.{Kcl, Kernel}
use aosv_project.Kernel.CompletionList.Take.{is_free}
use aosv_project.Kernel.CompletionList.Reserve.{Dequeued}
use aosv_project.Kernel.CompletionList.Exclusion.{get_elem?-count}
use aosv_project.Kernel.Core.{dequeue}
use aosv_project.Kernel.Core.Wait.{AllHeld, Answered, dequeue-answers}
use aosv_project.Kernel.Valid.{Ends, completion_list}
use aosv_project.Kernel.Valid.Set.{Ends-result}
use aosv_project.Kernel.Balance.{Counts, IsBalanced, places}
use aosv_project.Kernel.Balance.Tally.{tally, tally-le, tally-some, tally-cases}
use aosv_project.Kernel.Balance.Taken.{IsBalanced-Ready}

module _ ⦃ht : Hashtable⦄ where
  open ht use {Table, nodes}

  -- Some worker of a queue is free.
  abbrev pub SomeFree : Kernel Table → List ℕ → Type 0
  SomeFree s queue = (j : ℕ) × (0 < count j queue) × (is_free s j ≡ true)

  -- What a scheduler finds that asks for the workers of a queue.
  abbrev pub Served : Kernel Table → (signal : Bool) → (clid : ℕ) → (queue out : List ℕ) → Type 0
  Served s signal clid queue out =
      (length queue ≡ 0) × (dequeue signal clid out s ≡ ok (minus_one, out) s)
      ⊎ (0 < length queue) × AllHeld s queue × (dequeue signal clid out s ≡ blocked)
      ⊎ SomeFree s queue
        × Ends (λ r t. (0 < r.0) × Dequeued s queue r t) (dequeue signal clid out s)

  module _ (s : Kernel Table) (signal : Bool) (clid : ℕ) (c : Kcl Table) (out : List ℕ)
      (b : Counts (is_free s) (places s clid) c)
      (small : length (nodes c.wt_ready_queue) < 2 ^ 31) where
    Dequeued-SomeFree :
        {r : ℕ × List ℕ} {t : Kernel Table}
        → 0 < r.0
        → Dequeued s (nodes c.wt_ready_queue) r t
        → SomeFree s (nodes c.wt_ready_queue)
    Dequeued-SomeFree {r} h d =
        let (j, _, m) = get_elem?-count d.taken 0 (omega (arith, h, d.number)) in
        let (free, _, inside) = d.choice.free_once j m in (j, inside, free)

    ready-SomeFree : SomeFree s (nodes c.wt_ready_queue) → is_positive c.threads_ready ≡ true
    ready-SomeFree (j, m, free) =
        let positive = tally-some (is_free s) (nodes c.wt_ready_queue) j m free in
        let bound = tally-le (is_free s) (nodes c.wt_ready_queue) in
        let e : c.threads_ready ≡ tally (is_free s) (nodes c.wt_ready_queue) =
          b.ready ∙ omega (arith, positive, bound, small) in
        ground (arith, e, positive, bound, small)

    Answered-Served :
        Answered s signal clid c out → Served s signal clid (nodes c.wt_ready_queue) out
    Answered-Served (inl (empty, e)) = inl (omega (arith, empty, b.threads, small), e)
    Answered-Served (inr (left, inl (asleep, why))) =
        elim (tally-cases (is_free s) (nodes c.wt_ready_queue)) [
          | inl found ↦ absurd (elim why [
            | inl none_ready ↦ ground (arith, none_ready, ready-SomeFree found)
            | inr held ↦ held found.0 found.1 found.2
          ])
          | inr held ↦ inr (inl (omega (arith, left, b.threads, small), held, asleep))
        ]
    Answered-Served (inr (left, inr runs)) =
        let (r, t, _, (h, d)) = Ends-result (dequeue signal clid out s) runs in
        inr (inr (Dequeued-SomeFree h d, runs))

  -- Where the counters count and the queue of a list is shorter than 2 ^ 31, a scheduler that asks
  -- for the list's workers gets -1 if the queue is empty; sleeps, or goes round again while a
  -- signal is pending, if it is not and a scheduler holds each of its workers; and otherwise gets at
  -- least one worker, as `Dequeued` says.
  pub dequeue-serves :
      (s : Kernel Table) (signal : Bool) (clid : ℕ) (c : Kcl Table) (out : List ℕ)
      → IsBalanced s
      → completion_list s clid ≡ some c
      → length (nodes c.wt_ready_queue) < 2 ^ 31
      → max_wt ≤ length out
      → Served s signal clid (nodes c.wt_ready_queue) out
  dequeue-serves s signal clid c out b here small room =
      Answered-Served s signal clid c out (b.counts clid c here) small
        (dequeue-answers s signal clid c out b.valid here (IsBalanced-Ready s b clid c here) room)
