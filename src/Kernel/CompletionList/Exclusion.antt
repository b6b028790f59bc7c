-- ===== src/Kernel/CompletionList/Exclusion.antt =====
-- `get_wt_ready_queue` of src/lkm/kcompletion_list.c, called twice: what keeps two schedulers from
-- the same worker.
use mathlib.Core.Option
use aosv_project.Base.{
  ℕ, zero, suc, ◌≤◌, ◌<◌, ◌≡◌, ◌≢◌, refl, sym, ap, subst, ◌∙◌, inl, inr, false, some, List, [], ◌∷◌,
  arith, count, length, get_elem?,
}
use aosv_project.Hashtable.{Hashtable}
use aosv_project.Interface.{max_wt}
use aosv_project.Kernel.State.{Kcl, Kernel}
use aosv_project.Kernel.Valid.{Ends, IsValid, worker, completion_list}
use aosv_project.Kernel.Valid.Set.{Ends-mono}
use aosv_project.Kernel.CompletionList.{get_wt_ready_queue}
use aosv_project.Kernel.CompletionList.Loops.{iterate}
use aosv_project.Kernel.CompletionList.Take.{Taken, is_free, spent, fewer_ready, unlocked}
use aosv_project.Kernel.CompletionList.Dequeue.{Ready, Ready-taken, unlocked-reserved}
use aosv_project.Kernel.CompletionList.Reserve.{Dequeued, get_wt_ready_queue-reserves}

pub get_elem?-count :
    (xs : List ℕ) (i : ℕ) → i < length xs → (x : ℕ) × (get_elem? xs i ≡ some x) × (0 < count x xs)
get_elem?-count [] i h = absurd (omega arith)
get_elem?-count (x ∷ xs) zero h = (x, refl, ground arith)
get_elem?-count (x ∷ xs) (suc i) h =
    let (y, at, m) = get_elem?-count xs i (omega arith) in (y, at, ground (arith, m))

iterate-queue :
    {T : Type 0} (n : ℕ) (c : Kcl T)
    → ((iterate n fewer_ready c).wt_ready_queue ≡ c.wt_ready_queue)
      × ((iterate n fewer_ready c).nthreads ≡ c.nthreads)
iterate-queue zero c = (refl, refl)
iterate-queue (suc n) c = iterate-queue n (fewer_ready c)

module _ ⦃ht : Hashtable⦄ where
  open ht use {Table, nodes}

  taken-unfree :
      {s t : Kernel Table} {taken : List ℕ}
      → Taken s t taken
      → (x : ℕ) → 0 < count x taken
      → is_free t x ≡ false
  taken-unfree {s} {taken} a x m =
      ap unlocked (a.workers x) ∙ unlocked-reserved (count x taken) (worker s x) ∙ ground arith

  disjoint :
      {s t u : Kernel Table} {queue queue' : List ℕ} {r r' : ℕ × List ℕ}
      → Dequeued s queue r t
      → Dequeued t queue' r' u
      → (i k : ℕ) → i < r.0
      → k < r'.0
      → get_elem? (r.1) i ≢ get_elem? (r'.1) k
  disjoint d d' i k h g same =
      let i_in : i < length d.taken = subst (λ n. i < n) d.number h in
      let k_in : k < length d'.taken = subst (λ n. k < n) d'.number g in
      let (x, at, m) = get_elem?-count d.taken i i_in in
      let (y, at', m') = get_elem?-count d'.taken k k_in in
      let e : some x ≡ some y = sym (d.written i i_in ∙ at) ∙ same ∙ d'.written k k_in ∙ at' in
      let (free, _, _) = d'.choice.free_once y m' in
      let unfree = taken-unfree d.after x m in ground (arith, e, free, unfree)

  -- In a valid state with two lists that count workers that can run, whose queues hold the tids of
  -- workers whose lists exist: a scheduler that dequeues from the second list, after one that
  -- dequeued from the first (or from the same) list, gets no worker that the first one got. Both
  -- calls end.
  pub get_wt_ready_queue-excludes :
      (s : Kernel Table) (clid clid' : ℕ) (c c' : Kcl Table) (out out' : List ℕ)
      → IsValid s
      → completion_list s clid ≡ some c
      → completion_list s clid' ≡ some c'
      → Ready s (nodes c.wt_ready_queue)
      → Ready s (nodes c'.wt_ready_queue)
      → c.nthreads ≢ 0
      → c'.nthreads ≢ 0
      → max_wt ≤ length out
      → max_wt ≤ length out'
      → Ends
          (λ r t.
            Ends
              (λ r' u. (i k : ℕ) → i < r.0 → k < r'.0 → get_elem? (r.1) i ≢ get_elem? (r'.1) k)
              (get_wt_ready_queue clid' out' t))
          (get_wt_ready_queue clid out s)
  get_wt_ready_queue-excludes s clid clid' c c' out out' v here here' ready ready' some_left
        some_left' room room' =
      elim (get_wt_ready_queue-reserves s clid c out v here ready room) [
        | inl (none_left, _) ↦ absurd (some_left none_left)
        | inr (_, ends) ↦ Ends-mono (get_wt_ready_queue clid out s) ends λ r t d.
            let n = spent s clid' d.taken in
            let (same_queue, same_nthreads) = iterate-queue n c' in
            let here'' : completion_list t clid' ≡ some (iterate n fewer_ready c') =
              d.after.lists clid' ∙ ap (Option.map (iterate n fewer_ready)) here' in
            let ready'' : Ready t (nodes ((iterate n fewer_ready c').wt_ready_queue)) =
              rw same_queue (Ready-taken d.after (nodes c'.wt_ready_queue) ready') in
            elim (get_wt_ready_queue-reserves t clid' (iterate n fewer_ready c') out' d.after.valid
              here'' ready'' room') [
                | inl (none_left, _) ↦ absurd (some_left' (sym same_nthreads ∙ none_left))
                | inr (_, ends') ↦
                    Ends-mono (get_wt_ready_queue clid' out' t) ends' λ r' u d'. disjoint d d'
              ]
      ]
