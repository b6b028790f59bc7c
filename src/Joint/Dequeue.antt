-- ===== src/Joint/Dequeue.antt =====
-- DEQUEUECOMPLLIST of src/lkm/ums_core.c with `completion_list_get` of src/lib/completion_list.c:
-- what a scheduler finds of the workers that it is given.
use aosv_project.Base.{
  ℕ, ◌≤◌, ◌<◌, ◌≡◌, ◌⊎◌, inl, inr, some, List, arith, length, minus_one, get_elem?, ◌∙◌, sym, subst,
  refl, Bool,
}
use aosv_project.Hashtable.{Hashtable}
use aosv_project.Interface.{max_wt}
use aosv_project.Kernel.Outcome.{ok}
use aosv_project.Kernel.State.{Kcl, Kernel}
use aosv_project.Kernel.CompletionList.Exclusion.{get_elem?-count}
use aosv_project.Kernel.CompletionList.Reserve.{Dequeued}
use aosv_project.Kernel.Core.{dequeue}
use aosv_project.Kernel.Core.Wait.{dequeue-answers}
use aosv_project.Kernel.Valid.{Ends, completion_list}
use aosv_project.Kernel.Valid.Set.{Ends-mono}
use aosv_project.Kernel.Balance.{places}
use aosv_project.Kernel.Balance.Taken.{IsBalanced-Ready}
use aosv_project.Library.{WorkerThread, CompletionList, found, completion_list_get}
use aosv_project.Library.Array.{completion_list_get-finds}
use aosv_project.Example.{Threads}
use aosv_project.Example.Rounds.{Has, mem_at}
use aosv_project.Joint.{Coherent}

module _ ⦃ht : Hashtable⦄ {Cpu Routine : Type 0} where
  open ht use {Table, nodes}

  -- A search in the list's array ends at a worker with the tid.
  abbrev pub Found : Threads Cpu Routine → CompletionList → (tid : ℕ) → Type 0
  Found mem list tid =
      (p : ℕ) × (w : WorkerThread Cpu Routine) × (completion_list_get mem list tid ≡ found p)
      × (mem p ≡ some w)
      × (w.tid ≡ tid)

  Has-Found :
      (mem : Threads Cpu Routine) (list : CompletionList) (s : Kernel Table) (tid : ℕ)
      → Coherent mem list s
      → Has mem list tid
      → Found mem list tid
  Has-Found mem list s tid k (j, h, has) =
      elim (completion_list_get-finds mem list tid k.fits k.live) [
        | inr (_, nowhere) ↦ absurd (nowhere j h has)
        | inl (p, run, f) ↦
            let (q, w, at, here, named) = f.named in
            let e : some q ≡ some p = sym at ∙ f.at in
            (p, w, run, subst (λ o. mem_at mem o ≡ some w) e here, named)
      ]

  -- What a dequeue gave: none, as the kernel's list is empty, or workers that the library finds.
  abbrev pub AllFound : Threads Cpu Routine → CompletionList → ℕ × List ℕ → Type 0
  AllFound mem list r =
      (r.0 ≡ minus_one)
      ⊎ ((i : ℕ) → i < r.0 → (tid : ℕ) × (get_elem? r.1 i ≡ some tid) × Found mem list tid)

  -- Where the library's array and the kernel's list are `Coherent` and the dequeue has room for its
  -- tids, if a scheduler's dequeue from its list comes back, it either says -1, or a search by
  -- `completion_list_get` finds the worker of each tid that it gave.
  pub dequeue-finds :
      (mem : Threads Cpu Routine) (list : CompletionList) (s t : Kernel Table) (c : Kcl Table)
      (out : List ℕ) (r : ℕ × List ℕ) (signal : Bool)
      → Coherent mem list s
      → completion_list s list.clc ≡ some c
      → max_wt ≤ length out
      → dequeue signal list.clc out s ≡ ok r t
      → AllFound mem list r
  dequeue-finds mem list s t c out r signal k here room run =
      elim (dequeue-answers s signal list.clc c out k.balanced.valid here
        (IsBalanced-Ready s k.balanced list.clc c here) room) [
          | inl (_, e) ↦ subst (Ends λ q _. AllFound mem list q) (sym e ∙ run) (inl refl)
          | inr (_, inl (e, _)) ↦ absurd (ground (arith, e, run))
          | inr (_, inr ends) ↦
              subst (Ends λ q _. AllFound mem list q) run
                (Ends-mono (dequeue signal list.clc out s) ends λ q u (_, d). inr (given q u d))
        ]
    where
      given :
          (q : ℕ × List ℕ) (u : Kernel Table)
          → Dequeued s (nodes c.wt_ready_queue) q u
          → (i : ℕ) → i < q.0
          → (tid : ℕ) × (get_elem? q.1 i ≡ some tid) × Found mem list tid
      given q u d i h =
          let inside : i < length d.taken = omega (arith, h, d.number) in
          let (tid, at, m) = get_elem?-count d.taken i inside in
          let (_, _, queued) = d.choice.free_once tid m in
          let place : 0 < places s list.clc tid =
            omega (arith, queued, (k.balanced.counts list.clc c here).members tid) in
          (tid, d.written i inside ∙ at, Has-Found mem list s tid k (k.known tid place))
