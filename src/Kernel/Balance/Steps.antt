-- ===== src/Kernel/Balance/Steps.antt =====
-- The requests of src/lkm/ums_core.c where the library's threads keep to the order that src/lib/ums.c
-- gives their calls, and the counters of the lists.
use aosv_project.Base.{
  ℕ, Bool, false, ◌==◌, refl, ◌+◌, ◌≤◌, ◌<◌, ◌≡◌, ◌≢◌, inl, inr, true, none, some, List, arith, ◌^◌,
  length, Bool-cases,
}
use aosv_project.Hashtable.{Hashtable}
use aosv_project.Interface.{max_wt, wt_exiting}
use aosv_project.Kernel.Objects.{Ptr}
use aosv_project.Kernel.Objects.Index.{lookup-object}
use aosv_project.Kernel.Outcome.{ok}
use aosv_project.Kernel.State.{Kwt, Kst, Kcl, Kernel, Alloc}
use aosv_project.Kernel.Worker.{kwt_tid, worker_thread_add_clid}
use aosv_project.Kernel.Worker.Registry.{worker_thread_add_clid-adds}
use aosv_project.Kernel.CompletionList.{init_completion_list}
use aosv_project.Kernel.Core.{
  create_request, dequeue, list_add, execute_begin, execute_finish, thread_yield, thread_exit,
}
use aosv_project.Kernel.Core.Execute.{execute_begin-starts}
use aosv_project.Kernel.Core.Finish.{execute_finish-releases}
use aosv_project.Kernel.Core.Link.{Linked, list_add-links}
use aosv_project.Kernel.Core.Switch.{thread_yield-wakes, thread_exit-leaves}
use aosv_project.Kernel.Core.Wait.{dequeue-answers}
use aosv_project.Kernel.Invariant.Lifetime.{Fresh}
use aosv_project.Kernel.Valid.{IsValid, WorkerAt, SchedulerAt, worker, scheduler, completion_list}
use aosv_project.Kernel.Valid.Keep.{After, After-ok, Ends-After}
use aosv_project.Kernel.Valid.Set.{Ends-result}
use aosv_project.Kernel.Balance.{IsBalanced}
use aosv_project.Kernel.Balance.Change.{Kept, Kept-same}
use aosv_project.Kernel.Balance.Requests.{
  Switched-Kept, Woken-Kept, Finished-Kept, Exited-Kept, Linked-Kept,
}
use aosv_project.Kernel.Balance.Taken.{IsBalanced-Ready, Dequeued-Kept}
use aosv_project.Kernel.Balance.Made.{
  IsBalanced-elsewhere, create_request-Kept, init_completion_list-Kept,
}

module _ ⦃ht : Hashtable⦄ where
  open ht use {Table, nodes}

  -- One thread's run up to where it sleeps or returns. A worker of a list is created once; only a
  -- worker that a scheduler holds ends a time slice or exits; what has exited does no more; no list
  -- and no worker is destroyed. The last case is any code that leaves the workers and lists alone.
  pub data ProperStep (s : Kernel Table) : Kernel Table → Type 0 where
    creates :
        (a : Alloc Kwt) (parent_tid tid : ℕ) {t : Kernel Table}
        → Fresh a s.wt_htable
        → worker s tid ≡ none
        → create_request a parent_tid tid s ≡ ok tt t
        → ProperStep s t
    makes :
        (a : Alloc (Kcl Table)) {id : ℕ} {t : Kernel Table}
        → Fresh a s.compl_list_htable
        → s.compl_list_last_id + 1 < 2 ^ 32
        → init_completion_list a s ≡ ok id t
        → ProperStep s t
    adds :
        (cle kcle tid clid : ℕ) (w : Kwt) (c : Kcl Table) {t : Kernel Table}
        → worker s tid ≡ some w
        → completion_list s clid ≡ some c
        → w.state ≢ wt_exiting
        → list_add (some cle) (some kcle) tid clid s ≡ ok tt t
        → ProperStep s t
    dequeues :
        (signal : Bool) (clid : ℕ) (out : List ℕ) (c : Kcl Table) {r : ℕ × List ℕ}
        {t : Kernel Table}
        → completion_list s clid ≡ some c
        → max_wt ≤ length out
        → dequeue signal clid out s ≡ ok r t
        → ProperStep s t
    begins :
        (pid tid now : ℕ) (w : Kwt) (k : Kst) {r : Ptr × Ptr} {t : Kernel Table}
        → worker s tid ≡ some w
        → scheduler s pid ≡ some k
        → s.alive tid ≡ true
        → w.state ≢ wt_exiting
        → execute_begin pid tid now s ≡ ok r t
        → ProperStep s t
    ends :
        (pid tid p q now : ℕ) (w : Kwt) (k : Kst) {t : Kernel Table}
        → WorkerAt s tid p w
        → SchedulerAt s pid q k
        → worker s tid ≡ some w
        → w.mutex ≡ true
        → execute_finish (some p) (some q) now s ≡ ok tt t
        → ProperStep s t
    yields :
        (tid : ℕ) (w : Kwt) {t : Kernel Table}
        → worker s tid ≡ some w
        → w.state ≢ wt_exiting
        → thread_yield tid s ≡ ok tt t
        → ProperStep s t
    exits :
        (tid : ℕ) (w : Kwt) {t : Kernel Table}
        → worker s tid ≡ some w
        → w.mutex ≡ true
        → w.state ≢ wt_exiting
        → s.alive w.curr_sched_tid ≡ true
        → thread_exit tid s ≡ ok tt t
        → ProperStep s t
    elsewhere :
        {t : Kernel Table}
        → IsValid t
        → ((j : ℕ) → worker t j ≡ worker s j)
        → ((j : ℕ) → completion_list t j ≡ completion_list s j)
        → ProperStep s t

  -- The list whose queue a step puts a worker into.
  abbrev pub fills : {s t : Kernel Table} → ProperStep s t → ℕ → Bool
  fills (adds cle kcle tid clid w c here there active e) j = j == clid
  fills _ j = false

  -- COMPLLISTADD, which sleeps while the worker is held.
  pub add-Linked :
      (s : Kernel Table) (cle kcle tid clid : ℕ) (w : Kwt) (c : Kcl Table)
      → IsBalanced s
      → worker s tid ≡ some w
      → completion_list s clid ≡ some c
      → After
          (λ t. Linked s t tid clid w c × (w.mutex ≡ false))
          (list_add (some cle) (some kcle) tid clid s)
  unfolding list_add
  add-Linked s cle kcle tid clid w c b here there = elim (Bool-cases w.mutex) [
    | inl held ↦ elim (worker_thread_add_clid-adds s cle tid clid w b.valid here) [
      | inl (_, e) ↦ rw e tt
      | inr runs ↦
          let (_, _, _, (free, _, _, _)) =
            Ends-result (worker_thread_add_clid (some cle) tid clid s) runs in
          absurd (ground (arith, held, free))
    ]
    | inr free ↦
        Ends-After (list_add (some cle) (some kcle) tid clid s)
          (list_add-links s cle kcle tid clid w c b.valid here there free) λ _ t a. (a, free)
  ]

  module _ (but : ℕ → Bool) (s : Kernel Table) (b : IsBalanced s) where
    dequeue-After :
        (signal : Bool) (clid : ℕ) (out : List ℕ) (c : Kcl Table)
        → completion_list s clid ≡ some c
        → max_wt ≤ length out
        → After (Kept but s) (dequeue signal clid out s)
    dequeue-After signal clid out c here room =
        elim (dequeue-answers s signal clid c out b.valid here (IsBalanced-Ready s b clid c here)
          room) [
            | inl (_, e) ↦ rw e (Kept-same but s s (λ j. refl) b)
            | inr (_, inl (e, _)) ↦ rw e tt
            | inr (_, inr runs) ↦
                Ends-After (dequeue signal clid out s) runs
                  λ r t (_, d). Dequeued-Kept s b clid c here but t r d
          ]

    begin-After :
        (pid tid now : ℕ) (w : Kwt) (k : Kst)
        → worker s tid ≡ some w
        → scheduler s pid ≡ some k
        → s.alive tid ≡ true
        → w.state ≢ wt_exiting
        → After (Kept but s) (execute_begin pid tid now s)
    begin-After pid tid now w k here_w here_k lives active =
        Ends-After (execute_begin pid tid now s)
          (execute_begin-starts s pid tid now w k b.valid here_w here_k lives)
          λ _ t (a, _). Switched-Kept but s t tid w b here_w k a active

    finish-After :
        (pid tid p q now : ℕ) (w : Kwt) (k : Kst)
        → WorkerAt s tid p w
        → SchedulerAt s pid q k
        → worker s tid ≡ some w
        → w.mutex ≡ true
        → After (Kept but s) (execute_finish (some p) (some q) now s)
    finish-After pid tid p q now w k at_w at_k here held =
        elim (execute_finish-releases s tid pid p q now w k b.valid at_w at_k
          ((b.sound tid w here).1)) [
            | inl (_, e) ↦ rw e tt
            | inr (stopped, runs) ↦
                Ends-After (execute_finish (some p) (some q) now s) runs
                  λ _ t a. Finished-Kept but s t tid w b here k a held stopped
          ]

    yield-After :
        (tid : ℕ) (w : Kwt)
        → worker s tid ≡ some w
        → w.state ≢ wt_exiting
        → After (Kept but s) (thread_yield tid s)
    yield-After tid w here active = elim (thread_yield-wakes s tid w b.valid here) [
      | inl (_, e) ↦ rw e tt
      | inr (_, runs) ↦
          Ends-After (thread_yield tid s) runs λ _ t a. Woken-Kept but s t tid w b here a active
    ]

    exit-After :
        (tid : ℕ) (w : Kwt)
        → worker s tid ≡ some w
        → w.mutex ≡ true
        → w.state ≢ wt_exiting
        → s.alive w.curr_sched_tid ≡ true
        → After (Kept but s) (thread_exit tid s)
    exit-After tid w here held active lives =
        let (p, at) = lookup-object kwt_tid s.wt_htable s.kwts b.valid.workers tid w here in
        Ends-After (thread_exit tid s)
          (thread_exit-leaves s tid w b.valid here ((b.sound tid w here).1) lives)
          λ _ t a. Exited-Kept but s t tid w b here a at.same held active

  -- A step keeps the counters right, and fills no queue but that of the list it adds a worker to.
  pub ProperStep-Kept :
      {s t : Kernel Table} (step : ProperStep s t) → IsBalanced s → Kept (fills step) s t
  ProperStep-Kept {s} (creates a parent_tid tid fresh none_yet e) b =
      After-ok (Kept (λ _. false) s)
        (create_request-Kept (λ _. false) s a parent_tid tid b fresh none_yet) e
  ProperStep-Kept {s} (makes a fresh room e) b =
      After-ok (Kept (λ _. false) s) (init_completion_list-Kept (λ _. false) s a b fresh room) e
  ProperStep-Kept {s} {t} (adds cle kcle tid clid w c here there active e) b =
      let (a, free) =
        After-ok (λ t. Linked s t tid clid w c × (w.mutex ≡ false))
          (add-Linked s cle kcle tid clid w c b here there) e in
      Linked-Kept (λ j. j == clid) s t tid w b here (λ j h. h) a there free active
  ProperStep-Kept {s} (dequeues signal clid out c here room e) b =
      After-ok (Kept (λ _. false) s) (dequeue-After (λ _. false) s b signal clid out c here room) e
  ProperStep-Kept {s} (begins pid tid now w k here_w here_k lives active e) b =
      After-ok (Kept (λ _. false) s)
        (begin-After (λ _. false) s b pid tid now w k here_w here_k lives active) e
  ProperStep-Kept {s} (ends pid tid p q now w k at_w at_k here held e) b =
      After-ok (Kept (λ _. false) s)
        (finish-After (λ _. false) s b pid tid p q now w k at_w at_k here held) e
  ProperStep-Kept {s} (yields tid w here active e) b =
      After-ok (Kept (λ _. false) s) (yield-After (λ _. false) s b tid w here active) e
  ProperStep-Kept {s} (exits tid w here held active lives e) b =
      After-ok (Kept (λ _. false) s) (exit-After (λ _. false) s b tid w here held active lives) e
  ProperStep-Kept {s} {t} (elsewhere v workers lists) b =
      Kept-same (λ _. false) s t workers (IsBalanced-elsewhere s t b v workers lists)
