-- ===== src/Kernel/Balance/Made.antt =====
-- CREATEWORKERTHREAD and UMSINITCOMPLLIST of src/lkm/ums_core.c, and the counters of the lists.
use std.Path.{fun_ext}
use aosv_project.Base.{
  ℕ, Bool, subst, update, ◌+◌, ◌≡◌, refl, sym, ap, ◌∙◌, inl, inr, true, none, some, List, [], ◌∷◌,
  arith, ◌==◌, if◌then◌else◌, count, Option-cases, Bool-cases, eq_of_==, ◌^◌, ◌<◌,
}
use aosv_project.Hashtable.{Hashtable}
use aosv_project.Kernel.State.{Kwt, Kcl, Kernel, Alloc, wake_up_process}
use aosv_project.Kernel.Worker.{create_worker_thread}
use aosv_project.Kernel.Worker.Registry.{new_worker, create_worker_thread-inserts}
use aosv_project.Kernel.CompletionList.{init_completion_list}
use aosv_project.Kernel.CompletionList.Loops.{Known, iterate}
use aosv_project.Kernel.CompletionList.Take.{is_free, unlocked}
use aosv_project.Kernel.CompletionList.Registry.{new_list, init_completion_list-inserts}
use aosv_project.Kernel.Core.{create_request}
use aosv_project.Kernel.Core.Finish.{more_ready}
use aosv_project.Kernel.Invariant.Lifetime.{Fresh}
use aosv_project.Kernel.Valid.{IsValid, worker, completion_list}
use aosv_project.Kernel.Valid.Step.{IsValid-events}
use aosv_project.Kernel.Valid.Keep.{After, Ends-After, After-and_then}
use aosv_project.Kernel.Balance.{Counts, IsBalanced, places, enrolled}
use aosv_project.Kernel.Balance.Change.{
  IsBalanced-map, IsBalanced-worker, Kept, Kept-same, Kept-worker, update_same, of_some,
}
use aosv_project.Kernel.Balance.Lists.{Counts-freed, Counts-new}
use aosv_project.Kernel.Balance.Requests.{map_same}

module _ ⦃ht : Hashtable⦄ where
  open ht use {Table, nodes}

  -- The workers and the lists are left alone.
  pub IsBalanced-elsewhere :
      (s t : Kernel Table)
      → IsBalanced s
      → IsValid t
      → ((j : ℕ) → worker t j ≡ worker s j)
      → ((j : ℕ) → completion_list t j ≡ completion_list s j)
      → IsBalanced t
  IsBalanced-elsewhere s t b v workers lists =
      let free : is_free t ≡ is_free s = fun_ext λ j. ap unlocked (workers j) in
      IsBalanced-map s t (λ j c. c) b v (λ j. lists j ∙ map_same (completion_list s j))
        (λ tid w here. b.sound tid w (sym (workers tid) ∙ here))
        λ j c here old.
          let same : places t j ≡ places s j = fun_ext λ tid. ap (enrolled j) (workers tid) in
          rw (free, same) old

  Created-IsBalanced :
      (s t : Kernel Table) (bytes : Kwt) (tid : ℕ)
      → IsBalanced s
      → worker s tid ≡ none
      → IsValid t
      → ((j : ℕ) → worker t j ≡ (if tid == j then some (new_worker bytes tid) else worker s j))
      → t ≡ record s { wt_htable = t.wt_htable; kwts = t.kwts }
      → IsBalanced t
  Created-IsBalanced s t bytes tid b none_yet v workers frame =
      IsBalanced-worker s t tid (new_worker bytes tid) (λ j. ground (arith, workers j)) (λ j c. c) b
        v
        (λ j. ap (λ (r : Kernel Table). completion_list r j) frame ∙ map_same (completion_list s j))
        (omega arith) tt
        λ j c there old.
          let gone : places s j tid ≡ 0 = ap (enrolled j) none_yet in
          rw (update_same (places s j) tid 0 gone) (
            subst (λ n. Counts (update (is_free s) tid true) (places s j) (iterate n more_ready c))
              gone (Counts-freed old tid (ap unlocked none_yet)))

  create_worker_thread-Kept :
      (but : ℕ → Bool) (s : Kernel Table) (a : Alloc Kwt) (tid : ℕ)
      → IsBalanced s
      → Fresh a s.wt_htable
      → worker s tid ≡ none
      → After (Kept but s) (create_worker_thread a tid s)
  unfolding create_worker_thread
  create_worker_thread-Kept but s a tid b fresh none_yet = elim (Option-cases a.at) [
    | inl failed ↦ rw (failed, create_worker_thread) tt
    | inr (p, at) ↦
        Ends-After (create_worker_thread a tid s)
          (create_worker_thread-inserts s a tid p b.valid at (fresh p at) none_yet)
          λ _ t (v, workers, frame).
            Kept-worker but s t tid (new_worker a.bytes tid) (λ j. ground (arith, workers j))
              (λ clid h. omega arith)
              (Created-IsBalanced s t a.bytes tid b none_yet v workers frame)
  ]

  wake_up_process-Kept :
      (but : ℕ → Bool) (tid : ℕ) (s t : Kernel Table)
      → Kept but s t
      → After (Kept but s) (wake_up_process tid t)
  unfolding wake_up_process
  wake_up_process-Kept but tid s t k = elim (Bool-cases (t.alive tid)) [
    | inl lives ↦ rw lives (record {
      balanced =
          IsBalanced-elsewhere t _ k.balanced (IsValid-events k.balanced.valid _) (λ j. refl)
            λ j. refl;
      no_new = k.no_new;
    })
    | inr dead ↦ rw dead tt
  ]

  pub create_request-Kept :
      (but : ℕ → Bool) (s : Kernel Table) (a : Alloc Kwt) (parent_tid tid : ℕ)
      → IsBalanced s
      → Fresh a s.wt_htable
      → worker s tid ≡ none
      → After (Kept but s) (create_request a parent_tid tid s)
  unfolding create_request
  create_request-Kept but s a parent_tid tid b fresh none_yet =
      After-and_then (Kept but s) (Kept but s) (create_worker_thread a tid s) _
        (create_worker_thread-Kept but s a tid b fresh none_yet)
        λ _ t. wake_up_process-Kept but parent_tid s t

  Known-unused :
      (s : Kernel Table) (clid : ℕ) (clids : List ℕ)
      → Known s clids
      → completion_list s clid ≡ none
      → count clid clids ≡ 0
  Known-unused s clid [] known gone = refl
  Known-unused s clid (j ∷ js) ((c, here), known) gone = elim (Bool-cases (clid == j)) [
    | inl hit ↦
        absurd (ground (arith, here, sym (ap (completion_list s) (eq_of_== clid j hit)) ∙ gone))
    | inr miss ↦ rw miss (ground (arith, Known-unused s clid js known gone))
  ]

  places-unused :
      (s : Kernel Table) (clid tid : ℕ)
      → IsBalanced s
      → completion_list s clid ≡ none
      → places s clid tid ≡ 0
  places-unused s clid tid b gone = elim (Option-cases (worker s tid)) [
    | inl e ↦ ap (enrolled clid) e
    | inr (w, e) ↦
        let unused = Known-unused s clid w.clid_list ((b.sound tid w e).1) gone in
        ap (enrolled clid) e ∙ ground (arith, unused)
  ]

  Known-made :
      (s t : Kernel Table) (id : ℕ) (c : Kcl Table) (clids : List ℕ)
      → ((j : ℕ) → completion_list t j ≡ (if id == j then some c else completion_list s j))
      → Known s clids
      → Known t clids
  Known-made s t id c [] lists known = tt
  Known-made s t id c (j ∷ js) lists ((d, here), known) = (
    ((if id == j then c else d), ground (arith, lists j, here)),
    Known-made s t id c js lists known,
  )

  Made-IsBalanced :
      (s t : Kernel Table) (id : ℕ) (bytes : Kcl Table)
      → IsBalanced s
      → IsValid t
      → completion_list s id ≡ none
      → ((j : ℕ)
          → completion_list t j
            ≡ (if id == j then some (new_list bytes id) else completion_list s j))
      → ((j : ℕ) → worker t j ≡ worker s j)
      → IsBalanced t
  Made-IsBalanced s t id bytes b v gone lists workers =
      let free : is_free t ≡ is_free s = fun_ext λ j. ap unlocked (workers j) in
      record {
        valid = v;
        sound = λ tid w here.
            let (bound, known) = b.sound tid w (sym (workers tid) ∙ here) in
            (bound, Known-made s t id (new_list bytes id) w.clid_list lists known);
        counts = λ j c here.
            let same : places t j ≡ places s j = fun_ext λ tid. ap (enrolled j) (workers tid) in
            elim (Bool-cases (id == j)) [
              | inl hit ↦
                  let empty : places t j ≡ (λ _. 0) =
                    same
                    ∙ fun_ext λ tid.
                      ap (λ k. places s k tid) (sym (eq_of_== id j hit))
                      ∙ places-unused s id tid b gone in
                  rw empty (
                    of_some (Counts (is_free t) (λ _. 0)) {a = new_list bytes id} {b = c}
                      (ground (arith, lists j, hit, here)) (Counts-new (is_free t) bytes id))
              | inr miss ↦ rw (free, same) (b.counts j c (ground (arith, lists j, miss, here)))
            ];
      }

  pub init_completion_list-Kept :
      (but : ℕ → Bool) (s : Kernel Table) (a : Alloc (Kcl Table))
      → IsBalanced s
      → Fresh a s.compl_list_htable
      → s.compl_list_last_id + 1 < 2 ^ 32
      → After (Kept but s) (init_completion_list a s)
  unfolding init_completion_list
  init_completion_list-Kept but s a b fresh room = elim (Option-cases a.at) [
    | inl failed ↦ rw (failed, init_completion_list) tt
    | inr (p, at) ↦
        Ends-After (init_completion_list a s)
          (init_completion_list-inserts s a p b.valid at (fresh p at) room)
          λ id t (_, gone, v, lists, frame).
            let workers : (j : ℕ) → worker t j ≡ worker s j =
              λ j. ap (λ (r : Kernel Table). worker r j) frame in
            Kept-same but s t workers (Made-IsBalanced s t id a.bytes b v gone lists workers)
  ]
