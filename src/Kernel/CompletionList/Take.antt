-- ===== src/Kernel/CompletionList/Take.antt =====
-- One worker that `get_wt_ready_queue` reserves, and what a sequence of such workers amounts to.
use mathlib.Core.Option
use aosv_project.Base.{
  ℕ, ◌+◌, ◌≡◌, refl, sym, ap, subst, ◌∙◌, Bool, true, false, not, Option, none, some, List, [], ◌∷◌,
  arith, if◌then◌else◌, count, ltb, dec, set,
}
use aosv_project.Hashtable.{Hashtable}
use aosv_project.Kernel.Outcome.{ok}
use aosv_project.Kernel.State.{Kwt, Kcl, Kernel}
use aosv_project.Kernel.Worker.{mutex_trylock}
use aosv_project.Kernel.Valid.{Ends, IsValid, WorkerAt, worker, completion_list}
use aosv_project.Kernel.Valid.Set.{Ends-and_then, WorkerSet}
use aosv_project.Kernel.Worker.Mutex.{mutex_trylock-free, mutex_trylock-held}
use aosv_project.Kernel.CompletionList.{
  take_ready, for_each_dec_kcl_threads_ready, dec_threads_ready,
}
use aosv_project.Kernel.CompletionList.Loops.{
  iterate, Known, ListsSet, for_each_clid-iterates, dec_threads_ready-Applies,
}

abbrev pub fewer_ready : {T : Type 0} → Kcl T → Kcl T
fewer_ready c = record c { threads_ready = dec c.threads_ready }

abbrev pub held : Kwt → Kwt
held w = record w { mutex = true }

-- How often the lists of an optional worker name a list.
abbrev pub names : ℕ → Option Kwt → ℕ
names clid none = 0
names clid (some w) = count clid w.clid_list

abbrev pub unlocked : Option Kwt → Bool
unlocked none = false
unlocked (some w) = not w.mutex

module _ ⦃ht : Hashtable⦄ where
  open ht use {Table}

  -- The worker exists and its mutex is free.
  abbrev pub is_free : Kernel Table → ℕ → Bool
  is_free s tid = unlocked (worker s tid)

  -- How often the workers of a list of tids name the list `clid`.
  abbrev pub spent : Kernel Table → ℕ → List ℕ → ℕ
  spent s clid [] = 0
  spent s clid (tid ∷ tids) = names clid (worker s tid) + spent s clid tids

  -- `t` is `s` with the workers `tids` reserved.
  pub record Taken (s t : Kernel Table) (tids : List ℕ) : Type 0 where
    pub valid : IsValid t
    pub workers :
        (j : ℕ)
        → worker t j ≡ (if ltb 0 (count j tids) then Option.map held (worker s j) else worker s j)
    pub lists :
        (j : ℕ)
        → completion_list t j
          ≡ Option.map (iterate (spent s j tids) fewer_ready) (completion_list s j)
    pub frame : t ≡ record s { kwts = t.kwts; kcls = t.kcls }

  Taken-held :
      (s t u : Kernel Table) (tid p : ℕ) (w : Kwt)
      → worker s tid ≡ some w
      → WorkerSet s t tid p (held w)
      → ListsSet t u
          (λ j. Option.map (iterate (count j w.clid_list) fewer_ready) (completion_list t j))
      → Taken s u (tid ∷ [])
  Taken-held s t u tid p w here a b = record {
    valid = b.valid;
    workers = λ j. ground (arith, a.workers j, b.frame, here);
    lists = λ j.
        let e : spent s j (tid ∷ []) ≡ count j w.clid_list =
          ap (λ o. names j o + 0) here ∙ omega arith in
        rw e (
          b.lists j
          ∙ ap
              (λ (r : Kernel Table).
                Option.map (iterate (count j w.clid_list) fewer_ready) (completion_list r j))
              a.frame);
    frame = ground (arith, b.frame, a.frame);
  }

  dec_threads_ready-iterates :
      (t : Kernel Table) (tid p : ℕ) (w : Kwt)
      → IsValid t
      → WorkerAt t tid p w
      → Known t w.clid_list
      → Ends
          (λ _ u.
            ListsSet t u
              (λ j. Option.map (iterate (count j w.clid_list) fewer_ready) (completion_list t j)))
          (for_each_dec_kcl_threads_ready (some p) t)
  unfolding for_each_dec_kcl_threads_ready
  dec_threads_ready-iterates t tid p w v at known = rw at.there (
      for_each_clid-iterates fewer_ready (λ c. refl) dec_threads_ready dec_threads_ready-Applies
        w.clid_list t v known)

  -- The body of the loop, at a free worker.
  pub take_ready-reserves :
      (s : Kernel Table) (tid p i : ℕ) (w : Kwt) (out : List ℕ)
      → IsValid s
      → WorkerAt s tid p w
      → worker s tid ≡ some w
      → w.mutex ≡ false
      → Known s w.clid_list
      → Ends
          (λ r t. (r ≡ (i + 1, set out i tid)) × Taken s t (tid ∷ []))
          (take_ready (some p) i out s)
  unfolding take_ready
  take_ready-reserves s tid p i w out v at here free known =
      Ends-and_then _ (mutex_trylock (some p) s) _ (mutex_trylock-free v at free) λ r t (locked, a).
        rw (locked, a.at.there)
          (Ends-and_then _ (for_each_dec_kcl_threads_ready (some p) t) _
            (dec_threads_ready-iterates t tid p (held w) a.valid a.at
              (subst (λ (r : Kernel Table). Known r w.clid_list) (sym a.frame) known))
            λ _ u b. (ap (λ x. (i + 1, set out i x)) at.same, Taken-held s t u tid p w here a b))

  -- The body of the loop, at a worker that is held.
  pub take_ready-skips :
      (s : Kernel Table) (tid p i : ℕ) (w : Kwt) (out : List ℕ)
      → IsValid s
      → WorkerAt s tid p w
      → w.mutex ≡ true
      → take_ready (some p) i out s ≡ ok (i, out) s
  unfolding take_ready
  take_ready-skips s tid p i w out v at locked = rw (mutex_trylock-held v at locked)
