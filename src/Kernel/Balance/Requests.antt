-- ===== src/Kernel/Balance/Requests.antt =====
-- COMPLLISTADD, EXECUTEUMSTHREAD, UMSTHREADTYIELD and WORKERTHREADEXIT of src/lkm/ums_core.c, and the
-- counters of the lists.
use mathlib.Core.Option
use aosv_project.Base.{
  ℕ, ◌<◌, ◌≡◌, ◌≢◌, refl, sym, ap, ◌∙◌, inl, inr, true, false, not, Bool, false, Option, none, some,
  List, arith, ◌==◌, if◌then◌else◌, count, ◌+◌, Bool-cases, eq_of_==,
}
use aosv_project.Hashtable.{Hashtable}
use aosv_project.Interface.{wt_idle, wt_running, wt_exiting}
use aosv_project.Kernel.State.{Kwt, Kst, Kcl, Kernel, Event}
use aosv_project.Kernel.CompletionList.Loops.{iterate}
use aosv_project.Kernel.CompletionList.Take.{is_free, unlocked}
use aosv_project.Kernel.Core.Execute.{Switched, started, busy}
use aosv_project.Kernel.Core.Finish.{Finished, more_ready, freed, timed}
use aosv_project.Kernel.Core.Link.{Linked, listed, joined}
use aosv_project.Kernel.Core.Switch.{Woken, Exited, parted, paused, ended, without}
use aosv_project.Kernel.Valid.{IsValid, worker, completion_list}
use aosv_project.Kernel.Balance.{IsBalanced, places, enrolled}
use aosv_project.Kernel.Balance.Change.{
  IsBalanced-worker, Kept, Kept-worker, update_same, update_more,
}
use aosv_project.Kernel.Balance.Lists.{Counts-joined, Counts-freed}
use aosv_project.Kernel.Balance.Leave.{Counts-without}

pub map_same : {A : Type 0} (o : Option A) → o ≡ Option.map (λ a. a) o
map_same none = refl
map_same (some a) = refl

module _ ⦃ht : Hashtable⦄ where
  open ht use {Table}

  join-map :
      (j clid : ℕ) (d : Kcl Table) (tid : ℕ) (o : Option (Kcl Table))
      → (j ≡ clid → o ≡ some d)
      → (if j == clid then some (joined d tid) else o)
        ≡ Option.map (λ c. if j == clid then joined c tid else c) o
  join-map j clid d tid o here = elim (Bool-cases (j == clid)) [
    | inl hit ↦ rw (hit, here (eq_of_== j clid hit))
    | inr miss ↦ rw miss (map_same o)
  ]

  module _ (but : ℕ → Bool) (s t : Kernel Table) (tid : ℕ) (w : Kwt) (b : IsBalanced s)
      (here : worker s tid ≡ some w) where
    -- A worker is written in no field that the counters know of.
    touched-Kept :
        (x : Kwt)
        → IsValid t
        → ((j : ℕ) → worker t j ≡ (if j == tid then some x else worker s j))
        → ((j : ℕ) → completion_list t j ≡ completion_list s j)
        → x.mutex ≡ w.mutex
        → x.clid_list ≡ w.clid_list
        → w.state ≢ wt_exiting
        → x.state < wt_exiting
        → Kept but s t
    touched-Kept x v workers lists lock names active bound =
        Kept-worker but s t tid x workers
          (λ clid h.
            let e : places s clid tid ≡ enrolled clid (some w) = ap (enrolled clid) here in
            ground (arith, e, names, active, bound))
          (IsBalanced-worker s t tid x workers (λ j c. c) b v
            (λ j. lists j ∙ map_same (completion_list s j)) (omega arith)
            (rw names ((b.sound tid w here).1))
            λ j c there old.
              rw
                (
                  update_same (is_free s) tid (not x.mutex) (ap unlocked here ∙ ap not (sym lock)),
                  update_same (places s j) tid (enrolled j (some x))
                      (ap (enrolled j) here ∙ ground (arith, names, active, bound)),
                )
                old)

    -- EXECUTEUMSTHREAD, up to the wait
    pub Switched-Kept :
        {pid now : ℕ} (k : Kst) {es : List Event}
        → Switched s t tid pid (started w pid now) (busy k tid) es
        → w.state ≢ wt_exiting
        → Kept but s t
    Switched-Kept {pid} {now} k a active =
        touched-Kept (started w pid now) a.valid a.workers
          (λ j. ap (λ (r : Kernel Table). completion_list r j) a.frame) refl refl active
          (omega arith)

    -- UMSTHREADTYIELD
    pub Woken-Kept :
        {e : Event} → Woken s t tid (parted (paused w)) e → w.state ≢ wt_exiting → Kept but s t
    Woken-Kept a active =
        touched-Kept (parted (paused w)) a.valid a.workers
          (λ j. ap (λ (r : Kernel Table). completion_list r j) a.frame) refl refl active
          (omega arith)

    -- The end of EXECUTEUMSTHREAD
    pub Finished-Kept :
        {pid now : ℕ} (k : Kst)
        → Finished s t tid pid w k now
        → w.mutex ≡ true
        → w.state ≢ wt_running
        → Kept but s t
    Finished-Kept {pid} {now} k a held stopped =
        let (bound, known) = b.sound tid w here in
        Kept-worker but s t tid (freed (timed w now)) a.workers
          (λ clid h.
            let e : places s clid tid ≡ enrolled clid (some w) = ap (enrolled clid) here in
            omega (arith, e))
          (IsBalanced-worker s t tid (freed (timed w now)) a.workers
            (λ j. iterate (if w.state == wt_idle then count j w.clid_list else 0) more_ready) b
            a.valid a.lists bound known
            λ j c there old.
              let e : (if w.state == wt_idle then count j w.clid_list else 0) ≡ places s j tid =
                ground (arith, bound, stopped) ∙ sym (ap (enrolled j) here) in
              rw (e, update_same (places s j) tid (enrolled j (some w)) (ap (enrolled j) here))
                (Counts-freed old tid (ap unlocked here ∙ ap not held)))

    -- WORKERTHREADEXIT
    pub Exited-Kept :
        Exited s t tid w → w.tid ≡ tid → w.mutex ≡ true → w.state ≢ wt_exiting → Kept but s t
    Exited-Kept a same held active =
        Kept-worker but s t tid (parted (ended w)) a.workers (λ clid h. omega arith)
          (IsBalanced-worker s t tid (parted (ended w)) a.workers
            (λ j. iterate (count j w.clid_list) (without w.tid)) b a.valid a.lists (omega arith)
            ((b.sound tid w here).1)
            λ j c there old.
              let e : count j w.clid_list ≡ places s j tid =
                ground (arith, active) ∙ sym (ap (enrolled j) here) in
              let free : is_free s tid ≡ false = ap unlocked here ∙ ap not held in
              rw (e, same, update_same (is_free s) tid (not w.mutex) (free ∙ ap not (sym held)))
                (Counts-without tid old free))

    -- COMPLLISTADD
    pub Linked-Kept :
        {clid : ℕ} {d : Kcl Table}
        → ((j : ℕ) → but j ≡ false → (j == clid) ≡ false)
        → Linked s t tid clid w d
        → completion_list s clid ≡ some d
        → w.mutex ≡ false
        → w.state ≢ wt_exiting
        → Kept but s t
    Linked-Kept {clid} {d} other a listed_at unheld active =
        let (bound, known) = b.sound tid w here in
        let free : is_free s tid ≡ true = ap unlocked here ∙ ap not unheld in
        let keep = update_same (is_free s) tid (not w.mutex) (free ∙ ap not (sym unheld)) in
        Kept-worker but s t tid (listed w clid) a.workers
          (λ j h.
            let e : places s j tid ≡ enrolled j (some w) = ap (enrolled j) here in
            ground (arith, e, other j h))
          (IsBalanced-worker s t tid (listed w clid) a.workers
            (λ j c. if j == clid then joined c tid else c) b a.valid
            (λ j. a.lists j ∙ join-map j clid d tid (completion_list s j) λ e. rw e listed_at) bound
            ((d, listed_at), known)
            λ j c there old. elim (Bool-cases (j == clid)) [
              | inl hit ↦
                  let e : enrolled j (some (listed w clid)) ≡ 1 + places s j tid =
                    ground (arith, active, hit) ∙ ap (λ n. 1 + n) (sym (ap (enrolled j) here)) in
                  rw (keep, update_more (places s j) tid (enrolled j (some (listed w clid))) e, hit)
                    (Counts-joined old tid free)
              | inr miss ↦
                  let e : enrolled j (some (listed w clid)) ≡ places s j tid =
                    ground (arith, active, miss) ∙ sym (ap (enrolled j) here) in
                  rw
                    (
                      keep,
                      update_same (places s j) tid (enrolled j (some (listed w clid))) (sym e),
                      miss,
                    )
                    old
            ])
