-- ===== src/Kernel/Balance/Taken.antt =====
-- DEQUEUECOMPLLIST of src/lkm/ums_core.c, and the counters of the lists.
use std.Path.{fun_ext}
use aosv_project.Base.{
  ℕ, Bool, ◌<◌, ◌≡◌, refl, sym, ap, ◌∙◌, Option, none, some, List, [], ◌∷◌, arith, count,
}
use aosv_project.Hashtable.{Hashtable}
use aosv_project.Kernel.State.{Kwt, Kcl, Kernel}
use aosv_project.Kernel.CompletionList.Loops.{Known, iterate}
use aosv_project.Kernel.CompletionList.Take.{is_free, spent, names, unlocked, fewer_ready}
use aosv_project.Kernel.CompletionList.Dequeue.{Ready, reserved, unlocked-reserved}
use aosv_project.Kernel.CompletionList.Reserve.{Dequeued}
use aosv_project.Kernel.Valid.{worker, completion_list}
use aosv_project.Kernel.Balance.{IsBalanced, places, enrolled}
use aosv_project.Kernel.Balance.Change.{IsBalanced-map, Kept}
use aosv_project.Kernel.Balance.Lists.{Counts-taken}
use aosv_project.Kernel.Balance.Tally.{crossing, excluding}

enrolled-reserved : (clid n : ℕ) (o : Option Kwt) → enrolled clid (reserved n o) ≡ enrolled clid o
enrolled-reserved clid n none = ground arith
enrolled-reserved clid n (some w) = ground arith

-- A worker with a place in some queue names each list as often as it has a place there.
names-enrolled : (clid j : ℕ) (o : Option Kwt) → 0 < enrolled clid o → names j o ≡ enrolled j o
names-enrolled clid j none h = refl
names-enrolled clid j (some w) h = ground arith

enrolled-some : (clid : ℕ) (o : Option Kwt) → 0 < enrolled clid o → (w : Kwt) × (o ≡ some w)
enrolled-some clid none h = absurd (omega arith)
enrolled-some clid (some w) h = (w, refl)

held-some :
    (n : ℕ) (o : Option Kwt) (w : Kwt)
    → reserved n o ≡ some w
    → (x : Kwt) × (o ≡ some x) × (w.state ≡ x.state) × (w.clid_list ≡ x.clid_list)
held-some n none w h = absurd (ground arith)
held-some n (some x) w h = (x, refl, ground arith, ground arith)

module _ ⦃ht : Hashtable⦄ where
  open ht use {Table, nodes}

  Ready-all :
      (s : Kernel Table) (tids : List ℕ)
      → ((tid : ℕ) → 0 < count tid tids → (w : Kwt) × (worker s tid ≡ some w) × Known s w.clid_list)
      → Ready s tids
  Ready-all s [] each = tt
  Ready-all s (tid ∷ tids) each =
      (each tid (ground arith), Ready-all s tids λ j h. each j (ground arith))

  spent-crossing :
      (s : Kernel Table) (j : ℕ) (tids queue : List ℕ)
      → ((tid : ℕ) → 0 < count tid tids → names j (worker s tid) ≡ count tid queue)
      → spent s j tids ≡ crossing tids queue
  spent-crossing s j [] queue each = refl
  spent-crossing s j (tid ∷ tids) queue each =
      let e : names j (worker s tid) ≡ count tid queue = each tid (ground arith) in
      rw (e, spent-crossing s j tids queue λ k h. each k (ground arith)) refl

  module _ (s : Kernel Table) (b : IsBalanced s) (clid : ℕ) (c : Kcl Table)
      (here : completion_list s clid ≡ some c) where
    placed : (tid : ℕ) → 0 < count tid (nodes c.wt_ready_queue) → 0 < places s clid tid
    placed tid h = omega (arith, h, (b.counts clid c here).members tid)

    -- Every tid of a queue is that of a worker whose lists exist.
    pub IsBalanced-Ready : Ready s (nodes c.wt_ready_queue)
    IsBalanced-Ready = Ready-all s (nodes c.wt_ready_queue) λ tid h.
        let (w, at) = enrolled-some clid (worker s tid) (placed tid h) in
        (w, at, (b.sound tid w at).1)

    Dequeued-IsBalanced :
        (t : Kernel Table) (r : ℕ × List ℕ) → Dequeued s (nodes c.wt_ready_queue) r t → IsBalanced t
    Dequeued-IsBalanced t r d =
        IsBalanced-map s t (λ j. iterate (spent s j d.taken) fewer_ready) b d.after.valid
          d.after.lists
          (λ tid w at.
            let (x, there, state, list) =
              held-some (count tid d.taken) (worker s tid) w (sym (d.after.workers tid) ∙ at) in
            rw (state, list) (b.sound tid x there))
          λ j e there old.
            let crossed : spent s j d.taken ≡ crossing d.taken (nodes e.wt_ready_queue) =
              spent-crossing s j d.taken (nodes e.wt_ready_queue) λ tid h.
                names-enrolled clid j (worker s tid) (placed tid ((d.choice.free_once tid h).2))
                ∙ sym (old.members tid) in
            let free : is_free t ≡ excluding d.taken (is_free s) = fun_ext λ tid.
              ap unlocked (d.after.workers tid)
              ∙ unlocked-reserved (count tid d.taken) (worker s tid) in
            let same : places t j ≡ places s j = fun_ext λ tid.
              ap (enrolled j) (d.after.workers tid)
              ∙ enrolled-reserved j (count tid d.taken) (worker s tid) in
            rw (crossed, free, same)
              (Counts-taken old d.taken
                λ tid h. let (f, once, _) = d.choice.free_once tid h in (f, once))

    pub Dequeued-Kept :
        (but : ℕ → Bool) (t : Kernel Table) (r : ℕ × List ℕ)
        → Dequeued s (nodes c.wt_ready_queue) r t
        → Kept but s t
    Dequeued-Kept but t r d = record {
      balanced = Dequeued-IsBalanced t r d;
      no_new = λ j h tid.
          let e : places t j tid ≡ places s j tid =
            ap (enrolled j) (d.after.workers tid)
            ∙ enrolled-reserved j (count tid d.taken) (worker s tid) in
          omega (arith, e);
    }
