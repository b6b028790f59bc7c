-- ===== src/Kernel/Valid/Set.antt =====
-- One object of a valid state is written: the finite map changes at its key, and nothing else does.
use aosv_project.Base.{ℕ, ◌≡◌, refl, ◌∙◌, ap, some, arith, ◌==◌, if◌then◌else◌}
use aosv_project.Hashtable.{Hashtable}
use aosv_project.Kernel.Outcome.{Outcome, ok, fault, blocked, and_then}
use aosv_project.Kernel.State.{Kwt, Kst, Kcl, Kernel, workers, schedulers, lists, store, modify}
use aosv_project.Kernel.Worker.{kwt_tid}
use aosv_project.Kernel.Scheduler.{kst_tid}
use aosv_project.Kernel.CompletionList.{kcl_id}
use aosv_project.Kernel.Valid.{
  Ends, IsValid, WorkerAt, SchedulerAt, ListAt, worker, scheduler, completion_list,
}
use aosv_project.Kernel.Valid.Step.{
  IsValid-worker, IsValid-scheduler, IsValid-list, IsAt-modify, object-modify_at,
}

-- Two pieces of code in sequence.
pub Ends-and_then :
    {S A B : Type 0} {P : A → S → Type 0} (Q : B → S → Type 0) (r : Outcome S A)
    (k : A → S → Outcome S B)
    → Ends P r
    → ((a : A) (t : S) → P a t → Ends Q (k a t))
    → Ends Q (and_then r k)
Ends-and_then Q (ok a t) k p next = next a t p
Ends-and_then Q fault k p next = absurd p
Ends-and_then Q blocked k p next = absurd p

-- A sequence whose second part ends in one way, whatever the first part leaves.
pub and_then-eq :
    {S A B : Type 0} {P : A → S → Type 0} (r : Outcome S A) (k : A → S → Outcome S B)
    (c : Outcome S B)
    → Ends P r
    → ((a : A) (t : S) → P a t → k a t ≡ c)
    → and_then r k ≡ c
and_then-eq (ok a t) k c p next = next a t p
and_then-eq fault k c p next = absurd p
and_then-eq blocked k c p next = absurd p

-- What ends well, and how.
pub Ends-result :
    {S A : Type 0} {P : A → S → Type 0} (r : Outcome S A)
    → Ends P r
    → (a : A) × (t : S) × (r ≡ ok a t) × P a t
Ends-result (ok a t) p = (a, t, refl, p)
Ends-result fault p = absurd p
Ends-result blocked p = absurd p

pub Ends-mono :
    {S A : Type 0} {P Q : A → S → Type 0} (r : Outcome S A)
    → Ends P r
    → ((a : A) (t : S) → P a t → Q a t)
    → Ends Q r
Ends-mono (ok a t) p weaken = weaken a t p
Ends-mono fault p weaken = p
Ends-mono blocked p weaken = p

module _ ⦃ht : Hashtable⦄ where
  open ht use {Table}

  -- `t` is `s` with `x` for the worker `tid`, which stands at `p`.
  pub record WorkerSet (s t : Kernel Table) (tid p : ℕ) (x : Kwt) : Type 0 where
    pub valid : IsValid t
    pub at : WorkerAt t tid p x
    pub workers : (j : ℕ) → worker t j ≡ (if j == tid then some x else worker s j)
    pub frame : t ≡ record s { kwts = t.kwts }

  pub record SchedulerSet (s t : Kernel Table) (tid p : ℕ) (x : Kst) : Type 0 where
    pub valid : IsValid t
    pub at : SchedulerAt t tid p x
    pub schedulers : (j : ℕ) → scheduler t j ≡ (if j == tid then some x else scheduler s j)
    pub frame : t ≡ record s { ksts = t.ksts }

  pub record ListSet (s t : Kernel Table) (clid p : ℕ) (x : Kcl Table) : Type 0 where
    pub valid : IsValid t
    pub at : ListAt t clid p x
    pub lists : (j : ℕ) → completion_list t j ≡ (if j == clid then some x else completion_list s j)
    pub frame : t ≡ record s { kcls = t.kcls }

  pub WorkerSet-trans :
      {s t u : Kernel Table} {tid p : ℕ} {x y : Kwt}
      → WorkerSet s t tid p x
      → WorkerSet t u tid p y
      → WorkerSet s u tid p y
  WorkerSet-trans {s} {t} {u} {tid} a b = record {
    valid = b.valid;
    at = b.at;
    workers = λ j. ground (arith, a.workers j, b.workers j);
    frame = b.frame ∙ ap (λ (r : Kernel Table). record r { kwts = u.kwts }) a.frame;
  }

  module _ {s : Kernel Table} (v : IsValid s) where
    pub store-WorkerSet :
        {tid p : ℕ} {w : Kwt} (x : Kwt)
        → WorkerAt s tid p w
        → x.tid ≡ w.tid
        → Ends (λ _ t. WorkerSet s t tid p x) (store workers (some p) (some x) s)
    unfolding store
    store-WorkerSet x at same = record {
      valid = IsValid-worker v x at same;
      at = IsAt-modify kwt_tid at v.workers x same;
      workers = object-modify_at kwt_tid at v.workers x same;
      frame = refl;
    }

    pub modify-WorkerSet :
        {tid p : ℕ} {w : Kwt} (f : Kwt → Kwt)
        → WorkerAt s tid p w
        → (f w).tid ≡ w.tid
        → Ends (λ _ t. WorkerSet s t tid p (f w)) (modify workers (some p) f s)
    unfolding modify
    modify-WorkerSet {w} f at same = rw at.there (store-WorkerSet (f w) at same)

    pub modify-SchedulerSet :
        {tid p : ℕ} {k : Kst} (f : Kst → Kst)
        → SchedulerAt s tid p k
        → (f k).tid ≡ k.tid
        → Ends (λ _ t. SchedulerSet s t tid p (f k)) (modify schedulers (some p) f s)
    unfolding modify
    modify-SchedulerSet {k} f at same = rw at.there (record {
      valid = IsValid-scheduler v (f k) at same;
      at = IsAt-modify kst_tid at v.schedulers (f k) same;
      schedulers = object-modify_at kst_tid at v.schedulers (f k) same;
      frame = refl;
    })

    pub modify-ListSet :
        {clid p : ℕ} {c : Kcl Table} (f : Kcl Table → Kcl Table)
        → ListAt s clid p c
        → (f c).clc ≡ c.clc
        → Ends (λ _ t. ListSet s t clid p (f c)) (modify lists (some p) f s)
    unfolding modify
    modify-ListSet {c} f at same = rw at.there (record {
      valid = IsValid-list v (f c) at same;
      at = IsAt-modify kcl_id at v.lists (f c) same;
      lists = object-modify_at kcl_id at v.lists (f c) same;
      frame = refl;
    })
