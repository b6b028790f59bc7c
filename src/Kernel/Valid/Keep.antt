-- ===== src/Kernel/Valid/Keep.antt =====
-- Code that keeps a state valid, whatever pointers it follows, and how such code is put together.
use aosv_project.Base.{
  ℕ, ◌≡◌, some, none, arith, Bool, true, false, if◌then◌else◌, update, Option-cases, inl, inr,
  subst,
}
use aosv_project.Hashtable.{Hashtable}
use aosv_project.Kernel.Entries.{ProcUms}
use aosv_project.Kernel.Objects.{Ptr}
use aosv_project.Kernel.Objects.Index.{IsIndex-modify, lookup-modify}
use aosv_project.Kernel.Outcome.{Outcome, ok, fault, blocked, and_then, pure, ◌>>=◌}
use aosv_project.Kernel.State.{
  Heap, Kwt, Kst, Kcl, Kernel, M, workers, schedulers, lists, load, store, modify,
}
use aosv_project.Kernel.Worker.{kwt_tid}
use aosv_project.Kernel.Scheduler.{kst_tid}
use aosv_project.Kernel.CompletionList.{kcl_id}
use aosv_project.Kernel.Valid.{Ends, IsValid}

-- If the code comes to an end, the state behind it satisfies `P`.
abbrev pub After : {S A : Type 0} → (S → Type 0) → Outcome S A → Type 0
After P (ok a t) = P t
After P fault = Unit
After P blocked = Unit

pub After-ok :
    {S A : Type 0} (P : S → Type 0) {r : Outcome S A} {a : A} {t : S} → After P r → r ≡ ok a t → P t
After-ok P h e = subst (After P) e h

pub Ends-After :
    {S A : Type 0} {Q : A → S → Type 0} {P : S → Type 0} (r : Outcome S A)
    → Ends Q r
    → ((a : A) (t : S) → Q a t → P t)
    → After P r
Ends-After (ok a t) q weaken = weaken a t q
Ends-After fault q weaken = absurd q
Ends-After blocked q weaken = absurd q

pub After-and_then :
    {S A B : Type 0} (P Q : S → Type 0) (r : Outcome S A) (k : A → S → Outcome S B)
    → After P r
    → ((a : A) (t : S) → P t → After Q (k a t))
    → After Q (and_then r k)
After-and_then P Q (ok a t) k p next = next a t p
After-and_then P Q fault k p next = tt
After-and_then P Q blocked k p next = tt

module _ ⦃ht : Hashtable⦄ where
  open ht use {Table}

  pub record Keeps {A : Type 0} (m : M Table A) : Type 0 where
    pub at : (s : Kernel Table) → IsValid s → After IsValid (m s)

  pub Keeps-pure : {A : Type 0} (a : A) → Keeps (pure a)
  Keeps-pure a = record { at = λ s v. v }

  pub Keeps-fault : {A : Type 0} → Keeps {A = A} (λ _. fault)
  Keeps-fault = record { at = λ s v. tt }

  pub Keeps-blocked : {A : Type 0} → Keeps {A = A} (λ _. blocked)
  Keeps-blocked = record { at = λ s v. tt }

  pub Keeps-bind :
      {A B : Type 0} (m : M Table A) (k : A → M Table B)
      → Keeps m
      → ((a : A) → Keeps (k a))
      → Keeps (m >>= k)
  Keeps-bind m k keep next = record {
    at = λ s v. After-and_then IsValid IsValid (m s) k (keep.at s v) λ a t. (next a).at t;
  }

  pub Keeps-if :
      {A : Type 0} (b : Bool) (m n : M Table A) → Keeps m → Keeps n → Keeps (if b then m else n)
  Keeps-if true m n a b = a
  Keeps-if false m n a b = b

  -- The code may look at the state before it goes on.
  pub Keeps-reads :
      {A B : Type 0} (read : Kernel Table → B) (k : B → M Table A)
      → ((b : B) → Keeps (k b))
      → Keeps (λ s. k (read s) s)
  Keeps-reads read k keep = record { at = λ s. (keep (read s)).at s }

  pub Keeps-load : {A : Type 0} (c : Heap Table A) (p : Ptr) → Keeps (load c p)
  unfolding load
  Keeps-load c none = record { at = λ s v. tt }
  Keeps-load c (some p) = record {
    at = λ s v. elim (Option-cases (c.get s p)) [
      | inl e ↦ rw (e, load) tt
      | inr (a, e) ↦ rw (e, load) v
    ];
  }

  -- The invariant says nothing of the tree in /proc.
  pub IsValid-proc :
      {s : Kernel Table} → IsValid s → (x : ProcUms Table) → IsValid (record s { proc = x })
  IsValid-proc v x = record {
    workers = v.workers;
    schedulers = v.schedulers;
    lists = v.lists;
    recent = v.recent;
  }

  -- An object is written at any pointer, and keeps its key.
  module _ (s : Kernel Table) (v : IsValid s) (p : ℕ) where
    pub IsValid-kwts :
        (w x : Kwt)
        → s.kwts p ≡ some w
        → x.tid ≡ w.tid
        → IsValid (record s { kwts = update s.kwts p (some x) })
    IsValid-kwts w x there same = record {
      workers = IsIndex-modify kwt_tid s.wt_htable s.kwts v.workers p w x there same;
      schedulers = v.schedulers;
      lists = v.lists;
      recent = v.recent;
    }

    pub IsValid-ksts :
        (k x : Kst)
        → s.ksts p ≡ some k
        → x.tid ≡ k.tid
        → IsValid (record s { ksts = update s.ksts p (some x) })
    IsValid-ksts k x there same = record {
      workers = v.workers;
      schedulers = IsIndex-modify kst_tid s.st_htable s.ksts v.schedulers p k x there same;
      lists = v.lists;
      recent = v.recent;
    }

    pub IsValid-kcls :
        (c x : Kcl Table)
        → s.kcls p ≡ some c
        → x.clc ≡ c.clc
        → IsValid (record s { kcls = update s.kcls p (some x) })
    IsValid-kcls c x there same = record {
      workers = v.workers;
      schedulers = v.schedulers;
      lists = IsIndex-modify kcl_id s.compl_list_htable s.kcls v.lists p c x there same;
      recent = λ j d e. ground (
        arith,
        lookup-modify kcl_id s.compl_list_htable s.kcls v.lists p j c x there same,
        v.recent j c,
        v.recent j d,
      );
    }

  pub Keeps-worker :
      (kwt : Ptr) (f : Kwt → Kwt) → ((w : Kwt) → (f w).tid ≡ w.tid) → Keeps (modify workers kwt f)
  unfolding modify load store
  Keeps-worker none f same = Keeps-fault
  Keeps-worker (some p) f same = record {
    at = λ s v. elim (Option-cases (s.kwts p)) [
      | inl gone ↦ rw gone tt
      | inr (w, there) ↦ rw there (IsValid-kwts s v p w (f w) there (same w))
    ];
  }

  pub Keeps-scheduler :
      (kst : Ptr) (f : Kst → Kst)
      → ((k : Kst) → (f k).tid ≡ k.tid)
      → Keeps (modify schedulers kst f)
  unfolding modify load store
  Keeps-scheduler none f same = Keeps-fault
  Keeps-scheduler (some p) f same = record {
    at = λ s v. elim (Option-cases (s.ksts p)) [
      | inl gone ↦ rw gone tt
      | inr (k, there) ↦ rw there (IsValid-ksts s v p k (f k) there (same k))
    ];
  }

  pub Keeps-list :
      (kcl : Ptr) (f : Kcl Table → Kcl Table)
      → ((c : Kcl Table) → (f c).clc ≡ c.clc)
      → Keeps (modify lists kcl f)
  unfolding modify load store
  Keeps-list none f same = Keeps-fault
  Keeps-list (some p) f same = record {
    at = λ s v. elim (Option-cases (s.kcls p)) [
      | inl gone ↦ rw gone tt
      | inr (c, there) ↦ rw there (IsValid-kcls s v p c (f c) there (same c))
    ];
  }

pub ruleset keep_rules = (
  Keeps-pure, Keeps-fault, Keeps-blocked, Keeps-bind, Keeps-if, Keeps-load, Keeps-worker,
  Keeps-scheduler, Keeps-list,
)
