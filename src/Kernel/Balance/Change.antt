-- ===== src/Kernel/Balance/Change.antt =====
-- When a piece of src/lkm keeps the counters of the lists: what it has to do to the workers and to
-- each list.
use mathlib.Core.Option
use std.Path.{fun_ext}
use aosv_project.Base.{
  ℕ, ◌+◌, ◌≤◌, ◌≡◌, refl, sym, ap, subst, ◌∙◌, inl, inr, Bool, false, not, Option, none, some, List,
  [], ◌∷◌, arith, ◌==◌, if◌then◌else◌, update, Bool-cases, eq_of_==,
}
use aosv_project.Hashtable.{Hashtable}
use aosv_project.Interface.{wt_exiting}
use aosv_project.Kernel.State.{Kwt, Kcl, Kernel}
use aosv_project.Kernel.CompletionList.Loops.{Known}
use aosv_project.Kernel.CompletionList.Take.{is_free, unlocked}
use aosv_project.Kernel.Valid.{IsValid, worker, completion_list}
use aosv_project.Kernel.Balance.{Counts, IsBalanced, places, enrolled}

map-some :
    {A B : Type 0} (f : A → B) (o : Option A) {b : B}
    → Option.map f o ≡ some b
    → (a : A) × (o ≡ some a) × (some (f a) ≡ some b)
map-some f none h = cc
map-some f (some a) h = (a, refl, h)

abbrev Holds : {A : Type 0} → (A → Type 0) → Option A → Type 0
Holds P none = Unit
Holds P (some a) = P a

pub of_some : {A : Type 0} (P : A → Type 0) {a b : A} → some a ≡ some b → P a → P b
of_some P e = subst (Holds P) e

-- A function with one value replaced by itself.
pub update_same : {A : Type 0} (f : ℕ → A) (v : ℕ) (y : A) → f v ≡ y → update f v y ≡ f
update_same f v y h = fun_ext λ j. elim (Bool-cases (j == v)) [
  | inl hit ↦ rw hit (sym h ∙ ap f (sym (eq_of_== j v hit)))
  | inr miss ↦ rw miss
]

pub update_more :
    (f : ℕ → ℕ) (v y : ℕ) → y ≡ 1 + f v → update f v y ≡ (λ j. (if j == v then 1 else 0) + f j)
update_more f v y h = fun_ext λ j. elim (Bool-cases (j == v)) [
  | inl hit ↦ rw hit (h ∙ ap (λ k. 1 + f k) (sym (eq_of_== j v hit)))
  | inr miss ↦ rw miss (omega arith)
]

update-if :
    {A B : Type 0} (g : A → B) (j v : ℕ) (x y : A)
    → g (if j == v then x else y) ≡ (if j == v then g x else g y)
update-if g j v x y = elim (Bool-cases (j == v)) [ inl hit ↦ rw hit | inr miss ↦ rw miss ]

module _ ⦃ht : Hashtable⦄ where
  open ht use {Table}

  pub Known-map :
      (s t : Kernel Table) (g : ℕ → Kcl Table → Kcl Table) (clids : List ℕ)
      → ((j : ℕ) → completion_list t j ≡ Option.map (g j) (completion_list s j))
      → Known s clids
      → Known t clids
  Known-map s t g [] lists known = tt
  Known-map s t g (clid ∷ clids) lists ((c, here), known) =
      ((g clid c, lists clid ∙ ap (Option.map (g clid)) here), Known-map s t g clids lists known)

  -- No list is made or destroyed.
  pub IsBalanced-map :
      (s t : Kernel Table) (g : ℕ → Kcl Table → Kcl Table)
      → IsBalanced s
      → IsValid t
      → ((j : ℕ) → completion_list t j ≡ Option.map (g j) (completion_list s j))
      → ((tid : ℕ) (w : Kwt) → worker t tid ≡ some w → (w.state ≤ wt_exiting) × Known s w.clid_list)
      → ((j : ℕ) (c : Kcl Table)
          → completion_list s j ≡ some c
          → Counts (is_free s) (places s j) c
          → Counts (is_free t) (places t j) (g j c))
      → IsBalanced t
  IsBalanced-map s t g b v lists sound counts = record {
    valid = v;
    sound = λ tid w here.
        let (bound, known) = sound tid w here in (bound, Known-map s t g w.clid_list lists known);
    counts = λ j d here.
        let (c, there, same) = map-some (g j) (completion_list s j) (sym (lists j) ∙ here) in
        of_some (Counts (is_free t) (places t j)) same (counts j c there (b.counts j c there));
  }

  module _ (s t : Kernel Table) (tid : ℕ) (x : Kwt)
      (workers : (j : ℕ) → worker t j ≡ (if j == tid then some x else worker s j)) where
    is_free-worker : is_free t ≡ update (is_free s) tid (not x.mutex)
    is_free-worker =
        fun_ext λ j. ap unlocked (workers j) ∙ update-if unlocked j tid (some x) (worker s j)

    places-worker : (clid : ℕ) → places t clid ≡ update (places s clid) tid (enrolled clid (some x))
    places-worker clid =
        fun_ext λ j.
          ap (enrolled clid) (workers j) ∙ update-if (enrolled clid) j tid (some x) (worker s j)

    -- One worker is written, and no list is made or destroyed.
    pub IsBalanced-worker :
        (g : ℕ → Kcl Table → Kcl Table)
        → IsBalanced s
        → IsValid t
        → ((j : ℕ) → completion_list t j ≡ Option.map (g j) (completion_list s j))
        → x.state ≤ wt_exiting
        → Known s x.clid_list
        → ((j : ℕ) (c : Kcl Table)
            → completion_list s j ≡ some c
            → Counts (is_free s) (places s j) c
            → Counts
                (update (is_free s) tid (not x.mutex))
                (update (places s j) tid (enrolled j (some x)))
                (g j c))
        → IsBalanced t
    IsBalanced-worker g b v lists bound known counts =
        IsBalanced-map s t g b v lists
          (λ j w here. elim (Bool-cases (j == tid)) [
            | inl hit ↦
                of_some (λ (y : Kwt). (y.state ≤ wt_exiting) × Known s y.clid_list) {a = x} {b = w}
                  (ground (arith, workers j, hit, here)) (bound, known)
            | inr miss ↦ b.sound j w (ground (arith, workers j, miss, here))
          ])
          λ j c here old. rw (is_free-worker, places-worker j) (counts j c here old)

  -- `t` counts right, and beside the lists that `but` tells, no queue owes a place to a worker that
  -- it did not owe in `s`.
  pub record Kept (but : ℕ → Bool) (s t : Kernel Table) : Type 0 where
    pub balanced : IsBalanced t
    pub no_new : (clid : ℕ) → but clid ≡ false → (tid : ℕ) → places t clid tid ≤ places s clid tid

  pub Kept-same :
      (but : ℕ → Bool) (s t : Kernel Table)
      → ((j : ℕ) → worker t j ≡ worker s j)
      → IsBalanced t
      → Kept but s t
  Kept-same but s t workers b = record {
    balanced = b;
    no_new = λ clid h tid.
        let e : places t clid tid ≡ places s clid tid = ap (enrolled clid) (workers tid) in
        omega (arith, e);
  }

  pub Kept-worker :
      (but : ℕ → Bool) (s t : Kernel Table) (tid : ℕ) (x : Kwt)
      → ((j : ℕ) → worker t j ≡ (if j == tid then some x else worker s j))
      → ((clid : ℕ) → but clid ≡ false → enrolled clid (some x) ≤ places s clid tid)
      → IsBalanced t
      → Kept but s t
  Kept-worker but s t tid x workers few b = record {
    balanced = b;
    no_new = λ clid h j.
        let e : places t clid j ≡ update (places s clid) tid (enrolled clid (some x)) j =
          ap (λ f. f j) (places-worker s t tid x workers clid) in
        elim (Bool-cases (j == tid)) [
          | inl hit ↦
              let same = ap (places s clid) (eq_of_== j tid hit) in
              ground (arith, e, hit, few clid h, same)
          | inr miss ↦ ground (arith, e, miss)
        ];
  }
