-- ===== src/Kernel/CompletionList/Loops.antt =====
-- The macros of src/lkm/kcompletion_list.h that go through the lists of a worker.
use mathlib.Core.Option
use native.Mathlib.Nat.{zero-add}
use aosv_project.Base.{
  ℕ, zero, suc, ◌+◌, ◌≡◌, refl, ◌∙◌, ap, Option, none, some, List, [], ◌∷◌, arith, ◌==◌,
  if◌then◌else◌, count, Bool-cases, eq_of_==, inl, inr, inc, dec,
}
use aosv_project.Hashtable.{Hashtable}
use aosv_project.Kernel.Objects.Index.{lookup-object, lookup-none}
use aosv_project.Kernel.Outcome.{ok}
use aosv_project.Kernel.State.{Kcl, Kernel, Event, wake_all, M, lists, modify}
use aosv_project.Kernel.Valid.{Ends, IsValid, ListAt, completion_list}
use aosv_project.Kernel.Valid.Step.{IsValid-events}
use aosv_project.Kernel.Valid.Set.{Ends-and_then, Ends-mono, modify-ListSet}
use aosv_project.Kernel.CompletionList.{
  kcl_id, get_kcompletion_list, for_each_clid, inc_threads_ready, dec_threads_ready, dec_nthreads,
  drop_elems, wake_up_waiting,
}

-- `f` applied `n` times.
abbrev pub iterate : {A : Type 0} → ℕ → (A → A) → A → A
iterate zero f x = x
iterate (suc n) f x = iterate n f (f x)

iterate-add_one : {A : Type 0} (n : ℕ) (f : A → A) (x : A) → iterate (1 + n) f x ≡ iterate n f (f x)
iterate-add_one n f x = let e : 1 + n ≡ suc n = omega arith in rw e

pub iterate-add :
    {A : Type 0} (n m : ℕ) (f : A → A) (x : A) → iterate m f (iterate n f x) ≡ iterate (n + m) f x
iterate-add zero m f x = rw (zero-add m)
iterate-add (suc n) m f x =
    let e : suc n + m ≡ suc (n + m) = omega arith in rw e (iterate-add n m f (f x))

-- The events of a loop that wakes the waiting schedulers of each list.
abbrev pub wakes : List ℕ → List Event → List Event
wakes [] es = es
wakes (clid ∷ clids) es = wakes clids (wake_all clid ∷ es)

module _ ⦃ht : Hashtable⦄ where
  open ht use {Table, possible}

  -- Every list of a worker exists.
  abbrev pub Known : Kernel Table → List ℕ → Type 0
  Known s [] = Unit
  Known s (clid ∷ clids) = ((c : Kcl Table) × (completion_list s clid ≡ some c)) × Known s clids

  -- `t` is `s` with the map `m` of completion lists.
  pub record ListsSet (s t : Kernel Table) (m : ℕ → Option (Kcl Table)) : Type 0 where
    pub valid : IsValid t
    pub lists : (j : ℕ) → completion_list t j ≡ m j
    pub frame : t ≡ record s { kcls = t.kcls }

  Known-events :
      (s : Kernel Table) (es : List Event) (clids : List ℕ)
      → Known s clids
      → Known (record s { events = es }) clids
  Known-events s es [] known = tt
  Known-events s es (clid ∷ clids) (k, known) = (k, Known-events s es clids known)

  pub get-ListAt :
      (s : Kernel Table) {clid p : ℕ} {c : Kcl Table}
      → ListAt s clid p c
      → get_kcompletion_list clid s ≡ ok (some p) s
  unfolding get_kcompletion_list
  get-ListAt s at = rw (at.found, get_kcompletion_list)

  pub get-list_none :
      (s : Kernel Table) (clid : ℕ)
      → IsValid s
      → completion_list s clid ≡ none
      → get_kcompletion_list clid s ≡ ok none s
  unfolding get_kcompletion_list
  get-list_none s clid v gone =
      rw (lookup-none kcl_id s.compl_list_htable s.kcls v.lists clid gone, get_kcompletion_list)

  -- What a loop's body does to the list that it is given.
  abbrev pub Applies : (ℕ → M Table (Unit {0})) → (Kcl Table → Kcl Table) → Type 0
  Applies body f =
      (s : Kernel Table) (clid : ℕ) (c : Kcl Table)
      → IsValid s
      → completion_list s clid ≡ some c
      → Ends (λ _ t. ListsSet s t (λ j. if j == clid then some (f c) else completion_list s j))
          (body clid s)

  module _ (f : Kcl Table → Kcl Table) (same : (c : Kcl Table) → (f c).clc ≡ c.clc) where
    modify-Applies :
        (s : Kernel Table) (clid p : ℕ) (c : Kcl Table)
        → IsValid s
        → ListAt s clid p c
        → Ends
            (λ _ t. ListsSet s t (λ j. if j == clid then some (f c) else completion_list s j))
            (modify lists (some p) f s)
    modify-Applies s clid p c v at =
        Ends-mono (modify lists (some p) f s) (modify-ListSet v f at (same c))
          λ _ t a. record { valid = a.valid; lists = a.lists; frame = a.frame }

    Known-kept :
        (s t : Kernel Table) (clid : ℕ) (c : Kcl Table) (clids : List ℕ)
        → ListsSet s t (λ j. if j == clid then some (f c) else completion_list s j)
        → Known s clids
        → Known t clids
    Known-kept s t clid c [] a known = tt
    Known-kept s t clid c (j ∷ js) a ((d, here), known) = (
      ((if j == clid then f c else d), ground (arith, a.lists j)),
      Known-kept s t clid c js a known,
    )

    -- Lists that are written stay.
    pub Known-kept_all :
        (s t : Kernel Table) (n : ℕ → ℕ) (clids : List ℕ)
        → ((j : ℕ) → completion_list t j ≡ Option.map (iterate (n j) f) (completion_list s j))
        → Known s clids
        → Known t clids
    Known-kept_all s t n [] a known = tt
    Known-kept_all s t n (j ∷ js) a ((c, here), known) = (
      (iterate (n j) f c, a j ∙ ap (Option.map (iterate (n j) f)) here),
      Known-kept_all s t n js a known,
    )

    iterate_step :
        (n j clid : ℕ) (c : Kcl Table) (old new : Option (Kcl Table))
        → (j ≡ clid → old ≡ some c)
        → new ≡ (if j == clid then some (f c) else old)
        → Option.map (iterate n f) new
          ≡ Option.map (iterate ((if j == clid then 1 else 0) + n) f) old
    iterate_step n j clid c old new here e = elim (Bool-cases (j == clid)) [
      | inl hit ↦ rw (hit, e, here (eq_of_== j clid hit), hit, iterate-add_one n f c)
      | inr miss ↦ rw (miss, e, miss, zero-add n)
    ]

    -- The loop applies `f` to each list as often as the worker names it.
    pub for_each_clid-iterates :
        (body : ℕ → M Table (Unit {0}))
        → Applies body f
        → (clids : List ℕ) (s : Kernel Table) → IsValid s
        → Known s clids
        → Ends
            (λ _ t.
              ListsSet s t (λ j. Option.map (iterate (count j clids) f) (completion_list s j)))
            (for_each_clid body clids s)
    unfolding for_each_clid
    for_each_clid-iterates body applies [] s v known = record {
      valid = v;
      lists = λ j. ground arith;
      frame = refl;
    }
    for_each_clid-iterates body applies (clid ∷ clids) s v ((c, here), known) =
        Ends-and_then _ (body clid s) _ (applies s clid c v here) λ _ t a.
          Ends-mono (for_each_clid body clids t)
            (for_each_clid-iterates body applies clids t a.valid
              (Known-kept s t clid c clids a known))
            λ _ u b. record {
              valid = b.valid;
              lists = λ j.
                  b.lists j
                  ∙ iterate_step (count j clids) j clid c (completion_list s j)
                      (completion_list t j) (λ e. rw e here) (a.lists j);
              frame = b.frame ∙ ap (λ (r : Kernel Table). record r { kcls = u.kcls }) a.frame;
            }

  pub inc_threads_ready-Applies :
      Applies inc_threads_ready (λ c. record c { threads_ready = inc c.threads_ready })
  unfolding inc_threads_ready
  inc_threads_ready-Applies s clid c v here =
      let (p, at) = lookup-object kcl_id s.compl_list_htable s.kcls v.lists clid c here in
      rw (get-ListAt s at) (modify-Applies _ (λ d. refl) s clid p c v at)

  pub dec_threads_ready-Applies :
      Applies dec_threads_ready (λ c. record c { threads_ready = dec c.threads_ready })
  unfolding dec_threads_ready
  dec_threads_ready-Applies s clid c v here =
      let (p, at) = lookup-object kcl_id s.compl_list_htable s.kcls v.lists clid c here in
      rw (get-ListAt s at) (modify-Applies _ (λ d. refl) s clid p c v at)

  pub dec_nthreads-Applies :
      (tid : ℕ)
      → Applies (dec_nthreads tid) (λ c. record c {
        wt_ready_queue = drop_elems tid (possible c.wt_ready_queue tid) c.wt_ready_queue;
        nthreads = dec c.nthreads;
      })
  unfolding dec_nthreads
  dec_nthreads-Applies tid s clid c v here =
      let (p, at) = lookup-object kcl_id s.compl_list_htable s.kcls v.lists clid c here in
      rw (get-ListAt s at) (modify-Applies _ (λ d. refl) s clid p c v at)

  wake_up_waiting-wakes_one :
      (clid : ℕ) (c : Kcl Table) (s : Kernel Table)
      → IsValid s
      → completion_list s clid ≡ some c
      → wake_up_waiting clid s ≡ ok tt (record s { events = wake_all clid ∷ s.events })
  unfolding wake_up_waiting
  wake_up_waiting-wakes_one clid c s v here =
      let (p, at) = lookup-object kcl_id s.compl_list_htable s.kcls v.lists clid c here in
      rw (get-ListAt s at, at.there, ← at.same)

  -- The loop that wakes the schedulers changes nothing but the events.
  pub wake_up_waiting-wakes :
      (clids : List ℕ) (s : Kernel Table)
      → IsValid s
      → Known s clids
      → for_each_clid wake_up_waiting clids s ≡ ok tt (record s { events = wakes clids s.events })
  unfolding for_each_clid
  wake_up_waiting-wakes [] s v known = refl
  wake_up_waiting-wakes (clid ∷ clids) s v ((c, here), known) =
      rw (wake_up_waiting-wakes_one clid c s v here) (
        wake_up_waiting-wakes clids (record s { events = wake_all clid ∷ s.events })
          (IsValid-events v _) (Known-events s (wake_all clid ∷ s.events) clids known))
