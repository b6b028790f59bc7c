-- ===== src/Example/Plan/Calls.antt =====
-- `main` of src/example/main.c: which calls it makes, and how often.
use native.Mathlib.Nat.{div-eq_of_lt}
use aosv_project.Base.{
  ℕ, zero, suc, ◌+◌, ◌*◌, ◌≤◌, ◌<◌, ◌≡◌, ◌⊎◌, refl, ap, ◌∙◌, inl, inr, Bool, true, false, ◌&&◌,
  List, [], ◌∷◌, ◌++◌, arith, if◌then◌else◌, ltb, ◌==◌, minus_one, Bool-cases, eq_of_==, ==-refl,
}
use aosv_project.Example.Plan.{
  MainCall, ums_init, list_init, create_worker, list_add, start_scheduler, join, list_destroy,
  worker_destroy, ums_destroy, for_each, list_of, main,
}

abbrev kind : MainCall → ℕ
kind ums_init = 0
kind (list_init i) = 1
kind (create_worker i) = 2
kind (list_add i j) = 3
kind (start_scheduler cpu j) = 4
kind (join cpu) = 5
kind (list_destroy i) = 6
kind (worker_destroy i) = 7
kind ums_destroy = 8

abbrev first : MainCall → ℕ
first (list_init i) = i
first (create_worker i) = i
first (list_add i j) = i
first (start_scheduler cpu j) = cpu
first (join cpu) = cpu
first (list_destroy i) = i
first (worker_destroy i) = i
first _ = 0

abbrev second : MainCall → ℕ
second (list_add i j) = j
second (start_scheduler cpu j) = j
second _ = 0

-- Two calls are the same.
abbrev pub is_call : MainCall → MainCall → Bool
is_call c d = kind c == kind d && (first c == first d && second c == second d)

-- How often a call is made.
abbrev pub times : MainCall → List MainCall → ℕ
times c [] = 0
times c (d ∷ ds) = (if is_call c d then 1 else 0) + times c ds

times-append : (c : MainCall) (xs ys : List MainCall) → times c (xs ++ ys) ≡ times c xs + times c ys
times-append c [] ys = omega arith
times-append c (x ∷ xs) ys = omega (arith, times-append c xs ys)

-- A loop whose round `a` makes a call `m` times, and no other does.
times-for_each :
    (c : MainCall) (body : ℕ → List MainCall) (a m : ℕ)
    → ((k : ℕ) → times c (body k) ≡ (if k == a then m else 0))
    → (n i : ℕ)
    → times c (for_each n i body) ≡ (if ltb a i then 0 else (if ltb a (i + n) then m else 0))
unfolding for_each
times-for_each c body a m h zero i = ground arith
times-for_each c body a m h (suc n) i =
    times-append c (body i) (for_each n (i + 1) body)
    ∙ ground (arith, h i, times-for_each c body a m h n (i + 1))

abbrev flag : Bool → ℕ
flag b = if b then 1 else 0

-- What `main` is there to call, once each.
abbrev pub planned : (n_lists n_workers ncpu : ℕ) → (ℕ → Bool) → MainCall → Bool
planned n_lists n_workers ncpu cpu_set ums_init = true
planned n_lists n_workers ncpu cpu_set (list_init i) = ltb i n_lists
planned n_lists n_workers ncpu cpu_set (create_worker i) = ltb i n_workers
planned n_lists n_workers ncpu cpu_set (list_add i j) = ltb i n_workers && ltb j n_lists
planned n_lists n_workers ncpu cpu_set (start_scheduler cpu j) =
    ltb cpu ncpu && (cpu_set cpu && j == list_of n_lists ncpu cpu)
planned n_lists n_workers ncpu cpu_set (join cpu) = ltb cpu ncpu
planned n_lists n_workers ncpu cpu_set (list_destroy i) = ltb i n_lists
planned n_lists n_workers ncpu cpu_set (worker_destroy i) = ltb i n_workers
planned n_lists n_workers ncpu cpu_set ums_destroy = true

-- The calls of the seven loops, and the two around them.
planned-flags :
    (n_lists n_workers ncpu : ℕ) (cpu_set : ℕ → Bool) (c : MainCall)
    → flag (is_call c ums_init)
        + flag (kind c == 1 && (second c == 0 && ltb (first c) n_lists))
        + flag (
            ltb (first c) n_workers
            && (if kind c == 2 then second c == 0 else kind c == 3 && ltb (second c) n_lists))
        + flag (
            kind c == 4
            && (ltb (first c) ncpu
                && (cpu_set (first c) && second c == list_of n_lists ncpu (first c))))
        + flag (kind c == 5 && (second c == 0 && ltb (first c) ncpu))
        + flag (kind c == 6 && (second c == 0 && ltb (first c) n_lists))
        + flag (kind c == 7 && (second c == 0 && ltb (first c) n_workers))
        + (flag (is_call c ums_destroy) + 0)
      ≡ flag (planned n_lists n_workers ncpu cpu_set c)
planned-flags n_lists n_workers ncpu cpu_set ums_init = ground arith
planned-flags n_lists n_workers ncpu cpu_set (list_init i) = ground arith
planned-flags n_lists n_workers ncpu cpu_set (create_worker i) = ground arith
planned-flags n_lists n_workers ncpu cpu_set (list_add i j) = ground arith
planned-flags n_lists n_workers ncpu cpu_set (start_scheduler cpu j) = ground arith
planned-flags n_lists n_workers ncpu cpu_set (join cpu) = ground arith
planned-flags n_lists n_workers ncpu cpu_set (list_destroy i) = ground arith
planned-flags n_lists n_workers ncpu cpu_set (worker_destroy i) = ground arith
planned-flags n_lists n_workers ncpu cpu_set ums_destroy = ground arith

module _ (c : MainCall) where
  times-list_init :
      (n : ℕ)
      → times c (for_each n 0 (λ i. list_init i ∷ []))
        ≡ flag (kind c == 1 && (second c == 0 && ltb (first c) n))
  times-list_init n =
      times-for_each c (λ i. list_init i ∷ []) (first c) (flag (kind c == 1 && second c == 0))
        (λ k. ground arith) n 0
      ∙ ground arith

  times-join :
      (n : ℕ)
      → times c (for_each n 0 (λ i. join i ∷ []))
        ≡ flag (kind c == 5 && (second c == 0 && ltb (first c) n))
  times-join n =
      times-for_each c (λ i. join i ∷ []) (first c) (flag (kind c == 5 && second c == 0))
        (λ k. ground arith) n 0
      ∙ ground arith

  times-list_destroy :
      (n : ℕ)
      → times c (for_each n 0 (λ i. list_destroy i ∷ []))
        ≡ flag (kind c == 6 && (second c == 0 && ltb (first c) n))
  times-list_destroy n =
      times-for_each c (λ i. list_destroy i ∷ []) (first c) (flag (kind c == 6 && second c == 0))
        (λ k. ground arith) n 0
      ∙ ground arith

  times-worker_destroy :
      (n : ℕ)
      → times c (for_each n 0 (λ i. worker_destroy i ∷ []))
        ≡ flag (kind c == 7 && (second c == 0 && ltb (first c) n))
  times-worker_destroy n =
      times-for_each c (λ i. worker_destroy i ∷ []) (first c) (flag (kind c == 7 && second c == 0))
        (λ k. ground arith) n 0
      ∙ ground arith

  times-list_add :
      (n i : ℕ)
      → times c (for_each n 0 (λ j. list_add i j ∷ []))
        ≡ flag (kind c == 3 && (first c == i && ltb (second c) n))
  times-list_add n i =
      times-for_each c (λ j. list_add i j ∷ []) (second c) (flag (kind c == 3 && first c == i))
        (λ k. ground arith) n 0
      ∙ ground arith

  times-workers :
      (n_lists n_workers : ℕ)
      → times c (
          for_each n_workers 0 (λ i. create_worker i ∷ for_each n_lists 0 (λ j. list_add i j ∷ [])))
        ≡ flag (
            ltb (first c) n_workers
            && (if kind c == 2 then second c == 0 else kind c == 3 && ltb (second c) n_lists))
  times-workers n_lists n_workers =
      times-for_each c (λ i. create_worker i ∷ for_each n_lists 0 (λ j. list_add i j ∷ []))
        (first c)
        (flag (if kind c == 2 then second c == 0 else kind c == 3 && ltb (second c) n_lists))
        (λ k. ground (arith, times-list_add n_lists k)) n_workers 0
      ∙ ground arith

  times-schedulers :
      (n_lists ncpu : ℕ) (cpu_set : ℕ → Bool)
      → times c (
          for_each ncpu 0 (λ cpu.
            if cpu_set cpu then start_scheduler cpu (list_of n_lists ncpu cpu) ∷ [] else []))
        ≡ flag (
            kind c == 4
            && (ltb (first c) ncpu
                && (cpu_set (first c) && second c == list_of n_lists ncpu (first c))))
  times-schedulers n_lists ncpu cpu_set =
      times-for_each c _ (first c)
        (flag (kind c == 4 && (cpu_set (first c) && second c == list_of n_lists ncpu (first c))))
        (λ k. elim (Bool-cases (k == first c)) [
          | inl hit ↦ let e = eq_of_== k (first c) hit in rw (e, ==-refl (first c)) (ground arith)
          | inr miss ↦ ground (arith, miss)
        ])
        ncpu 0
      ∙ ground arith

  times-main :
      (n_lists n_workers ncpu : ℕ) (cpu_set : ℕ → Bool)
      → ltb ncpu n_lists ≡ false
      → times c ((main n_lists n_workers ncpu cpu_set).1)
        ≡ flag (planned n_lists n_workers ncpu cpu_set c)
  unfolding main
  times-main n_lists n_workers ncpu cpu_set enough = rw enough (
      simp
        (
          times-append, times-list_init, times-workers, times-schedulers, times-join,
          times-list_destroy, times-worker_destroy,
        )
        (planned-flags n_lists n_workers ncpu cpu_set c))

-- With fewer processors than lists, `main` returns -1 and makes no call. Otherwise it returns 0 and
-- makes exactly these calls, each once: `ums_init` and `ums_destroy`, the making and the destruction
-- of every list and of every worker, the adding of every worker to every list, the start of a
-- scheduler on its list for each processor below `ncpu` that is in the set, and a join for each
-- processor below `ncpu`, in the set or not.
pub main-plans :
    (n_lists n_workers ncpu : ℕ) (cpu_set : ℕ → Bool)
    → ((ncpu < n_lists) × (main n_lists n_workers ncpu cpu_set ≡ (minus_one, [])))
      ⊎ ((n_lists ≤ ncpu)
          × ((main n_lists n_workers ncpu cpu_set).0 ≡ 0)
          × ((c : MainCall)
              → times c ((main n_lists n_workers ncpu cpu_set).1)
                ≡ (if planned n_lists n_workers ncpu cpu_set c then 1 else 0)))
unfolding main
main-plans n_lists n_workers ncpu cpu_set = elim (Bool-cases (ltb ncpu n_lists)) [
  | inl few ↦ inl (ground (arith, few), rw few)
  | inr enough ↦ inr (
    ground (arith, enough),
    rw enough refl,
    λ c. times-main c n_lists n_workers ncpu cpu_set enough,
  )
]

-- With more processors than lists, no scheduler is started on any list but the first.
pub main-shares_first :
    (n_lists n_workers ncpu : ℕ) (cpu_set : ℕ → Bool) (cpu list : ℕ)
    → n_lists < ncpu
    → 0 < list
    → times (start_scheduler cpu list) ((main n_lists n_workers ncpu cpu_set).1) ≡ 0
main-shares_first n_lists n_workers ncpu cpu_set cpu list more h =
    let e : list_of n_lists ncpu cpu ≡ 0 = ap (λ q. cpu * q) (div-eq_of_lt more) ∙ omega arith in
    times-main (start_scheduler cpu list) n_lists n_workers ncpu cpu_set (ground (arith, more))
    ∙ ground (arith, e, h)
