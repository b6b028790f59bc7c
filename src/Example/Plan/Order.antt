-- ===== src/Example/Plan/Order.antt =====
-- `main` of src/example/main.c: the order of its calls.
use aosv_project.Base.{
  ℕ, zero, suc, ◌+◌, ◌*◌, ◌≤◌, ◌≡◌, inl, inr, Bool, true, false, List, [], ◌∷◌, ◌++◌, arith,
  if◌then◌else◌, ltb, Bool-cases,
}
use aosv_project.Example.Plan.{
  MainCall, ums_init, list_init, create_worker, list_add, start_scheduler, join, list_destroy,
  worker_destroy, ums_destroy, for_each, list_of, main,
}

-- When a call is due: a worker is added after it is created and before the next one is.
abbrev pub due : (n_workers : ℕ) → MainCall → ℕ
due n ums_init = 0
due n (list_init i) = 1
due n (create_worker i) = 2 + 2 * i
due n (list_add i j) = 3 + 2 * i
due n (start_scheduler cpu j) = 2 + 2 * n
due n (join cpu) = 3 + 2 * n
due n (list_destroy i) = 4 + 2 * n
due n (worker_destroy i) = 5 + 2 * n
due n ums_destroy = 6 + 2 * n

-- The calls come in the order in which they are due, from `low` to `high`.
abbrev pub IsOrdered : (n_workers low high : ℕ) → List MainCall → Type 0
IsOrdered n low high [] = low ≤ high
IsOrdered n low high (c ∷ cs) = (low ≤ due n c) × IsOrdered n (due n c) high cs

-- Calls in order.
abbrev Stretch : (n_workers low high : ℕ) → Type 0
Stretch n low high = (cs : List MainCall) × IsOrdered n low high cs

module _ (n : ℕ) where
  append-IsOrdered :
      (xs ys : List MainCall) (low mid high : ℕ)
      → IsOrdered n low mid xs
      → IsOrdered n mid high ys
      → IsOrdered n low high (xs ++ ys)
  append-IsOrdered [] [] low mid high a b = omega (arith, a, b)
  append-IsOrdered [] (y ∷ ys) low mid high a (h, b) = (omega (arith, a, h), b)
  append-IsOrdered (x ∷ xs) ys low mid high (h, a) b =
      (h, append-IsOrdered xs ys (due n x) mid high a b)

  for_each-IsOrdered :
      (low : ℕ → ℕ) (body : ℕ → List MainCall)
      → ((k : ℕ) → IsOrdered n (low k) (low (k + 1)) (body k))
      → (steps i : ℕ) → IsOrdered n (low i) (low (i + steps)) (for_each steps i body)
  unfolding for_each
  for_each-IsOrdered low body each zero i = let e : i + 0 ≡ i = omega arith in rw e (omega arith)
  for_each-IsOrdered low body each (suc steps) i =
      let e : i + suc steps ≡ (i + 1) + steps = omega arith in
      rw e (
        append-IsOrdered (body i) (for_each steps (i + 1) body) (low i) (low (i + 1))
          (low ((i + 1) + steps)) (each i) (for_each-IsOrdered low body each steps (i + 1)))

  -- A loop over calls that are due at once.
  level :
      (due_at : ℕ) (body : ℕ → List MainCall)
      → ((k : ℕ) → IsOrdered n due_at due_at (body k))
      → (steps : ℕ) → IsOrdered n due_at due_at (for_each steps 0 body)
  level due_at body each steps = for_each-IsOrdered (λ _. due_at) body each steps 0

  widen :
      (ys : List MainCall) (l m u v : ℕ) → l ≤ m → u ≤ v → IsOrdered n m u ys → IsOrdered n l v ys
  widen [] l m u v h g b = omega (arith, h, g, b)
  widen (y ∷ ys) l m u v h g (e, b) =
      (omega (arith, h, e), widen ys (due n y) (due n y) u v (omega arith) g b)

  -- One more loop, whose calls are due no earlier.
  abbrev follow :
      (low high m u : ℕ) → Stretch n low high → high ≤ m → Stretch n m u → Stretch n low u
  follow low high m u (xs, a) h (ys, b) =
      (xs ++ ys, append-IsOrdered xs ys low high u a (widen ys high m u u h (omega arith) b))

  workers-IsOrdered :
      (n_lists : ℕ)
      → IsOrdered n 2
          (2 + 2 * n)
          (for_each n 0 (λ i. create_worker i ∷ for_each n_lists 0 (λ j. list_add i j ∷ [])))
  workers-IsOrdered n_lists =
      widen _ 2 (2 + 2 * 0) (2 + 2 * (0 + n)) (2 + 2 * n) (omega arith) (omega arith) (
        for_each-IsOrdered (λ i. 2 + 2 * i)
          (λ i. create_worker i ∷ for_each n_lists 0 (λ j. list_add i j ∷ []))
          (λ k. (
            omega arith,
            widen (for_each n_lists 0 (λ j. list_add k j ∷ [])) (2 + 2 * k) (3 + 2 * k) (3 + 2 * k)
                (2 + 2 * (k + 1)) (omega arith) (omega arith)
                (level (3 + 2 * k) (λ j. list_add k j ∷ []) (λ j. (omega arith, omega arith))
                  n_lists),
          ))
          n 0)

started :
    (n n_lists ncpu cpu : ℕ) (b : Bool)
    → IsOrdered n
        (2 + 2 * n)
        (2 + 2 * n)
        (if b then start_scheduler cpu (list_of n_lists ncpu cpu) ∷ [] else [])
started n n_lists ncpu cpu true = (omega arith, omega arith)
started n n_lists ncpu cpu false = omega arith

-- Where there are enough processors, `main` starts with `ums_init`, then makes the lists, then
-- creates the workers, adding each to the lists before it creates the next, then starts the
-- schedulers, then joins them, then destroys the lists, then the workers, and ends with
-- `ums_destroy`. Elsewhere it makes no call.
pub main-IsOrdered :
    (n_lists n_workers ncpu : ℕ) (cpu_set : ℕ → Bool)
    → IsOrdered n_workers 0 (6 + 2 * n_workers) ((main n_lists n_workers ncpu cpu_set).1)
unfolding main
main-IsOrdered n_lists n_workers ncpu cpu_set = elim (Bool-cases (ltb ncpu n_lists)) [
  | inl few ↦ rw few (omega arith)
  | inr enough ↦
      let n = n_workers in
      let here : (m : ℕ) → m ≤ m = λ m. omega arith in
      let listed : Stretch n 1 1 =
        (_, level n 1 (λ i. list_init i ∷ []) (λ k. (here 1, here 1)) n_lists) in
      let workers : Stretch n 2 (2 + 2 * n) = (_, workers-IsOrdered n n_lists) in
      let starts : Stretch n (2 + 2 * n) (2 + 2 * n) = (
        _,
        level n (2 + 2 * n)
            (λ cpu. if cpu_set cpu then start_scheduler cpu (list_of n_lists ncpu cpu) ∷ [] else [])
            (λ cpu. started n n_lists ncpu cpu (cpu_set cpu)) ncpu,
      ) in
      let joins : Stretch n (3 + 2 * n) (3 + 2 * n) =
        (_, level n (3 + 2 * n) (λ cpu. join cpu ∷ []) (λ k. (here _, here _)) ncpu) in
      let drops : Stretch n (4 + 2 * n) (4 + 2 * n) =
        (_, level n (4 + 2 * n) (λ i. list_destroy i ∷ []) (λ k. (here _, here _)) n_lists) in
      let ends : Stretch n (5 + 2 * n) (5 + 2 * n) =
        (_, level n (5 + 2 * n) (λ i. worker_destroy i ∷ []) (λ k. (here _, here _)) n) in
      let s1 = follow n 0 0 1 1 (ums_init ∷ [], (here 0, here 0)) (omega arith) listed in
      let s2 = follow n 0 1 2 (2 + 2 * n) s1 (omega arith) workers in
      let s3 = follow n 0 (2 + 2 * n) (2 + 2 * n) (2 + 2 * n) s2 (here _) starts in
      let s4 = follow n 0 (2 + 2 * n) (3 + 2 * n) (3 + 2 * n) s3 (omega arith) joins in
      let s5 = follow n 0 (3 + 2 * n) (4 + 2 * n) (4 + 2 * n) s4 (omega arith) drops in
      let s6 = follow n 0 (4 + 2 * n) (5 + 2 * n) (5 + 2 * n) s5 (omega arith) ends in
      rw enough
        (follow n 0 (5 + 2 * n) (6 + 2 * n) (6 + 2 * n) s6 (omega arith)
          (ums_destroy ∷ [], (here _, here _))).1
]
