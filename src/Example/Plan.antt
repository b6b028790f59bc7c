-- ===== src/Example/Plan.antt =====
-- `main` of src/example/main.c: the calls that it makes, in their order. It looks at no result of
-- theirs, so the calls are all that it does.
pub mod Calls
pub mod Order
use aosv_project.Base.{
  ℕ, zero, suc, ◌+◌, ◌*◌, ◌/◌, Bool, List, [], ◌∷◌, ◌++◌, if◌then◌else◌, ltb, minus_one,
}

-- A call that `main` makes, with the indices of its arguments: lists and workers in their arrays,
-- processors by their number.
pub data MainCall : Type 0 where
  ums_init : MainCall
  list_init : (list : ℕ) → MainCall
  create_worker : (worker : ℕ) → MainCall
  list_add : (worker list : ℕ) → MainCall
  start_scheduler : (cpu list : ℕ) → MainCall
  join : (cpu : ℕ) → MainCall
  list_destroy : (list : ℕ) → MainCall
  worker_destroy : (worker : ℕ) → MainCall
  ums_destroy : MainCall

-- `for(int i = from; i < from + n; i++)`
unfoldable pub for_each : (n from : ℕ) → (ℕ → List MainCall) → List MainCall
for_each zero i body = []
for_each (suc n) i body = body i ++ for_each n (i + 1) body

-- The list of the scheduler on a processor: N_COMPLETION_LISTS/ncpu is a division of `int`s, whose
-- result the `float` and its product with a number of a processor hold exactly.
abbrev pub list_of : (n_lists ncpu cpu : ℕ) → ℕ
list_of n_lists ncpu cpu = cpu * (n_lists / ncpu)

-- The result and the calls, for N_COMPLETION_LISTS, N_WORKER_THREADS, and the number of processors
-- in the set of the process and the set.
unfoldable pub main : (n_lists n_workers ncpu : ℕ) → (ℕ → Bool) → ℕ × List MainCall
unfolding for_each
main n_lists n_workers ncpu cpu_set = if ltb ncpu n_lists then (minus_one, []) else (
  0,
  (ums_init ∷ [])
      ++ for_each n_lists 0 (λ i. list_init i ∷ [])
      ++ for_each n_workers 0 (λ i. create_worker i ∷ for_each n_lists 0 (λ j. list_add i j ∷ []))
      ++ for_each ncpu 0
          (λ cpu. if cpu_set cpu then start_scheduler cpu (list_of n_lists ncpu cpu) ∷ [] else [])
      ++ for_each ncpu 0 (λ cpu. join cpu ∷ [])
      ++ for_each n_lists 0 (λ i. list_destroy i ∷ [])
      ++ for_each n_workers 0 (λ i. worker_destroy i ∷ [])
      ++ (ums_destroy ∷ []),
)
