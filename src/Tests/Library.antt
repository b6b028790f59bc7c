-- ===== src/Tests/Library.antt =====
-- The lists and the calls of the library.
use aosv_project.Base.{
  ℕ, ◌+◌, ◌<◌, ◌≡◌, refl, sym, ap, ◌∙◌, ◌⊎◌, Option, none, some, [], ◌∷◌, arith, minus_one, update,
  get_elem?,
}
use aosv_project.Hashtable.Chained.{chained}
use aosv_project.Interface.{max_wt}
use aosv_project.Kernel.Outcome.{ok}
use aosv_project.Kernel.Valid.{Ends}
use aosv_project.Library.{
  WorkerThread, CompletionList, found, missing, completion_list_get, completion_list_add, Ioctl,
  ums_completion_list_add,
}
use aosv_project.Library.Array.{
  Fits, Appended, Live, HasTid, IsFirst, completion_list_add-appends, completion_list_get-finds,
  completion_list_get-add,
}
use aosv_project.Library.Handover.{status, answer, ums_completion_list_add-requests}

-- The library's list of the worker 40, whose structure is at 900.
abbrev pub thread : (tid : ℕ) → WorkerThread ℕ ℕ
thread tid = record { tid = tid; cpu_set = 1; worker_routine = 0 }

abbrev pub mem : ℕ → Option (WorkerThread ℕ ℕ)
mem = update (update (λ _. none) 900 (some (thread 40))) 910 (some (thread 41))

abbrev pub one_thread : CompletionList
one_thread = record { last_index = 1; clc = 1; wt = 900 ∷ 0 ∷ 0 ∷ 0 ∷ 0 ∷ 0 ∷ 0 ∷ 0 ∷ [] }

pub one_thread-Fits : Fits one_thread
one_thread-Fits = record { size = refl; bounded = omega arith }

pub one_thread-Live : Live mem (one_thread.wt) 1
one_thread-Live j h = let e : j ≡ 0 = omega arith in rw e (900, thread 40, refl, refl)

no_namesake : (j : ℕ) → j < 1 → ¬ HasTid mem (one_thread.wt) 41 j
no_namesake j h (p, w, at, is, named) =
    let e : j ≡ 0 = omega arith in
    let first : some 900 ≡ some p = ap (get_elem? (one_thread.wt)) (sym e) ∙ at in
    ground (arith, first, is, named)

completion_list_add-appends_example :
    (1 ≡ max_wt) × (completion_list_add 910 one_thread ≡ ok minus_one one_thread)
    ⊎ (1 < max_wt)
      × Ends
          (λ r after. (r ≡ 0) × Appended one_thread 910 after)
          (completion_list_add 910 one_thread)
completion_list_add-appends_example = completion_list_add-appends one_thread 910 one_thread-Fits

completion_list_get-finds_example :
    ((p : ℕ) × (completion_list_get mem one_thread 40 ≡ found p)
      × IsFirst mem (one_thread.wt) 40 0 1 p)
    ⊎ (completion_list_get mem one_thread 40 ≡ missing)
      × ((j : ℕ) → j < 1 → ¬ HasTid mem (one_thread.wt) 40 j)
completion_list_get-finds_example =
    completion_list_get-finds mem one_thread 40 one_thread-Fits one_thread-Live

completion_list_get-add_example :
    Ends
      (λ _ after. completion_list_get mem after 41 ≡ found 910)
      (completion_list_add 910 one_thread)
completion_list_get-add_example =
    completion_list_get-add mem one_thread 910 (thread 41) one_thread-Fits one_thread-Live
      (omega arith) refl no_namesake

-- A device that counts its requests and never fails.
abbrev counting : Ioctl ℕ
counting _ d = (0, record { id = 0; n = 0; wt_ready_tid = [] }, d + 1)

ums_completion_list_add-requests_example :
    Ends
      (λ r (after, e).
        (r ≡ status counting ((answer counting one_thread 41 0).0))
        × (e ≡ (answer counting one_thread 41 0).2)
        × ((1 ≡ max_wt) × (after ≡ one_thread) ⊎ (1 < max_wt) × Appended one_thread 910 after))
      (ums_completion_list_add counting 910 41 one_thread 0)
ums_completion_list_add-requests_example =
    ums_completion_list_add-requests counting one_thread 910 41 0 one_thread-Fits
