-- ===== src/Kernel/Balance/History.antt =====
-- Histories of the requests of src/lkm/ums_core.c, and the counters of the lists.
use aosv_project.Base.{ℕ, ◌≡◌, none, arith}
use aosv_project.Hashtable.{Hashtable}
use aosv_project.Kernel.State.{Kernel}
use aosv_project.Kernel.Valid.{IsValid, worker, completion_list}
use aosv_project.Kernel.Balance.{IsBalanced}
use aosv_project.Kernel.Balance.Steps.{ProperStep, ProperStep-Kept}

module _ ⦃ht : Hashtable⦄ where
  open ht use {Table}

  pub data History (s : Kernel Table) : Kernel Table → Type 0 where
    start : History s s
    further : {t u : Kernel Table} → History s t → ProperStep t u → History s u

  -- A module without workers and lists counts right.
  pub empty-IsBalanced :
      (s : Kernel Table)
      → IsValid s
      → ((j : ℕ) → worker s j ≡ none)
      → ((j : ℕ) → completion_list s j ≡ none)
      → IsBalanced s
  empty-IsBalanced s v workers lists = record {
    valid = v;
    sound = λ tid w here. absurd (ground (arith, workers tid, here));
    counts = λ clid c here. absurd (ground (arith, lists clid, here));
  }

  -- Over a history in which workers are created once, only held workers are waited for or exit, an
  -- exited worker makes no more requests, and no list or worker is destroyed, the counters of each
  -- list stay right: `nthreads` is the length of its queue and `threads_ready` the number of its
  -- entries whose worker no scheduler holds, both as `int`s; a worker that has not exited stands in
  -- the queue as often as it names the list, one that has exited not at all; each entry is found
  -- under its tid; and the lists that workers name exist.
  pub History-IsBalanced : (s t : Kernel Table) → IsBalanced s → History s t → IsBalanced t
  History-IsBalanced s _ b start = b
  History-IsBalanced s u b (further {t} before step) =
      (ProperStep-Kept step (History-IsBalanced s t b before)).balanced
