-- ===== src/Kernel/Scheduler/Unload.antt =====
-- `destroy_kst_htable` of src/lkm/ksched_thread.c.
use aosv_project.Base.{ℕ, ◌≡◌, refl, none, some, List, ◌∷◌, arith, ap, count, ==-refl}
use aosv_project.Hashtable.{Hashtable}
use aosv_project.Kernel.Objects.Index.{IsIndex-del}
use aosv_project.Kernel.State.{Kernel}
use aosv_project.Kernel.Valid.{Ends, IsValid}
use aosv_project.Kernel.Scheduler.{kst_tid, discard_kst, discard_all, destroy_kst_htable}
use aosv_project.Kernel.Module.Shrink.{remove-head, Shrunk, Emptied, discard_all-Emptied}

module _ ⦃ht : Hashtable⦄ where
  open ht use {Table, init, nodes, nodes-del}

  -- All but the registry of schedulers.
  abbrev pub rest : Kernel Table → Kernel Table
  rest s = record s { st_htable = init; ksts = λ _. none }

  discard_kst-Shrunk :
      (s : Kernel Table) (p : ℕ) (ps : List ℕ)
      → IsValid s
      → nodes s.st_htable ≡ p ∷ ps
      → Ends (λ _ t. Shrunk (λ r. r.st_htable) (λ r. r.ksts) rest s p ps t) (discard_kst (some p) s)
  unfolding discard_kst
  discard_kst-Shrunk s p ps v e =
      let (w, there) = v.schedulers.live p (ground (arith, ap (count p) e)) in
      rw there (record {
        valid = record {
          schedulers = IsIndex-del kst_tid s.st_htable s.ksts v.schedulers p;
          workers = v.workers;
          lists = v.lists;
          recent = v.recent;
        };
        left =
            rw (nodes-del p s.st_htable, e)
              (remove-head p ps (omega (arith, ap (count p) e, v.schedulers.once p)));
        freed = rw (==-refl p) refl;
        kept = λ q h. ground arith;
        frame = refl;
      })

  pub destroy_kst_htable-Emptied :
      (s : Kernel Table)
      → IsValid s
      → Ends (λ _ t. Emptied (λ r. r.st_htable) (λ r. r.ksts) rest s t) (destroy_kst_htable s)
  unfolding destroy_kst_htable
  destroy_kst_htable-Emptied s v =
      discard_all-Emptied (λ r. r.st_htable) (λ r. r.ksts) rest (λ p. discard_kst (some p))
        discard_all refl (λ p ps. refl) discard_kst-Shrunk (nodes s.st_htable) s v refl
