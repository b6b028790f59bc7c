-- ===== src/Kernel/Worker/Unload.antt =====
-- `destroy_kwt_htable` of src/lkm/kworker_thread.c.
use aosv_project.Base.{ℕ, ◌≡◌, refl, none, List, ◌∷◌, arith, ap, count, ==-refl}
use aosv_project.Hashtable.{Hashtable}
use aosv_project.Kernel.Objects.Index.{IsIndex-del}
use aosv_project.Kernel.State.{Kernel}
use aosv_project.Kernel.Valid.{Ends, IsValid}
use aosv_project.Kernel.Worker.{kwt_tid, discard_kwt, discard_all, destroy_kwt_htable}
use aosv_project.Kernel.Module.Shrink.{remove-head, Shrunk, Emptied, discard_all-Emptied}

module _ ⦃ht : Hashtable⦄ where
  open ht use {Table, init, nodes, nodes-del}

  -- All but the registry of workers.
  abbrev pub rest : Kernel Table → Kernel Table
  rest s = record s { wt_htable = init; kwts = λ _. none }

  discard_kwt-Shrunk :
      (s : Kernel Table) (p : ℕ) (ps : List ℕ)
      → IsValid s
      → nodes s.wt_htable ≡ p ∷ ps
      → Ends (λ _ t. Shrunk (λ r. r.wt_htable) (λ r. r.kwts) rest s p ps t) (discard_kwt p s)
  unfolding discard_kwt
  discard_kwt-Shrunk s p ps v e =
      let (w, there) = v.workers.live p (ground (arith, ap (count p) e)) in
      rw there (record {
        valid = record {
          workers = IsIndex-del kwt_tid s.wt_htable s.kwts v.workers p;
          schedulers = v.schedulers;
          lists = v.lists;
          recent = v.recent;
        };
        left =
            rw (nodes-del p s.wt_htable, e)
              (remove-head p ps (omega (arith, ap (count p) e, v.workers.once p)));
        freed = rw (==-refl p) refl;
        kept = λ q h. ground arith;
        frame = refl;
      })

  pub destroy_kwt_htable-Emptied :
      (s : Kernel Table)
      → IsValid s
      → Ends (λ _ t. Emptied (λ r. r.wt_htable) (λ r. r.kwts) rest s t) (destroy_kwt_htable s)
  unfolding destroy_kwt_htable
  destroy_kwt_htable-Emptied s v =
      discard_all-Emptied (λ r. r.wt_htable) (λ r. r.kwts) rest discard_kwt discard_all refl
        (λ p ps. refl) discard_kwt-Shrunk (nodes s.wt_htable) s v refl
