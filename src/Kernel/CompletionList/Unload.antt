-- ===== src/Kernel/CompletionList/Unload.antt =====
-- `destroy_kcl_htable` of src/lkm/kcompletion_list.c.
use aosv_project.Base.{
  Option, ℕ, ◌<◌, ◌≡◌, refl, none, some, List, ◌∷◌, arith, ap, count, update, ==-refl,
}
use aosv_project.Hashtable.{Hashtable}
use aosv_project.Kernel.Objects.Index.{IsIndex-del, object-del}
use aosv_project.Kernel.State.{Kcl, Kernel, lists, load}
use aosv_project.Kernel.Valid.{Ends, IsValid}
use aosv_project.Kernel.Valid.Keep.{IsValid-kcls}
use aosv_project.Kernel.Proc.Collide.{modify-then, reads_own}
use aosv_project.Kernel.CompletionList.{
  kcl_id, drop_all, discard_kcl, discard_all, destroy_kcl_htable,
}
use aosv_project.Kernel.Module.Shrink.{remove-head, Shrunk, Emptied, discard_all-Emptied}

module _ ⦃ht : Hashtable⦄ where
  open ht use {Table, init, del, nodes, nodes-del}

  -- All but the registry of completion lists.
  abbrev pub rest : Kernel Table → Kernel Table
  rest s = record s { compl_list_htable = init; kcls = λ _. none }

  discard_kcl-freed :
      (s : Kernel Table) (p : ℕ) (ps : List ℕ) (c : Kcl Table)
      → IsValid s
      → nodes s.compl_list_htable ≡ p ∷ ps
      → s.kcls p ≡ some c
      → Ends
          (λ _ t. Shrunk (λ r. r.compl_list_htable) (λ r. r.kcls) rest s p ps t)
          (discard_kcl (some p) s)
  unfolding discard_kcl
  discard_kcl-freed s p ps c v e there = modify-then _ lists s p c empty _ there (
      rw (==-refl p, load)
        (record {
          valid = record {
            workers = v.workers;
            schedulers = v.schedulers;
            lists = IsIndex-del kcl_id s.compl_list_htable h v'.lists p;
            recent = λ j d e'. ground (
              arith,
              object-del kcl_id s.compl_list_htable h v'.lists p j (empty c) (reads_own p _ _)
                  inside,
              v'.recent j d,
            );
          };
          left =
              rw (nodes-del p s.compl_list_htable, e)
                (remove-head p ps (omega (arith, ap (count p) e, v.lists.once p)));
          freed = rw (==-refl p) refl;
          kept = λ q k. ground arith;
          frame = refl;
        }))
    where
      empty : Kcl Table → Kcl Table
      empty d = record d { wt_ready_queue = drop_all (nodes d.wt_ready_queue) d.wt_ready_queue }

      h : ℕ → Option (Kcl Table)
      h = update s.kcls p (some (empty c))

      v' : IsValid (record s { kcls = h })
      v' = IsValid-kcls s v p c (empty c) there refl

      inside : 0 < count p (nodes s.compl_list_htable)
      inside = ground (arith, ap (count p) e)

  discard_kcl-Shrunk :
      (s : Kernel Table) (p : ℕ) (ps : List ℕ)
      → IsValid s
      → nodes s.compl_list_htable ≡ p ∷ ps
      → Ends
          (λ _ t. Shrunk (λ r. r.compl_list_htable) (λ r. r.kcls) rest s p ps t)
          (discard_kcl (some p) s)
  discard_kcl-Shrunk s p ps v e =
      let (c, there) = v.lists.live p (ground (arith, ap (count p) e)) in
      discard_kcl-freed s p ps c v e there

  pub destroy_kcl_htable-Emptied :
      (s : Kernel Table)
      → IsValid s
      → Ends
          (λ _ t. Emptied (λ r. r.compl_list_htable) (λ r. r.kcls) rest s t)
          (destroy_kcl_htable s)
  unfolding destroy_kcl_htable
  destroy_kcl_htable-Emptied s v =
      discard_all-Emptied (λ r. r.compl_list_htable) (λ r. r.kcls) rest (λ p. discard_kcl (some p))
        discard_all refl (λ p ps. refl) discard_kcl-Shrunk (nodes s.compl_list_htable) s v refl
