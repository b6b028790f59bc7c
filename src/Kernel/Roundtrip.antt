-- ===== src/Kernel/Roundtrip.antt =====
-- A completion list of src/lkm/kcompletion_list.c that is made and then destroyed.
use aosv_project.Base.{
  ℕ, ◌+◌, ◌^◌, ◌<◌, ◌≡◌, refl, inl, inr, ap, ◌∙◌, Bool-cases, eq_of_==, some, arith, ◌==◌, count,
}
use aosv_project.Hashtable.{Hashtable}
use aosv_project.Kernel.Outcome.{◌>>=◌}
use aosv_project.Kernel.State.{Kcl, Kernel, Alloc}
use aosv_project.Kernel.Valid.{Ends, IsValid, completion_list}
use aosv_project.Kernel.Valid.Set.{Ends-and_then, Ends-mono}
use aosv_project.Kernel.CompletionList.{init_completion_list, destroy_completion_list}
use aosv_project.Kernel.CompletionList.Registry.{
  init_completion_list-inserts, destroy_completion_list-deletes,
}

module _ ⦃ht : Hashtable⦄ where
  open ht use {Table, nodes}

  -- In a valid state whose table does not hold the new address, and whose next id is not the last
  -- `int`, a list can be made and destroyed by the id that it got: both calls run through, the map of
  -- the lists is what it was, and the id is used up: the next list gets the id after it. The state
  -- stays valid, and nothing else but the table and the objects of the lists has changed.
  pub destroy_completion_list-init :
      (s : Kernel Table) (a : Alloc (Kcl Table)) (p : ℕ)
      → IsValid s
      → a.at ≡ some p
      → count p (nodes s.compl_list_htable) ≡ 0
      → s.compl_list_last_id + 1 < 2 ^ 32
      → Ends
          (λ _ u.
            IsValid u
            × ((j : ℕ) → completion_list u j ≡ completion_list s j)
            × (u ≡ record s {
              compl_list_htable = u.compl_list_htable;
              kcls = u.kcls;
              compl_list_last_id = s.compl_list_last_id + 1;
            }))
          ((init_completion_list a >>= λ id. destroy_completion_list id) s)
  destroy_completion_list-init s a p v at fresh room =
      Ends-and_then _ (init_completion_list a s) _
        (init_completion_list-inserts s a p v at fresh room)
        λ id t (_, free, valid, maps, frame). elim (destroy_completion_list-deletes t id valid) [
          | inl (gone, _) ↦ absurd (ground (arith, gone, maps id))
          | inr ends ↦ Ends-mono (destroy_completion_list id t) ends λ _ u (valid', maps', frame').
              (
                valid',
                λ j. elim (Bool-cases (id == j)) [
                  | inl hit ↦ maps' j ∙ rw (hit, ← eq_of_== id j hit, free) refl
                  | inr miss ↦ maps' j ∙ rw (miss, maps j, miss) refl
                ],
                frame'
                    ∙ ap
                        (λ (x : Kernel Table). record x {
                          compl_list_htable = u.compl_list_htable;
                          kcls = u.kcls;
                        })
                        frame,
              )
        ]
