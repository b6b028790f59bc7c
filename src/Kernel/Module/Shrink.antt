-- ===== src/Kernel/Module/Shrink.antt =====
-- A loop that takes the nodes of a registry away one by one and frees their objects, as the three
-- `destroy_*_htable` of src/lkm do.
use aosv_project.Base.{
  ℕ, ◌<◌, ◌≤◌, ◌≡◌, refl, ◌∙◌, ap, Option, none, List, [], ◌∷◌, arith, ◌==◌, count, remove,
  Bool-cases, inl, inr,
}
use aosv_project.Hashtable.{Hashtable}
use aosv_project.Kernel.Outcome.{pure, ◌>>◌}
use aosv_project.Kernel.State.{Kernel, M}
use aosv_project.Kernel.Valid.{Ends, IsValid}
use aosv_project.Kernel.Valid.Set.{Ends-and_then, Ends-mono}

pub remove-absent : (a : ℕ) (xs : List ℕ) → count a xs ≡ 0 → remove a xs ≡ xs
remove-absent a [] h = refl
remove-absent a (x ∷ xs) h = ground (arith, remove-absent a xs)

-- The first node of a list without repetition is taken away.
pub remove-head : (a : ℕ) (xs : List ℕ) → count a (a ∷ xs) ≤ 1 → remove a (a ∷ xs) ≡ xs
remove-head a xs h = ground (arith, remove-absent a xs)

module _ ⦃ht : Hashtable⦄ where
  open ht use {Table, nodes}

  -- `rest` is what the loop leaves alone.
  module _ {A : Type 0} (table : Kernel Table → Table) (heap : Kernel Table → ℕ → Option A)
      (rest : Kernel Table → Kernel Table) where
    pub record Shrunk (s : Kernel Table) (p : ℕ) (ps : List ℕ) (t : Kernel Table) : Type 0 where
      pub valid : IsValid t
      pub left : nodes (table t) ≡ ps
      pub freed : heap t p ≡ none
      pub kept : (q : ℕ) → heap s q ≡ none → heap t q ≡ none
      pub frame : rest t ≡ rest s

    pub record Emptied (s t : Kernel Table) : Type 0 where
      pub valid : IsValid t
      pub left : nodes (table t) ≡ []
      pub freed : (q : ℕ) → 0 < count q (nodes (table s)) → heap t q ≡ none
      pub kept : (q : ℕ) → heap s q ≡ none → heap t q ≡ none
      pub frame : rest t ≡ rest s

    Shrunk-Emptied :
        (s t u : Kernel Table) (p : ℕ) (ps : List ℕ)
        → nodes (table s) ≡ p ∷ ps
        → Shrunk s p ps t
        → Emptied t u
        → Emptied s u
    Shrunk-Emptied s t u p ps e a b = record {
      valid = b.valid;
      left = b.left;
      freed = λ q m. elim (Bool-cases (q == p)) [
        | inl same ↦ b.kept q (ground (arith, a.freed))
        | inr other ↦ b.freed q (ground (arith, ap (count q) e, ap (count q) a.left))
      ];
      kept = λ q h. b.kept q (a.kept q h);
      frame = b.frame ∙ a.frame;
    }

    module _ (discard : ℕ → M Table (Unit {0})) (discard_all : List ℕ → M Table (Unit {0}))
        (at_end : discard_all [] ≡ pure tt)
        (at_node : (p : ℕ) (ps : List ℕ) → discard_all (p ∷ ps) ≡ (discard p >> discard_all ps))
        (one : (s : Kernel Table) (p : ℕ) (ps : List ℕ)
          → IsValid s
          → nodes (table s) ≡ p ∷ ps
          → Ends (λ _ t. Shrunk s p ps t) (discard p s)) where
      pub discard_all-Emptied :
          (ps : List ℕ) (s : Kernel Table)
          → IsValid s
          → nodes (table s) ≡ ps
          → Ends (λ _ t. Emptied s t) (discard_all ps s)
      discard_all-Emptied [] s v e = rw at_end (record {
        valid = v;
        left = e;
        freed = λ q m. absurd (omega (arith, ap (count q) e));
        kept = λ q h. h;
        frame = refl;
      })
      discard_all-Emptied (p ∷ ps) s v e = rw (at_node p ps) (
          Ends-and_then (λ _ u. Emptied s u) (discard p s) _ (one s p ps v e)
            λ _ t a.
              Ends-mono {P = λ _ u. Emptied t u} _ (discard_all-Emptied ps t a.valid a.left)
                λ _ u b. Shrunk-Emptied s t u p ps e a b)
