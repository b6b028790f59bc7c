-- ===== src/Kernel/Objects/Scan.antt =====
-- What the loop over a bucket finds, and how it reacts to a change of the heap or of the bucket.
use aosv_project.Base.{
  ℕ, ◌<◌, ◌≡◌, ◌≢◌, refl, Option, none, some, List, [], ◌∷◌, arith, ◌==◌, if◌then◌else◌, count,
  remove, update, Option-cases, Bool-cases, inl, inr,
}
use aosv_project.Kernel.Objects.{Ptr, scan, AllLive}

module _ {A : Type 0} (key : A → ℕ) (h : ℕ → Option A) where
  pub scan-found :
      (k p : ℕ) (ps : List ℕ)
      → scan key h k ps ≡ some (some p)
      → (a : A) × (h p ≡ some a) × (key a ≡ k) × (0 < count p ps)
  unfolding scan
  scan-found k p [] e = cc
  scan-found k p (q ∷ ps) e = elim (Option-cases (h q)) [
    | inl gone ↦ absurd (ground arith)
    | inr (a, there) ↦ elim (Bool-cases (key a == k)) [
      | inl hit ↦ let same : q ≡ p = ground arith in (a, ground arith, ground arith, ground arith)
      | inr miss ↦
          let (b, at, found, inside) = scan-found k p ps (ground arith) in
          (b, at, found, ground arith)
    ]
  ]

  pub scan-update_same :
      (k p : ℕ) (a b : A) (ps : List ℕ)
      → h p ≡ some a
      → key b ≡ key a
      → scan key (update h p (some b)) k ps ≡ scan key h k ps
  unfolding scan
  scan-update_same k p a b [] there same = refl
  scan-update_same k p a b (q ∷ ps) there same = ground (arith, scan-update_same k p a b ps)

  pub scan-update_fresh :
      (k p : ℕ) (x : Option A) (ps : List ℕ)
      → count p ps ≡ 0
      → scan key (update h p x) k ps ≡ scan key h k ps
  unfolding scan
  scan-update_fresh k p x [] fresh = refl
  scan-update_fresh k p x (q ∷ ps) fresh = ground (arith, scan-update_fresh k p x ps)

  -- A new object at the head of the bucket is found by its own key only.
  pub scan-cons_new :
      (k p : ℕ) (a : A) (ps : List ℕ)
      → count p ps ≡ 0
      → scan key (update h p (some a)) k (p ∷ ps)
        ≡ (if key a == k then some (some p) else scan key h k ps)
  unfolding scan
  scan-cons_new k p a ps fresh = ground (arith, scan-update_fresh k p (some a) ps)

  -- With one object taken out, its key is free and the others keep theirs.
  pub scan-remove :
      (k p : ℕ) (a : A) (ps : List ℕ)
      → h p ≡ some a
      → ((q : ℕ) (b : A) → 0 < count q ps → h q ≡ some b → key b ≡ key a → q ≡ p)
      → AllLive h ps
      → scan key (update h p none) k (remove p ps)
        ≡ (if key a == k then some none else scan key h k ps)
  unfolding scan
  scan-remove k p a [] there alone live = ground arith
  scan-remove k p a (q ∷ ps) there alone live =
      let (b, here) = live q (ground arith) in
      ground (
        arith,
        alone q b,
        scan-remove k p a ps there (λ r c m. alone r c (ground arith))
            (λ r m. live r (ground arith)),
      )

  pub scan-live : (k : ℕ) (ps : List ℕ) → AllLive h ps → (r : Ptr) × (scan key h k ps ≡ some r)
  unfolding scan
  scan-live k [] live = (none, refl)
  scan-live k (q ∷ ps) live =
      let (b, here) = live q (ground arith) in
      let (r, rest) = scan-live k ps (λ p m. live p (ground arith)) in
      (if key b == k then some q else r, ground arith)

  pub scan-missing :
      (k p : ℕ) (a : A) (ps : List ℕ)
      → scan key h k ps ≡ some none
      → 0 < count p ps
      → h p ≡ some a
      → key a ≢ k
  unfolding scan
  scan-missing k p a [] e m there = absurd (omega arith)
  scan-missing k p a (q ∷ ps) e m there = ground (arith, scan-missing k p a ps)
