-- ===== src/Kernel/Objects/Index.antt =====
-- A hash table with the objects that it leads to, as a finite map from keys to objects.
use aosv_project.Base.{
  ℕ, ◌<◌, ◌≤◌, ◌≡◌, ◌≢◌, ◌⊎◌, refl, false, Option, none, some, arith, ◌==◌, if◌then◌else◌, count,
  update, Bool-cases, inl, inr, count-remove, ap, subst, sym,
}
use aosv_project.Hashtable.{Hashtable}
use aosv_project.Kernel.Objects.{Ptr, scan, peek}
use aosv_project.Kernel.Objects.Scan.{
  scan-found, scan-update_same, scan-update_fresh, scan-cons_new, scan-remove, scan-live,
  scan-missing,
}

module _ ⦃ht : Hashtable⦄ {A : Type 0} (key : A → ℕ) where
  open ht use {
    Table, bucket, add, del, possible, nodes, possible-add, possible-del, count-nodes-add,
    nodes-del, possible-le-nodes, init, nodes-init,
  }

  -- What a lookup by key returns.
  abbrev pub lookup : Table → (ℕ → Option A) → ℕ → Option Ptr
  lookup t h k = scan key h k (possible t k)

  -- The finite map: the object with a key.
  abbrev pub object : Table → (ℕ → Option A) → ℕ → Option A
  object t h k = elim (lookup t h k) [ none ↦ none | some r ↦ peek h r ]

  -- Every node stands once, leads to an object, stands in the bucket of its key, and is alone with
  -- its key.
  pub record IsIndex (t : Table) (h : ℕ → Option A) : Type 0 where
    pub live : (p : ℕ) → 0 < count p (nodes t) → (a : A) × (h p ≡ some a)
    pub placed :
        (p : ℕ) (a : A) → 0 < count p (nodes t) → h p ≡ some a → 0 < count p (possible t (key a))
    pub alone :
        (p q : ℕ) (a b : A)
        → 0 < count p (nodes t)
        → 0 < count q (nodes t)
        → h p ≡ some a
        → h q ≡ some b
        → key a ≡ key b
        → p ≡ q
    pub once : (p : ℕ) → count p (nodes t) ≤ 1

  -- The lookup of `k` gives the pointer `p`, where `a` stands.
  pub record IsAt (t : Table) (h : ℕ → Option A) (k p : ℕ) (a : A) : Type 0 where
    pub found : lookup t h k ≡ some (some p)
    pub there : h p ≡ some a
    pub same : key a ≡ k
    pub inside : 0 < count p (nodes t)

  module _ (t : Table) (h : ℕ → Option A) where
    lookup-add :
        (a : A) (p j : ℕ)
        → count p (nodes t) ≡ 0
        → lookup (add (key a) p t) (update h p (some a)) j
          ≡ (if key a == j then some (some p) else lookup t h j)
    lookup-add a p j fresh = rw possible-add (elim (Bool-cases (bucket (key a) == bucket j)) [
      | inl same ↦ rw same (scan-cons_new key h j p a (possible t j) absent)
      | inr other ↦
          rw other (ground (arith, absent, scan-update_fresh key h j p (some a) (possible t j)))
    ])
      where
        absent : count p (possible t j) ≡ 0
        absent = omega (arith, possible-le-nodes t j p)

    module _ (ix : IsIndex t h) where
      lookup-del :
          (p j : ℕ) (a : A)
          → h p ≡ some a
          → 0 < count p (nodes t)
          → lookup (del p t) (update h p none) j ≡ (if key a == j then some none else lookup t h j)
      lookup-del p j a there inside = rw possible-del (
          scan-remove key h j p a (possible t j) there
            (λ q b m at same.
              ix.alone q p b a (omega (arith, possible-le-nodes t j q)) inside at there same)
            (λ q m. ix.live q (omega (arith, possible-le-nodes t j q))))

      pub lookup-modify :
          (p j : ℕ) (a b : A)
          → h p ≡ some a
          → key b ≡ key a
          → lookup t (update h p (some b)) j ≡ lookup t h j
      lookup-modify p j a b there same = scan-update_same key h j p a b (possible t j) there same

  module _ (t : Table) (h : ℕ → Option A) (ix : IsIndex t h) where
    pub IsIndex-modify :
        (p : ℕ) (a b : A) → h p ≡ some a → key b ≡ key a → IsIndex t (update h p (some b))
    IsIndex-modify p a b there same = record {
      live = λ q m. let (c, at) = ix.live q m in (if q == p then b else c, ground arith);
      placed = λ q c m at. ground (arith, ix.placed q c, ix.placed p a);
      alone = λ q r c d mq mr at at' e.
          ground (arith, ix.alone q r c d, ix.alone p r a d, ix.alone q p c a);
      once = ix.once;
    }

    pub IsIndex-del : (p : ℕ) → IsIndex (del p t) (update h p none)
    IsIndex-del p = record {
      live = λ q m. let (c, at) = ix.live q (old q m) in (c, ground (arith, kept q m));
      placed = λ q c m at.
          rw (possible-del, count-remove) (ground (arith, kept q m, old q m, ix.placed q c));
      alone = λ q r c d mq mr at at' e.
          ground (arith, kept q mq, kept r mr, old q mq, old r mr, ix.alone q r c d);
      once =
          λ q. ground (arith, ap (count q) (nodes-del p t), count-remove p q (nodes t), ix.once q);
    }
      where
        kept : (q : ℕ) → 0 < count q (nodes (del p t)) → (p == q) ≡ false
        kept q m = ground (arith, ap (count q) (nodes-del p t), count-remove p q (nodes t))

        old : (q : ℕ) → 0 < count q (nodes (del p t)) → 0 < count q (nodes t)
        old q m = ground (arith, ap (count q) (nodes-del p t), count-remove p q (nodes t))

    pub IsIndex-add :
        (p : ℕ) (a : A)
        → count p (nodes t) ≡ 0
        → lookup t h (key a) ≡ some none
        → IsIndex (add (key a) p t) (update h p (some a))
    IsIndex-add p a fresh free = record {
      live = λ q m. IsIndex-add_live q m;
      placed = λ q c m at. rw possible-add (ground (arith, old q m, ix.placed q c));
      alone = λ q r c d mq mr at at' e.
          ground (arith, old q mq, old r mr, ix.alone q r c d, missing q c, missing r d);
      once = λ q. ground (arith, count-nodes-add (key a) p t q, ix.once q);
    }
      where
        old :
            (q : ℕ)
            → 0 < count q (nodes (add (key a) p t))
            → (q == p) ≡ false
            → 0 < count q (nodes t)
        old q m ne = ground (arith, count-nodes-add (key a) p t q)

        IsIndex-add_live :
            (q : ℕ)
            → 0 < count q (nodes (add (key a) p t))
            → (b : A) × (update h p (some a) q ≡ some b)
        IsIndex-add_live q m = elim (Bool-cases (q == p)) [
          | inl new ↦ (a, rw new)
          | inr ne ↦ let (b, at) = ix.live q (old q m ne) in (b, rw ne at)
        ]

        missing : (q : ℕ) (b : A) → 0 < count q (nodes t) → h q ≡ some b → key a ≢ key b
        missing q b m at e =
            scan-missing key h (key a) q b (possible t (key a)) free
              (subst (λ k. 0 < count q (possible t k)) (sym e) (ix.placed q b m at)) at (sym e)

    -- A lookup reads no freed memory, and finds an object exactly when the map has one.
    pub lookup-cases :
        (k : ℕ)
        → ((lookup t h k ≡ some none) × (object t h k ≡ none))
          ⊎ ((p : ℕ) × (a : A) × IsAt t h k p a)
    lookup-cases k = split (scan-live key h k (possible t k) live)
      where
        live : (q : ℕ) → 0 < count q (possible t k) → (b : A) × (h q ≡ some b)
        live q m = ix.live q (omega (arith, possible-le-nodes t k q))

        split :
            (r : Ptr) × (lookup t h k ≡ some r)
            → ((lookup t h k ≡ some none) × (object t h k ≡ none))
              ⊎ ((p : ℕ) × (a : A) × IsAt t h k p a)
        split (none, e) = inl (e, ground arith)
        split (some p, e) =
            let (a, there, same, inside) = scan-found key h k p (possible t k) e in
            inr (
              p,
              a,
              record {
                found = e;
                there = there;
                same = same;
                inside = omega (arith, possible-le-nodes t k p);
              },
            )

    pub lookup-object : (k : ℕ) (a : A) → object t h k ≡ some a → (p : ℕ) × IsAt t h k p a
    lookup-object k a e = elim (lookup-cases k) [
      | inl (_, gone) ↦ absurd (ground arith)
      | inr (p, b, at) ↦ let e' : b ≡ a = ground (arith, at.found, at.there) in (p, rw e' at at)
    ]

    pub lookup-none : (k : ℕ) → object t h k ≡ none → lookup t h k ≡ some none
    lookup-none k e = elim (lookup-cases k) [
      | inl (found, _) ↦ found
      | inr (p, a, at) ↦ absurd (ground (arith, at.found, at.there))
    ]

    pub lookup-inside :
        (p : ℕ) (a : A) → h p ≡ some a → 0 < count p (nodes t) → lookup t h (key a) ≡ some (some p)
    lookup-inside p a there inside = elim (lookup-cases (key a)) [
      | inl (found, _) ↦ absurd (
          scan-missing key h (key a) p a (possible t (key a)) found (ix.placed p a inside there)
            there refl)
      | inr (q, b, at) ↦
          ground (arith, at.found, ix.alone q p b a at.inside inside at.there there at.same)
    ]

    pub object-modify :
        (p j : ℕ) (a b : A)
        → h p ≡ some a
        → 0 < count p (nodes t)
        → key b ≡ key a
        → object t (update h p (some b)) j ≡ (if key a == j then some b else object t h j)
    object-modify p j a b there inside same = elim (lookup-cases j) [
      | inl (found, gone) ↦
          ground (arith, lookup-modify t h ix p j a b there same, lookup-inside p a there inside)
      | inr (q, c, at) ↦ ground (
        arith,
        at.found,
        at.there,
        at.same,
        lookup-modify t h ix p j a b there same,
        lookup-inside p a there inside,
      )
    ]

    pub object-del :
        (p j : ℕ) (a : A)
        → h p ≡ some a
        → 0 < count p (nodes t)
        → object (del p t) (update h p none) j ≡ (if key a == j then none else object t h j)
    object-del p j a there inside = elim (lookup-cases j) [
      | inl (found, gone) ↦ ground (arith, lookup-del t h ix p j a there inside)
      | inr (q, c, at) ↦
          ground (arith, at.found, at.there, at.same, lookup-del t h ix p j a there inside)
    ]

    pub object-add :
        (p j : ℕ) (a : A)
        → count p (nodes t) ≡ 0
        → object (add (key a) p t) (update h p (some a)) j
          ≡ (if key a == j then some a else object t h j)
    object-add p j a fresh = elim (lookup-cases j) [
      | inl (found, gone) ↦ ground (arith, lookup-add t h a p j fresh)
      | inr (q, c, at) ↦ ground (arith, at.found, at.there, at.inside, lookup-add t h a p j fresh)
    ]

  pub IsIndex-init : (h : ℕ → Option A) → IsIndex init h
  IsIndex-init h = record {
    live = λ p m. absurd (outside p m);
    placed = λ p a m at. absurd (outside p m);
    alone = λ p q a b m n at at' e. absurd (outside p m);
    once = λ p. omega (arith, ap (count p) nodes-init);
  }
    where
      outside : (p : ℕ) → ¬ (0 < count p (nodes init))
      outside p m = omega (arith, ap (count p) nodes-init)
