-- ===== src/Kernel/Balance/Tally.antt =====
-- Lists as bags of numbers: how many elements pass a test, over what the counts alone tell.
use aosv_project.Base.{
  ℕ, ◌+◌, ◌-◌, ◌≤◌, ◌<◌, ◌≡◌, ◌≢◌, ◌⊎◌, inl, inr, refl, sym, ap, ◌∙◌, Bool-cases, eq_of_==, Bool,
  true, false, List, [], ◌∷◌, arith, ltb, ◌==◌, if◌then◌else◌, count, remove, length, update,
}

-- How many elements pass a test.
abbrev pub tally : (ℕ → Bool) → List ℕ → ℕ
tally f [] = 0
tally f (x ∷ xs) = (if f x then 1 else 0) + tally f xs

pub tally-all : (xs : List ℕ) → tally (λ _. true) xs ≡ length xs
tally-all [] = refl
tally-all (x ∷ xs) = omega (arith, tally-all xs)

-- The list without its first copy of a number.
abbrev erase : ℕ → List ℕ → List ℕ
erase v [] = []
erase v (x ∷ xs) = let rest = erase v xs in if x == v then xs else x ∷ rest

count-erase :
    (v a : ℕ) (xs : List ℕ) → count a (erase v xs) ≡ count a xs - (if a == v then 1 else 0)
count-erase v a [] = ground arith
count-erase v a (x ∷ xs) = ground (arith, count-erase v a xs)

tally-erase :
    (f : ℕ → Bool) (v : ℕ) (xs : List ℕ)
    → 0 < count v xs
    → tally f xs ≡ (if f v then 1 else 0) + tally f (erase v xs)
tally-erase f v [] h = absurd (omega arith)
tally-erase f v (x ∷ xs) h = ground (arith, tally-erase f v xs)

-- The counts of a list tell how many of its elements pass a test.
pub tally-counts :
    (f : ℕ → Bool) (xs ys : List ℕ) → ((a : ℕ) → count a xs ≡ count a ys) → tally f xs ≡ tally f ys
tally-counts f [] [] same = refl
tally-counts f [] (y ∷ ys) same = absurd (ground (arith, same y))
tally-counts f (x ∷ xs) ys same =
    let here : 0 < count x ys = ground (arith, same x) in
    let rest = tally-counts f xs (erase x ys) (λ a. ground (arith, same a, count-erase x a ys)) in
    ground (arith, rest, tally-erase f x ys here)

pub tally-remove :
    (f : ℕ → Bool) (v : ℕ) (xs : List ℕ)
    → tally f xs ≡ (if f v then count v xs else 0) + tally f (remove v xs)
tally-remove f v [] = ground arith
tally-remove f v (x ∷ xs) = ground (arith, tally-remove f v xs)

-- A number that did not pass the test passes it now.
pub tally-set :
    (f : ℕ → Bool) (v : ℕ) (xs : List ℕ)
    → f v ≡ false
    → tally (update f v true) xs ≡ count v xs + tally f xs
tally-set f v [] h = refl
tally-set f v (x ∷ xs) h = ground (arith, tally-set f v xs h)

-- How often the elements of one list stand in another.
abbrev pub crossing : (taken : List ℕ) → List ℕ → ℕ
crossing [] xs = 0
crossing (t ∷ ts) xs = count t xs + crossing ts xs

crossing-nil : (taken : List ℕ) → crossing taken [] ≡ 0
crossing-nil [] = refl
crossing-nil (t ∷ ts) = omega (arith, crossing-nil ts)

crossing-cons :
    (taken : List ℕ) (x : ℕ) (xs : List ℕ)
    → crossing taken (x ∷ xs) ≡ count x taken + crossing taken xs
crossing-cons [] x xs = refl
crossing-cons (t ∷ ts) x xs = ground (arith, crossing-cons ts x xs)

-- The test without the numbers of a list.
abbrev pub excluding : (taken : List ℕ) → (ℕ → Bool) → ℕ → Bool
excluding taken f j = if ltb 0 (count j taken) then false else f j

-- Numbers that passed the test, each once, pass it no more.
pub tally-excluding :
    (f : ℕ → Bool) (taken xs : List ℕ)
    → ((j : ℕ) → 0 < count j taken → (f j ≡ true) × (count j taken ≡ 1))
    → tally f xs ≡ crossing taken xs + tally (excluding taken f) xs
tally-excluding f taken [] once = omega (arith, crossing-nil taken)
tally-excluding f taken (x ∷ xs) once =
    ground (arith, tally-excluding f taken xs once, crossing-cons taken x xs, once x)

pub tally-le : (f : ℕ → Bool) (xs : List ℕ) → tally f xs ≤ length xs
tally-le f [] = omega arith
tally-le f (x ∷ xs) = ground (arith, tally-le f xs)

pub tally-some : (f : ℕ → Bool) (xs : List ℕ) (j : ℕ) → 0 < count j xs → f j ≡ true → 0 < tally f xs
tally-some f [] j h free = absurd (omega arith)
tally-some f (x ∷ xs) j h free = elim (Bool-cases (j == x)) [
  | inl hit ↦ let e : f x ≡ true = ap f (sym (eq_of_== j x hit)) ∙ free in rw e (omega arith)
  | inr miss ↦ let rest = tally-some f xs j (ground (arith, h, miss)) free in omega (arith, rest)
]

-- Some element passes the test, or none does.
pub tally-cases :
    (f : ℕ → Bool) (xs : List ℕ)
    → ((j : ℕ) × (0 < count j xs) × (f j ≡ true)) ⊎ ((j : ℕ) → 0 < count j xs → f j ≢ true)
tally-cases f [] = inr λ j h. absurd (omega (arith, h))
tally-cases f (x ∷ xs) = elim (Bool-cases (f x)) [
  | inl hit ↦ inl (x, ground arith, hit)
  | inr miss ↦ elim (tally-cases f xs) [
    | inl (j, h, e) ↦ inl (j, omega (arith, h), e)
    | inr held ↦ inr λ j h e. elim (Bool-cases (j == x)) [
      | inl same ↦ ground (arith, sym e ∙ ap f (eq_of_== j x same) ∙ miss)
      | inr other ↦ held j (ground (arith, h, other)) e
    ]
  ]
]
