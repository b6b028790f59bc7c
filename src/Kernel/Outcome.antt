-- ===== src/Kernel/Outcome.antt =====
-- How a piece of kernel code ends: with a value and the new state, at an invalid pointer, or
-- asleep with nothing changed, to be tried again.
use aosv_project.Base.{◌≡◌, refl}

pub data Outcome (S A : Type 0) : Type 0 where
  ok : A → S → Outcome S A
  fault : Outcome S A
  blocked : Outcome S A

module _ {S A : Type 0} where
  abbrev pub pure : A → S → Outcome S A
  pure a s = ok a s

  abbrev pub and_then : {B : Type 0} → Outcome S A → (A → S → Outcome S B) → Outcome S B
  and_then (ok a s) k = k a s
  and_then fault k = fault
  and_then blocked k = blocked

  infixl 5 ◌>>=◌ ◌>>◌
  abbrev pub ◌>>=◌ : {B : Type 0} → (S → Outcome S A) → (A → S → Outcome S B) → S → Outcome S B
  m >>= k = λ s. and_then (m s) k

  abbrev pub ◌>>◌ : {B : Type 0} → (S → Outcome S A) → (S → Outcome S B) → S → Outcome S B
  m >> n = m >>= λ _. n

  -- A sequence that ends well ends well in its first part.
  pub and_then-eq-ok :
      {B : Type 0} (r : Outcome S A) (k : A → S → Outcome S B) {b : B} {t : S}
      → and_then r k ≡ ok b t
      → (a : A) × (s : S) × (r ≡ ok a s) × (k a s ≡ ok b t)
  and_then-eq-ok (ok a s) k h = (a, s, refl, h)
  and_then-eq-ok fault k h = cc
  and_then-eq-ok blocked k h = cc
