-- ===== src/Kernel/Objects.antt =====
-- Objects on the heap that a hash table leads to, for the three kinds of objects alike: what a
-- pointer leads to, and the loop of `get_kcompletion_list`, `get_kworker_thread` and
-- `get_ksched_thread` over a bucket.
pub mod Scan
pub mod Index
use aosv_project.Base.{ℕ, ◌<◌, ◌≡◌, Option, none, some, List, [], ◌∷◌, ◌==◌, if◌then◌else◌, count}

-- `none` is `NULL` or the pointer -1.
abbrev pub Ptr : Type 0
Ptr = Option ℕ

module _ {A : Type 0} where
  -- What stands at a pointer.
  abbrev pub peek : (ℕ → Option A) → Ptr → Option A
  peek h none = none
  peek h (some p) = h p

  -- Every node of the list leads to an object.
  abbrev pub AllLive : (ℕ → Option A) → List ℕ → Type 0
  AllLive h ps = (p : ℕ) → 0 < count p ps → (a : A) × (h p ≡ some a)

module _ {A : Type 0} (key : A → ℕ) where
  -- The first object of a bucket with a given key; `none` outside is a read of freed memory.
  unfoldable pub scan : (ℕ → Option A) → ℕ → List ℕ → Option Ptr
  scan h k [] = some none
  scan h k (p ∷ ps) =
      let rest = scan h k ps in
      elim (h p) [ none ↦ none | some a ↦ if key a == k then some (some p) else rest ]
