-- ===== src/Kernel/CompletionList/Grab.antt =====
-- The workers that `get_wt_ready_queue` picks from a ready queue, as a function of the free ones.
use aosv_project.Base.{
  ℕ, zero, suc, ◌+◌, ◌≤◌, ◌<◌, ◌≡◌, refl, Bool, true, false, List, [], ◌∷◌, arith, if◌then◌else◌,
  count, length, set, update, get_elem?, length-set, get_elem?-set,
}

-- The free workers of a queue in its order, each once, as many as there is room for.
pub grab : (free : ℕ → Bool) → (room : ℕ) → List ℕ → List ℕ
grab free zero tids = []
grab free (suc room) [] = []
grab free (suc room) (tid ∷ tids) =
    let more = grab (update free tid false) room tids in
    let rest = grab free (suc room) tids in if free tid then tid ∷ more else rest

pub grab-nil : (free : ℕ → Bool) (room : ℕ) → grab free room [] ≡ []
unfolding grab
grab-nil free zero = refl
grab-nil free (suc room) = refl

pub grab-zero : (free : ℕ → Bool) (tids : List ℕ) → grab free zero tids ≡ []
unfolding grab
grab-zero free tids = refl

pub grab-free :
    (free : ℕ → Bool) (room tid : ℕ) (tids : List ℕ)
    → free tid ≡ true
    → grab free (suc room) (tid ∷ tids) ≡ tid ∷ grab (update free tid false) room tids
unfolding grab
grab-free free room tid tids e = rw e

pub grab-held :
    (free : ℕ → Bool) (room tid : ℕ) (tids : List ℕ)
    → free tid ≡ false
    → grab free room (tid ∷ tids) ≡ grab free room tids
unfolding grab
grab-held free zero tid tids e = refl
grab-held free (suc room) tid tids e = rw e

pub length-grab-le :
    (free : ℕ → Bool) (room : ℕ) (tids : List ℕ) → length (grab free room tids) ≤ room
unfolding grab
length-grab-le free zero tids = omega arith
length-grab-le free (suc room) [] = omega arith
length-grab-le free (suc room) (tid ∷ tids) =
    ground
      (arith, length-grab-le (update free tid false) room tids, length-grab-le free (suc room) tids)

-- Only free workers of the queue are picked, and each once.
pub grab_sound :
    (free : ℕ → Bool) (room : ℕ) (tids : List ℕ) (j : ℕ)
    → 0 < count j (grab free room tids)
    → (free j ≡ true) × (count j (grab free room tids) ≡ 1) × (0 < count j tids)
unfolding grab
grab_sound free zero tids j h = absurd (omega arith)
grab_sound free (suc room) [] j h = absurd (omega arith)
grab_sound free (suc room) (tid ∷ tids) j h =
    ground
      (arith, grab_sound (update free tid false) room tids j, grab_sound free (suc room) tids j)

-- Where room is left, every free worker of the queue is picked.
pub grab_complete :
    (free : ℕ → Bool) (room : ℕ) (tids : List ℕ) (j : ℕ)
    → length (grab free room tids) < room
    → free j ≡ true
    → 0 < count j tids
    → 0 < count j (grab free room tids)
unfolding grab
grab_complete free zero tids j h e m = absurd (omega arith)
grab_complete free (suc room) [] j h e m = absurd (omega arith)
grab_complete free (suc room) (tid ∷ tids) j h e m =
    ground (
      arith,
      grab_complete (update free tid false) room tids j,
      grab_complete free (suc room) tids j,
    )

-- An array with a list written into it from an index on.
pub write : List ℕ → ℕ → List ℕ → List ℕ
write out i [] = out
write out i (x ∷ xs) = write (set out i x) (i + 1) xs

pub write-nil : (out : List ℕ) (i : ℕ) → write out i [] ≡ out
unfolding write
write-nil out i = refl

pub write-cons :
    (out : List ℕ) (i x : ℕ) (xs : List ℕ) → write out i (x ∷ xs) ≡ write (set out i x) (i + 1) xs
unfolding write
write-cons out i x xs = refl

pub length-write : (out : List ℕ) (i : ℕ) (xs : List ℕ) → length (write out i xs) ≡ length out
unfolding write
length-write out i [] = refl
length-write out i (x ∷ xs) =
    ground (arith, length-write (set out i x) (i + 1) xs, length-set out i x)

write-before :
    (out : List ℕ) (i j : ℕ) (xs : List ℕ)
    → i + length xs ≤ length out
    → j < i
    → get_elem? (write out i xs) j ≡ get_elem? out j
unfolding write
write-before out i j [] room h = refl
write-before out i j (x ∷ xs) room h =
    ground
      (arith, write-before (set out i x) (i + 1) j xs, length-set out i x, get_elem?-set out i j x)

-- What was written stands at its index.
pub get_elem?-write :
    (out : List ℕ) (i j : ℕ) (xs : List ℕ)
    → i + length xs ≤ length out
    → j < length xs
    → get_elem? (write out i xs) (i + j) ≡ get_elem? xs j
unfolding write
get_elem?-write out i j [] room h = absurd (omega arith)
get_elem?-write out i zero (x ∷ xs) room h = ground (
  arith,
  write-before (set out i x) (i + 1) (i + 0) xs,
  length-set out i x,
  get_elem?-set out i (i + 0) x,
)
get_elem?-write out i (suc j) (x ∷ xs) room h =
    let e : i + suc j ≡ (i + 1) + j = omega arith in
    rw e
      (get_elem?-write (set out i x) (i + 1) j xs (omega (arith, length-set out i x)) (omega arith))
