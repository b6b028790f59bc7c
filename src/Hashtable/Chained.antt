-- ===== src/Hashtable/Chained.antt =====
-- A table that keeps the promises of the interface: eight buckets by the key's remainder, and the
-- nodes of each, newest first. It shows that the interface can be met, and runs the tests.
use aosv_project.Base.{
  ℕ, zero, suc, ◌+◌, ◌%◌, ◌≤◌, ◌<◌, ◌≡◌, refl, sym, ap, List, [], ◌∷◌, ◌++◌, arith, ltb, count,
  remove, ◌==◌, if◌then◌else◌,
}
use aosv_project.Hashtable.{Hashtable}

-- Keys and what the nodes hold, newest first.
abbrev Nodes : Type 0
Nodes = List (ℕ × ℕ)

abbrev slot : ℕ → ℕ
slot k = k % 8

abbrev in_slot : Nodes → ℕ → List ℕ
in_slot [] b = []
in_slot ((k, v) ∷ t) b = let rest = in_slot t b in if slot k == b then v ∷ rest else rest

abbrev drop_node : ℕ → Nodes → Nodes
drop_node v [] = []
drop_node v ((k, w) ∷ t) = let rest = drop_node v t in if v == w then rest else (k, w) ∷ rest

abbrev all_slots : Nodes → ℕ → List ℕ
all_slots t zero = []
all_slots t (suc b) = all_slots t b ++ in_slot t b

count-append : (xs ys : List ℕ) (v : ℕ) → count v xs + count v ys ≡ count v (xs ++ ys)
count-append [] ys v = ground arith
count-append (x ∷ xs) ys v = ground (arith, count-append xs ys v)

remove-append : (a : ℕ) (xs ys : List ℕ) → remove a (xs ++ ys) ≡ remove a xs ++ remove a ys
remove-append a [] ys = refl
remove-append a (x ∷ xs) ys = ground (arith, remove-append a xs ys)

pub in_slot-drop_node :
    (v : ℕ) (t : Nodes) (b : ℕ) → in_slot (drop_node v t) b ≡ remove v (in_slot t b)
in_slot-drop_node v [] b = refl
in_slot-drop_node v ((k, w) ∷ t) b = ground (arith, in_slot-drop_node v t b)

pub all_slots-drop_node :
    (v : ℕ) (t : Nodes) (b : ℕ) → all_slots (drop_node v t) b ≡ remove v (all_slots t b)
all_slots-drop_node v t zero = refl
all_slots-drop_node v t (suc b) =
    rw (all_slots-drop_node v t b, in_slot-drop_node v t b)
      (sym (remove-append v (all_slots t b) (in_slot t b)))

count-all_slots-add :
    (k v : ℕ) (t : Nodes) (a b : ℕ)
    → count a (all_slots ((k, v) ∷ t) b)
      ≡ (if ltb (slot k) b then (if a == v then 1 else 0) else 0) + count a (all_slots t b)
count-all_slots-add k v t a zero = ground arith
count-all_slots-add k v t a (suc b) =
    rw
      (
        ← count-append (all_slots ((k, v) ∷ t) b) (in_slot ((k, v) ∷ t) b) a,
        ← count-append (all_slots t b) (in_slot t b) a,
      )
      (ground (arith, count-all_slots-add k v t a b))

pub count-nodes :
    (k v : ℕ) (t : Nodes) (a : ℕ)
    → count a (all_slots ((k, v) ∷ t) 8) ≡ (if a == v then 1 else 0) + count a (all_slots t 8)
count-nodes k v t a = ground (arith, count-all_slots-add k v t a 8)

in_slot-le-all_slots :
    (t : Nodes) (b n a : ℕ) → b < n → count a (in_slot t b) ≤ count a (all_slots t n)
in_slot-le-all_slots t b zero a h = absurd (omega arith)
in_slot-le-all_slots t b (suc n) a h =
    rw (← count-append (all_slots t n) (in_slot t n) a)
      (ground (arith, in_slot-le-all_slots t b n a))

pub possible-le : (t : Nodes) (k a : ℕ) → count a (in_slot t (slot k)) ≤ count a (all_slots t 8)
possible-le t k a = in_slot-le-all_slots t (slot k) 8 a (omega arith)

instance abbrev pub chained : Hashtable
chained = record {
  Table = Nodes;
  bucket = slot;
  init = [];
  add = λ k v t. (k, v) ∷ t;
  del = drop_node;
  possible = λ t k. in_slot t (slot k);
  nodes = λ t. all_slots t 8;
  possible-init = λ k. refl;
  possible-add = λ k v t j. refl;
  possible-del = λ v t j. in_slot-drop_node v t (slot j);
  possible-bucket = λ t j k e. ap (in_slot t) e;
  nodes-init = refl;
  count-nodes-add = count-nodes;
  nodes-del = λ v t. all_slots-drop_node v t 8;
  possible-le-nodes = possible-le;
}
