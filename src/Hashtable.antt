-- ===== src/Hashtable.antt =====
-- The kernel's <linux/hashtable.h>, which src/lkm calls: an interface with the behaviour that its
-- documentation promises. A node is known by its key and by the number that it holds: the address
-- of the object around it, or the tid of a `kcompletion_list_elem`.
pub mod Chained
use aosv_project.Base.{ℕ, ◌+◌, ◌≡◌, ◌≤◌, List, [], ◌∷◌, count, remove, ◌==◌, if◌then◌else◌}

pub record Hashtable : Type 1 where
  pub Table : Type 0
  -- `hash_min`: the bucket of a key
  pub bucket : ℕ → ℕ
  -- `hash_init`, or a table that `DEFINE_HASHTABLE` declares
  pub init : Table
  -- `hash_add_rcu`, with the key first
  pub add : ℕ → ℕ → Table → Table
  -- `hash_del`
  pub del : ℕ → Table → Table
  -- what `hash_for_each_possible` visits for a key, in its order
  pub possible : Table → ℕ → List ℕ
  -- what `hash_for_each` visits, in its order
  pub nodes : Table → List ℕ
  pub possible-init : (k : ℕ) → possible init k ≡ []
  -- A new node stands first in its bucket.
  pub possible-add :
      (k v : ℕ) (t : Table) (j : ℕ)
      → possible (add k v t) j ≡ (if bucket k == bucket j then v ∷ possible t j else possible t j)
  pub possible-del : (v : ℕ) (t : Table) (j : ℕ) → possible (del v t) j ≡ remove v (possible t j)
  -- The key tells only the bucket.
  pub possible-bucket : (t : Table) (j k : ℕ) → bucket j ≡ bucket k → possible t j ≡ possible t k
  pub nodes-init : nodes init ≡ []
  pub count-nodes-add :
      (k v : ℕ) (t : Table) (a : ℕ)
      → count a (nodes (add k v t)) ≡ (if a == v then 1 else 0) + count a (nodes t)
  pub nodes-del : (v : ℕ) (t : Table) → nodes (del v t) ≡ remove v (nodes t)
  -- What stands in a bucket stands in the table.
  pub possible-le-nodes : (t : Table) (k a : ℕ) → count a (possible t k) ≤ count a (nodes t)
