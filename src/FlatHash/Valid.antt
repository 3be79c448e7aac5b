-- ===== src/FlatHash/Valid.antt =====
-- FlatHashTable.h: what holds of an array of nodes, and the map that it represents.
use pxc_core.Prelude.{ℕ, ◌+◌, ◌≤◌, ◌==◌, ◌≡◌, ◌≢◌, if◌then◌else◌, true, Option, none, some, length}
use pxc_core.FlatHash.{Entry, Nodes, node_at, calc_bucket}
use pxc_core.FlatHash.Circle.{between}

module _ {V : Type 0} (hash : ℕ → ℕ) where
  -- On the way from the bucket of a key to its node, no node is empty. A key stands once, and is
  -- not the empty one.
  pub record Valid (nodes : Nodes V) (mask : ℕ) : Type 0 where
    pub size : length nodes ≡ mask + 1
    pub reach :
        (i j : ℕ) (e : Entry V)
        → node_at nodes i ≡ some e
        → between (calc_bucket hash mask e.first) i j ≡ true
        → j ≤ mask
        → node_at nodes j ≢ none
    pub unique :
        (i j : ℕ) (e f : Entry V)
        → node_at nodes i ≡ some e
        → node_at nodes j ≡ some f
        → e.first ≡ f.first
        → i ≡ j
    pub named : (i : ℕ) (e : Entry V) → node_at nodes i ≡ some e → e.first ≢ 0

-- The nodes hold exactly what the map `m` gives.
pub record Represents {V : Type 0} (nodes : Nodes V) (m : ℕ → Option V) : Type 0 where
  pub listed : (i : ℕ) (e : Entry V) → node_at nodes i ≡ some e → m e.first ≡ some e.second
  pub held :
      (k : ℕ) (v : V)
      → m k ≡ some v
      → (i : ℕ) × (node_at nodes i ≡ some (record { first = k; second = v }))

-- The map with `k` put in or taken out.
abbrev pub update : {V : Type 0} → (ℕ → Option V) → ℕ → Option V → ℕ → Option V
update m k v j = if j == k then v else m j
