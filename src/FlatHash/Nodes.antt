-- ===== src/FlatHash/Nodes.antt =====
-- FlatHashTable.h: the array of nodes, its writes and the number of its entries.
use pxc_core.Prelude.{
  ℕ, zero, suc, ◌+◌, ◌<◌, ◌==◌, ◌≡◌, refl, if◌then◌else◌, Option, none, some, [], ◌∷◌, length, set,
  replicate, arith,
}
use pxc_core.FlatHash.{Entry, Nodes, node_at}

module _ {V : Type 0} where
  pub node_at-set :
      (nodes : Nodes V) (i j : ℕ) (e : Option (Entry V))
      → i < length nodes
      → node_at (set nodes i e) j ≡ (if j == i then e else node_at nodes j)
  node_at-set [] i j e h = absurd (omega arith)
  node_at-set (x ∷ nodes) zero zero e h = refl
  node_at-set (x ∷ nodes) zero (suc j) e h = ground arith
  node_at-set (x ∷ nodes) (suc i) zero e h = ground arith
  node_at-set (x ∷ nodes) (suc i) (suc j) e h =
      ground (arith, node_at-set nodes i j e (omega arith))

  pub node_at-lt :
      (nodes : Nodes V) (i : ℕ) (e : Entry V) → node_at nodes i ≡ some e → i < length nodes
  node_at-lt [] i e h = cc
  node_at-lt (x ∷ nodes) zero e h = omega arith
  node_at-lt (x ∷ nodes) (suc i) e h = omega (arith, node_at-lt nodes i e h)

  -- The number of entries.
  unfoldable pub occupied : Nodes V → ℕ
  occupied [] = 0
  occupied (none ∷ nodes) = occupied nodes
  occupied (some e ∷ nodes) = suc (occupied nodes)

  pub occupied-fill :
      (nodes : Nodes V) (i : ℕ) (e : Entry V)
      → i < length nodes
      → node_at nodes i ≡ none
      → occupied (set nodes i (some e)) ≡ occupied nodes + 1
  unfolding occupied
  occupied-fill [] i e h v = absurd (omega arith)
  occupied-fill (none ∷ nodes) zero e h v = omega arith
  occupied-fill (some x ∷ nodes) zero e h v = cc
  occupied-fill (none ∷ nodes) (suc i) e h v = occupied-fill nodes i e (omega arith) v
  occupied-fill (some x ∷ nodes) (suc i) e h v =
      omega (arith, occupied-fill nodes i e (omega arith) v)

  pub occupied-clear :
      (nodes : Nodes V) (i : ℕ) (e : Entry V)
      → node_at nodes i ≡ some e
      → occupied (set nodes i none) + 1 ≡ occupied nodes
  unfolding occupied
  occupied-clear [] i e v = cc
  occupied-clear (none ∷ nodes) zero e v = cc
  occupied-clear (some x ∷ nodes) zero e v = omega arith
  occupied-clear (none ∷ nodes) (suc i) e v = occupied-clear nodes i e v
  occupied-clear (some x ∷ nodes) (suc i) e v = omega (arith, occupied-clear nodes i e v)

  -- An array that is not full has an empty node.
  pub vacancy :
      (nodes : Nodes V)
      → occupied nodes < length nodes
      → (v : ℕ) × (v < length nodes) × (node_at nodes v ≡ none)
  unfolding occupied
  vacancy [] h = absurd (omega arith)
  vacancy (none ∷ nodes) h = (0, omega arith, refl)
  vacancy (some x ∷ nodes) h =
      let (v, lt, e) = vacancy nodes (omega arith) in (suc v, omega arith, e)

pub occupied-replicate : (V : Type 0) (n : ℕ) → occupied {V = V} (replicate n none) ≡ 0
unfolding occupied
occupied-replicate V zero = refl
occupied-replicate V (suc n) = occupied-replicate V n

pub node_at-replicate : (V : Type 0) (n i : ℕ) → node_at {V = V} (replicate n none) i ≡ none
node_at-replicate V zero i = refl
node_at-replicate V (suc n) zero = refl
node_at-replicate V (suc n) (suc i) = node_at-replicate V n i
