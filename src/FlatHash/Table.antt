-- ===== src/FlatHash/Table.antt =====
-- FlatHashTable.h: a whole table, the map that it stands for, and `resize`.
use native.Mathlib.Nat.{pow-succ'}
use pxc_core.Prelude.{
  ℕ, zero, suc, ◌+◌, ◌-◌, ◌*◌, ◌/◌, ◌^◌, ◌≤◌, ◌<◌, ◌==◌, ◌&&◌, ◌%◌, ◌∙◌, leb, max, ◌≡◌, ◌≢◌, refl,
  sym, ap, subst, true, false, Option, none, [], length, replicate, arith, length-replicate,
  Bool-cases, inl, inr, ok,
}
use pxc_core.FlatHash.{
  Nodes, FlatHashTable, bit_length, clear_lowest, normalize_size, resize, allocate_nodes, rehash,
}
use pxc_core.FlatHash.Nodes.{node_at-replicate, occupied, occupied-replicate}
use pxc_core.FlatHash.Valid.{Valid, Represents}
use pxc_core.FlatHash.Rehash.{rehash-Valid, extend-Represents, Fresh}

-- A number of at most `w` bits is below the power of two that follows it, which is at most twice
-- the number.
bit_length_bounds :
    (w x : ℕ) → x < 2 ^ w → (x < 2 ^ bit_length w x) × (2 ^ bit_length w x ≤ max (2 * x) 1)
bit_length_bounds zero x h = omega arith
bit_length_bounds (suc w) x h = elim (Bool-cases (x == 0)) [
  | inl e ↦ ground (arith, e)
  | inr e ↦
      let pos : 0 < x = ground (arith, e) in
      let b : ℕ = bit_length w (x / 2) in
      let (lo, hi) = bit_length_bounds w (x / 2) (omega (arith, pow-succ' 2 w)) in
      let next : (x < 2 ^ suc b) × (2 ^ suc b ≤ max (2 * x) 1) = omega (arith, pow-succ' 2 b) in
      rw e next
]

clear_lowest-pow : (w k : ℕ) → clear_lowest w (2 ^ k) ≡ 0
unfolding clear_lowest
clear_lowest-pow zero k = refl
clear_lowest-pow (suc w) zero = refl
clear_lowest-pow (suc w) (suc k) =
    let twice : 2 ^ suc k ≡ 2 * 2 ^ k = omega (arith, pow-succ' 2 k) in
    let half : 2 ^ suc k / 2 ≡ 2 ^ k = omega (arith, pow-succ' 2 k) in
    let rest : clear_lowest w (2 ^ suc k / 2) ≡ 0 =
      ap (clear_lowest w) half ∙ clear_lowest-pow w k in
    let even : (2 ^ suc k % 2 == 1) ≡ false = ground (arith, twice) in ground (arith, even, rest)

not_zero : (n : ℕ) → n ≢ 0 → (n == 0) ≡ false
not_zero n h = ground arith

-- The checks of `allocate_nodes`.
size_fits :
    (limit size power : ℕ)
    → 8 ≤ size
    → size ≤ limit
    → size ≡ 2 ^ power
    → (leb 8 size && clear_lowest 32 size == 0 && leb size limit) ≡ true
size_fits limit size power eight fits two =
    let single : clear_lowest 32 size ≡ 0 = ap (clear_lowest 32) two ∙ clear_lowest-pow 32 power in
    ground (arith, single, eight, fits)

max_low : (x : ℕ) → leb x 8 ≡ true → max x 8 ≡ 8
max_low x t = ground arith

max_high : (x : ℕ) → leb x 8 ≡ false → max x 8 ≡ x
max_high x t = ground arith

max-power : (b : ℕ) → (k : ℕ) × (max (2 ^ b) 8 ≡ 2 ^ k)
max-power b = elim (Bool-cases (leb (2 ^ b) 8)) [
  | inl t ↦ (3, max_low (2 ^ b) t)
  | inr t ↦ (b, max_high (2 ^ b) t)
]

pub normalize_size_bounds :
    (x : ℕ)
    → 0 < x
    → x < 2 ^ 32
    → (x < normalize_size x)
      × (8 ≤ normalize_size x)
      × (normalize_size x ≤ max (2 * x) 8)
      × ((k : ℕ) × (normalize_size x ≡ 2 ^ k))
unfolding normalize_size
normalize_size_bounds x pos h =
    let (lo, hi) = bit_length_bounds 32 x h in
    let b : ℕ = bit_length 32 x in (omega arith, omega arith, omega arith, max-power b)

module _ {V : Type 0} (hash : ℕ → ℕ) (limit : ℕ) where
  -- An allocated table. Its size is a power of two within the limit, one node at least is empty,
  -- and the nodes represent `m`.
  pub record Allocated (t : FlatHashTable V) (m : ℕ → Option V) : Type 0 where
    pub valid : Valid hash t.nodes t.bucket_count_mask
    pub represents : Represents t.nodes m
    pub buckets : t.bucket_count ≡ t.bucket_count_mask + 1
    pub used : t.used_node_count ≡ occupied t.nodes
    pub room : t.used_node_count ≤ t.bucket_count_mask
    pub eight : 7 ≤ t.bucket_count_mask
    pub bounded : t.bucket_count_mask + 1 ≤ limit
    pub power : ℕ
    pub two : t.bucket_count_mask + 1 ≡ 2 ^ power

  -- A table without nodes.
  pub record Unallocated (t : FlatHashTable V) (m : ℕ → Option V) : Type 0 where
    pub nodes : t.nodes ≡ []
    pub used : t.used_node_count ≡ 0
    pub mask : t.bucket_count_mask ≡ 0
    pub buckets : t.bucket_count ≡ 0
    pub empty : (k : ℕ) → m k ≡ none

  pub data IsTable (t : FlatHashTable V) (m : ℕ → Option V) : Type 0 where
    allocated : Allocated t m → IsTable t m
    unallocated : Unallocated t m → IsTable t m

  allocated-Valid : (mask : ℕ) → Valid {V = V} hash (replicate (mask + 1) none) mask
  allocated-Valid mask = record {
    size = length-replicate (mask + 1) none;
    reach = λ i j e here. absurd (ground (arith, here, node_at-replicate V (mask + 1) i));
    unique = λ i j e f here. absurd (ground (arith, here, node_at-replicate V (mask + 1) i));
    named = λ i e here. absurd (ground (arith, here, node_at-replicate V (mask + 1) i));
  }

  allocated-Represents : (mask : ℕ) → Represents {V = V} (replicate (mask + 1) none) (λ k. none)
  allocated-Represents mask = record {
    listed = λ i e here. absurd (ground (arith, here, node_at-replicate V (mask + 1) i));
    held = λ k v given. cc;
  }

  resized :
      (t : FlatHashTable V) (mask power : ℕ) (r : Nodes V)
      → 7 ≤ mask
      → mask + 1 ≤ limit
      → mask + 1 ≡ 2 ^ power
      → length t.nodes ≢ 0
      → rehash hash t.nodes (replicate (mask + 1) none) mask ≡ ok r
      → resize hash limit (mask + 1) t
        ≡ ok (record t {
          nodes = r;
          bucket_count_mask = mask;
          bucket_count = mask + 1;
          begin_bucket = none;
        })
  unfolding resize allocate_nodes
  resized t mask power r eight fits two filled done =
      let fit = size_fits limit (mask + 1) power (omega arith) fits two in
      let off : mask + 1 - 1 ≡ mask = omega arith in
      let some_nodes : (length t.nodes == 0) ≡ false = not_zero (length t.nodes) filled in
      rw (resize, allocate_nodes, fit, some_nodes, off, done) refl

  -- `resize` of a table with entries that fit keeps the map and their number.
  pub resize-Allocated :
      (t : FlatHashTable V) (m : ℕ → Option V) (mask power : ℕ)
      → Allocated t m
      → 7 ≤ mask
      → mask + 1 ≤ limit
      → t.used_node_count ≤ mask
      → mask + 1 ≡ 2 ^ power
      → (u : FlatHashTable V) × (resize hash limit (mask + 1) t ≡ ok u)
        × Allocated u m
        × (u.used_node_count ≡ t.used_node_count)
        × (u.bucket_count_mask ≡ mask)
  resize-Allocated t m mask power a eight fits room two =
      let size : length t.nodes ≡ t.bucket_count_mask + 1 = a.valid.size in
      let used : t.used_node_count ≡ occupied t.nodes = a.used in
      let none_yet : occupied {V = V} (replicate (mask + 1) none) ≡ 0 =
        occupied-replicate V (mask + 1) in
      let fresh : Fresh t.nodes (λ k. none) = record {
        new = λ i e here. refl;
        unique = a.valid.unique;
        named = a.valid.named;
      } in
      let (r, done, valid, rep, count) =
        rehash-Valid hash t.nodes (replicate (mask + 1) none) (λ k. none) mask
          (allocated-Valid mask) (allocated-Represents mask) fresh (omega arith) in
      (
        record t {
          nodes = r;
          bucket_count_mask = mask;
          bucket_count = mask + 1;
          begin_bucket = none;
        },
        resized t mask power r eight fits two (λ z. omega arith) done,
        record {
          valid = valid;
          represents =
              subst (λ n. Represents r n) (extend-Represents t.nodes m a.represents fresh) rep;
          buckets = refl;
          used = omega arith;
          room = room;
          eight = eight;
          bounded = fits;
          power = power;
          two = two;
        },
        refl,
        refl,
      )

  -- `resize` of a table without nodes.
  pub resize-Unallocated :
      (t : FlatHashTable V) (m : ℕ → Option V) (mask power : ℕ)
      → Unallocated t m
      → 7 ≤ mask
      → mask + 1 ≤ limit
      → mask + 1 ≡ 2 ^ power
      → (u : FlatHashTable V) × (resize hash limit (mask + 1) t ≡ ok u)
        × Allocated u m
        × (u.used_node_count ≡ 0)
        × (u.bucket_count_mask ≡ mask)
  unfolding resize allocate_nodes
  resize-Unallocated t m mask power a eight fits two =
      let fit = size_fits limit (mask + 1) power (omega arith) fits two in
      let no_nodes : (length t.nodes == 0) ≡ true = ground (arith, ap length a.nodes) in
      let none_yet : occupied {V = V} (replicate (mask + 1) none) ≡ 0 =
        occupied-replicate V (mask + 1) in
      (
        record {
          nodes = replicate (mask + 1) none;
          used_node_count = 0;
          bucket_count_mask = mask;
          bucket_count = mask + 1;
          begin_bucket = none;
        },
        (let off : mask + 1 - 1 ≡ mask = omega arith in
            rw (resize, allocate_nodes, fit, no_nodes, off) refl),
        record {
          valid = allocated-Valid mask;
          represents = record {
            listed = λ i e here. absurd (ground (arith, here, node_at-replicate V (mask + 1) i));
            held = λ k v given. absurd (ground (arith, given, a.empty k));
          };
          buckets = refl;
          used = sym none_yet;
          room = omega arith;
          eight = eight;
          bounded = fits;
          power = power;
          two = two;
        },
        refl,
        refl,
      )
