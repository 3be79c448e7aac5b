-- ===== src/FlatHash/Circle.antt =====
-- FlatHashTable.h: buckets in a circle.
use native.Mathlib.Decide.{ℕ_discrete}
use native.Mathlib.Nat.{mod-eq_of_lt, mod_self, mod-lt}
use pxc_core.Prelude.{
  ℕ, ◌+◌, ◌-◌, ◌%◌, ◌≤◌, ◌<◌, ◌==◌, ltb, leb, ◌≡◌, ◌≢◌, ap, if◌then◌else◌, Bool, true, false, ◌&&◌,
  ◌||◌, arith, ◌⊎◌, Bool-cases, inl, inr,
}
use pxc_core.FlatHash.{next_bucket, calc_bucket}

-- `j` is met on the way from `h` to `i`.
abbrev pub between : ℕ → ℕ → ℕ → Bool
between h i j = if leb h i then leb h j && ltb j i else leb h j || ltb j i

pub next_bucket_lem :
    (mask b : ℕ) → b ≤ mask → next_bucket mask b ≡ (if b == mask then 0 else b + 1)
next_bucket_lem mask b h = elim (ℕ_discrete b mask) [
  | yes e ↦ ground (arith, e, ap (λ k. (k + 1) % (mask + 1)) e, mod_self (mask + 1))
  | no e ↦ ground (arith, e, mod-eq_of_lt {n = b + 1} {m = mask + 1} (omega arith))
]

pub calc_bucket-le : (hash : ℕ → ℕ) (mask key : ℕ) → calc_bucket hash mask key ≤ mask
calc_bucket-le hash mask key = let h = mod-lt (hash key) {m = mask + 1} (omega arith) in omega arith

pub between_cases : (h i j : ℕ) → i ≢ j → (between h i j ≡ true) ⊎ (between h j i ≡ true)
between_cases h i j apart = elim (Bool-cases (between h i j)) [
  | inl e ↦ inl e
  | inr e ↦ inr (ground (arith, e))
]

-- One bucket further, `i` itself is met too.
pub between-next :
    (mask h i j : ℕ)
    → h ≤ mask
    → i ≤ mask
    → j ≤ mask
    → between h (if i == mask then 0 else i + 1) j ≡ true
    → j ≢ i
    → between h i j ≡ true
between-next mask h i j a b c e apart = ground (arith, e)

-- The steps from `b` to `v`.
abbrev pub distance : ℕ → ℕ → ℕ → ℕ
distance mask b v = if leb b v then v - b else mask + 1 - b + v

pub distance-next :
    (mask b v : ℕ)
    → b ≤ mask
    → v ≤ mask
    → b ≢ v
    → distance mask (if b == mask then 0 else b + 1) v + 1 ≡ distance mask b v
distance-next mask b v p q apart = ground arith

-- The way to `i` goes on from `hole` to `j`.
pub between_join :
    (h i hole j : ℕ) → between h i hole ≡ true → between h hole j ≡ true → between h i j ≡ true
between_join h i hole j p q = ground (arith, p, q)

-- `test` stands after `hole` and before `i`.
pub between_over :
    (h i hole test : ℕ)
    → between h i hole ≡ true
    → between hole test i ≡ false
    → i ≢ hole
    → i ≢ test
    → test ≢ hole
    → between h i test ≡ true
between_over h i hole test p q a b c = ground (arith, p, q)

pub between-suc :
    (hole test j : ℕ) → between hole (test + 1) j ≡ true → j ≢ test → between hole test j ≡ true
between-suc hole test j p apart = ground (arith, p)

-- The end of the array is its start.
pub between-end :
    (mask hole j : ℕ) → j ≤ mask → between hole 0 j ≡ true → between hole (mask + 1) j ≡ true
between-end mask hole j inside p = ground (arith, p)

-- The test of `erase_node` up to the end of the array, and behind it.
pub tail-between :
    (want test hole : ℕ) → hole < test → (leb want hole || ltb test want) ≡ between want test hole
tail-between want test hole h = ground arith

abbrev pub wanted : ℕ → ℕ → ℕ → ℕ
wanted mask want empty_i = if ltb want empty_i then want + (mask + 1) else want

pub wrapped-between :
    (mask want test hole : ℕ)
    → want ≤ mask
    → test < hole
    → hole ≤ mask
    → (leb (wanted mask want hole) hole || ltb (test + (mask + 1)) (wanted mask want hole))
      ≡ between want test hole
wrapped-between mask want test hole a b c = ground arith

pub wrapped-between_moved :
    (mask want test hole : ℕ)
    → want ≤ mask
    → hole < test
    → (leb (wanted mask want (hole + (mask + 1))) (hole + (mask + 1))
        || ltb (test + (mask + 1)) (wanted mask want (hole + (mask + 1))))
      ≡ between want test hole
wrapped-between_moved mask want test hole a b = ground arith
