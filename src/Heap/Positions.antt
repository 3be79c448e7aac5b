-- ===== src/Heap/Positions.antt =====
-- Heap.h: the positions that the nodes keep.
use native.Mathlib.Decide.{ℕ_discrete}
use pxc_core.Prelude.{
  ℕ, zero, suc, ◌<◌, ◌==◌, ltb, ◌≡◌, ◌≢◌, ap, sym, ◌∙◌, none, some, List, length, set, arith,
  length-set, Bool-cases, inl, inr,
}
use pxc_core.Heap.{
  Item, KHeap, item_at, parent, write, fix_up_loop, fix_up, next_pos, fix_down_loop, fix_down,
}
use pxc_core.Heap.Arrays.{item_at-set}
use pxc_core.Heap.Least.{next_pos-inside}

abbrev pub node_at : List Item → ℕ → ℕ
node_at xs i = (item_at xs i).node

-- The nodes of the items are where they say, and no other node says to be anywhere.
pub record Placed (h : KHeap) : Type 0 where
  pub kept : (i : ℕ) → i < length h.items → h.pos (node_at h.items i) ≡ some i
  pub known : (n p : ℕ) → h.pos n ≡ some p → (p < length h.items) × (node_at h.items p ≡ n)

-- The same while a loop holds an item for the hole at `p`.
pub record Hole (h : KHeap) (p : ℕ) (item : Item) : Type 0 where
  pub inside : p < length h.items
  pub kept : (i : ℕ) → i < length h.items → i ≢ p → h.pos (node_at h.items i) ≡ some i
  pub absent : (i : ℕ) → i < length h.items → i ≢ p → node_at h.items i ≢ item.node
  pub known :
      (n q : ℕ)
      → n ≢ item.node
      → h.pos n ≡ some q
      → (q < length h.items) × (q ≢ p) × (node_at h.items q ≡ n)

pub Hole-of : (h : KHeap) (p : ℕ) → Placed h → p < length h.items → Hole h p (item_at h.items p)
Hole-of h p v inside = record {
  inside = inside;
  kept = λ i a b. v.kept i a;
  absent = λ i a b same. b (ground (arith, v.kept i a, v.kept p inside, same));
  known = λ n q a e. (
    (v.known n q e).0,
    λ same. a (sym (ap (node_at h.items) (sym same) ∙ (v.known n q e).1)),
    (v.known n q e).1,
  );
}

-- Writing the item into the hole.
write-Placed : (h : KHeap) (p : ℕ) (item : Item) → Hole h p item → Placed (write h p item)
unfolding write
write-Placed h p item v =
    let inside : p < length h.items = v.inside in
    let at = λ (k : ℕ). item_at-set h.items p k item inside in
    record {
      kept = λ i a. elim (ℕ_discrete i p) [
        | yes e ↦ ground (arith, at i, e)
        | no e ↦ ground (
          arith,
          at i,
          e,
          v.kept i (omega (arith, length-set h.items p item)),
          v.absent i (omega (arith, length-set h.items p item)),
        )
      ];
      known = λ n q e. elim (ℕ_discrete n item.node) [
        | yes s ↦ (ground (arith, e, s, length-set h.items p item), ground (arith, e, s, at q))
        | no s ↦
            let old : h.pos n ≡ some q = ground (arith, e, s) in
            (
              omega (arith, length-set h.items p item, (v.known n q s old).0),
              ground (arith, at q, (v.known n q s old).1, (v.known n q s old).2),
            )
      ];
    }

-- Writing the item at `q` into the hole, so that the hole is at `q`.
write-Hole :
    (h : KHeap) (p q : ℕ) (item : Item)
    → Hole h p item
    → q < length h.items
    → q ≢ p
    → Hole (write h p (item_at h.items q)) q item
unfolding write
write-Hole h p q item v hq apart =
    let inside : p < length h.items = v.inside in
    let up : Item = item_at h.items q in
    let n : length (set h.items p up) ≡ length h.items = length-set h.items p up in
    let at = λ (k : ℕ). item_at-set h.items p k up inside in
    record {
      inside = omega arith;
      kept = λ i a b. elim (ℕ_discrete i p) [
        | yes e ↦ ground (arith, at i, e)
        | no e ↦ ground (arith, at i, e, v.kept i (omega arith), v.kept q hq)
      ];
      absent = λ i a b. elim (ℕ_discrete i p) [
        | yes e ↦ λ same. v.absent q hq apart (ground (arith, at i, e, same))
        | no e ↦ λ same. v.absent i (omega arith) e (ground (arith, at i, e, same))
      ];
      known = λ m r a e. elim (ℕ_discrete m up.node) [
        | yes s ↦ (ground (arith, e, s), ground (arith, e, s, apart), ground (arith, e, s, at r))
        | no s ↦
            let old : h.pos m ≡ some r = ground (arith, e, s) in
            let (lt, ne, node) = v.known m r a old in
            (
              omega arith,
              λ same. s (sym (ap (node_at h.items) (sym same) ∙ node)),
              ground (arith, at r, ne, node),
            )
      ];
    }

-- What a loop that holds `item` does to the positions: those outside stay outside.
pub record Settles (h : KHeap) (item : Item) (r : KHeap) : Type 0 where
  pub placed : Placed r
  pub outside : (n : ℕ) → h.pos n ≡ none → n ≢ item.node → r.pos n ≡ none

write-Settles : (h : KHeap) (p : ℕ) (item : Item) → Hole h p item → Settles h item (write h p item)
unfolding write
write-Settles h p item v = record {
  placed = write-Placed h p item v;
  outside = λ n e a. ground (arith, e, a);
}

-- One round of a loop, which fills the hole from `q`.
round-Settles :
    (h : KHeap) (p q : ℕ) (item : Item) (r : KHeap)
    → Hole h p item
    → q < length h.items
    → q ≢ p
    → Settles (write h p (item_at h.items q)) item r
    → Settles h item r
unfolding write
round-Settles h p q item r v hq apart s = record {
  placed = s.placed;
  outside = λ n e a. s.outside n (ground (arith, e, v.kept q hq apart)) a;
}

fix_up_loop-Settles :
    (fuel : ℕ) (item : Item) (h : KHeap) (p : ℕ)
    → Hole h p item
    → Settles h item (fix_up_loop fuel item h p)
unfolding fix_up_loop
fix_up_loop-Settles zero item h p v = write-Settles h p item v
fix_up_loop-Settles (suc fuel) item h p v = elim (Bool-cases (p == 0)) [
  | inl e ↦ rw e (write-Settles h p item v)
  | inr e ↦
      let up : Item = item_at h.items (parent p) in
      let pos : 0 < p = ground (arith, e) in
      let inside : p < length h.items = v.inside in
      let hq : parent p < length h.items = omega arith in
      let apart : parent p ≢ p = λ z. omega arith in
      rw e (elim (Bool-cases (ltb up.key item.key)) [
        | inl t ↦ rw t (write-Settles h p item v)
        | inr t ↦ rw t (
            round-Settles h p (parent p) item _ v hq apart (
              fix_up_loop-Settles fuel item (write h p up) (parent p)
                (write-Hole h p (parent p) item v hq apart)))
      ])
]

fix_down_loop-Settles :
    (fuel : ℕ) (item : Item) (h : KHeap) (p : ℕ)
    → Hole h p item
    → Settles h item (fix_down_loop fuel item h p)
unfolding fix_down_loop
fix_down_loop-Settles zero item h p v = write-Settles h p item v
fix_down_loop-Settles (suc fuel) item h p v =
    let m : ℕ = next_pos h.items p item.key in
    elim (Bool-cases (m == p)) [
      | inl e ↦ rw e (write-Settles h p item v)
      | inr e ↦
          let apart : m ≢ p = ground (arith, e) in
          let hm : m < length h.items = next_pos-inside h.items p item v.inside apart in
          rw e (
            round-Settles h p m item _ v hm apart (
              fix_down_loop-Settles fuel item (write h p (item_at h.items m)) m
                (write-Hole h p m item v hm apart)))
    ]

pub fix_up-Settles :
    (h : KHeap) (p : ℕ) → Hole h p (item_at h.items p) → Settles h (item_at h.items p) (fix_up h p)
unfolding fix_up
fix_up-Settles h p v = fix_up_loop-Settles p (item_at h.items p) h p v

pub fix_down-Settles :
    (h : KHeap) (p : ℕ)
    → Hole h p (item_at h.items p)
    → Settles h (item_at h.items p) (fix_down h p)
unfolding fix_down
fix_down-Settles h p v = fix_down_loop-Settles (length h.items) (item_at h.items p) h p v
