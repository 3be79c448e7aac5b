-- ===== src/Heap/Erase.antt =====
-- Heap.h: `erase` and `pop`.
use mathlib.Core.List.{Perm}
use mathlib.Core.List.Perm
use pxc_core.Prelude.{
  ℕ, ◌+◌, ◌-◌, ◌≤◌, ◌<◌, ◌==◌, ltb, ◌≡◌, ◌≢◌, refl, ap, sym, subst, ◌∙◌, if◌then◌else◌, true, false,
  none, some, List, ◌∷◌, length, set, take, arith, length-set, length-take, Bool-cases, inl, inr,
}
use pxc_core.Heap.{
  Item, KHeap, item_at, parent, place, fix_up, fix_down, erase_at, pop, erase, size,
}
use pxc_core.Heap.Arrays.{item_at-set, item_at-take, set-perm, take_last-perm}
use pxc_core.Heap.Order.{key, IsHeap, UpInv, key-least}
use pxc_core.Heap.Up.{fix_up-Sorted}
use pxc_core.Heap.Down.{fix_down-UpInv}
use pxc_core.Heap.Positions.{
  node_at, Placed, Hole, Hole-of, Settles, fix_up-Settles, fix_down-Settles,
}
use pxc_core.Heap.Calls.{IsValid}

-- The array of `erase_at` before its loops: the last item in place of the one at `p`.
abbrev closed : List Item → ℕ → List Item
closed xs p = take (length xs - 1) (set xs p (item_at xs (length xs - 1)))

length-closed : (xs : List Item) (p : ℕ) → length (closed xs p) ≡ length xs - 1
length-closed xs p =
    let z : Item = item_at xs (length xs - 1) in
    omega (arith, length-take (length xs - 1) (set xs p z), length-set xs p z)

item_at-closed :
    (xs : List Item) (p i : ℕ)
    → p < length xs
    → i < length xs - 1
    → item_at (closed xs p) i ≡ (if i == p then item_at xs (length xs - 1) else item_at xs i)
item_at-closed xs p i inside h =
    let z : Item = item_at xs (length xs - 1) in
    item_at-take (length xs - 1) (set xs p z) i h ∙ item_at-set xs p i z inside

closed-perm : (xs : List Item) (p : ℕ) → p < length xs → Perm (item_at xs p ∷ closed xs p) xs
closed-perm xs p inside =
    let n : ℕ = length xs - 1 in
    let z : Item = item_at xs n in
    let ys : List Item = set xs p z in
    let len : length ys ≡ length xs = length-set xs p z in
    let last : item_at ys (length ys - 1) ≡ z =
      rw len (ground (arith, item_at-set xs p n z inside)) in
    let rest : Perm (z ∷ closed xs p) ys =
      subst (λ y. Perm (y ∷ closed xs p) ys) last
        (subst (λ k. Perm (item_at ys (length ys - 1) ∷ take (k - 1) ys) ys) len
          (take_last-perm ys (omega arith))) in
    Perm.cons_inv (
      Perm.trans (Perm.swap (item_at xs p) z (closed xs p))
        (Perm.trans (Perm.cons (item_at xs p) rest) (set-perm xs p z inside)))

-- The node of the item at `p` after `remove`.
abbrev removed : KHeap → ℕ → KHeap
removed h p = record h { pos = place h.pos (node_at h.items p) none }

removed-pos :
    (h : KHeap) (p i : ℕ)
    → Placed h
    → p < length h.items
    → i < length h.items
    → i ≢ p
    → node_at h.items i ≢ node_at h.items p
removed-pos h p i v a b apart same = apart (ground (arith, v.kept i b, v.kept p a, same))

closed-Hole :
    (h : KHeap) (p : ℕ)
    → Placed h
    → p < length h.items - 1
    → Hole
        (record (removed h p) { items = closed h.items p })
        p
        (item_at h.items (length h.items - 1))
closed-Hole h p v inside =
    let xs : List Item = h.items in
    let n : ℕ = length xs - 1 in
    let len : length (closed xs p) ≡ n = length-closed xs p in
    let hp : p < length xs = omega arith in
    let hn : n < length xs = omega arith in
    let at : (i : ℕ) → i < n → i ≢ p → node_at (closed xs p) i ≡ node_at xs i =
      λ i a b. ground (arith, item_at-closed xs p i hp a) in
    record {
      inside = omega arith;
      kept = λ i a b. ground (arith, at i, v.kept i, len, removed-pos h p i v hp (omega arith) b);
      absent = λ i a b same. ground (arith, at i, same, len, v.kept i, v.kept n);
      known = λ m q a e.
          let apart : m ≢ node_at xs p = λ s. ground (arith, e, s) in
          let old : h.pos m ≡ some q = ground (arith, e, apart) in
          let (lt, name) = v.known m q old in
          let here : q ≢ p = λ s. apart (sym name ∙ ap (node_at xs) s) in
          let end : q ≢ n = λ s. a (sym name ∙ ap (node_at xs) s) in
          (omega arith, here, ground (arith, at q, name));
    }

closed-UpInv :
    (h : KHeap) (p : ℕ)
    → IsHeap h.items
    → p < length h.items - 1
    → UpInv (fix_down (record (removed h p) { items = closed h.items p }) p).items p
      × Perm
          (fix_down (record (removed h p) { items = closed h.items p }) p).items
          (closed h.items p)
closed-UpInv h p v inside =
    let xs : List Item = h.items in
    let len : length (closed xs p) ≡ length xs - 1 = length-closed xs p in
    let at = λ (i : ℕ). item_at-closed xs p i (omega arith) in
    fix_down-UpInv (record (removed h p) { items = closed xs p }) p (omega arith)
      (λ c a b d e. ground (arith, len, at c, at (parent c), v c))
      (λ c a b d e. ground (arith, len, at c, at (parent p), v c, v p))

-- When the last item goes, the others stay where they are.
shorter-IsValid :
    (h : KHeap) (p : ℕ)
    → IsValid h
    → p < length h.items
    → length h.items ≤ p + 1
    → IsValid (record (removed h p) { items = closed h.items p })
shorter-IsValid h p v inside last =
    let xs : List Item = h.items in
    let len : length (closed xs p) ≡ length xs - 1 = length-closed xs p in
    let at : (i : ℕ) → i < length xs - 1 → item_at (closed xs p) i ≡ item_at xs i =
      λ i a. ground (arith, item_at-closed xs p i inside a) in
    record {
      ordered = λ c a b. ground (arith, at c, at (parent c), len, v.ordered c);
      placed = record {
        kept = λ i a. ground (arith, at i, len, v.placed.kept i, removed-pos h p i v.placed inside);
        known = λ m q e.
            let apart : m ≢ node_at xs p = λ s. ground (arith, e, s) in
            let old : h.pos m ≡ some q = ground (arith, e, apart) in
            let (lt, name) = v.placed.known m q old in
            let here : q ≢ p = λ s. apart (sym name ∙ ap (node_at xs) s) in
            (omega arith, ground (arith, at q, name));
      };
    }

-- What `erase_at` promises once the node at `p` is removed.
record Erased (h : KHeap) (p : ℕ) (r : KHeap) : Type 0 where
  valid : IsValid r
  others : Perm (item_at h.items p ∷ r.items) h.items
  gone : r.pos (node_at h.items p) ≡ none

erase_at-Erased :
    (h : KHeap) (p : ℕ) → IsValid h → p < length h.items → Erased h p (erase_at (removed h p) p)
unfolding erase_at
erase_at-Erased h p v inside =
    let xs : List Item = h.items in
    let node : ℕ = node_at xs p in
    let rest : KHeap = record (removed h p) { items = closed xs p } in
    let out : rest.pos node ≡ none = ground arith in
    let len : length (closed xs p) ≡ length xs - 1 = length-closed xs p in
    elim (Bool-cases (ltb p (length (closed xs p)))) [
      | inr t ↦ rw t (record {
        valid = shorter-IsValid h p v inside (ground (arith, t, len));
        others = closed-perm xs p inside;
        gone = out;
      })
      | inl t ↦
          let lt : p < length xs - 1 = ground (arith, t, len) in
          let z : Item = item_at xs (length xs - 1) in
          let at : item_at (closed xs p) p ≡ z = ground (arith, item_at-closed xs p p inside lt) in
          let down : KHeap = fix_down rest p in
          let (up, same) = closed-UpInv h p v.ordered lt in
          let settled : Settles rest z down =
            subst (λ y. Settles rest y down) at
              (fix_down-Settles rest p
                (subst (λ y. Hole rest p y) (sym at) (closed-Hole h p v.placed lt))) in
          let apart : node ≢ z.node = λ s.
            removed-pos h p (length xs - 1) v.placed inside (omega arith) (λ e. omega arith)
              (sym s) in
          let out' : down.pos node ≡ none = settled.outside node out apart in
          let (ordered, same') = fix_up-Sorted down p up in
          let last : Settles down (item_at down.items p) (fix_up down p) =
            fix_up-Settles down p (Hole-of down p settled.placed up.inside) in
          rw t (record {
            valid = record { ordered = ordered; placed = last.placed };
            others =
                Perm.trans (Perm.cons (item_at xs p) (Perm.trans same' same))
                  (closed-perm xs p inside);
            gone =
                last.outside node out'
                  (λ s. ground (arith, settled.placed.kept p up.inside, s, out'));
          })
    ]

-- `pop` of a heap that is not empty: the node of an item with a least key.
pub pop-IsValid :
    (h : KHeap) (i : ℕ)
    → IsValid h
    → i < size h
    → (r : KHeap) × (pop h ≡ some (node_at h.items 0, r))
      × IsValid r
      × Perm (item_at h.items 0 ∷ r.items) h.items
      × (r.pos (node_at h.items 0) ≡ none)
      × (key h.items 0 ≤ key h.items i)
unfolding pop
pop-IsValid h i v inside =
    let e = erase_at-Erased h 0 v (omega arith) in
    let filled : (length h.items == 0) ≡ false = ground arith in
    (
      erase_at (removed h 0) 0,
      rw (pop, filled) refl,
      e.valid,
      e.others,
      e.gone,
      key-least h.items i v.ordered inside,
    )

-- `erase` of a node inside takes its item out and keeps the heap valid.
pub erase-IsValid :
    (h : KHeap) (node p : ℕ)
    → IsValid h
    → h.pos node ≡ some p
    → (r : KHeap) × (erase h node ≡ some r)
      × IsValid r
      × Perm (item_at h.items p ∷ r.items) h.items
      × (r.pos node ≡ none)
unfolding erase
erase-IsValid h node p v found =
    let (inside, name) = v.placed.known node p found in
    let e = erase_at-Erased h p v inside in
    let test : ltb p (length h.items) ≡ true = ground arith in
    (
      erase_at (removed h p) p,
      rw (erase, found, test, sym name) refl,
      e.valid,
      e.others,
      sym (ap (erase_at (removed h p) p).pos name) ∙ e.gone,
    )
