-- ===== src/Heap/Calls.antt =====
-- Heap.h: `insert` and `fix`.
use mathlib.Core.List.{Perm}
use mathlib.Core.List.Perm
use pxc_core.Prelude.{
  ◌^◌, leb, false, ℕ, ◌+◌, ◌-◌, ◌≤◌, ◌<◌, ◌==◌, ltb, ◌≡◌, refl, ap, sym, subst, ◌∙◌, if◌then◌else◌,
  true, none, some, List, [], ◌∷◌, ◌++◌, length, set, arith, length-set, length-append, Bool-cases,
  inl, inr,
}
use pxc_core.Heap.{Item, KHeap, item_at, parent, fix_up, fix_down, insert, fix, in_heap, new_heap}
use pxc_core.Heap.Arrays.{item_at-set, item_at-append, item_at-end, append-perm}
use pxc_core.Heap.Order.{key, IsHeap, UpInv, Sorted}
use pxc_core.Heap.Up.{fix_up-Sorted}
use pxc_core.Heap.Down.{fix_down-Sorted}
use pxc_core.Heap.Positions.{node_at, Placed, Hole, Hole-of, fix_up-Settles, fix_down-Settles}

-- The items are in the order of a heap, and their nodes and no others say where they are.
pub record IsValid (h : KHeap) : Type 0 where
  pub ordered : IsHeap h.items
  pub placed : Placed h

pub new_heap-IsValid : IsValid new_heap
new_heap-IsValid = record {
  ordered = λ c a b. absurd (omega arith);
  placed = record {
    kept = λ i a. absurd (omega arith);
    known = λ n p e. absurd (ground (arith, e));
  };
}

added-UpInv : (xs : List Item) (x : Item) → IsHeap xs → UpInv (xs ++ x ∷ []) (length xs)
added-UpInv xs x v =
    let n : length (xs ++ x ∷ []) ≡ length xs + 1 = length-append xs (x ∷ []) in
    record {
      inside = omega arith;
      edges =
          λ c a b d. ground (arith, v c a, item_at-append xs x c, item_at-append xs x (parent c));
      bridged = λ c a b d e. absurd (omega arith);
    }

added-Hole :
    (h : KHeap) (x : Item)
    → Placed h
    → h.pos x.node ≡ none
    → Hole (record h { items = h.items ++ x ∷ [] }) (length h.items) x
added-Hole h x v out =
    let xs : List Item = h.items in
    let n : length (xs ++ x ∷ []) ≡ length xs + 1 = length-append xs (x ∷ []) in
    record {
      inside = omega arith;
      kept = λ i a b. ground (arith, item_at-append xs x i, v.kept i);
      absent = λ i a b same. ground (arith, item_at-append xs x i, v.kept i, same, out);
      known = λ m q a e. (
        omega (arith, (v.known m q e).0),
        omega (arith, (v.known m q e).0),
        ground (arith, item_at-append xs x q, v.known m q e),
      );
    }

-- `insert` of a node that is outside adds the item and keeps the heap valid.
pub insert-IsValid :
    (h : KHeap) (k node : ℕ)
    → IsValid h
    → h.pos node ≡ none
    → length h.items < 2 ^ 31
    → (r : KHeap) × (insert h k node ≡ some r)
      × IsValid r
      × Perm r.items (record { key = k; node = node } ∷ h.items)
unfolding insert
insert-IsValid h k node v out small =
    let x : Item = record { key = k; node = node } in
    let h' : KHeap = record h { items = h.items ++ x ∷ [] } in
    let p : ℕ = length h.items in
    let low : leb (2 ^ 31) (length h.items) ≡ false = ground arith in
    let n : length h'.items - 1 ≡ p = omega (arith, length-append h.items (x ∷ [])) in
    let at : item_at h'.items p ≡ x = item_at-end h.items x in
    let (ordered, same) = fix_up-Sorted h' p (added-UpInv h.items x v.ordered) in
    let moved =
      fix_up-Settles h' p (subst (λ y. Hole h' p y) (sym at) (added-Hole h x v.placed out)) in
    (
      fix_up h' p,
      rw (n, out, low, insert, in_heap) refl,
      record { ordered = ordered; placed = moved.placed },
      Perm.trans same (append-perm h.items x),
    )

rekeyed-Placed :
    (h : KHeap) (p k : ℕ)
    → Placed h
    → p < length h.items
    → Placed (record h { items = set h.items p (record (item_at h.items p) { key = k }) })
rekeyed-Placed h p k v inside =
    let x : Item = record (item_at h.items p) { key = k } in
    let n : length (set h.items p x) ≡ length h.items = length-set h.items p x in
    let at : (i : ℕ) → node_at (set h.items p x) i ≡ node_at h.items i =
      λ i. ground (arith, item_at-set h.items p i x inside) in
    record {
      kept = λ i a. ap h.pos (at i) ∙ v.kept i (omega arith);
      known = λ m q e. (omega (arith, (v.known m q e).0), at q ∙ (v.known m q e).1);
    }

-- A smaller key at `p`: only the edge above it may be out of order.
lowered-UpInv :
    (xs : List Item) (p : ℕ) (x : Item)
    → IsHeap xs
    → p < length xs
    → x.key < key xs p
    → UpInv (set xs p x) p
lowered-UpInv xs p x v inside lt =
    let n : length (set xs p x) ≡ length xs = length-set xs p x in
    let at = λ (k : ℕ). item_at-set xs p k x inside in
    record {
      inside = omega arith;
      edges = λ c a b d. ground (arith, at c, at (parent c), v c);
      bridged = λ c a b d e. ground (arith, at c, at (parent p), v c, v p);
    }

-- A key at `p` that is no smaller: only the edges below it may be out of order.
raised-Sorted :
    (h : KHeap) (p : ℕ) (x : Item) (h' : KHeap)
    → IsHeap h.items
    → p < length h.items
    → key h.items p ≤ x.key
    → h'.items ≡ set h.items p x
    → Sorted h'.items (fix_down h' p).items
raised-Sorted h p x h' v inside le e =
    let n : length (set h.items p x) ≡ length h.items = length-set h.items p x in
    let len : length h'.items ≡ length h.items = ap length e ∙ n in
    let at : (k : ℕ) → item_at h'.items k ≡ (if k == p then x else item_at h.items k) =
      λ k. ap (λ l. item_at l k) e ∙ item_at-set h.items p k x inside in
    fix_down-Sorted h' p (omega arith) (λ c a b d. ground (arith, at c, at (parent c), v c))
      (λ c a b d f. ground (arith, at c, at (parent p), v c, v p))

-- `fix` of a node inside gives its item the new key and keeps the heap valid.
pub fix-IsValid :
    (h : KHeap) (k node p : ℕ)
    → IsValid h
    → h.pos node ≡ some p
    → (r : KHeap) × (fix h k node ≡ some r)
      × IsValid r
      × Perm r.items (set h.items p (record { key = k; node = node }))
unfolding fix
fix-IsValid h k node p v e =
    let old : Item = item_at h.items p in
    let x : Item = record { key = k; node = node } in
    let (inside, name) = v.placed.known node p e in
    let same : record old { key = k } ≡ x = ap (λ m. record { key = k; node = m }) name in
    let h' : KHeap = record h { items = set h.items p (record old { key = k }) } in
    let placed : Placed h' = rekeyed-Placed h p k v.placed inside in
    let len : length h'.items ≡ length h.items = length-set h.items p (record old { key = k }) in
    let hole : Hole h' p (item_at h'.items p) = Hole-of h' p placed (omega arith) in
    let test : ltb p (length h.items) ≡ true = ground arith in
    rw (sym same) (elim (Bool-cases (ltb k old.key)) [
      | inl t ↦
          let (ordered, perm) = fix_up-Sorted h' p (
            lowered-UpInv h.items p (record old { key = k }) v.ordered inside
              (ground (arith, t))) in
          (
            fix_up h' p,
            rw (fix, e, test, t) refl,
            record { ordered = ordered; placed = (fix_up-Settles h' p hole).placed },
            perm,
          )
      | inr t ↦
          let (ordered, perm) =
            raised-Sorted h p (record old { key = k }) h' v.ordered inside (ground (arith, t))
              refl in
          (
            fix_down h' p,
            rw (fix, e, test, t) refl,
            record { ordered = ordered; placed = (fix_down-Settles h' p hole).placed },
            perm,
          )
    ])
