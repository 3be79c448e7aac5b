-- ===== src/Heap/Up.antt =====
-- Heap.h: `fix_up` puts one item that stands too low into its place.
use mathlib.Core.List.Perm
use pxc_core.Prelude.{
  ℕ, zero, suc, ◌≤◌, ◌<◌, ◌==◌, ltb, ◌≡◌, sym, subst, List, length, set, arith, length-set,
  Bool-cases, inl, inr,
}
use pxc_core.Heap.{Item, KHeap, item_at, parent, write, fix_up_loop, fix_up}
use pxc_core.Heap.Arrays.{item_at-set, swap, length-swap, item_at-swap, swap-perm, set-item_at}
use pxc_core.Heap.Order.{key, Sorted, UpInv, hole-swap}

swap-UpInv :
    (xs : List Item) (i : ℕ)
    → UpInv xs i
    → 0 < i
    → key xs i ≤ key xs (parent i)
    → UpInv (swap xs i (parent i)) (parent i)
swap-UpInv xs i v pos le =
    let n : length (swap xs i (parent i)) ≡ length xs = length-swap xs i (parent i) in
    let inside : i < length xs = v.inside in
    let at = λ (k : ℕ). item_at-swap xs i (parent i) k inside (omega arith) in
    record {
      inside = omega arith;
      edges = λ c p q r.
          ground (arith, at c, at (parent c), v.edges c, v.bridged c, v.edges (parent i));
      bridged =
          λ c p q r s. ground (arith, at c, at (parent (parent i)), v.edges c, v.edges (parent i));
    }

settled :
    (xs : List Item) (i : ℕ) → UpInv xs i → (0 < i → key xs (parent i) ≤ key xs i) → Sorted xs xs
settled xs i v top = (λ c p q. ground (arith, v.edges c, top), Perm.refl xs)

fix_up_loop-Sorted :
    (fuel : ℕ) (item : Item) (h : KHeap) (p : ℕ)
    → p ≤ fuel
    → p < length h.items
    → UpInv (set h.items p item) p
    → Sorted (set h.items p item) (fix_up_loop fuel item h p).items
unfolding fix_up_loop write
fix_up_loop-Sorted zero item h p le inside v =
    settled (set h.items p item) p v (λ pos. absurd (omega arith))
fix_up_loop-Sorted (suc fuel) item h p le inside v = elim (Bool-cases (p == 0)) [
  | inl e ↦ rw e (settled (set h.items p item) p v (λ pos. absurd (ground (arith, e))))
  | inr e ↦
      let xs : List Item = set h.items p item in
      let q : ℕ = parent p in
      let up : Item = item_at h.items q in
      let pos : 0 < p = ground (arith, e) in
      let at_p : item_at xs p ≡ item = ground (arith, item_at-set h.items p p item inside) in
      let at_q : item_at xs q ≡ up = ground (arith, item_at-set h.items p q item inside) in
      let len : length xs ≡ length h.items = length-set h.items p item in
      rw e (elim (Bool-cases (ltb up.key item.key)) [
        | inl t ↦ rw t (settled xs p v (λ z. ground (arith, at_p, at_q, t)))
        | inr t ↦
            let le' : key xs p ≤ key xs q = ground (arith, at_p, at_q, t) in
            let moved : set (set h.items p up) q item ≡ swap xs p q =
              hole-swap h.items p q item inside (λ z. omega arith) in
            let next : Sorted (swap xs p q) (fix_up_loop fuel item (write h p up) q).items =
              subst (λ l. Sorted l (fix_up_loop fuel item (write h p up) q).items) moved
                (fix_up_loop-Sorted fuel item (write h p up) q (omega arith)
                  (omega (arith, length-set h.items p up))
                  (subst (λ l. UpInv l q) (sym moved) (swap-UpInv xs p v pos le'))) in
            rw t (next.0, Perm.trans next.1 (swap-perm xs p q (omega arith) (omega arith)))
      ])
]

-- `fix_up` of an array in which only the edge above `p` may be out of order.
pub fix_up-Sorted : (h : KHeap) (p : ℕ) → UpInv h.items p → Sorted h.items (fix_up h p).items
unfolding fix_up
fix_up-Sorted h p v =
    let inside : p < length h.items = v.inside in
    let e : set h.items p (item_at h.items p) ≡ h.items = set-item_at h.items p in
    subst (λ l. Sorted l (fix_up h p).items) e
      (fix_up_loop-Sorted p (item_at h.items p) h p (omega arith) inside
        (subst (λ l. UpInv l p) (sym e) v))
