-- ===== src/Heap/Down.antt =====
-- Heap.h: `fix_down` puts one item that stands too high into its place.
use mathlib.Core.List.{Perm}
use mathlib.Core.List.Perm
use pxc_core.Prelude.{
  ℕ, zero, suc, ◌+◌, ◌≤◌, ◌<◌, ◌==◌, ◌≡◌, ◌≢◌, refl, sym, subst, true, false, List, length, set,
  arith, length-set,
}
use pxc_core.Heap.{Item, KHeap, item_at, parent, write, next_pos, fix_down_loop, fix_down}
use pxc_core.Heap.Arrays.{swap, length-swap, item_at-swap, swap-perm, set-item_at}
use pxc_core.Heap.Order.{key, Sorted, UpInv, hole-swap}
use pxc_core.Heap.Least.{stays, sinks, next_pos-Next, next_pos-hole}

-- All edges but those below `p` and the one above `i` are in order, also across `p`.
record DownInv (xs : List Item) (i p : ℕ) : Type 0 where
  inside : p < length xs
  below : i ≤ p
  edges : (c : ℕ) → 0 < c → c < length xs → parent c ≢ p → c ≢ i → key xs (parent c) ≤ key xs c
  bridged : (c : ℕ) → 0 < c → c < length xs → parent c ≡ p → 0 < p → key xs (parent p) ≤ key xs c
  over : p ≢ i → 0 < i → key xs (parent i) ≤ key xs i

swap-DownInv :
    (xs : List Item) (i p m : ℕ)
    → DownInv xs i p
    → p < m
    → m < length xs
    → parent m ≡ p
    → key xs m < key xs p
    → ((c : ℕ) → 0 < c → c < length xs → parent c ≡ p → key xs m ≤ key xs c)
    → DownInv (swap xs p m) i m
swap-DownInv xs i p m v lt hm child less least =
    let inside : p < length xs = v.inside in
    let below : i ≤ p = v.below in
    let n : length (swap xs p m) ≡ length xs = length-swap xs p m in
    let at = λ (k : ℕ). item_at-swap xs p m k inside hm in
    record {
      inside = omega arith;
      below = omega arith;
      edges = λ c a b d e. ground (arith, at c, at (parent c), v.edges c, v.bridged m, least c);
      bridged = λ c a b d e. ground (arith, at c, at (parent m), v.edges c);
      over = λ a b. ground (arith, at i, at (parent i), v.over, v.bridged m);
    }

-- The array when the loop ends: only the edge above `i` may be out of order.
settled-UpInv :
    (xs : List Item) (i p : ℕ)
    → DownInv xs i p
    → ((c : ℕ) → 0 < c → c < length xs → parent c ≡ p → key xs p ≤ key xs c)
    → UpInv xs i
settled-UpInv xs i p v low =
    let inside : p < length xs = v.inside in
    let below : i ≤ p = v.below in
    record {
      inside = omega arith;
      edges = λ c a b d. ground (arith, v.edges c, low c);
      bridged = λ c a b d e. ground (arith, v.edges c, low c, v.bridged c, v.over);
    }

Down : List Item → ℕ → KHeap → Type 0
Down xs i h = UpInv h.items i × Perm h.items xs

fix_down_loop-Down :
    (fuel : ℕ) (item : Item) (h : KHeap) (i p : ℕ)
    → length h.items ≤ p + fuel
    → p < length h.items
    → DownInv (set h.items p item) i p
    → Down (set h.items p item) i (fix_down_loop fuel item h p)
unfolding fix_down_loop write Down
fix_down_loop-Down zero item h i p le inside v = absurd (omega arith)
fix_down_loop-Down (suc fuel) item h i p le inside v =
    let xs : List Item = set h.items p item in
    let hole : next_pos h.items p item.key ≡ next_pos xs p (key xs p) =
      next_pos-hole h.items p item inside in
    let len : length xs ≡ length h.items = length-set h.items p item in
    elim (next_pos-Next xs p) [
      | stays e low ↦
          let stop : (next_pos h.items p item.key == p) ≡ true = ground (arith, hole, e) in
          rw stop (settled-UpInv xs i p v low, Perm.refl xs)
      | sinks lt hm child less least ↦
          let m : ℕ = next_pos h.items p item.key in
          let lt' : p < m = omega (arith, hole) in
          let go : (m == p) ≡ false = ground arith in
          let down : Item = item_at h.items m in
          let moved : set (set h.items p down) m item ≡ swap xs p m =
            hole-swap h.items p m item inside (λ z. omega arith) in
          let inv : DownInv (swap xs p m) i m =
            rw hole (swap-DownInv xs i p (next_pos xs p (key xs p)) v lt hm child less least) in
          let next : Down (swap xs p m) i (fix_down_loop fuel item (write h p down) m) =
            subst (λ l. Down l i (fix_down_loop fuel item (write h p down) m)) moved
              (fix_down_loop-Down fuel item (write h p down) i m
                (omega (arith, length-set h.items p down))
                (omega (arith, length-set h.items p down, hole))
                (subst (λ l. DownInv l i m) (sym moved) inv)) in
          rw go (next.0, Perm.trans next.1 (swap-perm xs p m (omega arith) (omega (arith, hole))))
    ]

-- `fix_down` at `p` of an array in which only the edges at `p` may be out of order leaves only
-- the edge above `p`.
pub fix_down-UpInv :
    (h : KHeap) (p : ℕ)
    → p < length h.items
    → ((c : ℕ)
        → 0 < c
        → c < length h.items
        → parent c ≢ p
        → c ≢ p
        → key h.items (parent c) ≤ key h.items c)
    → ((c : ℕ)
        → 0 < c
        → c < length h.items
        → parent c ≡ p
        → 0 < p
        → key h.items (parent p) ≤ key h.items c)
    → UpInv (fix_down h p).items p × Perm (fix_down h p).items h.items
unfolding fix_down Down
fix_down-UpInv h p inside edges bridged =
    let e : set h.items p (item_at h.items p) ≡ h.items = set-item_at h.items p in
    let inv : DownInv h.items p p = record {
      inside = inside;
      below = omega arith;
      edges = edges;
      bridged = bridged;
      over = λ a b. absurd (a refl);
    } in
    subst (λ l. Down l p (fix_down h p)) e
      (fix_down_loop-Down (length h.items) (item_at h.items p) h p p (omega arith) inside
        (subst (λ l. DownInv l p p) (sym e) inv))

-- `fix_down` at `p` of an array in which only the edges below `p` may be out of order.
pub fix_down-Sorted :
    (h : KHeap) (p : ℕ)
    → p < length h.items
    → ((c : ℕ) → 0 < c → c < length h.items → parent c ≢ p → key h.items (parent c) ≤ key h.items c)
    → ((c : ℕ)
        → 0 < c
        → c < length h.items
        → parent c ≡ p
        → 0 < p
        → key h.items (parent p) ≤ key h.items c)
    → Sorted h.items (fix_down h p).items
unfolding fix_down Down
fix_down-Sorted h p inside edges bridged =
    let e : set h.items p (item_at h.items p) ≡ h.items = set-item_at h.items p in
    let inv : DownInv h.items 0 p = record {
      inside = inside;
      below = omega arith;
      edges = λ c a b d z. edges c a b d;
      bridged = bridged;
      over = λ a b. absurd (omega arith);
    } in
    let (up, same) =
      subst (λ l. Down l 0 (fix_down h p)) e
        (fix_down_loop-Down (length h.items) (item_at h.items p) h 0 p (omega arith) inside
          (subst (λ l. DownInv l 0 p) (sym e) inv)) in
    (λ c a b. up.edges c a b (λ z. omega arith), same)
