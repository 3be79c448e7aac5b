-- ===== src/Heap/Order.antt =====
-- Heap.h: the order of a heap.
use mathlib.Core.List.{Perm}
use pxc_core.Prelude.{ℕ, zero, suc, ◌≤◌, ◌<◌, ◌≡◌, ◌≢◌, ap, ap₂, sym, ◌∙◌, List, length, set, arith}
use pxc_core.Heap.{Item, item_at, parent}
use pxc_core.Heap.Arrays.{item_at-set, set-set, swap}

abbrev pub key : List Item → ℕ → ℕ
key xs i = (item_at xs i).key

-- No key is below that of its parent, as `check` tests.
abbrev pub IsHeap : List Item → Type 0
IsHeap xs = (c : ℕ) → 0 < c → c < length xs → key xs (parent c) ≤ key xs c

-- `ys` holds the items of `xs`, in the order of a heap.
abbrev pub Sorted : List Item → List Item → Type 0
Sorted xs ys = IsHeap ys × Perm ys xs

-- All edges but the one above `i` are in order, also across `i`.
pub record UpInv (xs : List Item) (i : ℕ) : Type 0 where
  pub inside : i < length xs
  pub edges : (c : ℕ) → 0 < c → c < length xs → c ≢ i → key xs (parent c) ≤ key xs c
  pub bridged :
      (c : ℕ) → 0 < c → c < length xs → parent c ≡ i → 0 < i → key xs (parent i) ≤ key xs c

least_below :
    (k : ℕ) (xs : List Item) (i : ℕ) → IsHeap xs → i < k → i < length xs → key xs 0 ≤ key xs i
least_below zero xs i h lt inside = absurd (omega arith)
least_below (suc k) xs zero h lt inside = omega arith
least_below (suc k) xs (suc i) h lt inside =
    omega (arith, h (suc i), least_below k xs (parent (suc i)) h)

-- The first item of a heap has a least key.
pub key-least : (xs : List Item) (i : ℕ) → IsHeap xs → i < length xs → key xs 0 ≤ key xs i
key-least xs i h inside = least_below (suc i) xs i h (omega arith) inside

-- The array with the item that a loop holds put back at the hole.
pub hole-swap :
    (xs : List Item) (p q : ℕ) (item : Item)
    → p < length xs
    → q ≢ p
    → set (set xs p (item_at xs q)) q item ≡ swap (set xs p item) p q
hole-swap xs p q item h apart =
    let at_p : item_at (set xs p item) p ≡ item = ground (arith, item_at-set xs p p item h) in
    let at_q : item_at (set xs p item) q ≡ item_at xs q =
      ground (arith, item_at-set xs p q item h) in
    sym (
      ap₂ (λ a b. set (set (set xs p item) p a) q b) at_q at_p
      ∙ ap (λ l. set l q item) (set-set xs p item (item_at xs q)))
