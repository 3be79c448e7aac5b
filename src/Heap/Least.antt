-- ===== src/Heap/Least.antt =====
-- Heap.h: the search of `fix_down` for the least child.
use native.Mathlib.Decide.{ℕ_discrete}
use pxc_core.Prelude.{
  ℕ, zero, suc, ◌+◌, ◌-◌, ◌*◌, ◌≤◌, ◌<◌, ltb, min, ◌≡◌, ◌≢◌, ◌⊎◌, refl, ap, sym, ◌∙◌, List, length,
  set, arith, length-set, Bool-cases, inl, inr,
}
use pxc_core.Heap.{Item, item_at, parent, least_child, next_pos}
use pxc_core.Heap.Arrays.{item_at-set}
use pxc_core.Heap.Order.{key}

-- The outcome of the search among the items from `i` to before `k`.
abbrev Least : List Item → ℕ → ℕ → ℕ → ℕ → ℕ → Type 0
Least xs i k best best_key r =
    ((r ≡ best) × ((j : ℕ) → i ≤ j → j < k → best_key ≤ key xs j))
    ⊎ ((i ≤ r) × (r < k) × (key xs r < best_key) × ((j : ℕ) → i ≤ j → j < k → key xs r ≤ key xs j))

least_child-Least :
    (xs : List Item) (n i best best_key : ℕ)
    → Least xs i (i + n) best best_key (least_child xs n i best best_key)
unfolding least_child
least_child-Least xs zero i best best_key = inl (refl, λ j a b. absurd (omega arith))
least_child-Least xs (suc n) i best best_key =
    let k : i + suc n ≡ i + 1 + n = omega arith in
    elim (Bool-cases (ltb (key xs i) best_key)) [
      | inl t ↦
          rw (t, k)
            (elim (least_child-Least xs n (i + 1) i (key xs i)) [
              | inl (e, all) ↦ inr (
                omega (arith, e),
                omega (arith, e),
                rw e (ground (arith, t)),
                λ j a b. rw e (elim (ℕ_discrete j i) [
                  | yes s ↦ rw s (omega arith)
                  | no s ↦ all j (omega arith) (omega arith)
                ]),
              )
              | inr (a, b, c, all) ↦ inr (
                omega arith,
                omega arith,
                ground (arith, t),
                λ j x y. elim (ℕ_discrete j i) [
                  | yes s ↦ rw s (omega arith)
                  | no s ↦ all j (omega arith) (omega arith)
                ],
              )
            ])
      | inr t ↦
          rw (t, k)
            (elim (least_child-Least xs n (i + 1) best best_key) [
              | inl (e, all) ↦ inl (
                e,
                λ j x y. elim (ℕ_discrete j i) [
                  | yes s ↦ rw s (ground (arith, t))
                  | no s ↦ all j (omega arith) (omega arith)
                ],
              )
              | inr (a, b, c, all) ↦ inr (
                omega arith,
                b,
                c,
                λ j x y. elim (ℕ_discrete j i) [
                  | yes s ↦ rw s (ground (arith, t))
                  | no s ↦ all j (omega arith) (omega arith)
                ],
              )
            ])
    ]

-- The item at `p` is no more than its children, or `m` is the least of these.
pub data Next (xs : List Item) (p m : ℕ) : Type 0 where
  stays :
      m ≡ p → ((c : ℕ) → 0 < c → c < length xs → parent c ≡ p → key xs p ≤ key xs c) → Next xs p m
  sinks :
      p < m
      → m < length xs
      → parent m ≡ p
      → key xs m < key xs p
      → ((c : ℕ) → 0 < c → c < length xs → parent c ≡ p → key xs m ≤ key xs c)
      → Next xs p m

pub next_pos-Next : (xs : List Item) (p : ℕ) → Next xs p (next_pos xs p (key xs p))
unfolding next_pos
next_pos-Next xs p =
    let left : ℕ = p * 4 + 1 in
    elim (least_child-Least xs (min (left + 4) (length xs) - left) left p (key xs p)) [
      | inl (e, all) ↦ stays e (λ c a b d. all c (omega arith) (omega arith))
      | inr (a, b, c, all) ↦
          sinks (omega arith) (omega arith) (omega arith) c
            (λ j x y z. all j (omega arith) (omega arith))
    ]

least_child-alike :
    (xs ys : List Item) (n i best best_key : ℕ)
    → ((j : ℕ) → i ≤ j → item_at xs j ≡ item_at ys j)
    → least_child xs n i best best_key ≡ least_child ys n i best best_key
unfolding least_child
least_child-alike xs ys zero i best best_key h = refl
least_child-alike xs ys (suc n) i best best_key h =
    let e : item_at xs i ≡ item_at ys i = h i (omega arith) in
    rw
      (
        e,
        least_child-alike xs ys n (i + 1) i (key ys i) (λ j a. h j (omega arith)),
        least_child-alike xs ys n (i + 1) best best_key (λ j a. h j (omega arith)),
      )
      refl

-- The item in the hole at `p` is not read.
pub next_pos-hole :
    (xs : List Item) (p : ℕ) (item : Item)
    → p < length xs
    → next_pos xs p item.key ≡ next_pos (set xs p item) p (key (set xs p item) p)
unfolding next_pos
next_pos-hole xs p item h =
    let at : item_at (set xs p item) p ≡ item = ground (arith, item_at-set xs p p item h) in
    let same : next_pos xs p item.key ≡ next_pos (set xs p item) p item.key =
      rw (next_pos, length-set xs p item)
        (least_child-alike xs (set xs p item) _ (p * 4 + 1) p item.key
          (λ j a. ground (arith, item_at-set xs p j item h))) in
    same ∙ ap (λ (k : Item). next_pos (set xs p item) p k.key) (sym at)

-- The item that `fix_down` takes is inside.
pub next_pos-inside :
    (xs : List Item) (p : ℕ) (item : Item)
    → p < length xs
    → next_pos xs p item.key ≢ p
    → next_pos xs p item.key < length xs
next_pos-inside xs p item h apart =
    let hole = next_pos-hole xs p item h in
    elim (next_pos-Next (set xs p item) p) [
      | stays e low ↦ absurd (apart (hole ∙ e))
      | sinks lt inside child less least ↦ omega (arith, hole, length-set xs p item)
    ]
