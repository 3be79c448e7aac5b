-- ===== src/Heap/Arrays.antt =====
-- Heap.h: arrays of items, read and written at positions.
use mathlib.Core.List.{Perm}
use mathlib.Core.List.Perm
use pxc_core.Prelude.{
  ℕ, zero, suc, ◌-◌, ◌<◌, ◌==◌, ◌≡◌, refl, ap, subst, ◌∙◌, if◌then◌else◌, List, [], ◌∷◌, ◌++◌,
  length, set, take, length-set, arith,
}
use pxc_core.Heap.{Item, item_at}

pub item_at-set :
    (xs : List Item) (i j : ℕ) (v : Item)
    → i < length xs
    → item_at (set xs i v) j ≡ (if j == i then v else item_at xs j)
item_at-set [] i j v h = absurd (omega arith)
item_at-set (x ∷ xs) zero zero v h = refl
item_at-set (x ∷ xs) zero (suc j) v h = ground arith
item_at-set (x ∷ xs) (suc i) zero v h = ground arith
item_at-set (x ∷ xs) (suc i) (suc j) v h = ground (arith, item_at-set xs i j v (omega arith))

pub item_at-take : (n : ℕ) (xs : List Item) (i : ℕ) → i < n → item_at (take n xs) i ≡ item_at xs i
item_at-take zero xs i h = absurd (omega arith)
item_at-take (suc n) [] i h = refl
item_at-take (suc n) (x ∷ xs) zero h = refl
item_at-take (suc n) (x ∷ xs) (suc i) h = item_at-take n xs i (omega arith)

pub item_at-append :
    (xs : List Item) (x : Item) (i : ℕ) → i < length xs → item_at (xs ++ x ∷ []) i ≡ item_at xs i
item_at-append [] x i h = absurd (omega arith)
item_at-append (y ∷ xs) x zero h = refl
item_at-append (y ∷ xs) x (suc i) h = item_at-append xs x i (omega arith)

pub item_at-end : (xs : List Item) (x : Item) → item_at (xs ++ x ∷ []) (length xs) ≡ x
item_at-end [] x = refl
item_at-end (y ∷ xs) x = item_at-end xs x

pub set-item_at : (xs : List Item) (i : ℕ) → set xs i (item_at xs i) ≡ xs
set-item_at [] i = refl
set-item_at (x ∷ xs) zero = refl
set-item_at (x ∷ xs) (suc i) = ap (λ l. x ∷ l) (set-item_at xs i)

pub set-set : (xs : List Item) (i : ℕ) (v w : Item) → set (set xs i v) i w ≡ set xs i w
set-set [] i v w = refl
set-set (x ∷ xs) zero v w = refl
set-set (x ∷ xs) (suc i) v w = ap (λ l. x ∷ l) (set-set xs i v w)

abbrev pub swap : List Item → ℕ → ℕ → List Item
swap xs i j = set (set xs i (item_at xs j)) j (item_at xs i)

pub length-swap : (xs : List Item) (i j : ℕ) → length (swap xs i j) ≡ length xs
length-swap xs i j =
    length-set (set xs i (item_at xs j)) j (item_at xs i) ∙ length-set xs i (item_at xs j)

pub item_at-swap :
    (xs : List Item) (i j k : ℕ)
    → i < length xs
    → j < length xs
    → item_at (swap xs i j) k
      ≡ (if k == j then item_at xs i else if k == i then item_at xs j else item_at xs k)
item_at-swap xs i j k hi hj =
    let n : length (set xs i (item_at xs j)) ≡ length xs = length-set xs i (item_at xs j) in
    ground (
      arith,
      item_at-set (set xs i (item_at xs j)) j k (item_at xs i) (omega arith),
      item_at-set xs i k (item_at xs j) hi,
    )

-- Writing over an item exchanges it for another one.
pub set-perm :
    (xs : List Item) (i : ℕ) (v : Item) → i < length xs → Perm (item_at xs i ∷ set xs i v) (v ∷ xs)
set-perm [] i v h = absurd (omega arith)
set-perm (x ∷ xs) zero v h = Perm.swap v x xs
set-perm (x ∷ xs) (suc i) v h =
    Perm.trans (Perm.swap x (item_at xs i) (set xs i v))
      (Perm.trans (Perm.cons x (set-perm xs i v (omega arith))) (Perm.swap v x xs))

pub swap-perm : (xs : List Item) (i j : ℕ) → i < length xs → j < length xs → Perm (swap xs i j) xs
swap-perm xs i j hi hj =
    let a : Item = item_at xs i in
    let b : Item = item_at xs j in
    let ys : List Item = set xs i b in
    let n : length ys ≡ length xs = length-set xs i b in
    let at : item_at ys j ≡ b = ground (arith, item_at-set xs i j b hi) in
    Perm.cons_inv (
      Perm.trans (subst (λ c. Perm (c ∷ set ys j a) (a ∷ ys)) at (set-perm ys j a (omega arith)))
        (set-perm xs i b hi))

-- The items before the last one, and this one.
pub take_last-perm :
    (xs : List Item)
    → 0 < length xs
    → Perm (item_at xs (length xs - 1) ∷ take (length xs - 1) xs) xs
take_last-perm [] h = absurd (omega arith)
take_last-perm (x ∷ []) h = Perm.refl (x ∷ [])
take_last-perm (x ∷ y ∷ xs) h =
    let e : length (x ∷ y ∷ xs) - 1 ≡ suc (length (y ∷ xs) - 1) = omega arith in
    rw e (Perm.trans (Perm.swap x _ _) (Perm.cons x (take_last-perm (y ∷ xs) (omega arith))))

pub append-perm : (xs : List Item) (x : Item) → Perm (xs ++ x ∷ []) (x ∷ xs)
append-perm [] x = Perm.refl (x ∷ [])
append-perm (y ∷ xs) x = Perm.trans (Perm.cons y (append-perm xs x)) (Perm.swap x y xs)
