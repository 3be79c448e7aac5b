-- ===== src/Heap/View.antt =====
-- Heap.h: a valid heap as a map from nodes to keys, which `get_key` reads.
use mathlib.Core.List.{Perm, Mem, Mem-prop, mem-cons, mem-cons_self, mem-cons_of_mem, not-mem-nil}
use mathlib.Core.List
use mathlib.Core.List.Perm
use mathlib.Core.Nat
use mathlib.Core.Logic.Or
use native.Mathlib.Decide.{ℕ_discrete}
use pxc_core.Prelude.{
  ◌^◌, ℕ, zero, suc, ◌+◌, ◌≤◌, ◌<◌, ◌==◌, ltb, ◌≡◌, ◌≢◌, refl, sym, ap, subst, ◌∙◌, if◌then◌else◌,
  true, false, Option, none, some, List, [], ◌∷◌, length, set, arith, length-set, Option-cases, inl,
  inr,
}
use pxc_core.Heap.{Item, KHeap, item_at, get_key, size, top_key, is_top, insert, fix, erase, pop}
use pxc_core.Heap.Arrays.{set-perm, item_at-set}
use pxc_core.Heap.Order.{key, key-least}
use pxc_core.Heap.Positions.{node_at}
use pxc_core.Heap.Calls.{IsValid, insert-IsValid, fix-IsValid}
use pxc_core.Heap.Erase.{erase-IsValid, pop-IsValid}

-- The number of items, over the library's numbers.
to_native : Nat.ℕ → ℕ
to_native Nat.zero = 0
to_native (Nat.suc n) = suc (to_native n)

to_native-length : (xs : List Item) → to_native (List.length xs) ≡ length xs
unfolding to_native
to_native-length [] = refl
to_native-length (x ∷ xs) = ap suc (to_native-length xs)

Perm-length : {xs ys : List Item} → Perm xs ys → length xs ≡ length ys
Perm-length {xs} {ys} p =
    sym (to_native-length xs) ∙ ap to_native (Perm.length-eq p) ∙ to_native-length ys

Mem-item_at : (xs : List Item) (i : ℕ) → i < length xs → Mem (item_at xs i) xs
Mem-item_at [] i h = absurd (omega arith)
Mem-item_at (x ∷ xs) zero h = mem-cons_self
Mem-item_at (x ∷ xs) (suc i) h = mem-cons_of_mem x (Mem-item_at xs i (omega arith))

-- An item of a list stands somewhere.
index_of :
    {P : Type 0} (xs : List Item) (x : Item)
    → IsProp P
    → Mem x xs
    → ((i : ℕ) → i < length xs → item_at xs i ≡ x → P)
    → P
index_of [] x prop m found = absurd (not-mem-nil m)
index_of (y ∷ xs) x prop m found =
    Or.elim prop (mem-cons.0 m) (λ e. found 0 (omega arith) (sym e))
      (λ rest. index_of xs x prop rest (λ i h e. found (suc i) (omega arith) e))

keys_prop : {a b : Option ℕ} → IsProp (a ≡ b)
keys_prop = hlevel

get_key-item_at :
    (h : KHeap) (i : ℕ)
    → IsValid h
    → i < length h.items
    → get_key h (node_at h.items i) ≡ some (key h.items i)
unfolding get_key
get_key-item_at h i v inside =
    let t : ltb i (length h.items) ≡ true = ground arith in
    rw (get_key, v.placed.kept i inside, t) refl

get_key_of_mem : (h : KHeap) (x : Item) → IsValid h → Mem x h.items → get_key h x.node ≡ some x.key
get_key_of_mem h x v m = index_of h.items x keys_prop m (λ i inside e.
    ap (λ (y : Item). get_key h y.node) (sym e)
    ∙ get_key-item_at h i v inside
    ∙ ap (λ (y : Item). some y.key) e)

get_key-index :
    (h : KHeap) (k τ : ℕ)
    → IsValid h
    → get_key h k ≡ some τ
    → (i : ℕ) × (i < length h.items)
      × (h.pos k ≡ some i)
      × (item_at h.items i ≡ record { key = τ; node = k })
unfolding get_key
get_key-index h k τ v e = elim (Option-cases (h.pos k)) [
  | inl out ↦ absurd (ground (arith, e, out))
  | inr (i, at) ↦
      let (inside, name) = v.placed.known k i at in (i, inside, at, ground (arith, e, at, name))
]

mem_of_get_key :
    (h : KHeap) (k τ : ℕ)
    → IsValid h
    → get_key h k ≡ some τ
    → Mem (record { key = τ; node = k }) h.items
mem_of_get_key h k τ v e =
    let (i, inside, at, same) = get_key-index h k τ v e in
    subst (λ x. Mem x h.items) same (Mem-item_at h.items i inside)

-- Two heaps with the same items but for the node `n` have the same keys but for it.
agree :
    (h r : KHeap) (n k : ℕ)
    → IsValid h
    → IsValid r
    → ((y : Item) → y.node ≢ n → Mem y r.items → Mem y h.items)
    → ((y : Item) → y.node ≢ n → Mem y h.items → Mem y r.items)
    → k ≢ n
    → get_key r k ≡ get_key h k
agree h r n k v w to from apart = elim (Option-cases (get_key r k)) [
  | inr (τ, e) ↦
      e
      ∙ sym (
          get_key_of_mem h (record { key = τ; node = k }) v
            (to (record { key = τ; node = k }) apart (mem_of_get_key r k τ w e)))
  | inl e ↦ elim (Option-cases (get_key h k)) [
    | inl f ↦ e ∙ sym f
    | inr (τ, f) ↦ sym (
        f
        ∙ sym (
            get_key_of_mem r (record { key = τ; node = k }) w
              (from (record { key = τ; node = k }) apart (mem_of_get_key h k τ v f))))
  ]
]

-- One more item.
get_key-more :
    (h r : KHeap) (x : Item) (k : ℕ)
    → IsValid h
    → IsValid r
    → Perm r.items (x ∷ h.items)
    → get_key r k ≡ (if k == x.node then some x.key else get_key h k)
get_key-more h r x k v w p = elim (ℕ_discrete k x.node) [
  | yes s ↦
      let new : get_key r x.node ≡ some x.key =
        get_key_of_mem r x w ((Perm.mem_iff p).1 mem-cons_self) in
      ground (arith, s, new, ap (get_key r) s)
  | no s ↦
      let same : get_key r k ≡ get_key h k =
        agree h r x.node k v w
          (λ y apart m.
            Or.elim Mem-prop (mem-cons.0 ((Perm.mem_iff p).0 m))
              (λ e. absurd (apart (ap (λ (z : Item). z.node) e))) (λ rest. rest))
          (λ y apart m. (Perm.mem_iff p).1 (mem-cons_of_mem x m)) s in
      ground (arith, s, same)
]

pos-none : (h : KHeap) (n : ℕ) → IsValid h → get_key h n ≡ none → h.pos n ≡ none
unfolding get_key
pos-none h n v out = elim (Option-cases (h.pos n)) [
  | inl e ↦ e
  | inr (i, at) ↦ let (inside, name) = v.placed.known n i at in absurd (ground (arith, out, at))
]

pos-some : (h : KHeap) (n : ℕ) → IsValid h → get_key h n ≢ none → (i : ℕ) × (h.pos n ≡ some i)
unfolding get_key
pos-some h n v there = elim (Option-cases (h.pos n)) [
  | inl e ↦ absurd (there (rw (get_key, e) refl))
  | inr found ↦ found
]

get_key_outside : (h : KHeap) (n : ℕ) → h.pos n ≡ none → get_key h n ≡ none
unfolding get_key
get_key_outside h n out = rw (get_key, out) refl

-- `insert` gives its node the key.
pub get_key-insert :
    (h : KHeap) (k node : ℕ)
    → IsValid h
    → get_key h node ≡ none
    → size h < 2 ^ 31
    → (r : KHeap) × (insert h k node ≡ some r)
      × IsValid r
      × ((n : ℕ) → get_key r n ≡ (if n == node then some k else get_key h n))
      × (size r ≡ size h + 1)
get_key-insert h k node v out small =
    let (r, done, w, p) = insert-IsValid h k node v (pos-none h node v out) small in
    (
      r,
      done,
      w,
      λ n. get_key-more h r (record { key = k; node = node }) n v w p,
      omega (arith, Perm-length p),
    )

-- `fix` gives its node another key.
pub get_key-fix :
    (h : KHeap) (k node : ℕ)
    → IsValid h
    → get_key h node ≢ none
    → (r : KHeap) × (fix h k node ≡ some r)
      × IsValid r
      × ((n : ℕ) → get_key r n ≡ (if n == node then some k else get_key h n))
      × (size r ≡ size h)
get_key-fix h k node v there =
    let (i, at) = pos-some h node v there in
    let (inside, name) = v.placed.known node i at in
    let x : Item = record { key = k; node = node } in
    let (r, done, w, p) = fix-IsValid h k node i v at in
    let swapped : Perm (item_at h.items i ∷ set h.items i x) (x ∷ h.items) =
      set-perm h.items i x inside in
    let back : (y : Item) → y.node ≢ node → Mem y r.items → Mem y h.items = λ y apart m.
      Or.elim Mem-prop
        (mem-cons.0
          ((Perm.mem_iff swapped).0 (mem-cons_of_mem (item_at h.items i) ((Perm.mem_iff p).0 m))))
        (λ e. absurd (apart (ap (λ (z : Item). z.node) e))) (λ rest. rest) in
    let forth : (y : Item) → y.node ≢ node → Mem y h.items → Mem y r.items = λ y apart m.
      Or.elim Mem-prop (mem-cons.0 ((Perm.mem_iff swapped).1 (mem-cons_of_mem x m)))
        (λ e. absurd (apart (ap (λ (z : Item). z.node) e ∙ name)))
        (λ rest. (Perm.mem_iff p).1 rest) in
    let there' : item_at (set h.items i x) i ≡ x =
      ground (arith, item_at-set h.items i i x inside) in
    let new_one : Mem x r.items = (Perm.mem_iff p).1 (
      subst (λ z. Mem z (set h.items i x)) there'
        (Mem-item_at (set h.items i x) i (omega (arith, length-set h.items i x)))) in
    (
      r,
      done,
      w,
      λ n. elim (ℕ_discrete n node) [
        | yes s ↦ ground (arith, s, get_key_of_mem r x w new_one, ap (get_key r) s)
        | no s ↦ ground (arith, s, agree h r node n v w back forth s)
      ],
      Perm-length p ∙ length-set h.items i x,
    )

less :
    (h r : KHeap) (x : Item)
    → IsValid h
    → IsValid r
    → Perm (x ∷ r.items) h.items
    → r.pos x.node ≡ none
    → (n : ℕ) → get_key r n ≡ (if n == x.node then none else get_key h n)
less h r x v w p out n = elim (ℕ_discrete n x.node) [
  | yes s ↦ ground (arith, s, get_key_outside r x.node out, ap (get_key r) s)
  | no s ↦ ground (arith, s, get_key-more r h x n w v (Perm.symm p))
]

-- `erase` takes its node out.
pub get_key-erase :
    (h : KHeap) (node : ℕ)
    → IsValid h
    → get_key h node ≢ none
    → (r : KHeap) × (erase h node ≡ some r)
      × IsValid r
      × ((n : ℕ) → get_key r n ≡ (if n == node then none else get_key h n))
      × (size r + 1 ≡ size h)
get_key-erase h node v there =
    let (i, at) = pos-some h node v there in
    let (inside, name) = v.placed.known node i at in
    let (r, done, w, p, out) = erase-IsValid h node i v at in
    (
      r,
      done,
      w,
      λ n.
          less h r (item_at h.items i) v w p (ap r.pos name ∙ out) n
          ∙ ap (λ (m : ℕ). if n == m then none else get_key h n) name,
      omega (arith, Perm-length p),
    )

-- `pop` takes the top node out.
pub get_key-pop :
    (h : KHeap)
    → IsValid h
    → 0 < size h
    → (r : KHeap) × (pop h ≡ some (node_at h.items 0, r))
      × IsValid r
      × ((n : ℕ) → get_key r n ≡ (if n == node_at h.items 0 then none else get_key h n))
      × (size r + 1 ≡ size h)
get_key-pop h v filled =
    let (r, done, w, p, out, least) = pop-IsValid h 0 v filled in
    (r, done, w, less h r (item_at h.items 0) v w p out, omega (arith, Perm-length p))

-- The top key is the key of the top node, and no node has a smaller one.
pub get_key-top :
    (h : KHeap) → IsValid h → 0 < size h → get_key h (node_at h.items 0) ≡ some (top_key h)
get_key-top h v filled = get_key-item_at h 0 v filled

pub top_key-least :
    (h : KHeap) (n τ : ℕ) → IsValid h → get_key h n ≡ some τ → (0 < size h) × (top_key h ≤ τ)
top_key-least h n τ v e =
    let (i, inside, at, same) = get_key-index h n τ v e in
    (
      omega arith,
      omega (arith, key-least h.items i v.ordered inside, ap (λ (x : Item). x.key) same),
    )

top-below :
    (h r : KHeap) (node : ℕ)
    → IsValid h
    → IsValid r
    → 0 < size r
    → is_top r node ≡ false
    → ((n : ℕ) → n ≢ node → get_key r n ≡ get_key h n)
    → (0 < size h) × (top_key h ≤ top_key r)
top-below h r node v w filled low same =
    let apart : node_at r.items 0 ≢ node =
      λ e. ground (arith, low, w.placed.kept 0 filled, ap r.pos e) in
    top_key-least h (node_at r.items 0) (top_key r) v
      (sym (same (node_at r.items 0) apart) ∙ get_key-top r w filled)

-- While a node that is not on top changes, the top key stays.
pub top_key_same :
    (h r : KHeap) (node : ℕ)
    → IsValid h
    → IsValid r
    → 0 < size r
    → is_top h node ≡ false
    → is_top r node ≡ false
    → ((n : ℕ) → n ≢ node → get_key r n ≡ get_key h n)
    → (0 < size h) × (top_key r ≡ top_key h)
top_key_same h r node v w filled low low' same =
    let (some_h, a) = top-below h r node v w filled low' same in
    let (some_r, b) = top-below r h node w v some_h low (λ n e. sym (same n e)) in
    (some_h, omega arith)
