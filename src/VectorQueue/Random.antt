-- ===== src/VectorQueue/Random.antt =====
-- `pop_rand` of VectorQueue.h. The index `rnd() % size()` is not moved by `read_pos_`.
use mathlib.Core.List.{Perm}
use mathlib.Core.List.Perm
use pxc_core.Prelude.{
  ℕ, zero, suc, ◌+◌, ◌%◌, ◌<◌, ◌≡◌, refl, ap, sym, subst, ◌∙◌, some, List, [], ◌∷◌, arith, length,
  get_elem?, set, drop, length-set, get_elem?-some, drop-drop,
}
use pxc_core.VectorQueue.{VectorQueue, swap_slots, pop, size, as_span, pop_rand}
use pxc_core.VectorQueue.Refine.{IsValid, pop-as_span}

module _ {ℓ} {T : Type ℓ} where
  -- Exchanging an element for another one inside a list.
  set-perm :
      (xs : List T) (i : ℕ) (a b : T) → get_elem? xs i ≡ some a → Perm (a ∷ set xs i b) (b ∷ xs)
  set-perm [] i a b e = absurd (cc e)
  set-perm (x ∷ xs) zero a b e = let same : x ≡ a = cc in rw same (Perm.swap b a xs)
  set-perm (x ∷ xs) (suc i) a b e =
      Perm.trans (Perm.swap x a (set xs i b))
        (Perm.trans (Perm.cons x (set-perm xs i a b e)) (Perm.swap b x xs))

  exchange-perm :
      (xs : List T) (i : ℕ) (x f : T)
      → get_elem? xs 0 ≡ some f
      → get_elem? xs i ≡ some x
      → Perm (x ∷ drop 1 (set xs i f)) xs
  exchange-perm [] i x f e at = absurd (cc e)
  exchange-perm (y ∷ xs) zero x f e at = let same : y ≡ x = cc in rw same (Perm.refl (x ∷ xs))
  exchange-perm (y ∷ xs) (suc i) x f e at = let same : y ≡ f = cc in rw same (set-perm xs i x f at)

  drop-set_above : (xs : List T) (i n : ℕ) (v : T) → i < n → drop n (set xs i v) ≡ drop n xs
  drop-set_above [] i n v h = refl
  drop-set_above (x ∷ xs) i zero v h = absurd (omega arith)
  drop-set_above (x ∷ xs) zero (suc n) v h = refl
  drop-set_above (x ∷ xs) (suc i) (suc n) v h = drop-set_above xs i n v (omega arith)

  drop-set_at :
      (xs : List T) (n : ℕ) (v : T) → n < length xs → drop n (set xs n v) ≡ v ∷ drop (n + 1) xs
  drop-set_at [] n v h = absurd (omega arith)
  drop-set_at (x ∷ xs) zero v h = ground arith
  drop-set_at (x ∷ xs) (suc n) v h =
      let e : suc n + 1 ≡ suc (n + 1) = omega arith in rw (e, drop-set_at xs n v (omega arith))

  -- Once the exchange is made, `pop` takes the value that was moved to the read position.
  pop_swapped :
      (q : VectorQueue T) (i : ℕ) (x f : T)
      → q.read_pos < length q.vector
      → get_elem? q.vector i ≡ some x
      → get_elem? q.vector q.read_pos ≡ some f
      → (q' : VectorQueue T) × (pop (record q { vector = set (set q.vector i f) q.read_pos x })
          ≡ some (x, q'))
        × (as_span q' ≡ drop (q.read_pos + 1) (set q.vector i f))
  unfolding as_span
  pop_swapped q i x f h at_i at_front =
      let moved : List T = set q.vector i f in
      let n : length moved ≡ length q.vector = length-set q.vector i f in
      let q1 : VectorQueue T = record q { vector = set moved q.read_pos x } in
      let (q', got, rest, fits) =
        pop-as_span q1 x (drop (q.read_pos + 1) moved)
          (omega (arith, length-set moved q.read_pos x, n))
          (drop-set_at moved q.read_pos x (omega (arith, n))) in
      (q', got, rest)

  pop_rand_lem :
      (q : VectorQueue T) (rnd : ℕ) (x f : T)
      → 0 < size q
      → get_elem? q.vector (rnd % size q) ≡ some x
      → get_elem? q.vector q.read_pos ≡ some f
      → pop_rand q rnd
        ≡ pop (record q { vector = set (set q.vector (rnd % size q) f) q.read_pos x })
  unfolding pop_rand swap_slots
  pop_rand_lem q rnd x f h at_i at_front = ground arith

  size_fresh : (q : VectorQueue T) → q.read_pos ≡ 0 → size q ≡ length q.vector
  unfolding size
  size_fresh q z = omega arith

  as_span_fresh : (q : VectorQueue T) → q.read_pos ≡ 0 → as_span q ≡ q.vector
  unfolding as_span
  as_span_fresh q z = ap (λ k. drop k q.vector) z

  size_pos : (q : VectorQueue T) → 0 < size q → q.read_pos < length q.vector
  unfolding size
  size_pos q h = omega arith

  as_span-drop : (q : VectorQueue T) (k : ℕ) → drop k (as_span q) ≡ drop (q.read_pos + k) q.vector
  unfolding as_span
  as_span-drop q k = drop-drop k q.read_pos q.vector

  -- With no consumed slot in the vector `pop_rand` gives one of the live elements, and leaves
  -- exactly the others.
  pub pop_rand-perm :
      (q : VectorQueue T) (rnd : ℕ)
      → q.read_pos ≡ 0
      → 0 < length q.vector
      → (x : T) × (q' : VectorQueue T) × (pop_rand q rnd ≡ some (x, q'))
        × Perm (x ∷ as_span q') (as_span q)
  pop_rand-perm q rnd z h =
      let n : size q ≡ length q.vector = size_fresh q z in
      let i : ℕ = rnd % size q in
      let (x, at_i) = get_elem?-some q.vector i (omega (arith, n)) in
      let (f, at_front) = get_elem?-some q.vector q.read_pos (omega (arith, z)) in
      let (q', got, rest) = pop_swapped q i x f (omega (arith, z)) at_i at_front in
      (
        x,
        q',
        pop_rand_lem q rnd x f (omega (arith, n)) at_i at_front ∙ got,
        subst (λ l. Perm (x ∷ l) (as_span q))
            (sym (rest ∙ ap (λ k. drop (k + 1) (set q.vector i f)) z))
            (subst (Perm (x ∷ drop 1 (set q.vector i f))) (sym (as_span_fresh q z))
              (exchange-perm q.vector i x f (ap (get_elem? q.vector) (sym z) ∙ at_front) at_i)),
      )

  -- The defect: whenever the drawn index lies below the read position, `pop_rand` returns the
  -- value in a slot that was consumed before, and the first live element is gone.
  pub pop_rand_consumed :
      (q : VectorQueue T) (rnd : ℕ)
      → IsValid q
      → 0 < size q
      → rnd % size q < q.read_pos
      → (x : T) × (q' : VectorQueue T) × (pop_rand q rnd ≡ some (x, q'))
        × (get_elem? q.vector (rnd % size q) ≡ some x)
        × (as_span q' ≡ drop 1 (as_span q))
  pop_rand_consumed q rnd v h below =
      let i : ℕ = rnd % size q in
      let n : q.read_pos < length q.vector = size_pos q h in
      let (x, at_i) = get_elem?-some q.vector i (omega (arith, n)) in
      let (f, at_front) = get_elem?-some q.vector q.read_pos n in
      let (q', got, rest) = pop_swapped q i x f n at_i at_front in
      (
        x,
        q',
        pop_rand_lem q rnd x f h at_i at_front ∙ got,
        at_i,
        rest ∙ drop-set_above q.vector i (q.read_pos + 1) f (omega arith) ∙ sym (as_span-drop q 1),
      )
