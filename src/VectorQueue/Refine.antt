-- ===== src/VectorQueue/Refine.antt =====
-- VectorQueue.h as a first-in first-out list: what each method does to the live elements.
use pxc_core.Prelude.{
  ℕ, ◌+◌, ◌≤◌, ◌≡◌, refl, ap, sym, ◌∙◌, Option, none, some, List, [], ◌∷◌, ◌++◌, arith, length,
  get_elem?, drop, length-append, length-drop, drop-append_left, drop-get_elem?, drop-drop,
  get_elem?-none, get_elem?-drop, drop-nil→le,
}
use mathlib.Core.Option
use pxc_core.VectorQueue.{VectorQueue, try_shrink, push, take_next, pop, pop_n, size, as_span}

module _ {ℓ} {T : Type ℓ} where
  -- The read position lies inside the vector.
  abbrev pub IsValid : VectorQueue T → Type 0
  IsValid q = q.read_pos ≤ length q.vector

  -- Releasing the prefix changes no live element.
  pub try_shrink-as_span :
      (q : VectorQueue T)
      → IsValid q
      → (as_span (try_shrink q) ≡ as_span q) × IsValid (try_shrink q)
  unfolding try_shrink as_span
  try_shrink-as_span q v = ground arith

  pub push-as_span :
      (q : VectorQueue T) (x : T)
      → IsValid q
      → (as_span (push q x) ≡ as_span q ++ x ∷ []) × IsValid (push q x)
  unfolding push as_span
  push-as_span q x v =
      (drop-append_left q.read_pos q.vector _ v, omega (arith, length-append q.vector (x ∷ [])))

  -- The slot at the read position holds the first live element.
  get_elem?-of-as_span :
      (q : VectorQueue T) (x : T) (xs : List T)
      → as_span q ≡ x ∷ xs
      → get_elem? q.vector q.read_pos ≡ some x
  unfolding as_span
  get_elem?-of-as_span q x xs e =
      let at : get_elem? (drop q.read_pos q.vector) 0 ≡ some x = rw e in
      let n : q.read_pos + 0 ≡ q.read_pos = omega arith in
      ap (get_elem? q.vector) (omega arith) ∙ sym (get_elem?-drop q.read_pos 0 q.vector) ∙ at

  take_next-as_span :
      (q : VectorQueue T) (x : T) (xs : List T)
      → as_span q ≡ x ∷ xs
      → (q' : VectorQueue T) × (take_next q ≡ some (x, q')) × (as_span q' ≡ xs) × IsValid q'
  unfolding take_next as_span
  take_next-as_span q x xs e =
      let at = get_elem?-of-as_span q x xs e in
      let split = drop-get_elem? q.read_pos q.vector x at in
      (
        record q { read_pos = q.read_pos + 1 },
        rw (at, take_next),
        cc,
        ground (arith, get_elem?-none q.vector q.read_pos),
      )

  -- `pop` on a queue with live elements gives the first and leaves the others.
  pub pop-as_span :
      (q : VectorQueue T) (x : T) (xs : List T)
      → IsValid q
      → as_span q ≡ x ∷ xs
      → (q' : VectorQueue T) × (pop q ≡ some (x, q')) × (as_span q' ≡ xs) × IsValid q'
  unfolding pop
  pop-as_span q x xs v e = take_next-as_span (try_shrink q) x xs ((try_shrink-as_span q v).0 ∙ e)

  -- `pop` on a queue with no live element reads past the end.
  pub pop-none : (q : VectorQueue T) → IsValid q → as_span q ≡ [] → pop q ≡ none
  unfolding pop take_next
  pop-none q v e =
      let (same, fits) = try_shrink-as_span q v in
      rw (get_elem?-none _ (try_shrink q).read_pos (past same), take_next)
    where
      past :
          as_span (try_shrink q) ≡ as_span q
          → length (try_shrink q).vector ≤ (try_shrink q).read_pos
      past same =
          drop-nil→le (try_shrink q).read_pos (try_shrink q).vector (unfold as_span in (same ∙ e))

  -- `pop_n` of at most `size()` elements drops that many live elements, and the read position
  -- stays inside the vector.
  pub pop_n-as_span :
      (q : VectorQueue T) (n : ℕ)
      → n ≤ size q
      → IsValid q
      → (as_span (pop_n q n) ≡ drop n (as_span q)) × IsValid (pop_n q n)
  unfolding pop_n size as_span
  pop_n-as_span q n h v =
      let moved : VectorQueue T = record q { read_pos = q.read_pos + n } in
      let (same, fits) = try_shrink-as_span moved (omega arith) in
      (same ∙ sym (drop-drop n q.read_pos q.vector), fits)

  pub size-length : (q : VectorQueue T) → IsValid q → size q ≡ length (as_span q)
  unfolding size as_span
  size-length q v = omega (arith, length-drop q.read_pos q.vector)

-- The calls of a client that only appends and takes.
pub data Call {ℓ} (T : Type ℓ) : Type ℓ where
  pushes : T → Call T
  pops : Call T

module _ {ℓ} {T : Type ℓ} where
  -- What the `pop` calls return; `none` when one of them meets an empty queue.
  pub run : VectorQueue T → List (Call T) → Option (List T)
  run q [] = some []
  run q (pushes x ∷ cs) = run (push q x) cs
  run q (pops ∷ cs) = elim (pop q) [
    | none ↦ none
    | some (x, q') ↦ Option.map (λ out. x ∷ out) (run q' cs)
  ]

  -- The same calls on the list of live elements, first in first out.
  pub fifo : List T → List (Call T) → Option (List T)
  fifo xs [] = some []
  fifo xs (pushes x ∷ cs) = fifo (xs ++ x ∷ []) cs
  fifo [] (pops ∷ cs) = none
  fifo (x ∷ xs) (pops ∷ cs) = Option.map (λ out. x ∷ out) (fifo xs cs)

  run-fifo_at :
      (q : VectorQueue T) (xs : List T) (cs : List (Call T))
      → IsValid q
      → as_span q ≡ xs
      → run q cs ≡ fifo xs cs
  unfolding run fifo
  run-fifo_at q xs [] v e = refl
  run-fifo_at q xs (pushes x ∷ cs) v e =
      let (e', v') = push-as_span q x v in
      run-fifo_at (push q x) (xs ++ x ∷ []) cs v' (e' ∙ ap (λ l. l ++ x ∷ []) e)
  run-fifo_at q [] (pops ∷ cs) v e = rw (pop-none q v e, run)
  run-fifo_at q (x ∷ xs) (pops ∷ cs) v e =
      let (q', got, e', v') = pop-as_span q x xs v e in rw (got, run, run-fifo_at q' xs cs v' e')

  -- Any sequence of `push` and `pop` on a valid queue returns what a first-in first-out list of
  -- its live elements returns, with the shrinks in between; it fails just where the list does,
  -- at a `pop` with nothing left.
  pub run-fifo :
      (q : VectorQueue T) (cs : List (Call T)) → IsValid q → run q cs ≡ fifo (as_span q) cs
  run-fifo q cs v = run-fifo_at q (as_span q) cs v refl
