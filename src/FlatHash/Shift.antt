-- ===== src/FlatHash/Shift.antt =====
-- FlatHashTable.h: the two loops of `erase_node` end and leave a valid array.
use pxc_core.Prelude.{
  ℕ, zero, suc, ◌+◌, ◌-◌, ◌≤◌, ◌<◌, ltb, leb, ◌≡◌, ◌≢◌, ◌⊎◌, refl, sym, ap, subst, ◌||◌, Option,
  none, arith, Option-cases, Bool-cases, inl, inr, Result, ok,
}
use pxc_core.FlatHash.{Nodes, node_at, Fault, calc_bucket, erase_wrapped, erase_tail}
use pxc_core.FlatHash.Circle.{
  between, between-end, calc_bucket-le, tail-between, wanted, wrapped-between,
  wrapped-between_moved,
}
use pxc_core.FlatHash.Nodes.{occupied, node_at-lt}
use pxc_core.FlatHash.Valid.{Valid, Represents}
use pxc_core.FlatHash.Hole.{
  Hole, stay-Hole, end-Valid, moved, move-Hole, move-Represents, occupied-moved, node_at-moved,
}

module _ {V : Type 0} (hash : ℕ → ℕ) (m : ℕ → Option V) (mask v : ℕ) (hv : v ≤ mask) where
  -- The loop ended with a valid array of `n` entries that represents `m`.
  abbrev pub Closed : ℕ → Result Fault (Nodes V) → Type 0
  Closed n result =
      (r : Nodes V) × (result ≡ ok r) × Valid hash r mask × Represents r m × (occupied r ≡ n)

  -- The empty position is counted on behind the end of the array once it has moved there.
  Counted : ℕ → ℕ → ℕ → Type 0
  Counted hole empty_i test =
      ((empty_i ≡ hole) × (v < hole)) ⊎ ((empty_i ≡ hole + (mask + 1)) × (hole < test))

  wanted-between :
      (want hole empty_i test : ℕ)
      → want ≤ mask
      → hole ≤ mask
      → test ≤ v
      → Counted hole empty_i test
      → (leb (wanted mask want empty_i) empty_i
          || ltb (test + (mask + 1)) (wanted mask want empty_i))
        ≡ between want test hole
  unfolding Counted
  wanted-between want hole empty_i test a b c (inl (e, lt)) =
      rw e (wrapped-between mask want test hole a (omega arith) b)
  wanted-between want hole empty_i test a b c (inr (e, lt)) =
      rw e (wrapped-between_moved mask want test hole a lt)

  erase_wrapped-Closed :
      (fuel : ℕ) (nodes : Nodes V) (hole empty_i test : ℕ)
      → Hole hash nodes mask hole test
      → Represents nodes m
      → node_at nodes v ≡ none
      → v ≢ hole
      → test ≤ v
      → v < test + fuel
      → Counted hole empty_i test
      → Closed
          (occupied nodes)
          (erase_wrapped hash fuel nodes mask empty_i hole (test + (mask + 1)))
  unfolding erase_wrapped
  erase_wrapped-Closed zero nodes hole empty_i test h rep empty apart le enough counted =
      absurd (omega arith)
  erase_wrapped-Closed (suc fuel) nodes hole empty_i test h rep empty apart le enough counted =
      let bucket : test + (mask + 1) - (mask + 1) ≡ test = omega arith in
      let next : test + (mask + 1) + 1 ≡ test + 1 + (mask + 1) = omega arith in
      let other : test ≢ hole = unfold Counted in (λ z. ground (arith, counted, z)) in
      elim (Option-cases (node_at nodes test)) [
        | inl e ↦ (
          nodes,
          rw (erase_wrapped, bucket, e) refl,
          end-Valid hash nodes mask hole test h e (omega arith) other,
          rep,
          refl,
        )
        | inr (f, e) ↦
            let want : ℕ = calc_bucket hash mask f.first in
            let on : v ≢ test = λ z. ground (arith, e, empty, ap (node_at nodes) z) in
            let inside : test ≤ mask = omega arith in
            let c =
              wanted-between want hole empty_i test (calc_bucket-le hash mask f.first) h.inside le
                counted in
            elim (Bool-cases (between want test hole)) [
              | inl b ↦
                  let still : node_at (moved nodes hole test f) v ≡ none = ground (
                    arith,
                    node_at-moved hash nodes mask hole test v f h.size h.inside inside,
                    on,
                    apart,
                    empty,
                  ) in
                  rw (erase_wrapped, bucket, e, c, b, bucket, next)
                    (subst
                      (λ n. Closed n (
                        erase_wrapped hash fuel (moved nodes hole test f) mask (test + (mask + 1))
                          test (test + 1 + (mask + 1))))
                      (occupied-moved hash nodes mask hole test f h e inside)
                      (erase_wrapped-Closed fuel (moved nodes hole test f) test (test + (mask + 1))
                        (test + 1) (move-Hole hash nodes mask hole test f h e inside b)
                        (move-Represents hash nodes m mask hole test f h rep e inside) still on
                        (omega arith) (omega arith) (unfold Counted in (inr (refl, omega arith)))))
              | inr b ↦
                  rw (erase_wrapped, bucket, e, c, b, next)
                    (erase_wrapped-Closed fuel nodes hole empty_i (test + 1)
                      (stay-Hole hash nodes mask hole test f h e b) rep empty apart (omega arith)
                      (omega arith) (unfold Counted in (ground (arith, counted))))
            ]
      ]

  pub erase_tail-Closed :
      (rest : ℕ) (nodes : Nodes V) (hole test : ℕ)
      → Hole hash nodes mask hole test
      → Represents nodes m
      → node_at nodes v ≡ none
      → v ≢ hole
      → hole < test
      → test + rest ≡ mask + 1
      → Closed (occupied nodes) (erase_tail hash rest nodes mask hole test)
  unfolding erase_tail
  erase_tail-Closed zero nodes hole test h rep empty apart lt end =
      let all : test ≡ mask + 1 = omega arith in
      let h' : Hole hash nodes mask hole (mask + 1) =
        subst (λ n. Hole hash nodes mask hole n) all h in
      let before : v < hole = elim (Bool-cases (ltb v hole)) [
        | inl t ↦ ground (arith, t)
        | inr t ↦ absurd (h'.scanned v (ground (arith, t)) hv apart empty)
      ] in
      let wrapped : Hole hash nodes mask hole 0 = record {
        size = h'.size;
        inside = h'.inside;
        free = h'.free;
        scanned = λ j way le. h'.scanned j (between-end mask hole j le way) le;
        settled = λ i e here way.
            h'.settled i e here
              (between-end mask hole i (omega (arith, node_at-lt nodes i e here, h'.size)) way);
        reach = h'.reach;
        unique = h'.unique;
        named = h'.named;
      } in
      let start : mask + 1 ≡ 0 + (mask + 1) = omega arith in
      subst (λ n. Closed (occupied nodes) (erase_wrapped hash (mask + 1) nodes mask hole hole n))
        (sym start)
        (erase_wrapped-Closed (mask + 1) nodes hole hole 0 wrapped rep empty apart (omega arith)
          (omega arith) (unfold Counted in (inl (refl, before))))
  erase_tail-Closed (suc rest) nodes hole test h rep empty apart lt end =
      let inside : test ≤ mask = omega arith in
      elim (Option-cases (node_at nodes test)) [
        | inl e ↦ (
          nodes,
          rw (erase_tail, e) refl,
          end-Valid hash nodes mask hole test h e inside (λ z. omega arith),
          rep,
          refl,
        )
        | inr (f, e) ↦
            let want : ℕ = calc_bucket hash mask f.first in
            let on : v ≢ test = λ z. ground (arith, e, empty, ap (node_at nodes) z) in
            let c = tail-between want test hole lt in
            elim (Bool-cases (between want test hole)) [
              | inl b ↦
                  let still : node_at (moved nodes hole test f) v ≡ none = ground (
                    arith,
                    node_at-moved hash nodes mask hole test v f h.size h.inside inside,
                    on,
                    apart,
                    empty,
                  ) in
                  rw (erase_tail, e, c, b)
                    (subst
                      (λ n.
                        Closed n
                          (erase_tail hash rest (moved nodes hole test f) mask test (test + 1)))
                      (occupied-moved hash nodes mask hole test f h e inside)
                      (erase_tail-Closed rest (moved nodes hole test f) test (test + 1)
                        (move-Hole hash nodes mask hole test f h e inside b)
                        (move-Represents hash nodes m mask hole test f h rep e inside) still on
                        (omega arith) (omega arith)))
              | inr b ↦
                  rw (erase_tail, e, c, b)
                    (erase_tail-Closed rest nodes hole (test + 1)
                      (stay-Hole hash nodes mask hole test f h e b) rep empty apart (omega arith)
                      (omega arith))
            ]
      ]
