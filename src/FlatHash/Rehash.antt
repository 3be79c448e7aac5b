-- ===== src/FlatHash/Rehash.antt =====
-- FlatHashTable.h: `resize` moves every entry, so the map stays the same.
use pxc_core.Prelude.{
  ℕ, zero, suc, ◌+◌, ◌≤◌, ◌≡◌, ◌≢◌, refl, sym, ap, fun_ext, ◌∙◌, Option, none, some, [], ◌∷◌,
  length, set, arith, Option-cases, inl, inr, ok,
}
use pxc_core.FlatHash.{Entry, Nodes, node_at, vacant, calc_bucket, vacant_from, probe_from, rehash}
use pxc_core.FlatHash.Nodes.{occupied, occupied-fill, vacancy}
use pxc_core.FlatHash.Valid.{Valid, Represents, update}
use pxc_core.FlatHash.Find.{Absent, hit, miss, probe-Outcome, vacant_from-probe_from}
use pxc_core.FlatHash.Fill.{fill-Valid, fill-Represents}

module _ {V : Type 0} where
  -- The map with all entries of an array put in.
  pub extend : (ℕ → Option V) → Nodes V → ℕ → Option V
  extend m [] = m
  extend m (none ∷ old) = extend m old
  extend m (some e ∷ old) = extend (update m e.first (some e.second)) old

  -- The entries of an array have different keys, and none is in the map.
  pub record Fresh (old : Nodes V) (m : ℕ → Option V) : Type 0 where
    pub new : (i : ℕ) (e : Entry V) → node_at old i ≡ some e → m e.first ≡ none
    pub unique :
        (i j : ℕ) (e f : Entry V)
        → node_at old i ≡ some e
        → node_at old j ≡ some f
        → e.first ≡ f.first
        → i ≡ j
    pub named : (i : ℕ) (e : Entry V) → node_at old i ≡ some e → e.first ≢ 0

  Fresh-none : (old : Nodes V) (m : ℕ → Option V) → Fresh (none ∷ old) m → Fresh old m
  Fresh-none old m f = record {
    new = λ i. f.new (suc i);
    unique = λ i j e g a b same. omega (arith, f.unique (suc i) (suc j) e g a b same);
    named = λ i. f.named (suc i);
  }

  Fresh-some :
      (e : Entry V) (old : Nodes V) (m : ℕ → Option V)
      → Fresh (some e ∷ old) m
      → Fresh old (update m e.first (some e.second))
  Fresh-some e old m f = record {
    new = λ i g here.
        let other : g.first ≢ e.first =
          λ same. absurd (omega (arith, f.unique (suc i) 0 g e here refl same)) in
        ground (arith, other, f.new (suc i) g here);
    unique = λ i j g h a b same. omega (arith, f.unique (suc i) (suc j) g h a b same);
    named = λ i. f.named (suc i);
  }

  extend-absent :
      (old : Nodes V) (m : ℕ → Option V) (k : ℕ)
      → ((i : ℕ) (e : Entry V) → node_at old i ≡ some e → e.first ≢ k)
      → extend m old k ≡ m k
  unfolding extend
  extend-absent [] m k h = refl
  extend-absent (none ∷ old) m k h = extend-absent old m k (λ i. h (suc i))
  extend-absent (some e ∷ old) m k h =
      extend-absent old (update m e.first (some e.second)) k (λ i. h (suc i))
      ∙ ground (arith, h 0 e refl)

  extend-held :
      (old : Nodes V) (m : ℕ → Option V) (i : ℕ) (e : Entry V)
      → Fresh old m
      → node_at old i ≡ some e
      → extend m old e.first ≡ some e.second
  unfolding extend
  extend-held [] m i e f here = cc
  extend-held (none ∷ old) m zero e f here = cc
  extend-held (none ∷ old) m (suc i) e f here = extend-held old m i e (Fresh-none old m f) here
  extend-held (some g ∷ old) m zero e f here =
      extend-absent old (update m g.first (some g.second)) e.first
        (λ i x at same. absurd (omega (arith, f.unique (suc i) 0 x e at here same)))
      ∙ ground (arith, here)
  extend-held (some g ∷ old) m (suc i) e f here =
      extend-held old (update m g.first (some g.second)) i e (Fresh-some g old m f) here

  -- The entries of an array put into the empty map.
  pub extend-Represents :
      (old : Nodes V) (m : ℕ → Option V)
      → Represents old m
      → Fresh old (λ k. none)
      → extend (λ k. none) old ≡ m
  extend-Represents old m rep f = fun_ext (λ k. elim (Option-cases (m k)) [
    | inl e ↦
        extend-absent old (λ k. none) k
          (λ i x here same. ground (arith, rep.listed i x here, ap m same, e))
        ∙ sym e
    | inr (v, e) ↦
        let (i, here) = rep.held k v e in
        extend-held old (λ k. none) i (record { first = k; second = v }) f here ∙ sym e
  ])

module _ {V : Type 0} (hash : ℕ → ℕ) where
  pub rehash-Valid :
      (old nodes : Nodes V) (m : ℕ → Option V) (mask : ℕ)
      → Valid hash nodes mask
      → Represents nodes m
      → Fresh old m
      → occupied nodes + occupied old ≤ mask
      → (r : Nodes V) × (rehash hash old nodes mask ≡ ok r)
        × Valid hash r mask
        × Represents r (extend m old)
        × (occupied r ≡ occupied nodes + occupied old)
  unfolding rehash extend occupied
  rehash-Valid [] nodes m mask valid rep f room = (nodes, refl, valid, rep, omega arith)
  rehash-Valid (none ∷ old) nodes m mask valid rep f room =
      rehash-Valid old nodes m mask valid rep (Fresh-none old m f) room
  rehash-Valid (some e ∷ old) nodes m mask valid rep f room =
      let size : length nodes ≡ mask + 1 = valid.size in
      let absent : Absent hash nodes mask e.first valid =
        λ j g here same. ground (arith, rep.listed j g here, f.new 0 e refl, ap m same) in
      let (v, inside, empty) = vacancy nodes (omega arith) in
      let same : vacant_from hash (length nodes) nodes mask (calc_bucket hash mask e.first)
          ≡ probe_from hash (mask + 1) nodes mask e.first (calc_bucket hash mask e.first) =
        ap (λ n. vacant_from hash n nodes mask (calc_bucket hash mask e.first)) size
        ∙ vacant_from-probe_from hash nodes mask e.first valid (mask + 1) _ absent in
      elim (probe-Outcome hash nodes mask e.first valid v empty (omega arith)) [
        | hit i g r here other ↦ absurd (absent i g here other)
        | miss i r hi free none_has clear ↦
            let next : Nodes V = set nodes i (some e) in
            let more : occupied next ≡ occupied nodes + 1 =
              occupied-fill nodes i e (omega arith) free in
            let stop : vacant_from hash (length nodes) nodes mask (calc_bucket hash mask e.first)
                ≡ vacant i =
              same ∙ r in
            let (res, done, ok', rep', count) =
              rehash-Valid old next (update m e.first (some e.second)) mask
                (fill-Valid hash nodes mask i e.first e.second valid hi free absent clear
                  (f.named 0 e refl))
                (fill-Represents hash nodes m mask i e.first e.second valid rep hi free absent)
                (Fresh-some e old m f) (omega arith) in
            (res, rw (rehash, stop) done, ok', rep', omega arith)
      ]
