-- ===== src/FlatHash/Find.antt =====
-- FlatHashTable.h: the loop over the buckets of a key ends, at its node or at an empty one.
use native.Mathlib.Decide.{ℕ_discrete}
use pxc_core.Prelude.{
  ℕ, zero, suc, ◌+◌, ◌≤◌, ◌<◌, ◌==◌, ◌≡◌, ◌≢◌, refl, sym, ap, ◌∙◌, if◌then◌else◌, true, false, none,
  some, length, arith, Option-cases, Bool-cases, inl, inr,
}
use pxc_core.FlatHash.{
  Entry, Nodes, node_at, Probe, found, vacant, calc_bucket, next_bucket, probe_from, vacant_from,
}
use pxc_core.FlatHash.Circle.{
  between, between_cases, between-next, distance, distance-next, next_bucket_lem, calc_bucket-le,
}
use pxc_core.FlatHash.Nodes.{node_at-lt}
use pxc_core.FlatHash.Valid.{Valid}

module _ {V : Type 0} (hash : ℕ → ℕ) (nodes : Nodes V) (mask key : ℕ)
    (valid : Valid hash nodes mask) where
  -- No node has the key.
  abbrev pub Absent : Type 0
  Absent = (j : ℕ) (e : Entry V) → node_at nodes j ≡ some e → e.first ≢ key

  abbrev pub Clear : ℕ → Type 0
  Clear i =
      (j : ℕ) → between (calc_bucket hash mask key) i j ≡ true → j ≤ mask → node_at nodes j ≢ none

  pub data Outcome (r : Probe) : Type 0 where
    hit : (i : ℕ) (e : Entry V) → r ≡ found i → node_at nodes i ≡ some e → e.first ≡ key → Outcome r
    miss : (i : ℕ) → r ≡ vacant i → i ≤ mask → node_at nodes i ≡ none → Absent → Clear i → Outcome r

  -- The nodes before `b` are not empty and have other keys.
  Walked : ℕ → Type 0
  Walked b =
      (j : ℕ)
      → between (calc_bucket hash mask key) b j ≡ true
      → j ≤ mask
      → (e : Entry V) × (node_at nodes j ≡ some e) × (e.first ≢ key)

  absent_here : (b : ℕ) → b ≤ mask → node_at nodes b ≡ none → Walked b → Absent
  unfolding Walked
  absent_here b h empty walked j e here same =
      let inside : j < length nodes = node_at-lt nodes j e here in
      let size : length nodes ≡ mask + 1 = valid.size in
      elim (ℕ_discrete b j) [
        | yes s ↦ ground (arith, ap (node_at nodes) s, here, empty)
        | no s ↦ elim (between_cases (calc_bucket hash mask key) b j s) [
          | inl w ↦
              let (f, at, other) = walked j w (omega arith) in ground (arith, at, other, here, same)
          | inr w ↦ valid.reach j b e here (rw same w) h empty
        ]
      ]

  nothing_here : (b : ℕ) → Walked b → Clear b
  unfolding Walked
  nothing_here b walked j w inside =
      let (e, at, other) = walked j w inside in λ z. ground (arith, at, z)

  steps_on :
      (b : ℕ) (e : Entry V)
      → b ≤ mask
      → node_at nodes b ≡ some e
      → e.first ≢ key
      → Walked b
      → Walked (next_bucket mask b)
  unfolding Walked
  steps_on b e h here other walked j w inside = elim (ℕ_discrete j b) [
    | yes s ↦ (e, ap (node_at nodes) s ∙ here, other)
    | no s ↦
        walked j
          (between-next mask (calc_bucket hash mask key) b j (calc_bucket-le hash mask key) h inside
            (sym (ap (λ n. between (calc_bucket hash mask key) n j) (next_bucket_lem mask b h)) ∙ w)
            s)
          inside
  ]

  probe_from-Outcome :
      (fuel b v : ℕ)
      → b ≤ mask
      → v ≤ mask
      → node_at nodes v ≡ none
      → distance mask b v < fuel
      → Walked b
      → Outcome (probe_from hash fuel nodes mask key b)
  unfolding probe_from
  probe_from-Outcome zero b v hb hv empty enough walked = absurd (omega arith)
  probe_from-Outcome (suc fuel) b v hb hv empty enough walked =
      elim (Option-cases (node_at nodes b)) [
        | inl e ↦
            miss b (rw (probe_from, e) refl) hb e (absent_here b hb e walked)
              (nothing_here b walked)
        | inr (f, e) ↦ elim (Bool-cases (f.first == key)) [
          | inl s ↦ hit b f (rw (probe_from, e, s) refl) e (ground (arith, s))
          | inr s ↦
              let other : f.first ≢ key = ground (arith, s) in
              let apart : b ≢ v = λ z. ground (arith, e, empty, ap (node_at nodes) z) in
              let next : ℕ = next_bucket mask b in
              let on : next ≡ (if b == mask then 0 else b + 1) = next_bucket_lem mask b hb in
              rw (probe_from, e, s)
                (probe_from-Outcome fuel next v (ground (arith, on)) hv empty
                  (omega
                    (arith, ap (λ n. distance mask n v) on, distance-next mask b v hb hv apart))
                  (steps_on b f hb e other walked))
        ]
      ]

  -- With an empty node somewhere, the loop from the bucket of the key ends.
  pub probe-Outcome :
      (v : ℕ)
      → node_at nodes v ≡ none
      → v ≤ mask
      → Outcome (probe_from hash (mask + 1) nodes mask key (calc_bucket hash mask key))
  unfolding Walked
  probe-Outcome v empty hv =
      let home : ℕ = calc_bucket hash mask key in
      let inside : home ≤ mask = calc_bucket-le hash mask key in
      probe_from-Outcome (mask + 1) home v inside hv empty (ground arith)
        (λ j w h. absurd (ground (arith, w)))

  -- For a key that no node has, the loop of `resize` goes the same way.
  pub vacant_from-probe_from :
      (fuel b : ℕ)
      → Absent
      → vacant_from hash fuel nodes mask b ≡ probe_from hash fuel nodes mask key b
  unfolding vacant_from probe_from
  vacant_from-probe_from zero b none_has = refl
  vacant_from-probe_from (suc fuel) b none_has = elim (Option-cases (node_at nodes b)) [
    | inl e ↦ rw (vacant_from, probe_from, e) refl
    | inr (f, e) ↦
        let s : (f.first == key) ≡ false = ground (arith, none_has b f e) in
        rw (vacant_from, probe_from, e, s)
          (vacant_from-probe_from fuel (next_bucket mask b) none_has)
  ]
