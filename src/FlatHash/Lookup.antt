-- ===== src/FlatHash/Lookup.antt =====
-- FlatHashTable.h: `find`, on every table.
use pxc_core.Prelude.{
  ℕ, ◌+◌, ◌≤◌, ◌==◌, ◌≡◌, refl, sym, ap, ◌∙◌, true, false, Option, none, some, length, arith,
  Option-cases, Bool-cases, inl, inr, ok,
}
use pxc_core.FlatHash.{Entry, node_at, FlatHashTable, probe, find_impl}
use pxc_core.FlatHash.Nodes.{vacancy, occupied}
use pxc_core.FlatHash.Find.{Absent, Outcome, hit, miss, probe-Outcome}
use pxc_core.FlatHash.Table.{IsTable, Allocated, allocated, unallocated}

-- What the pointer that `find` returns points to.
abbrev pub value_at : {V : Type 0} → FlatHashTable V → Option ℕ → Option V
value_at t node = elim node [
  | none ↦ none
  | some i ↦ elim (node_at t.nodes i) [ none ↦ none | some e ↦ some e.second ]
]

module _ {V : Type 0} (hash : ℕ → ℕ) (limit : ℕ) where
  pub not_full :
      (t : FlatHashTable V) (m : ℕ → Option V)
      → Allocated hash limit t m
      → (v : ℕ) × (node_at t.nodes v ≡ none) × (v ≤ t.bucket_count_mask)
  not_full t m a =
      let size : length t.nodes ≡ t.bucket_count_mask + 1 = a.valid.size in
      let used : t.used_node_count ≡ occupied t.nodes = a.used in
      let room : t.used_node_count ≤ t.bucket_count_mask = a.room in
      let (v, inside, empty) = vacancy t.nodes (omega arith) in (v, empty, omega arith)

  pub probe-Allocated :
      (t : FlatHashTable V) (m : ℕ → Option V) (key : ℕ) (a : Allocated hash limit t m)
      → Outcome hash t.nodes t.bucket_count_mask key a.valid (probe hash t key)
  unfolding probe
  probe-Allocated t m key a =
      let (v, empty, inside) = not_full t m a in
      rw (probe, a.buckets)
        (probe-Outcome hash t.nodes t.bucket_count_mask key a.valid v empty inside)

  pub zero-none : (t : FlatHashTable V) (m : ℕ → Option V) → Allocated hash limit t m → m 0 ≡ none
  zero-none t m a = elim (Option-cases (m 0)) [
    | inl e ↦ e
    | inr (v, e) ↦
        let (i, here) = a.represents.held 0 v e in
        absurd (a.valid.named i (record { first = 0; second = v }) here refl)
  ]

  pub absent-none :
      (t : FlatHashTable V) (m : ℕ → Option V) (key : ℕ) (a : Allocated hash limit t m)
      → Absent hash t.nodes t.bucket_count_mask key a.valid
      → m key ≡ none
  absent-none t m key a absent = elim (Option-cases (m key)) [
    | inl e ↦ e
    | inr (v, e) ↦
        let (i, here) = a.represents.held key v e in
        absurd (absent i (record { first = key; second = v }) here refl)
  ]

  -- `find_impl` returns a node of the key, or there is none.
  pub data Located (t : FlatHashTable V) (m : ℕ → Option V) (key : ℕ) : Type 0 where
    here :
        (i : ℕ) (e : Entry V)
        → find_impl hash t key ≡ ok (some i)
        → node_at t.nodes i ≡ some e
        → e.first ≡ key
        → Located t m key
    nowhere : find_impl hash t key ≡ ok none → m key ≡ none → Located t m key

  pub find_impl-Located :
      (t : FlatHashTable V) (m : ℕ → Option V) (key : ℕ)
      → Allocated hash limit t m
      → Located t m key
  unfolding find_impl
  find_impl-Located t m key a =
      let size : length t.nodes ≡ t.bucket_count_mask + 1 = a.valid.size in
      let filled : (length t.nodes == 0) ≡ false = ground arith in
      elim (Bool-cases (key == 0)) [
        | inl z ↦
            nowhere (rw (find_impl, filled, z) refl)
              (let e : key ≡ 0 = ground (arith, z) in ap m e ∙ zero-none t m a)
        | inr z ↦ elim (probe-Allocated t m key a) [
          | hit i e r at same ↦ here i e (rw (find_impl, filled, z, r) refl) at same
          | miss i r inside empty absent clear ↦
              nowhere (rw (find_impl, filled, z, r) refl) (absent-none t m key a absent)
        ]
      ]

  -- In a table that represents a map, `find` of a key ends, and what it points to is the value that
  -- the map has for the key; for a key that is not in the map it is the null pointer.
  pub value_at-find_impl :
      (t : FlatHashTable V) (m : ℕ → Option V) (key : ℕ)
      → IsTable hash limit t m
      → (node : Option ℕ) × (find_impl hash t key ≡ ok node) × (value_at t node ≡ m key)
  unfolding find_impl
  value_at-find_impl t m key (unallocated u) =
      let no_nodes : (length t.nodes == 0) ≡ true = ground (arith, ap length u.nodes) in
      (none, rw (find_impl, no_nodes) refl, sym (u.empty key))
  value_at-find_impl t m key (allocated a) = elim (find_impl-Located t m key a) [
    | here i e done at same ↦
        (some i, done, rw (value_at, at) (sym (a.represents.listed i e at) ∙ ap m same))
    | nowhere missing gone ↦ (none, missing, sym gone)
  ]
