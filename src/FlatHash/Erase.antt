-- ===== src/FlatHash/Erase.antt =====
-- FlatHashTable.h: `erase` of a key, with the shrinking of the table.
use native.Mathlib.Decide.{ℕ_discrete}
use pxc_core.Prelude.{
  false, ℕ, ◌+◌, ◌-◌, ◌*◌, ◌/◌, ◌^◌, ◌≤◌, ◌<◌, ◌==◌, ltb, ◌≡◌, ◌≢◌, refl, sym, ap, subst, fun_ext,
  ◌∙◌, true, ◌&&◌, Option, none, some, length, set, arith, length-set, Bool-cases, inl, inr, ok,
}
use pxc_core.FlatHash.{
  Entry, Nodes, node_at, FlatHashTable, find_impl, erase_tail, erase_node, normalize_size, resize,
  try_shrink, erase, invalidate_iterators,
}
use pxc_core.FlatHash.Nodes.{node_at-set, node_at-lt, occupied, occupied-clear}
use pxc_core.FlatHash.Valid.{Valid, Represents, update}
use pxc_core.FlatHash.Hole.{Hole}
use pxc_core.FlatHash.Shift.{erase_tail-Closed}
use pxc_core.FlatHash.Table.{
  IsTable, Allocated, allocated, unallocated, resize-Allocated, normalize_size_bounds,
}
use pxc_core.FlatHash.Lookup.{not_full, here, nowhere, find_impl-Located}

-- Whether a key is in a map, as a number.
abbrev pub in_map : {V : Type 0} → (ℕ → Option V) → ℕ → ℕ
in_map m key = elim (m key) [ none ↦ 0 | some v ↦ 1 ]

update-none : {V : Type 0} (m : ℕ → Option V) (key : ℕ) → m key ≡ none → update m key none ≡ m
update-none m key e = fun_ext (λ j. elim (ℕ_discrete j key) [
  | yes s ↦ ground (arith, s, e, ap m s)
  | no s ↦ ground (arith, s)
])

module _ {V : Type 0} (hash : ℕ → ℕ) (limit : ℕ) where
  cleared-Hole :
      (nodes : Nodes V) (mask i : ℕ) (e : Entry V)
      → Valid hash nodes mask
      → node_at nodes i ≡ some e
      → Hole hash (set nodes i none) mask i (i + 1)
  cleared-Hole nodes mask i e v at_i =
      let inside : i < length nodes = node_at-lt nodes i e at_i in
      let size : length nodes ≡ mask + 1 = v.size in
      let at = λ (j : ℕ). node_at-set nodes i j none inside in
      record {
        size = length-set nodes i none ∙ size;
        inside = omega arith;
        free = ground (arith, at i);
        scanned = λ j way le apart. absurd (ground (arith, way));
        settled = λ j f there way.
            let s : j ≡ i = ground (arith, way) in absurd (ground (arith, at j, there, s));
        reach = λ j k f there way le apart. ground (arith, at j, at k, there, apart, v.reach j k f);
        unique = λ j k f g a b same. ground (arith, at j, at k, a, b, v.unique j k f g);
        named = λ j f there. ground (arith, at j, there, v.named j f);
      }

  cleared-Represents :
      (nodes : Nodes V) (mask i : ℕ) (e : Entry V) (m : ℕ → Option V)
      → Valid hash nodes mask
      → Represents nodes m
      → node_at nodes i ≡ some e
      → Represents (set nodes i none) (update m e.first none)
  cleared-Represents nodes mask i e m v rep at_i =
      let at = λ (j : ℕ). node_at-set nodes i j none (node_at-lt nodes i e at_i) in
      record {
        listed = λ j f there. ground (arith, at j, there, v.unique j i f e, at_i, rep.listed j f);
        held = λ k w given.
            let other : k ≢ e.first = λ z. ground (arith, given, z) in
            let old : m k ≡ some w = ground (arith, given, other) in
            let (j, there) = rep.held k w old in
            let apart : j ≢ i = λ z. ground (arith, there, at_i, other, ap (node_at nodes) z) in
            (j, ground (arith, at j, apart, there));
      }

  erased :
      (t : FlatHashTable V) (i : ℕ) (r : Nodes V)
      → t.bucket_count ≡ t.bucket_count_mask + 1
      → i ≤ t.bucket_count_mask
      → erase_tail hash
          (t.bucket_count_mask + 1 - (i + 1))
          (set t.nodes i none)
          t.bucket_count_mask
          i
          (i + 1)
        ≡ ok r
      → erase_node hash t i ≡ ok (record t { nodes = r; used_node_count = t.used_node_count - 1 })
  unfolding erase_node
  erased t i r buckets inside done =
      let test : ltb i (t.bucket_count_mask + 1) ≡ true = ground arith in
      rw (erase_node, buckets, test, done) refl

  erase_node-Allocated :
      (t : FlatHashTable V) (m : ℕ → Option V) (i : ℕ) (e : Entry V)
      → Allocated hash limit t m
      → node_at t.nodes i ≡ some e
      → (u : FlatHashTable V) × (erase_node hash t i ≡ ok u)
        × Allocated hash limit u (update m e.first none)
        × (u.used_node_count + 1 ≡ t.used_node_count)
  unfolding erase_node
  erase_node-Allocated t m i e a at_i =
      let mask : ℕ = t.bucket_count_mask in
      let size : length t.nodes ≡ mask + 1 = a.valid.size in
      let inside : i < length t.nodes = node_at-lt t.nodes i e at_i in
      let used : t.used_node_count ≡ occupied t.nodes = a.used in
      let (v, empty, hv) = not_full hash limit t m a in
      let apart : v ≢ i = λ z. ground (arith, at_i, empty, ap (node_at t.nodes) z) in
      let less : occupied (set t.nodes i none) + 1 ≡ occupied t.nodes =
        occupied-clear t.nodes i e at_i in
      let room : t.used_node_count ≤ mask = a.room in
      let (r, done, valid, rep, n) =
        erase_tail-Closed hash (update m e.first none) mask v hv (mask + 1 - (i + 1))
          (set t.nodes i none) i (i + 1) (cleared-Hole t.nodes mask i e a.valid at_i)
          (cleared-Represents t.nodes mask i e m a.valid a.represents at_i)
          (ground (arith, node_at-set t.nodes i v none inside, apart, empty)) apart (omega arith)
          (omega arith) in
      (
        record t { nodes = r; used_node_count = t.used_node_count - 1 },
        erased t i r a.buckets (omega arith) done,
        record {
          valid = valid;
          represents = rep;
          buckets = a.buckets;
          used = omega arith;
          room = omega arith;
          eight = a.eight;
          bounded = a.bounded;
          power = a.power;
          two = a.two;
        },
        omega arith,
      )

  invalid :
      (t : FlatHashTable V) (m : ℕ → Option V)
      → Allocated hash limit t m
      → Allocated hash limit (invalidate_iterators t) m
  invalid t m a = record {
    valid = a.valid;
    represents = a.represents;
    buckets = a.buckets;
    used = a.used;
    room = a.room;
    eight = a.eight;
    bounded = a.bounded;
    power = a.power;
    two = a.two;
  }

  module _ (small : limit ≤ 2 ^ 29) where
    shrunk :
        (t u : FlatHashTable V)
        → (length t.nodes == 0) ≡ false
        → (ltb (t.used_node_count * 10) t.bucket_count_mask && ltb 7 t.bucket_count_mask) ≡ true
        → resize hash limit (normalize_size ((t.used_node_count + 1) * 5 / 3 + 1)) t ≡ ok u
        → try_shrink hash limit t ≡ ok (invalidate_iterators u)
    unfolding try_shrink
    shrunk t u n s done = rw (try_shrink, done, n, s) refl

    -- The table that shrinks is at most as large as before.
    try_shrink-Allocated :
        (t : FlatHashTable V) (m : ℕ → Option V)
        → Allocated hash limit t m
        → (u : FlatHashTable V) × (try_shrink hash limit t ≡ ok u)
          × Allocated hash limit u m
          × (u.used_node_count ≡ t.used_node_count)
    unfolding try_shrink
    try_shrink-Allocated t m a =
        let mask : ℕ = t.bucket_count_mask in
        let used : ℕ = t.used_node_count in
        let bounded : mask + 1 ≤ limit = a.bounded in
        let some_nodes : (length t.nodes == 0) ≡ false = ground (arith, a.valid.size) in
        elim (Bool-cases (ltb (used * 10) mask && ltb 7 mask)) [
          | inr s ↦
              (invalidate_iterators t, rw (try_shrink, some_nodes, s) refl, invalid t m a, refl)
          | inl s ↦
              let few : used * 10 < mask = ground (arith, s) in
              let many : 7 < mask = ground (arith, s) in
              let x : ℕ = (used + 1) * 5 / 3 + 1 in
              let size : ℕ = normalize_size x in
              let (more, eight, bound, (power, two)) =
                normalize_size_bounds x (omega arith) (omega arith) in
              let off : size - 1 + 1 ≡ size = omega arith in
              let (u, done, al, same, masked) =
                resize-Allocated hash limit t m (size - 1) power a (omega arith) (omega arith)
                  (omega arith) (off ∙ two) in
              (
                invalidate_iterators u,
                shrunk t u some_nodes s (ap (λ n. resize hash limit n t) (sym off) ∙ done),
                invalid u m al,
                same,
              )
        ]

    erase_found :
        (t : FlatHashTable V) (key i : ℕ) (u r : FlatHashTable V)
        → find_impl hash t key ≡ ok (some i)
        → erase_node hash t i ≡ ok u
        → try_shrink hash limit u ≡ ok r
        → erase hash limit t key ≡ ok (1, r)
    unfolding erase
    erase_found t key i u r a b c = rw (erase, a, b, c) refl

    erase_missing :
        (t : FlatHashTable V) (key : ℕ)
        → find_impl hash t key ≡ ok none
        → erase hash limit t key ≡ ok (0, t)
    unfolding erase
    erase_missing t key a = rw (erase, a) refl

    -- In a table that represents a map, `erase` of a key ends without a failed CHECK, and then the
    -- table represents the map without the key. It returns 1 if the key was in the map, and else 0.
    pub erase-IsTable :
        (t : FlatHashTable V) (m : ℕ → Option V) (key : ℕ)
        → IsTable hash limit t m
        → (u : FlatHashTable V) × (erase hash limit t key ≡ ok (in_map m key, u))
          × IsTable hash limit u (update m key none)
          × (u.used_node_count ≤ t.used_node_count)
    unfolding find_impl
    erase-IsTable t m key (unallocated u) =
        let no_nodes : (length t.nodes == 0) ≡ true = ground (arith, ap length u.nodes) in
        (
          t,
          rw (in_map, u.empty key) (erase_missing t key (rw (find_impl, no_nodes) refl)),
          subst (λ n. IsTable hash limit t n) (sym (update-none m key (u.empty key)))
              (unallocated u),
          omega arith,
        )
    erase-IsTable t m key (allocated a) = elim (find_impl-Located hash limit t m key a) [
      | nowhere missing gone ↦ (
        t,
        rw (in_map, gone) (erase_missing t key missing),
        subst (λ n. IsTable hash limit t n) (sym (update-none m key gone)) (allocated a),
        omega arith,
      )
      | here i e done at_i same ↦
          let (u, gone, al, less) = erase_node-Allocated t m i e a at_i in
          let (r, shrunk', al', still) = try_shrink-Allocated u (update m e.first none) al in
          let known : m key ≡ some e.second = ap m (sym same) ∙ a.represents.listed i e at_i in
          let count : in_map m key ≡ 1 = rw (in_map, known) refl in
          (
            r,
            erase_found t key i u r done gone shrunk' ∙ ap (λ n. ok (n, r)) (sym count),
            allocated (subst (λ k. Allocated hash limit r (update m k none)) same al'),
            omega arith,
          )
    ]
