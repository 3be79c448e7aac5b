-- ===== src/FlatHash/Emplace.antt =====
-- FlatHashTable.h: `emplace`, with the growth of the table.
use native.Mathlib.Nat.{pow-succ'}
use pxc_core.Prelude.{
  ℕ, suc, ◌+◌, ◌*◌, ◌≤◌, ◌<◌, ◌==◌, ltb, leb, ◌≡◌, ◌≢◌, refl, sym, ap, subst, ◌∙◌, Bool, true,
  false, Option, none, some, length, set, arith, Bool-cases, inl, inr, Result, ok,
}
use pxc_core.FlatHash.{
  Entry, node_at, FlatHashTable, Fault, vacant, probe, resize, emplace_from, emplace,
}
use pxc_core.FlatHash.Nodes.{node_at-set, occupied, occupied-fill}
use pxc_core.FlatHash.Valid.{update}
use pxc_core.FlatHash.Find.{Absent, Clear, hit, miss}
use pxc_core.FlatHash.Fill.{fill-Valid, fill-Represents}
use pxc_core.FlatHash.Table.{
  IsTable, Allocated, allocated, unallocated, resize-Allocated, resize-Unallocated,
}
use pxc_core.FlatHash.Lookup.{value_at, probe-Allocated, absent-none}

-- The map after `emplace`: a value that is there stays.
abbrev pub put : {V : Type 0} → (ℕ → Option V) → ℕ → V → ℕ → Option V
put m key value = elim (m key) [ none ↦ update m key (some value) | some old ↦ m ]

abbrev pub is_new : {V : Type 0} → (ℕ → Option V) → ℕ → Bool
is_new m key = elim (m key) [ none ↦ true | some old ↦ false ]

module _ {V : Type 0} (hash : ℕ → ℕ) (limit : ℕ) where
  -- The outcome of `emplace`: the node of the key, whether it is new, and the table.
  pub record Emplaced (m : ℕ → Option V) (key : ℕ) (value : V) (used i : ℕ) (u : FlatHashTable V)
      : Type 0 where
    pub table : Allocated hash limit u (put m key value)
    pub entry : Entry V
    pub there : node_at u.nodes i ≡ some entry
    pub named : entry.first ≡ key
    pub bound : u.used_node_count ≤ used + 1

  abbrev pub Emplaces :
      (ℕ → Option V) → ℕ → V → ℕ → Result Fault (ℕ × Bool × FlatHashTable V) → Type 0
  Emplaces m key value used result =
      (i : ℕ) × (u : FlatHashTable V) × (result ≡ ok (i, is_new m key, u))
      × Emplaced m key value used i u

  added : FlatHashTable V → ℕ → ℕ → V → FlatHashTable V
  added t i key value = record t {
    nodes = set t.nodes i (some (record { first = key; second = value }));
    used_node_count = t.used_node_count + 1;
    begin_bucket = none;
  }

  found-Emplaced :
      (t : FlatHashTable V) (m : ℕ → Option V) (key : ℕ) (value : V) (i : ℕ) (e : Entry V)
      → Allocated hash limit t m
      → node_at t.nodes i ≡ some e
      → e.first ≡ key
      → (is_new m key ≡ false) × Emplaced m key value t.used_node_count i t
  found-Emplaced t m key value i e a there named =
      let known : m key ≡ some e.second = ap m (sym named) ∙ a.represents.listed i e there in
      let same : put m key value ≡ m = rw (put, known) refl in
      (
        rw (is_new, known) refl,
        record {
          table = subst (λ n. Allocated hash limit t n) (sym same) a;
          entry = e;
          there = there;
          named = named;
          bound = omega arith;
        },
      )

  added-Emplaced :
      (t : FlatHashTable V) (m : ℕ → Option V) (key : ℕ) (value : V) (i : ℕ)
      (a : Allocated hash limit t m)
      → key ≢ 0
      → t.used_node_count < t.bucket_count_mask
      → i ≤ t.bucket_count_mask
      → node_at t.nodes i ≡ none
      → Absent hash t.nodes t.bucket_count_mask key a.valid
      → Clear hash t.nodes t.bucket_count_mask key a.valid i
      → (is_new m key ≡ true) × Emplaced m key value t.used_node_count i (added t i key value)
  unfolding added
  added-Emplaced t m key value i a name room inside free absent clear =
      let mask : ℕ = t.bucket_count_mask in
      let e : Entry V = record { first = key; second = value } in
      let gone : m key ≡ none = absent-none hash limit t m key a absent in
      let same : put m key value ≡ update m key (some value) = rw (put, gone) refl in
      let size : length t.nodes ≡ mask + 1 = a.valid.size in
      let used : t.used_node_count ≡ occupied t.nodes = a.used in
      let more : occupied (set t.nodes i (some e)) ≡ occupied t.nodes + 1 =
        occupied-fill t.nodes i e (omega arith) free in
      let al : Allocated hash limit (added t i key value) (update m key (some value)) = record {
        valid = fill-Valid hash t.nodes mask i key value a.valid inside free absent clear name;
        represents =
            fill-Represents hash t.nodes m mask i key value a.valid a.represents inside free absent;
        buckets = a.buckets;
        used = omega arith;
        room = omega arith;
        eight = a.eight;
        bounded = a.bounded;
        power = a.power;
        two = a.two;
      } in
      (
        rw (is_new, gone) refl,
        record {
          table = subst (λ n. Allocated hash limit (added t i key value) n) (sym same) al;
          entry = e;
          there = ground (arith, node_at-set t.nodes i i (some e) (omega arith));
          named = refl;
          bound = omega arith;
        },
      )

  -- With room, the loop ends in its first run.
  roomy-Emplaces :
      (fuel : ℕ) (t : FlatHashTable V) (m : ℕ → Option V) (key : ℕ) (value : V)
      → Allocated hash limit t m
      → key ≢ 0
      → t.used_node_count * 5 < t.bucket_count_mask * 3
      → Emplaces m key value t.used_node_count (emplace_from hash limit (suc fuel) t key value)
  unfolding emplace_from added
  roomy-Emplaces fuel t m key value a name room = elim (probe-Allocated hash limit t m key a) [
    | hit i e r there same ↦
        let (old, em) = found-Emplaced t m key value i e a there same in
        (i, t, rw (emplace_from, r, old) refl, em)
    | miss i r inside free absent clear ↦
        let (new, em) =
          added-Emplaced t m key value i a name (omega arith) inside free absent clear in
        let test : leb (t.bucket_count_mask * 3) (t.used_node_count * 5) ≡ false = ground arith in
        (i, added t i key value, rw (emplace_from, r, test, new) refl, em)
  ]

  grown :
      (t u : FlatHashTable V) (key i : ℕ) (value : V)
      → probe hash t key ≡ vacant i
      → leb (t.bucket_count_mask * 3) (t.used_node_count * 5) ≡ true
      → resize hash limit (2 * t.bucket_count) t ≡ ok u
      → u.used_node_count * 5 < u.bucket_count_mask * 3
      → emplace_from hash limit 2 t key value ≡ emplace_from hash limit 1 u key value
  unfolding emplace_from
  grown t u key i value r full done room =
      let test : ltb (u.used_node_count * 5) (u.bucket_count_mask * 3) ≡ true = ground arith in
      rw (emplace_from, r, full, done, test) refl

  emplace_from-Emplaces :
      (t : FlatHashTable V) (m : ℕ → Option V) (key : ℕ) (value : V)
      → Allocated hash limit t m
      → key ≢ 0
      → 4 * t.used_node_count + 8 ≤ limit
      → Emplaces m key value t.used_node_count (emplace_from hash limit 2 t key value)
  unfolding emplace_from
  emplace_from-Emplaces t m key value a name small = elim (probe-Allocated hash limit t m key a) [
    | hit i e r there same ↦
        let (old, em) = found-Emplaced t m key value i e a there same in
        (i, t, rw (emplace_from, r, old) refl, em)
    | miss i r inside free absent clear ↦
        let mask : ℕ = t.bucket_count_mask in
        let eight : 7 ≤ mask = a.eight in
        let room : t.used_node_count ≤ mask = a.room in
        elim (Bool-cases (leb (mask * 3) (t.used_node_count * 5))) [
          | inr test ↦ roomy-Emplaces 1 t m key value a name (ground (arith, test))
          | inl test ↦
              let full : mask * 3 ≤ t.used_node_count * 5 = ground (arith, test) in
              let (u, done, al, used, masked) =
                resize-Allocated hash limit t m (2 * mask + 1) (suc a.power) a (omega arith)
                  (omega arith) (omega arith) (omega (arith, a.two, pow-succ' 2 a.power)) in
              let size : 2 * mask + 1 + 1 ≡ 2 * t.bucket_count = omega (arith, a.buckets) in
              let wide : u.used_node_count * 5 < u.bucket_count_mask * 3 = omega arith in
              let (j, w, placed, em) = roomy-Emplaces 0 u m key value al name wide in
              (
                j,
                w,
                grown t u key i value r test (ap (λ n. resize hash limit n t) (sym size) ∙ done)
                      wide
                    ∙ placed,
                record {
                  table = em.table;
                  entry = em.entry;
                  there = em.there;
                  named = em.named;
                  bound = omega (arith, em.bound);
                },
              )
        ]
  ]

  emplace_first :
      (t u : FlatHashTable V) (key : ℕ) (value : V)
      → key ≢ 0
      → t.bucket_count_mask ≡ 0
      → t.used_node_count ≡ 0
      → resize hash limit 8 t ≡ ok u
      → emplace hash limit t key value ≡ emplace_from hash limit 2 u key value
  unfolding emplace
  emplace_first t u key value name mask used done =
      let k : (key == 0) ≡ false = ground arith in
      let a : (t.bucket_count_mask == 0) ≡ true = ground (arith, mask) in
      let b : (t.used_node_count == 0) ≡ true = ground (arith, used) in
      rw (emplace, k, a, b, done) refl

  emplace_next :
      (t : FlatHashTable V) (key : ℕ) (value : V)
      → key ≢ 0
      → 7 ≤ t.bucket_count_mask
      → emplace hash limit t key value ≡ emplace_from hash limit 2 t key value
  unfolding emplace
  emplace_next t key value name eight =
      let k : (key == 0) ≡ false = ground arith in
      let a : (t.bucket_count_mask == 0) ≡ false = ground arith in rw (emplace, k, a) refl

  Emplaces-IsTable :
      (m : ℕ → Option V) (key : ℕ) (value : V) (used : ℕ)
      (result : Result Fault (ℕ × Bool × FlatHashTable V))
      → Emplaces m key value used result
      → (i : ℕ) × (u : FlatHashTable V) × (result ≡ ok (i, is_new m key, u))
        × IsTable hash limit u (put m key value)
        × (value_at u (some i) ≡ put m key value key)
        × (u.used_node_count ≤ used + 1)
  Emplaces-IsTable m key value used result (i, u, done, em) = (
    i,
    u,
    done,
    allocated em.table,
    rw (value_at, em.there)
        (sym (em.table.represents.listed i em.entry em.there) ∙ ap (put m key value) em.named),
    em.bound,
  )

  -- In a table that represents a map and in which the limit leaves room, `emplace` of a key that is
  -- not empty ends without a failed CHECK. Then the table represents the map with the value at the
  -- key, or the same map if the key had a value. The result says which, and points to a node with the
  -- value that the key has now.
  pub emplace-IsTable :
      (t : FlatHashTable V) (m : ℕ → Option V) (key : ℕ) (value : V)
      → IsTable hash limit t m
      → key ≢ 0
      → 4 * t.used_node_count + 8 ≤ limit
      → (i : ℕ) × (u : FlatHashTable V) × (emplace hash limit t key value ≡ ok (i, is_new m key, u))
        × IsTable hash limit u (put m key value)
        × (value_at u (some i) ≡ put m key value key)
        × (u.used_node_count ≤ t.used_node_count + 1)
  emplace-IsTable t m key value (allocated a) name small =
      Emplaces-IsTable m key value t.used_node_count (emplace hash limit t key value) (
        subst (Emplaces m key value t.used_node_count) (sym (emplace_next t key value name a.eight))
          (emplace_from-Emplaces t m key value a name small))
  emplace-IsTable t m key value (unallocated n) name small =
      let (u, done, al, used, masked) =
        resize-Unallocated hash limit t m 7 3 n (omega arith) (omega arith) refl in
      let none_used : u.used_node_count ≡ t.used_node_count = omega (arith, n.used) in
      Emplaces-IsTable m key value t.used_node_count (emplace hash limit t key value) (
        subst (Emplaces m key value t.used_node_count)
          (sym (emplace_first t u key value name n.mask n.used done))
          (subst (λ c. Emplaces m key value c (emplace_from hash limit 2 u key value)) none_used
            (emplace_from-Emplaces u m key value al name (omega (arith, small)))))
