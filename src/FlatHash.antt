-- ===== src/FlatHash.antt =====
-- pxcutils/pxc/utils/FlatHashTable.h and FlatHashTable.cpp with the MapNode of MapNode.h: a hash
-- table with open addressing. A failed CHECK or DCHECK is an error. A key is a natural number, 0 the empty one, and a node is `none` while
-- its key is empty. The hash is a parameter; `limit` is the larger of the sizes that
-- `allocate_nodes` accepts. A bucket mask is one below a power of two, so `&` with it is `%`.
pub mod Circle
pub mod Nodes
pub mod Valid
pub mod Find
pub mod Fill
pub mod Rehash
pub mod Hole
pub mod Shift
pub mod Table
pub mod Lookup
pub mod Erase
pub mod Emplace
pub mod History
mod Tests
use pxc_core.Prelude.{
  ℕ, zero, suc, ◌+◌, ◌-◌, ◌*◌, ◌/◌, ◌%◌, ◌^◌, ◌==◌, ltb, leb, max, if◌then◌else◌, Bool, true, false,
  ◌&&◌, ◌||◌, Option, none, some, List, [], ◌∷◌, length, get_or, set, replicate, Result, error, ok,
  ◌>>=◌,
}

pub data Fault : Type 0 where
  check_failed : Fault
  endless : Fault

pub record Entry (V : Type 0) : Type 0 where
  pub first : ℕ
  pub second : V

abbrev pub Nodes : Type 0 → Type 0
Nodes V = List (Option (Entry V))

-- `nodes` is empty while `nodes_` is null, and `begin_bucket` is `none` for INVALID_BUCKET.
pub record FlatHashTable (V : Type 0) : Type 0 where
  pub nodes : Nodes V
  pub used_node_count : ℕ
  pub bucket_count_mask : ℕ
  pub bucket_count : ℕ
  pub begin_bucket : Option ℕ

-- Where the loop over the buckets of a key stops.
pub data Probe : Type 0 where
  found : ℕ → Probe
  vacant : ℕ → Probe
  lost : Probe

abbrev pub node_at : {V : Type 0} → Nodes V → ℕ → Option (Entry V)
node_at nodes i = get_or nodes i none

abbrev pub is_vacant : {V : Type 0} → Option (Entry V) → Bool
is_vacant none = true
is_vacant (some e) = false

abbrev pub new_table : {V : Type 0} → FlatHashTable V
new_table = record {
  nodes = [];
  used_node_count = 0;
  bucket_count_mask = 0;
  bucket_count = 0;
  begin_bucket = some 0;
}

abbrev pub invalidate_iterators : {V : Type 0} → FlatHashTable V → FlatHashTable V
invalidate_iterators t = record t { begin_bucket = none }

-- `32 - count_leading_zeroes32(size)`
abbrev pub bit_length : ℕ → ℕ → ℕ
bit_length zero x = 0
bit_length (suc w) x = let rest = bit_length w (x / 2) in if x == 0 then 0 else suc rest

unfoldable pub normalize_size : ℕ → ℕ
normalize_size size = max (2 ^ bit_length 32 size) 8

-- `x & (x - 1)`: the word without its lowest bit.
unfoldable pub clear_lowest : ℕ → ℕ → ℕ
clear_lowest zero x = 0
clear_lowest (suc w) x =
    let rest = clear_lowest w (x / 2) in
    if x == 0 then 0 else if x % 2 == 1 then x - 1 else 2 * rest

abbrev pub next_bucket : ℕ → ℕ → ℕ
next_bucket mask bucket = (bucket + 1) % (mask + 1)

abbrev pub calc_bucket : (ℕ → ℕ) → ℕ → ℕ → ℕ
calc_bucket hash mask key = hash key % (mask + 1)

module _ {V : Type 0} (hash : ℕ → ℕ) where
  -- The `while` of `find_impl` and `emplace`, with the number of buckets as fuel.
  unfoldable pub probe_from : ℕ → Nodes V → ℕ → ℕ → ℕ → Probe
  probe_from zero nodes mask key bucket = lost
  probe_from (suc fuel) nodes mask key bucket =
      let rest = probe_from fuel nodes mask key (next_bucket mask bucket) in
      elim (node_at nodes bucket) [
        | none ↦ vacant bucket
        | some e ↦ if e.first == key then found bucket else rest
      ]

  unfoldable pub probe : FlatHashTable V → ℕ → Probe
  unfolding probe_from
  probe t key =
      probe_from t.bucket_count t.nodes t.bucket_count_mask key
        (calc_bucket hash t.bucket_count_mask key)

  -- `find_impl`: the position of the node.
  unfoldable pub find_impl : FlatHashTable V → ℕ → Result Fault (Option ℕ)
  unfolding probe
  find_impl t key =
      if (length t.nodes == 0) || (key == 0)
      then ok none
      else elim (probe t key) [ found i ↦ ok (some i) | vacant i ↦ ok none | lost ↦ error endless ]

  -- The inner loop of `resize`: the first empty bucket.
  unfoldable pub vacant_from : ℕ → Nodes V → ℕ → ℕ → Probe
  vacant_from zero nodes mask bucket = lost
  vacant_from (suc fuel) nodes mask bucket =
      let rest = vacant_from fuel nodes mask (next_bucket mask bucket) in
      if is_vacant (node_at nodes bucket) then vacant bucket else rest

  -- The outer loop of `resize` over the old nodes.
  unfoldable pub rehash : Nodes V → Nodes V → ℕ → Result Fault (Nodes V)
  unfolding vacant_from
  rehash [] nodes mask = ok nodes
  rehash (none ∷ old) nodes mask = rehash old nodes mask
  rehash (some e ∷ old) nodes mask =
      elim (vacant_from (length nodes) nodes mask (calc_bucket hash mask e.first)) [
        | found i ↦ error endless
        | vacant i ↦ rehash old (set nodes i (some e)) mask
        | lost ↦ error endless
      ]

  -- `erase_node` behind the end of the array: positions from `bucket_count` on are those from 0.
  unfoldable pub erase_wrapped : ℕ → Nodes V → ℕ → ℕ → ℕ → ℕ → Result Fault (Nodes V)
  erase_wrapped zero nodes mask empty_i empty_bucket test_i = error endless
  erase_wrapped (suc fuel) nodes mask empty_i empty_bucket test_i =
      let test_bucket = test_i - (mask + 1) in
      elim (node_at nodes test_bucket) [
        | none ↦ ok nodes
        | some e ↦
            let want = calc_bucket hash mask e.first in
            let want_i = if ltb want empty_i then want + (mask + 1) else want in
            let moved = set (set nodes empty_bucket (some e)) test_bucket none in
            let move = erase_wrapped fuel moved mask test_i test_bucket (test_i + 1) in
            let stay = erase_wrapped fuel nodes mask empty_i empty_bucket (test_i + 1) in
            if leb want_i empty_i || ltb test_i want_i then move else stay
      ]

  -- `erase_node` up to the end of the array, with the number of nodes that are left as fuel.
  unfoldable pub erase_tail : ℕ → Nodes V → ℕ → ℕ → ℕ → Result Fault (Nodes V)
  unfolding erase_wrapped
  erase_tail zero nodes mask it test = erase_wrapped (mask + 1) nodes mask it it (mask + 1)
  erase_tail (suc rest) nodes mask it test = elim (node_at nodes test) [
    | none ↦ ok nodes
    | some e ↦
        let want = calc_bucket hash mask e.first in
        let moved = set (set nodes it (some e)) test none in
        let move = erase_tail rest moved mask test (test + 1) in
        let stay = erase_tail rest nodes mask it (test + 1) in
        if leb want it || ltb test want then move else stay
  ]

  unfoldable pub erase_node : FlatHashTable V → ℕ → Result Fault (FlatHashTable V)
  unfolding erase_tail
  erase_node t it =
      if ltb it t.bucket_count
      then (do
        nodes ←
            erase_tail (t.bucket_count - (it + 1)) (set t.nodes it none) t.bucket_count_mask it
              (it + 1)
        ok (record t { nodes = nodes; used_node_count = t.used_node_count - 1 }))
      else error check_failed

  module _ (limit : ℕ) where
    unfoldable pub allocate_nodes : ℕ → FlatHashTable V → Result Fault (FlatHashTable V)
    unfolding clear_lowest
    allocate_nodes size t =
        if leb 8 size && clear_lowest 32 size == 0 && leb size limit
        then ok (record t {
          nodes = replicate size none;
          bucket_count_mask = size - 1;
          bucket_count = size;
          begin_bucket = none;
        })
        else error check_failed

    unfoldable pub resize : ℕ → FlatHashTable V → Result Fault (FlatHashTable V)
    unfolding allocate_nodes rehash
    resize size t = do
      fresh ← allocate_nodes size t
      if length t.nodes == 0 then ok (record fresh { used_node_count = 0 }) else (do
        nodes ← rehash t.nodes fresh.nodes fresh.bucket_count_mask
        ok (record fresh { nodes = nodes }))

    unfoldable pub try_shrink : FlatHashTable V → Result Fault (FlatHashTable V)
    unfolding resize normalize_size
    try_shrink t = if length t.nodes == 0 then error check_failed else (do
      u ←
          (if ltb (t.used_node_count * 10) t.bucket_count_mask && ltb 7 t.bucket_count_mask
            then resize (normalize_size ((t.used_node_count + 1) * 5 / 3 + 1)) t
            else ok t)
      ok (invalidate_iterators u))

    -- The number of nodes erased.
    unfoldable pub erase : FlatHashTable V → ℕ → Result Fault (ℕ × FlatHashTable V)
    unfolding find_impl erase_node try_shrink
    erase t key = do
      node ← find_impl t key
      elim node [ none ↦ ok (0, t) | some it ↦ do u ← erase_node t it; r ← try_shrink u; ok (1, r) ]

    -- The loop of `emplace`, which runs once more after a resize. The result is the position of
    -- the node and whether it is new.
    unfoldable pub emplace_from :
        ℕ → FlatHashTable V → ℕ → V → Result Fault (ℕ × Bool × FlatHashTable V)
    unfolding probe resize
    emplace_from zero t key value = error endless
    emplace_from (suc fuel) t key value =
        let again = λ (u : FlatHashTable V). emplace_from fuel u key value in
        elim (probe t key) [
          | found i ↦ ok (i, false, t)
          | vacant i ↦
              if leb (t.bucket_count_mask * 3) (t.used_node_count * 5)
              then (do
                u ← resize (2 * t.bucket_count) t
                if ltb (u.used_node_count * 5) (u.bucket_count_mask * 3)
                    then again u
                    else error check_failed)
              else ok (
                i,
                true,
                record t {
                  nodes = set t.nodes i (some (record { first = key; second = value }));
                  used_node_count = t.used_node_count + 1;
                  begin_bucket = none;
                },
              )
          | lost ↦ error endless
        ]

    unfoldable pub emplace : FlatHashTable V → ℕ → V → Result Fault (ℕ × Bool × FlatHashTable V)
    unfolding emplace_from
    emplace t key value =
        if key == 0
        then error check_failed
        else if t.bucket_count_mask == 0
        then if t.used_node_count == 0
          then (do u ← resize 8 t; emplace_from 2 u key value)
          else error check_failed
        else emplace_from 2 t key value

    unfoldable pub reserve : ℕ → FlatHashTable V → Result Fault (FlatHashTable V)
    unfolding resize normalize_size
    reserve size t =
        let want_size = normalize_size (size * 5 / 3 + 1) in
        if size == 0
        then ok t
        else if leb size (2 ^ 29)
        then if ltb t.bucket_count want_size then resize want_size t else ok t
        else error check_failed
