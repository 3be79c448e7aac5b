-- ===== src/FlatHash/Tests.antt =====
-- FlatHashTable.h: calls on concrete tables.
use pxc_core.Prelude.{
  ℕ, ◌^◌, ◌+◌, ◌≤◌, ◌≡◌, refl, true, false, Option, none, some, List, [], ◌∷◌, arith, error, ok,
}
use pxc_core.FlatHash.{
  Entry, FlatHashTable, normalize_size, new_table, emplace, check_failed, erase_tail,
}
use pxc_core.FlatHash.Table.{IsTable, Unallocated, unallocated}
use pxc_core.FlatHash.Lookup.{value_at}
use pxc_core.FlatHash.Emplace.{put, emplace-IsTable}
use pxc_core.FlatHash.History.{
  Call, emplaces, erases, finds, placed, erased, value, run, run-answers,
}

-- All keys want the last of eight buckets, so their nodes go on at the start of the array.
abbrev crowded : ℕ → ℕ
crowded key = 7

abbrev calls : List (Call ℕ)
calls =
    emplaces 5 50
    ∷ emplaces 6 60
    ∷ emplaces 7 70
    ∷ emplaces 5 51
    ∷ erases 5
    ∷ finds 7
    ∷ erases 5
    ∷ finds 5
    ∷ []

entry : ℕ → ℕ → Option (Entry ℕ)
entry k v = some (record { first = k; second = v })

-- The hole at the end of the array moves over it, to the start.
erase_tail-crowded :
    erase_tail crowded 0
      (entry 6 60 ∷ entry 7 70 ∷ none ∷ none ∷ none ∷ none ∷ none ∷ none ∷ [])
      7
      7
      8
    ≡ ok (entry 7 70 ∷ none ∷ none ∷ none ∷ none ∷ none ∷ none ∷ entry 6 60 ∷ [])
unfolding erase_tail entry
erase_tail-crowded = refl

normalize_size-small : (normalize_size 7 ≡ 8) × (normalize_size 8 ≡ 16) × (normalize_size 100 ≡ 128)
unfolding normalize_size
normalize_size-small = (refl, refl, refl)

emplace_empty_key : emplace {V = ℕ} crowded 64 new_table 0 9 ≡ error check_failed
unfolding emplace
emplace_empty_key = refl

new_table-Unallocated : {V : Type 0} → Unallocated crowded (2 ^ 29) (new_table {V = V}) (λ k. none)
new_table-Unallocated = record {
  nodes = refl;
  used = refl;
  mask = refl;
  buckets = refl;
  empty = λ k. refl;
}

run-answers_example :
    (u : FlatHashTable ℕ) × (run crowded (2 ^ 29) calls new_table
      ≡ ok (
        placed true (some 50)
            ∷ placed true (some 60)
            ∷ placed true (some 70)
            ∷ placed false (some 50)
            ∷ erased 1
            ∷ value (some 70)
            ∷ erased 0
            ∷ value none
            ∷ [],
        u,
      ))
run-answers_example = run-answers crowded (2 ^ 29) (omega arith) calls refl (omega arith)

emplace-IsTable_example :
    (i : ℕ) × (u : FlatHashTable ℕ) × (emplace crowded (2 ^ 29) new_table 5 50 ≡ ok (i, true, u))
    × IsTable crowded (2 ^ 29) u (put (λ k. none) 5 50)
    × (value_at u (some i) ≡ some 50)
    × (u.used_node_count ≤ 0 + 1)
emplace-IsTable_example =
    emplace-IsTable crowded (2 ^ 29) new_table (λ k. none) 5 50 (unallocated new_table-Unallocated)
      (λ z. absurd (omega arith)) (omega arith)
