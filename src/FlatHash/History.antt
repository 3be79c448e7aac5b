-- ===== src/FlatHash/History.antt =====
-- FlatHashTable.h: any sequence of calls on a table against the same calls on a map.
use pxc_core.Prelude.{
  ℕ, ◌+◌, ◌*◌, ◌^◌, ◌≤◌, ◌==◌, ◌≡◌, refl, Bool, true, not, ◌&&◌, Option, none, some, List, [], ◌∷◌,
  arith, Result, ok, ◌>>=◌,
}
use pxc_core.FlatHash.{FlatHashTable, Fault, find_impl, emplace, erase, new_table}
use pxc_core.FlatHash.Valid.{update}
use pxc_core.FlatHash.Table.{IsTable, unallocated}
use pxc_core.FlatHash.Lookup.{value_at, value_at-find_impl}
use pxc_core.FlatHash.Emplace.{put, is_new, emplace-IsTable}
use pxc_core.FlatHash.Erase.{in_map, erase-IsTable}

pub data Call (V : Type 0) : Type 0 where
  emplaces : ℕ → V → Call V
  erases : ℕ → Call V
  finds : ℕ → Call V

-- What a call returns: whether the node is new and the value in it, the number of erased nodes, or
-- the value found.
pub data Answer (V : Type 0) : Type 0 where
  placed : Bool → Option V → Answer V
  erased : ℕ → Answer V
  value : Option V → Answer V

module _ {V : Type 0} (hash : ℕ → ℕ) (limit : ℕ) where
  unfoldable pub call : Call V → FlatHashTable V → Result Fault (Answer V × FlatHashTable V)
  unfolding emplace erase find_impl
  call (emplaces key v) t = do
    (i, new, u) ← emplace hash limit t key v
    ok (placed new (value_at u (some i)), u)
  call (erases key) t = do (n, u) ← erase hash limit t key; ok (erased n, u)
  call (finds key) t = do node ← find_impl hash t key; ok (value (value_at t node), t)

  unfoldable pub run :
      List (Call V) → FlatHashTable V → Result Fault (List (Answer V) × FlatHashTable V)
  unfolding call
  run [] t = ok ([], t)
  run (c ∷ cs) t = do (a, u) ← call c t; (as_, r) ← run cs u; ok (a ∷ as_, r)

module _ {V : Type 0} where
  -- The same calls on a map.
  abbrev pub answer : Call V → (ℕ → Option V) → Answer V
  answer (emplaces key v) m = placed (is_new m key) (put m key v key)
  answer (erases key) m = erased (in_map m key)
  answer (finds key) m = value (m key)

  abbrev pub after : Call V → (ℕ → Option V) → ℕ → Option V
  after (emplaces key v) m = put m key v
  after (erases key) m = update m key none
  after (finds key) m = m

  abbrev pub answers : List (Call V) → (ℕ → Option V) → List (Answer V)
  answers [] m = []
  answers (c ∷ cs) m = answer c m ∷ answers cs (after c m)

  -- How many entries a call puts in, and how many all of them.
  abbrev pub puts : Call V → ℕ
  puts (emplaces key v) = 1
  puts (erases key) = 0
  puts (finds key) = 0

  abbrev pub all_puts : List (Call V) → ℕ
  all_puts [] = 0
  all_puts (c ∷ cs) = puts c + all_puts cs

  -- No empty key is put in.
  abbrev pub named : Call V → Bool
  named (emplaces key v) = not (key == 0)
  named (erases key) = true
  named (finds key) = true

  abbrev pub all_named : List (Call V) → Bool
  all_named [] = true
  all_named (c ∷ cs) = named c && all_named cs

module _ {V : Type 0} (hash : ℕ → ℕ) (limit : ℕ) (small : limit ≤ 2 ^ 29) where
  call-IsTable :
      (c : Call V) (t : FlatHashTable V) (m : ℕ → Option V)
      → IsTable hash limit t m
      → named c ≡ true
      → 4 * (t.used_node_count + puts c) + 8 ≤ limit
      → (u : FlatHashTable V) × (call hash limit c t ≡ ok (answer c m, u))
        × IsTable hash limit u (after c m)
        × (u.used_node_count ≤ t.used_node_count + puts c)
  unfolding call
  call-IsTable (emplaces key v) t m is name room =
      let (i, u, done, is', same, bound) =
        emplace-IsTable hash limit t m key v is (ground (arith, name)) (omega arith) in
      (u, rw (call, done, same) refl, is', bound)
  call-IsTable (erases key) t m is name room =
      let (u, done, is', bound) = erase-IsTable hash limit small t m key is in
      (u, rw (call, done) refl, is', omega arith)
  call-IsTable (finds key) t m is name room =
      let (node, done, same) = value_at-find_impl hash limit t m key is in
      (t, rw (call, done, same) refl, is, omega arith)

  run-IsTable :
      (cs : List (Call V)) (t : FlatHashTable V) (m : ℕ → Option V)
      → IsTable hash limit t m
      → all_named cs ≡ true
      → 4 * (t.used_node_count + all_puts cs) + 8 ≤ limit
      → (u : FlatHashTable V) × (run hash limit cs t ≡ ok (answers cs m, u))
  unfolding run
  run-IsTable [] t m is name room = (t, refl)
  run-IsTable (c ∷ cs) t m is name room =
      let (u, done, is', bound) = call-IsTable c t m is (ground (arith, name)) (omega arith) in
      let (r, rest) = run-IsTable cs u (after c m) is' (ground (arith, name)) (omega arith) in
      (r, rw (run, done, rest) refl)

  -- Any calls of `emplace`, `erase` and `find` on a new table, with no empty key put in and a limit of
  -- at most 2 ^ 29 with room for as many entries as there are calls of `emplace`, end without a
  -- failed CHECK or DCHECK, and return what they would return of a map: whatever the hash, and
  -- however often the table grows, shrinks and moves its nodes.
  pub run-answers :
      (cs : List (Call V))
      → all_named cs ≡ true
      → 4 * all_puts cs + 8 ≤ limit
      → (u : FlatHashTable V) × (run hash limit cs new_table ≡ ok (answers cs (λ k. none), u))
  run-answers cs name room =
      run-IsTable cs new_table (λ k. none)
        (unallocated
          (record { nodes = refl; used = refl; mask = refl; buckets = refl; empty = λ k. refl }))
        name (omega arith)
