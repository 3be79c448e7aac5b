-- ===== src/VectorQueue.antt =====
-- pxcutils/pxc/utils/VectorQueue.h: a queue over a vector and the position of its first live
-- element. The vector is the list of all its slots, consumed ones included; a slot that `pop`
-- moved out of keeps its value here, since no method but `pop_rand` can reach it again.
-- `none` stands for a read past the end of the vector or `% 0`, undefined in the source.
pub mod Refine
pub mod Random
mod Tests
use pxc_core.Prelude.{
  ℕ, ◌+◌, ◌-◌, ◌*◌, ◌%◌, ◌==◌, ltb, if◌then◌else◌, Bool, ◌&&◌, Option, none, some, List, [], ◌∷◌,
  ◌++◌, length, get_elem?, set, drop,
}

pub record VectorQueue {ℓ} (T : Type ℓ) : Type ℓ where
  pub vector : List T
  pub read_pos : ℕ

module _ {ℓ} {T : Type ℓ} where
  -- A queue as it is constructed.
  abbrev pub new_queue : VectorQueue T
  new_queue = record { vector = []; read_pos = 0 }

  -- Releases the consumed prefix when it is more than half of the vector.
  pub try_shrink : VectorQueue T → VectorQueue T
  try_shrink q =
      if ltb (length q.vector) (q.read_pos * 2) && ltb 4 q.read_pos
      then record { vector = drop q.read_pos q.vector; read_pos = 0 }
      else q

  -- `push` and `emplace` append to the vector.
  unfoldable pub push : VectorQueue T → T → VectorQueue T
  push q x = record q { vector = q.vector ++ x ∷ [] }

  take_next : VectorQueue T → Option (T × VectorQueue T)
  take_next q = elim (get_elem? q.vector q.read_pos) [
    | none ↦ none
    | some x ↦ some (x, record q { read_pos = q.read_pos + 1 })
  ]

  unfoldable pub pop : VectorQueue T → Option (T × VectorQueue T)
  unfolding take_next try_shrink
  pop q = take_next (try_shrink q)

  unfoldable pub pop_n : VectorQueue T → ℕ → VectorQueue T
  unfolding try_shrink
  pop_n q n = try_shrink (record q { read_pos = q.read_pos + n })

  unfoldable pub front : VectorQueue T → Option T
  front q = get_elem? q.vector q.read_pos

  unfoldable pub back : VectorQueue T → Option T
  back q = get_elem? q.vector (length q.vector - 1)

  unfoldable pub size : VectorQueue T → ℕ
  size q = length q.vector - q.read_pos

  unfoldable pub empty : VectorQueue T → Bool
  unfolding size
  empty q = size q == 0

  -- `as_span`: `data()` and `size()` name the live part of the vector.
  unfoldable pub as_span : VectorQueue T → List T
  as_span q = drop q.read_pos q.vector

  -- `std::swap(vector_[i], vector_[j])`
  pub swap_slots : List T → ℕ → ℕ → Option (List T)
  swap_slots xs i j = elim (get_elem? xs i) [
    | none ↦ none
    | some a ↦ elim (get_elem? xs j) [ none ↦ none | some b ↦ some (set (set xs i b) j a) ]
  ]

  -- `rnd` is the number that the generator gives.
  unfoldable pub pop_rand : VectorQueue T → ℕ → Option (T × VectorQueue T)
  unfolding swap_slots
  pop_rand q rnd =
      if size q == 0 then none else elim (swap_slots q.vector (rnd % size q) q.read_pos) [
        | none ↦ none
        | some v ↦ pop (record q { vector = v })
      ]
