-- ===== src/Changes.antt =====
-- pxcutils/pxc/utils/ChangesProcessor.h: changes that may finish in any order are handed over in
-- the order of their addition. An operation returns the list of the calls of `func`, which is
-- taken not to call back into the processor; ids and sizes are 64-bit and wrap.
pub mod Refine
pub mod Add
mod Tests
use pxc_core.Prelude.{
  ℕ, ◌+◌, ◌*◌, ltb, leb, if◌then◌else◌, Bool, true, false, ◌&&◌, Option, none, some, List, [], ◌∷◌,
  ◌++◌, length, get_elem?, set, drop, add64, sub64,
}

pub record ChangesProcessor (T : Type 0) : Type 0 where
  pub offset : ℕ
  pub ready_i : ℕ
  pub data_array : List (T × Bool)

module _ {T : Type 0} where
  abbrev pub new_changes : ChangesProcessor T
  new_changes = record { offset = 1; ready_i = 0; data_array = [] }

  unfoldable pub clear : ChangesProcessor T → ChangesProcessor T
  clear c = record { offset = add64 c.offset (length c.data_array); ready_i = 0; data_array = [] }

  unfoldable pub add : ChangesProcessor T → T → ℕ × ChangesProcessor T
  add c x = (
    add64 c.offset (length c.data_array),
    record c { data_array = c.data_array ++ (x, false) ∷ [] },
  )

  -- The loop of `finish` on the elements from `ready_i_` on: the calls, and how many they are.
  unfoldable pub hand_over : List (T × Bool) → List T × ℕ
  hand_over [] = ([], 0)
  hand_over ((x, done) ∷ rest) =
      let more = hand_over rest in if done then (x ∷ more.0, more.1 + 1) else ([], 0)

  -- `data_array_[pos].second = true`
  unfoldable pub mark : List (T × Bool) → ℕ → List (T × Bool)
  mark xs pos = elim (get_elem? xs pos) [ none ↦ xs | some (x, done) ↦ set xs pos (x, true) ]

  unfoldable pub try_compactify : ChangesProcessor T → ChangesProcessor T
  try_compactify c =
      if ltb 5 c.ready_i && ltb (length c.data_array) (c.ready_i * 2)
      then record {
        offset = add64 c.offset c.ready_i;
        ready_i = 0;
        data_array = drop c.ready_i c.data_array;
      }
      else c

  unfoldable pub finish : ChangesProcessor T → ℕ → List T × ChangesProcessor T
  unfolding hand_over mark try_compactify
  finish c token =
      let pos = sub64 token c.offset in
      if leb (length c.data_array) pos
      then ([], c)
      else let marked = mark c.data_array pos in
        let (calls, n) = hand_over (drop c.ready_i marked) in
        (calls, try_compactify (record c { ready_i = c.ready_i + n; data_array = marked }))
