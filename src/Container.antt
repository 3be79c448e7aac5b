-- ===== src/Container.antt =====
-- pxcutils/pxc/utils/Container.h: values in slots, reached by ids that carry the generation of
-- their slot. The stack `empty_slots_` has its back at the head of the list here. An id is
-- `slot * 2 ^ 32 + generation`; `none` as an `int32` is the source's -1, and as a result of an
-- operation it is a failed CHECK. `blank` is the value that `DataT()` makes.
pub mod Slots
pub mod Writes
pub mod Erase
pub mod Ids
mod Tests
use pxc_core.Prelude.{
  ℕ, ◌+◌, ◌-◌, ◌*◌, ◌/◌, ◌%◌, ◌^◌, ◌==◌, ltb, leb, if◌then◌else◌, Bool, true, false, not, ◌&&◌,
  Option, none, some, List, [], ◌∷◌, ◌++◌, length, get_elem?, set, replicate, u32_mod, add32,
}

pub record Slot (T : Type 0) : Type 0 where
  pub generation : ℕ
  pub item : T

pub record Container (T : Type 0) : Type 0 where
  pub slots : List (Slot T)
  pub empty_slots : List ℕ

abbrev pub generation_step : ℕ
generation_step = 256

abbrev pub int32_limit : ℕ
int32_limit = 2 ^ 31

-- `id < static_cast<int32>(n)` for an `int32` that is not negative.
abbrev pub below_int32 : ℕ → ℕ → Bool
below_int32 id n = let w = n % u32_mod in if ltb w int32_limit then ltb id w else false

-- The `encode_id` of a slot with this generation.
abbrev pub make_id : ℕ → ℕ → ℕ
make_id id generation = id * u32_mod + generation

abbrev pub type_from_id : ℕ → ℕ
type_from_id id = id % 256

-- `is_bad` of `ids`: the slots on the stack of empty ones.
unfoldable pub mark_empty : List ℕ → List Bool → List Bool
mark_empty [] bad = bad
mark_empty (id ∷ rest) bad = mark_empty rest (set bad id true)

module _ {T : Type 0} where
  -- A container as it is constructed, and after `clear`.
  abbrev pub new_container : Container T
  new_container = record { slots = []; empty_slots = [] }

  abbrev pub clear : Container T → Container T
  clear c = new_container

module _ {T : Type 0} where
  -- `encode_id`. A read behind the last slot is `none`.
  unfoldable pub encode_id : Container T → ℕ → Option ℕ
  encode_id c id = elim (get_elem? c.slots id) [
    | none ↦ none
    | some s ↦ some (make_id id s.generation)
  ]

  unfoldable pub decode_id : Container T → ℕ → Option ℕ
  decode_id c id =
      let slot_id = id / u32_mod in
      if ltb slot_id int32_limit && below_int32 slot_id (length c.slots)
      then elim (get_elem? c.slots slot_id) [
        | none ↦ none
        | some s ↦ if id % u32_mod == s.generation then some slot_id else none
      ]
      else none

  unfoldable pub get : Container T → ℕ → Option T
  unfolding decode_id
  get c id = elim (decode_id c id) [
    | none ↦ none
    | some slot_id ↦ elim (get_elem? c.slots slot_id) [ none ↦ none | some s ↦ some s.item ]
  ]

  unfoldable pub inc_generation : Container T → ℕ → Container T
  inc_generation c id = elim (get_elem? c.slots id) [
    | none ↦ c
    | some s ↦ record c {
      slots = set c.slots id (record s { generation = add32 s.generation generation_step });
    }
  ]

  -- `slots_[id].data = x`
  unfoldable pub write_data : Container T → ℕ → T → Container T
  write_data c id x = elim (get_elem? c.slots id) [
    | none ↦ c
    | some s ↦ record c { slots = set c.slots id (record s { item = x }) }
  ]

  -- `slots_[pos].generation ^= (slots_[pos].generation & TYPE_MASK) ^ type`: the type replaces
  -- the low byte.
  unfoldable pub write_type : Container T → ℕ → ℕ → Container T
  write_type c id type = elim (get_elem? c.slots id) [
    | none ↦ c
    | some s ↦ record c {
      slots = set c.slots id (record s { generation = s.generation / 256 * 256 + type });
    }
  ]

  -- The test of `release`, on the slot as it is then.
  unfoldable pub is_usable : Container T → ℕ → Bool
  is_usable c id = elim (get_elem? c.slots id) [
    | none ↦ false
    | some s ↦ not (s.generation / 256 == 0)
  ]

  unfoldable pub store : Container T → T → ℕ → Option (ℕ × Container T)
  unfolding write_data write_type
  store c x type = elim c.empty_slots [
    | pos ∷ rest ↦
        some (pos, write_type (write_data (record c { empty_slots = rest }) pos x) pos type)
    | [] ↦
        if leb (length c.slots) (int32_limit - 1)
        then some (
          length c.slots,
          record c {
            slots = c.slots ++ record { generation = generation_step + type; item = x } ∷ [];
          },
        )
        else none
  ]

  unfoldable pub create : Container T → T → ℕ → Option (ℕ × Container T)
  unfolding store encode_id
  create c x type = elim (store c x type) [
    | none ↦ none
    | some (pos, c') ↦ elim (encode_id c' pos) [ none ↦ none | some id ↦ some (id, c') ]
  ]

  unfoldable pub reset_id : Container T → ℕ → Option (ℕ × Container T)
  unfolding decode_id inc_generation encode_id
  reset_id c id = elim (decode_id c id) [
    | none ↦ none
    | some slot_id ↦
        let c' = inc_generation c slot_id in
        elim (encode_id c' slot_id) [ none ↦ none | some new ↦ some (new, c') ]
  ]

  -- The loop of `ids` from the slot `i` on.
  unfoldable pub ids_from : ℕ → List (Slot T) → List Bool → List ℕ
  ids_from i [] bad = []
  ids_from i (s ∷ ss) [] = []
  ids_from i (s ∷ ss) (b ∷ bad) =
      let rest = ids_from (i + 1) ss bad in if b then rest else make_id i s.generation ∷ rest

  unfoldable pub ids : Container T → List ℕ
  unfolding mark_empty ids_from
  ids c = ids_from 0 c.slots (mark_empty c.empty_slots (replicate (length c.slots) false))

  unfoldable pub size : Container T → Option ℕ
  size c =
      if leb (length c.empty_slots) (length c.slots)
      then some (length c.slots - length c.empty_slots)
      else none

  unfoldable pub empty : Container T → Option Bool
  unfolding size
  empty c = elim (size c) [ none ↦ none | some n ↦ some (n == 0) ]

module _ {T : Type 0} (blank : T) where
  unfoldable pub release : Container T → ℕ → Container T
  unfolding inc_generation write_data is_usable
  release c id =
      let c' = write_data (inc_generation c id) id blank in
      if is_usable c' id then record c' { empty_slots = id ∷ c'.empty_slots } else c'

  unfoldable pub erase : Container T → ℕ → Container T
  unfolding decode_id release
  erase c id = elim (decode_id c id) [ none ↦ c | some slot_id ↦ release c slot_id ]

  unfoldable pub extract : Container T → ℕ → Option (T × Container T)
  unfolding decode_id release
  extract c id = elim (decode_id c id) [
    | none ↦ none
    | some slot_id ↦ elim (get_elem? c.slots slot_id) [
      | none ↦ none
      | some s ↦ some (s.item, release c slot_id)
    ]
  ]
