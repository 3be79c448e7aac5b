-- ===== src/Container/Tests.antt =====
-- Container.h: runs, and the theorems on them.
use pxc_core.Prelude.{ℕ, ◌/◌, ◌==◌, ◌≡◌, refl, if◌then◌else◌, none, some, [], ◌∷◌, u32_mod, arith}
use pxc_core.Container.{
  Container, make_id, encode_id, decode_id, get, write_data, write_type, store, create, ids,
  ids_from, mark_empty, size, erase, extract, type_from_id,
}
use pxc_core.Container.Writes.{IsValid}
use pxc_core.Container.Ids.{get-create}
use pxc_core.Container.Erase.{released, next_id, get-erase, erase_overflow}

-- A live slot and an erased one.
abbrev sample : Container ℕ
sample = record {
  slots = record { generation = 263; item = 5 } ∷ record { generation = 512; item = 0 } ∷ [];
  empty_slots = 1 ∷ [];
}

sample-IsValid : IsValid sample
sample-IsValid = record {
  fits = omega arith;
  words = (omega arith, (omega arith, tt));
  empties = (omega arith, tt);
}

ids-sample : ids sample ≡ 263 ∷ []
unfolding ids ids_from mark_empty
ids-sample = refl

create-sample :
    create sample 8 3
    ≡ some (
      make_id 1 515,
      record {
        slots = record { generation = 263; item = 5 } ∷ record { generation = 515; item = 8 } ∷ [];
        empty_slots = [];
      },
    )
unfolding create store write_data write_type encode_id
create-sample = refl

get-sample : get sample 263 ≡ some 5
unfolding get decode_id
get-sample = refl

get-create_example :
    (id : ℕ) × (c : Container ℕ) × (create sample 8 3 ≡ some (id, c))
    × IsValid c
    × (type_from_id id ≡ 3)
    × (get c 263 ≡ (
        if 263 / u32_mod == id / u32_mod
        then (if 263 == id then some 8 else none)
        else get sample 263))
get-create_example = get-create sample 8 3 263 sample-IsValid (omega arith) (omega arith)

get-erase_example :
    (extract 0 sample 263 ≡ some (5, erase 0 sample 263))
    × IsValid (erase 0 sample 263)
    × (get (erase 0 sample 263) 263 ≡ none)
    × (get (erase 0 sample 263) 519 ≡ (
        if 519 / u32_mod == next_id 263 / u32_mod
        then (if 519 == next_id 263 then some 0 else none)
        else get sample 519))
    × ((erase 0 sample 263).empty_slots ≡ released sample 263)
get-erase_example = get-erase 0 sample 263 5 519 sample-IsValid get-sample

-- The last generation of a slot.
abbrev worn : Container ℕ
worn = record { slots = record { generation = 4294967040; item = 5 } ∷ []; empty_slots = [] }

worn-IsValid : IsValid worn
worn-IsValid = record { fits = omega arith; words = (omega arith, tt); empties = tt }

get-worn : get worn 4294967040 ≡ some 5
unfolding get decode_id
get-worn = refl

erase_overflow_example :
    (size (erase 0 worn 4294967040) ≡ size worn) × (get (erase 0 worn 4294967040) 0 ≡ some 0)
erase_overflow_example = erase_overflow 0 worn 4294967040 5 worn-IsValid get-worn (omega arith)
