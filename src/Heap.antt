-- ===== src/Heap.antt =====
-- pxcutils/pxc/utils/Heap.h: `KHeap`, a heap in an array in which every parent has `K` children,
-- and the position that each node keeps. Keys are natural numbers and `K` is 4, its default. A
-- node is its number; `pos` gives the `pos_` of every node, and `none` stands for -1. A failed
-- CHECK is `none`.
pub mod Arrays
pub mod Order
pub mod Up
pub mod Least
pub mod Down
pub mod Positions
pub mod Calls
pub mod Erase
pub mod View
mod Tests
use pxc_core.Prelude.{
  ◌^◌, ◌||◌, ℕ, zero, suc, ◌+◌, ◌-◌, ◌*◌, ◌/◌, ◌==◌, ltb, leb, min, if◌then◌else◌, Bool, true,
  false, Option, none, some, List, [], ◌∷◌, ◌++◌, length, get_or, set, take,
}

pub record Item : Type 0 where
  pub key : ℕ
  pub node : ℕ

pub record KHeap : Type 0 where
  pub items : List Item
  pub pos : ℕ → Option ℕ

abbrev pub arity : ℕ
arity = 4

-- `array_[i]`. No read below leaves the array, so the item past its end is of no account.
abbrev pub blank : Item
blank = record { key = 0; node = 0 }

abbrev pub item_at : List Item → ℕ → Item
item_at xs i = get_or xs i blank

-- A heap with no item, and all nodes outside.
abbrev pub new_heap : KHeap
new_heap = record { items = []; pos = λ n. none }

abbrev pub in_heap : KHeap → ℕ → Bool
in_heap h node = elim (h.pos node) [ none ↦ false | some p ↦ true ]

abbrev pub is_top : KHeap → ℕ → Bool
is_top h node = elim (h.pos node) [ none ↦ false | some p ↦ p == 0 ]

abbrev pub size : KHeap → ℕ
size h = length h.items

abbrev pub empty : KHeap → Bool
empty h = size h == 0

abbrev pub top_key : KHeap → ℕ
top_key h = (item_at h.items 0).key

unfoldable pub get_key : KHeap → ℕ → Option ℕ
get_key h node = elim (h.pos node) [
  | none ↦ none
  | some p ↦ if ltb p (size h) then some (item_at h.items p).key else none
]

-- `node->pos_ = p`
abbrev pub place : (ℕ → Option ℕ) → ℕ → Option ℕ → ℕ → Option ℕ
place pos node p n = if n == node then p else pos n

-- `item.node_->pos_ = pos; array_[pos] = item;`. The cast of `pos` to `int32` changes nothing, since
-- `insert` makes no position from 2 ^ 31 on.
unfoldable pub write : KHeap → ℕ → Item → KHeap
write h p item = record { items = set h.items p item; pos = place h.pos item.node (some p) }

abbrev pub parent : ℕ → ℕ
parent p = (p - 1) / arity

-- The loop of `fix_up`, with the position as fuel.
unfoldable pub fix_up_loop : ℕ → Item → KHeap → ℕ → KHeap
unfolding write
fix_up_loop zero item h p = write h p item
fix_up_loop (suc fuel) item h p =
    let up = item_at h.items (parent p) in
    let rest = fix_up_loop fuel item (write h p up) (parent p) in
    if p == 0 then write h p item else if ltb up.key item.key then write h p item else rest

unfoldable pub fix_up : KHeap → ℕ → KHeap
unfolding fix_up_loop
fix_up h p = fix_up_loop p (item_at h.items p) h p

-- The `for` of `fix_down` over `n` children from `i` on: the position and the key of the least
-- one that is below `best_key`.
unfoldable pub least_child : List Item → ℕ → ℕ → ℕ → ℕ → ℕ
least_child xs zero i best best_key = best
least_child xs (suc n) i best best_key =
    let key = (item_at xs i).key in
    let better = least_child xs n (i + 1) i key in
    let same = least_child xs n (i + 1) best best_key in if ltb key best_key then better else same

-- `next_pos` of one round of `fix_down`.
unfoldable pub next_pos : List Item → ℕ → ℕ → ℕ
unfolding least_child
next_pos xs p key =
    let left = p * arity + 1 in least_child xs (min (left + arity) (length xs) - left) left p key

-- The loop of `fix_down`, with the size as fuel.
unfoldable pub fix_down_loop : ℕ → Item → KHeap → ℕ → KHeap
unfolding next_pos write
fix_down_loop zero item h p = write h p item
fix_down_loop (suc fuel) item h p =
    let next = next_pos h.items p item.key in
    let rest = fix_down_loop fuel item (write h p (item_at h.items next)) next in
    if next == p then write h p item else rest

unfoldable pub fix_down : KHeap → ℕ → KHeap
unfolding fix_down_loop
fix_down h p = fix_down_loop (size h) (item_at h.items p) h p

-- `erase` of a position. The capacity is left out.
unfoldable pub erase_at : KHeap → ℕ → KHeap
unfolding fix_down fix_up
erase_at h p =
    let last = length h.items - 1 in
    let rest = record h { items = take last (set h.items p (item_at h.items last)) } in
    if ltb p (size rest) then fix_up (fix_down rest p) p else rest

-- `pop`: the node of the first item.
unfoldable pub pop : KHeap → Option (ℕ × KHeap)
unfolding erase_at
pop h =
    let node = (item_at h.items 0).node in
    if empty h then none else some (node, erase_at (record h { pos = place h.pos node none }) 0)

-- The position of a new item has to fit the `int32` of `pos_`; else the result is `none` too.
unfoldable pub insert : KHeap → ℕ → ℕ → Option KHeap
unfolding fix_up
insert h key node =
    let h' = record h { items = h.items ++ record { key = key; node = node } ∷ [] } in
    if in_heap h node || leb (2 ^ 31) (size h) then none else some (fix_up h' (size h' - 1))

-- `fix`. The position -1 of a node outside is past the end as a `size_t`.
unfoldable pub fix : KHeap → ℕ → ℕ → Option KHeap
unfolding fix_up fix_down
fix h key node = elim (h.pos node) [
  | none ↦ none
  | some p ↦
      let old = item_at h.items p in
      let h' = record h { items = set h.items p (record old { key = key }) } in
      if ltb p (size h) then some (if ltb key old.key then fix_up h' p else fix_down h' p) else none
]

unfoldable pub erase : KHeap → ℕ → Option KHeap
unfolding erase_at
erase h node = elim (h.pos node) [
  | none ↦ none
  | some p ↦
      if ltb p (size h) then some (erase_at (record h { pos = place h.pos node none }) p) else none
]
