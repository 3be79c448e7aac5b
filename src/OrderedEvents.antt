-- ===== src/OrderedEvents.antt =====
-- pxcutils/pxc/utils/OrderedEventsProcessor.h: events that come in any order are handed to a
-- function in the order of their sequence numbers. The calls of that function are the list that
-- an operation returns. `none` is a failed LOG_CHECK or an access past the end of the array.
pub mod Slots
pub mod Order
pub mod Settle
pub mod Add
pub mod History
pub mod InOrder
mod Tests
use pxc_core.Prelude.{
  ℕ, zero, suc, ◌+◌, ◌-◌, ◌*◌, ltb, ◌==◌, if◌then◌else◌, Bool, true, false, ◌&&◌, Option, none,
  some, List, [], ◌∷◌, ◌++◌, length, get_elem?, set, drop, replicate, add64, sub64,
}
use mathlib.Core.Option

pub record Processor {ℓ} (D : Type ℓ) : Type ℓ where
  pub offset : ℕ
  pub begin : ℕ
  pub end : ℕ
  pub data_array : List (D × Bool)

-- What a call hands over, in order, and the state behind it.
abbrev pub Outcome {ℓ} : Type ℓ → Type ℓ
Outcome D = Option (List (ℕ × D) × Processor D)

module _ {ℓ} {D : Type ℓ} where
  -- `OrderedEventsProcessor(offset)`; the default constructor starts at 1.
  abbrev pub starting_at : ℕ → Processor D
  starting_at n = record { offset = n; begin = n; end = n; data_array = [] }

  -- The events that `clear` hands over before it resets the processor.
  pub held_events : List (D × Bool) → List D
  held_events [] = []
  held_events (slot ∷ slots) = if slot.1 then slot.0 ∷ held_events slots else held_events slots

  unfoldable pub clear : Processor D → List D × Processor D
  unfolding held_events
  clear p = (held_events p.data_array, starting_at 1)

  -- The event that stands before the others of a result.
  abbrev pub handing : ℕ × D → Outcome D → Outcome D
  handing e = Option.map (λ r. (e ∷ r.0, r.1))

  -- `while (begin_ < end_) { ... }`, with fuel for its rounds.
  pub drain : ℕ → Processor D → Outcome D
  drain zero p = none
  drain (suc fuel) p =
      let pos = sub64 p.begin p.offset in
      let rest = λ (slot : D × Bool).
        drain fuel (record p {
          begin = add64 p.begin 1;
          data_array = set p.data_array pos (slot.0, false);
        }) in
      if ltb p.begin p.end
      then elim (get_elem? p.data_array pos) [
        | none ↦ none
        | some slot ↦ elim slot.1 [
          | false ↦ some ([], p)
          | true ↦ handing (p.begin, slot.0) (rest slot)
        ]
      ]
      else some ([], p)

  -- `if (begin_ > end_) end_ = begin_; if (begin_ == end_) offset_ = begin_;`
  pub close_gap : Processor D → Processor D
  close_gap p =
      let end' = if ltb p.end p.begin then p.begin else p.end in
      record p { end = end'; offset = if p.begin == end' then p.begin else p.offset }

  pub try_compactify : Processor D → Processor D
  try_compactify p =
      let begin_pos = sub64 p.begin p.offset in
      if ltb 5 begin_pos && ltb (length p.data_array) (begin_pos * 2)
      then record p { data_array = drop begin_pos p.data_array; offset = p.begin }
      else p

  -- The branch of `add` for the event that is due.
  pub add_now : Processor D → D → Outcome D
  add_now p d =
      let q = record p { begin = add64 p.begin 1 } in
      handing (p.begin, d)
        (Option.map (λ r. (r.0, try_compactify (close_gap r.1))) (drain (p.end - q.begin + 1) q))

  -- `data_array_.resize(need_size)` when it is shorter; `blank` is `DataT()`.
  pub grow_to : D → ℕ → List (D × Bool) → List (D × Bool)
  grow_to blank n xs = xs ++ replicate (n - length xs) (blank, false)

  -- The branch of `add` for an event that comes too early.
  pub add_later : D → Processor D → ℕ → D → Outcome D
  add_later blank p seq_no d =
      let pos = sub64 seq_no p.offset in
      some (
        [],
        record p {
          data_array = set (grow_to blank (add64 pos 1) p.data_array) pos (d, true);
          end = if ltb p.end (add64 seq_no 1) then add64 seq_no 1 else p.end;
        },
      )

  unfoldable pub add : D → Processor D → ℕ → D → Outcome D
  unfolding drain close_gap try_compactify add_now grow_to add_later
  add blank p seq_no d =
      if ltb seq_no p.begin
      then none
      else if seq_no == p.begin
      then add_now p d
      else add_later blank p seq_no d

  unfoldable pub has_events : Processor D → Bool
  has_events p = if p.begin == p.end then false else true

  unfoldable pub max_unfinished_seq_no : Processor D → ℕ
  max_unfinished_seq_no p = sub64 p.end 1

  unfoldable pub max_finished_seq_no : Processor D → ℕ
  max_finished_seq_no p = sub64 p.begin 1
