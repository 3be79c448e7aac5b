-- ===== src/Timers.antt =====
-- pxcactor/pxc/actor/MultiTimeout.h and MultiTimeout.cpp, and what they ask of an actor's timeout
-- in Scheduler.cpp and Scheduler.h: timeouts by key, which share the one timeout of their actor. A
-- time is a natural number. The node of an item is its key; the set of items is the list of their
-- keys. `timeout` is the key of the actor in the scheduler's own queue, and `pending` the number of
-- Timeout events in its mailbox. A failed CHECK is `none`.
pub mod Keys
pub mod Calls
pub mod Expire
pub mod Run
pub mod History
pub mod Reach
mod Tests
use pxc_core.Prelude.{
  ◌&&◌, ℕ, zero, suc, ◌+◌, ◌-◌, ◌*◌, ◌^◌, ◌==◌, ltb, if◌then◌else◌, Bool, true, false, not, ◌||◌,
  Option, none, some, List, [], ◌∷◌,
}
use pxc_core.Heap
use pxc_core.Heap.{KHeap, in_heap, is_top, top_key, new_heap}

pub record MultiTimeout : Type 0 where
  pub queue : KHeap
  pub items : List ℕ
  pub timeout : Option ℕ
  pub pending : ℕ

abbrev pub new_timers : MultiTimeout
new_timers = record { queue = new_heap; items = []; timeout = none; pending = 0 }

infixl 5 ◌>>=◌
abbrev pub ◌>>=◌ : {A B : Type 0} → Option A → (A → Option B) → Option B
none >>= next = none
some a >>= next = next a

-- `items_.count` and `items_.erase`
abbrev pub count : ℕ → List ℕ → Bool
count key [] = false
count key (k ∷ ks) = key == k || count key ks

abbrev pub erase : ℕ → List ℕ → List ℕ
erase key [] = []
erase key (k ∷ ks) = let rest = erase key ks in if key == k then rest else k ∷ rest

abbrev pub no_items : List ℕ → Bool
no_items [] = true
no_items (k ∷ ks) = false

unfoldable pub has_timeout : ℕ → MultiTimeout → Bool
has_timeout key t = count key t.items

unfoldable pub update_timeout : MultiTimeout → Option MultiTimeout
update_timeout t =
    if no_items t.items
    then if not (Heap.empty t.queue) then none else elim t.timeout [
      | none ↦ if t.pending == 0 then none else some t
      | some at ↦ some (record t { timeout = none })
    ]
    else some (record t { timeout = some (top_key t.queue) })

-- `if (test) update_timeout()`
unfoldable pub update_if : Bool → MultiTimeout → Option MultiTimeout
unfolding update_timeout
update_if test t = if test then update_timeout t else some t

-- The branch of `set_timeout_at` and `add_timeout_at` for a node that is outside.
unfoldable pub insert_timeout : ℕ → ℕ → MultiTimeout → Option MultiTimeout
unfolding Heap.insert update_if
insert_timeout key time t = if count key t.items then none else (do
  queue ← Heap.insert t.queue time key
  update_if (is_top queue key) (record t { queue = queue; items = key ∷ t.items }))

-- The other branch of `set_timeout_at`.
unfoldable pub fix_timeout : ℕ → ℕ → MultiTimeout → Option MultiTimeout
unfolding Heap.fix update_if
fix_timeout key time t =
    if count key t.items
    then (do
      queue ← Heap.fix t.queue time key
      update_if (is_top t.queue key || is_top queue key) (record t { queue = queue }))
    else none

unfoldable pub set_timeout_at : ℕ → ℕ → MultiTimeout → Option MultiTimeout
unfolding fix_timeout insert_timeout
set_timeout_at key time t =
    if in_heap t.queue key then fix_timeout key time t else insert_timeout key time t

unfoldable pub add_timeout_at : ℕ → ℕ → MultiTimeout → Option MultiTimeout
unfolding insert_timeout
add_timeout_at key time t =
    if in_heap t.queue key
    then if count key t.items then some t else none
    else insert_timeout key time t

unfoldable pub cancel_timeout : ℕ → MultiTimeout → Option MultiTimeout
unfolding Heap.erase update_if
cancel_timeout key t =
    if count key t.items
    then if in_heap t.queue key
      then (do
        queue ← Heap.erase t.queue key
        update_if (is_top t.queue key) (record t { queue = queue; items = erase key t.items }))
      else none
    else some t

-- The loop of `get_expired_keys`, with the size of the queue as fuel.
unfoldable pub expire : ℕ → ℕ → MultiTimeout → Option (List ℕ × MultiTimeout)
unfolding Heap.pop
expire zero now t = if Heap.empty t.queue then some ([], t) else none
expire (suc fuel) now t =
    let next = (do
      (key, queue) ← Heap.pop t.queue
      (keys, u) ← expire fuel now (record t { queue = queue; items = erase key t.items })
      some (key ∷ keys, u)) in
    if Heap.empty t.queue
    then some ([], t)
    else if ltb (top_key t.queue) now
    then next
    else some ([], t)

unfoldable pub get_expired_keys : ℕ → MultiTimeout → Option (List ℕ × MultiTimeout)
unfolding expire
get_expired_keys now t = expire (Heap.size t.queue) now t

-- The keys for which the callback is called, in order. The event of the mailbox is used up, if there is one.
unfoldable pub timeout_expired : ℕ → MultiTimeout → Option (List ℕ × MultiTimeout)
unfolding get_expired_keys update_if
timeout_expired now t = do
  (keys, u) ← get_expired_keys now (record t { pending = t.pending - 1 })
  w ← update_if (not (no_items u.items)) u
  some (keys, w)

unfoldable pub run_all : ℕ → MultiTimeout → Option (List ℕ × MultiTimeout)
unfolding get_expired_keys update_if
run_all now t = do
  (keys, u) ← get_expired_keys (now + 10 ^ 10) t
  w ← update_if (not (no_items keys)) u
  some (keys, w)

-- `send_impl` of the Timeout event. It is run at once when no Timeout event is in the mailbox and
-- the actor is `idle`: it belongs to this scheduler, does not migrate or run, and has nothing else in
-- its mailbox. Else it goes to a mailbox. `later` is the time that `timeout_expired` reads.
unfoldable pub send_timeout : Bool → ℕ → MultiTimeout → Option (List ℕ × MultiTimeout)
unfolding timeout_expired
send_timeout idle later t =
    if idle && t.pending == 0
    then timeout_expired later t
    else some ([], record t { pending = t.pending + 1 })

-- `run_timeout` of the scheduler, for this actor.
unfoldable pub run_timeout : Bool → ℕ → ℕ → MultiTimeout → Option (List ℕ × MultiTimeout)
unfolding send_timeout
run_timeout idle now later t = elim t.timeout [
  | none ↦ some ([], t)
  | some at ↦
      if ltb at now then send_timeout idle later (record t { timeout = none }) else some ([], t)
]
