-- ===== src/Timers/Keys.antt =====
-- MultiTimeout.cpp: the set of keys and the queue, and the invariant that every call keeps.
use pxc_core.Prelude.{
  ℕ, ◌<◌, ◌==◌, ◌≡◌, ◌≢◌, refl, sym, ap, ◌∙◌, if◌then◌else◌, Bool, true, false, ◌⊎◌, Option, none,
  some, List, [], ◌∷◌, arith, Option-cases, Bool-cases, inl, inr,
}
use pxc_core.Heap
use pxc_core.Heap.{KHeap, in_heap, is_top, get_key, size, top_key, item_at}
use pxc_core.Heap.Positions.{node_at}
use pxc_core.Heap.Calls.{IsValid, new_heap-IsValid}
use pxc_core.Heap.View.{get_key-top, top_key-least, top_key_same}
use pxc_core.Timers.{MultiTimeout, new_timers, count, erase, no_items, update_timeout}

abbrev pub is_some : Option ℕ → Bool
is_some none = false
is_some (some τ) = true

-- A key is in the set if and only if its node is in the queue.
abbrev pub AreListed : List ℕ → KHeap → Type 0
AreListed ks h = (k : ℕ) → count k ks ≡ is_some (get_key h k)

-- While a node waits, the actor is to be woken up in time.
abbrev pub IsAwake : MultiTimeout → Type 0
IsAwake t = 0 < size t.queue → (0 < t.pending) ⊎ (t.timeout ≡ some (top_key t.queue))

pub record IsArmed (t : MultiTimeout) : Type 0 where
  pub valid : IsValid t.queue
  pub listed : AreListed t.items t.queue
  pub awake : IsAwake t

pub new_timers-IsArmed : IsArmed new_timers
unfolding get_key
new_timers-IsArmed = record {
  valid = new_heap-IsValid;
  listed = λ k. refl;
  awake = λ full. absurd (omega arith);
}

pub count-erase :
    (n key : ℕ) (ks : List ℕ) → count n (erase key ks) ≡ (if n == key then false else count n ks)
count-erase n key [] = ground arith
count-erase n key (k ∷ ks) = ground (arith, count-erase n key ks)

pub in_heap-get_key : (h : KHeap) (k : ℕ) → IsValid h → in_heap h k ≡ is_some (get_key h k)
unfolding get_key
in_heap-get_key h k v = elim (Option-cases (h.pos k)) [
  | inl e ↦ ground (arith, e)
  | inr (i, e) ↦ let (inside, name) = v.placed.known k i e in ground (arith, e, inside)
]

-- The set is empty if and only if the queue is.
pub no_items-empty :
    (ks : List ℕ) (h : KHeap) → IsValid h → AreListed ks h → no_items ks ≡ Heap.empty h
no_items-empty [] h v l = elim (Bool-cases (Heap.empty h)) [
  | inl e ↦ sym e
  | inr e ↦
      let full : 0 < size h = ground arith in
      absurd (ground (arith, l (node_at h.items 0), get_key-top h v full))
]
no_items-empty (k ∷ ks) h v l = elim (Option-cases (get_key h k)) [
  | inl e ↦ absurd (ground (arith, l k, e))
  | inr (τ, e) ↦ ground (arith, top_key-least h k τ v e)
]

-- `update_timeout` passes its checks and arms the actor.
pub update_timeout-IsArmed :
    (t : MultiTimeout)
    → IsValid t.queue
    → AreListed t.items t.queue
    → (no_items t.items ≡ true → (0 < t.pending) ⊎ (t.timeout ≢ none))
    → (u : MultiTimeout) × (update_timeout t ≡ some u)
      × IsArmed u
      × (u.queue ≡ t.queue)
      × (u.pending ≡ t.pending)
unfolding update_timeout
update_timeout-IsArmed t v l due =
    let same = no_items-empty t.items t.queue v l in
    elim (Bool-cases (no_items t.items)) [
      | inl e ↦
          let bare : size t.queue ≡ 0 = ground (arith, same, e) in
          elim (Option-cases t.timeout) [
            | inl out ↦
                let waits : t.pending == 0 ≡ false = ground (arith, due e, out) in
                (
                  t,
                  ground (arith, e, same, out, waits),
                  record { valid = v; listed = l; awake = λ full. absurd (omega arith) },
                  refl,
                  refl,
                )
            | inr (at, out) ↦ (
              record t { timeout = none },
              ground (arith, e, same, out),
              record { valid = v; listed = l; awake = λ full. absurd (omega arith) },
              refl,
              refl,
            )
          ]
      | inr e ↦ (
        record t { timeout = some (top_key t.queue) },
        ground (arith, e),
        record { valid = v; listed = l; awake = λ full. inr refl },
        refl,
        refl,
      )
    ]

-- A change of a node that is not on top, neither before nor after, keeps the actor armed.
pub IsAwake-beside :
    (t : MultiTimeout) (r : KHeap) (ks : List ℕ) (node : ℕ)
    → IsArmed t
    → IsValid r
    → is_top t.queue node ≡ false
    → is_top r node ≡ false
    → ((n : ℕ) → n ≢ node → get_key r n ≡ get_key t.queue n)
    → IsAwake (record t { queue = r; items = ks })
IsAwake-beside t r ks node a w low low' same full =
    let (some_t, top) = top_key_same t.queue r node a.valid w full low low' same in
    elim (a.awake some_t) [
      | inl waits ↦ inl waits
      | inr e ↦ inr (e ∙ ap (λ (k : ℕ). some k) (sym top))
    ]
