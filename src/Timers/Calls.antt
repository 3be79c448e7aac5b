-- ===== src/Timers/Calls.antt =====
-- MultiTimeout.cpp: setting, adding and cancelling the timeout of a key.
use pxc_core.Prelude.{
  ◌+◌, ◌≤◌, ◌^◌, subst, sym, ℕ, ◌<◌, ◌==◌, ◌≡◌, ◌≢◌, refl, ap, ◌∙◌, if◌then◌else◌, Bool, true,
  false, ◌||◌, ◌⊎◌, Option, none, some, List, ◌∷◌, arith, Option-cases, Bool-cases, inl, inr,
}
use native.Mathlib.Decide.{ℕ_discrete}
use pxc_core.Heap.{size, KHeap, in_heap, is_top, get_key}
use pxc_core.Heap.Calls.{IsValid}
use pxc_core.Heap.View.{top_key-least, get_key-insert, get_key-fix, get_key-erase}
use pxc_core.Timers.{
  MultiTimeout, count, erase, no_items, update_if, insert_timeout, fix_timeout, set_timeout_at,
  add_timeout_at, cancel_timeout,
}
use pxc_core.Timers.Keys.{
  is_some, AreListed, IsArmed, count-erase, in_heap-get_key, update_timeout-IsArmed, IsAwake-beside,
}

-- The call gave a result in which the actor is armed, the keys have these times, and there is at
-- most one more than the `n` of before.
abbrev pub Gives : Option MultiTimeout → (ℕ → Option ℕ) → ℕ → Type 0
Gives result times n =
    (u : MultiTimeout) × (result ≡ some u)
    × IsArmed u
    × ((k : ℕ) → get_key u.queue k ≡ times k)
    × (size u.queue ≤ n + 1)

abbrev pub with_key : ℕ → Option ℕ → (ℕ → Option ℕ) → ℕ → Option ℕ
with_key key time times n = if n == key then time else times n

is_top-in_heap : (h : KHeap) (k : ℕ) → in_heap h k ≡ false → is_top h k ≡ false
is_top-in_heap h k out = elim (Option-cases (h.pos k)) [
  | inl e ↦ ground (arith, e)
  | inr (i, e) ↦ absurd (ground (arith, e, out))
]

some_of : {b : Bool} (time : Option ℕ) → time ≢ none → b ≡ is_some time → b ≡ true
some_of none there e = absurd (there refl)
some_of (some τ) there e = e

none_of : {b : Bool} (time : Option ℕ) → time ≡ none → b ≡ is_some time → b ≡ false
none_of time e f = f ∙ ap is_some e

pub due_of :
    (t : MultiTimeout) (key : ℕ)
    → IsArmed t
    → get_key t.queue key ≢ none
    → (0 < t.pending) ⊎ (t.timeout ≢ none)
due_of t key a there = elim (Option-cases (get_key t.queue key)) [
  | inl e ↦ absurd (there e)
  | inr (τ, e) ↦ elim (a.awake (top_key-least t.queue key τ a.valid e).0) [
    | inl waits ↦ inl waits
    | inr s ↦ inr (λ g. ground (arith, s, g))
  ]
]

-- The end of each call: the node `key` has its new time, and the actor is updated when the node
-- was on top or is now.
update_if-Gives :
    (t : MultiTimeout) (r : KHeap) (ks : List ℕ) (key : ℕ) (time : Option ℕ) (test : Bool)
    → IsArmed t
    → IsValid r
    → ((n : ℕ) → get_key r n ≡ with_key key time (get_key t.queue) n)
    → ((n : ℕ) → count n ks ≡ (if n == key then is_some time else count n t.items))
    → (no_items ks ≡ true → get_key t.queue key ≢ none)
    → (test ≡ false → (is_top t.queue key ≡ false) × (is_top r key ≡ false))
    → size r ≤ size t.queue + 1
    → Gives
        (update_if test (record t { queue = r; items = ks }))
        (with_key key time (get_key t.queue))
        (size t.queue)
unfolding update_if
update_if-Gives t r ks key time test a w view members waits beside few =
    let listed : AreListed ks r = λ n. elim (ℕ_discrete n key) [
      | yes e ↦ ground (arith, e, members n, view n, a.listed n)
      | no e ↦ ground (arith, e, members n, view n, a.listed n)
    ] in
    elim (Bool-cases test) [
      | inl e ↦
          let (u, done, b, q, s) =
            update_timeout-IsArmed (record t { queue = r; items = ks }) w listed
              (λ f. due_of t key a (waits f)) in
          (
            u,
            rw (update_if, e) done,
            b,
            λ n. ap (λ (h : KHeap). get_key h n) q ∙ view n,
            subst (λ h. size h ≤ size t.queue + 1) (sym q) few,
          )
      | inr e ↦
          let (low, low') = beside e in
          (
            record t { queue = r; items = ks },
            rw (update_if, e) refl,
            record {
              valid = w;
              listed = listed;
              awake = IsAwake-beside t r ks key a w low low' (λ n s. ground (arith, view n, s));
            },
            view,
            few,
          )
    ]

insert_timeout-Gives :
    (key time : ℕ) (t : MultiTimeout)
    → IsArmed t
    → size t.queue < 2 ^ 31
    → get_key t.queue key ≡ none
    → Gives (insert_timeout key time t) (with_key key (some time) (get_key t.queue)) (size t.queue)
unfolding insert_timeout
insert_timeout-Gives key time t a small out =
    let (r, done, w, view, more) = get_key-insert t.queue time key a.valid out small in
    let there : in_heap t.queue key ≡ false =
      in_heap-get_key t.queue key a.valid ∙ ap is_some out in
    let absent : count key t.items ≡ false = a.listed key ∙ ap is_some out in
    let (u, end, b, times, few) =
      update_if-Gives t r (key ∷ t.items) key (some time) (is_top r key) a w view
        (λ n. ground arith) (λ e. absurd (ground (arith, e)))
        (λ e. (is_top-in_heap t.queue key there, e)) (omega (arith, more)) in
    (u, rw (insert_timeout, absent, done) end, b, times, few)

fix_timeout-Gives :
    (key time : ℕ) (t : MultiTimeout)
    → IsArmed t
    → get_key t.queue key ≢ none
    → Gives (fix_timeout key time t) (with_key key (some time) (get_key t.queue)) (size t.queue)
unfolding fix_timeout
fix_timeout-Gives key time t a there =
    let (r, done, w, view, more) = get_key-fix t.queue time key a.valid there in
    let present : count key t.items ≡ true = some_of (get_key t.queue key) there (a.listed key) in
    let (u, end, b, times, few) =
      update_if-Gives t r t.items key (some time) (is_top t.queue key || is_top r key) a w view
        (λ n. elim (ℕ_discrete n key) [
          | yes s ↦ ground (arith, s, present, ap (λ k. count k t.items) s)
          | no s ↦ ground (arith, s)
        ])
        (λ e. there) (λ e. ground (arith, e)) (omega (arith, more)) in
    (u, rw (fix_timeout, present, done) end, b, times, few)

-- `set_timeout_at` gives its key the time.
pub set_timeout_at-Gives :
    (key time : ℕ) (t : MultiTimeout)
    → IsArmed t
    → size t.queue < 2 ^ 31
    → Gives (set_timeout_at key time t) (with_key key (some time) (get_key t.queue)) (size t.queue)
unfolding set_timeout_at
set_timeout_at-Gives key time t a small =
    let in_queue = in_heap-get_key t.queue key a.valid in
    let taken : Bool → Option MultiTimeout =
      λ b. if b then fix_timeout key time t else insert_timeout key time t in
    elim (Option-cases (get_key t.queue key)) [
      | inl e ↦
          let (u, done, b, times, few) = insert_timeout-Gives key time t a small e in
          (u, ap taken (none_of (get_key t.queue key) e in_queue) ∙ done, b, times, few)
      | inr (τ, e) ↦
          let there : get_key t.queue key ≢ none = λ f. ground (arith, e, f) in
          let (u, done, b, times, few) = fix_timeout-Gives key time t a there in
          (u, ap taken (some_of (get_key t.queue key) there in_queue) ∙ done, b, times, few)
    ]

-- `add_timeout_at` gives its key the time, unless it has one.
pub add_timeout_at-Gives :
    (key time : ℕ) (t : MultiTimeout)
    → IsArmed t
    → size t.queue < 2 ^ 31
    → Gives
        (add_timeout_at key time t)
        (λ n.
          if is_some (get_key t.queue key)
          then get_key t.queue n
          else with_key key (some time) (get_key t.queue) n)
        (size t.queue)
unfolding add_timeout_at
add_timeout_at-Gives key time t a small =
    let in_queue = in_heap-get_key t.queue key a.valid in
    let present : Option MultiTimeout = if count key t.items then some t else none in
    let taken : Bool → Option MultiTimeout =
      λ b. if b then present else insert_timeout key time t in
    elim (Option-cases (get_key t.queue key)) [
      | inl e ↦
          let (u, done, b, times, few) = insert_timeout-Gives key time t a small e in
          (
            u,
            ap taken (none_of (get_key t.queue key) e in_queue) ∙ done,
            b,
            λ n. rw e (times n),
            few,
          )
      | inr (τ, e) ↦
          let there : get_key t.queue key ≢ none = λ f. ground (arith, e, f) in
          let member = some_of (get_key t.queue key) there (a.listed key) in
          (
            t,
            ap taken (some_of (get_key t.queue key) there in_queue)
                ∙ ap (λ b. if b then some t else none) member,
            a,
            λ n. rw e refl,
            omega arith,
          )
    ]

-- `cancel_timeout` leaves its key without a time.
pub cancel_timeout-Gives :
    (key : ℕ) (t : MultiTimeout)
    → IsArmed t
    → Gives (cancel_timeout key t) (with_key key none (get_key t.queue)) (size t.queue)
unfolding cancel_timeout
cancel_timeout-Gives key t a = elim (Option-cases (get_key t.queue key)) [
  | inl e ↦ (
    t,
    rw (cancel_timeout, none_of (get_key t.queue key) e (a.listed key)) refl,
    a,
    λ n. elim (ℕ_discrete n key) [
      | yes s ↦ ground (arith, s, e, ap (get_key t.queue) s)
      | no s ↦ ground (arith, s)
    ],
    omega arith,
  )
  | inr (τ, e) ↦
      let there : get_key t.queue key ≢ none = λ f. ground (arith, e, f) in
      let member = some_of (get_key t.queue key) there (a.listed key) in
      let inside = some_of (get_key t.queue key) there (in_heap-get_key t.queue key a.valid) in
      let (r, done, w, view, more) = get_key-erase t.queue key a.valid there in
      let out : get_key r key ≡ none = ground (arith, view key) in
      let low = none_of (get_key r key) out (in_heap-get_key r key w) in
      let (u, end, b, times, few) =
        update_if-Gives t r (erase key t.items) key none (is_top t.queue key) a w view
          (λ n. count-erase n key t.items) (λ f. there) (λ f. (f, is_top-in_heap r key low))
          (omega (arith, more)) in
      (u, rw (cancel_timeout, member, inside, done) end, b, times, few)
]
