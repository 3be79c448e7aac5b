-- ===== src/Timers/Expire.antt =====
-- MultiTimeout.cpp: the keys whose time has passed.
use native.Mathlib.Decide.{ℕ_discrete}
use pxc_core.Prelude.{
  ℕ, zero, suc, ◌≤◌, ◌<◌, ◌==◌, ltb, ◌≡◌, refl, ap, ◌∙◌, if◌then◌else◌, true, false, Option, none,
  some, List, [], ◌∷◌, arith, Option-cases, Bool-cases, inl, inr,
}
use pxc_core.Heap
use pxc_core.Heap.{KHeap, get_key, size, top_key, item_at}
use pxc_core.Heap.Positions.{node_at}
use pxc_core.Heap.Calls.{IsValid}
use pxc_core.Heap.View.{get_key-pop, get_key-top, top_key-least}
use pxc_core.Timers.{MultiTimeout, erase, expire}
use pxc_core.Timers.Keys.{AreListed, count-erase}

abbrev pub occurrences : ℕ → List ℕ → ℕ
occurrences n [] = 0
occurrences n (k ∷ ks) = let rest = occurrences n ks in if n == k then suc rest else rest

-- What is left of a key's time at `now`, and how often the key is reported.
abbrev pub still : ℕ → Option ℕ → Option ℕ
still now none = none
still now (some τ) = if ltb τ now then none else some τ

abbrev pub due : ℕ → Option ℕ → ℕ
due now none = 0
due now (some τ) = if ltb τ now then 1 else 0

-- The loop gave a result that has taken out just the keys that are due at `now`.
pub record Swept (now : ℕ) (t : MultiTimeout) (keys : List ℕ) (u : MultiTimeout) : Type 0 where
  pub valid : IsValid u.queue
  pub listed : AreListed u.items u.queue
  pub timeout : u.timeout ≡ t.timeout
  pub pending : u.pending ≡ t.pending
  pub times : (n : ℕ) → get_key u.queue n ≡ still now (get_key t.queue n)
  pub reported : (n : ℕ) → occurrences n keys ≡ due now (get_key t.queue n)
  pub idle : keys ≡ [] → u ≡ t
  pub fewer : size u.queue ≤ size t.queue

nothing_due :
    (now : ℕ) (t : MultiTimeout)
    → IsValid t.queue
    → AreListed t.items t.queue
    → (0 < size t.queue → now ≤ top_key t.queue)
    → Swept now t [] t
nothing_due now t v l late =
    let kept : (n : ℕ)
        → (get_key t.queue n ≡ still now (get_key t.queue n)) × (0 ≡ due now (get_key t.queue n)) =
      λ n. elim (Option-cases (get_key t.queue n)) [
        | inl e ↦ (rw e refl, rw e refl)
        | inr (τ, e) ↦
            let (full, least) = top_key-least t.queue n τ v e in
            let low = late full in
            let test : ltb τ now ≡ false = ground arith in (rw (e, test) refl, rw (e, test) refl)
      ] in
    record {
      valid = v;
      listed = l;
      timeout = refl;
      pending = refl;
      times = λ n. (kept n).0;
      reported = λ n. (kept n).1;
      idle = λ none_out. refl;
      fewer = omega arith;
    }

one_more :
    (now key : ℕ) (t w u : MultiTimeout) (keys : List ℕ)
    → get_key t.queue key ≡ some (top_key t.queue)
    → top_key t.queue < now
    → w.timeout ≡ t.timeout
    → w.pending ≡ t.pending
    → ((n : ℕ) → get_key w.queue n ≡ (if n == key then none else get_key t.queue n))
    → size w.queue ≤ size t.queue
    → Swept now w keys u
    → Swept now t (key ∷ keys) u
one_more now key t w u keys top low e f view less s =
    let test : ltb (top_key t.queue) now ≡ true = ground arith in
    record {
      valid = s.valid;
      listed = s.listed;
      timeout = s.timeout ∙ e;
      pending = s.pending ∙ f;
      times = λ n. elim (ℕ_discrete n key) [
        | yes same ↦ ground (arith, same, s.times n, view n, top, test, ap (get_key t.queue) same)
        | no apart ↦ ground (arith, apart, s.times n, view n)
      ];
      reported = λ n. elim (ℕ_discrete n key) [
        | yes same ↦
            ground (arith, same, s.reported n, view n, top, test, ap (get_key t.queue) same)
        | no apart ↦ ground (arith, apart, s.reported n, view n)
      ];
      idle = λ none_out. absurd (ground (arith, none_out));
      fewer = omega (arith, s.fewer, less);
    }

expire_step :
    (fuel now key : ℕ) (t u : MultiTimeout) (r : KHeap) (keys : List ℕ)
    → Heap.empty t.queue ≡ false
    → ltb (top_key t.queue) now ≡ true
    → Heap.pop t.queue ≡ some (key, r)
    → expire fuel now (record t { queue = r; items = erase key t.items }) ≡ some (keys, u)
    → expire (suc fuel) now t ≡ some (key ∷ keys, u)
unfolding expire
expire_step fuel now key t u r keys e f done rest = rw (expire, done, e, f, rest) refl

-- With the size of the queue as fuel, the loop ends.
pub expire-Swept :
    (fuel now : ℕ) (t : MultiTimeout)
    → IsValid t.queue
    → AreListed t.items t.queue
    → size t.queue ≤ fuel
    → (keys : List ℕ) × (u : MultiTimeout) × (expire fuel now t ≡ some (keys, u))
      × Swept now t keys u
unfolding expire
expire-Swept zero now t v l enough =
    let bare : Heap.empty t.queue ≡ true = ground arith in
    ([], t, rw (expire, bare) refl, nothing_due now t v l (λ full. absurd (omega arith)))
expire-Swept (suc fuel) now t v l enough = elim (Bool-cases (Heap.empty t.queue)) [
  | inl e ↦ ([], t, rw (expire, e) refl, nothing_due now t v l (λ full. absurd (ground (arith, e))))
  | inr e ↦ elim (Bool-cases (ltb (top_key t.queue) now)) [
    | inr f ↦ ([], t, rw (expire, e, f) refl, nothing_due now t v l (λ full. ground (arith, f)))
    | inl f ↦
        let full : 0 < size t.queue = ground (arith, e) in
        let low : top_key t.queue < now = ground (arith, f) in
        let key : ℕ = node_at t.queue.items 0 in
        let (r, done, w, view, less) = get_key-pop t.queue v full in
        let next : MultiTimeout = record t { queue = r; items = erase key t.items } in
        let listed : AreListed (erase key t.items) r = λ n. elim (ℕ_discrete n key) [
          | yes same ↦ ground (arith, same, count-erase n key t.items, view n)
          | no apart ↦ ground (arith, apart, count-erase n key t.items, view n, l n)
        ] in
        let (keys, u, rest, s) =
          expire-Swept fuel now next w listed (omega (arith, less, enough)) in
        (
          key ∷ keys,
          u,
          expire_step fuel now key t u r keys e f done rest,
          one_more now key t next u keys (get_key-top t.queue v full) low refl refl view
              (omega (arith, less)) s,
        )
  ]
]
