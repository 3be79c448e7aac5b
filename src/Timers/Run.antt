-- ===== src/Timers/Run.antt =====
-- MultiTimeout.cpp and Scheduler.cpp: what happens when the timeout of the actor passes.
use pxc_core.Prelude.{
  ◌==◌, ◌&&◌, ℕ, ◌+◌, ◌-◌, ◌^◌, ◌≤◌, ◌<◌, ltb, ◌≡◌, ◌≢◌, refl, sym, ap, subst, ◌∙◌, if◌then◌else◌,
  Bool, true, false, not, ◌⊎◌, Option, none, some, List, [], ◌∷◌, arith, Option-cases, Bool-cases,
  inl, inr,
}
use pxc_core.Heap.{KHeap, get_key, size, top_key}
use pxc_core.Heap.Calls.{IsValid}
use pxc_core.Heap.View.{top_key-least}
use pxc_core.Timers.{
  MultiTimeout, no_items, update_if, get_expired_keys, timeout_expired, run_all, run_timeout,
  send_timeout, ◌>>=◌,
}
use pxc_core.Timers.Keys.{AreListed, IsAwake, IsArmed, no_items-empty, update_timeout-IsArmed}
use pxc_core.Timers.Calls.{due_of}
use pxc_core.Timers.Expire.{occurrences, still, due, Swept, expire-Swept}

-- The call reported each key that was due at `now` once, took it out, and left the actor armed.
abbrev pub Runs : Option (List ℕ × MultiTimeout) → ℕ → KHeap → Type 0
Runs result now h =
    (keys : List ℕ) × (u : MultiTimeout) × (result ≡ some (keys, u))
    × IsArmed u
    × ((n : ℕ) → get_key u.queue n ≡ still now (get_key h n))
    × ((n : ℕ) → occurrences n keys ≡ due now (get_key h n))
    × (size u.queue ≤ size h)

-- The end of both calls: `update_timeout` under a test.
after_sweep :
    (now : ℕ) (t u : MultiTimeout) (keys : List ℕ) (test : Bool)
    → Swept now t keys u
    → (test ≡ true → no_items u.items ≡ true → (0 < u.pending) ⊎ (u.timeout ≢ none))
    → (test ≡ false → IsAwake u)
    → Runs (update_if test u >>= λ w. some (keys, w)) now t.queue
unfolding update_if
after_sweep now t u keys test s late awake = elim (Bool-cases test) [
  | inr e ↦ (
    keys,
    u,
    rw (update_if, e) refl,
    record { valid = s.valid; listed = s.listed; awake = awake e },
    s.times,
    s.reported,
    s.fewer,
  )
  | inl e ↦
      let (w, end, b, q, p) = update_timeout-IsArmed u s.valid s.listed (late e) in
      (
        keys,
        w,
        rw (update_if, e, end) refl,
        b,
        λ n. ap (λ (h : KHeap). get_key h n) q ∙ s.times n,
        s.reported,
        subst (λ h. size h ≤ size t.queue) (sym q) s.fewer,
      )
]

-- `timeout_expired` takes out the keys that are due, and arms the actor for the others.
pub timeout_expired-Runs :
    (now : ℕ) (t : MultiTimeout)
    → IsValid t.queue
    → AreListed t.items t.queue
    → Runs (timeout_expired now t) now t.queue
unfolding timeout_expired get_expired_keys
timeout_expired-Runs now t valid listed =
    let used : MultiTimeout = record t { pending = t.pending - 1 } in
    let (keys, u, done, s) = expire-Swept (size t.queue) now used valid listed (omega arith) in
    let (ks, w, end, b, times, reported, fewer) =
      after_sweep now used u keys (not (no_items u.items)) s (λ e f. absurd (ground (arith, e, f)))
        (λ e full. absurd (ground (arith, e, no_items-empty u.items u.queue s.valid s.listed))) in
    (
      ks,
      w,
      ap (λ r. r >>= λ z. update_if (not (no_items z.1.items)) z.1 >>= λ v. some (z.0, v)) done
          ∙ end,
      b,
      times,
      reported,
      fewer,
    )

keys_due :
    (now : ℕ) (t u : MultiTimeout) (keys : List ℕ)
    → IsArmed t
    → Swept now t keys u
    → no_items keys ≡ false
    → (0 < u.pending) ⊎ (u.timeout ≢ none)
keys_due now t u [] a s e = absurd (ground (arith, e))
keys_due now t u (k ∷ ks) a s e =
    let there : get_key t.queue k ≢ none = λ f. ground (arith, s.reported k, f) in
    elim (due_of t k a there) [
      | inl waits ↦ inl (omega (arith, waits, s.pending))
      | inr set ↦ inr (λ f. set (sym s.timeout ∙ f))
    ]

keys_idle :
    (now : ℕ) (t u : MultiTimeout) (keys : List ℕ)
    → IsArmed t
    → Swept now t keys u
    → no_items keys ≡ true
    → IsAwake u
keys_idle now t u [] a s e = subst IsAwake (sym (s.idle refl)) a.awake
keys_idle now t u (k ∷ ks) a s e = absurd (ground (arith, e))

-- `run_all` takes out the keys that are due in ten thousand million seconds.
pub run_all-Runs :
    (now : ℕ) (t : MultiTimeout) → IsArmed t → Runs (run_all now t) (now + 10 ^ 10) t.queue
unfolding run_all get_expired_keys
run_all-Runs now t a =
    let (keys, u, done, s) =
      expire-Swept (size t.queue) (now + 10 ^ 10) t a.valid a.listed (omega arith) in
    let (ks, w, end, b, times, reported, fewer) =
      after_sweep (now + 10 ^ 10) t u keys (not (no_items keys)) s
        (λ e f. keys_due (now + 10 ^ 10) t u keys a s (ground (arith, e)))
        (λ e. keys_idle (now + 10 ^ 10) t u keys a s (ground (arith, e))) in
    (
      ks,
      w,
      ap (λ r. r >>= λ z. update_if (not (no_items z.0)) z.1 >>= λ v. some (z.0, v)) done ∙ end,
      b,
      times,
      reported,
      fewer,
    )

-- Nothing is due that no event waits for.
late_pending :
    (now : ℕ) (t : MultiTimeout)
    → IsArmed t
    → ((at : ℕ) → t.timeout ≡ some at → now ≤ at)
    → (n τ : ℕ) → get_key t.queue n ≡ some τ
    → τ < now
    → 0 < t.pending
late_pending now t a late n τ e low =
    let (full, least) = top_key-least t.queue n τ a.valid e in
    elim (a.awake full) [
      | inl waits ↦ waits
      | inr f ↦ let early = late (top_key t.queue) f in absurd (omega arith)
    ]

-- Does `run_timeout` run the actor at once?
abbrev pub at_once : Bool → ℕ → MultiTimeout → Bool
at_once idle now t = elim t.timeout [
  | none ↦ false
  | some at ↦ ltb at now && (idle && t.pending == 0)
]

-- What `run_timeout` makes of an armed actor. When it `ran` the actor at once, the keys that are due
-- at `later` are out; else they are as they were, and an event waits when a key is due at `now`.
pub record Woken (idle : Bool) (now later : ℕ) (t : MultiTimeout) : Type 0 where
  pub ran : Bool
  pub decided : at_once idle now t ≡ ran
  pub keys : List ℕ
  pub left : MultiTimeout
  pub result : run_timeout idle now later t ≡ some (keys, left)
  pub armed : IsArmed left
  pub times :
      (n : ℕ)
      → get_key left.queue n ≡ (if ran then still later (get_key t.queue n) else get_key t.queue n)
  pub reported : (n : ℕ) → occurrences n keys ≡ (if ran then due later (get_key t.queue n) else 0)
  pub fewer : size left.queue ≤ size t.queue
  pub quiet : (ran ≡ true) ⊎ (keys ≡ [])
  pub waits :
      (n τ : ℕ)
      → get_key t.queue n ≡ some τ
      → τ < now
      → (if idle && t.pending == 0 then ran ≡ true else (ran ≡ false) × (0 < left.pending))

idle_test : (idle : Bool) (n : ℕ) → 0 < n → (idle && n == 0) ≡ false
idle_test idle n pos = ground arith

-- An actor that stays as it is.
Woken-same :
    (idle : Bool) (now later : ℕ) (t : MultiTimeout)
    → IsArmed t
    → ((at : ℕ) → t.timeout ≡ some at → now ≤ at)
    → run_timeout idle now later t ≡ some ([], t)
    → at_once idle now t ≡ false
    → Woken idle now later t
Woken-same idle now later t a late same off = record {
  ran = false;
  decided = off;
  keys = [];
  left = t;
  result = same;
  armed = a;
  times = λ n. refl;
  reported = λ n. refl;
  fewer = omega arith;
  quiet = inr refl;
  waits = λ n τ e low.
      let pos : 0 < t.pending = late_pending now t a late n τ e low in
      rw (idle_test idle t.pending pos) (refl, pos);
}

-- The timeout has passed, and the event is sent.
Woken-sent :
    (idle : Bool) (now later : ℕ) (t : MultiTimeout)
    → IsArmed t
    → run_timeout idle now later t ≡ send_timeout idle later (record t { timeout = none })
    → at_once idle now t ≡ (idle && t.pending == 0)
    → Woken idle now later t
unfolding send_timeout
Woken-sent idle now later t a sent on =
    let off : MultiTimeout = record t { timeout = none } in
    let posted : MultiTimeout = record off { pending = t.pending + 1 } in
    let taken : Bool → Option (List ℕ × MultiTimeout) =
      λ test. if test then timeout_expired later off else some ([], posted) in
    elim (Bool-cases (idle && t.pending == 0)) [
      | inl e ↦
          let (keys, u, done, b, times, reported, fewer) =
            timeout_expired-Runs later off a.valid a.listed in
          record {
            ran = true;
            decided = on ∙ e;
            keys = keys;
            left = u;
            result = sent ∙ ap taken e ∙ done;
            armed = b;
            times = times;
            reported = reported;
            fewer = fewer;
            quiet = inl refl;
            waits = λ n τ g low. rw e refl;
          }
      | inr e ↦ record {
        ran = false;
        decided = on ∙ e;
        keys = [];
        left = posted;
        result = sent ∙ ap taken e;
        armed = record { valid = a.valid; listed = a.listed; awake = λ full. inl (omega arith) };
        times = λ n. refl;
        reported = λ n. refl;
        fewer = omega arith;
        quiet = inr refl;
        waits = λ n τ g low. rw e (refl, omega arith);
      }
    ]

pub run_timeout-Woken :
    (idle : Bool) (now later : ℕ) (t : MultiTimeout) → IsArmed t → Woken idle now later t
unfolding run_timeout
run_timeout-Woken idle now later t a =
    let sent : Option (List ℕ × MultiTimeout) =
      send_timeout idle later (record t { timeout = none }) in
    let same : Option (List ℕ × MultiTimeout) = some ([], t) in
    let taken : Option ℕ → Option (List ℕ × MultiTimeout) =
      λ set_at. elim set_at [ none ↦ same | some at ↦ if ltb at now then sent else same ] in
    let tested : Bool → Option (List ℕ × MultiTimeout) = λ test. if test then sent else same in
    let free : Bool = idle && t.pending == 0 in
    let once : Option ℕ → Bool =
      λ set_at. elim set_at [ none ↦ false | some at ↦ ltb at now && free ] in
    elim (Option-cases t.timeout) [
      | inl e ↦
          Woken-same idle now later t a (λ at f. absurd (ground (arith, e, f))) (ap taken e)
            (ap once e)
      | inr (at, e) ↦ elim (Bool-cases (ltb at now)) [
        | inl f ↦
            Woken-sent idle now later t a (ap taken e ∙ ap tested f)
              (ap once e ∙ ap (λ test. test && free) f)
        | inr f ↦
            Woken-same idle now later t a (λ b g. ground (arith, e, f, g))
              (ap taken e ∙ ap tested f) (ap once e ∙ ap (λ test. test && free) f)
      ]
    ]
