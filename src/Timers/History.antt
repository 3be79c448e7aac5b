-- ===== src/Timers/History.antt =====
-- MultiTimeout: any sequence of calls against the same calls on a map from keys to times.
use pxc_core.Prelude.{
  Bool, false, sym, subst, ap₂, length, ◌<◌, ◌≤◌, ℕ, ◌+◌, ◌^◌, ◌≡◌, refl, ap, ◌∙◌, if◌then◌else◌,
  Option, none, some, List, [], ◌∷◌, ◌++◌, arith,
}
use pxc_core.Heap.{size, KHeap, get_key}
use pxc_core.Timers.{
  MultiTimeout, new_timers, has_timeout, set_timeout_at, add_timeout_at, cancel_timeout,
  timeout_expired, run_all, run_timeout, ◌>>=◌,
}
use pxc_core.Timers.Keys.{is_some, IsArmed, new_timers-IsArmed}
use pxc_core.Timers.Calls.{
  Gives, with_key, set_timeout_at-Gives, add_timeout_at-Gives, cancel_timeout-Gives,
}
use pxc_core.Timers.Expire.{occurrences, still, due}
use pxc_core.Timers.Run.{Runs, at_once, timeout_expired-Runs, run_all-Runs, run_timeout-Woken}

-- The calls of the owner, `run_timeout` of the scheduler with what its event needs, and a Timeout
-- event from the mailbox, at a time `now`.
pub data Call : Type 0 where
  sets : ℕ → ℕ → Call
  adds : ℕ → ℕ → Call
  cancels : ℕ → Call
  wakes : Bool → ℕ → ℕ → Call
  expires : ℕ → Call
  sweeps : ℕ → Call

abbrev pub quiet : Option MultiTimeout → Option (List ℕ × MultiTimeout)
quiet result = result >>= λ u. some ([], u)

-- The keys for which a call runs the callback, and the timers after it.
unfoldable pub call : Call → MultiTimeout → Option (List ℕ × MultiTimeout)
unfolding set_timeout_at add_timeout_at cancel_timeout run_timeout timeout_expired run_all
call (sets key time) t = quiet (set_timeout_at key time t)
call (adds key time) t = quiet (add_timeout_at key time t)
call (cancels key) t = quiet (cancel_timeout key t)
call (wakes idle now later) t = run_timeout idle now later t
call (expires now) t = timeout_expired now t
call (sweeps now) t = run_all now t

unfoldable pub run : List Call → MultiTimeout → Option (List ℕ × MultiTimeout)
unfolding call
run [] t = some ([], t)
run (c ∷ cs) t = do (keys, u) ← call c t; (more, w) ← run cs u; some (keys ++ more, w)

-- The same calls on a map, and how often they report the key `n`. For `run_timeout`, `ran` says
-- whether it ran the actor at once.
abbrev pub after : Call → Bool → (ℕ → Option ℕ) → ℕ → Option ℕ
after (sets key time) ran m = with_key key (some time) m
after (adds key time) ran m = λ n. if is_some (m key) then m n else with_key key (some time) m n
after (cancels key) ran m = with_key key none m
after (wakes idle now later) ran m = λ n. if ran then still later (m n) else m n
after (expires now) ran m = λ n. still now (m n)
after (sweeps now) ran m = λ n. still (now + 10 ^ 10) (m n)

abbrev pub reports : Call → Bool → (ℕ → Option ℕ) → ℕ → ℕ
reports (sets key time) ran m n = 0
reports (adds key time) ran m n = 0
reports (cancels key) ran m n = 0
reports (wakes idle now later) ran m n = if ran then due later (m n) else 0
reports (expires now) ran m n = due now (m n)
reports (sweeps now) ran m n = due (now + 10 ^ 10) (m n)

abbrev pub runs_at_once : Call → MultiTimeout → Bool
runs_at_once (sets key time) t = false
runs_at_once (adds key time) t = false
runs_at_once (cancels key) t = false
runs_at_once (wakes idle now later) t = at_once idle now t
runs_at_once (expires now) t = false
runs_at_once (sweeps now) t = false

abbrev pub after_all : List (Call × Bool) → (ℕ → Option ℕ) → ℕ → Option ℕ
after_all [] m = m
after_all ((c, ran) ∷ cs) m = after_all cs (after c ran m)

abbrev pub reports_all : List (Call × Bool) → (ℕ → Option ℕ) → ℕ → ℕ
reports_all [] m n = 0
reports_all ((c, ran) ∷ cs) m n = reports c ran m n + reports_all cs (after c ran m) n

-- The calls, each with whether it runs the actor at once.
unfoldable pub decided : List Call → MultiTimeout → List (Call × Bool)
unfolding call
decided [] t = []
decided (c ∷ cs) t =
    (c, runs_at_once c t) ∷ elim (call c t) [ none ↦ [] | some (keys, u) ↦ decided cs u ]

-- The call gave a result in which the timers have the times of `m`, `r` counts what it reported, and
-- there are at most `few` timers.
abbrev pub Follows : Option (List ℕ × MultiTimeout) → (ℕ → Option ℕ) → (ℕ → ℕ) → ℕ → Type 0
Follows result m r few =
    (keys : List ℕ) × (u : MultiTimeout) × (result ≡ some (keys, u))
    × IsArmed u
    × ((n : ℕ) → get_key u.queue n ≡ m n)
    × ((n : ℕ) → occurrences n keys ≡ r n)
    × (size u.queue ≤ few)

quiet-Follows :
    (result : Option MultiTimeout) (m : ℕ → Option ℕ) (few : ℕ)
    → Gives result m few
    → Follows (quiet result) m (λ n. 0) (few + 1)
quiet-Follows result m few (u, done, a, times, small) =
    ([], u, ap quiet done, a, times, λ n. refl, small)

Runs-Follows :
    (result : Option (List ℕ × MultiTimeout)) (now : ℕ) (h : KHeap) (m : ℕ → Option ℕ)
    → ((n : ℕ) → get_key h n ≡ m n)
    → Runs result now h
    → Follows result (λ n. still now (m n)) (λ n. due now (m n)) (size h + 1)
Runs-Follows result now h m same (keys, u, done, a, times, out, small) = (
  keys,
  u,
  done,
  a,
  λ n. times n ∙ ap (still now) (same n),
  λ n. out n ∙ ap (due now) (same n),
  omega (arith, small),
)

pub call-Follows :
    (c : Call) (t : MultiTimeout) (m : ℕ → Option ℕ)
    → IsArmed t
    → size t.queue < 2 ^ 31
    → ((n : ℕ) → get_key t.queue n ≡ m n)
    → Follows
        (call c t)
        (after c (runs_at_once c t) m)
        (reports c (runs_at_once c t) m)
        (size t.queue + 1)
unfolding call
call-Follows (sets key time) t m a room same =
    let (u, done, b, times, few) = set_timeout_at-Gives key time t a room in
    quiet-Follows (set_timeout_at key time t) (after (sets key time) false m) (size t.queue)
      (u, done, b, λ n. times n ∙ rw (same n) refl, few)
call-Follows (adds key time) t m a room same =
    let (u, done, b, times, few) = add_timeout_at-Gives key time t a room in
    quiet-Follows (add_timeout_at key time t) (after (adds key time) false m) (size t.queue)
      (u, done, b, λ n. times n ∙ rw (same n, same key) refl, few)
call-Follows (cancels key) t m a room same =
    let (u, done, b, times, few) = cancel_timeout-Gives key t a in
    quiet-Follows (cancel_timeout key t) (after (cancels key) false m) (size t.queue)
      (u, done, b, λ n. times n ∙ rw (same n) refl, few)
call-Follows (wakes idle now later) t m a room same =
    let w = run_timeout-Woken idle now later t a in
    let ran : Bool = at_once idle now t in
    (
      w.keys,
      w.left,
      w.result,
      w.armed,
      λ n.
          w.times n ∙ ap₂ (λ b time. if b then still later time else time) (sym w.decided) (same n),
      λ n. w.reported n ∙ ap₂ (λ b time. if b then due later time else 0) (sym w.decided) (same n),
      omega (arith, w.fewer),
    )
call-Follows (expires now) t m a room same =
    Runs-Follows (timeout_expired now t) now t.queue m same
      (timeout_expired-Runs now t a.valid a.listed)
call-Follows (sweeps now) t m a room same =
    Runs-Follows (run_all now t) (now + 10 ^ 10) t.queue m same (run_all-Runs now t a)

occurrences-append :
    (n : ℕ) (xs ys : List ℕ) → occurrences n (xs ++ ys) ≡ occurrences n xs + occurrences n ys
occurrences-append n [] ys = omega arith
occurrences-append n (x ∷ xs) ys = ground (arith, occurrences-append n xs ys)

-- What a sequence of calls gives, from some timers on.
RunFollows : List Call → MultiTimeout → (ℕ → Option ℕ) → List (Call × Bool) → Type 0
RunFollows cs t m ds =
    (keys : List ℕ) × (u : MultiTimeout) × (run cs t ≡ some (keys, u))
    × IsArmed u
    × ((n : ℕ) → get_key u.queue n ≡ after_all ds m n)
    × ((n : ℕ) → occurrences n keys ≡ reports_all ds m n)

run-Follows :
    (cs : List Call) (t : MultiTimeout) (m : ℕ → Option ℕ)
    → IsArmed t
    → size t.queue + length cs ≤ 2 ^ 31
    → ((n : ℕ) → get_key t.queue n ≡ m n)
    → RunFollows cs t m (decided cs t)
unfolding run decided RunFollows
run-Follows [] t m a room same = ([], t, refl, a, same, λ n. refl)
run-Follows (c ∷ cs) t m a room same =
    let ran : Bool = runs_at_once c t in
    let (keys, u, done, b, times, out, few) = call-Follows c t m a (omega (arith, room)) same in
    let (more, w, rest, d, times', out') =
      run-Follows cs u (after c ran m) b (omega (arith, room, few)) times in
    let next : Option (List ℕ × MultiTimeout) → List (Call × Bool) =
      λ o. (c, ran) ∷ elim o [ none ↦ [] | some (ks, v) ↦ decided cs v ] in
    let ends : Option (List ℕ × MultiTimeout) → Option (List ℕ × MultiTimeout) =
      λ o. o >>= λ x. run cs x.1 >>= λ y. some (x.0 ++ y.0, y.1) in
    subst (RunFollows (c ∷ cs) t m) (sym (ap next done)) (
      keys ++ more,
      w,
      ap ends done ∙ ap (λ o. o >>= λ y. some (keys ++ y.0, y.1)) rest,
      d,
      times',
      λ n. occurrences-append n keys more ∙ omega (arith, out n, out' n),
    )

-- Any sequence of at most 2 ^ 31 calls that starts with no timeouts passes all checks; afterwards
-- each key has a timeout exactly when it has a time in the map after the same calls, which is its
-- time in the queue, and the callback was run as often for it as the calls on the map report it.
-- Whether a `run_timeout` runs the actor at once or leaves an event, is for the map as `decided`
-- says it for the timers.
pub run-after_all :
    (cs : List Call)
    → length cs ≤ 2 ^ 31
    → (keys : List ℕ) × (t : MultiTimeout) × (run cs new_timers ≡ some (keys, t))
      × ((n : ℕ) → get_key t.queue n ≡ after_all (decided cs new_timers) (λ k. none) n)
      × ((n : ℕ) → has_timeout n t ≡ is_some (after_all (decided cs new_timers) (λ k. none) n))
      × ((n : ℕ) → occurrences n keys ≡ reports_all (decided cs new_timers) (λ k. none) n)
unfolding get_key has_timeout RunFollows
run-after_all cs few =
    let (keys, t, done, a, times, out) =
      run-Follows cs new_timers (λ k. none) new_timers-IsArmed (omega (arith, few)) (λ n. refl) in
    (keys, t, done, times, λ n. a.listed n ∙ ap is_some (times n), out)
