-- ===== src/Timers/Tests.antt =====
-- MultiTimeout: calls on concrete timers.
use pxc_core.Prelude.{
  true, ◌⊎◌, ◌&&◌, ◌==◌, ℕ, ◌<◌, ◌≡◌, refl, false, Option, none, some, List, [], ◌∷◌, arith,
}
use pxc_core.Heap.{get_key, place}
use pxc_core.Timers.{
  ◌>>=◌, MultiTimeout, new_timers, has_timeout, timeout_expired, run_timeout, set_timeout_at,
}
use pxc_core.Timers.Keys.{is_some}
use pxc_core.Timers.Expire.{occurrences}
use pxc_core.Timers.History.{
  Call, sets, adds, cancels, wakes, expires, call, run, after_all, reports_all, run-after_all,
  decided,
}
use pxc_core.Timers.Reach.{Reach, start, called, CalledBack, due_key_is_reported}

abbrev calls : List Call
calls =
    sets 5 30
    ∷ adds 6 20
    ∷ adds 5 10
    ∷ sets 7 40
    ∷ cancels 7
    ∷ wakes true 25 25
    ∷ sets 6 50
    ∷ expires 35
    ∷ wakes false 60 61
    ∷ adds 8 70
    ∷ []

run-after_all_example :
    (keys : List ℕ) × (t : MultiTimeout) × (run calls new_timers ≡ some (keys, t))
    × ((n : ℕ) → get_key t.queue n ≡ after_all (decided calls new_timers) (λ k. none) n)
    × ((n : ℕ) → has_timeout n t ≡ is_some (after_all (decided calls new_timers) (λ k. none) n))
    × ((n : ℕ) → occurrences n keys ≡ reports_all (decided calls new_timers) (λ k. none) n)
run-after_all_example = run-after_all calls (omega arith)

-- The state after the timeout of 5 is set to 30.
abbrev one_timer : MultiTimeout
one_timer = record {
  queue = record { items = record { key = 30; node = 5 } ∷ []; pos = place (λ n. none) 5 (some 0) };
  items = 5 ∷ [];
  timeout = some 30;
  pending = 0;
}

one_timer-Reach : Reach one_timer
unfolding call set_timeout_at
one_timer-Reach = called (sets 5 30) [] new_timers start (omega arith) refl

abbrev summary : List ℕ × MultiTimeout → Option (List ℕ × List ℕ × Option ℕ × ℕ)
summary (keys, t) = some (keys, t.items, t.timeout, t.pending)

due_key_is_reported_example :
    (keys : List ℕ) × (u : MultiTimeout) × (run_timeout true 31 32 one_timer ≡ some (keys, u))
    × ((((true && one_timer.pending == 0) ≡ true) × CalledBack 5 keys u)
        ⊎ (((true && one_timer.pending == 0) ≡ false)
            × (keys ≡ [])
            × (0 < u.pending)
            × (reported : List ℕ) × (w : MultiTimeout) × (timeout_expired 32 u ≡ some (reported, w))
            × CalledBack 5 reported w))
unfolding get_key
due_key_is_reported_example =
    due_key_is_reported one_timer 5 30 31 32 true one_timer-Reach refl (omega arith) (omega arith)

-- An idle actor runs the callback at once, a busy one later.
run_timeout-at_once :
    (run_timeout true 31 32 one_timer >>= summary ≡ some (5 ∷ [], [], none, 0))
    × (run_timeout false 31 32 one_timer >>= summary ≡ some ([], 5 ∷ [], none, 1))
unfolding run_timeout
run_timeout-at_once = (refl, refl)

calls_reported : run calls new_timers >>= summary ≡ some (6 ∷ 5 ∷ [], 8 ∷ 6 ∷ [], none, 1)
unfolding run
calls_reported = refl
