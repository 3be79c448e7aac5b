-- ===== src/Timers/Reach.antt =====
-- MultiTimeout and the scheduler: a key that is due is reported.
use pxc_core.Prelude.{
  Bool, [], refl, ◌^◌, ◌≤◌, ◌⊎◌, ◌&&◌, ◌==◌, if◌then◌else◌, Bool-cases, inl, inr, ℕ, ◌<◌, ◌≡◌, refl,
  sym, ap, subst, ◌∙◌, false, Option, none, some, List, ltb, true, arith,
}
use pxc_core.Heap.{KHeap, size, get_key}
use pxc_core.Timers.{MultiTimeout, new_timers, has_timeout, timeout_expired, run_timeout}
use pxc_core.Timers.Keys.{is_some, IsArmed, new_timers-IsArmed}
use pxc_core.Timers.Expire.{still, due, occurrences}
use pxc_core.Timers.Run.{timeout_expired-Runs, run_timeout-Woken}
use pxc_core.Timers.History.{Call, call, call-Follows}

-- The timers after any calls, each with fewer than 2 ^ 31 timeouts before it.
pub data Reach : MultiTimeout → Type 0 where
  start : Reach new_timers
  called :
      {u : MultiTimeout} (c : Call) (keys : List ℕ) (t : MultiTimeout)
      → Reach t
      → size t.queue < 2 ^ 31
      → call c t ≡ some (keys, u)
      → Reach u

state_of : Option (List ℕ × MultiTimeout) → MultiTimeout
state_of none = new_timers
state_of (some (keys, t)) = t

pub Reach-IsArmed : (t : MultiTimeout) → Reach t → IsArmed t
unfolding state_of
Reach-IsArmed t start = new_timers-IsArmed
Reach-IsArmed t (called c keys s r room done) =
    let (keys', u, done', a, times, out, few) =
      call-Follows c s (get_key s.queue) (Reach-IsArmed s r) room (λ n. refl) in
    subst IsArmed (ap state_of (sym done' ∙ done)) a

-- The callback was run once for the key, which has no timeout any more.
abbrev pub CalledBack : ℕ → List ℕ → MultiTimeout → Type 0
CalledBack key keys t = (occurrences key keys ≡ 1) × (has_timeout key t ≡ false)

occurrences-due :
    (key time later : ℕ) (keys : List ℕ) (h : KHeap) (u : MultiTimeout)
    → get_key h key ≡ some time
    → time < later
    → IsArmed u
    → get_key u.queue key ≡ still later (get_key h key)
    → occurrences key keys ≡ due later (get_key h key)
    → CalledBack key keys u
unfolding has_timeout
occurrences-due key time later keys h u there past a gone out =
    let late : ltb time later ≡ true = ground arith in
    (out ∙ rw (there, late) refl, a.listed key ∙ ap is_some gone ∙ rw (there, late) refl)

-- After any calls, each with fewer than 2 ^ 31 timeouts before it, once the time of a key has passed,
-- `run_timeout` succeeds. If the actor is idle with no Timeout event in its mailbox, the callback is
-- run at once for the key, one time, and its timeout is out. Else a Timeout event is left in the
-- mailbox, and `timeout_expired`, when the event is run, does the same.
pub due_key_is_reported :
    (t : MultiTimeout) (key time now later : ℕ) (idle : Bool)
    → Reach t
    → get_key t.queue key ≡ some time
    → time < now
    → now ≤ later
    → (keys : List ℕ) × (u : MultiTimeout) × (run_timeout idle now later t ≡ some (keys, u))
      × ((((idle && t.pending == 0) ≡ true) × CalledBack key keys u)
          ⊎ (((idle && t.pending == 0) ≡ false)
              × (keys ≡ [])
              × (0 < u.pending)
              × (reported : List ℕ) × (w : MultiTimeout) × (timeout_expired later u
                  ≡ some (reported, w))
              × CalledBack key reported w))
due_key_is_reported t key time now later idle r e past order =
    let w = run_timeout-Woken idle now later t (Reach-IsArmed t r) in
    let choice : Bool → Type 0 =
      λ free. if free then w.ran ≡ true else (w.ran ≡ false) × (0 < w.left.pending) in
    (
      w.keys,
      w.left,
      w.result,
      elim (Bool-cases (idle && t.pending == 0)) [
        | inl free ↦
            let ran : w.ran ≡ true = subst choice free (w.waits key time e past) in
            inl (
              free,
              occurrences-due key time later w.keys t.queue w.left e (omega arith) w.armed
                  (w.times key
                    ∙ ap (λ b. if b then still later (get_key t.queue key) else get_key t.queue key)
                        ran)
                  (w.reported key ∙ ap (λ b. if b then due later (get_key t.queue key) else 0) ran),
            )
        | inr busy ↦
            let (waits, posted) = subst choice busy (w.waits key time e past) in
            let silent : w.keys ≡ [] = elim w.quiet [
              | inl ran ↦ absurd (ground (arith, ran, waits))
              | inr none_out ↦ none_out
            ] in
            let there : get_key w.left.queue key ≡ some time =
              w.times key
              ∙ ap (λ b. if b then still later (get_key t.queue key) else get_key t.queue key) waits
              ∙ e in
            let (keys, v, done, b, times, out, few) =
              timeout_expired-Runs later w.left w.armed.valid w.armed.listed in
            inr (
              busy,
              silent,
              posted,
              keys,
              v,
              done,
              occurrences-due key time later keys w.left.queue v there (omega arith) b (times key)
                  (out key),
            )
      ],
    )
