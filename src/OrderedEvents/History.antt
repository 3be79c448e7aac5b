-- ===== src/OrderedEvents/History.antt =====
-- Whole histories of OrderedEventsProcessor.h: events that arrive in any order.
use pxc_core.Prelude.{
  ℕ, zero, suc, ◌+◌, ◌-◌, ◌≤◌, ◌<◌, ◌==◌, ◌≡◌, ◌≢◌, refl, ap, inl, inr, if◌then◌else◌, Option, none,
  some, List, [], ◌∷◌, ◌++◌, arith, length, u64_mod, Option-cases,
}
use mathlib.Core.Option
use native.Mathlib.Decide.{dec_lt, ℕ_discrete}
use pxc_core.OrderedEvents.{Processor, Outcome, add}
use pxc_core.OrderedEvents.Order.{pending, Inv, ready}
use pxc_core.OrderedEvents.Add.{add_due, add_early}

module _ {D : Type 0} where
  -- The calls of `add` for the arriving events, and all that they hand over.
  unfoldable pub run : D → Processor D → List (ℕ × D) → Outcome D
  run blank p [] = some ([], p)
  run blank p (e ∷ es) = elim (add blank p e.0 e.1) [
    | none ↦ none
    | some (out, q) ↦ Option.map (λ r. (out ++ r.0, r.1)) (run blank q es)
  ]

  -- The event under a number, among those that arrive.
  unfoldable pub find : ℕ → List (ℕ × D) → Option D
  find s [] = none
  find s (e ∷ es) = if s == e.0 then some e.1 else find s es

  -- Each number occurs once.
  abbrev pub Distinct : List (ℕ × D) → Type 0
  Distinct [] = Unit
  Distinct (e ∷ es) = (find e.0 es ≡ none) × Distinct es

  -- The events of `got` under `s`, `s + 1`, and so on.
  abbrev pub Delivers : (ℕ → Option D) → ℕ → List (ℕ × D) → Type 0
  Delivers got s [] = Unit
  Delivers got s (e ∷ es) = (e.0 ≡ s) × (got s ≡ some e.1) × Delivers got (s + 1) es

  pub Delivers-append :
      (got : ℕ → Option D) (s : ℕ) (xs ys : List (ℕ × D))
      → Delivers got s xs
      → Delivers got (s + length xs) ys
      → Delivers got s (xs ++ ys)
  Delivers-append got s [] ys a b = let e : s + 0 ≡ s = omega arith in rw e at b
  Delivers-append got s (x ∷ xs) ys a b =
      let e : s + suc (length xs) ≡ s + 1 + length xs = omega arith in
      (a.0, a.1, Delivers-append got (s + 1) xs ys a.2 (rw e at b))

  pub Delivers-mono :
      (f g : ℕ → Option D) (s : ℕ) (xs : List (ℕ × D))
      → ((k : ℕ) (d : D) → s ≤ k → f k ≡ some d → g k ≡ some d)
      → Delivers f s xs
      → Delivers g s xs
  Delivers-mono f g s [] up a = tt
  Delivers-mono f g s (x ∷ xs) up a = (
    a.0,
    up s x.1 (omega arith) a.1,
    Delivers-mono f g (s + 1) xs (λ k d h. up k d (omega arith)) a.2,
  )

  ready-Delivers : (n : ℕ) (f : ℕ → Option D) (s : ℕ) → Delivers f s (ready n f s)
  unfolding ready
  ready-Delivers zero f s = tt
  ready-Delivers (suc n) f s = elim (Option-cases (f s)) [
    | inl e ↦ rw (e, ready) tt
    | inr (d, e) ↦
        let k : s + 1 ≡ suc s = omega arith in
        rw (e, ready) (refl, e, rw k (ready-Delivers n f (suc s)))
  ]

  -- What is delivered was there.
  Delivers-some :
      (f : ℕ → Option D) (s : ℕ) (xs : List (ℕ × D)) (k : ℕ)
      → Delivers f s xs
      → s ≤ k
      → k < s + length xs
      → f k ≢ none
  Delivers-some f s [] k a lo hi = absurd (omega arith)
  Delivers-some f s (x ∷ xs) k a lo hi = elim (ℕ_discrete k s) [
    | yes same ↦ λ e. cc (ap f same)
    | no other ↦ Delivers-some f (s + 1) xs k a.2 (omega arith) (omega arith)
  ]

  -- `got` are the events received since the processor began at `b`: those below the next number
  -- were handed over, and the others wait.
  pub record Tracks (b : ℕ) (got : ℕ → Option D) (p : Processor D) : Type 0 where
    pub inv : Inv p
    pub grown : b ≤ p.begin
    pub gone : (s : ℕ) → b ≤ s → s < p.begin → got s ≢ none
    pub waits : (s : ℕ) → p.begin ≤ s → pending p s ≡ got s

  abbrev pub also : ℕ → D → (ℕ → Option D) → ℕ → Option D
  also k d got s = if s == k then some d else got s

  -- One event with a new number keeps the account.
  pub record Step (b : ℕ) (got : ℕ → Option D) (p : Processor D) (k : ℕ) (d : D)
      (out : List (ℕ × D)) (q : Processor D) : Type 0 where
    pub tracks : Tracks b (also k d got) q
    pub delivers : Delivers (also k d got) p.begin out
    pub moved : q.begin ≡ p.begin + length out

  add-Step_due :
      (blank : D) (b : ℕ) (got : ℕ → Option D) (p : Processor D) (d : D)
      → Tracks b got p
      → p.begin + 1 < u64_mod
      → (out : List (ℕ × D)) × (q : Processor D) × (add blank p p.begin d ≡ some (out, q))
        × Step b got p p.begin d out q
  add-Step_due blank b got p d t small =
      let (out, q, r, h) = add_due blank p d t.inv small in
      let n : ℕ = p.end - (p.begin + 1) + 1 in
      let listed : Delivers (pending p) (p.begin + 1) out =
        rw h.numbered (ready-Delivers n (pending p) (p.begin + 1)) in
      let all : Delivers (also p.begin d got) (p.begin + 1) out =
        Delivers-mono (pending p) (also p.begin d got) (p.begin + 1) out
          (λ k c lo e. ground (arith, t.waits k, e)) listed in
      (
        (p.begin, d) ∷ out,
        q,
        r,
        record {
          tracks = record {
            inv = h.inv;
            grown = omega (arith, h.moved, t.grown);
            gone = λ s lo hi. elim (dec_lt s p.begin) [
              | yes old ↦ ground (arith, t.gone s lo old)
              | no new ↦ elim (ℕ_discrete s p.begin) [
                | yes same ↦ ground arith
                | no other ↦
                    Delivers-some (also p.begin d got) (p.begin + 1) out s all (omega arith)
                      (omega (arith, h.moved))
              ]
            ];
            waits = λ s lo. ground (arith, h.left s, t.waits s, h.moved);
          };
          delivers = (refl, ground arith, all);
          moved = omega (arith, h.moved);
        },
      )

  pub add-Step :
      (blank : D) (b : ℕ) (got : ℕ → Option D) (p : Processor D) (k : ℕ) (d : D)
      → Tracks b got p
      → b ≤ k
      → got k ≡ none
      → k + 1 < u64_mod
      → (out : List (ℕ × D)) × (q : Processor D) × (add blank p k d ≡ some (out, q))
        × Step b got p k d out q
  add-Step blank b got p k d t lo new small = elim (ℕ_discrete k p.begin) [
    | yes same ↦ rw same (add-Step_due blank b got p d t (omega arith))
    | no other ↦
        let above : p.begin < k = elim (dec_lt k p.begin) [
          | yes low ↦ absurd (t.gone k lo low new)
          | no high ↦ omega arith
        ] in
        let (q, r, inv, b', holds) = add_early blank p k d t.inv above small in
        (
          [],
          q,
          r,
          record {
            tracks = record {
              inv = inv;
              grown = omega (arith, t.grown);
              gone = λ s l h. ground (arith, t.gone s l (omega arith), b');
              waits = λ s l. ground (arith, holds s, t.waits s, b');
            };
            delivers = tt;
            moved = omega (arith, b');
          },
        )
  ]
