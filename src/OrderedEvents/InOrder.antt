-- ===== src/OrderedEvents/InOrder.antt =====
-- The promise of OrderedEventsProcessor.h: all events of a range of numbers, in whatever order they
-- arrive, are handed over in the order of their numbers.
use pxc_core.Prelude.{
  ℕ, ◌+◌, ◌≤◌, ◌<◌, ◌≡◌, ◌≢◌, ◌↔◌, refl, sym, ap, subst, fun_ext, ◌∙◌, Option, none, some, List, [],
  ◌∷◌, ◌++◌, arith, length, u64_mod, length-append,
}
use native.Mathlib.Decide.{dec_lt, ℕ_discrete}
use pxc_core.OrderedEvents.{Processor, starting_at}
use pxc_core.OrderedEvents.Order.{pending, pending-starting_at, Inv}
use pxc_core.OrderedEvents.History.{
  run, find, Distinct, Delivers, Delivers-append, Delivers-mono, Tracks, also, Step, add-Step,
}

module _ {D : Type 0} where
  -- The first of the two that is there.
  abbrev pub or_else : Option D → Option D → Option D
  or_else none y = y
  or_else (some d) y = some d

  abbrev nothing : Option D
  nothing = none

  or_else-none : (x : Option D) → or_else x none ≡ x
  or_else-none none = refl
  or_else-none (some d) = refl

  -- What a whole history leaves.
  record Ran (b : ℕ) (got : ℕ → Option D) (p : Processor D) (es out : List (ℕ × D))
      (q : Processor D) : Type 0 where
    tracks : Tracks b (λ s. or_else (got s) (find s es)) q
    delivers : Delivers (λ s. or_else (got s) (find s es)) p.begin out
    moved : q.begin ≡ p.begin + length out

  also-find :
      (got : ℕ → Option D) (e : ℕ × D) (es : List (ℕ × D)) (s : ℕ)
      → got e.0 ≡ none
      → or_else (also e.0 e.1 got s) (find s es) ≡ or_else (got s) (find s (e ∷ es))
  unfolding find
  also-find got e es s new = elim (ℕ_discrete s e.0) [
    | yes same ↦ ground (arith, ap got same)
    | no other ↦ ground arith
  ]

  Ran-cons :
      (b : ℕ) (got : ℕ → Option D) (p p1 q : Processor D) (e : ℕ × D) (es o1 o2 : List (ℕ × D))
      → got e.0 ≡ none
      → Step b got p e.0 e.1 o1 p1
      → Ran b (also e.0 e.1 got) p1 es o2 q
      → Ran b got p (e ∷ es) (o1 ++ o2) q
  Ran-cons b got p p1 q e es o1 o2 new w1 w2 =
      let all : ℕ → Option D = λ s. or_else (also e.0 e.1 got s) (find s es) in
      let same : all ≡ (λ s. or_else (got s) (find s (e ∷ es))) =
        fun_ext (λ s. also-find got e es s new) in
      record {
        tracks = subst (λ f. Tracks b f q) same w2.tracks;
        delivers =
            subst (λ f. Delivers f p.begin (o1 ++ o2)) same
              (Delivers-append all p.begin o1 o2
                (Delivers-mono (also e.0 e.1 got) all p.begin o1 (λ k d lo h. earlier k d h)
                  w1.delivers)
                (subst (λ k. Delivers all k o2) w1.moved w2.delivers));
        moved = omega (arith, w1.moved, w2.moved, length-append o1 o2);
      }
    where
      earlier :
          (k : ℕ) (d : D)
          → also e.0 e.1 got k ≡ some d
          → or_else (also e.0 e.1 got k) (find k es) ≡ some d
      earlier k d h = rw h

  -- Events with distinct numbers at or above the start are all taken, whatever their order.
  run-Ran :
      (blank : D) (b : ℕ) (got : ℕ → Option D) (p : Processor D) (es : List (ℕ × D))
      → Tracks b got p
      → Distinct es
      → ((s : ℕ) (d : D) → find s es ≡ some d → (b ≤ s) × (s + 1 < u64_mod) × (got s ≡ none))
      → (out : List (ℕ × D)) × (q : Processor D) × (run blank p es ≡ some (out, q))
        × Ran b got p es out q
  unfolding run find
  run-Ran blank b got p [] t dis range = (
    [],
    p,
    refl,
    record {
      tracks = subst (λ f. Tracks b f p) (fun_ext (λ s. sym (or_else-none (got s)))) t;
      delivers = tt;
      moved = omega arith;
    },
  )
  run-Ran blank b got p (e ∷ es) t dis range =
      let r0 = range e.0 e.1 (ground arith) in
      let (o1, p1, a1, w1) = add-Step blank b got p e.0 e.1 t r0.0 r0.2 r0.1 in
      let (o2, q, a2, w2) =
        run-Ran blank b (also e.0 e.1 got) p1 es w1.tracks dis.1
          (λ s d h. ground (arith, range s d, dis.0, h)) in
      (o1 ++ o2, q, rw (a1, run, a2), Ran-cons b got p p1 q e es o1 o2 r0.2 w1 w2)

  starting_at-Tracks : (b : ℕ) → b < u64_mod → Tracks b (λ s. nothing) (starting_at b)
  starting_at-Tracks b small = record {
    inv = record {
      loop = record {
        based = omega arith;
        small = omega arith;
        roomy = omega arith;
        waiting = λ s d e. cc (pending-starting_at b s, e);
      };
      ordered = omega arith;
      due = pending-starting_at b b;
    };
    grown = omega arith;
    gone = λ s lo hi. absurd (omega arith);
    waits = λ s lo. pending-starting_at b s;
  }

  -- A processor as it is constructed keeps the invariant.
  pub starting_at-Inv : (b : ℕ) → b < u64_mod → let p : Processor D = starting_at b in Inv p
  starting_at-Inv b small = (starting_at-Tracks b small).inv

  -- Whatever the order in which the events numbered `b` to `b + n - 1` arrive, each once, a
  -- processor that starts at `b` takes them all and hands over `n` events: those under `b`,
  -- `b + 1`, and so on, each with the data that arrived under its number. Then it waits for
  -- number `b + n`.
  pub run_in_order :
      (blank : D) (b n : ℕ) (es : List (ℕ × D))
      → b + n < u64_mod
      → Distinct es
      → ((s : ℕ) → (find s es ≢ none) ↔ ((b ≤ s) × (s < b + n)))
      → (out : List (ℕ × D)) × (q : Processor D) × (run blank (starting_at b) es ≡ some (out, q))
        × Delivers (λ s. find s es) b out
        × (length out ≡ n)
        × (q.begin ≡ b + n)
  run_in_order blank b n es small dis exact =
      let (out, q, r, w) =
        run-Ran blank b (λ s. nothing) (starting_at b) es (starting_at-Tracks b (omega arith)) dis
          (λ s d e. let k = (exact s).0 (λ z. cc (e, z)) in (k.0, omega (arith, k), refl)) in
      let here : pending q q.begin ≡ find q.begin es = w.tracks.waits q.begin (omega arith) in
      let reached : b + n ≤ q.begin = elim (dec_lt q.begin (b + n)) [
        | yes low ↦
            absurd
              ((exact q.begin).1 (omega (arith, w.tracks.grown), low) (sym here ∙ w.tracks.inv.due))
        | no high ↦ omega arith
      ] in
      let stopped : q.begin ≤ b + n = elim (dec_lt (b + n) q.begin) [
        | yes high ↦
            absurd (omega (arith, (exact (b + n)).0 (w.tracks.gone (b + n) (omega arith) high)))
        | no low ↦ omega arith
      ] in
      (out, q, r, w.delivers, omega (arith, w.moved), omega arith)
