-- ===== src/OrderedEvents/Settle.antt =====
-- The end of `add` in OrderedEventsProcessor.h: `end_` and `offset_` are brought up, and the
-- consumed prefix is released. No event is lost.
use pxc_core.Prelude.{
  ℕ, ◌+◌, ◌-◌, ◌*◌, ◌≤◌, ◌<◌, ltb, ◌≡◌, refl, sym, ap, subst, ◌∙◌, inl, inr, false, ◌&&◌, none,
  some, arith, length, drop, u64_mod, sub64, length-drop, Bool-cases, Option-cases,
}
use native.Mathlib.Decide.{dec_lt}
use pxc_core.OrderedEvents.Slots.{held, held-drop}
use pxc_core.OrderedEvents.{Processor, close_gap, try_compactify}
use pxc_core.OrderedEvents.Order.{pending, Loop, Inv, pending_below}

module _ {D : Type 0} where
  -- `q` holds the same events as `p`, and is as far.
  pub record Same (p q : Processor D) : Type 0 where
    pub inv : Inv q
    pub begins : q.begin ≡ p.begin
    pub holds : (s : ℕ) → pending q s ≡ pending p s

  held-none : (p : Processor D) (i : ℕ) → Loop p → p.end ≤ p.begin → held p.data_array i ≡ none
  unfolding pending
  held-none p i v h = elim (Option-cases (held p.data_array i)) [
    | inl e ↦ e
    | inr (d, e) ↦
        let at : pending p (p.offset + i) ≡ some d =
          let k : p.offset + i - p.offset ≡ i = omega arith in
          let t : ltb (p.offset + i) p.offset ≡ false = ground arith in rw (t, k) e in
        absurd (omega (arith, v.waiting (p.offset + i) d at))
  ]

  -- A processor whose base moved up to the next number, with the same events.
  rebased-Same :
      (p q : Processor D)
      → Loop p
      → pending p p.begin ≡ none
      → (q.begin ≡ p.begin) × (q.offset ≡ p.begin)
      → (p.end ≤ q.end) × (q.end < u64_mod) × (q.begin ≤ q.end)
      → q.end ≤ q.offset + length q.data_array
      → ((s : ℕ) → pending q s ≡ pending p s)
      → Same p q
  rebased-Same p q v e b n fits same = record {
    inv = record {
      loop = record {
        based = omega arith;
        small = omega arith;
        roomy = fits;
        waiting = λ s d w. omega (arith, v.waiting s d (sym (same s) ∙ w));
      };
      ordered = n.2;
      due = same q.begin ∙ ap (pending p) b.0 ∙ e;
    };
    begins = b.0;
    holds = same;
  }

  Same-refl : (p : Processor D) → Inv p → Same p p
  Same-refl p v = record { inv = v; begins = refl; holds = λ s. refl }

  pub close_gap-Same : (p : Processor D) → Loop p → pending p p.begin ≡ none → Same p (close_gap p)
  close_gap-Same p v e = elim (dec_lt p.begin p.end) [
    | yes more ↦
        let same : close_gap p ≡ p = unfold close_gap in (ground arith) in
        subst (Same p) (sym same)
          (Same-refl p (record { loop = v; ordered = omega arith; due = e }))
    | no over ↦
        let moved : Processor D = record p { offset = p.begin; end = p.begin } in
        let same : close_gap p ≡ moved = unfold close_gap in (ground arith) in
        let holds : (s : ℕ) → pending moved s ≡ pending p s = λ s.
          unfold pending in
          (ground (
            arith,
            held-none p (s - p.begin) v (omega arith),
            held-none p (s - p.offset) v (omega arith),
          )) in
        subst (Same p) (sym same) (
          rebased-Same p moved v e (refl, refl) (omega arith, omega (arith, v.small), omega arith)
            (omega arith) holds)
  ]

  pending-drop :
      (p : Processor D) (s : ℕ)
      → Loop p
      → pending
          (record p { data_array = drop (p.begin - p.offset) p.data_array; offset = p.begin })
          s
        ≡ pending p s
  unfolding pending
  pending-drop p s v = elim (dec_lt s p.begin) [
    | yes low ↦ ground (arith, pending_below p s v low)
    | no high ↦
        let i : p.begin - p.offset + (s - p.begin) ≡ s - p.offset = omega (arith, v.based) in
        let a : ltb s p.begin ≡ false = ground arith in
        let b : ltb s p.offset ≡ false = ground (arith, v.based) in
        rw (a, b)
          (held-drop (p.begin - p.offset) (s - p.begin) p.data_array ∙ ap (held p.data_array) i)
  ]

  pub try_compactify-Same : (p : Processor D) → Inv p → Same p (try_compactify p)
  try_compactify-Same p v = elim (Bool-cases (ltb 5 k && ltb (length p.data_array) (k * 2))) [
    | inl big ↦
        let same : try_compactify p ≡ moved = unfold try_compactify in (rw (pos, big)) in
        subst (Same p) (sym same) (
          rebased-Same p moved v.loop v.due (refl, refl)
            (omega arith, omega (arith, v.loop.small), v.ordered)
            (omega (arith, v.loop.roomy, v.loop.based, length-drop k p.data_array))
            (λ s. pending-drop p s v.loop))
    | inr small ↦
        let same : try_compactify p ≡ p = unfold try_compactify in (rw (pos, small)) in
        subst (Same p) (sym same) (Same-refl p v)
  ]
    where
      k : ℕ
      k = p.begin - p.offset

      pos : sub64 p.begin p.offset ≡ p.begin - p.offset
      pos = omega (arith, v.loop.based, v.loop.small)

      moved : Processor D
      moved = record p { data_array = drop (p.begin - p.offset) p.data_array; offset = p.begin }
