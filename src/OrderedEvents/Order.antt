-- ===== src/OrderedEvents/Order.antt =====
-- OrderedEventsProcessor.h keeps its invariant, and hands the events over in order.
use pxc_core.Prelude.{
  ℕ, zero, suc, ◌+◌, ◌-◌, ◌≤◌, ◌<◌, ◌==◌, ltb, ◌≡◌, refl, ap, ◌∙◌, ◌⊎◌, inl, inr, if◌then◌else◌,
  Bool, true, false, Option, none, some, List, [], ◌∷◌, arith, length, get_elem?, set, u64_mod,
  add64, sub64, length-set, Bool-cases, Option-cases, get_elem?-some,
}
use native.Mathlib.Decide.{dec_lt}
use pxc_core.OrderedEvents.Slots.{flagged, held, held-set}
use pxc_core.OrderedEvents.{Processor, starting_at, handing, drain}

module _ {D : Type 0} where
  -- The event that waits under a sequence number.
  unfoldable pub pending : Processor D → ℕ → Option D
  pending p s = if ltb s p.offset then none else held p.data_array (s - p.offset)

  pub pending-starting_at : (b s : ℕ) → pending (starting_at b) s ≡ none
  unfolding pending held
  pending-starting_at b s = ground arith

  -- While the loop runs: the array reaches to the end, and an event waits only between the next
  -- number and the end.
  pub record Loop (p : Processor D) : Type 0 where
    pub based : p.offset ≤ p.begin
    pub small : (p.end < u64_mod) × (p.begin < u64_mod)
    pub roomy : p.end ≤ p.offset + length p.data_array
    pub waiting : (s : ℕ) (d : D) → pending p s ≡ some d → (p.begin ≤ s) × (s < p.end)

  -- Between calls the next event is not there yet.
  pub record Inv (p : Processor D) : Type 0 where
    pub loop : Loop p
    pub ordered : p.begin ≤ p.end
    pub due : pending p p.begin ≡ none

  -- The events that are there from a number on without a gap.
  unfoldable pub ready : ℕ → (ℕ → Option D) → ℕ → List (ℕ × D)
  ready zero f s = []
  ready (suc n) f s = elim (f s) [ none ↦ [] | some d ↦ (s, d) ∷ ready n f (suc s) ]

  abbrev consume : Processor D → ℕ → D → Processor D
  consume p pos d = record p {
    begin = add64 p.begin 1;
    data_array = set p.data_array pos (d, false);
  }

  pending-consume :
      (p : Processor D) (d : D) (s : ℕ)
      → Loop p
      → p.begin < p.end
      → pending (consume p (sub64 p.begin p.offset) d) s
        ≡ (if s == p.begin then none else pending p s)
  unfolding pending
  pending-consume p d s v h =
      let i : sub64 p.begin p.offset ≡ p.begin - p.offset = omega (arith, v.based, v.small) in
      ground (
        arith,
        i,
        held-set p.data_array (p.begin - p.offset) (s - p.offset) (d, false),
        v.based,
        v.roomy,
      )

  consume-Loop :
      (p : Processor D) (d : D)
      → Loop p
      → p.begin < p.end
      → Loop (consume p (sub64 p.begin p.offset) d)
  consume-Loop p d v h = record {
    based = omega (arith, v.based, v.small);
    small = omega (arith, v.small);
    roomy = omega (arith, v.roomy, length-set p.data_array (sub64 p.begin p.offset) (d, false));
    waiting = λ s e w. ground (arith, pending-consume p d s v h, v.waiting s e, v.small);
  }

  slot_due :
      (p : Processor D)
      → Loop p
      → p.begin < p.end
      → (slot : D × Bool) × (get_elem? p.data_array (sub64 p.begin p.offset) ≡ some slot)
        × (pending p p.begin ≡ flagged (some slot))
  unfolding pending held
  slot_due p v h =
      let i : sub64 p.begin p.offset ≡ p.begin - p.offset = omega (arith, v.based, v.small) in
      let (slot, at) =
        get_elem?-some p.data_array (p.begin - p.offset) (omega (arith, v.roomy, v.based)) in
      (slot, ap (get_elem? p.data_array) i ∙ at, ground (arith, v.based))

  -- What the loop leaves: `q` behind it, `out` handed over.
  pub record Drained (p : Processor D) (n : ℕ) (out : List (ℕ × D)) (q : Processor D) : Type 0 where
    pub loop : Loop q
    pub same : (q.offset ≡ p.offset) × (q.end ≡ p.end)
    pub moved : q.begin ≡ p.begin + length out
    pub within : (q.begin ≤ p.end) ⊎ (q.begin ≡ p.begin)
    pub due : pending q q.begin ≡ none
    pub numbered : out ≡ ready n (pending p) p.begin
    pub left : (s : ℕ) → pending q s ≡ (if ltb s q.begin then none else pending p s)

  pub pending_above : (p : Processor D) (s : ℕ) → Loop p → p.end ≤ s → pending p s ≡ none
  pending_above p s v h = elim (Option-cases (pending p s)) [
    | inl e ↦ e
    | inr (d, e) ↦ absurd (omega (arith, v.waiting s d e))
  ]

  pub pending_below : (p : Processor D) (s : ℕ) → Loop p → s < p.begin → pending p s ≡ none
  pending_below p s v h = elim (Option-cases (pending p s)) [
    | inl e ↦ e
    | inr (d, e) ↦ absurd (omega (arith, v.waiting s d e))
  ]

  Drained-nil :
      (p : Processor D) (n : ℕ) → Loop p → pending p p.begin ≡ none → Drained p (suc n) [] p
  unfolding ready
  Drained-nil p n v e = record {
    loop = v;
    same = (refl, refl);
    moved = omega arith;
    within = inr refl;
    due = e;
    numbered = rw (e, ready);
    left = λ s. ground (arith, pending_below p s v);
  }

  ready_congr :
      (n : ℕ) (f g : ℕ → Option D) (s : ℕ)
      → ((k : ℕ) → s ≤ k → f k ≡ g k)
      → ready n f s ≡ ready n g s
  unfolding ready
  ready_congr zero f g s same = refl
  ready_congr (suc n) f g s same =
      let later = ready_congr n f g (suc s) (λ k h. same k (omega arith)) in
      elim (Option-cases (g s)) [
        | inl e ↦ rw (same s (omega arith) ∙ e, e, ready)
        | inr (d, e) ↦ rw (same s (omega arith) ∙ e, e, ready) (ap (λ l. (s, d) ∷ l) later)
      ]

  Drained-cons :
      (p : Processor D) (n : ℕ) (d : D) (out : List (ℕ × D)) (q : Processor D)
      → Loop p
      → p.begin < p.end
      → pending p p.begin ≡ some d
      → Drained (consume p (sub64 p.begin p.offset) d) n out q
      → Drained p (suc n) ((p.begin, d) ∷ out) q
  unfolding ready
  Drained-cons p n d out q v h e r =
      let p1 : Processor D = consume p (sub64 p.begin p.offset) d in
      let b : p1.begin ≡ suc p.begin = omega (arith, v.small) in
      record {
        loop = r.loop;
        same = r.same;
        moved = omega (arith, r.moved, b);
        within = ground (arith, r.within, b);
        due = r.due;
        numbered =
            rw (e, ready)
              (ap (λ l. (p.begin, d) ∷ l)
                (r.numbered
                  ∙ ap (ready n (pending p1)) b
                  ∙ ready_congr n (pending p1) (pending p) (suc p.begin)
                      (λ k h'. ground (arith, pending-consume p d k v h))));
        left = λ s.
            ground (arith, r.left s, pending-consume p d s v h, r.moved, b, pending_below p s v);
      }

  drain_stop : (n : ℕ) (p : Processor D) → p.end ≤ p.begin → drain (suc n) p ≡ some ([], p)
  unfolding drain
  drain_stop n p h = let e : ltb p.begin p.end ≡ false = ground arith in rw e

  drain_wait :
      (n : ℕ) (p : Processor D) (d : D)
      → p.begin < p.end
      → get_elem? p.data_array (sub64 p.begin p.offset) ≡ some (d, false)
      → drain (suc n) p ≡ some ([], p)
  unfolding drain
  drain_wait n p d h at = let e : ltb p.begin p.end ≡ true = ground arith in rw (e, at)

  drain_take :
      (n : ℕ) (p : Processor D) (d : D)
      → p.begin < p.end
      → get_elem? p.data_array (sub64 p.begin p.offset) ≡ some (d, true)
      → drain (suc n) p ≡ handing (p.begin, d) (drain n (consume p (sub64 p.begin p.offset) d))
  unfolding drain
  drain_take n p d h at = let e : ltb p.begin p.end ≡ true = ground arith in rw (e, at)

  -- With fuel for every number up to the end the loop returns, and hands over what is ready.
  pub drain-Drained :
      (n : ℕ) (p : Processor D)
      → Loop p
      → p.end - p.begin < n
      → (out : List (ℕ × D)) × (q : Processor D) × (drain n p ≡ some (out, q)) × Drained p n out q
  drain-Drained zero p v h = absurd (omega arith)
  drain-Drained (suc n) p v h = elim (dec_lt p.begin p.end) [
    | no over ↦ (
      [],
      p,
      drain_stop n p (omega arith),
      Drained-nil p n v (pending_above p p.begin v (omega arith)),
    )
    | yes more ↦
        let (slot, at, e) = slot_due p v more in
        elim (Bool-cases slot.1) [
          | inl set_ ↦
              let at' : get_elem? p.data_array (sub64 p.begin p.offset) ≡ some (slot.0, true) =
                ground arith in
              let (out, q, r, w) =
                drain-Drained n (consume p (sub64 p.begin p.offset) slot.0)
                  (consume-Loop p slot.0 v more) (omega (arith, v.small)) in
              (
                (p.begin, slot.0) ∷ out,
                q,
                drain_take n p slot.0 more at' ∙ rw r,
                Drained-cons p n slot.0 out q v more (ground arith) w,
              )
          | inr unset ↦
              let at' : get_elem? p.data_array (sub64 p.begin p.offset) ≡ some (slot.0, false) =
                ground arith in
              ([], p, drain_wait n p slot.0 more at', Drained-nil p n v (ground arith))
        ]
  ]
