-- ===== src/OrderedEvents/Add.antt =====
-- `add` of OrderedEventsProcessor.h, on its three branches.
use pxc_core.Prelude.{
  ℕ, ◌+◌, ◌-◌, ◌≤◌, ◌<◌, ◌==◌, ltb, ◌≡◌, ◌≢◌, refl, sym, ap, ap₂, fun_ext, ◌∙◌, if◌then◌else◌, Bool,
  true, false, none, some, List, [], ◌∷◌, ◌++◌, arith, length, set, replicate, u64_mod, add64,
  sub64, length-set, length-append, length-replicate,
}
use pxc_core.OrderedEvents.Slots.{held-set, held-append_blank}
use pxc_core.OrderedEvents.{Processor, close_gap, try_compactify, add_now, grow_to, add}
use pxc_core.OrderedEvents.Settle.{Same, close_gap-Same, try_compactify-Same}
use pxc_core.OrderedEvents.Order.{pending, Loop, Inv, ready, Drained, drain-Drained}

module _ {D : Type 0} where
  -- What a call of `add` for the event that is due leaves and hands over.
  pub record Handed (p : Processor D) (out : List (ℕ × D)) (q : Processor D) : Type 0 where
    pub inv : Inv q
    pub moved : q.begin ≡ p.begin + 1 + length out
    pub numbered : out ≡ ready (p.end - (p.begin + 1) + 1) (pending p) (p.begin + 1)
    pub left : (s : ℕ) → pending q s ≡ (if ltb s q.begin then none else pending p s)

  pending-skip : (p : Processor D) (b s : ℕ) → pending (record p { begin = b }) s ≡ pending p s
  unfolding pending
  pending-skip p b s = refl

  pending-skip_fun : (p : Processor D) (b : ℕ) → pending (record p { begin = b }) ≡ pending p
  pending-skip_fun p b = fun_ext (pending-skip p b)

  skip-Loop :
      (p : Processor D)
      → Inv p
      → p.begin + 1 < u64_mod
      → Loop (record p { begin = add64 p.begin 1 })
  skip-Loop p v h = record {
    based = omega (arith, v.loop.based);
    small = omega (arith, v.loop.small);
    roomy = v.loop.roomy;
    waiting = λ s d w.
        let w' : pending p s ≡ some d = sym (pending-skip p (add64 p.begin 1) s) ∙ w in
        omega (arith, v.loop.waiting s d w', not_due s d w');
  }
    where
      not_due : (s : ℕ) (d : D) → pending p s ≡ some d → s ≢ p.begin
      not_due s d w same = cc (v.due, w, ap (pending p) same)

  finish :
      (p q : Processor D) (n : ℕ) (out : List (ℕ × D))
      → Drained p n out q
      → Same q (try_compactify (close_gap q))
  finish p q n out r =
      let g = close_gap-Same q r.loop r.due in
      let c = try_compactify-Same (close_gap q) g.inv in
      record { inv = c.inv; begins = c.begins ∙ g.begins; holds = λ s. c.holds s ∙ g.holds s }

  add_now_lem : (blank : D) (p : Processor D) (d : D) → add blank p p.begin d ≡ add_now p d
  unfolding add
  add_now_lem blank p d =
      let a : ltb p.begin p.begin ≡ false = ground arith in
      let b : (p.begin == p.begin) ≡ true = ground arith in rw (a, b)

  -- The event that is due is handed over at once, and behind it every event that waits without a
  -- gap; the processor then holds the other events, and its next event is again not there.
  pub add_due :
      (blank : D) (p : Processor D) (d : D)
      → Inv p
      → p.begin + 1 < u64_mod
      → (out : List (ℕ × D)) × (q : Processor D) × (add blank p p.begin d
          ≡ some ((p.begin, d) ∷ out, q))
        × Handed p out q
  add_due blank p d v h =
      let b : add64 p.begin 1 ≡ p.begin + 1 = omega arith in
      let skipped : Processor D = record p { begin = add64 p.begin 1 } in
      let n : ℕ = p.end - add64 p.begin 1 + 1 in
      let (out, q, r, w) = drain-Drained n skipped (skip-Loop p v h) (omega arith) in
      let done = finish skipped q n out w in
      let ran : add_now p d ≡ some ((p.begin, d) ∷ out, try_compactify (close_gap q)) =
        unfold add_now in (rw r) in
      (
        out,
        try_compactify (close_gap q),
        add_now_lem blank p d ∙ ran,
        record {
          inv = done.inv;
          moved = omega (arith, done.begins, w.moved, b);
          numbered =
              w.numbered
              ∙ ap (λ f. ready n f (add64 p.begin 1)) (pending-skip_fun p (add64 p.begin 1))
              ∙ ap (λ k. ready (p.end - k + 1) (pending p) k) b;
          left = λ s.
              done.holds s
              ∙ w.left s
              ∙ ap₂ (λ k l. if ltb s k then none else l) (sym done.begins)
                  (pending-skip p (add64 p.begin 1) s);
        },
      )

  pending-later :
      (blank : D) (p : Processor D) (k : ℕ) (d : D) (e : ℕ) (s : ℕ)
      → p.offset ≤ k
      → pending
          (record p {
            data_array =
                set (grow_to blank (k - p.offset + 1) p.data_array) (k - p.offset) (d, true);
            end = e;
          })
          s
        ≡ (if s == k then some d else pending p s)
  unfolding pending grow_to
  pending-later blank p k d e s h = ground (
    arith,
    held-set (p.data_array ++ replicate (k - p.offset + 1 - length p.data_array) (blank, false))
        (k - p.offset) (s - p.offset) (d, true),
    held-append_blank blank (k - p.offset + 1 - length p.data_array) p.data_array (s - p.offset),
    length-append p.data_array (replicate (k - p.offset + 1 - length p.data_array) (blank, false)),
    length-replicate {A = D × Bool} (k - p.offset + 1 - length p.data_array) (blank, false),
  )

  -- The processor after `add` of an event that comes early.
  later : D → Processor D → ℕ → D → Processor D
  later blank p k d = record p {
    data_array = set (grow_to blank (k - p.offset + 1) p.data_array) (k - p.offset) (d, true);
    end = if ltb p.end (k + 1) then k + 1 else p.end;
  }

  add_later_lem :
      (blank : D) (p : Processor D) (k : ℕ) (d : D)
      → p.offset ≤ p.begin
      → p.begin < k
      → k + 1 < u64_mod
      → add blank p k d ≡ some ([], later blank p k d)
  unfolding add later
  add_later_lem blank p k d base h small =
      let a : ltb k p.begin ≡ false = ground arith in
      let b : (k == p.begin) ≡ false = ground arith in
      let c : sub64 k p.offset ≡ k - p.offset = omega arith in
      let e : add64 k 1 ≡ k + 1 = omega arith in
      let f : add64 (k - p.offset) 1 ≡ k - p.offset + 1 = omega arith in rw (a, b, c, e, f)

  later-roomy :
      (blank : D) (p : Processor D) (k : ℕ) (d : D)
      → p.end ≤ p.offset + length p.data_array
      → p.offset ≤ p.begin
      → p.begin < k
      → (later blank p k d).end ≤ (later blank p k d).offset + length (later blank p k d).data_array
  unfolding later grow_to
  later-roomy blank p k d fits base h =
      let new : List (D × Bool) =
        replicate (k - p.offset + 1 - length p.data_array) (blank, false) in
      ground (
        arith,
        length-set (p.data_array ++ new) (k - p.offset) (d, true),
        length-append p.data_array new,
        length-replicate {A = D × Bool} (k - p.offset + 1 - length p.data_array) (blank, false),
      )

  -- An event that comes early is kept: nothing is handed over, and from then on it waits under its
  -- number, in the place of one that waited there before; no other number changes.
  pub add_early :
      (blank : D) (p : Processor D) (k : ℕ) (d : D)
      → Inv p
      → p.begin < k
      → k + 1 < u64_mod
      → (q : Processor D) × (add blank p k d ≡ some ([], q))
        × Inv q
        × (q.begin ≡ p.begin)
        × ((s : ℕ) → pending q s ≡ (if s == k then some d else pending p s))
  add_early blank p k d v h small =
      let base : p.offset ≤ p.begin = v.loop.based in
      let holds : (s : ℕ)
          → pending (later blank p k d) s ≡ (if s == k then some d else pending p s) =
        λ s. unfold later in (pending-later blank p k d _ s (omega arith)) in
      (
        later blank p k d,
        add_later_lem blank p k d base h small,
        record {
          loop = record {
            based = unfold later in base;
            small = unfold later in (ground (arith, v.loop.small));
            roomy = later-roomy blank p k d v.loop.roomy base h;
            waiting = λ s e w.
                unfold later in (ground (arith, sym (holds s) ∙ w, v.loop.waiting s e, v.ordered));
          };
          ordered = unfold later in (ground (arith, v.ordered));
          due = unfold later in (ground (arith, holds p.begin, v.due));
        },
        unfold later in refl,
        holds,
      )

  -- An event below the next number fails the check.
  pub add_stale :
      (blank : D) (p : Processor D) (s : ℕ) (d : D) → s < p.begin → add blank p s d ≡ none
  unfolding add
  add_stale blank p s d h = let e : ltb s p.begin ≡ true = ground arith in rw e
