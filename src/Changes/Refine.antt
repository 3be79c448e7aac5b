-- ===== src/Changes/Refine.antt =====
-- ChangesProcessor.h against the list of the changes that wait.
use native.Mathlib.Decide.{dec_lt}
use pxc_core.Prelude.{
  ℕ, zero, suc, ◌+◌, ◌-◌, ◌*◌, ◌≤◌, ◌<◌, ◌≡◌, ◌⊎◌, refl, ap, sym, subst, ◌∙◌, ltb, leb, Bool, true,
  false, ◌&&◌, List, [], ◌∷◌, length, get_elem?, drop, sub64, u64_mod, arith, length-set,
  length-drop, drop-drop, Bool-cases, inl, inr, Option-cases,
}
use pxc_core.Changes.{ChangesProcessor, hand_over, mark, try_compactify, finish}

module _ {T : Type 0} where
  -- What stands behind the finished changes at the head, and these.
  abbrev pub after_done : List (T × Bool) → List (T × Bool)
  after_done [] = []
  after_done ((x, true) ∷ rest) = after_done rest
  after_done ((x, false) ∷ rest) = (x, false) ∷ rest

  abbrev pub done_prefix : List (T × Bool) → List T
  done_prefix [] = []
  done_prefix ((x, true) ∷ rest) = x ∷ done_prefix rest
  done_prefix ((x, false) ∷ rest) = []

  -- The first change that waits is not finished.
  abbrev pub Settled : List (T × Bool) → Type 0
  Settled [] = Unit
  Settled ((x, done) ∷ rest) = done ≡ false

  abbrev pub waiting : ChangesProcessor T → List (T × Bool)
  waiting c = drop c.ready_i c.data_array

  -- The id that the next change gets.
  abbrev pub next_id : ChangesProcessor T → ℕ
  next_id c = c.offset + length c.data_array

  pub record IsValid (c : ChangesProcessor T) : Type 0 where
    pub settled : Settled (waiting c)
    pub ready : c.ready_i ≤ length c.data_array
    pub small : next_id c < u64_mod

  hand_over-calls : (xs : List (T × Bool)) → (hand_over xs).0 ≡ done_prefix xs
  unfolding hand_over
  hand_over-calls [] = refl
  hand_over-calls ((x, true) ∷ rest) = ap (λ l. x ∷ l) (hand_over-calls rest)
  hand_over-calls ((x, false) ∷ rest) = refl

  hand_over-drop : (xs : List (T × Bool)) → drop (hand_over xs).1 xs ≡ after_done xs
  unfolding hand_over
  hand_over-drop [] = refl
  hand_over-drop ((x, true) ∷ rest) =
      let e : (hand_over rest).1 + 1 ≡ suc (hand_over rest).1 = omega arith in
      rw e (hand_over-drop rest)
  hand_over-drop ((x, false) ∷ rest) = refl

  hand_over-le : (xs : List (T × Bool)) → (hand_over xs).1 ≤ length xs
  unfolding hand_over
  hand_over-le [] = omega arith
  hand_over-le ((x, true) ∷ rest) = omega (arith, hand_over-le rest)
  hand_over-le ((x, false) ∷ rest) = omega arith

  after_done-Settled : (xs : List (T × Bool)) → Settled (after_done xs)
  after_done-Settled [] = tt
  after_done-Settled ((x, true) ∷ rest) = after_done-Settled rest
  after_done-Settled ((x, false) ∷ rest) = refl

  Settled-done_prefix :
      (xs : List (T × Bool)) → Settled xs → (done_prefix xs ≡ []) × (after_done xs ≡ xs)
  Settled-done_prefix [] h = (refl, refl)
  Settled-done_prefix ((x, true) ∷ rest) h = absurd (cc h)
  Settled-done_prefix ((x, false) ∷ rest) h = (refl, refl)

  length-mark : (xs : List (T × Bool)) (n : ℕ) → length (mark xs n) ≡ length xs
  unfolding mark
  length-mark xs n = elim (Option-cases (get_elem? xs n)) [
    | inl e ↦ rw (e, mark) refl
    | inr ((x, b), e) ↦ rw (e, mark) (length-set xs n (x, true))
  ]

  mark-cons : (x : T × Bool) (xs : List (T × Bool)) (n : ℕ) → mark (x ∷ xs) (suc n) ≡ x ∷ mark xs n
  unfolding mark
  mark-cons x xs n = elim (Option-cases (get_elem? xs n)) [
    | inl e ↦ rw (e, mark) refl
    | inr ((y, b), e) ↦ rw (e, mark) refl
  ]

  drop-mark_before : (n pos : ℕ) (xs : List (T × Bool)) → pos < n → drop n (mark xs pos) ≡ drop n xs
  unfolding mark
  drop-mark_before zero pos xs h = absurd (omega arith)
  drop-mark_before (suc n) pos [] h = refl
  drop-mark_before (suc n) zero ((x, b) ∷ xs) h = refl
  drop-mark_before (suc n) (suc pos) (x ∷ xs) h =
      rw (mark-cons x xs pos) (drop-mark_before n pos xs (omega arith))

  drop-mark :
      (n pos : ℕ) (xs : List (T × Bool))
      → n ≤ pos
      → drop n (mark xs pos) ≡ mark (drop n xs) (pos - n)
  unfolding mark
  drop-mark zero pos xs h = ap (mark xs) (omega arith)
  drop-mark (suc n) pos [] h = refl
  drop-mark (suc n) zero (x ∷ xs) h = absurd (omega arith)
  drop-mark (suc n) (suc pos) (x ∷ xs) h =
      let e : suc pos - suc n ≡ pos - n = omega arith in
      rw (mark-cons x xs pos, e) (drop-mark n pos xs (omega arith))

  -- What a step keeps of a processor that is ready for the next call.
  record Steady (c d : ChangesProcessor T) : Type 0 where
    live : waiting d ≡ waiting c
    same_next : next_id d ≡ next_id c
    ready : d.ready_i ≤ length d.data_array

  try_compactify-Steady :
      (c : ChangesProcessor T)
      → c.ready_i ≤ length c.data_array
      → next_id c < u64_mod
      → Steady c (try_compactify c)
  unfolding try_compactify
  try_compactify-Steady c h b =
      elim (Bool-cases (ltb 5 c.ready_i && ltb (length c.data_array) (c.ready_i * 2))) [
        | inl e ↦
            rw (try_compactify, e)
              (record {
                live = refl;
                same_next = omega (arith, length-drop c.ready_i c.data_array);
                ready = omega arith;
              })
        | inr e ↦ rw (try_compactify, e) (record { live = refl; same_next = refl; ready = h })
      ]

  finish_inside :
      (c : ChangesProcessor T) (token : ℕ)
      → IsValid c
      → c.offset ≤ token
      → token < next_id c
      → finish c token ≡ (
          let marked = mark c.data_array (token - c.offset) in
          let n = (hand_over (drop c.ready_i marked)).1 in
          (
            (hand_over (drop c.ready_i marked)).0,
            try_compactify (record c { ready_i = c.ready_i + n; data_array = marked }),
          ))
  unfolding finish
  finish_inside c token v h lt =
      let small : next_id c < u64_mod = v.small in
      let p : sub64 token c.offset ≡ token - c.offset = omega arith in
      let t : (leb (length c.data_array) (token - c.offset)) ≡ false = ground arith in
      rw (finish, p, t) refl

  -- A result that hands over the finished changes at the head of `w` and leaves the others.
  pub record Outcome (c : ChangesProcessor T) (w : List (T × Bool))
      (r : List T × ChangesProcessor T) : Type 0 where
    pub calls : r.0 ≡ done_prefix w
    pub left : waiting r.1 ≡ after_done w
    pub same_next : next_id r.1 ≡ next_id c
    pub valid : IsValid r.1

  inside-Outcome :
      (c : ChangesProcessor T) (token : ℕ) (w : List (T × Bool))
      → IsValid c
      → c.offset ≤ token
      → token < next_id c
      → drop c.ready_i (mark c.data_array (token - c.offset)) ≡ w
      → Outcome c w (finish c token)
  inside-Outcome c token w v h lt eq =
      let marked : List (T × Bool) = mark c.data_array (token - c.offset) in
      let u : List (T × Bool) = drop c.ready_i marked in
      let d : ChangesProcessor T = record c {
        ready_i = c.ready_i + (hand_over u).1;
        data_array = marked;
      } in
      let f : finish c token ≡ ((hand_over u).0, try_compactify d) = finish_inside c token v h lt in
      let len : length marked ≡ length c.data_array = length-mark c.data_array (token - c.offset) in
      let le : (hand_over u).1 ≤ length c.data_array - c.ready_i =
        omega (arith, hand_over-le u, length-drop c.ready_i marked) in
      let ready : c.ready_i ≤ length c.data_array = v.ready in
      let small : next_id c < u64_mod = v.small in
      let s : Steady d (try_compactify d) = try_compactify-Steady d (omega arith) (omega arith) in
      let left : waiting (try_compactify d) ≡ after_done w =
        s.live
        ∙ sym (drop-drop (hand_over u).1 c.ready_i marked)
        ∙ hand_over-drop u
        ∙ ap after_done eq in
      let same_next : next_id (try_compactify d) ≡ next_id c = omega (arith, s.same_next) in
      subst (Outcome c w) (sym f) (record {
        calls = hand_over-calls u ∙ ap done_prefix eq;
        left = left;
        same_next = same_next;
        valid = record {
          settled = subst Settled (sym left) (after_done-Settled w);
          ready = s.ready;
          small = omega arith;
        };
      })

  -- `finish` of a change that waits, in a well-formed processor, marks that change, hands over
  -- the finished changes at the head of those that wait, in order, and leaves the others, with
  -- their ids, in a well-formed processor.
  pub finish-waiting :
      (c : ChangesProcessor T) (token : ℕ)
      → IsValid c
      → c.offset + c.ready_i ≤ token
      → token < next_id c
      → Outcome c (mark (waiting c) (token - (c.offset + c.ready_i))) (finish c token)
  finish-waiting c token v h lt =
      inside-Outcome c token (mark (waiting c) (token - (c.offset + c.ready_i))) v (omega arith) lt
        (let e : token - c.offset - c.ready_i ≡ token - (c.offset + c.ready_i) = omega arith in
          drop-mark c.ready_i (token - c.offset) c.data_array (omega arith)
          ∙ ap (mark (waiting c)) e)

  finish_outside :
      (c : ChangesProcessor T) (token : ℕ)
      → IsValid c
      → token < u64_mod
      → (token < c.offset) ⊎ (next_id c ≤ token)
      → finish c token ≡ ([], c)
  unfolding finish
  finish_outside c token v b h =
      let small : next_id c < u64_mod = v.small in
      let far : length c.data_array ≤ sub64 token c.offset = elim h [
        | inl l ↦ omega arith
        | inr l ↦ omega arith
      ] in
      let t : (leb (length c.data_array) (sub64 token c.offset)) ≡ true = ground arith in
      rw (finish, t) refl

  waiting-Outcome :
      (c : ChangesProcessor T) (token : ℕ)
      → IsValid c
      → token < u64_mod
      → (token < c.offset + c.ready_i) ⊎ (next_id c ≤ token)
      → Outcome c (waiting c) (finish c token)
  waiting-Outcome c token v b h =
      let (p, q) = Settled-done_prefix (waiting c) v.settled in
      let small : next_id c < u64_mod = v.small in
      let ready : c.ready_i ≤ length c.data_array = v.ready in
      let same : Outcome c (waiting c) ([], c) = record {
        calls = sym p;
        left = sym q;
        same_next = refl;
        valid = v;
      } in
      let outside : (token < c.offset) ⊎ (next_id c ≤ token)
          → Outcome c (waiting c) (finish c token) =
        λ o. subst (Outcome c (waiting c)) (sym (finish_outside c token v b o)) same in
      elim h [
        | inr l ↦ outside (inr l)
        | inl l ↦ elim (dec_lt token c.offset) [
          | yes lt ↦ outside (inl lt)
          | no ge ↦
              inside-Outcome c token (waiting c) v (omega arith) (omega arith)
                (drop-mark_before c.ready_i (token - c.offset) c.data_array (omega arith))
        ]
      ]

  -- `finish` of any other 64-bit id, of a change that was handed over, was cleared or was never
  -- added, makes no call and leaves the changes that wait in a well-formed processor as they are.
  pub finish_other :
      (c : ChangesProcessor T) (token : ℕ)
      → IsValid c
      → token < u64_mod
      → (token < c.offset + c.ready_i) ⊎ (next_id c ≤ token)
      → ((finish c token).0 ≡ [])
        × (waiting (finish c token).1 ≡ waiting c)
        × (next_id (finish c token).1 ≡ next_id c)
        × IsValid (finish c token).1
  finish_other c token v b h =
      let (p, q) = Settled-done_prefix (waiting c) v.settled in
      let o : Outcome c (waiting c) (finish c token) = waiting-Outcome c token v b h in
      (o.calls ∙ p, o.left ∙ q, o.same_next, o.valid)
