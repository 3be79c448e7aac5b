-- ===== src/Container/Slots.antt =====
-- Container.h: what a slot holds decides what an id finds.
use native.Mathlib.Decide.{ℕ_discrete}
use pxc_core.Prelude.{
  ℕ, zero, suc, ◌/◌, ◌%◌, ◌==◌, ◌<◌, ◌≡◌, refl, ap, ◌∙◌, sym, ltb, if◌then◌else◌, true, false,
  Option, none, some, List, [], ◌∷◌, length, get_elem?, set, u32_mod, arith, get_elem?-set_self,
  get_elem?-set_ne, length-set, Option-cases, inl, inr,
}
use pxc_core.Container.{Slot, Container, decode_id, get, int32_limit, below_int32}

module _ {T : Type 0} where
  -- The slot numbers fit in `int32`.
  abbrev pub Fits : Container T → Type 0
  Fits c = length c.slots < int32_limit

  pub get_elem?-lt :
      (xs : List (Slot T)) (n : ℕ) {s : Slot T} → get_elem? xs n ≡ some s → n < length xs
  get_elem?-lt [] n e = cc
  get_elem?-lt (x ∷ xs) zero e = omega arith
  get_elem?-lt (x ∷ xs) (suc n) e = omega (arith, get_elem?-lt xs n e)

  -- An id finds the slot that has its number and its generation.
  pub decode_id-some :
      (c : Container T) (id : ℕ) (s : Slot T)
      → Fits c
      → get_elem? c.slots (id / u32_mod) ≡ some s
      → id % u32_mod ≡ s.generation
      → decode_id c id ≡ some (id / u32_mod)
  unfolding decode_id
  decode_id-some c id s h e g =
      let lt : id / u32_mod < length c.slots = get_elem?-lt c.slots (id / u32_mod) e in
      let t : (ltb (id / u32_mod) int32_limit) ≡ true = ground arith in
      let b : (below_int32 (id / u32_mod) (length c.slots)) ≡ true = ground arith in
      let q : (id % u32_mod == s.generation) ≡ true = ground arith in rw (t, b, e, q)

  -- What an id with this generation finds in a slot.
  abbrev pub look : Option (Slot T) → ℕ → Option T
  look none generation = none
  look (some s) generation = if generation == s.generation then some s.item else none

  pub get-look :
      (c : Container T) (id : ℕ)
      → Fits c
      → get c id ≡ look (get_elem? c.slots (id / u32_mod)) (id % u32_mod)
  unfolding get decode_id
  get-look c id h = elim (Option-cases (get_elem? c.slots (id / u32_mod))) [
    | inl e ↦ ground (arith, e)
    | inr (s, e) ↦
        let lt : id / u32_mod < length c.slots = get_elem?-lt c.slots (id / u32_mod) e in
        let t : (ltb (id / u32_mod) int32_limit) ≡ true = ground arith in
        let b : (below_int32 (id / u32_mod) (length c.slots)) ≡ true = ground arith in
        ground (arith, e, t, b)
  ]

  pub set-set : (xs : List (Slot T)) (n : ℕ) (s t : Slot T) → set (set xs n s) n t ≡ set xs n t
  set-set [] n s t = refl
  set-set (x ∷ xs) zero s t = refl
  set-set (x ∷ xs) (suc n) s t = ap (λ l. x ∷ l) (set-set xs n s t)

  -- What is found after a slot of `c` was written.
  pub get-put :
      (c d : Container T) (pos : ℕ) (s t : Slot T) (id : ℕ)
      → Fits c
      → get_elem? c.slots pos ≡ some s
      → d.slots ≡ set c.slots pos t
      → get d id ≡ (if id / u32_mod == pos then look (some t) (id % u32_mod) else get c id)
  get-put c d pos s t id h e eq =
      let len : length d.slots ≡ length c.slots = ap length eq ∙ length-set c.slots pos t in
      let fits : Fits d = omega arith in
      let lt : pos < length c.slots = get_elem?-lt c.slots pos e in
      get-look d id fits
      ∙ ap (λ l. look (get_elem? l (id / u32_mod)) (id % u32_mod)) eq
      ∙ elim (ℕ_discrete (id / u32_mod) pos) [
        | yes same ↦
            let q : (id / u32_mod == pos) ≡ true = ground arith in
            let at : get_elem? (set c.slots pos t) (id / u32_mod) ≡ some t =
              rw same (get_elem?-set_self c.slots pos t lt) in
            rw (q, at) refl
        | no other ↦
            let q : (id / u32_mod == pos) ≡ false = ground arith in
            rw (q, get_elem?-set_ne c.slots t (λ same. other (sym same)), get-look c id h) refl
      ]
