-- ===== src/Container/Writes.antt =====
-- Container.h: which slot each operation writes, and what the ids find then.
use native.Mathlib.Decide.{ℕ_discrete}
use pxc_core.Prelude.{
  ℕ, zero, suc, ◌+◌, ◌-◌, ◌*◌, ◌/◌, ◌%◌, ◌==◌, ◌<◌, ◌≡◌, ◌≢◌, refl, ap, subst, ◌∙◌, leb,
  if◌then◌else◌, true, false, Option, none, some, List, [], ◌∷◌, ◌++◌, length, get_elem?, set,
  u32_mod, add32, arith, get_elem?-set_self, Bool-cases, inl, inr, length-append,
}
use pxc_core.Container.{
  Slot, Container, make_id, encode_id, get, int32_limit, inc_generation, write_data, write_type,
  is_usable, store, create, release,
}
use pxc_core.Container.Slots.{Fits, get_elem?-lt, look, get-look, set-set}

abbrev pub InRange : ℕ → List ℕ → Type 0
InRange n [] = Unit
InRange n (x ∷ xs) = (x < n) × InRange n xs

pub InRange-get :
    (n : ℕ) (es : List ℕ) (pos : ℕ) (rest : List ℕ)
    → InRange n es
    → es ≡ pos ∷ rest
    → (pos < n) × InRange n rest
InRange-get n [] pos rest h e = cc
InRange-get n (x ∷ xs) pos rest h e = subst (InRange n) e h

module _ {T : Type 0} where
  -- Every generation is a `uint32`.
  abbrev pub Words : List (Slot T) → Type 0
  Words [] = Unit
  Words (s ∷ ss) = (s.generation < u32_mod) × Words ss

  pub record IsValid (c : Container T) : Type 0 where
    pub fits : Fits c
    pub words : Words c.slots
    pub empties : InRange (length c.slots) c.empty_slots

  pub Words-get :
      (xs : List (Slot T)) (n : ℕ) (s : Slot T)
      → Words xs
      → get_elem? xs n ≡ some s
      → s.generation < u32_mod
  Words-get [] n s w e = cc
  Words-get (x ∷ xs) zero s w e = ground (arith, w.0)
  Words-get (x ∷ xs) (suc n) s w e = Words-get xs n s w.1 e

  pub Words-set :
      (xs : List (Slot T)) (n : ℕ) (s : Slot T)
      → Words xs
      → s.generation < u32_mod
      → Words (set xs n s)
  Words-set [] n s w h = tt
  Words-set (x ∷ xs) zero s w h = (h, w.1)
  Words-set (x ∷ xs) (suc n) s w h = (w.0, Words-set xs n s w.1 h)

  pub Words-append :
      (xs : List (Slot T)) (s : Slot T) → Words xs → s.generation < u32_mod → Words (xs ++ s ∷ [])
  Words-append [] s w h = (h, tt)
  Words-append (x ∷ xs) s w h = (w.0, Words-append xs s w.1 h)

  pub inc-put :
      (c : Container T) (pos : ℕ) (s : Slot T)
      → get_elem? c.slots pos ≡ some s
      → inc_generation c pos
        ≡ record c { slots = set c.slots pos (record s { generation = add32 s.generation 256 }) }
  unfolding inc_generation
  inc-put c pos s e = rw (e, inc_generation) refl

  write_data-put :
      (c : Container T) (pos : ℕ) (x : T) (s : Slot T)
      → get_elem? c.slots pos ≡ some s
      → write_data c pos x ≡ record c { slots = set c.slots pos (record s { item = x }) }
  unfolding write_data
  write_data-put c pos x s e = rw (e, write_data) refl

  write_type-put :
      (c : Container T) (pos type : ℕ) (s : Slot T)
      → get_elem? c.slots pos ≡ some s
      → write_type c pos type ≡ record c {
        slots = set c.slots pos (record s { generation = s.generation / 256 * 256 + type });
      }
  unfolding write_type
  write_type-put c pos type s e = rw (e, write_type) refl

  -- The slot that `store` takes from the stack, as it is then.
  abbrev pub taken : Slot T → T → ℕ → Slot T
  taken s x type = record { generation = s.generation / 256 * 256 + type; item = x }

  store-reuse :
      (c : Container T) (x : T) (type pos : ℕ) (rest : List ℕ) (s : Slot T)
      → c.empty_slots ≡ pos ∷ rest
      → get_elem? c.slots pos ≡ some s
      → store c x type
        ≡ some (pos, record { slots = set c.slots pos (taken s x type); empty_slots = rest })
  unfolding store
  store-reuse c x type pos rest s e g =
      let d : Container T = record c { empty_slots = rest } in
      let lt : pos < length c.slots = get_elem?-lt c.slots pos g in
      let h : get_elem? (set c.slots pos (record s { item = x })) pos
          ≡ some (record s { item = x }) =
        get_elem?-set_self c.slots pos (record s { item = x }) lt in
      rw (e, write_data-put d pos x s g)
        (rw
          (
            write_type-put (record d { slots = set c.slots pos (record s { item = x }) }) pos type
                (record s { item = x }) h,
            set-set c.slots pos (record s { item = x }) (taken s x type),
          )
          refl)

  pub look-make_id :
      (t : Slot T) (pos other : ℕ) (r : Option T)
      → t.generation < u32_mod
      → (if other / u32_mod == pos then look (some t) (other % u32_mod) else r) ≡ (
          if other / u32_mod == make_id pos t.generation / u32_mod
          then (if other == make_id pos t.generation then some t.item else none)
          else r)
  look-make_id t pos other r h =
      let e : make_id pos t.generation / u32_mod ≡ pos = omega arith in
      let m : make_id pos t.generation % u32_mod ≡ t.generation = omega arith in
      rw e (ground (arith, e, m))

  pub create-reuse :
      (c : Container T) (x : T) (type pos : ℕ) (rest : List ℕ) (s : Slot T)
      → c.empty_slots ≡ pos ∷ rest
      → get_elem? c.slots pos ≡ some s
      → create c x type
        ≡ some (
          make_id pos (s.generation / 256 * 256 + type),
          record { slots = set c.slots pos (taken s x type); empty_slots = rest },
        )
  unfolding create encode_id
  create-reuse c x type pos rest s e g =
      rw
        (
          store-reuse c x type pos rest s e g,
          get_elem?-set_self c.slots pos (taken s x type) (get_elem?-lt c.slots pos g),
          create,
          encode_id,
        )
        refl

  abbrev pub fresh : T → ℕ → Slot T
  fresh x type = record { generation = 256 + type; item = x }

  get_elem?-end : (xs : List (Slot T)) (s : Slot T) → get_elem? (xs ++ s ∷ []) (length xs) ≡ some s
  get_elem?-end [] s = refl
  get_elem?-end (x ∷ xs) s = get_elem?-end xs s

  get_elem?-before :
      (xs : List (Slot T)) (s : Slot T) (n : ℕ)
      → n ≢ length xs
      → get_elem? (xs ++ s ∷ []) n ≡ get_elem? xs n
  get_elem?-before [] s zero h = absurd (h refl)
  get_elem?-before [] s (suc n) h = refl
  get_elem?-before (x ∷ xs) s zero h = refl
  get_elem?-before (x ∷ xs) s (suc n) h = get_elem?-before xs s n (λ e. h (ap suc e))

  pub create-push :
      (c : Container T) (x : T) (type : ℕ)
      → c.empty_slots ≡ []
      → length c.slots < int32_limit
      → create c x type
        ≡ some (
          make_id (length c.slots) (256 + type),
          record { slots = c.slots ++ fresh x type ∷ []; empty_slots = c.empty_slots },
        )
  unfolding create store encode_id
  create-push c x type e h =
      let b : (leb (length c.slots) (int32_limit - 1)) ≡ true = ground arith in
      rw (e, create, store, b)
        (rw (get_elem?-end c.slots (fresh x type), encode_id)
          (ap
            (λ es. some (
              make_id (length c.slots) (256 + type),
              record { slots = c.slots ++ fresh x type ∷ []; empty_slots = es },
            ))
            e))

  pub release-put :
      (blank : T) (c : Container T) (pos : ℕ) (s : Slot T)
      → get_elem? c.slots pos ≡ some s
      → release blank c pos ≡ (
          let g = add32 s.generation 256 in
          let ss = set c.slots pos (record { generation = g; item = blank }) in
          if g / 256 == 0
          then record { slots = ss; empty_slots = c.empty_slots }
          else record { slots = ss; empty_slots = pos ∷ c.empty_slots })
  unfolding release is_usable
  release-put blank c pos s g =
      let lt : pos < length c.slots = get_elem?-lt c.slots pos g in
      let s1 : Slot T = record s { generation = add32 s.generation 256 } in
      let s2 : Slot T = record s1 { item = blank } in
      let at : get_elem? (set c.slots pos s2) pos ≡ some s2 =
        get_elem?-set_self c.slots pos s2 lt in
      rw (release, inc-put c pos s g)
        (rw
          (
            write_data-put (record c { slots = set c.slots pos s1 }) pos blank s1
                (get_elem?-set_self c.slots pos s1 lt),
            set-set c.slots pos s1 s2,
          )
          (rw (at, is_usable)
            (elim (Bool-cases (add32 s.generation 256 / 256 == 0)) [
              | inl q ↦ rw q refl
              | inr q ↦ rw q refl
            ])))

  -- How a container with one slot changed differs from `c`, for every id.
  abbrev pub Writes : Container T → Container T → ℕ → Slot T → ℕ → Type 0
  Writes c d pos t other =
      get d other
      ≡ (if other / u32_mod == pos then look (some t) (other % u32_mod) else get c other)

  pub get-push :
      (c : Container T) (x : T) (type other : ℕ)
      → length c.slots < int32_limit - 1
      → Writes c
          (record { slots = c.slots ++ fresh x type ∷ []; empty_slots = c.empty_slots })
          (length c.slots)
          (fresh x type)
          other
  get-push c x type other room =
      let d : Container T = record {
        slots = c.slots ++ fresh x type ∷ [];
        empty_slots = c.empty_slots;
      } in
      let len : length d.slots ≡ length c.slots + 1 = length-append c.slots (fresh x type ∷ []) in
      let fits : Fits d = omega arith in
      get-look d other fits ∙ elim (ℕ_discrete (other / u32_mod) (length c.slots)) [
        | yes same ↦
            let q : (other / u32_mod == length c.slots) ≡ true = ground arith in
            let at : get_elem? (c.slots ++ fresh x type ∷ []) (other / u32_mod)
                ≡ some (fresh x type) =
              rw same (get_elem?-end c.slots (fresh x type)) in
            rw (q, at) refl
        | no ne ↦
            let q : (other / u32_mod == length c.slots) ≡ false = ground arith in
            rw
              (
                q,
                get_elem?-before c.slots (fresh x type) (other / u32_mod) ne,
                get-look c other (omega arith),
              )
              refl
      ]
