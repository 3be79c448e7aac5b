-- ===== src/Container/Erase.antt =====
-- Container.h: `erase`, `extract` and `reset_id` of an id that finds a value.
use pxc_core.Prelude.{
  false, leb, ℕ, ◌-◌, ◌/◌, ◌%◌, ◌==◌, ◌≤◌, ◌<◌, ◌≡◌, refl, ap, ap₂, subst, ◌∙◌, sym, if◌then◌else◌,
  true, none, some, List, ◌∷◌, length, get_elem?, set, u32_mod, add32, arith, get_elem?-set_self,
  length-set, Option-cases, Bool-cases, inl, inr,
}
use pxc_core.Container.{
  Slot, Container, make_id, encode_id, decode_id, get, inc_generation, reset_id, size, release,
  erase, extract,
}
use pxc_core.Container.Slots.{Fits, get_elem?-lt, decode_id-some, look, get-look, get-put}
use pxc_core.Container.Writes.{InRange, Words-set, IsValid, release-put, look-make_id, inc-put}

-- The id with the generation after that of `id`.
abbrev pub next_id : ℕ → ℕ
next_id id = make_id (id / u32_mod) (add32 (id % u32_mod) 256)

module _ {T : Type 0} where
  look-some :
      (s : Slot T) (g : ℕ) (x : T) → look (some s) g ≡ some x → (g ≡ s.generation) × (s.item ≡ x)
  look-some s g x e = elim (Bool-cases (g == s.generation)) [
    | inl q ↦ (ground (arith, q), ground (arith, q, e))
    | inr q ↦ absurd (ground (arith, q, e))
  ]

  -- The slot that a live id names.
  pub live :
      (c : Container T) (id : ℕ) (x : T)
      → Fits c
      → get c id ≡ some x
      → (s : Slot T) × (get_elem? c.slots (id / u32_mod) ≡ some s)
        × (id % u32_mod ≡ s.generation)
        × (s.item ≡ x)
  live c id x h e =
      let l : look (get_elem? c.slots (id / u32_mod)) (id % u32_mod) ≡ some x =
        sym (get-look c id h) ∙ e in
      elim (Option-cases (get_elem? c.slots (id / u32_mod))) [
        | inl q ↦ absurd (cc (q, l))
        | inr (s, q) ↦
            let (g, v) =
              look-some s (id % u32_mod) x (sym (ap (λ o. look o (id % u32_mod)) q) ∙ l) in
            (s, q, g, v)
      ]

  -- The slot after `inc_generation`, with the value `y`.
  abbrev bumped : ℕ → T → Slot T
  bumped id y = record { generation = add32 (id % u32_mod) 256; item = y }

  put-IsValid :
      (c : Container T) (pos : ℕ) (t : Slot T) (es : List ℕ)
      → IsValid c
      → t.generation < u32_mod
      → InRange (length c.slots) es
      → IsValid (record { slots = set c.slots pos t; empty_slots = es })
  put-IsValid c pos t es v w r =
      let len : length (set c.slots pos t) ≡ length c.slots = length-set c.slots pos t in
      record {
        fits = let f = v.fits in omega arith;
        words = Words-set c.slots pos t v.words w;
        empties = subst (λ n. InRange n es) (sym len) r;
      }

  erase-put :
      (blank : T) (c : Container T) (id : ℕ) (x : T)
      → Fits c
      → get c id ≡ some x
      → erase blank c id ≡ (
          let ss = set c.slots (id / u32_mod) (bumped id blank) in
          if add32 (id % u32_mod) 256 / 256 == 0
          then record { slots = ss; empty_slots = c.empty_slots }
          else record { slots = ss; empty_slots = id / u32_mod ∷ c.empty_slots })
  unfolding erase
  erase-put blank c id x h e =
      let (s, q, g, _) = live c id x h e in
      rw (erase, decode_id-some c id s h q g, g) (release-put blank c (id / u32_mod) s q)

  extract-erase :
      (blank : T) (c : Container T) (id : ℕ) (x : T)
      → Fits c
      → get c id ≡ some x
      → extract blank c id ≡ some (x, erase blank c id)
  unfolding extract erase
  extract-erase blank c id x h e =
      let (s, q, g, v) = live c id x h e in
      rw (decode_id-some c id s h q g, q, extract, erase)
        (ap (λ y. some (y, release blank c (id / u32_mod))) v)

  erase-IsValid :
      (blank : T) (c : Container T) (id : ℕ) (x : T)
      → IsValid c
      → get c id ≡ some x
      → IsValid (erase blank c id)
  erase-IsValid blank c id x v e =
      let (s, q, g, _) = live c id x v.fits e in
      let lt : id / u32_mod < length c.slots = get_elem?-lt c.slots (id / u32_mod) q in
      let t : Slot T = bumped id blank in
      let w : t.generation < u32_mod = omega arith in
      rw (erase-put blank c id x v.fits e)
        (elim (Bool-cases (add32 (id % u32_mod) 256 / 256 == 0)) [
          | inl z ↦ rw z (put-IsValid c (id / u32_mod) t c.empty_slots v w v.empties)
          | inr z ↦
              rw z
                (put-IsValid c (id / u32_mod) t (id / u32_mod ∷ c.empty_slots) v w (lt, v.empties))
        ])

  -- Which slots a container has decides what its ids find.
  get-slots :
      (c : Container T) (es : List ℕ) (other : ℕ)
      → get (record c { empty_slots = es }) other ≡ get c other
  unfolding get decode_id
  get-slots c es other = refl

  get-erase_any :
      (blank : T) (c : Container T) (id : ℕ) (x : T) (other : ℕ)
      → IsValid c
      → get c id ≡ some x
      → get (erase blank c id) other ≡ (
          if other / u32_mod == next_id id / u32_mod
          then (if other == next_id id then some blank else none)
          else get c other)
  get-erase_any blank c id x other v e =
      let (s, q, g, _) = live c id x v.fits e in
      let t : Slot T = bumped id blank in
      let w : t.generation < u32_mod = omega arith in
      let d : Container T = record {
        slots = set c.slots (id / u32_mod) t;
        empty_slots = c.empty_slots;
      } in
      let same : get (erase blank c id) other ≡ get d other =
        rw (erase-put blank c id x v.fits e)
          (elim (Bool-cases (add32 (id % u32_mod) 256 / 256 == 0)) [
            | inl z ↦ rw z refl
            | inr z ↦ rw z (get-slots d (id / u32_mod ∷ c.empty_slots) other)
          ]) in
      same
      ∙ get-put c d (id / u32_mod) s t other v.fits q refl
      ∙ look-make_id t (id / u32_mod) other (get c other) w

  -- The slots that are released, after `erase` of a live id: its own too, but for a slot whose
  -- generation is the last.
  abbrev pub released : Container T → ℕ → List ℕ
  released c id =
      if leb (u32_mod - 256) (id % u32_mod) then c.empty_slots else id / u32_mod ∷ c.empty_slots

  empty_slots-erase :
      (blank : T) (c : Container T) (id : ℕ) (x : T)
      → IsValid c
      → get c id ≡ some x
      → (erase blank c id).empty_slots ≡ released c id
  empty_slots-erase blank c id x v e =
      let put = erase-put blank c id x v.fits e in
      elim (Bool-cases (leb (u32_mod - 256) (id % u32_mod))) [
        | inl last ↦
            let z : (add32 (id % u32_mod) 256 / 256 == 0) ≡ true = ground (arith, last) in
            ap (λ (d : Container T). d.empty_slots) put ∙ (rw (z, last) refl)
        | inr more ↦
            let z : (add32 (id % u32_mod) 256 / 256 == 0) ≡ false = ground (arith, more) in
            ap (λ (d : Container T). d.empty_slots) put ∙ (rw (z, more) refl)
      ]

  -- In a well-formed container, for an id that finds a value: `extract` returns that value and
  -- leaves what `erase` leaves, a well-formed container. There the only id of the slot that finds
  -- anything is the one with the next generation, which finds a blank value; so `id` finds
  -- nothing, and every id of another slot finds what it found before. The slot is released, unless
  -- the generation of `id` is the last.
  pub get-erase :
      (blank : T) (c : Container T) (id : ℕ) (x : T) (other : ℕ)
      → IsValid c
      → get c id ≡ some x
      → (extract blank c id ≡ some (x, erase blank c id))
        × IsValid (erase blank c id)
        × (get (erase blank c id) id ≡ none)
        × (get (erase blank c id) other ≡ (
            if other / u32_mod == next_id id / u32_mod
            then (if other == next_id id then some blank else none)
            else get c other))
        × ((erase blank c id).empty_slots ≡ released c id)
  get-erase blank c id x other v e = (
    extract-erase blank c id x v.fits e,
    erase-IsValid blank c id x v e,
    get-erase_any blank c id x id v e ∙ ground arith,
    get-erase_any blank c id x other v e,
    empty_slots-erase blank c id x v e,
  )

  -- When the generation of a live id is the last one, `erase` does not release the slot: the
  -- number of values stays the same, and the id of the slot whose generation is the type alone
  -- finds a blank value. The container is well-formed here.
  pub erase_overflow :
      (blank : T) (c : Container T) (id : ℕ) (x : T)
      → IsValid c
      → get c id ≡ some x
      → u32_mod - 256 ≤ id % u32_mod
      → (size (erase blank c id) ≡ size c)
        × (get (erase blank c id) (make_id (id / u32_mod) (id % 256)) ≡ some blank)
  unfolding size
  erase_overflow blank c id x v e last =
      let g : add32 (id % u32_mod) 256 ≡ id % 256 = omega arith in
      let z : (add32 (id % u32_mod) 256 / 256 == 0) ≡ true = ground arith in
      let put : erase blank c id ≡ record {
        slots = set c.slots (id / u32_mod) (bumped id blank);
        empty_slots = c.empty_slots;
      } =
        erase-put blank c id x v.fits e ∙ (rw z refl) in
      let n : next_id id ≡ make_id (id / u32_mod) (id % 256) = ap (make_id (id / u32_mod)) g in
      let self : (next_id id / u32_mod == next_id id / u32_mod) ≡ true = ground arith in
      let self' : (next_id id == next_id id) ≡ true = ground arith in
      (
        rw (put, length-set c.slots (id / u32_mod) (bumped id blank)) refl,
        ap (get (erase blank c id)) (sym n)
            ∙ get-erase_any blank c id x (next_id id) v e
            ∙ (rw (self, self') refl),
      )

  -- In a well-formed container, `reset_id` of an id that finds a value succeeds and gives the id
  -- with the next generation. The container stays well-formed; the new id finds the value, no
  -- other id of its slot finds anything, the old one included, and every id of another slot
  -- finds what it found before.
  pub get-reset_id :
      (c : Container T) (id : ℕ) (x : T) (other : ℕ)
      → IsValid c
      → get c id ≡ some x
      → (c' : Container T) × (reset_id c id ≡ some (next_id id, c'))
        × IsValid c'
        × (get c' other ≡ (
            if other / u32_mod == next_id id / u32_mod
            then (if other == next_id id then some x else none)
            else get c other))
  unfolding reset_id encode_id
  get-reset_id c id x other v e =
      let (s, q, g, at) = live c id x v.fits e in
      let t : Slot T = bumped id x in
      let w : t.generation < u32_mod = omega arith in
      let lt : id / u32_mod < length c.slots = get_elem?-lt c.slots (id / u32_mod) q in
      let d : Container T = record {
        slots = set c.slots (id / u32_mod) t;
        empty_slots = c.empty_slots;
      } in
      let put : inc_generation c (id / u32_mod) ≡ d =
        inc-put c (id / u32_mod) s q
        ∙ ap₂
            (λ n y. record {
              slots = set c.slots (id / u32_mod) (record { generation = add32 n 256; item = y });
              empty_slots = c.empty_slots;
            })
            (sym g) at in
      (
        d,
        rw
            (
              reset_id,
              decode_id-some c id s v.fits q g,
              put,
              get_elem?-set_self c.slots (id / u32_mod) t lt,
              encode_id,
            )
            (ap (λ m. some (next_id id, m)) put),
        put-IsValid c (id / u32_mod) t c.empty_slots v w v.empties,
        get-put c d (id / u32_mod) s t other v.fits q refl
            ∙ look-make_id t (id / u32_mod) other (get c other) w,
      )
