-- ===== src/Container/Ids.antt =====
-- Container.h: what every id finds after an operation.
use pxc_core.Prelude.{
  List-cases, ℕ, ◌+◌, ◌-◌, ◌/◌, ◌%◌, ◌==◌, ◌<◌, ◌≡◌, refl, ap, subst, ◌∙◌, sym, if◌then◌else◌, none,
  some, List, [], ◌∷◌, ◌++◌, length, set, u32_mod, arith, length-set, get_elem?-some, inl, inr,
  length-append,
}
use pxc_core.Container.{Slot, Container, make_id, get, int32_limit, create, type_from_id}
use pxc_core.Container.Slots.{get-put}
use pxc_core.Container.Writes.{
  InRange, InRange-get, Words-get, Words-set, Words-append, IsValid, create-reuse, create-push,
  look-make_id, get-push, fresh, taken, Writes,
}

module _ {T : Type 0} where
  -- The outcome of `create` in both branches: one slot of the new container is written.
  record Created (c : Container T) (x : T) (type other : ℕ) : Type 0 where
    pos : ℕ
    slot : Slot T
    made : Container T
    word : slot.generation < u32_mod
    type_of : slot.generation % 256 ≡ type
    content : slot.item ≡ x
    result : create c x type ≡ some (make_id pos slot.generation, made)
    writes : Writes c made pos slot other
    valid : IsValid made

  reuse-Created :
      (c : Container T) (x : T) (type other pos : ℕ) (rest : List ℕ)
      → IsValid c
      → type < 256
      → c.empty_slots ≡ pos ∷ rest
      → Created c x type other
  reuse-Created c x type other pos rest v b e =
      let (lt, more) = InRange-get (length c.slots) c.empty_slots pos rest v.empties e in
      let (s, g) = get_elem?-some c.slots pos lt in
      let w : s.generation < u32_mod = Words-get c.slots pos s v.words g in
      let t : Slot T = taken s x type in
      let word : t.generation < u32_mod = omega arith in
      let d : Container T = record { slots = set c.slots pos t; empty_slots = rest } in
      let len : length d.slots ≡ length c.slots = length-set c.slots pos t in
      record {
        pos = pos;
        slot = t;
        made = d;
        word = word;
        type_of = omega arith;
        content = refl;
        result = create-reuse c x type pos rest s e g;
        writes = get-put c d pos s t other v.fits g refl;
        valid = record {
          fits = omega arith;
          words = Words-set c.slots pos t v.words word;
          empties = subst (λ n. InRange n rest) (sym len) more;
        };
      }

  push-Created :
      (c : Container T) (x : T) (type other : ℕ)
      → IsValid c
      → length c.slots < int32_limit - 1
      → type < 256
      → c.empty_slots ≡ []
      → Created c x type other
  push-Created c x type other v room b e =
      let t : Slot T = fresh x type in
      let d : Container T = record { slots = c.slots ++ t ∷ []; empty_slots = c.empty_slots } in
      let len : length d.slots ≡ length c.slots + 1 = length-append c.slots (t ∷ []) in
      let word : t.generation < u32_mod = omega arith in
      record {
        pos = length c.slots;
        slot = t;
        made = d;
        word = word;
        type_of = omega arith;
        content = refl;
        result = create-push c x type e (omega arith);
        writes = get-push c x type other room;
        valid = record {
          fits = omega arith;
          words = Words-append c.slots t v.words word;
          empties = subst (InRange (length d.slots)) (sym e) tt;
        };
      }

  created :
      (c : Container T) (x : T) (type other : ℕ)
      → IsValid c
      → length c.slots < int32_limit - 1
      → type < 256
      → Created c x type other
  created c x type other v room b = elim (List-cases c.empty_slots) [
    | inl e ↦ push-Created c x type other v room b e
    | inr (pos, rest, e) ↦ reuse-Created c x type other pos rest v b e
  ]

  -- In a well-formed container with fewer than 2 ^ 31 - 1 slots, `create` of a value with a byte
  -- as type succeeds, keeps the container well-formed and gives an id of that type. Then the new
  -- id finds the value, no other id of its slot finds anything, and every id of another slot
  -- finds what it found before.
  pub get-create :
      (c : Container T) (x : T) (type other : ℕ)
      → IsValid c
      → length c.slots < int32_limit - 1
      → type < 256
      → (id : ℕ) × (c' : Container T) × (create c x type ≡ some (id, c'))
        × IsValid c'
        × (type_from_id id ≡ type)
        × (get c' other ≡ (
            if other / u32_mod == id / u32_mod
            then (if other == id then some x else none)
            else get c other))
  get-create c x type other v room b =
      let r : Created c x type other = created c x type other v room b in
      (
        make_id r.pos r.slot.generation,
        r.made,
        r.result,
        r.valid,
        omega (arith, r.word, r.type_of),
        r.writes
            ∙ look-make_id r.slot r.pos other (get c other) r.word
            ∙ ap
                (λ y.
                  if other / u32_mod == make_id r.pos r.slot.generation / u32_mod
                  then (if other == make_id r.pos r.slot.generation then some y else none)
                  else get c other)
                r.content,
      )
