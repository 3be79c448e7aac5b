-- ===== src/Changes/Add.antt =====
-- ChangesProcessor.h: `add` and `clear`.
use pxc_core.Prelude.{
  ◌+◌, ◌≤◌, ◌<◌, ◌≡◌, refl, subst, sym, Bool, false, List, [], ◌∷◌, ◌++◌, length, u64_mod, arith,
  length-append, drop-append_left,
}
use pxc_core.Changes.{ChangesProcessor, clear, add}
use pxc_core.Changes.Refine.{Settled, waiting, next_id, IsValid}

module _ {T : Type 0} where
  Settled-append : (xs : List (T × Bool)) (x : T) → Settled xs → Settled (xs ++ (x, false) ∷ [])
  Settled-append [] x h = refl
  Settled-append (y ∷ ys) x h = h

  -- `add` to a well-formed processor whose ids have not reached the last one gives the next id
  -- and puts the unfinished change behind those that wait; `clear` drops these. Both leave a
  -- well-formed processor, and no id is given out twice: the next id goes up by one at an `add`
  -- and stays at a `clear`.
  pub waiting-add :
      (c : ChangesProcessor T) (x : T)
      → IsValid c
      → next_id c + 1 < u64_mod
      → ((add c x).0 ≡ next_id c)
        × (waiting (add c x).1 ≡ waiting c ++ (x, false) ∷ [])
        × (next_id (add c x).1 ≡ next_id c + 1)
        × IsValid (add c x).1
        × (waiting (clear c) ≡ [])
        × (next_id (clear c) ≡ next_id c)
        × IsValid (clear c)
  unfolding add clear
  waiting-add c x v room =
      let ready : c.ready_i ≤ length c.data_array = v.ready in
      let len : length (c.data_array ++ (x, false) ∷ []) ≡ length c.data_array + 1 =
        length-append c.data_array ((x, false) ∷ []) in
      let more : waiting (add c x).1 ≡ waiting c ++ (x, false) ∷ [] =
        drop-append_left c.ready_i c.data_array ((x, false) ∷ []) ready in
      (
        omega arith,
        more,
        omega arith,
        record {
          settled = subst Settled (sym more) (Settled-append (waiting c) x v.settled);
          ready = omega arith;
          small = omega arith;
        },
        refl,
        omega arith,
        record { settled = tt; ready = omega arith; small = omega arith },
      )
