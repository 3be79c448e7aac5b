-- ===== src/OrderedEvents/Slots.antt =====
-- The array of OrderedEventsProcessor.h read as a partial map from positions to events.
use pxc_core.Prelude.{
  ℕ, zero, suc, ◌+◌, ◌≤◌, ◌<◌, ◌==◌, ◌≡◌, refl, ap, if◌then◌else◌, Bool, false, Option, none, some,
  List, [], ◌∷◌, ◌++◌, arith, length, get_elem?, set, drop, replicate, get_elem?-drop,
}

module _ {ℓ} {D : Type ℓ} where
  -- The event of a slot whose flag is set.
  abbrev pub flagged : Option (D × Bool) → Option D
  flagged none = none
  flagged (some slot) = if slot.1 then some slot.0 else none

  unfoldable pub held : List (D × Bool) → ℕ → Option D
  held xs i = flagged (get_elem? xs i)

  pub held_above : (xs : List (D × Bool)) (i : ℕ) → length xs ≤ i → held xs i ≡ none
  unfolding held
  held_above [] i h = refl
  held_above (x ∷ xs) zero h = absurd (omega arith)
  held_above (x ∷ xs) (suc i) h = unfold held in held_above xs i (omega arith)

  pub held-set :
      (xs : List (D × Bool)) (i j : ℕ) (slot : D × Bool)
      → i < length xs
      → held (set xs i slot) j ≡ (if i == j then flagged (some slot) else held xs j)
  unfolding held
  held-set [] i j slot h = absurd (omega arith)
  held-set (x ∷ xs) zero zero slot h = refl
  held-set (x ∷ xs) zero (suc j) slot h = ground arith
  held-set (x ∷ xs) (suc i) zero slot h = ground arith
  held-set (x ∷ xs) (suc i) (suc j) slot h = ground (arith, held-set xs i j slot)

  pub held-drop : (n i : ℕ) (xs : List (D × Bool)) → held (drop n xs) i ≡ held xs (n + i)
  unfolding held
  held-drop n i xs = ap flagged (get_elem?-drop n i xs)

  held-replicate : (blank : D) (n i : ℕ) → held (replicate n (blank, false)) i ≡ none
  unfolding held
  held-replicate blank zero i = refl
  held-replicate blank (suc n) zero = refl
  held-replicate blank (suc n) (suc i) = held-replicate blank n i

  -- New slots hold no event.
  pub held-append_blank :
      (blank : D) (n : ℕ) (xs : List (D × Bool)) (i : ℕ)
      → held (xs ++ replicate n (blank, false)) i ≡ held xs i
  unfolding held
  held-append_blank blank n [] i = held-replicate blank n i
  held-append_blank blank n (x ∷ xs) zero = refl
  held-append_blank blank n (x ∷ xs) (suc i) = held-append_blank blank n xs i
