-- ===== src/Heap/Tests.antt =====
-- Heap.h: the calls at concrete heaps.
use mathlib.Core.List.{Perm}
use pxc_core.Prelude.{
  true, false, ℕ, zero, suc, ◌-◌, ◌/◌, ◌≤◌, ◌<◌, ◌≡◌, refl, none, some, [], ◌∷◌, set, arith,
}
use pxc_core.Heap.{KHeap, place, top_key, get_key, is_top, fix, pop, erase}
use pxc_core.Heap.Order.{key}
use pxc_core.Heap.Positions.{node_at}
use pxc_core.Heap.Calls.{IsValid, fix-IsValid}
use pxc_core.Heap.Erase.{pop-IsValid, erase-IsValid}

abbrev three : KHeap
three = record {
  items =
      record { key = 1; node = 7 }
      ∷ record { key = 5; node = 3 }
      ∷ record { key = 4; node = 2 }
      ∷ [];
  pos = place (place (place (λ n. none) 7 (some 0)) 3 (some 1)) 2 (some 2);
}

three_ordered : (c : ℕ) → 0 < c → c < 3 → key three.items ((c - 1) / 4) ≤ key three.items c
three_ordered zero a b = omega arith
three_ordered (suc zero) a b = omega arith
three_ordered (suc (suc zero)) a b = omega arith
three_ordered (suc (suc (suc c))) a b = absurd (omega arith)

three_kept : (i : ℕ) → i < 3 → three.pos (node_at three.items i) ≡ some i
three_kept zero a = refl
three_kept (suc zero) a = refl
three_kept (suc (suc zero)) a = refl
three_kept (suc (suc (suc i))) a = absurd (omega arith)

three_back : (n p : ℕ) → three.pos n ≡ some p → (p < 3) × (node_at three.items p ≡ n)
three_back n zero e = (omega arith, ground (arith, e))
three_back n (suc zero) e = (omega arith, ground (arith, e))
three_back n (suc (suc zero)) e = (omega arith, ground (arith, e))
three_back n (suc (suc (suc p))) e = absurd (ground (arith, e))

three-IsValid : IsValid three
three-IsValid = record {
  ordered = three_ordered;
  placed = record { kept = three_kept; known = three_back };
}

fix-IsValid_example :
    (r : KHeap) × (fix three 0 2 ≡ some r)
    × IsValid r
    × Perm r.items (set three.items 2 (record { key = 0; node = 2 }))
fix-IsValid_example = fix-IsValid three 0 2 2 three-IsValid refl

pop-IsValid_example :
    (r : KHeap) × (pop three ≡ some (7, r))
    × IsValid r
    × Perm (record { key = 1; node = 7 } ∷ r.items) three.items
    × (r.pos 7 ≡ none)
    × (1 ≤ 4)
pop-IsValid_example = pop-IsValid three 2 three-IsValid (omega arith)

erase-IsValid_example :
    (r : KHeap) × (erase three 3 ≡ some r)
    × IsValid r
    × Perm (record { key = 5; node = 3 } ∷ r.items) three.items
    × (r.pos 3 ≡ none)
erase-IsValid_example = erase-IsValid three 3 1 three-IsValid refl

-- The kept positions give the keys, and only the first item is the top.
get_key-three :
    (get_key three 2 ≡ some 4)
    × (get_key three 8 ≡ none)
    × (top_key three ≡ 1)
    × (is_top three 7 ≡ true)
    × (is_top three 3 ≡ false)
unfolding get_key
get_key-three = (refl, refl, refl, refl, refl)
