-- ===== src/VectorQueue/Tests.antt =====
-- Runs of VectorQueue.h, and its theorems at concrete queues.
use pxc_core.Prelude.{ℕ, ◌%◌, ◌≡◌, refl, true, some, [], ◌∷◌, arith, get_elem?, drop}
use pxc_core.VectorQueue.{VectorQueue, pop, pop_n, front, back, size, empty, as_span, pop_rand}
use pxc_core.VectorQueue.Refine.{pushes, pops, run, fifo, run-fifo}
use pxc_core.VectorQueue.Random.{pop_rand_consumed}

-- Seven slots, the first of which was consumed.
abbrev used : VectorQueue ℕ
used = record { vector = 10 ∷ 11 ∷ 12 ∷ 13 ∷ 14 ∷ 15 ∷ 16 ∷ []; read_pos = 1 }

abbrev fresh : VectorQueue ℕ
fresh = record { vector = 10 ∷ 11 ∷ 12 ∷ []; read_pos = 0 }

-- One live element behind a consumed slot.
abbrev single : VectorQueue ℕ
single = record { vector = 10 ∷ 11 ∷ []; read_pos = 1 }

used_reads : (front used ≡ some 11) × (back used ≡ some 16) × (size used ≡ 6)
unfolding front back size
used_reads = (refl, refl, refl)

-- Five elements go, and the sixth call releases the prefix.
used_shrinks : pop_n used 5 ≡ record { vector = 16 ∷ []; read_pos = 0 }
unfolding pop_n
used_shrinks = refl

single_rand : (q : VectorQueue ℕ) × (pop_rand single 0 ≡ some (10, q)) × (empty q ≡ true)
unfolding pop_rand pop size empty
single_rand = (record { vector = 11 ∷ 10 ∷ []; read_pos = 2 }, refl, refl)

run-fifo_example :
    run used (pops ∷ pushes 5 ∷ pops ∷ []) ≡ fifo (as_span used) (pops ∷ pushes 5 ∷ pops ∷ [])
run-fifo_example = run-fifo used (pops ∷ pushes 5 ∷ pops ∷ []) (omega arith)

pop_rand_consumed_example :
    (x : ℕ) × (q' : VectorQueue ℕ) × (pop_rand single 7 ≡ some (x, q'))
    × (get_elem? single.vector (7 % size single) ≡ some x)
    × (as_span q' ≡ drop 1 (as_span single))
pop_rand_consumed_example =
    pop_rand_consumed single 7 (omega arith) (unfold size in (omega arith))
      (unfold size in (omega arith))
