-- ===== src/Changes/Tests.antt =====
-- ChangesProcessor.h: runs, and the theorems on them.
use pxc_core.Prelude.{ℕ, ◌+◌, ◌-◌, ◌≡◌, refl, true, false, [], ◌∷◌, arith}
use pxc_core.Changes.{ChangesProcessor, hand_over, mark, try_compactify, finish}
use pxc_core.Changes.Refine.{IsValid, Outcome, waiting, finish-waiting}

-- One change was handed over, the second is not finished, the third is.
abbrev sample : ChangesProcessor ℕ
sample = record {
  offset = 1;
  ready_i = 1;
  data_array = (7, true) ∷ (8, false) ∷ (9, true) ∷ (10, false) ∷ [];
}

sample-IsValid : IsValid sample
sample-IsValid = record { settled = refl; ready = omega arith; small = omega arith }

finish-sample : (finish sample 2).0 ≡ 8 ∷ 9 ∷ []
unfolding finish hand_over mark try_compactify
finish-sample = refl

finish-waiting_example : Outcome sample (mark (waiting sample) (2 - (1 + 1))) (finish sample 2)
finish-waiting_example = finish-waiting sample 2 sample-IsValid (omega arith) (omega arith)
