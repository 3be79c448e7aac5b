-- ===== src/Utf8/Bounds.antt =====
-- `check_utf8` of utf8.cpp reads no byte behind the 0 that ends the string.
use pxc_core.Prelude.{
  ℕ, ◌/◌, ◌%◌, ◌==◌, ◌≢◌, if◌then◌else◌, Bool, true, false, not, Option, none, some, List, [], ◌∷◌,
  ◌++◌,
}
use pxc_core.Utf8.{continues, two_ok, three_ok, four_ok, check_from, check_utf8}

-- A conditional has an answer when both branches have one.
either : {x y : Option Bool} (b : Bool) → x ≢ none → y ≢ none → (if b then x else y) ≢ none
either true h k = h
either false h k = k

answer : (b : Bool) → some b ≢ none
answer b e = cc e

-- The tests of the rounds, in the order of the source; each branch has an answer.
check_from_ends : (xs : List ℕ) → check_from (xs ++ 0 ∷ []) ≢ none
unfolding check_from
check_from_ends [] = answer true
check_from_ends (a ∷ []) =
    either (a / 128 == 0) (answer true) (either (a / 64 % 2 == 0) (answer false) (answer false))
check_from_ends (a ∷ b ∷ []) = either (a / 128 == 0) (check_from_ends (b ∷ [])) (
    either (a / 64 % 2 == 0) (answer false) (
      either (not (continues b)) (answer false)
        (either (a / 32 % 2 == 0) (either (two_ok a) (answer true) (answer false)) (answer false))))
check_from_ends (a ∷ b ∷ c ∷ []) = either (a / 128 == 0) (check_from_ends (b ∷ c ∷ [])) (
    either (a / 64 % 2 == 0) (answer false) (
      either (not (continues b)) (answer false) (
        either (a / 32 % 2 == 0) (either (two_ok a) (check_from_ends (c ∷ [])) (answer false)) (
          either (not (continues c)) (answer false) (
            either (a / 16 % 2 == 0) (either (three_ok a b) (answer true) (answer false))
              (answer false))))))
check_from_ends (a ∷ b ∷ c ∷ d ∷ rest) =
    either (a / 128 == 0) (check_from_ends (b ∷ c ∷ d ∷ rest)) (
      either (a / 64 % 2 == 0) (answer false) (
        either (not (continues b)) (answer false) (
          either (a / 32 % 2 == 0)
            (either (two_ok a) (check_from_ends (c ∷ d ∷ rest)) (answer false))
            (either (not (continues c)) (answer false) (
              either (a / 16 % 2 == 0)
                (either (three_ok a b) (check_from_ends (d ∷ rest)) (answer false))
                (either (not (continues d)) (answer false) (
                  either (a / 8 % 2 == 0)
                    (either (four_ok a b) (check_from_ends rest) (answer false))
                    (answer false))))))))

-- Whatever the bytes of the string, `check_utf8` returns an answer and reads none behind the 0.
pub check_utf8-ne-none : (xs : List ℕ) → check_utf8 xs ≢ none
unfolding check_utf8
check_utf8-ne-none xs = check_from_ends xs
