-- ===== src/Utf8/Rounds.antt =====
-- The rounds of `check_utf8` in utf8.cpp, by the number of bytes that the first one announces.
use pxc_core.Prelude.{
  ℕ, ◌+◌, ◌*◌, ◌/◌, ◌%◌, ◌<◌, ◌==◌, ◌≡◌, ◌≢◌, Bool, true, false, not, List, [], ◌∷◌, arith,
}
use pxc_core.Utf8.{continues, two_ok, three_ok, four_ok, check_from}

pub check_one :
    (a r : ℕ) (rest : List ℕ) → a < 128 → check_from (a ∷ r ∷ rest) ≡ check_from (r ∷ rest)
unfolding check_from
check_one a r [] h = ground arith
check_one a r (s ∷ []) h = ground arith
check_one a r (s ∷ t ∷ rest) h = ground arith

-- What the first byte says: more than one byte, and whether there are more than two and three.
pub record Lead (a : ℕ) (more_than_two : Bool) : Type 0 where
  pub high : (a / 128 == 0) ≡ false
  pub second : (a / 64 % 2 == 0) ≡ false
  pub third : (a / 32 % 2 == 0) ≡ not more_than_two

pub check_two :
    (a b r : ℕ) (rest : List ℕ)
    → Lead a false
    → continues b ≡ true
    → two_ok a ≡ true
    → check_from (a ∷ b ∷ r ∷ rest) ≡ check_from (r ∷ rest)
unfolding check_from
check_two a b r [] l cb e = rw (l.high, l.second, cb, l.third, e)
check_two a b r (s ∷ rest) l cb e = rw (l.high, l.second, cb, l.third, e)

pub check_three :
    (a b c r : ℕ) (rest : List ℕ)
    → Lead a true
    → (a / 16 % 2 == 0) ≡ true
    → continues b ≡ true
    → continues c ≡ true
    → three_ok a b ≡ true
    → check_from (a ∷ b ∷ c ∷ r ∷ rest) ≡ check_from (r ∷ rest)
unfolding check_from
check_three a b c r rest l l4 cb cc_ e = rw (l.high, l.second, cb, l.third, cc_, l4, e)

pub check_four :
    (a b c d : ℕ) (rest : List ℕ)
    → Lead a true
    → (a / 16 % 2 == 0) ≡ false
    → (a / 8 % 2 == 0) ≡ true
    → continues b ≡ true
    → continues c ≡ true
    → continues d ≡ true
    → four_ok a b ≡ true
    → check_from (a ∷ b ∷ c ∷ d ∷ rest) ≡ check_from rest
unfolding check_from
check_four a b c d rest l l4 la cb cc_ cd e = rw (l.high, l.second, cb, l.third, cc_, l4, cd, la, e)

pub tail_continues : (x : ℕ) → x < 64 → continues (128 + x) ≡ true
tail_continues x h = ground arith

pub Lead-two : (x : ℕ) → 1 < x → x < 32 → Lead (192 + x) false
Lead-two x h k = record { high = ground arith; second = ground arith; third = ground arith }

pub Lead-three : (x : ℕ) → x < 16 → Lead (224 + x) true
Lead-three x h = record { high = ground arith; second = ground arith; third = ground arith }

pub Lead-four : (x : ℕ) → x < 8 → Lead (240 + x) true
Lead-four x h = record { high = ground arith; second = ground arith; third = ground arith }

pub two_ok_lem : (x : ℕ) → 1 < x → x < 32 → two_ok (192 + x) ≡ true
unfolding two_ok
two_ok_lem x h k = ground arith

pub three_ok_lem :
    (x y : ℕ)
    → x < 16
    → y < 64
    → 0 < x * 2 + y / 32
    → x * 2 + y / 32 ≢ 27
    → three_ok (224 + x) (128 + y) ≡ true
unfolding three_ok
three_ok_lem x y h k p n = ground arith

pub four_ok_lem :
    (x y : ℕ)
    → x < 8
    → y < 64
    → 0 < x * 4 + y / 16
    → x * 4 + y / 16 < 17
    → four_ok (240 + x) (128 + y) ≡ true
unfolding four_ok
four_ok_lem x y h k p n = ground arith
