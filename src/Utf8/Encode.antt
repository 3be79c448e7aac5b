-- ===== src/Utf8/Encode.antt =====
-- utf8.cpp: characters that are appended are read back, pass the check, and are counted.
use pxc_core.Prelude.{
  ℕ, ◌+◌, ◌*◌, ◌/◌, ◌%◌, ◌≤◌, ◌<◌, ◌≡◌, refl, sym, ap, ◌∙◌, ◌⊎◌, true, some, List, [], ◌∷◌, ◌++◌,
  arith,
}
use mathlib.Core.List.{append_assoc}
use native.Mathlib.Decide.{dec_lt}
use pxc_core.Utf8.{append_character, next, check_from, check_utf8}
use pxc_core.Utf8.Rounds.{
  check_one, check_two, check_three, check_four, tail_continues, Lead-two, Lead-three, Lead-four,
  two_ok_lem, three_ok_lem, four_ok_lem,
}

-- A Unicode scalar value: in range, and no surrogate.
pub record IsScalar (code : ℕ) : Type 0 where
  pub small : code < 0x110000
  pub outside : (code < 0xd800) ⊎ (0xe000 ≤ code)

abbrev pub AllScalar : List ℕ → Type 0
AllScalar [] = Unit
AllScalar (c ∷ cs) = IsScalar c × AllScalar cs

-- The text of some characters.
unfoldable pub text : List ℕ → List ℕ
text [] = []
text (c ∷ cs) = append_character c ++ text cs

-- The lengths of an encoding, by the size of the code.
pub data Size (code : ℕ) : Type 0 where
  one : code ≤ 0x7f → append_character code ≡ code ∷ [] → Size code
  two :
      0x7f < code
      → code ≤ 0x7ff
      → append_character code ≡ (192 + code / 64) ∷ (128 + code % 64) ∷ []
      → Size code
  three :
      0x7ff < code
      → code ≤ 0xffff
      → append_character code
        ≡ (224 + code / 4096) ∷ (128 + code / 64 % 64) ∷ (128 + code % 64) ∷ []
      → Size code
  four :
      0xffff < code
      → append_character code
        ≡ (240 + code / 262144)
          ∷ (128 + code / 4096 % 64)
          ∷ (128 + code / 64 % 64)
          ∷ (128 + code % 64)
          ∷ []
      → Size code

pub Size-of : (code : ℕ) → code < 0x200000 → Size code
unfolding append_character
Size-of code h = elim (dec_lt 0x7f code) [
  | no a ↦ one (omega arith) (ground arith)
  | yes a ↦ elim (dec_lt 0x7ff code) [
    | no b ↦ two a (omega arith) (ground arith)
    | yes b ↦ elim (dec_lt 0xffff code) [
      | no c ↦ three b (omega arith) (ground arith)
      | yes c ↦ four c (ground arith)
    ]
  ]
]

check-append :
    (code r : ℕ) (rest : List ℕ)
    → IsScalar code
    → Size code
    → check_from (append_character code ++ (r ∷ rest)) ≡ check_from (r ∷ rest)
check-append code r rest v (one h e) = rw e (check_one code r rest (omega arith))
check-append code r rest v (two h k e) = rw e (
    check_two (192 + code / 64) (128 + code % 64) r rest
      (Lead-two (code / 64) (omega arith) (omega arith)) (tail_continues (code % 64) (omega arith))
      (two_ok_lem (code / 64) (omega arith) (omega arith)))
check-append code r rest v (three h k e) = rw e (
    check_three (224 + code / 4096) (128 + code / 64 % 64) (128 + code % 64) r rest
      (Lead-three (code / 4096) (omega arith)) (ground arith)
      (tail_continues (code / 64 % 64) (omega arith)) (tail_continues (code % 64) (omega arith))
      (three_ok_lem (code / 4096) (code / 64 % 64) (omega arith) (omega arith) (omega arith)
        (λ z. omega (arith, v.outside))))
check-append code r rest v (four h e) = rw e (
    check_four (240 + code / 262144) (128 + code / 4096 % 64) (128 + code / 64 % 64)
      (128 + code % 64) (r ∷ rest) (Lead-four (code / 262144) (omega (arith, v.small)))
      (ground (arith, v.small)) (ground (arith, v.small))
      (tail_continues (code / 4096 % 64) (omega arith))
      (tail_continues (code / 64 % 64) (omega arith)) (tail_continues (code % 64) (omega arith))
      (four_ok_lem (code / 262144) (code / 4096 % 64) (omega (arith, v.small)) (omega arith)
        (omega arith) (omega (arith, v.small))))

-- A text that is followed by a byte begins with one.
starts : (xs : List ℕ) → (r : ℕ) × (rest : List ℕ) × (xs ++ 0 ∷ [] ≡ r ∷ rest)
starts [] = (0, [], refl)
starts (x ∷ xs) = (x, xs ++ 0 ∷ [], refl)

check_from-text : (cs : List ℕ) → AllScalar cs → check_from (text cs ++ 0 ∷ []) ≡ some true
unfolding text check_from
check_from-text [] h = refl
check_from-text (c ∷ cs) h =
    let (r, rest, e) = starts (text cs) in
    ap check_from (append_assoc (append_character c) (text cs) (0 ∷ []))
    ∙ ap (λ l. check_from (append_character c ++ l)) e
    ∙ check-append c r rest h.0 (Size-of c (omega (arith, h.0.small)))
    ∙ ap check_from (sym e)
    ∙ check_from-text cs h.1

-- Every text that is made by appending Unicode scalar values is accepted by `check_utf8`.
pub check_utf8-text : (cs : List ℕ) → AllScalar cs → check_utf8 (text cs) ≡ some true
unfolding check_utf8
check_utf8-text cs h = check_from-text cs h

next_one : (a : ℕ) (rest : List ℕ) → a < 128 → next (a ∷ rest) ≡ some (a, rest)
unfolding next
next_one a [] h = ground arith
next_one a (b ∷ []) h = ground arith
next_one a (b ∷ c ∷ []) h = ground arith
next_one a (b ∷ c ∷ d ∷ rest) h = ground arith

next_two :
    (x y : ℕ) (rest : List ℕ)
    → x < 32
    → y < 64
    → next ((192 + x) ∷ (128 + y) ∷ rest) ≡ some (x * 64 + y, rest)
unfolding next
next_two x y [] h k = ground arith
next_two x y (c ∷ []) h k = ground arith
next_two x y (c ∷ d ∷ rest) h k = ground arith

next_three :
    (x y z : ℕ) (rest : List ℕ)
    → x < 16
    → y < 64
    → z < 64
    → next ((224 + x) ∷ (128 + y) ∷ (128 + z) ∷ rest) ≡ some (x * 4096 + y * 64 + z, rest)
unfolding next
next_three x y z [] h k l = ground arith
next_three x y z (d ∷ rest) h k l = ground arith

next_four :
    (x y z w : ℕ) (rest : List ℕ)
    → x < 8
    → y < 64
    → z < 64
    → w < 64
    → next ((240 + x) ∷ (128 + y) ∷ (128 + z) ∷ (128 + w) ∷ rest)
      ≡ some (x * 262144 + y * 4096 + z * 64 + w, rest)
unfolding next
next_four x y z w rest h k l m = ground arith

next_sized :
    (code : ℕ) (rest : List ℕ)
    → code < 0x200000
    → Size code
    → next (append_character code ++ rest) ≡ some (code, rest)
next_sized code rest small (one h e) = rw e (next_one code rest (omega arith))
next_sized code rest small (two h k e) = rw e (
    next_two (code / 64) (code % 64) rest (omega arith) (omega arith)
    ∙ ap (λ n. some (n, rest)) (omega arith))
next_sized code rest small (three h k e) = rw e (
    next_three (code / 4096) (code / 64 % 64) (code % 64) rest (omega arith) (omega arith)
      (omega arith)
    ∙ ap (λ n. some (n, rest)) (omega arith))
next_sized code rest small (four h e) = rw e (
    next_four (code / 262144) (code / 4096 % 64) (code / 64 % 64) (code % 64) rest (omega arith)
      (omega arith) (omega arith) (omega arith)
    ∙ ap (λ n. some (n, rest)) (omega arith))

-- `next_utf8_unsafe` reads back the character that `append_utf8_character` wrote, and stands behind
-- it, for every code of up to 21 bits.
pub next-append_character :
    (code : ℕ) (rest : List ℕ)
    → code < 0x200000
    → next (append_character code ++ rest) ≡ some (code, rest)
next-append_character code rest h = next_sized code rest h (Size-of code h)
