-- ===== src/Utf8/Count.antt =====
-- `utf8_length` and `utf8_utf16_length` of utf8.h and utf8.cpp count what a text was made of.
use pxc_core.Prelude.{
  ℕ, ◌+◌, ◌/◌, ◌%◌, ◌≤◌, ◌<◌, ltb, ◌==◌, ◌≡◌, refl, ◌⊎◌, inl, inr, true, false, if◌then◌else◌, List,
  [], ◌∷◌, ◌++◌, arith, length,
}
use pxc_core.Utf8.{is_first, utf8_length, utf16_length, append_character}
use pxc_core.Utf8.Encode.{IsScalar, AllScalar, text, Size, one, two, three, four, Size-of}

-- The UTF-16 code units of the characters: two for those above 0xffff.
pub units : List ℕ → ℕ
units [] = 0
units (c ∷ cs) = (if ltb 0xffff c then 2 else 1) + units cs

utf8_length-append : (xs ys : List ℕ) → utf8_length (xs ++ ys) ≡ utf8_length xs + utf8_length ys
unfolding utf8_length
utf8_length-append [] ys = omega arith
utf8_length-append (x ∷ xs) ys = omega (arith, utf8_length-append xs ys)

utf16_length-append : (xs ys : List ℕ) → utf16_length (xs ++ ys) ≡ utf16_length xs + utf16_length ys
unfolding utf16_length
utf16_length-append [] ys = omega arith
utf16_length-append (x ∷ xs) ys = omega (arith, utf16_length-append xs ys)

-- How a byte of an encoding counts.
lead_counts :
    (x : ℕ) → x < 0xf0 → (x < 128) ⊎ (192 ≤ x) → (is_first x ≡ true) × ((x / 8 == 30) ≡ false)
unfolding is_first
lead_counts x h k = ground arith

tail_counts : (x : ℕ) → x < 64 → (is_first (128 + x) ≡ false) × (((128 + x) / 8 == 30) ≡ false)
unfolding is_first
tail_counts x h = ground arith

four_counts : (x : ℕ) → x < 8 → (is_first (240 + x) ≡ true) × (((240 + x) / 8 == 30) ≡ true)
unfolding is_first
four_counts x h = ground arith

abbrev Counted : ℕ → Type 0
Counted code =
    (utf8_length (append_character code) ≡ 1)
    × (utf16_length (append_character code) ≡ (if ltb 0xffff code then 2 else 1))

counts : (code : ℕ) → IsScalar code → Size code → Counted code
unfolding utf8_length utf16_length
counts code v (one h e) =
    let a = lead_counts code (omega arith) (inl (omega arith)) in
    rw e (ground (arith, a), ground (arith, a))
counts code v (two h k e) =
    let a = lead_counts (192 + code / 64) (omega arith) (inr (omega arith)) in
    let b = tail_counts (code % 64) (omega arith) in
    rw e (ground (arith, a, b), ground (arith, a, b))
counts code v (three h k e) =
    let a = lead_counts (224 + code / 4096) (omega arith) (inr (omega arith)) in
    let b = tail_counts (code / 64 % 64) (omega arith) in
    let c = tail_counts (code % 64) (omega arith) in
    rw e (ground (arith, a, b, c), ground (arith, a, b, c))
counts code v (four h e) =
    let a = four_counts (code / 262144) (omega (arith, v.small)) in
    let b = tail_counts (code / 4096 % 64) (omega arith) in
    let c = tail_counts (code / 64 % 64) (omega arith) in
    let d = tail_counts (code % 64) (omega arith) in
    rw e (ground (arith, a, b, c, d), ground (arith, a, b, c, d))

-- `utf8_length` of a text of Unicode scalar values is their number, and `utf8_utf16_length` the
-- number of UTF-16 code units that they take.
pub utf8_length-text :
    (cs : List ℕ)
    → AllScalar cs
    → (utf8_length (text cs) ≡ length cs) × (utf16_length (text cs) ≡ units cs)
unfolding text units
utf8_length-text [] h = (unfold utf8_length in refl, unfold utf16_length in refl)
utf8_length-text (c ∷ cs) h =
    let (a, b) = counts c h.0 (Size-of c (omega (arith, h.0.small))) in
    let (d, e) = utf8_length-text cs h.1 in
    (
      omega (arith, utf8_length-append (append_character c) (text cs), a, d),
      omega (arith, utf16_length-append (append_character c) (text cs), b, e),
    )
