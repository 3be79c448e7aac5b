-- ===== src/Misc/Hex.antt =====
-- misc.cpp: hexadecimal text is decoded to the bytes that it encodes.
use pxc_core.Prelude.{
  ℕ, ◌+◌, ◌*◌, ◌/◌, ◌%◌, ◌<◌, ◌==◌, ◌≡◌, refl, ap, ◌∙◌, true, false, List, [], ◌∷◌, length, arith,
  ok, all_below, all_below→, ==_iff,
}
use pxc_core.Misc.{hex_to_int, hex_decode_pairs, hex_decode, hex_encode, lower_digit, upper_digit}

lower_table : all_below 16 (λ n. hex_to_int (lower_digit n) == n) ≡ true
unfolding hex_to_int all_below
lower_table = refl

upper_table : all_below 16 (λ n. hex_to_int (upper_digit n) == n) ≡ true
unfolding hex_to_int all_below
upper_table = refl

pub hex_to_int-lower_digit : (n : ℕ) → n < 16 → hex_to_int (lower_digit n) ≡ n
hex_to_int-lower_digit n h = (==_iff _ n).0 (all_below→ 16 _ n lower_table h)

pub hex_to_int-upper_digit : (n : ℕ) → n < 16 → hex_to_int (upper_digit n) ≡ n
hex_to_int-upper_digit n h = (==_iff _ n).0 (all_below→ 16 _ n upper_table h)

-- Every element is a byte.
abbrev pub Bytes : List ℕ → Type 0
Bytes [] = Unit
Bytes (x ∷ xs) = (x < 256) × Bytes xs

length-hex_encode : (s : List ℕ) → length (hex_encode s) ≡ 2 * length s
unfolding hex_encode
length-hex_encode [] = omega arith
length-hex_encode (c ∷ s) = omega (arith, length-hex_encode s)

hex_decode_pairs-cons :
    (h l : ℕ) (hex bytes : List ℕ)
    → hex_to_int h < 16
    → hex_to_int l < 16
    → hex_decode_pairs hex ≡ ok bytes
    → hex_decode_pairs (h ∷ l ∷ hex) ≡ ok ((hex_to_int h * 16 + hex_to_int l) ∷ bytes)
unfolding hex_decode_pairs
hex_decode_pairs-cons h l hex bytes a b e =
    let p : (hex_to_int h == 16) ≡ false = ground arith in
    let q : (hex_to_int l == 16) ≡ false = ground arith in rw (e, p, q) refl

hex_decode_pairs-hex_encode : (s : List ℕ) → Bytes s → hex_decode_pairs (hex_encode s) ≡ ok s
unfolding hex_encode
hex_decode_pairs-hex_encode [] h = unfold hex_decode_pairs in refl
hex_decode_pairs-hex_encode (c ∷ s) h =
    let small : c < 256 = h.0 in
    let e : hex_to_int (lower_digit (c / 16)) ≡ c / 16 =
      hex_to_int-lower_digit (c / 16) (omega arith) in
    let f : hex_to_int (lower_digit (c % 16)) ≡ c % 16 =
      hex_to_int-lower_digit (c % 16) (omega arith) in
    hex_decode_pairs-cons (lower_digit (c / 16)) (lower_digit (c % 16)) (hex_encode s) s
      (omega arith) (omega arith) (hex_decode_pairs-hex_encode s h.1)
    ∙ ap (λ (n : ℕ). ok (n ∷ s)) (omega (arith, e, f))

-- `hex_decode` of the `hex_encode` of any bytes is these bytes.
pub hex_decode-hex_encode : (s : List ℕ) → Bytes s → hex_decode (hex_encode s) ≡ ok s
unfolding hex_decode
hex_decode-hex_encode s h =
    let even : (length (hex_encode s) % 2 == 0) ≡ true = ground (arith, length-hex_encode s) in
    rw even (hex_decode_pairs-hex_encode s h)
