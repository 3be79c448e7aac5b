-- ===== src/Misc/Url.antt =====
-- misc.cpp: URL-encoded text is decoded to the bytes that it encodes.
use pxc_core.Prelude.{
  ℕ, ◌+◌, ◌-◌, ◌*◌, ◌/◌, ◌%◌, ◌<◌, ◌==◌, ◌≡◌, refl, ap, ◌∙◌, Bool, true, false, some, List, [], ◌∷◌,
  length, arith, Bool-cases, inl, inr, ◌≤◌,
}
use pxc_core.Misc.{
  is_url_char, url_chars, url_escape, url_encode, url_plain, url_decode, upper_digit,
}
use pxc_core.Misc.Hex.{Bytes, hex_to_int-upper_digit}

url_chars-le : (s : List ℕ) → url_chars s ≤ length s
unfolding url_chars
url_chars-le [] = omega arith
url_chars-le (c ∷ s) = ground (arith, url_chars-le s)

length-url_escape : (s : List ℕ) → length (url_escape s) + 2 * url_chars s ≡ 3 * length s
unfolding url_chars url_escape
length-url_escape [] = omega arith
length-url_escape (c ∷ s) = elim (Bool-cases (is_url_char c)) [
  | inl e ↦ rw e (omega (arith, length-url_escape s))
  | inr e ↦ rw e (omega (arith, length-url_escape s))
]

-- A text without an escape is itself.
url_escape-plain : (s : List ℕ) → url_chars s ≡ length s → url_escape s ≡ s
unfolding url_chars url_escape
url_escape-plain [] h = refl
url_escape-plain (c ∷ s) h = elim (Bool-cases (is_url_char c)) [
  | inl e ↦ rw e (ap (λ l. c ∷ l) (url_escape-plain s (ground (arith, e))))
  | inr e ↦ absurd (ground (arith, e, url_chars-le s))
]

-- The CHECK holds: the two branches of `url_encode` give the escaped text.
url_encode_lem : (s : List ℕ) → url_encode s ≡ some (url_escape s)
unfolding url_encode
url_encode_lem s = elim (Bool-cases (3 * length s - 2 * url_chars s == length s)) [
  | inl e ↦ rw (e, url_encode) (rw (url_escape-plain s (ground (arith, e, url_chars-le s))) refl)
  | inr e ↦
      let t : (length (url_escape s) == 3 * length s - 2 * url_chars s) ≡ true =
        ground (arith, length-url_escape s) in
      rw (e, t, url_encode) refl
]

is_url_char-plain : (c : ℕ) → is_url_char c ≡ true → ((c == b'%') ≡ false) × ((c == b'+') ≡ false)
unfolding is_url_char
is_url_char-plain c h = ground arith

-- A character that stands for itself.
url_decode-plain :
    (p : Bool) (c : ℕ) (s : List ℕ)
    → is_url_char c ≡ true
    → url_decode p (c ∷ s) ≡ c ∷ url_decode p s
unfolding url_decode url_plain
url_decode-plain p c [] h = ground (arith, is_url_char-plain c h)
url_decode-plain p c (a ∷ []) h = ground (arith, is_url_char-plain c h)
url_decode-plain p c (a ∷ b ∷ s) h = ground (arith, is_url_char-plain c h)

url_decode-escape :
    (p : Bool) (c : ℕ) (s : List ℕ)
    → c < 256
    → url_decode p (b'%' ∷ upper_digit (c / 16) ∷ upper_digit (c % 16) ∷ s) ≡ c ∷ url_decode p s
unfolding url_decode
url_decode-escape p c s h =
    rw
      (hex_to_int-upper_digit (c / 16) (omega arith), hex_to_int-upper_digit (c % 16) (omega arith))
      (ground arith)

url_decode-url_escape : (p : Bool) (s : List ℕ) → Bytes s → url_decode p (url_escape s) ≡ s
unfolding url_escape
url_decode-url_escape p [] h = unfold url_decode in refl
url_decode-url_escape p (c ∷ s) h = elim (Bool-cases (is_url_char c)) [
  | inl e ↦
      rw e (url_decode-plain p c (url_escape s) e ∙ ap (λ l. c ∷ l) (url_decode-url_escape p s h.1))
  | inr e ↦
      rw e
        (url_decode-escape p c (url_escape s) h.0 ∙ ap (λ l. c ∷ l) (url_decode-url_escape p s h.1))
]

-- `url_encode` of any bytes gives a text, its CHECK of the length holds, and `url_decode` gives
-- the bytes back, whether it takes a plus for a space or not.
pub url_decode-url_encode :
    (p : Bool) (s : List ℕ)
    → Bytes s
    → (e : List ℕ) × (url_encode s ≡ some e) × (url_decode p e ≡ s)
url_decode-url_encode p s h = (url_escape s, url_encode_lem s, url_decode-url_escape p s h)
