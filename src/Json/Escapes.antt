-- ===== src/Json/Escapes.antt =====
-- JsonBuilder.cpp: the strings that are written are read back.
use pxc_core.Prelude.{
  ℕ, zero, suc, ◌+◌, ◌*◌, ◌/◌, ◌%◌, ◌≤◌, ◌<◌, ◌==◌, ltb, leb, ◌≡◌, refl, ap, ◌∙◌, true, false, some,
  List, [], ◌∷◌, ◌++◌, length, length-append, ok, arith, Bool-cases, inl, inr,
}
use mathlib.Core.List.{append_assoc}
use pxc_core.Utf8.{append_character}
use pxc_core.Misc.{hex_to_int, lower_digit}
use pxc_core.Misc.Hex.{hex_to_int-lower_digit}
use pxc_core.Json.Strings.{
  Round, wrote, read_hex, starts_escape, is_surrogate, join_surrogates, decode_pair, decode_unicode,
  decode_escape, decode_round, decode_loop, json_string_decode, unescape, write_one_char,
  write_ascii, write_raw, write_raw_string,
}

-- The four digits of `JsonOneChar`.
abbrev pub digits : ℕ → List ℕ → List ℕ
digits c rest =
    lower_digit (c / 4096)
    ∷ lower_digit (c / 256 % 16)
    ∷ lower_digit (c / 16 % 16)
    ∷ lower_digit (c % 16)
    ∷ rest

read_digit :
    (n num d : ℕ) (s : List ℕ)
    → d < 16
    → read_hex (suc n) num (lower_digit d ∷ s) ≡ read_hex n (num * 16 + d) s
unfolding read_hex
read_digit n num d s h =
    let e : hex_to_int (lower_digit d) ≡ d = hex_to_int-lower_digit d h in
    let t : (d == 16) ≡ false = ground arith in rw (e, t) refl

read_hex-digits : (c : ℕ) (s : List ℕ) → c < 65536 → read_hex 4 0 (digits c s) ≡ some (c, s)
read_hex-digits c s h =
    read_digit 3 0 (c / 4096) _ (omega arith)
    ∙ read_digit 2 (0 * 16 + c / 4096) (c / 256 % 16) _ (omega arith)
    ∙ read_digit 1 ((0 * 16 + c / 4096) * 16 + c / 256 % 16) (c / 16 % 16) _ (omega arith)
    ∙ read_digit 0 (((0 * 16 + c / 4096) * 16 + c / 256 % 16) * 16 + c / 16 % 16) (c % 16) _
        (omega arith)
    ∙ unfold read_hex in (ap (λ (n : ℕ). some (n, s)) (omega arith))

decode_unicode-digits :
    (c : ℕ) (s : List ℕ)
    → c < 65536
    → is_surrogate c ≡ false
    → decode_unicode (digits c s) ≡ wrote (append_character c) s
unfolding decode_unicode
decode_unicode-digits c s h plain =
    let t : (ltb (length (digits c s)) 4) ≡ false = ground arith in
    rw (t, read_hex-digits c s h, plain, decode_unicode) refl

decode_unicode-pair :
    (c : ℕ) (s : List ℕ)
    → 65536 ≤ c
    → c < 0x110000
    → decode_unicode (digits (0xD7C0 + c / 1024) (b'\\' ∷ b'u' ∷ digits (0xDC00 + c % 1024) s))
      ≡ wrote (append_character c) s
unfolding decode_unicode decode_pair starts_escape
decode_unicode-pair c s lo hi =
    let a : ℕ = 0xD7C0 + c / 1024 in
    let b : ℕ = 0xDC00 + c % 1024 in
    let more : List ℕ = b'\\' ∷ b'u' ∷ digits b s in
    let t : (ltb (length (digits a more)) 4) ≡ false = ground arith in
    let high : (is_surrogate a) ≡ true = ground arith in
    let low : (is_surrogate b) ≡ true = ground arith in
    let first : starts_escape more ≡ true = ground arith in
    let whole : join_surrogates a b ≡ c = omega arith in
    rw (t, read_hex-digits a more (omega arith), high, decode_unicode)
      (rw (decode_pair, first, read_hex-digits b s (omega arith), low) (rw whole refl))

-- The escape of a character that is no surrogate.
pub decode-write_one_char :
    (c : ℕ) (s : List ℕ)
    → c < 65536
    → is_surrogate c ≡ false
    → decode_round (write_one_char c ++ s) ≡ wrote (append_character c) s
unfolding write_one_char decode_round
decode-write_one_char c s h plain = decode_unicode-digits c s h plain

-- The escapes of the two surrogates of a character.
pub decode_round-pair :
    (c : ℕ) (s : List ℕ)
    → 65536 ≤ c
    → c < 0x110000
    → decode_round ((write_one_char (0xD7C0 + c / 1024) ++ write_one_char (0xDC00 + c % 1024)) ++ s)
      ≡ wrote (append_character c) s
unfolding write_one_char decode_round
decode_round-pair c s lo hi = decode_unicode-pair c s lo hi

-- A character that is written by itself, or by the escape of its own.
decode_simple :
    (c : ℕ) (s : List ℕ)
    → (c == b'"') ≡ false
    → (c == b'\\') ≡ false
    → decode_round (c ∷ s) ≡ wrote (c ∷ []) s
unfolding decode_round
decode_simple c s p q = rw (p, q) refl

decode_special :
    (c : ℕ) (s : List ℕ)
    → (c == b'u') ≡ false
    → decode_round (b'\\' ∷ c ∷ s) ≡ wrote (unescape c ∷ []) s
unfolding decode_round decode_escape
decode_special c s p = rw p refl

special : {c d : ℕ} {r : Round} {s : List ℕ} → d ≡ c → r ≡ wrote (d ∷ []) s → r ≡ wrote (c ∷ []) s
special {s} e h = h ∙ ap (λ n. wrote (n ∷ []) s) e

pub append_character-ascii : (c : ℕ) → c < 128 → append_character c ≡ c ∷ []
unfolding append_character
append_character-ascii c h = ground arith

pub decode-write_ascii : (c : ℕ) (s : List ℕ) → decode_round (write_ascii c ++ s) ≡ wrote (c ∷ []) s
unfolding write_ascii unescape
decode-write_ascii c s = elim (Bool-cases (c == b'"')) [
  | inl e ↦ rw e (special (ground (arith, e)) (decode_special b'"' s refl))
  | inr quote ↦ rw quote (elim (Bool-cases (c == b'\\')) [
    | inl e ↦ rw e (special (ground (arith, e)) (decode_special b'\\' s refl))
    | inr slash ↦ rw slash (elim (Bool-cases (c == 8)) [
      | inl e ↦ rw e (special (ground (arith, e)) (decode_special b'b' s refl))
      | inr e ↦ rw e (elim (Bool-cases (c == 12)) [
        | inl e ↦ rw e (special (ground (arith, e)) (decode_special b'f' s refl))
        | inr e ↦ rw e (elim (Bool-cases (c == 10)) [
          | inl e ↦ rw e (special (ground (arith, e)) (decode_special b'n' s refl))
          | inr e ↦ rw e (elim (Bool-cases (c == 13)) [
            | inl e ↦ rw e (special (ground (arith, e)) (decode_special b'r' s refl))
            | inr e ↦ rw e (elim (Bool-cases (c == 9)) [
              | inl e ↦ rw e (special (ground (arith, e)) (decode_special b't' s refl))
              | inr e ↦ rw e (elim (Bool-cases (leb c 31)) [
                | inr e ↦ rw e (decode_simple c s quote slash)
                | inl e ↦ rw e (
                    decode-write_one_char c s (ground (arith, e)) (ground (arith, e))
                    ∙ ap (λ l. wrote l s) (append_character-ascii c (ground (arith, e))))
              ])
            ])
          ])
        ])
      ])
    ])
  ])
]

-- One round, and the rounds behind it.
pub decode_loop-wrote :
    (fuel : ℕ) (s s' out x rest : List ℕ)
    → decode_round s ≡ wrote out s'
    → decode_loop fuel s' ≡ ok (x, rest)
    → decode_loop (suc fuel) s ≡ ok (out ++ x, rest)
unfolding decode_loop
decode_loop-wrote fuel s s' out x rest e h = rw (decode_loop, e, h) refl

pub decode_loop-closed :
    (fuel : ℕ) (rest : List ℕ) → decode_loop (suc fuel) (b'"' ∷ rest) ≡ ok ([], rest)
unfolding decode_loop decode_round
decode_loop-closed fuel rest = refl

pub length-write_ascii : (c : ℕ) → 1 ≤ length (write_ascii c)
unfolding write_ascii write_one_char
length-write_ascii c = ground arith

length-write_raw : (s : List ℕ) → length s ≤ length (write_raw s)
unfolding write_raw
length-write_raw [] = omega arith
length-write_raw (c ∷ s) = omega (
  arith,
  length-write_raw s,
  length-write_ascii c,
  length-append {0} (write_ascii c) (write_raw s),
)

decode_loop-write_raw :
    (fuel : ℕ) (s rest : List ℕ)
    → length s < fuel
    → decode_loop fuel (write_raw s ++ b'"' ∷ rest) ≡ ok (s, rest)
unfolding write_raw
decode_loop-write_raw zero s rest h = absurd (omega arith)
decode_loop-write_raw (suc fuel) [] rest h = decode_loop-closed fuel rest
decode_loop-write_raw (suc fuel) (c ∷ s) rest h =
    ap (decode_loop (suc fuel)) (append_assoc (write_ascii c) (write_raw s) (b'"' ∷ rest))
    ∙ decode_loop-wrote fuel (write_ascii c ++ (write_raw s ++ b'"' ∷ rest)) _ (c ∷ []) s rest
        (decode-write_ascii c (write_raw s ++ b'"' ∷ rest))
        (decode_loop-write_raw fuel s rest (omega arith))

-- `json_string_decode` of what the writer of `JsonRawString` writes gives the bytes back, whatever
-- they are, and leaves what follows.
pub json_string_decode-write_raw_string :
    (s rest : List ℕ) → json_string_decode (write_raw_string s ++ rest) ≡ ok (s, rest)
unfolding json_string_decode write_raw_string
json_string_decode-write_raw_string s rest =
    let e : (write_raw s ++ b'"' ∷ []) ++ rest ≡ write_raw s ++ b'"' ∷ rest =
      append_assoc (write_raw s) (b'"' ∷ []) rest in
    rw e (
      decode_loop-write_raw (length (write_raw s ++ b'"' ∷ rest) + 1) s rest
        (omega (arith, length-write_raw s, length-append {0} (write_raw s) (b'"' ∷ rest))))
