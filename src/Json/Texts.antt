-- ===== src/Json/Texts.antt =====
-- JsonBuilder.cpp: the writer of `JsonString` on a text of Unicode characters, and its reading.
use pxc_core.Prelude.{
  ℕ, zero, suc, ◌+◌, ◌*◌, ◌/◌, ◌%◌, ◌≤◌, ◌<◌, ◌==◌, ltb, leb, ◌≡◌, refl, ap, sym, ◌∙◌,
  if◌then◌else◌, true, false, ◌&&◌, ◌||◌, some, List, [], ◌∷◌, ◌++◌, length, length-append, ok,
  arith, Bool-cases, inl, inr,
}
use mathlib.Core.List.{append_assoc}
use pxc_core.Utf8.{append_character}
use pxc_core.Utf8.Encode.{IsScalar, AllScalar, text, Size, one, two, three, four, Size-of}
use pxc_core.Json.Strings.{
  wrote, is_surrogate, decode_round, decode_loop, json_string_decode, write_one_char, write_char,
  write_ascii, write_four, write_three, write_two, write_round, write_text, write_string,
}
use pxc_core.Json.Escapes.{
  decode-write_one_char, decode_round-pair, decode-write_ascii, append_character-ascii,
  decode_loop-wrote, decode_loop-closed, length-write_ascii,
}

-- What is written for a character.
piece : ℕ → List ℕ
piece c =
    if ltb c 128
    then write_ascii c
    else if ltb c 65536
    then write_one_char c
    else write_one_char (0xD7C0 + c / 1024) ++ write_one_char (0xDC00 + c % 1024)

scalar-plain : (c : ℕ) → IsScalar c → is_surrogate c ≡ false
scalar-plain c v = ground (arith, v.outside)

write_char-piece : (c : ℕ) → IsScalar c → 128 ≤ c → write_char c ≡ some (piece c)
unfolding write_char piece
write_char-piece c v h =
    let small : c < 0x110000 = v.small in
    let a : (ltb c 128) ≡ false = ground arith in
    let t : (leb c 0x10ffff) ≡ true = ground arith in
    elim (Bool-cases (ltb c 65536)) [
      | inl e ↦ rw (a, e, scalar-plain c v) refl
      | inr e ↦ rw (a, e, t) refl
    ]

-- The bytes of a character of `n` bytes, whatever follows.
write_two-piece :
    (c : ℕ) (s : List ℕ)
    → IsScalar c
    → 0x7f < c
    → c ≤ 0x7ff
    → write_two (192 + c / 64) ((128 + c % 64) ∷ s) ≡ some (piece c, s)
unfolding write_two
write_two-piece c s v lo hi =
    let a : ℕ = 192 + c / 64 in
    let b : ℕ = 128 + c % 64 in
    let t : ((a / 64 % 2 == 1) && (b / 64 == 2)) ≡ true = ground arith in
    let u : (a / 32 % 2 == 0) ≡ true = ground arith in
    let w : (ltb 0 (a % 32 / 2)) ≡ true = ground arith in
    let e : a % 32 * 64 + b % 64 ≡ c = omega arith in
    rw (t, u, w, e, write_char-piece c v (omega arith)) refl

write_three-piece :
    (c : ℕ) (s : List ℕ)
    → IsScalar c
    → 0x7ff < c
    → c ≤ 0xffff
    → write_two (224 + c / 4096) ((128 + c / 64 % 64) ∷ (128 + c % 64) ∷ s) ≡ some (piece c, s)
unfolding write_two write_three
write_three-piece c s v lo hi =
    let a : ℕ = 224 + c / 4096 in
    let b : ℕ = 128 + c / 64 % 64 in
    let d : ℕ = 128 + c % 64 in
    let t : ((a / 64 % 2 == 1) && (b / 64 == 2)) ≡ true = ground arith in
    let u : (a / 32 % 2 == 0) ≡ false = ground arith in
    let f : (d / 64 == 2) ≡ true = ground arith in
    let g : (a / 16 % 2 == 0) ≡ true = ground arith in
    let w : (ltb 0 (a % 16) || ltb 0 (b / 32 % 2)) ≡ true = ground arith in
    let e : a % 16 * 4096 + b % 64 * 64 + d % 64 ≡ c = omega arith in
    rw (t, u, f, g, w, e, write_char-piece c v (omega arith)) refl

write_four-piece :
    (c : ℕ) (s : List ℕ)
    → IsScalar c
    → 0xffff < c
    → write_two
        (240 + c / 262144)
        ((128 + c / 4096 % 64) ∷ (128 + c / 64 % 64) ∷ (128 + c % 64) ∷ s)
      ≡ some (piece c, s)
unfolding write_two write_three write_four
write_four-piece c s v lo =
    let small : c < 0x110000 = v.small in
    let a : ℕ = 240 + c / 262144 in
    let b : ℕ = 128 + c / 4096 % 64 in
    let d : ℕ = 128 + c / 64 % 64 in
    let k : ℕ = 128 + c % 64 in
    let t : ((a / 64 % 2 == 1) && (b / 64 == 2)) ≡ true = ground arith in
    let u : (a / 32 % 2 == 0) ≡ false = ground arith in
    let f : (d / 64 == 2) ≡ true = ground arith in
    let g : (a / 16 % 2 == 0) ≡ false = ground arith in
    let p : ((k / 64 == 2) && (a / 8 % 2 == 0) && (ltb 0 (a % 8) || ltb 0 (b / 16 % 4))) ≡ true =
      ground arith in
    let e : a % 8 * 262144 + b % 64 * 4096 + d % 64 * 64 + k % 64 ≡ c = omega arith in
    rw (t, u, f, g, p, e, write_char-piece c v (omega arith)) refl

write_text-round :
    (fuel c : ℕ) (s out rest more : List ℕ)
    → write_round c s ≡ some (out, rest)
    → write_text fuel rest ≡ some more
    → write_text (suc fuel) (c ∷ s) ≡ some (out ++ more)
unfolding write_text
write_text-round fuel c s out rest more e k = rw (write_text, e, k) refl

write_round-bytes : (a : ℕ) (s : List ℕ) → 128 ≤ a → write_round a s ≡ write_two a s
unfolding write_round
write_round-bytes a s h = let t : (leb 128 a) ≡ true = ground arith in rw t refl

-- The writer on one character.
write_text-char :
    (fuel c : ℕ) (s more : List ℕ)
    → IsScalar c
    → Size c
    → write_text fuel s ≡ some more
    → write_text (suc fuel) (append_character c ++ s) ≡ some (piece c ++ more)
write_text-char fuel c s more v (one h e) k =
    let t : (leb 128 c) ≡ false = ground arith in
    let u : (ltb c 128) ≡ true = ground arith in
    let w : write_round c s ≡ some (piece c, s) = unfold write_round piece in (rw (t, u) refl) in
    rw e (write_text-round fuel c s (piece c) s more w k)
write_text-char fuel c s more v (two lo hi e) k = rw e (
    write_text-round fuel (192 + c / 64) _ (piece c) s more
      (write_round-bytes (192 + c / 64) _ (omega arith) ∙ write_two-piece c s v lo hi) k)
write_text-char fuel c s more v (three lo hi e) k = rw e (
    write_text-round fuel (224 + c / 4096) _ (piece c) s more
      (write_round-bytes (224 + c / 4096) _ (omega arith) ∙ write_three-piece c s v lo hi) k)
write_text-char fuel c s more v (four lo e) k = rw e (
    write_text-round fuel (240 + c / 262144) _ (piece c) s more
      (write_round-bytes (240 + c / 262144) _ (omega arith) ∙ write_four-piece c s v lo) k)

pieces : List ℕ → List ℕ
pieces [] = []
pieces (c ∷ cs) = piece c ++ pieces cs

write_text-text :
    (fuel : ℕ) (cs : List ℕ)
    → AllScalar cs
    → length cs ≤ fuel
    → write_text fuel (text cs) ≡ some (pieces cs)
unfolding text pieces
write_text-text fuel [] v h = unfold write_text in refl
write_text-text zero (c ∷ cs) v h = absurd (omega arith)
write_text-text (suc fuel) (c ∷ cs) v h =
    let small : c < 0x110000 = v.0.small in
    write_text-char fuel c (text cs) (pieces cs) v.0 (Size-of c (omega arith))
      (write_text-text fuel cs v.1 (omega arith))

decode-piece :
    (c : ℕ) (s : List ℕ) → IsScalar c → decode_round (piece c ++ s) ≡ wrote (append_character c) s
unfolding piece
decode-piece c s v = elim (Bool-cases (ltb c 128)) [
  | inl e ↦ rw e (
      decode-write_ascii c s
      ∙ sym (ap (λ l. wrote l s) (append_character-ascii c (ground (arith, e)))))
  | inr e ↦ rw e (elim (Bool-cases (ltb c 65536)) [
    | inl h ↦ rw h (decode-write_one_char c s (ground (arith, h)) (scalar-plain c v))
    | inr h ↦ rw h (decode_round-pair c s (ground (arith, h)) v.small)
  ])
]

decode_loop-pieces :
    (fuel : ℕ) (cs rest : List ℕ)
    → AllScalar cs
    → length cs < fuel
    → decode_loop fuel (pieces cs ++ b'"' ∷ rest) ≡ ok (text cs, rest)
unfolding text pieces
decode_loop-pieces zero cs rest v h = absurd (omega arith)
decode_loop-pieces (suc fuel) [] rest v h = decode_loop-closed fuel rest
decode_loop-pieces (suc fuel) (c ∷ cs) rest v h =
    ap (decode_loop (suc fuel)) (append_assoc (piece c) (pieces cs) (b'"' ∷ rest))
    ∙ decode_loop-wrote fuel (piece c ++ (pieces cs ++ b'"' ∷ rest)) _ (append_character c)
        (text cs) rest (decode-piece c (pieces cs ++ b'"' ∷ rest) v.0)
        (decode_loop-pieces fuel cs rest v.1 (omega arith))

length-append_character : (c : ℕ) → 1 ≤ length (append_character c)
unfolding append_character
length-append_character c = ground arith

length-text : (cs : List ℕ) → length cs ≤ length (text cs)
unfolding text
length-text [] = omega arith
length-text (c ∷ cs) = omega (
  arith,
  length-text cs,
  length-append_character c,
  length-append {0} (append_character c) (text cs),
)

length-piece : (c : ℕ) → 1 ≤ length (piece c)
unfolding piece write_one_char
length-piece c = ground (arith, length-write_ascii c)

length-pieces : (cs : List ℕ) → length cs ≤ length (pieces cs)
unfolding pieces
length-pieces [] = omega arith
length-pieces (c ∷ cs) =
    omega (arith, length-pieces cs, length-piece c, length-append {0} (piece c) (pieces cs))

-- The writer of `JsonString` accepts every text of Unicode characters, and `json_string_decode` of
-- what it writes gives the text back and leaves what follows.
pub json_string_decode-write_string :
    (cs rest : List ℕ)
    → AllScalar cs
    → (out : List ℕ) × (write_string (text cs) ≡ some out)
      × (json_string_decode (out ++ rest) ≡ ok (text cs, rest))
unfolding json_string_decode write_string
json_string_decode-write_string cs rest v =
    let e : (pieces cs ++ b'"' ∷ []) ++ rest ≡ pieces cs ++ b'"' ∷ rest =
      append_assoc (pieces cs) (b'"' ∷ []) rest in
    (
      b'"' ∷ (pieces cs ++ b'"' ∷ []),
      rw (write_string, write_text-text (length (text cs)) cs v (length-text cs)) refl,
      rw e (
          decode_loop-pieces (length (pieces cs ++ b'"' ∷ rest) + 1) cs rest v
            (omega (arith, length-pieces cs, length-append {0} (pieces cs) (b'"' ∷ rest)))),
    )
