-- ===== src/Json/Bounds.antt =====
-- JsonBuilder.cpp: the loops end, and a string is no longer than its text.
use pxc_core.Prelude.{
  ℕ, zero, suc, ◌+◌, ◌*◌, ◌≤◌, ◌<◌, ◌==◌, ltb, ◌≡◌, refl, subst, Bool, true, false, some, List, [],
  ◌∷◌, ◌++◌, length, length-append, drop, length-drop, error, ok, ◌>>=◌, arith, Bool-cases,
  Option-cases, inl, inr,
}
use pxc_core.Utf8.{append_character}
use pxc_core.Misc.{hex_to_int}
use pxc_core.Parser.{try_skip}
use pxc_core.Parser.Reads.{length-try_skip}
use pxc_core.Json.{Error, out_of_fuel, Parsed}
use pxc_core.Json.Strings.{
  Round, closed, wrote, failed, Round-cases, read_hex, starts_escape, is_surrogate, join_surrogates,
  decode_pair, decode_unicode, decode_escape, decode_round, decode_loop, json_string_decode,
}

abbrev pub is_fuel : Error → Bool
is_fuel out_of_fuel = true
is_fuel _ = false

-- A round on `s`, with `n` characters consumed before: it moves on, and writes no more than is
-- consumed.
abbrev Fits : ℕ → List ℕ → Round → Type 0
Fits n s (closed r) = length r < length s + n
Fits n s (wrote out r) = (length r + length out ≤ length s + n) × (length r < length s + n)
Fits n s (failed e) = is_fuel e ≡ false

Fits-weaken :
    (s t : List ℕ) (m n : ℕ) (r : Round) → length s + m ≡ length t + n → Fits m s r → Fits n t r
Fits-weaken s t m n (closed r) e h = omega arith
Fits-weaken s t m n (wrote out r) e h = omega arith
Fits-weaken s t m n (failed x) e h = h

length-append_character : (code : ℕ) → length (append_character code) ≤ 4
unfolding append_character
length-append_character code = ground arith

length-read_hex :
    (n num : ℕ) (s : List ℕ) (v : ℕ) (r : List ℕ)
    → read_hex n num s ≡ some (v, r)
    → length s ≡ length r + n
unfolding read_hex
length-read_hex zero num s v r e = ground arith
length-read_hex (suc n) num [] v r e = cc
length-read_hex (suc n) num (c ∷ s) v r e = elim (Bool-cases (hex_to_int c == 16)) [
  | inl h ↦ absurd (cc (rw h at e))
  | inr h ↦ omega (arith, length-read_hex n (num * 16 + hex_to_int c) s v r (rw h at e))
]

starts_escape-le : (s : List ℕ) → starts_escape s ≡ true → 6 ≤ length s
unfolding starts_escape
starts_escape-le [] e = cc
starts_escape-le (a ∷ []) e = cc
starts_escape-le (a ∷ b ∷ s) e = ground arith

decode_pair-Fits : (num : ℕ) (s : List ℕ) → Fits 6 s (decode_pair num s)
unfolding decode_pair
decode_pair-Fits num s =
    let short : length (append_character num) ≤ 4 = length-append_character num in
    elim (Bool-cases (starts_escape s)) [
      | inr e ↦ rw (decode_pair, e) (omega arith, omega arith)
      | inl e ↦ elim (Option-cases (read_hex 4 0 (drop 2 s))) [
        | inl h ↦ rw (decode_pair, e, h) refl
        | inr ((new, s'), h) ↦
            let len : length (drop 2 s) ≡ length s' + 4 = length-read_hex 4 0 (drop 2 s) new s' h in
            let big : 6 ≤ length s = starts_escape-le s e in
            rw (decode_pair, e, h)
              (elim (Bool-cases (is_surrogate new)) [
                | inl t ↦ rw t (
                  omega (
                    arith,
                    length-append_character (join_surrogates num new),
                    length-drop {0} 2 s,
                  ),
                  omega (arith, length-drop {0} 2 s),
                )
                | inr t ↦ rw t (omega arith, omega arith)
              ])
      ]
    ]

decode_unicode-Fits : (s : List ℕ) → Fits 2 s (decode_unicode s)
unfolding decode_unicode
decode_unicode-Fits s = elim (Bool-cases (ltb (length s) 4)) [
  | inl e ↦ rw (decode_unicode, e) refl
  | inr e ↦ elim (Option-cases (read_hex 4 0 s)) [
    | inl h ↦ rw (decode_unicode, e, h) refl
    | inr ((num, s'), h) ↦
        let len : length s ≡ length s' + 4 = length-read_hex 4 0 s num s' h in
        rw (decode_unicode, e, h)
          (elim (Bool-cases (is_surrogate num)) [
            | inl t ↦
                rw t (
                  Fits-weaken s' s 6 2 (decode_pair num s') (omega arith) (decode_pair-Fits num s'))
            | inr t ↦ rw t (omega (arith, length-append_character num), omega arith)
          ])
  ]
]

decode_escape-Fits : (s : List ℕ) → Fits 1 s (decode_escape s)
unfolding decode_escape
decode_escape-Fits [] = refl
decode_escape-Fits (c ∷ s) = elim (Bool-cases (c == b'u')) [
  | inl e ↦
      rw e (Fits-weaken s (c ∷ s) 2 1 (decode_unicode s) (omega arith) (decode_unicode-Fits s))
  | inr e ↦ rw e (omega arith, omega arith)
]

decode_round-Fits : (s : List ℕ) → Fits 0 s (decode_round s)
unfolding decode_round
decode_round-Fits [] = refl
decode_round-Fits (c ∷ s) = elim (Bool-cases (c == b'"')) [
  | inl e ↦ rw e (omega arith)
  | inr e ↦ rw e (elim (Bool-cases (c == b'\\')) [
    | inl h ↦
        rw h (Fits-weaken s (c ∷ s) 1 0 (decode_escape s) (omega arith) (decode_escape-Fits s))
    | inr h ↦ rw h (omega arith, omega arith)
  ])
]

-- A result on `s` that did not run out of fuel, and whose text is `n` longer than the string.
abbrev pub Ends : ℕ → List ℕ → Parsed (List ℕ) → Type 0
Ends n s (ok (x, rest)) = length x + length rest + n ≤ length s
Ends n s (error e) = is_fuel e ≡ false

Ends-wrote :
    (s s' out : List ℕ) (r : Parsed (List ℕ))
    → length s' + length out ≤ length s
    → Ends 1 s' r
    → Ends 1 s (r >>= λ (more, rest). ok (out ++ more, rest))
Ends-wrote s s' out (error e) h k = k
Ends-wrote s s' out (ok (more, rest)) h k = omega (arith, length-append {0} out more)

Ends-more : (r s : List ℕ) (p : Parsed (List ℕ)) → length s ≡ length r + 1 → Ends 1 r p → Ends 2 s p
Ends-more r s (error e) h k = k
Ends-more r s (ok (x, rest)) h k = omega arith

decode_loop-Ends : (fuel : ℕ) (s : List ℕ) → length s < fuel → Ends 1 s (decode_loop fuel s)
unfolding decode_loop
decode_loop-Ends zero s h = absurd (omega arith)
decode_loop-Ends (suc fuel) s h = elim (Round-cases (decode_round s)) [
  | inl (rest, e) ↦
      let fits : Fits 0 s (closed rest) = subst (Fits 0 s) e (decode_round-Fits s) in
      rw (decode_loop, e) (omega arith)
  | inr (inl (out, s', e)) ↦
      let fits : Fits 0 s (wrote out s') = subst (Fits 0 s) e (decode_round-Fits s) in
      rw (decode_loop, e)
        (Ends-wrote s s' out (decode_loop fuel s') (omega arith)
          (decode_loop-Ends fuel s' (omega arith)))
  | inr (inr (x, e)) ↦ rw (decode_loop, e) (subst (Fits 0 s) e (decode_round-Fits s))
]

-- `json_string_decode` never runs out of fuel, and a string that it reads leaves at least two
-- characters more than it has: what it writes into the text does not reach what is not read.
pub json_string_decode-Ends : (s : List ℕ) → Ends 2 s (json_string_decode s)
unfolding json_string_decode
json_string_decode-Ends s = elim (Option-cases (try_skip b'"' s)) [
  | inl e ↦ rw (json_string_decode, e) refl
  | inr (r, e) ↦
      rw (json_string_decode, e)
        (Ends-more r s (decode_loop (length r + 1) r) (length-try_skip b'"' s r e)
          (decode_loop-Ends (length r + 1) r (omega arith)))
]
