-- ===== src/Json/Ends.antt =====
-- JsonBuilder.cpp: the parser of values ends, and every value takes at least one character.
use pxc_core.Prelude.{
  ℕ, zero, suc, ◌+◌, ◌≤◌, ◌<◌, ◌==◌, ◌≡◌, refl, true, false, none, some, List, [], ◌∷◌, length,
  error, ok, ◌>>=◌, arith, Bool-cases, Option-cases, List-cases, inl, inr, codes,
}
use pxc_core.Parser.{peek_char, try_skip, try_skip_prefix, skip_whitespaces, read_while}
use pxc_core.Parser.Reads.{
  length-try_skip, length-try_skip_prefix, length-skip_whitespaces, length-read_while,
}
use pxc_core.Json.{Parsed, unexpected_end, unexpected_symbol}
use pxc_core.Json.Bounds.{is_fuel, Ends, json_string_decode-Ends}
use pxc_core.Json.Strings.{json_string_decode}
use pxc_core.Json.Values.{
  Value, Fields, cons, array, field, object, string, end, boolean, null, array_loop, decode_array,
  object_loop, decode_object, decode_token, decode_switch, do_json_decode, is_number_char,
  starts_number,
}

-- The fuel did not run out, and a result has taken at least `n` characters of `s`.
abbrev pub Stops : {A : Type 0} → ℕ → List ℕ → Parsed A → Type 0
Stops n s (ok (a, rest)) = length rest + n ≤ length s
Stops n s (error e) = is_fuel e ≡ false

Stops-bind :
    {A B : Type 0} (m n : ℕ) (s t : List ℕ) (r : Parsed A) (next : A × List ℕ → Parsed B)
    → Stops m s r
    → ((a : A) (rest : List ℕ) → length rest + m ≤ length s → Stops n t (next (a, rest)))
    → Stops n t (r >>= next)
Stops-bind m n s t (error e) next h k = h
Stops-bind m n s t (ok (a, rest)) next h k = k a rest h

Ends-Stops : (s : List ℕ) (r : Parsed (List ℕ)) → Ends 2 s r → Stops 2 s r
Ends-Stops s (ok (x, rest)) h = omega arith
Ends-Stops s (error e) h = h

Stops-string : (s : List ℕ) → Stops 2 s (json_string_decode s)
Stops-string s = Ends-Stops s (json_string_decode s) (json_string_decode-Ends s)

Stops-longer : (s t : List ℕ) (r : Parsed Value) → length s ≤ length t → Stops 1 s r → Stops 1 t r
Stops-longer s t (error e) h k = k
Stops-longer s t (ok (v, rest)) h k = omega arith

Stops-weaken : (s : List ℕ) (r : Parsed Value) → Stops 2 s r → Stops 1 s r
Stops-weaken s (error e) h = h
Stops-weaken s (ok (v, rest)) h = omega arith

Stops-suc : (c : ℕ) (s : List ℕ) (r : Parsed Value) → Stops 0 s r → Stops 1 (c ∷ s) r
Stops-suc c s (error e) h = h
Stops-suc c s (ok (v, rest)) h = omega arith

decode_token-Stops :
    (token : List ℕ) (v : Value) (s : List ℕ)
    → 1 ≤ length token
    → Stops 1 s (decode_token token v s)
unfolding decode_token
decode_token-Stops token v s h = elim (Option-cases (try_skip_prefix token s)) [
  | inl e ↦ rw (decode_token, e) refl
  | inr (rest, e) ↦ rw (decode_token, e) (omega (arith, length-try_skip_prefix token s rest e))
]

module _ (value : List ℕ → Parsed Value) (stops : (s : List ℕ) → Stops 1 s (value s)) where
  array_loop-Stops : (fuel : ℕ) (s : List ℕ) → length s < fuel → Stops 1 s (array_loop value fuel s)
  unfolding array_loop
  array_loop-Stops zero s h = absurd (omega arith)
  array_loop-Stops (suc fuel) [] h = refl
  array_loop-Stops (suc fuel) (c ∷ s) h =
      Stops-bind 1 1 (c ∷ s) (c ∷ s) (value (c ∷ s)) _ (stops (c ∷ s)) (λ v s1 le.
        let le2 : length (skip_whitespaces s1) ≤ length s1 = length-skip_whitespaces s1 in
        elim (Option-cases (try_skip b']' (skip_whitespaces s1))) [
          | inr (rest, e) ↦ rw e (omega (arith, length-try_skip b']' (skip_whitespaces s1) rest e))
          | inl e ↦ rw e (elim (Option-cases (try_skip b',' (skip_whitespaces s1))) [
            | inr (s3, k) ↦
                let le3 : length (skip_whitespaces s1) ≡ length s3 + 1 =
                  length-try_skip b',' (skip_whitespaces s1) s3 k in
                let le4 : length (skip_whitespaces s3) ≤ length s3 = length-skip_whitespaces s3 in
                rw k (
                  Stops-bind 1 1 (skip_whitespaces s3) (c ∷ s)
                    (array_loop value fuel (skip_whitespaces s3))
                    (λ (vs, rest). ok (cons v vs, rest))
                    (array_loop-Stops fuel (skip_whitespaces s3) (omega arith))
                    (λ vs rest le5. omega arith))
            | inl k ↦ rw k (elim (List-cases (skip_whitespaces s1)) [
              | inl z ↦ rw z refl
              | inr (x, xs, z) ↦ rw z refl
            ])
          ])
        ])

  decode_array-Stops : (s : List ℕ) → Stops 0 s (decode_array value s)
  unfolding decode_array
  decode_array-Stops s =
      let s1 : List ℕ = skip_whitespaces s in
      let le : length s1 ≤ length s = length-skip_whitespaces s in
      elim (Option-cases (try_skip b']' s1)) [
        | inr (rest, e) ↦ rw (decode_array, e) (omega (arith, length-try_skip b']' s1 rest e))
        | inl e ↦
            rw (decode_array, e)
              (Stops-bind 1 0 s1 s (array_loop value (length s1 + 1) s1)
                (λ (vs, rest). ok (array vs, rest))
                (array_loop-Stops (length s1 + 1) s1 (omega arith)) (λ vs rest le5. omega arith))
      ]

  -- The part of a round of `object_loop` behind the value.
  abbrev object_tail : ℕ → List ℕ → Value → List ℕ → Parsed Fields
  object_tail fuel name v s3 =
      let s4 = skip_whitespaces s3 in
      elim (try_skip b'}' s4) [
        | some rest ↦ ok (field name v end, rest)
        | none ↦ elim (try_skip b',' s4) [
          | some s5 ↦ object_loop value fuel (skip_whitespaces s5) >>= λ (fs, rest).
              ok (field name v fs, rest)
          | none ↦ elim s4 [ [] ↦ error unexpected_end | x ∷ xs ↦ error unexpected_symbol ]
        ]
      ]

  object_tail-Stops :
      (fuel : ℕ) (name : List ℕ) (v : Value) (s s3 : List ℕ)
      → length s3 + 1 ≤ length s
      → ((t : List ℕ) → length t < length s → Stops 1 t (object_loop value fuel t))
      → Stops 1 s (object_tail fuel name v s3)
  object_tail-Stops fuel name v s s3 le h =
      let s4 : List ℕ = skip_whitespaces s3 in
      let le4 : length s4 ≤ length s3 = length-skip_whitespaces s3 in
      elim (Option-cases (try_skip b'}' s4)) [
        | inr (rest, e) ↦ rw (object_tail, e) (omega (arith, length-try_skip b'}' s4 rest e))
        | inl e ↦
            rw (object_tail, e)
              (elim (Option-cases (try_skip b',' s4)) [
                | inr (s5, k) ↦
                    let le5 : length s4 ≡ length s5 + 1 = length-try_skip b',' s4 s5 k in
                    let le6 : length (skip_whitespaces s5) ≤ length s5 =
                      length-skip_whitespaces s5 in
                    rw k (
                      Stops-bind 1 1 (skip_whitespaces s5) s
                        (object_loop value fuel (skip_whitespaces s5))
                        (λ (fs, rest). ok (field name v fs, rest))
                        (h (skip_whitespaces s5) (omega arith)) (λ fs rest le7. omega arith))
                | inl k ↦
                    rw k (elim (List-cases s4) [ inl z ↦ rw z refl | inr (x, xs, z) ↦ rw z refl ])
              ])
      ]

  object_loop-Stops :
      (fuel : ℕ) (s : List ℕ) → length s < fuel → Stops 1 s (object_loop value fuel s)
  unfolding object_loop
  object_loop-Stops zero s h = absurd (omega arith)
  object_loop-Stops (suc fuel) [] h = refl
  object_loop-Stops (suc fuel) (c ∷ s) h =
      Stops-bind 2 1 (c ∷ s) (c ∷ s) (json_string_decode (c ∷ s)) _ (Stops-string (c ∷ s))
        (λ name s1 le.
          let le1 : length (skip_whitespaces s1) ≤ length s1 = length-skip_whitespaces s1 in
          elim (Option-cases (try_skip b':' (skip_whitespaces s1))) [
            | inl e ↦ rw e refl
            | inr (s2, e) ↦
                let le2 : length (skip_whitespaces s1) ≡ length s2 + 1 =
                  length-try_skip b':' (skip_whitespaces s1) s2 e in
                rw e (
                  Stops-bind 1 1 s2 (c ∷ s) (value s2) _ (stops s2) (λ v s3 le3.
                    object_tail-Stops fuel name v (c ∷ s) s3 (omega arith)
                      (λ t lt. object_loop-Stops fuel t (omega arith))))
          ])

  decode_object-Stops : (s : List ℕ) → Stops 0 s (decode_object value s)
  unfolding decode_object
  decode_object-Stops s =
      let s1 : List ℕ = skip_whitespaces s in
      let le : length s1 ≤ length s = length-skip_whitespaces s in
      elim (Option-cases (try_skip b'}' s1)) [
        | inr (rest, e) ↦ rw (decode_object, e) (omega (arith, length-try_skip b'}' s1 rest e))
        | inl e ↦
            rw (decode_object, e)
              (Stops-bind 1 0 s1 s (object_loop value (length s1 + 1) s1)
                (λ (fs, rest). ok (object fs, rest))
                (object_loop-Stops (length s1 + 1) s1 (omega arith)) (λ vs rest le5. omega arith))
      ]

  number-Stops :
      (s : List ℕ)
      → starts_number (peek_char s) ≡ true
      → length (read_while is_number_char s).1 + 1 ≤ length s
  unfolding starts_number read_while is_number_char
  number-Stops [] h = cc
  number-Stops (c ∷ s) h =
      let first : is_number_char c ≡ true = ground arith in
      rw (first, read_while) (omega (arith, length-read_while is_number_char s))

  string_value-Stops :
      (s : List ℕ) → Stops 2 s (json_string_decode s >>= λ (x, rest). ok (string x, rest))
  string_value-Stops s =
      Stops-bind 2 2 s s (json_string_decode s) (λ (x, rest). ok (string x, rest)) (Stops-string s)
        (λ x rest le. le)

  decode_switch-Stops : (s : List ℕ) → Stops 1 s (decode_switch value s)
  unfolding decode_switch starts_number
  decode_switch-Stops [] = refl
  decode_switch-Stops (c ∷ s) = elim (Bool-cases (c == b'f')) [
    | inl e ↦ rw e (decode_token-Stops (codes "false") (boolean false) (c ∷ s) (omega arith))
    | inr e ↦ rw e (elim (Bool-cases (c == b't')) [
      | inl e ↦ rw e (decode_token-Stops (codes "true") (boolean true) (c ∷ s) (omega arith))
      | inr e ↦ rw e (elim (Bool-cases (c == b'n')) [
        | inl e ↦ rw e (decode_token-Stops (codes "null") null (c ∷ s) (omega arith))
        | inr e ↦ rw e (elim (Bool-cases (c == b'"')) [
          | inl e ↦ rw e (Stops-weaken (c ∷ s) _ (string_value-Stops (c ∷ s)))
          | inr e ↦ rw e (elim (Bool-cases (c == b'[')) [
            | inl e ↦ rw e (Stops-suc c s _ (decode_array-Stops s))
            | inr e ↦ rw e (elim (Bool-cases (c == b'{')) [
              | inl e ↦ rw e (Stops-suc c s _ (decode_object-Stops s))
              | inr e ↦ rw e (elim (Bool-cases (starts_number c)) [
                | inl e ↦ rw e (number-Stops (c ∷ s) e)
                | inr e ↦
                    rw e (elim (Bool-cases (c == 0)) [ inl e ↦ rw e refl | inr e ↦ rw e refl ])
              ])
            ])
          ])
        ])
      ])
    ])
  ]

-- `do_json_decode` at any depth ends: the fuel of its loops never runs out, and a value that it
-- reads takes at least one character.
pub do_json_decode-Stops : (depth : ℕ) (s : List ℕ) → Stops 1 s (do_json_decode depth s)
unfolding do_json_decode
do_json_decode-Stops zero s = refl
do_json_decode-Stops (suc depth) s =
    Stops-longer (skip_whitespaces s) s (decode_switch (do_json_decode depth) (skip_whitespaces s))
      (length-skip_whitespaces s)
      (decode_switch-Stops (do_json_decode depth) (do_json_decode-Stops depth) (skip_whitespaces s))
