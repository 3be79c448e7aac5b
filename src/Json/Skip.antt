-- ===== src/Json/Skip.antt =====
-- JsonBuilder.cpp: `do_json_skip` passes over what `do_json_decode` reads.
use pxc_core.Prelude.{
  ℕ, zero, suc, ◌+◌, ◌==◌, ltb, ◌≡◌, refl, sym, ◌∙◌, true, false, Option, none, some, List, [], ◌∷◌,
  ◌++◌, length, drop, Result, error, ok, ◌>>=◌, arith, Bool-cases, Option-cases, List-cases, inl,
  inr, codes,
}
use pxc_core.Parser.{try_skip, try_skip_prefix, skip_whitespaces}
use pxc_core.Json.{Error, Parsed}
use pxc_core.Json.Strings.{
  Round, closed, wrote, failed, Round-cases, read_hex, starts_escape, is_surrogate, decode_pair,
  decode_unicode, decode_escape, decode_round, decode_loop, json_string_decode, skip_pair,
  skip_unicode, skip_escape, skip_round, skip_loop, json_string_skip,
}
use pxc_core.Json.Values.{
  Value, cons, null, boolean, array, field, object, string, array_loop, decode_array, object_loop,
  decode_object, decode_token, decode_switch, do_json_decode, skip_array_loop, skip_array,
  skip_object_loop, skip_object, skip_token, skip_switch, do_json_skip,
}

-- What is left behind a value that was read, and behind one that was skipped.
module _ {A : Type 0} where
  abbrev pub left : Parsed A → Option (List ℕ)
  left (error e) = none
  left (ok (a, rest)) = some rest

-- A step that keeps what is left.
left-bind :
    {A B : Type 0} (r : Parsed A) (next : A × List ℕ → Parsed B)
    → ((a : A) (rest : List ℕ) → left (next (a, rest)) ≡ some rest)
    → left (r >>= next) ≡ left r
left-bind (error e) next h = refl
left-bind (ok (a, rest)) next h = h a rest

abbrev pub passed : Result Error (List ℕ) → Option (List ℕ)
passed (error e) = none
passed (ok rest) = some rest

-- Two chains that agree on their first parts and go on alike.
bind-left :
    {A B : Type 0} (q : Result Error (List ℕ)) (r : Parsed A)
    (skip : List ℕ → Result Error (List ℕ)) (next : A × List ℕ → Parsed B)
    → passed q ≡ left r
    → ((a : A) (rest : List ℕ) → passed (skip rest) ≡ left (next (a, rest)))
    → passed (q >>= skip) ≡ left (r >>= next)
bind-left (error e) (error f) skip next h k = refl
bind-left (error e) (ok (a, rest)) skip next h k = cc
bind-left (ok rest) (error f) skip next h k = cc
bind-left (ok rest) (ok (a, rest')) skip next h k =
    let same : rest ≡ rest' = cc in rw same (k a rest')

skip_token-left :
    (token : List ℕ) (v : Value) (s : List ℕ)
    → passed (skip_token token s) ≡ left (decode_token token v s)
unfolding skip_token decode_token
skip_token-left token v s = elim (Option-cases (try_skip_prefix token s)) [
  | inl e ↦ rw (skip_token, decode_token, e) refl
  | inr (rest, e) ↦ rw (skip_token, decode_token, e) refl
]

abbrev blank : Round → Round
blank (closed rest) = closed rest
blank (wrote out rest) = wrote [] rest
blank (failed e) = failed e

skip_pair-blank : (num : ℕ) (s : List ℕ) → skip_pair num s ≡ blank (decode_pair num s)
unfolding skip_pair decode_pair
skip_pair-blank num s = elim (Bool-cases (starts_escape s)) [
  | inr e ↦ rw (e, skip_pair, decode_pair) refl
  | inl e ↦ elim (Option-cases (read_hex 4 0 (drop 2 s))) [
    | inl h ↦ rw (e, h, skip_pair, decode_pair) refl
    | inr ((new, s'), h) ↦
        rw (e, h, skip_pair, decode_pair)
          (elim (Bool-cases (is_surrogate new)) [ inl t ↦ rw t refl | inr t ↦ rw t refl ])
  ]
]

skip_unicode-blank : (s : List ℕ) → skip_unicode s ≡ blank (decode_unicode s)
unfolding skip_unicode decode_unicode
skip_unicode-blank s = elim (Bool-cases (ltb (length s) 4)) [
  | inl e ↦ rw (e, skip_unicode, decode_unicode) refl
  | inr e ↦ elim (Option-cases (read_hex 4 0 s)) [
    | inl h ↦ rw (e, h, skip_unicode, decode_unicode) refl
    | inr ((num, s'), h) ↦
        rw (e, h, skip_unicode, decode_unicode)
          (elim (Bool-cases (is_surrogate num)) [
            | inl t ↦ rw t (skip_pair-blank num s')
            | inr t ↦ rw t refl
          ])
  ]
]

skip_escape-blank : (s : List ℕ) → skip_escape s ≡ blank (decode_escape s)
unfolding skip_escape decode_escape
skip_escape-blank [] = refl
skip_escape-blank (c ∷ s) = elim (Bool-cases (c == b'u')) [
  | inl e ↦ rw e (skip_unicode-blank s)
  | inr e ↦ rw e refl
]

skip_round-blank : (s : List ℕ) → skip_round s ≡ blank (decode_round s)
unfolding skip_round decode_round
skip_round-blank [] = refl
skip_round-blank (c ∷ s) = elim (Bool-cases (c == b'"')) [
  | inl e ↦ rw e refl
  | inr e ↦
      rw e
        (elim (Bool-cases (c == b'\\')) [ inl h ↦ rw h (skip_escape-blank s) | inr h ↦ rw h refl ])
]

skip_loop-left : (fuel : ℕ) (s : List ℕ) → passed (skip_loop fuel s) ≡ left (decode_loop fuel s)
unfolding skip_loop decode_loop
skip_loop-left zero s = refl
skip_loop-left (suc fuel) s = elim (Round-cases (decode_round s)) [
  | inl (rest, e) ↦ rw (skip_loop, decode_loop, skip_round-blank s, e) refl
  | inr (inl (out, s', e)) ↦
      rw (skip_loop, decode_loop, skip_round-blank s, e)
        (skip_loop-left fuel s'
          ∙ sym (
              left-bind (decode_loop fuel s') (λ (more, rest). ok (out ++ more, rest))
                (λ a rest. refl)))
  | inr (inr (x, e)) ↦ rw (skip_loop, decode_loop, skip_round-blank s, e) refl
]

json_string_skip-left : (s : List ℕ) → passed (json_string_skip s) ≡ left (json_string_decode s)
unfolding json_string_skip json_string_decode
json_string_skip-left s = elim (Option-cases (try_skip b'"' s)) [
  | inl e ↦ rw (e, json_string_skip, json_string_decode) refl
  | inr (r, e) ↦ rw (e, json_string_skip, json_string_decode) (skip_loop-left (length r + 1) r)
]

-- The skipper and the parser of the parts.
module _ (skip : List ℕ → Result Error (List ℕ)) (value : List ℕ → Parsed Value)
    (alike : (s : List ℕ) → passed (skip s) ≡ left (value s)) where
  skip_array_loop-left :
      (fuel : ℕ) (s : List ℕ)
      → passed (skip_array_loop skip fuel s) ≡ left (array_loop value fuel s)
  unfolding skip_array_loop array_loop
  skip_array_loop-left zero s = refl
  skip_array_loop-left (suc fuel) [] = refl
  skip_array_loop-left (suc fuel) (c ∷ s) =
      bind-left (skip (c ∷ s)) (value (c ∷ s)) _ _ (alike (c ∷ s)) (λ v s1.
        elim (Option-cases (try_skip b']' (skip_whitespaces s1))) [
          | inr (rest, e) ↦ rw e refl
          | inl e ↦ rw e (elim (Option-cases (try_skip b',' (skip_whitespaces s1))) [
            | inr (s3, h) ↦ rw h (
                skip_array_loop-left fuel (skip_whitespaces s3)
                ∙ sym (
                    left-bind (array_loop value fuel (skip_whitespaces s3))
                      (λ (vs, rest). ok (cons v vs, rest)) (λ a rest. refl)))
            | inl h ↦ rw h (elim (List-cases (skip_whitespaces s1)) [
              | inl z ↦ rw z refl
              | inr (x, xs, z) ↦ rw z refl
            ])
          ])
        ])

  skip_array-left : (s : List ℕ) → passed (skip_array skip s) ≡ left (decode_array value s)
  unfolding skip_array decode_array
  skip_array-left s = elim (Option-cases (try_skip b']' (skip_whitespaces s))) [
    | inr (rest, e) ↦ rw (skip_array, decode_array, e) refl
    | inl e ↦
        let s1 : List ℕ = skip_whitespaces s in
        rw (skip_array, decode_array, e)
          (skip_array_loop-left (length s1 + 1) s1
            ∙ sym (
                left-bind (array_loop value (length s1 + 1) s1) (λ (vs, rest). ok (array vs, rest))
                  (λ a rest. refl)))
  ]

  skip_object_loop-left :
      (fuel : ℕ) (s : List ℕ)
      → passed (skip_object_loop skip fuel s) ≡ left (object_loop value fuel s)
  unfolding skip_object_loop object_loop
  skip_object_loop-left zero s = refl
  skip_object_loop-left (suc fuel) [] = refl
  skip_object_loop-left (suc fuel) (c ∷ s) =
      bind-left (json_string_skip (c ∷ s)) (json_string_decode (c ∷ s)) _ _
        (json_string_skip-left (c ∷ s))
        (λ name s1. elim (Option-cases (try_skip b':' (skip_whitespaces s1))) [
          | inl e ↦ rw e refl
          | inr (s2, e) ↦ rw e (
              bind-left (skip s2) (value s2) _ _ (alike s2) (λ v s3.
                elim (Option-cases (try_skip b'}' (skip_whitespaces s3))) [
                  | inr (rest, h) ↦ rw h refl
                  | inl h ↦ rw h (elim (Option-cases (try_skip b',' (skip_whitespaces s3))) [
                    | inr (s5, k) ↦ rw k (
                        skip_object_loop-left fuel (skip_whitespaces s5)
                        ∙ sym (
                            left-bind (object_loop value fuel (skip_whitespaces s5))
                              (λ (fs, rest). ok (field name v fs, rest)) (λ a rest. refl)))
                    | inl k ↦ rw k (elim (List-cases (skip_whitespaces s3)) [
                      | inl z ↦ rw z refl
                      | inr (x, xs, z) ↦ rw z refl
                    ])
                  ])
                ]))
        ])

  skip_object-left : (s : List ℕ) → passed (skip_object skip s) ≡ left (decode_object value s)
  unfolding skip_object decode_object
  skip_object-left s = elim (Option-cases (try_skip b'}' (skip_whitespaces s))) [
    | inr (rest, e) ↦ rw (skip_object, decode_object, e) refl
    | inl e ↦
        let s1 : List ℕ = skip_whitespaces s in
        rw (skip_object, decode_object, e)
          (skip_object_loop-left (length s1 + 1) s1
            ∙ sym (
                left-bind (object_loop value (length s1 + 1) s1)
                  (λ (fs, rest). ok (object fs, rest)) (λ a rest. refl)))
  ]

  skip_switch-left : (s : List ℕ) → passed (skip_switch skip s) ≡ left (decode_switch value s)
  unfolding skip_switch decode_switch
  skip_switch-left s = ground (
    arith,
    skip_token-left (codes "false") (boolean false) s,
    skip_token-left (codes "true") (boolean true) s,
    skip_token-left (codes "null") null s,
    json_string_skip-left s,
    left-bind (json_string_decode s) (λ (x, rest). ok (string x, rest)) (λ a rest. refl),
    skip_array-left (drop 1 s),
    skip_object-left (drop 1 s),
  )

-- `do_json_skip` passes over exactly the texts that `do_json_decode` reads, at every depth, and
-- leaves the same rest.
pub do_json_skip-left :
    (depth : ℕ) (s : List ℕ) → passed (do_json_skip depth s) ≡ left (do_json_decode depth s)
unfolding do_json_skip do_json_decode
do_json_skip-left zero s = refl
do_json_skip-left (suc depth) s =
    skip_switch-left (do_json_skip depth) (do_json_decode depth) (do_json_skip-left depth)
      (skip_whitespaces s)
