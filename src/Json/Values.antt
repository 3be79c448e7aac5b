-- ===== src/Json/Values.antt =====
-- JsonBuilder.cpp: the parser of values, the skipper and the writer.
use pxc_core.Prelude.{
  ℕ, zero, suc, ◌+◌, ◌==◌, leb, if◌then◌else◌, Bool, true, false, ◌&&◌, ◌||◌, none, some, List, [],
  ◌∷◌, length, drop, Result, error, ok, ◌>>=◌, codes,
}
use pxc_core.Parser.{peek_char, try_skip, try_skip_prefix, skip_whitespaces, read_while}
use pxc_core.Json.{
  Error, too_deep, wrong_token, unexpected_end, unexpected_symbol, colon_expected, end_expected,
  out_of_fuel, Parsed,
}
use pxc_core.Json.Strings.{json_string_decode, json_string_skip}

-- `JsonValue`, `JsonArray` and the fields of `JsonObject`.
mutual
  pub data Value : Type 0 where
    null : Value
    number : List ℕ → Value
    boolean : Bool → Value
    string : List ℕ → Value
    array : Items → Value
    object : Fields → Value

  pub data Items : Type 0 where
    nil : Items
    cons : Value → Items → Items

  pub data Fields : Type 0 where
    end : Fields
    field : List ℕ → Value → Fields → Fields

unfoldable pub is_number_char : ℕ → Bool
is_number_char c =
    c == b'-' || (leb b'0' c && leb c b'9') || c == b'e' || c == b'E' || c == b'+' || c == b'.'

-- The labels of the `switch` for a number.
unfoldable pub starts_number : ℕ → Bool
starts_number c = c == b'-' || c == b'+' || c == b'.' || (leb b'0' c && leb c b'9')

-- The `while` of an array. `value` is the parser of one element, and the fuel is one round for
-- each character.
unfoldable pub array_loop : (List ℕ → Parsed Value) → ℕ → List ℕ → Parsed Items
array_loop value zero s = error out_of_fuel
array_loop value (suc fuel) [] = error unexpected_end
array_loop value (suc fuel) (c ∷ s) = value (c ∷ s) >>= λ (v, s1).
    let s2 = skip_whitespaces s1 in
    elim (try_skip b']' s2) [
      | some rest ↦ ok (cons v nil, rest)
      | none ↦ elim (try_skip b',' s2) [
        | some s3 ↦
            array_loop value fuel (skip_whitespaces s3) >>= λ (vs, rest). ok (cons v vs, rest)
        | none ↦ elim s2 [ [] ↦ error unexpected_end | x ∷ xs ↦ error unexpected_symbol ]
      ]
    ]

unfoldable pub decode_array : (List ℕ → Parsed Value) → List ℕ → Parsed Value
unfolding array_loop
decode_array value s =
    let s1 = skip_whitespaces s in
    elim (try_skip b']' s1) [
      | some rest ↦ ok (array nil, rest)
      | none ↦ array_loop value (length s1 + 1) s1 >>= λ (vs, rest). ok (array vs, rest)
    ]

-- The `while` of an object.
unfoldable pub object_loop : (List ℕ → Parsed Value) → ℕ → List ℕ → Parsed Fields
object_loop value zero s = error out_of_fuel
object_loop value (suc fuel) [] = error unexpected_end
object_loop value (suc fuel) (c ∷ s) = json_string_decode (c ∷ s) >>= λ (name, s1).
    elim (try_skip b':' (skip_whitespaces s1)) [
      | none ↦ error colon_expected
      | some s2 ↦ value s2 >>= λ (v, s3).
          let s4 = skip_whitespaces s3 in
          elim (try_skip b'}' s4) [
            | some rest ↦ ok (field name v end, rest)
            | none ↦ elim (try_skip b',' s4) [
              | some s5 ↦ object_loop value fuel (skip_whitespaces s5) >>= λ (fs, rest).
                  ok (field name v fs, rest)
              | none ↦ elim s4 [ [] ↦ error unexpected_end | x ∷ xs ↦ error unexpected_symbol ]
            ]
          ]
    ]

unfoldable pub decode_object : (List ℕ → Parsed Value) → List ℕ → Parsed Value
unfolding object_loop
decode_object value s =
    let s1 = skip_whitespaces s in
    elim (try_skip b'}' s1) [
      | some rest ↦ ok (object end, rest)
      | none ↦ object_loop value (length s1 + 1) s1 >>= λ (fs, rest). ok (object fs, rest)
    ]

unfoldable pub decode_token : List ℕ → Value → List ℕ → Parsed Value
decode_token token v s = elim (try_skip_prefix token s) [
  | none ↦ error wrong_token
  | some rest ↦ ok (v, rest)
]

-- The `switch` of `do_json_decode`; `value` is the recursive call.
unfoldable pub decode_switch : (List ℕ → Parsed Value) → List ℕ → Parsed Value
decode_switch value s =
    let c = peek_char s in
    if c == b'f'
    then decode_token (codes "false") (boolean false) s
    else if c == b't'
    then decode_token (codes "true") (boolean true) s
    else if c == b'n'
    then decode_token (codes "null") null s
    else if c == b'"'
    then (json_string_decode s >>= λ (x, rest). ok (string x, rest))
    else if c == b'['
    then decode_array value (drop 1 s)
    else if c == b'{'
    then decode_object value (drop 1 s)
    else if starts_number c
    then ok (number (read_while is_number_char s).0, (read_while is_number_char s).1)
    else if c == 0
    then error unexpected_end
    else error unexpected_symbol

-- `do_json_decode`. The first argument is `max_depth + 1`, and 0 for a negative depth.
unfoldable pub do_json_decode : ℕ → List ℕ → Parsed Value
unfolding decode_switch
do_json_decode zero s = error too_deep
do_json_decode (suc depth) s = decode_switch (do_json_decode depth) (skip_whitespaces s)

-- `json_decode`, with the depth 100.
unfoldable pub json_decode : List ℕ → Result Error Value
unfolding do_json_decode
json_decode s = do_json_decode 101 s >>= λ (v, rest). elim (skip_whitespaces rest) [
  | [] ↦ ok v
  | x ∷ xs ↦ error end_expected
]

-- The `while` of an array in `do_json_skip`.
unfoldable pub skip_array_loop :
    (List ℕ → Result Error (List ℕ)) → ℕ → List ℕ → Result Error (List ℕ)
skip_array_loop value zero s = error out_of_fuel
skip_array_loop value (suc fuel) [] = error unexpected_end
skip_array_loop value (suc fuel) (c ∷ s) = value (c ∷ s) >>= λ s1.
    let s2 = skip_whitespaces s1 in
    elim (try_skip b']' s2) [
      | some rest ↦ ok rest
      | none ↦ elim (try_skip b',' s2) [
        | some s3 ↦ skip_array_loop value fuel (skip_whitespaces s3)
        | none ↦ error unexpected_symbol
      ]
    ]

unfoldable pub skip_array : (List ℕ → Result Error (List ℕ)) → List ℕ → Result Error (List ℕ)
unfolding skip_array_loop
skip_array value s =
    let s1 = skip_whitespaces s in
    elim (try_skip b']' s1) [
      | some rest ↦ ok rest
      | none ↦ skip_array_loop value (length s1 + 1) s1
    ]

-- The `while` of an object in `do_json_skip`.
unfoldable pub skip_object_loop :
    (List ℕ → Result Error (List ℕ)) → ℕ → List ℕ → Result Error (List ℕ)
skip_object_loop value zero s = error out_of_fuel
skip_object_loop value (suc fuel) [] = error unexpected_end
skip_object_loop value (suc fuel) (c ∷ s) = json_string_skip (c ∷ s) >>= λ s1.
    elim (try_skip b':' (skip_whitespaces s1)) [
      | none ↦ error colon_expected
      | some s2 ↦ value s2 >>= λ s3.
          let s4 = skip_whitespaces s3 in
          elim (try_skip b'}' s4) [
            | some rest ↦ ok rest
            | none ↦ elim (try_skip b',' s4) [
              | some s5 ↦ skip_object_loop value fuel (skip_whitespaces s5)
              | none ↦ error unexpected_symbol
            ]
          ]
    ]

unfoldable pub skip_object : (List ℕ → Result Error (List ℕ)) → List ℕ → Result Error (List ℕ)
unfolding skip_object_loop
skip_object value s =
    let s1 = skip_whitespaces s in
    elim (try_skip b'}' s1) [
      | some rest ↦ ok rest
      | none ↦ skip_object_loop value (length s1 + 1) s1
    ]

unfoldable pub skip_token : List ℕ → List ℕ → Result Error (List ℕ)
skip_token token s = elim (try_skip_prefix token s) [
  | none ↦ error wrong_token
  | some rest ↦ ok rest
]

-- The `switch` of `do_json_skip`.
unfoldable pub skip_switch : (List ℕ → Result Error (List ℕ)) → List ℕ → Result Error (List ℕ)
skip_switch value s =
    let c = peek_char s in
    if c == b'f'
    then skip_token (codes "false") s
    else if c == b't'
    then skip_token (codes "true") s
    else if c == b'n'
    then skip_token (codes "null") s
    else if c == b'"'
    then json_string_skip s
    else if c == b'['
    then skip_array value (drop 1 s)
    else if c == b'{'
    then skip_object value (drop 1 s)
    else if starts_number c
    then ok (read_while is_number_char s).1
    else if c == 0
    then error unexpected_end
    else error unexpected_symbol

unfoldable pub do_json_skip : ℕ → List ℕ → Result Error (List ℕ)
unfolding skip_switch
do_json_skip zero s = error too_deep
do_json_skip (suc depth) s = skip_switch (do_json_skip depth) (skip_whitespaces s)
