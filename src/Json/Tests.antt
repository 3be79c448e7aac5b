-- ===== src/Json/Tests.antt =====
-- JsonBuilder.cpp: runs, and the theorems on them.
use pxc_core.Prelude.{
  ℕ, ◌≡◌, refl, if◌then◌else◌, true, some, List, [], ◌∷◌, ◌++◌, arith, error, ok, codes, inl, inr,
}
use pxc_core.Utf8.{append_character}
use pxc_core.Utf8.Encode.{AllScalar, text}
use pxc_core.Misc.{hex_to_int}
use pxc_core.Parser.{skip_whitespaces, read_while, try_skip_prefix}
use pxc_core.Json.{too_deep}
use pxc_core.Json.Strings.{json_string_decode, write_string, write_raw_string}
use pxc_core.Json.Values.{
  null, number, boolean, array, object, nil, cons, end, field, do_json_decode, do_json_skip,
  decode_token, decode_array, decode_object, is_number_char, starts_number,
}
use pxc_core.Json.Objects.{
  get_field, same, number_type, string_type, extract_required_field, wrong_type,
}
use pxc_core.Json.Escapes.{json_string_decode-write_raw_string}
use pxc_core.Json.Texts.{json_string_decode-write_string}
use pxc_core.Json.Bounds.{Ends, json_string_decode-Ends}
use pxc_core.Json.Ends.{Stops, do_json_decode-Stops}
use pxc_core.Json.Skip.{left, passed, do_json_skip-left}
use pxc_core.Json.Objects.{extract_required_field_twice}

abbrev sample : List ℕ
sample = codes " {\"a\" : [1, true], \"b\":null} x"

decodes_sample :
    do_json_decode 3 sample
    ≡ ok (
      object (
          field
            (codes "a")
            (array (cons (number (codes "1")) (cons (boolean true) nil)))
            (field (codes "b") null end)),
      codes " x",
    )
unfolding do_json_decode json_string_decode decode_token decode_array decode_object is_number_char
    starts_number skip_whitespaces read_while try_skip_prefix
decodes_sample = refl

too_deep_sample : do_json_decode 2 sample ≡ error too_deep
unfolding do_json_decode json_string_decode decode_token decode_array decode_object is_number_char
    starts_number skip_whitespaces read_while try_skip_prefix
too_deep_sample = refl

surrogates : json_string_decode (codes "\"\\ud83d\\ude00\"") ≡ ok (240 ∷ 159 ∷ 152 ∷ 128 ∷ [], [])
unfolding json_string_decode hex_to_int append_character
surrogates = refl

json_string_decode-write_raw_string_example :
    json_string_decode (write_raw_string (10 ∷ 1 ∷ 200 ∷ 34 ∷ []) ++ codes "x")
    ≡ ok (10 ∷ 1 ∷ 200 ∷ 34 ∷ [], codes "x")
json_string_decode-write_raw_string_example =
    json_string_decode-write_raw_string (10 ∷ 1 ∷ 200 ∷ 34 ∷ []) (codes "x")

scalars : AllScalar (233 ∷ 0x1f600 ∷ [])
scalars = (
  record { small = omega arith; outside = inl (omega arith) },
  (record { small = omega arith; outside = inr (omega arith) }, tt),
)

json_string_decode-write_string_example :
    (out : List ℕ) × (write_string (text (233 ∷ 0x1f600 ∷ [])) ≡ some out)
    × (json_string_decode (out ++ codes "x") ≡ ok (text (233 ∷ 0x1f600 ∷ []), codes "x"))
json_string_decode-write_string_example =
    json_string_decode-write_string (233 ∷ 0x1f600 ∷ []) (codes "x") scalars

json_string_decode-Ends_example : Ends 2 sample (json_string_decode sample)
json_string_decode-Ends_example = json_string_decode-Ends sample

do_json_decode-Stops_example : Stops 1 sample (do_json_decode 3 sample)
do_json_decode-Stops_example = do_json_decode-Stops 3 sample

do_json_skip-left_example : passed (do_json_skip 3 sample) ≡ left (do_json_decode 3 sample)
do_json_skip-left_example = do_json_skip-left 3 sample

get_field-a :
    get_field (codes "a") (field (codes "a") (number (codes "7")) end) ≡ some (number (codes "7"))
unfolding get_field
get_field-a = refl

extract_required_field_twice_example :
    ((extract_required_field (codes "a") number_type (field (codes "a") (number (codes "7")) end)).0
      ≡ ok (number (codes "7")))
    × (get_field
          (codes "b")
          (extract_required_field
            (codes "a")
            number_type
            (field (codes "a") (number (codes "7")) end)).1
        ≡ (if same (codes "a") (codes "b")
            then some null
            else get_field (codes "b") (field (codes "a") (number (codes "7")) end)))
    × ((extract_required_field
          (codes "a")
          string_type
          (extract_required_field
            (codes "a")
            number_type
            (field (codes "a") (number (codes "7")) end)).1).0
        ≡ error wrong_type)
extract_required_field_twice_example =
    extract_required_field_twice (codes "a") (codes "b") number_type string_type
      (field (codes "a") (number (codes "7")) end) (number (codes "7")) get_field-a (inr refl)
      (λ e. absurd (omega arith))
