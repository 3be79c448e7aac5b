-- ===== src/Tl/Tests.antt =====
-- tl_parsers.h and tl_storers.h: values stored and parsed at concrete inputs.
use pxc_core.Prelude.{
  ℕ, ◌^◌, ◌≡◌, refl, true, List, [], ◌∷◌, ◌++◌, length, some, get_elem?, ◌≢◌, map, error, ok, codes,
  replicate, arith,
}
use pxc_core.Tl.{
  TlParser, not_enough_data, too_much_data, check_failed, Value, flag, int, long, string, int_kind,
  long_kind, string_kind, store_string, string_head, store_all, parse_all, unserialize, serialize,
  fetch_string_raw, new_parser,
}
use pxc_core.Utf8.{check_utf8}
use pxc_core.Tl.Buffer.{fetch_text, fetch_text-check_utf8}
use pxc_core.Tl.States.{Shape, ready, broken, state}
use pxc_core.Tl.Safe.{Ended, unserialize-Ended, parse_all-broken}
use pxc_core.Tl.RoundTrip.{kind_of, unserialize-serialize}

abbrev fields : List Value
fields = int 700 ∷ string (codes "hello") ∷ flag true ∷ long 5000000000 ∷ []

-- One byte of length, the text, and zeros up to four bytes.
store_string-hello : store_string (codes "hello") ≡ ok (5 ∷ codes "hello" ++ 0 ∷ 0 ∷ [])
unfolding store_string
store_string-hello = refl

-- The length of a longer text takes four bytes.
store_string-long :
    store_string (replicate 254 7) ≡ ok (254 ∷ 254 ∷ 0 ∷ 0 ∷ replicate 254 7 ++ 0 ∷ 0 ∷ [])
unfolding store_string
store_string-long = refl

-- A text of 2 ^ 32 bytes is too long.
string_head_too_long : string_head (2 ^ 32) ≡ error check_failed
unfolding string_head
string_head_too_long = refl

-- Bytes that are left at the end are an error at their position.
unserialize-left :
    unserialize (int_kind ∷ []) (1 ∷ 0 ∷ 0 ∷ 0 ∷ 9 ∷ [])
    ≡ ok (int 1 ∷ [], state (broken too_much_data 4 (replicate 32 0)))
unfolding unserialize
unserialize-left = refl

-- A text without its bytes is an error, behind the length that was there.
unserialize-short :
    unserialize (string_kind ∷ int_kind ∷ []) (9 ∷ 1 ∷ 2 ∷ 3 ∷ [])
    ≡ ok (string [] ∷ int 0 ∷ [], state (broken not_enough_data 4 (replicate 28 0)))
unfolding unserialize
unserialize-short = refl

fetch_string_raw-two :
    fetch_string_raw 2 (new_parser (4 ∷ 5 ∷ 6 ∷ [])) ≡ ok (4 ∷ 5 ∷ [], state (ready 3 (6 ∷ [])))
unfolding fetch_string_raw
fetch_string_raw-two = refl

abbrev stored : List ℕ
stored =
    188 ∷ 2 ∷ 0 ∷ 0 ∷ 5 ∷ codes "hello"
    ++ 0 ∷ 0 ∷ 1 ∷ 0 ∷ 0 ∷ 0 ∷ 0 ∷ 242 ∷ 5 ∷ 42 ∷ 1 ∷ 0 ∷ 0 ∷ 0 ∷ []

store_all-fields : store_all fields ≡ ok stored
unfolding store_all
store_all-fields = refl

unserialize-serialize_example :
    (serialize fields ≡ ok stored)
    × (unserialize (map kind_of fields) stored ≡ ok (fields, state (ready 24 [])))
unserialize-serialize_example =
    unserialize-serialize fields stored refl store_all-fields (omega arith)

unserialize-Ended_example :
    (vs : List Value) × (p : TlParser) × (unserialize
        (string_kind ∷ long_kind ∷ [])
        (255 ∷ 1 ∷ 2 ∷ 3 ∷ 4 ∷ [])
      ≡ ok (vs, p))
    × (length vs ≡ 2)
    × Ended p
unserialize-Ended_example =
    unserialize-Ended (string_kind ∷ long_kind ∷ []) (255 ∷ 1 ∷ 2 ∷ 3 ∷ 4 ∷ [])

parse_all-broken_example :
    (rest : List ℕ) × (parse_all
        (int_kind ∷ string_kind ∷ [])
        (state (broken too_much_data 4 (8 ∷ 9 ∷ [])))
      ≡ ok (int 0 ∷ string [] ∷ [], state (broken too_much_data 4 rest)))
parse_all-broken_example =
    parse_all-broken (int_kind ∷ string_kind ∷ []) too_much_data 4 (8 ∷ 9 ∷ [])

-- A zero becomes a space and the broken character at the end is cut off.
fetch_text-cut :
    fetch_text (new_parser (5 ∷ 97 ∷ 0 ∷ 98 ∷ 0xe2 ∷ 0x82 ∷ 0 ∷ 0 ∷ []))
    ≡ ok (97 ∷ 32 ∷ 98 ∷ [], state (ready 8 []))
unfolding fetch_text check_utf8
fetch_text-cut = refl

fetch_text-check_utf8_example :
    (text : List ℕ) × (r : Shape) × (fetch_text (state (ready 4 (3 ∷ 97 ∷ 0xe2 ∷ 0x82 ∷ [])))
      ≡ ok (text, state r))
    × (check_utf8 text ≡ some true)
    × (get_elem? text 1 ≢ some 0)
fetch_text-check_utf8_example = fetch_text-check_utf8 (ready 4 (3 ∷ 97 ∷ 0xe2 ∷ 0x82 ∷ [])) 1
