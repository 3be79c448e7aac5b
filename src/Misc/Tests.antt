-- ===== src/Misc/Tests.antt =====
-- misc.cpp: runs, and the theorems on them.
use pxc_core.Prelude.{ℕ, ◌≡◌, refl, true, some, List, [], ◌∷◌, arith, error, ok, codes}
use pxc_core.Misc.{
  hex_decode_pairs, hex_decode, hex_to_int, wrong_length, wrong_digit, url_encode, url_decode,
  url_escape, url_chars, url_plain, zero_encode, zero_decode, zero_one_encode, zero_one_decode,
}
use pxc_core.Misc.Url.{url_decode-url_encode}
use pxc_core.Misc.Runs.{zero_decode-zero_encode}

hex_decodes : hex_decode (codes "0aFF") ≡ ok (10 ∷ 255 ∷ [])
unfolding hex_decode hex_decode_pairs hex_to_int
hex_decodes = refl

hex_fails :
    (hex_decode (codes "0") ≡ error wrong_length) × (hex_decode (codes "0g") ≡ error wrong_digit)
unfolding hex_decode hex_decode_pairs hex_to_int
hex_fails = (refl, refl)

url_encodes : url_encode (codes "a b/c") ≡ some (codes "a%20b%2Fc")
unfolding url_encode url_chars url_escape
url_encodes = refl

url_decodes : url_decode true (codes "a+b%2fc%2") ≡ codes "a b/c%2"
unfolding url_decode hex_to_int url_plain
url_decodes = refl

zero_encodes : zero_encode (1 ∷ 0 ∷ 0 ∷ 0 ∷ 2 ∷ []) ≡ 1 ∷ 0 ∷ 3 ∷ 2 ∷ []
unfolding zero_encode
zero_encodes = refl

url_decode-url_encode_example :
    (e : List ℕ) × (url_encode (43 ∷ 200 ∷ []) ≡ some e) × (url_decode true e ≡ 43 ∷ 200 ∷ [])
url_decode-url_encode_example = url_decode-url_encode true (43 ∷ 200 ∷ []) (omega arith)

zero_decode-zero_encode_example :
    (zero_decode (zero_encode (1 ∷ 0 ∷ 0 ∷ [])) ≡ 1 ∷ 0 ∷ 0 ∷ [])
    × (zero_one_decode (zero_one_encode (1 ∷ 0 ∷ 0 ∷ [])) ≡ 1 ∷ 0 ∷ 0 ∷ [])
zero_decode-zero_encode_example = zero_decode-zero_encode (1 ∷ 0 ∷ 0 ∷ [])
