-- ===== src/Base64/Tests.antt =====
-- Runs of base64.cpp, and its theorems at concrete strings.
use pxc_core.Prelude.{codes, ℕ, ◌≡◌, refl, true, false, List, [], ◌∷◌, arith, length}
use pxc_core.Base64.{
  character, encode, decode, is_base64, filter, is_characters, strip, drop_padding, decode_groups,
  decoded_size, value, ok, err, wrong_padding,
}
use pxc_core.Base64.RoundTrip.{decode-encode}
use pxc_core.Base64.Accepts.{is_base64-decode, length-decode, is_ok}

abbrev text : List ℕ
text = codes "any carnal pleas"

-- The sample of RFC 4648 style texts: `=` only in the plain alphabet.
encodes : encode false (codes "fooba") ≡ codes "Zm9vYmE="
unfolding encode character
encodes = refl

encodes_url : encode true (251 ∷ 239 ∷ []) ≡ codes "--8"
unfolding encode character
encodes_url = refl

decodes : decode false (codes "Zm9vYmE=") ≡ ok (codes "fooba")
unfolding decode drop_padding strip decode_groups value
decodes = refl

rejects :
    (decode false (codes "Zm9vYmF=") ≡ err wrong_padding) × (is_base64 true (codes "Zm9v+") ≡ false)
unfolding decode drop_padding strip decode_groups value is_base64 is_characters
rejects = (refl, refl)

filters : filter (codes "Zm 9v-Ym=") ≡ codes "Zm9vYm="
unfolding filter value
filters = refl

decode-encode_example : decode false (encode false text) ≡ ok text
decode-encode_example = decode-encode false text (omega arith)

is_base64-decode_example : is_base64 true (codes "Zm9vYmE") ≡ is_ok (decode true (codes "Zm9vYmE"))
is_base64-decode_example = is_base64-decode true (codes "Zm9vYmE") (omega arith)

length-decode_example : length (codes "fooba") ≡ decoded_size (strip (codes "Zm9vYmE=")).0
length-decode_example = length-decode false (codes "Zm9vYmE=") (codes "fooba") decodes
