-- ===== src/Misc.antt =====
-- pxcutils/pxc/utils/misc.h and misc.cpp: the encodings of bytes as text. A string is the list of
-- its bytes; a `char` that is negative in the source is a byte of 128 and above.
pub mod Hex
pub mod Url
pub mod Runs
mod Tests
use pxc_core.Prelude.{
  ℕ, zero, suc, ◌+◌, ◌-◌, ◌*◌, ◌/◌, ◌%◌, ◌==◌, ltb, leb, if◌then◌else◌, Bool, true, false, not,
  ◌&&◌, ◌||◌, Option, none, some, List, [], ◌∷◌, ◌++◌, length, get_or, replicate, Result, error, ok,
  ◌>>=◌, codes,
}

-- `is_alpha`: `c |= 0x20` first.
abbrev pub lower_bit : ℕ → ℕ
lower_bit c = if c / 32 % 2 == 0 then c + 32 else c

unfoldable pub is_alpha : ℕ → Bool
is_alpha c = leb b'a' (lower_bit c) && leb (lower_bit c) b'z'

unfoldable pub is_digit : ℕ → Bool
is_digit c = leb b'0' c && leb c b'9'

unfoldable pub is_alnum : ℕ → Bool
unfolding is_alpha is_digit
is_alnum c = is_alpha c || is_digit c

-- The value of a hexadecimal digit, and 16 for any other character.
unfoldable pub hex_to_int : ℕ → ℕ
unfolding is_digit
hex_to_int c =
    if is_digit c
    then c - b'0'
    else if leb b'a' (lower_bit c) && leb (lower_bit c) b'f'
    then lower_bit c - b'a' + 10
    else 16

pub data HexError : Type 0 where
  wrong_length wrong_digit : HexError

-- The loop of `hex_decode`, two digits a round.
unfoldable pub hex_decode_pairs : List ℕ → Result HexError (List ℕ)
hex_decode_pairs [] = ok []
hex_decode_pairs (h ∷ []) = ok []
hex_decode_pairs (h ∷ l ∷ hex) =
    let rest = hex_decode_pairs hex in
    if hex_to_int h == 16 || hex_to_int l == 16
    then error wrong_digit
    else (do bytes ← rest; ok ((hex_to_int h * 16 + hex_to_int l) ∷ bytes))

unfoldable pub hex_decode : List ℕ → Result HexError (List ℕ)
unfolding hex_decode_pairs
hex_decode hex = if length hex % 2 == 0 then hex_decode_pairs hex else error wrong_length

abbrev pub lower_digit : ℕ → ℕ
lower_digit n = get_or (codes "0123456789abcdef") n 0

abbrev pub upper_digit : ℕ → ℕ
upper_digit n = get_or (codes "0123456789ABCDEF") n 0

unfoldable pub hex_encode : List ℕ → List ℕ
hex_encode [] = []
hex_encode (c ∷ cs) = lower_digit (c / 16) ∷ lower_digit (c % 16) ∷ hex_encode cs

unfoldable pub is_url_char : ℕ → Bool
unfolding is_alnum
is_url_char c = is_alnum c || c == b'-' || c == b'.' || c == b'_' || c == b'~'

-- How many characters need no escape.
unfoldable pub url_chars : List ℕ → ℕ
unfolding is_url_char
url_chars [] = 0
url_chars (c ∷ cs) = (if is_url_char c then 1 else 0) + url_chars cs

-- The loop of `url_encode`.
unfoldable pub url_escape : List ℕ → List ℕ
unfolding is_url_char
url_escape [] = []
url_escape (c ∷ cs) =
    (if is_url_char c then c ∷ [] else b'%' ∷ upper_digit (c / 16) ∷ upper_digit (c % 16) ∷ [])
    ++ url_escape cs

-- `none` is the failed CHECK of the length.
unfoldable pub url_encode : List ℕ → Option (List ℕ)
unfolding url_chars url_escape
url_encode s =
    let n = 3 * length s - 2 * url_chars s in
    if n == length s
    then some s
    else if length (url_escape s) == n
    then some (url_escape s)
    else none

-- A character that is no escape.
unfoldable pub url_plain : Bool → ℕ → ℕ
url_plain plus_is_space c = if plus_is_space && c == b'+' then b' ' else c

unfoldable pub url_decode : Bool → List ℕ → List ℕ
unfolding url_plain
url_decode p [] = []
url_decode p (c ∷ []) = url_plain p c ∷ []
url_decode p (c ∷ h ∷ []) = url_plain p c ∷ url_plain p h ∷ []
url_decode p (c ∷ h ∷ l ∷ s) =
    let escaped = (hex_to_int h * 16 + hex_to_int l) ∷ url_decode p s in
    let plain = url_plain p c ∷ url_decode p (h ∷ l ∷ s) in
    if c == b'%' && ltb (hex_to_int h) 16 && ltb (hex_to_int l) 16 then escaped else plain

-- The `while` of `zero_encode`: the characters `c` at the head, `cnt` of which are counted before
-- and at most 250 in all, and what stands behind them. `cnt` is an `unsigned char`.
unfoldable pub count_run : ℕ → ℕ → List ℕ → ℕ × List ℕ
count_run c cnt [] = (cnt, [])
count_run c cnt (x ∷ s) =
    if ltb cnt 250 && x == c then count_run c ((cnt + 1) % 256) s else (cnt, x ∷ s)

-- `zero_encode` and `zero_one_encode` differ in the characters that they count. The fuel is one
-- round for each character.
module _ (is_counted : ℕ → Bool) where
  unfoldable pub encode_runs : ℕ → List ℕ → List ℕ
  unfolding count_run
  encode_runs zero s = []
  encode_runs (suc fuel) [] = []
  encode_runs (suc fuel) (c ∷ s) =
      let run = count_run c 1 s in
      let counted = c ∷ run.0 % 256 ∷ encode_runs fuel run.1 in
      let plain = c ∷ encode_runs fuel s in if is_counted c then counted else plain

  unfoldable pub decode_runs : List ℕ → List ℕ
  decode_runs [] = []
  decode_runs (c ∷ []) = c ∷ []
  decode_runs (c ∷ n ∷ s) =
      let counted = replicate n c ++ decode_runs s in
      let plain = c ∷ decode_runs (n ∷ s) in if is_counted c then counted else plain

abbrev pub is_zero : ℕ → Bool
is_zero c = c == 0

abbrev pub is_zero_or_one : ℕ → Bool
is_zero_or_one c = c == 0 || c == 255

unfoldable pub zero_encode : List ℕ → List ℕ
unfolding encode_runs
zero_encode s = encode_runs is_zero (length s) s

unfoldable pub zero_decode : List ℕ → List ℕ
unfolding decode_runs
zero_decode s = decode_runs is_zero s

unfoldable pub zero_one_encode : List ℕ → List ℕ
unfolding encode_runs
zero_one_encode s = encode_runs is_zero_or_one (length s) s

unfoldable pub zero_one_decode : List ℕ → List ℕ
unfolding decode_runs
zero_one_decode s = decode_runs is_zero_or_one s
