-- ===== src/Base64.antt =====
-- pxcutils/pxc/utils/base64.cpp: base64 and base64url. A string is the list of its bytes; the
-- template parameter `is_url` is an argument. The shifted bytes and sextets that the source joins
-- by `|` have no common bit, so `|` is `+`; `>>` and `&` with a mask of ones are `/` and `%`.
pub mod Table
pub mod RoundTrip
pub mod Accepts
mod Tests
use pxc_core.Prelude.{
  ℕ, zero, suc, ◌+◌, ◌*◌, ◌/◌, ◌%◌, ◌^◌, ◌==◌, ltb, leb, if◌then◌else◌, Bool, true, false, not,
  ◌&&◌, ◌||◌, List, [], ◌∷◌, ◌++◌, length, get_or, set, replicate, codes,
}

pub data Error : Type 0 where
  wrong_string_padding wrong_padding_length wrong_string_length wrong_character wrong_padding :
      Error

-- `Result<A>`
pub data Result (A : Type 0) : Type 0 where
  err : Error → Result A
  ok : A → Result A

infixl 5 ◌>>=◌
abbrev pub ◌>>=◌ : {A B : Type 0} → Result A → (A → Result B) → Result B
err e >>= next = err e
ok value >>= next = next value

-- `get_characters`
unfoldable pub characters : Bool → List ℕ
characters is_url =
    if is_url
    then codes "ABCDEFGHIJKLMNOPQRSTUVWXYZabcdefghijklmnopqrstuvwxyz0123456789-_"
    else codes "ABCDEFGHIJKLMNOPQRSTUVWXYZabcdefghijklmnopqrstuvwxyz0123456789+/"

-- `char_to_value[characters[i]] = i` for the characters from `i` on.
fill_table : ℕ → List ℕ → List ℕ → List ℕ
fill_table i [] table = table
fill_table i (c ∷ cs) table = fill_table (i + 1) cs (set table c i)

-- `get_character_table`
unfoldable pub character_table : Bool → List ℕ
unfolding characters fill_table
character_table is_url = fill_table 0 (characters is_url) (replicate 256 64)

unfoldable pub character : Bool → ℕ → ℕ
unfolding characters
character is_url v = get_or (characters is_url) v 0

unfoldable pub value : Bool → ℕ → ℕ
unfolding character_table
value is_url c = get_or (character_table is_url) c 64

-- `if (!is_url) base64 += '=';`
abbrev pub padding : Bool → List ℕ
padding is_url = if is_url then [] else b'=' ∷ []

-- `base64_encode_impl`: the clauses are the rounds with one, two and three bytes left.
unfoldable pub encode : Bool → List ℕ → List ℕ
encode is_url [] = []
encode is_url (a ∷ []) =
    let c = a * 65536 in
    character is_url (c / 262144)
    ∷ character is_url (c / 4096 % 64)
    ∷ (padding is_url ++ padding is_url)
encode is_url (a ∷ b ∷ []) =
    let c = a * 65536 + b * 256 in
    character is_url (c / 262144)
    ∷ character is_url (c / 4096 % 64)
    ∷ character is_url (c / 64 % 64)
    ∷ padding is_url
encode is_url (a ∷ b ∷ d ∷ rest) =
    let c = a * 65536 + b * 256 + d in
    character is_url (c / 262144)
    ∷ character is_url (c / 4096 % 64)
    ∷ character is_url (c / 64 % 64)
    ∷ character is_url (c % 64)
    ∷ encode is_url rest

-- One round of the loop that removes `=` from the end: a character before what is left.
pub strip_step : ℕ → List ℕ × ℕ → List ℕ × ℕ
strip_step x ([], n) = if x == b'=' then ([], n + 1) else (x ∷ [], n)
strip_step x (y ∷ ys, n) = (x ∷ y ∷ ys, n)

-- The string without the `=` at its end, and their number.
unfoldable pub strip : List ℕ → List ℕ × ℕ
unfolding strip_step
strip [] = ([], 0)
strip (x ∷ xs) = strip_step x (strip xs)

-- `base64_drop_padding`
unfoldable pub drop_padding : Bool → List ℕ → Result (List ℕ)
drop_padding is_url s =
    let (base64, padding_length) = strip s in
    if leb 3 padding_length
    then err wrong_string_padding
    else if (not is_url || ltb 0 padding_length) && not ((length base64 + padding_length) % 4 == 0)
    then err wrong_padding_length
    else if is_url && length base64 % 4 == 1
    then err wrong_string_length
    else ok base64

checked_value : Bool → ℕ → Result ℕ
checked_value is_url c = let v = value is_url c in if v == 64 then err wrong_character else ok v

-- `do_base64_decode_impl`: the bytes written through `ptr`. The clauses are the rounds with one,
-- two, three and four characters left.
unfoldable pub decode_groups : Bool → List ℕ → Result (List ℕ)
unfolding checked_value
decode_groups is_url [] = ok []
decode_groups is_url (p ∷ []) = do
  v ← checked_value is_url p
  let c = v * 262144
  ok (c / 65536 % 256 ∷ c / 256 % 256 ∷ c % 256 ∷ [])
decode_groups is_url (p ∷ q ∷ []) = do
  v ← checked_value is_url p
  w ← checked_value is_url q
  let c = v * 262144 + w * 4096
  if c % 65536 == 0 then ok (c / 65536 % 256 ∷ []) else err wrong_padding
decode_groups is_url (p ∷ q ∷ r ∷ []) = do
  v ← checked_value is_url p
  w ← checked_value is_url q
  x ← checked_value is_url r
  let c = v * 262144 + w * 4096 + x * 64
  if c % 256 == 0 then ok (c / 65536 % 256 ∷ c / 256 % 256 ∷ []) else err wrong_padding
decode_groups is_url (p ∷ q ∷ r ∷ s ∷ rest) = do
  v ← checked_value is_url p
  w ← checked_value is_url q
  x ← checked_value is_url r
  y ← checked_value is_url s
  let c = v * 262144 + w * 4096 + x * 64 + y
  out ← decode_groups is_url rest
  ok (c / 65536 % 256 ∷ c / 256 % 256 ∷ c % 256 ∷ out)

-- The size that `base64_decode_impl` allocates for the bytes.
abbrev pub decoded_size : List ℕ → ℕ
decoded_size base64 = length base64 / 4 * 3 + (length base64 % 4 + 1) / 2

-- `base64_decode_impl`, for `string` and `SecureString` alike.
unfoldable pub decode : Bool → List ℕ → Result (List ℕ)
decode is_url s = do base64 ← drop_padding is_url s; decode_groups is_url base64

-- `is_base64_characters_impl`
unfoldable pub is_characters : Bool → List ℕ → Bool
is_characters is_url [] = true
is_characters is_url (c ∷ cs) = if value is_url c == 64 then false else is_characters is_url cs

-- `input.back()`
abbrev pub last : List ℕ → ℕ
last [] = 0
last (c ∷ []) = c
last (c ∷ d ∷ cs) = last (d ∷ cs)

-- `is_base64_impl`
unfoldable pub is_base64 : Bool → List ℕ → Bool
is_base64 is_url s =
    let (input, padding_length) = strip s in
    if leb 3 padding_length
    then false
    else if (not is_url || ltb 0 padding_length) && not ((length input + padding_length) % 4 == 0)
    then false
    else if is_url && length input % 4 == 1
    then false
    else if not (is_characters is_url input)
    then false
    else if length input % 4 == 2 && not (value is_url (last input) % 16 == 0)
    then false
    else if length input % 4 == 3 && not (value is_url (last input) % 4 == 0)
    then false
    else true

-- `base64_filter`
unfoldable pub filter : List ℕ → List ℕ
filter [] = []
filter (c ∷ cs) = if not (value false c == 64) || c == b'=' then c ∷ filter cs else filter cs
