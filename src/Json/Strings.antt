-- ===== src/Json/Strings.antt =====
-- JsonBuilder.cpp: writing and reading of strings.
use pxc_core.Prelude.{
  ℕ, zero, suc, ◌+◌, ◌*◌, ◌/◌, ◌%◌, ◌==◌, ltb, leb, if◌then◌else◌, Bool, false, ◌&&◌, ◌||◌, ◌≡◌,
  ◌⊎◌, refl, inl, inr, Option, none, some, List, [], ◌∷◌, ◌++◌, length, drop, Result, error, ok,
  ◌>>=◌,
}
use pxc_core.Utf8.{append_character}
use pxc_core.Misc.{hex_to_int, lower_digit}
use pxc_core.Parser.{try_skip}
use pxc_core.Json.{
  Error, no_opening_quote, no_closing_quote, short_escape, wrong_escape, out_of_fuel, Parsed,
}

-- `JsonOneChar`, for a code below 2 ^ 16.
unfoldable pub write_one_char : ℕ → List ℕ
write_one_char c =
    b'\\'
    ∷ b'u'
    ∷ lower_digit (c / 4096)
    ∷ lower_digit (c / 256 % 16)
    ∷ lower_digit (c / 16 % 16)
    ∷ lower_digit (c % 16)
    ∷ []

abbrev pub is_surrogate : ℕ → Bool
is_surrogate c = ltb 0xD7FF c && ltb c 0xE000

-- `JsonChar`. `none` is UNREACHABLE.
unfoldable pub write_char : ℕ → Option (List ℕ)
unfolding write_one_char
write_char c =
    if ltb c 0x10000
    then (if is_surrogate c then none else some (write_one_char c))
    else if leb c 0x10ffff
    then some (write_one_char (0xD7C0 + c / 1024) ++ write_one_char (0xDC00 + c % 1024))
    else none

-- The cases of the `switch` that both string writers share: a character below 128.
unfoldable pub write_ascii : ℕ → List ℕ
unfolding write_one_char
write_ascii c =
    if c == b'"'
    then b'\\' ∷ b'"' ∷ []
    else if c == b'\\'
    then b'\\' ∷ b'\\' ∷ []
    else if c == 8
    then b'\\' ∷ b'b' ∷ []
    else if c == 12
    then b'\\' ∷ b'f' ∷ []
    else if c == 10
    then b'\\' ∷ b'n' ∷ []
    else if c == 13
    then b'\\' ∷ b'r' ∷ []
    else if c == 9
    then b'\\' ∷ b't' ∷ []
    else if leb c 31
    then write_one_char c
    else c ∷ []

-- The loop of the writer of `JsonRawString`.
unfoldable pub write_raw : List ℕ → List ℕ
unfolding write_ascii
write_raw [] = []
write_raw (c ∷ s) = write_ascii c ++ write_raw s

unfoldable pub write_raw_string : List ℕ → List ℕ
unfolding write_raw
write_raw_string s = b'"' ∷ (write_raw s ++ b'"' ∷ [])

-- The rounds of the writer of `JsonString` on a character of several bytes, by the bytes that are
-- there behind the first one: what is written, and what is left. `none` is a failed CHECK.
abbrev pub and_then : Option (List ℕ) → List ℕ → Option (List ℕ × List ℕ)
and_then none rest = none
and_then (some out) rest = some (out, rest)

unfoldable pub write_four : ℕ → ℕ → ℕ → List ℕ → Option (List ℕ × List ℕ)
unfolding write_char
write_four a b c [] = none
write_four a b c (d ∷ s) =
    if d / 64 == 2 && a / 8 % 2 == 0 && (ltb 0 (a % 8) || ltb 0 (b / 16 % 4))
    then and_then (write_char (a % 8 * 262144 + b % 64 * 4096 + c % 64 * 64 + d % 64)) s
    else none

unfoldable pub write_three : ℕ → ℕ → List ℕ → Option (List ℕ × List ℕ)
unfolding write_four write_char
write_three a b [] = none
write_three a b (c ∷ s) =
    if c / 64 == 2
    then (if a / 16 % 2 == 0
        then (if ltb 0 (a % 16) || ltb 0 (b / 32 % 2)
            then and_then (write_char (a % 16 * 4096 + b % 64 * 64 + c % 64)) s
            else none)
        else write_four a b c s)
    else none

unfoldable pub write_two : ℕ → List ℕ → Option (List ℕ × List ℕ)
unfolding write_three write_char
write_two a [] = none
write_two a (b ∷ s) =
    if a / 64 % 2 == 1 && b / 64 == 2
    then (if a / 32 % 2 == 0
        then (if ltb 0 (a % 32 / 2) then and_then (write_char (a % 32 * 64 + b % 64)) s else none)
        else write_three a b s)
    else none

unfoldable pub write_round : ℕ → List ℕ → Option (List ℕ × List ℕ)
unfolding write_ascii write_two
write_round c s = if leb 128 c then write_two c s else some (write_ascii c, s)

-- The loop of the writer, one round for each character.
unfoldable pub write_text : ℕ → List ℕ → Option (List ℕ)
unfolding write_round
write_text fuel [] = some []
write_text zero (c ∷ s) = none
write_text (suc fuel) (c ∷ s) = elim (write_round c s) [
  | none ↦ none
  | some (out, rest) ↦ elim (write_text fuel rest) [ none ↦ none | some more ↦ some (out ++ more) ]
]

unfoldable pub write_string : List ℕ → Option (List ℕ)
unfolding write_text
write_string s = elim (write_text (length s) s) [
  | none ↦ none
  | some out ↦ some (b'"' ∷ (out ++ b'"' ∷ []))
]

-- What one round of the loop of `json_string_decode` does.
pub data Round : Type 0 where
  closed : List ℕ → Round
  wrote : List ℕ → List ℕ → Round
  failed : Error → Round

pub Round-cases :
    (r : Round)
    → ((rest : List ℕ) × (r ≡ closed rest))
      ⊎ ((out : List ℕ) × (rest : List ℕ) × (r ≡ wrote out rest))
      ⊎ ((e : Error) × (r ≡ failed e))
Round-cases (closed rest) = inl (rest, refl)
Round-cases (wrote out rest) = inr (inl (out, rest, refl))
Round-cases (failed e) = inr (inr (e, refl))

-- `n` hexadecimal digits, behind the number `num`.
unfoldable pub read_hex : ℕ → ℕ → List ℕ → Option (ℕ × List ℕ)
read_hex zero num s = some (num, s)
read_hex (suc n) num [] = none
read_hex (suc n) num (c ∷ s) =
    let rest = read_hex n (num * 16 + hex_to_int c) s in if hex_to_int c == 16 then none else rest

-- A second escape stands at the head.
unfoldable pub starts_escape : List ℕ → Bool
starts_escape [] = false
starts_escape (a ∷ []) = false
starts_escape (a ∷ b ∷ s) = leb 4 (length s) && a == b'\\' && b == b'u'

abbrev pub join_surrogates : ℕ → ℕ → ℕ
join_surrogates num new = num % 1024 * 1024 + new % 1024 + 0x10000

-- The rest of the escape of a surrogate, and then that of a character.
unfoldable pub decode_pair : ℕ → List ℕ → Round
unfolding read_hex starts_escape
decode_pair num s =
    if starts_escape s
    then elim (read_hex 4 0 (drop 2 s)) [
      | none ↦ failed wrong_escape
      | some (new, s') ↦
          if is_surrogate new
          then wrote (append_character (join_surrogates num new)) s'
          else wrote (append_character num) s
    ]
    else wrote (append_character num) s

unfoldable pub decode_unicode : List ℕ → Round
unfolding read_hex decode_pair
decode_unicode s = if ltb (length s) 4 then failed short_escape else elim (read_hex 4 0 s) [
  | none ↦ failed wrong_escape
  | some (num, s') ↦
      if is_surrogate num then decode_pair num s' else wrote (append_character num) s'
]

-- The character behind a backslash.
unfoldable pub unescape : ℕ → ℕ
unescape c =
    if c == b'b'
    then 8
    else if c == b'f'
    then 12
    else if c == b'n'
    then 10
    else if c == b'r'
    then 13
    else if c == b't'
    then 9
    else c

unfoldable pub decode_escape : List ℕ → Round
unfolding decode_unicode unescape
decode_escape [] = failed no_closing_quote
decode_escape (c ∷ s) = if c == b'u' then decode_unicode s else wrote (unescape c ∷ []) s

unfoldable pub decode_round : List ℕ → Round
unfolding decode_escape
decode_round [] = failed no_closing_quote
decode_round (c ∷ s) =
    if c == b'"' then closed s else if c == b'\\' then decode_escape s else wrote (c ∷ []) s

unfoldable pub decode_loop : ℕ → List ℕ → Parsed (List ℕ)
unfolding decode_round
decode_loop zero s = error out_of_fuel
decode_loop (suc fuel) s = elim (decode_round s) [
  | closed rest ↦ ok ([], rest)
  | failed e ↦ error e
  | wrote out s' ↦ decode_loop fuel s' >>= λ (more, rest). ok (out ++ more, rest)
]

unfoldable pub json_string_decode : List ℕ → Parsed (List ℕ)
unfolding decode_loop
json_string_decode s = elim (try_skip b'"' s) [
  | none ↦ error no_opening_quote
  | some r ↦ decode_loop (length r + 1) r
]

-- The escape in `json_string_skip`: what is left.
unfoldable pub skip_pair : ℕ → List ℕ → Round
unfolding read_hex starts_escape
skip_pair num s =
    if starts_escape s
    then elim (read_hex 4 0 (drop 2 s)) [
      | none ↦ failed wrong_escape
      | some (new, s') ↦ if is_surrogate new then wrote [] s' else wrote [] s
    ]
    else wrote [] s

unfoldable pub skip_unicode : List ℕ → Round
unfolding read_hex skip_pair
skip_unicode s = if ltb (length s) 4 then failed short_escape else elim (read_hex 4 0 s) [
  | none ↦ failed wrong_escape
  | some (num, s') ↦ if is_surrogate num then skip_pair num s' else wrote [] s'
]

unfoldable pub skip_escape : List ℕ → Round
unfolding skip_unicode
skip_escape [] = failed no_closing_quote
skip_escape (c ∷ s) = if c == b'u' then skip_unicode s else wrote [] s

unfoldable pub skip_round : List ℕ → Round
unfolding skip_escape
skip_round [] = failed no_closing_quote
skip_round (c ∷ s) =
    if c == b'"' then closed s else if c == b'\\' then skip_escape s else wrote [] s

unfoldable pub skip_loop : ℕ → List ℕ → Result Error (List ℕ)
unfolding skip_round
skip_loop zero s = error out_of_fuel
skip_loop (suc fuel) s = elim (skip_round s) [
  | closed rest ↦ ok rest
  | failed e ↦ error e
  | wrote out s' ↦ skip_loop fuel s'
]

unfoldable pub json_string_skip : List ℕ → Result Error (List ℕ)
unfolding skip_loop
json_string_skip s = elim (try_skip b'"' s) [
  | none ↦ error no_opening_quote
  | some r ↦ skip_loop (length r + 1) r
]
