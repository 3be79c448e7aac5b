-- ===== src/Utf8.antt =====
-- pxcutils/pxc/utils/utf8.h and utf8.cpp: UTF-8 as a list of bytes. Masks of low or high bits are
-- `%` and `/`, and `|` of fields without a common bit is `+`. A C string ends in the byte 0 that
-- stands behind its last one, which `check_utf8` reads; a read behind that byte is `none`.
pub mod Rounds
pub mod Encode
pub mod Bounds
pub mod Count
pub mod Truncate
mod Tests
use pxc_core.Prelude.{
  ℕ, zero, suc, ◌+◌, ◌-◌, ◌*◌, ◌/◌, ◌%◌, ◌==◌, ltb, leb, if◌then◌else◌, Bool, true, false, not,
  ◌&&◌, Option, none, some, List, [], ◌∷◌, ◌++◌, length, take, drop, sub64,
}
use mathlib.Core.Option

-- `is_utf8_character_first_code_unit`: `(c & 0xC0) != 0x80`
unfoldable pub is_first : ℕ → Bool
is_first c = not (c / 64 == 2)

-- `utf8_length`
unfoldable pub utf8_length : List ℕ → ℕ
utf8_length [] = 0
utf8_length (c ∷ cs) = (if is_first c then 1 else 0) + utf8_length cs

-- `utf8_utf16_length`
unfoldable pub utf16_length : List ℕ → ℕ
utf16_length [] = 0
utf16_length (c ∷ cs) =
    (if is_first c then 1 else 0) + (if c / 8 == 30 then 1 else 0) + utf16_length cs

-- `append_utf8_character`: the bytes that are appended; `static_cast<char>` keeps eight bits.
unfoldable pub append_character : ℕ → List ℕ
append_character code =
    if leb code 0x7f
    then code % 256 ∷ []
    else if leb code 0x7ff
    then (192 + code / 64) % 256 ∷ (128 + code % 64) ∷ []
    else if leb code 0xffff
    then (224 + code / 4096) % 256 ∷ (128 + code / 64 % 64) ∷ (128 + code % 64) ∷ []
    else (240 + code / 262144) % 256
      ∷ (128 + code / 4096 % 64)
      ∷ (128 + code / 64 % 64)
      ∷ (128 + code % 64)
      ∷ []

-- `next_utf8_unsafe`: the code and the bytes behind it. `none` is UNREACHABLE or a read past the
-- end.
unfoldable pub next : List ℕ → Option (ℕ × List ℕ)
next [] = none
next (a ∷ []) = if a / 128 == 0 then some (a, []) else none
next (a ∷ b ∷ []) =
    if a / 128 == 0
    then some (a, b ∷ [])
    else if a / 32 % 2 == 0
    then some (a % 32 * 64 + b % 64, [])
    else none
next (a ∷ b ∷ c ∷ []) =
    if a / 128 == 0
    then some (a, b ∷ c ∷ [])
    else if a / 32 % 2 == 0
    then some (a % 32 * 64 + b % 64, c ∷ [])
    else if a / 16 % 2 == 0
    then some (a % 16 * 4096 + b % 64 * 64 + c % 64, [])
    else none
next (a ∷ b ∷ c ∷ d ∷ rest) =
    if a / 128 == 0
    then some (a, b ∷ c ∷ d ∷ rest)
    else if a / 32 % 2 == 0
    then some (a % 32 * 64 + b % 64, c ∷ d ∷ rest)
    else if a / 16 % 2 == 0
    then some (a % 16 * 4096 + b % 64 * 64 + c % 64, d ∷ rest)
    else if a / 8 % 2 == 0
    then some (a % 8 * 262144 + b % 64 * 4096 + c % 64 * 64 + d % 64, rest)
    else none

-- A byte that continues a character: `(b & 0xc0) == 0x80`.
abbrev pub continues : ℕ → Bool
continues b = b / 64 == 2

-- The tests of `check_utf8` on the first byte and those behind it, for two, three and four bytes.
unfoldable pub two_ok : ℕ → Bool
two_ok a = ltb 0 (a / 2 % 16)

unfoldable pub three_ok : ℕ → ℕ → Bool
three_ok a b = let x = a % 16 * 64 + b / 32 % 2 * 32 in not (x == 0) && not (x == 0x360)

unfoldable pub four_ok : ℕ → ℕ → Bool
four_ok a b = let t = a % 8 * 64 + b / 16 % 4 * 16 in ltb 0 t && ltb t 0x110

-- `check_utf8` on the bytes of the string and the 0 that ends it. `none` is a read behind that 0.
unfoldable pub check_from : List ℕ → Option Bool
check_from [] = none
check_from (a ∷ []) =
    if a / 128 == 0 then some true else if a / 64 % 2 == 0 then some false else none
check_from (a ∷ b ∷ []) =
    let rest = check_from (b ∷ []) in
    if a / 128 == 0
    then rest
    else if a / 64 % 2 == 0
    then some false
    else if not (continues b)
    then some false
    else if a / 32 % 2 == 0
    then (if two_ok a then none else some false)
    else none
check_from (a ∷ b ∷ c ∷ []) =
    let one = check_from (b ∷ c ∷ []) in
    let two = check_from (c ∷ []) in
    if a / 128 == 0
    then one
    else if a / 64 % 2 == 0
    then some false
    else if not (continues b)
    then some false
    else if a / 32 % 2 == 0
    then (if two_ok a then two else some false)
    else if not (continues c)
    then some false
    else if a / 16 % 2 == 0
    then (if three_ok a b then none else some false)
    else none
check_from (a ∷ b ∷ c ∷ d ∷ rest) =
    let one = check_from (b ∷ c ∷ d ∷ rest) in
    let two = check_from (c ∷ d ∷ rest) in
    let three = check_from (d ∷ rest) in
    let four = check_from rest in
    if a / 128 == 0
    then one
    else if a / 64 % 2 == 0
    then some false
    else if not (continues b)
    then some false
    else if a / 32 % 2 == 0
    then (if two_ok a then two else some false)
    else if not (continues c)
    then some false
    else if a / 16 % 2 == 0
    then (if three_ok a b then three else some false)
    else if not (continues d)
    then some false
    else if a / 8 % 2 == 0
    then (if four_ok a b then four else some false)
    else some false

unfoldable pub check_utf8 : List ℕ → Option Bool
unfolding check_from two_ok three_ok four_ok
check_utf8 str = check_from (str ++ 0 ∷ [])

-- `prev_utf8_unsafe` over the bytes before the pointer, nearest first: the number of bytes that it
-- goes back, and `none` when it leaves the string.
unfoldable pub prev : List ℕ → Option ℕ
prev [] = none
prev (c ∷ before) = let rest = prev before in if is_first c then some 1 else Option.map suc rest

-- The loop of `utf8_truncate`: the bytes kept.
unfoldable pub truncate_from : List ℕ → ℕ → List ℕ
truncate_from [] n = []
truncate_from (c ∷ cs) n =
    if is_first c
    then (if n == 0 then [] else c ∷ truncate_from cs (n - 1))
    else c ∷ truncate_from cs n

unfoldable pub utf8_truncate : List ℕ → ℕ → List ℕ
unfolding truncate_from
utf8_truncate str n = if ltb n (length str) then truncate_from str n else str

unfoldable pub utf8_substr : List ℕ → ℕ → List ℕ
utf8_substr str offset = if offset == 0 then str else drop (length (utf8_truncate str offset)) str

unfoldable pub utf8_substr_length : List ℕ → ℕ → ℕ → List ℕ
utf8_substr_length str offset n = utf8_truncate (utf8_substr str offset) n

-- `utf8_utf16_truncate`; the size_t wraps below 0.
unfoldable pub utf16_truncate : List ℕ → ℕ → List ℕ
utf16_truncate [] n = []
utf16_truncate (c ∷ cs) n =
    if is_first c
    then (if n == 0
        then []
        else c ∷ utf16_truncate cs (if leb 0xf0 c then sub64 (sub64 n 1) 1 else sub64 n 1))
    else c ∷ utf16_truncate cs n

unfoldable pub utf16_substr : List ℕ → ℕ → List ℕ
utf16_substr str offset = if offset == 0 then str else drop (length (utf16_truncate str offset)) str

unfoldable pub utf16_substr_length : List ℕ → ℕ → ℕ → List ℕ
utf16_substr_length str offset n = utf16_truncate (utf16_substr str offset) n
