-- ===== src/Urls.antt =====
-- pxcutils/pxc/utils/HttpUrl.cpp and HttpUrl.h, with the integers and letters of misc.h and the
-- digits of StringBuilder.cpp: `parse_url` and `get_url`. A string is the list of its bytes, and an
-- `int` its bit pattern. `ipv6` says whether `init_ipv6_port` of IPAddress accepts a text.
pub mod Parts
pub mod Prints
pub mod Integers
mod Tests
use pxc_core.Prelude.{
  ℕ, zero, suc, ◌+◌, ◌-◌, ◌*◌, ◌/◌, ◌%◌, ◌^◌, ◌==◌, ltb, leb, if◌then◌else◌, Bool, true, false, not,
  ◌&&◌, ◌||◌, Option, none, some, List, [], ◌∷◌, ◌++◌, map, Result, error, ok, ◌>>=◌, codes,
}
use pxc_core.Parser.{read_till_any, try_skip_prefix, contains}
use pxc_core.Misc.{is_digit, is_alnum, hex_to_int, upper_digit}

pub data Protocol : Type 0 where
  http https : Protocol

pub data UrlError : Type 0 where
  unsupported_protocol wrong_port wrong_ipv6 empty_host invalid_host wrong_ipv6_host : UrlError
  wrong_percent disallowed_character : UrlError

pub record HttpUrl : Type 0 where
  pub protocol : Protocol
  pub userinfo : List ℕ
  pub host : List ℕ
  pub is_ipv6 : Bool
  pub specified_port : ℕ
  pub port : ℕ
  pub query : List ℕ

abbrev pub equal : List ℕ → List ℕ → Bool
equal [] [] = true
equal [] (y ∷ ys) = false
equal (x ∷ xs) [] = false
equal (x ∷ xs) (y ∷ ys) = x == y && equal xs ys

unfoldable pub to_lower_char : ℕ → ℕ
to_lower_char c = if leb b'A' c && leb c b'Z' then c - b'A' + b'a' else c

unfoldable pub to_lower : List ℕ → List ℕ
unfolding to_lower_char
to_lower [] = []
to_lower (c ∷ s) = to_lower_char c ∷ to_lower s

unfoldable pub is_space : ℕ → Bool
is_space c = c == 32 || c == 9 || c == 13 || c == 10 || c == 0 || c == 11

-- The digits of `to_integer`, as an unsigned value.
unfoldable pub digits_value : ℕ → List ℕ → ℕ
unfolding is_digit
digits_value value [] = value
digits_value value (c ∷ s) =
    let more = digits_value ((value * 10 + (c - b'0')) % 2 ^ 32) s in
    if is_digit c then more else value

-- The `int` of an unsigned value and its sign.
unfoldable pub signed : Bool → ℕ → ℕ
signed is_negative value =
    let wrapped = (2 ^ 32 - value) % 2 ^ 32 in
    if ltb value (2 ^ 31)
    then if is_negative then wrapped else value
    else if ltb wrapped (2 ^ 31)
    then if is_negative then wrapped else value
    else 2 ^ 31

unfoldable pub to_integer : List ℕ → ℕ
unfolding digits_value signed
to_integer [] = 0
to_integer (c ∷ s) =
    if c == b'-' then signed true (digits_value 0 s) else signed false (digits_value 0 (c ∷ s))

-- The loop of `print_uint`, with fuel: an `int` has at most ten digits.
unfoldable pub print_digits : ℕ → ℕ → List ℕ → List ℕ
print_digits zero x s = s
print_digits (suc fuel) x s =
    let digits = (b'0' + x % 10) ∷ s in
    let more = print_digits fuel (x / 10) digits in if x / 10 == 0 then digits else more

-- `current_ptr[-1]++`. When the CHECK before it fails, there is no text.
abbrev pub bump_last : List ℕ → List ℕ
bump_last [] = []
bump_last (c ∷ []) = if c == b'9' then [] else (c + 1) ∷ []
bump_last (c ∷ d ∷ s) = c ∷ bump_last (d ∷ s)

-- The least `int` is printed as its neighbour, with another last digit.
unfoldable pub print_int : ℕ → List ℕ
unfolding print_digits
print_int x =
    if ltb x (2 ^ 31)
    then print_digits 10 x []
    else if x == 2 ^ 31
    then bump_last (b'-' ∷ print_digits 10 (2 ^ 31 - 1) [])
    else b'-' ∷ print_digits 10 (2 ^ 32 - x) []

unfoldable pub to_integer_safe : List ℕ → Option ℕ
unfolding to_integer print_int
to_integer_safe s = if equal (print_int (to_integer s)) s then some (to_integer s) else none

-- `[https?://]`: the protocol and what is behind it.
unfoldable pub read_protocol : List ℕ → Protocol → Result UrlError (Protocol × List ℕ)
unfolding to_lower read_till_any try_skip_prefix
read_protocol url default_protocol =
    let word = to_lower (read_till_any (codes ":/?#@[]") url).0 in
    elim (try_skip_prefix (codes "://") (read_till_any (codes ":/?#@[]") url).1) [
      | none ↦ ok (default_protocol, url)
      | some rest ↦
          if equal word (codes "http")
          then ok (http, rest)
          else if equal word (codes "https")
          then ok (https, rest)
          else error unsupported_protocol
    ]

-- The text before the last of the `stops`, and from it on.
unfoldable pub split_last : List ℕ → List ℕ → Option (List ℕ × List ℕ)
unfolding contains
split_last stops [] = none
split_last stops (c ∷ s) = elim (split_last stops s) [
  | some r ↦ some (c ∷ r.0, r.1)
  | none ↦ if contains stops c then some ([], c ∷ s) else none
]

unfoldable pub strip_zeros : List ℕ → List ℕ
strip_zeros [] = []
strip_zeros (c ∷ []) = c ∷ []
strip_zeros (c ∷ d ∷ s) = let rest = strip_zeros (d ∷ s) in if c == b'0' then rest else c ∷ d ∷ s

-- The number of a port: 0, values that are no port and texts that are no number are wrong.
unfoldable pub port_number : List ℕ → Result UrlError ℕ
unfolding to_integer_safe strip_zeros
port_number s = elim (to_integer_safe (strip_zeros s)) [
  | none ↦ error wrong_port
  | some n ↦ if n == 0 || ltb 65535 n then error wrong_port else ok n
]

-- The port that the text behind the last stop gives, or 0, and what is before it.
unfoldable pub port_of : Option (List ℕ × List ℕ) → List ℕ → Result UrlError (ℕ × List ℕ)
unfolding port_number
port_of none s = ok (0, s)
port_of (some ([], back)) s = ok (0, s)
port_of (some (x ∷ front, [])) s = ok (0, s)
port_of (some (x ∷ front, c ∷ digits)) s =
    if c == b':' then (do n ← port_number digits; ok (n, x ∷ front)) else ok (0, s)

-- `[:port]` at the end.
unfoldable pub read_port : List ℕ → Result UrlError (ℕ × List ℕ)
unfolding split_last port_of
read_port s = port_of (split_last (codes ":]@") s) s

-- `[userinfo@]host`
unfoldable pub split_userinfo : List ℕ → List ℕ × List ℕ
unfolding split_last
split_userinfo s = elim (split_last (b'@' ∷ []) s) [
  | none ↦ ([], s)
  | some (front, []) ↦ ([], s)
  | some (front, c ∷ back) ↦ (front, back)
]

abbrev pub ends_with : ℕ → List ℕ → Bool
ends_with c [] = false
ends_with c (x ∷ []) = x == c
ends_with c (x ∷ y ∷ s) = ends_with c (y ∷ s)

abbrev pub starts_with : ℕ → List ℕ → Bool
starts_with c [] = false
starts_with c (x ∷ s) = x == c

-- The checks of the host before the query: whether it is an IPv6 address.
unfoldable pub check_host : (List ℕ → Bool) → List ℕ → Result UrlError Bool
check_host ipv6 host =
    let is_ipv6 = starts_with b'[' host && ends_with b']' host in
    if is_ipv6 && not (ipv6 host)
    then error wrong_ipv6
    else if equal host []
    then error empty_host
    else if equal host (b'.' ∷ [])
    then error invalid_host
    else ok is_ipv6

unfoldable pub drop_spaces : List ℕ → List ℕ
unfolding is_space
drop_spaces [] = []
drop_spaces (c ∷ s) = elim (drop_spaces s) [
  | [] ↦ if is_space c then [] else c ∷ []
  | d ∷ rest ↦ c ∷ d ∷ rest
]

unfoldable pub escape_query : List ℕ → List ℕ
escape_query [] = []
escape_query (c ∷ s) =
    (if leb c 32 then b'%' ∷ upper_digit (c / 16) ∷ upper_digit (c % 16) ∷ [] else c ∷ [])
    ++ escape_query s

-- The query without spaces at its end, with `/` before it.
unfoldable pub read_query : List ℕ → List ℕ
unfolding drop_spaces escape_query
read_query s =
    let query : List ℕ = elim (drop_spaces s) [ [] ↦ b'/' ∷ [] | c ∷ rest ↦ c ∷ rest ] in
    if starts_with b'/' query then escape_query query else b'/' ∷ escape_query query

abbrev pub url_part_chars : List ℕ
url_part_chars = codes ".-_!$,~*'();&+="

abbrev pub is_hex_digit : ℕ → Bool
is_hex_digit c = ltb (hex_to_int c) 16

-- One round of `check_url_part`: what follows a `%` and what follows any other character.
abbrev pub check_char :
    Bool → ℕ → Result UrlError Bool → Result UrlError Bool → Result UrlError Bool
check_char allow_colon c percent rest =
    if is_alnum c || contains url_part_chars c || (allow_colon && c == b':')
    then rest
    else if c == b'%'
    then percent
    else if leb 128 c
    then rest
    else error disallowed_character

-- `check_url_part`. The reads behind a `%` may leave the part by one byte: it is the 0 at the end of
-- the host, or the `@` behind the userinfo, and no hexadecimal digit.
unfoldable pub check_url_part : Bool → List ℕ → Result UrlError Bool
check_url_part allow_colon [] = ok true
check_url_part allow_colon (c ∷ []) = check_char allow_colon c (error wrong_percent) (ok true)
check_url_part allow_colon (c ∷ h ∷ []) =
    check_char allow_colon c (error wrong_percent) (check_url_part allow_colon (h ∷ []))
check_url_part allow_colon (c ∷ h ∷ l ∷ s) =
    let escaped = check_url_part allow_colon s in
    let rest = check_url_part allow_colon (h ∷ l ∷ s) in
    check_char allow_colon c
      (if is_hex_digit h && is_hex_digit l then escaped else error wrong_percent) rest

-- The characters of an IPv6 address, up to the last one.
unfoldable pub check_ipv6_host : List ℕ → Result UrlError Bool
unfolding is_digit
check_ipv6_host [] = ok true
check_ipv6_host (c ∷ []) = ok true
check_ipv6_host (c ∷ d ∷ s) =
    let rest = check_ipv6_host (d ∷ s) in
    if c == b':' || is_digit c || (leb b'a' c && leb c b'f') || c == b'.'
    then rest
    else error wrong_ipv6_host

abbrev pub tail : List ℕ → List ℕ
tail [] = []
tail (c ∷ s) = s

unfoldable pub check_parts : Bool → List ℕ → List ℕ → Result UrlError Bool
unfolding check_url_part check_ipv6_host
check_parts is_ipv6 host userinfo =
    if is_ipv6
    then check_ipv6_host (tail host)
    else (do host_fits ← check_url_part false host; check_url_part true userinfo)

unfoldable pub default_port : Protocol → ℕ
default_port http = 80
default_port https = 443

unfoldable pub parse_url : (List ℕ → Bool) → List ℕ → Protocol → Result UrlError HttpUrl
unfolding read_protocol read_port split_userinfo check_host read_query check_parts default_port
parse_url ipv6 url default_protocol = do
  (protocol, s) ← read_protocol url default_protocol
  let (userinfo_host_port, rest) = read_till_any (codes "/?#") s
  (port, userinfo_host) ← read_port userinfo_host_port
  let (userinfo, host) = split_userinfo userinfo_host
  is_ipv6 ← check_host ipv6 host
  checked ← check_parts is_ipv6 (to_lower host) userinfo
  ok (record {
    protocol = protocol;
    userinfo = userinfo;
    host = to_lower host;
    is_ipv6 = is_ipv6;
    specified_port = port;
    port = if port == 0 then default_port protocol else port;
    query = read_query rest;
  })

abbrev pub scheme : Protocol → List ℕ
scheme http = codes "http://"
scheme https = codes "https://"

-- `x > 0`
abbrev pub is_positive : ℕ → Bool
is_positive x = ltb 0 x && ltb x (2 ^ 31)

-- `none` is the failed LOG_CHECK of the query.
unfoldable pub get_url : HttpUrl → Option (List ℕ)
unfolding print_int
get_url url =
    if starts_with b'/' url.query
    then some (
        scheme url.protocol
        ++ (if equal url.userinfo [] then [] else url.userinfo ++ b'@' ∷ [])
        ++ url.host
        ++ (if is_positive url.specified_port then b':' ∷ print_int url.specified_port else [])
        ++ url.query)
    else none
