-- ===== src/Tl.antt =====
-- pxcutils/pxc/utils/tl_parsers.h, tl_parsers.cpp, tl_storers.h and tl_helpers.h: values as bytes
-- and back. A number is its bit pattern, stored low byte first; a text is the list of its bytes. A
-- read outside of the data and a failed LOG_CHECK are faults.
pub mod Bytes
pub mod States
pub mod Safe
pub mod Texts
pub mod Buffer
pub mod RoundTrip
mod Tests
use pxc_core.Prelude.{
  ℕ, zero, suc, ◌+◌, ◌-◌, ◌*◌, ◌/◌, ◌%◌, ◌^◌, ◌==◌, ltb, if◌then◌else◌, Bool, true, false, ◌&&◌,
  not, Option, none, some, List, [], ◌∷◌, ◌++◌, length, take, drop, replicate, get_elem?, Result,
  error, ok, ◌>>=◌, add64, u64_mod,
}

pub data TlError : Type 0 where
  not_enough_data : TlError
  too_big_string : TlError
  too_much_data : TlError

pub data Fault : Type 0 where
  outside : Fault
  check_failed : Fault

-- `data` is what is left from the pointer on.
pub record TlParser : Type 0 where
  pub data_left : List ℕ
  pub data_len : ℕ
  pub left_len : ℕ
  pub error_pos : Option ℕ
  pub failure : Option TlError

abbrev pub empty_data : List ℕ
empty_data = replicate 32 0

abbrev pub new_parser : List ℕ → TlParser
new_parser slice = record {
  data_left = slice;
  data_len = length slice;
  left_len = length slice;
  error_pos = none;
  failure = none;
}

unfoldable pub set_error : TlError → TlParser → Result Fault TlParser
set_error e p = elim p.failure [
  | none ↦ ok (record {
    data_left = empty_data;
    data_len = 0;
    left_len = 0;
    error_pos = some (p.data_len - p.left_len);
    failure = some e;
  })
  | some old ↦ elim p.error_pos [
    | none ↦ error check_failed
    | some at ↦
        if (p.data_len == 0) && (p.left_len == 0)
        then ok (record p { data_left = empty_data })
        else error check_failed
  ]
]

unfoldable pub check_len : ℕ → TlParser → Result Fault TlParser
unfolding set_error
check_len len p =
    if ltb p.left_len len
    then set_error not_enough_data p
    else ok (record p { left_len = p.left_len - len })

-- The number that bytes stand for, the low one first.
abbrev pub number : List ℕ → ℕ
number [] = 0
number (b ∷ bytes) = b + 256 * number bytes

-- `memcpy` of `size` bytes and the move of the pointer behind them.
unfoldable pub fetch_unsafe : ℕ → TlParser → Result Fault (ℕ × TlParser)
fetch_unsafe size p =
    if ltb (length p.data_left) size
    then error outside
    else ok (number (take size p.data_left), record p { data_left = drop size p.data_left })

unfoldable pub fetch_binary : ℕ → TlParser → Result Fault (ℕ × TlParser)
unfolding check_len fetch_unsafe
fetch_binary size p = do q ← check_len size p; fetch_unsafe size q

abbrev pub fetch_int : TlParser → Result Fault (ℕ × TlParser)
fetch_int p = fetch_binary 4 p

abbrev pub fetch_long : TlParser → Result Fault (ℕ × TlParser)
fetch_long p = fetch_binary 8 p

abbrev pub has_error : TlParser → Bool
has_error p = elim p.failure [ none ↦ false | some e ↦ true ]

-- The end of `fetch_string`: `begin` is `result_begin`, `size` and `aligned` the two lengths.
unfoldable pub take_string : List ℕ → ℕ → ℕ → TlParser → Result Fault (List ℕ × TlParser)
unfolding check_len
take_string begin size aligned p = do
  q ← check_len aligned p
  if has_error q
      then ok ([], q)
      else if ltb (length begin) size
      then error outside
      else ok (take size begin, record q { data_left = drop aligned q.data_left })

abbrev pub move : ℕ → TlParser → TlParser
move n p = record p { data_left = drop n p.data_left }

-- `result_len` is 255: eight bytes hold the length.
unfoldable pub fetch_long_body : TlParser → Result Fault (List ℕ × TlParser)
unfolding set_error take_string
fetch_long_body p =
    let size = number (take 7 (drop 1 p.data_left)) in
    if ltb (length p.data_left) 8
    then error outside
    else if ltb (u64_mod - 4) size
    then (do q ← set_error too_big_string p; ok ([], q))
    else take_string (drop 8 p.data_left) size (add64 size 3 / 4 * 4) (move 8 p)

unfoldable pub fetch_long_string : TlParser → Result Fault (List ℕ × TlParser)
unfolding check_len fetch_long_body
fetch_long_string p = do q ← check_len 4 p; fetch_long_body q

unfoldable pub fetch_medium_string : TlParser → Result Fault (List ℕ × TlParser)
unfolding take_string
fetch_medium_string p =
    let size = number (take 3 (drop 1 p.data_left)) in
    if ltb (length p.data_left) 4
    then error outside
    else take_string (drop 4 p.data_left) size ((size + 3) / 4 * 4) (move 4 p)

unfoldable pub fetch_body : TlParser → Result Fault (List ℕ × TlParser)
unfolding take_string fetch_medium_string fetch_long_string
fetch_body p = elim p.data_left [
  | [] ↦ error outside
  | head ∷ rest ↦
      if ltb head 254
      then take_string rest head (head / 4 * 4) (move 4 p)
      else if head == 254
      then fetch_medium_string p
      else fetch_long_string p
]

unfoldable pub fetch_string : TlParser → Result Fault (List ℕ × TlParser)
unfolding check_len fetch_body
fetch_string p = do q ← check_len 4 p; fetch_body q

unfoldable pub fetch_string_raw : ℕ → TlParser → Result Fault (List ℕ × TlParser)
unfolding take_string
fetch_string_raw size p = take_string p.data_left size size p

unfoldable pub fetch_end : TlParser → Result Fault TlParser
unfolding set_error
fetch_end p = if p.left_len == 0 then ok p else set_error too_much_data p

-- TlStorerUnsafe: what a call writes.
abbrev pub store_binary : ℕ → ℕ → List ℕ
store_binary zero x = []
store_binary (suc size) x = x % 256 ∷ store_binary size (x / 256)

unfoldable pub string_head : ℕ → Result Fault (List ℕ)
string_head len =
    if ltb len 254
    then ok (len ∷ [])
    else if ltb len (2 ^ 24)
    then ok (254 ∷ len % 256 ∷ len / 256 % 256 ∷ len / 256 / 256 ∷ [])
    else if ltb len (2 ^ 32)
    then ok (
        255
        ∷ len % 256
        ∷ len / 256 % 256
        ∷ len / 256 / 256 % 256
        ∷ len / 256 / 256 / 256 % 256
        ∷ 0
        ∷ 0
        ∷ 0
        ∷ [])
    else error check_failed

-- The zeros behind a text, from `len & 3`.
unfoldable pub padding : ℕ → List ℕ
padding rest =
    if rest == 1
    then 0 ∷ 0 ∷ 0 ∷ []
    else if rest == 2
    then 0 ∷ 0 ∷ []
    else if rest == 3
    then 0 ∷ []
    else []

unfoldable pub store_string : List ℕ → Result Fault (List ℕ)
unfolding string_head padding
store_string str =
    let len = if ltb (length str) 254 then length str + 1 else length str in
    (do head ← string_head (length str); ok (head ++ str ++ padding (len % 4)))

-- TlStorerCalcLength: the length after a call.
unfoldable pub calc_string : List ℕ → ℕ → ℕ
calc_string str len =
    let size = length str in
    let add =
      if ltb size 254 then size + 1 else if ltb size (2 ^ 24) then size + 4 else add64 size 8 in
    add64 len (add64 add 3 / 4 * 4)

-- The values with `store` and `parse` of their own.
pub data Value : Type 0 where
  flag : Bool → Value
  int : ℕ → Value
  long : ℕ → Value
  string : List ℕ → Value

pub data Kind : Type 0 where
  flag_kind : Kind
  int_kind : Kind
  long_kind : Kind
  string_kind : Kind

unfoldable pub store : Value → Result Fault (List ℕ)
unfolding store_string
store (flag b) = ok (store_binary 4 (if b then 1 else 0))
store (int x) = ok (store_binary 4 x)
store (long x) = ok (store_binary 8 x)
store (string s) = store_string s

unfoldable pub calc_length : Value → ℕ → ℕ
unfolding calc_string
calc_length (flag b) len = add64 len 4
calc_length (int x) len = add64 len 4
calc_length (long x) len = add64 len 8
calc_length (string s) len = calc_string s len

unfoldable pub parse : Kind → TlParser → Result Fault (Value × TlParser)
unfolding fetch_binary fetch_string
parse flag_kind p = do (x, q) ← fetch_int p; ok (flag (not (x == 0)), q)
parse int_kind p = do (x, q) ← fetch_int p; ok (int x, q)
parse long_kind p = do (x, q) ← fetch_long p; ok (long x, q)
parse string_kind p = do (s, q) ← fetch_string p; ok (string s, q)

-- A type's own `store` and `parse`, which call those of its fields in turn.
unfoldable pub store_all : List Value → Result Fault (List ℕ)
unfolding store
store_all [] = ok []
store_all (v ∷ vs) = do bytes ← store v; rest ← store_all vs; ok (bytes ++ rest)

unfoldable pub parse_all : List Kind → TlParser → Result Fault (List Value × TlParser)
unfolding parse
parse_all [] p = ok ([], p)
parse_all (k ∷ ks) p = do (v, q) ← parse k p; (vs, r) ← parse_all ks q; ok (v ∷ vs, r)

-- `tl_calc_length`
unfoldable pub calc_all : List Value → ℕ → ℕ
unfolding calc_length
calc_all [] len = len
calc_all (v ∷ vs) len = calc_all vs (calc_length v len)

-- `serialize`: the bytes go to a buffer of the length that was added up, and must fill it.
unfoldable pub serialize : List Value → Result Fault (List ℕ)
unfolding store_all calc_all
serialize vs = do
  bytes ← store_all vs
  if ltb (calc_all vs 0) (length bytes)
      then error outside
      else if length bytes == calc_all vs 0
      then ok bytes
      else error check_failed

-- `parse` of a whole slice and `fetch_end`.
unfoldable pub unserialize : List Kind → List ℕ → Result Fault (List Value × TlParser)
unfolding parse_all fetch_end
unserialize ks slice = do (vs, p) ← parse_all ks (new_parser slice); q ← fetch_end p; ok (vs, q)
