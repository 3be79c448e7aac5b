-- ===== src/Tl/Safe.antt =====
-- tl_parsers.h: the parser on any data. It reads inside the data, and after an error it gives
-- nothing but zeros and empty texts.
use pxc_core.Prelude.{
  ◌⊎◌, ℕ, suc, ◌-◌, ◌==◌, ◌≡◌, refl, ap, false, not, List, [], ◌∷◌, length, drop, ok, arith, inl,
  inr, map,
}
use pxc_core.Tl.{
  TlParser, TlError, too_much_data, empty_data, set_error, fetch_end, Value, flag, int, long,
  string, Kind, flag_kind, int_kind, long_kind, string_kind, parse, parse_all, unserialize,
}
use pxc_core.Tl.States.{
  Shape, ready, broken, state, Returns, fetch_binary-Returns, fetch_string-Returns,
}

-- After an error a call gives zero or an empty text, and the error stays.
abbrev pub zero_value : Kind → Value
zero_value flag_kind = flag false
zero_value int_kind = int 0
zero_value long_kind = long 0
zero_value string_kind = string []

-- How far a call moves the pointer then.
abbrev width : Kind → ℕ
width flag_kind = 4
width int_kind = 4
width long_kind = 8
width string_kind = 4

parse-broken :
    (k : Kind) (e : TlError) (at : ℕ) (bytes : List ℕ)
    → parse k (state (broken e at bytes))
      ≡ ok (zero_value k, state (broken e at (drop (width k) empty_data)))
unfolding parse
parse-broken flag_kind e at bytes = refl
parse-broken int_kind e at bytes = refl
parse-broken long_kind e at bytes = refl
parse-broken string_kind e at bytes = refl

parse-Returns : (k : Kind) (s : Shape) → Returns (parse k (state s))
unfolding parse
parse-Returns k (broken e at bytes) =
    (zero_value k, broken e at (drop (width k) empty_data), parse-broken k e at bytes)
parse-Returns flag_kind (ready total bytes) =
    let (x, s, e) = fetch_binary-Returns 4 total bytes (omega arith) in
    (flag (not (x == 0)), s, rw (parse, e) refl)
parse-Returns int_kind (ready total bytes) =
    let (x, s, e) = fetch_binary-Returns 4 total bytes (omega arith) in
    (int x, s, rw (parse, e) refl)
parse-Returns long_kind (ready total bytes) =
    let (x, s, e) = fetch_binary-Returns 8 total bytes (omega arith) in
    (long x, s, rw (parse, e) refl)
parse-Returns string_kind (ready total bytes) =
    let (x, s, e) = fetch_string-Returns (ready total bytes) in (string x, s, rw (parse, e) refl)

parse_all-Returns :
    (ks : List Kind) (s : Shape)
    → (vs : List Value) × (r : Shape) × (parse_all ks (state s) ≡ ok (vs, state r))
      × (length vs ≡ length ks)
unfolding parse_all
parse_all-Returns [] s = ([], s, refl, refl)
parse_all-Returns (k ∷ ks) s =
    let (v, r, e) = parse-Returns k s in
    let (vs, q, es, len) = parse_all-Returns ks r in
    (v ∷ vs, q, rw (parse_all, e, es) refl, ap suc len)

-- `fetch_end` leaves either a parser that has read all of its data or a failed one.
abbrev pub Ended : TlParser → Type 0
Ended p =
    ((total : ℕ) × (p ≡ state (ready total [])))
    ⊎ ((e : TlError) × (at : ℕ) × (rest : List ℕ) × (p ≡ state (broken e at rest)))

fetch_end-Ended : (s : Shape) → (q : TlParser) × (fetch_end (state s) ≡ ok q) × Ended q
unfolding fetch_end set_error
fetch_end-Ended (ready total []) = (_, refl, inl (total, refl))
fetch_end-Ended (ready total (b ∷ bytes)) =
    let t : (suc (length bytes) == 0) ≡ false = ground arith in
    (
      state (broken too_much_data (total - suc (length bytes)) empty_data),
      rw (fetch_end, t) refl,
      inr (too_much_data, total - suc (length bytes), empty_data, refl),
    )
fetch_end-Ended (broken e at bytes) = (_, refl, inr (e, at, bytes, refl))

-- On any data, the calls of `fetch_int`, `fetch_long` and `fetch_string` for any list of fields
-- and then `fetch_end` read nothing outside of the data and fail no check. There is one value for
-- each field, and at the end all data is read or there is an error.
pub unserialize-Ended :
    (ks : List Kind) (slice : List ℕ)
    → (vs : List Value) × (p : TlParser) × (unserialize ks slice ≡ ok (vs, p))
      × (length vs ≡ length ks)
      × Ended p
unfolding unserialize
unserialize-Ended ks slice =
    let (vs, s, e, len) = parse_all-Returns ks (ready (length slice) slice) in
    let (q, end, ended) = fetch_end-Ended s in (vs, q, rw (unserialize, e, end) refl, len, ended)

-- After an error, whatever fields are read are zeros, false or empty texts, and the error and its
-- position stay.
pub parse_all-broken :
    (ks : List Kind) (e : TlError) (at : ℕ) (bytes : List ℕ)
    → (rest : List ℕ) × (parse_all ks (state (broken e at bytes))
        ≡ ok (map zero_value ks, state (broken e at rest)))
unfolding parse_all
parse_all-broken [] e at bytes = (bytes, refl)
parse_all-broken (k ∷ ks) e at bytes =
    let (rest, es) = parse_all-broken ks e at (drop (width k) empty_data) in
    (rest, rw (parse_all, parse-broken k e at bytes, es) refl)
