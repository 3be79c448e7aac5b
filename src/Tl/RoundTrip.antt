-- ===== src/Tl/RoundTrip.antt =====
-- tl_storers.h and tl_parsers.h: what is stored is parsed back, and its length is the one that
-- TlStorerCalcLength gives.
use pxc_core.Prelude.{
  subst, ℕ, ◌^◌, ◌<◌, ◌==◌, ltb, ◌≡◌, refl, sym, ap, ◌∙◌, Bool, true, false, ◌&&◌, List, [], ◌∷◌,
  ◌++◌, length, map, ok, add64, arith, length-append,
}
use pxc_core.Tl.{
  check_len, store_binary, fetch_unsafe, fetch_binary, fetch_end, Value, flag, int, long, string,
  Kind, flag_kind, int_kind, long_kind, string_kind, store, parse, store_all, parse_all,
  calc_length, calc_all, unserialize, serialize,
}
use pxc_core.Tl.Bytes.{
  number-store_binary_four, number-store_binary_eight, calc_string-store_string,
}
use pxc_core.Tl.States.{ready, state}
use pxc_core.Tl.Texts.{fetch_string-store_string}

fetch_int-stored :
    (x total : ℕ) (rest : List ℕ)
    → x < 2 ^ 32
    → fetch_binary 4 (state (ready total (store_binary 4 x ++ rest)))
      ≡ ok (x, state (ready total rest))
unfolding fetch_binary fetch_unsafe check_len
fetch_int-stored x total rest h = ground (arith, number-store_binary_four x h)

fetch_long-stored :
    (x total : ℕ) (rest : List ℕ)
    → x < 2 ^ 64
    → fetch_binary 8 (state (ready total (store_binary 8 x ++ rest)))
      ≡ ok (x, state (ready total rest))
unfolding fetch_binary fetch_unsafe check_len
fetch_long-stored x total rest h = ground (arith, number-store_binary_eight x h)

abbrev pub kind_of : Value → Kind
kind_of (flag b) = flag_kind
kind_of (int x) = int_kind
kind_of (long x) = long_kind
kind_of (string s) = string_kind

-- Numbers of 32 and 64 bits, and texts that are not too long to be stored.
abbrev pub fits : Value → Bool
fits (flag b) = true
fits (int x) = ltb x (2 ^ 32)
fits (long x) = ltb x (2 ^ 64)
fits (string s) = ltb (length s) (2 ^ 32)

abbrev pub all_fit : List Value → Bool
all_fit [] = true
all_fit (v ∷ vs) = fits v && all_fit vs

parse-store :
    (v : Value) (rest : List ℕ) (total : ℕ)
    → fits v ≡ true
    → (bytes : List ℕ) × (store v ≡ ok bytes)
      × (parse (kind_of v) (state (ready total (bytes ++ rest))) ≡ ok (v, state (ready total rest)))
unfolding store parse
parse-store (flag true) rest total h =
    (_, refl, rw (parse, fetch_int-stored 1 total rest (omega arith)) refl)
parse-store (flag false) rest total h =
    (_, refl, rw (parse, fetch_int-stored 0 total rest (omega arith)) refl)
parse-store (int x) rest total h =
    (_, refl, rw (parse, fetch_int-stored x total rest (ground (arith, h))) refl)
parse-store (long x) rest total h =
    (_, refl, rw (parse, fetch_long-stored x total rest (ground (arith, h))) refl)
parse-store (string s) rest total h =
    let (bytes, e, back) = fetch_string-store_string s rest total (ground (arith, h)) in
    (bytes, rw (store, e) refl, rw (parse, back) refl)

append_assoc : (a b c : List ℕ) → (a ++ b) ++ c ≡ a ++ (b ++ c)
append_assoc [] b c = refl
append_assoc (x ∷ a) b c = ap (λ l. x ∷ l) (append_assoc a b c)

parse_all-store_all :
    (vs : List Value) (rest : List ℕ) (total : ℕ)
    → all_fit vs ≡ true
    → (bytes : List ℕ) × (store_all vs ≡ ok bytes)
      × (parse_all (map kind_of vs) (state (ready total (bytes ++ rest)))
          ≡ ok (vs, state (ready total rest)))
unfolding store_all parse_all
parse_all-store_all [] rest total h = ([], refl, refl)
parse_all-store_all (v ∷ vs) rest total h =
    let (later, es, backs) = parse_all-store_all vs rest total (ground (arith, h)) in
    let (bytes, e, back) = parse-store v (later ++ rest) total (ground (arith, h)) in
    (
      bytes ++ later,
      rw (store_all, e, es) refl,
      rw (append_assoc bytes later rest, parse_all, back, backs) refl,
    )

append_nil : (a : List ℕ) → a ++ [] ≡ a
append_nil [] = refl
append_nil (x ∷ a) = ap (λ l. x ∷ l) (append_nil a)

-- What is stored is parsed again, up to its end and with no error.
unserialize-store_all :
    (vs : List Value)
    → all_fit vs ≡ true
    → (bytes : List ℕ) × (store_all vs ≡ ok bytes)
      × (unserialize (map kind_of vs) bytes ≡ ok (vs, state (ready (length bytes) [])))
unfolding unserialize fetch_end
unserialize-store_all vs h =
    let (bytes, e, first) = parse_all-store_all vs [] 0 h in
    let (bytes', e', back) = parse_all-store_all vs [] (length bytes) h in
    let same : bytes ++ [] ≡ bytes' ++ [] = cc in
    let whole : parse_all (map kind_of vs) (state (ready (length bytes) bytes))
        ≡ ok (vs, state (ready (length bytes) [])) =
      subst
        (λ b.
          parse_all (map kind_of vs) (state (ready (length bytes) b))
          ≡ ok (vs, state (ready (length bytes) [])))
        (sym same ∙ append_nil bytes) back in
    (bytes, e, rw (unserialize, whole) refl)

calc_length-store :
    (v : Value) (len : ℕ)
    → fits v ≡ true
    → (bytes : List ℕ) × (store v ≡ ok bytes) × (calc_length v len ≡ add64 len (length bytes))
unfolding store calc_length
calc_length-store (flag b) len h = (_, refl, refl)
calc_length-store (int x) len h = (_, refl, refl)
calc_length-store (long x) len h = (_, refl, refl)
calc_length-store (string s) len h = calc_string-store_string s len (ground (arith, h))

-- From any length below 2 ^ 64, TlStorerCalcLength adds for values of their ranges exactly the
-- number of the bytes that TlStorerUnsafe writes, modulo 2 ^ 64.
pub calc_all-store_all :
    (vs : List Value) (len : ℕ)
    → len < 2 ^ 64
    → all_fit vs ≡ true
    → (bytes : List ℕ) × (store_all vs ≡ ok bytes) × (calc_all vs len ≡ add64 len (length bytes))
unfolding store_all calc_all
calc_all-store_all [] len small h = ([], refl, omega arith)
calc_all-store_all (v ∷ vs) len small h =
    let (bytes, e, one) = calc_length-store v len (ground (arith, h)) in
    let (later, es, all) =
      calc_all-store_all vs (calc_length v len) (omega (arith, one)) (ground (arith, h)) in
    (
      bytes ++ later,
      rw (store_all, e, es) refl,
      rw (calc_all, all) (omega (arith, one, length-append bytes later)),
    )

-- Values of their ranges, among them texts of fewer than 2 ^ 32 bytes, which are stored in `bytes`,
-- fewer than 2 ^ 64, are serialized to these bytes with no fault, and `unserialize` of the bytes
-- gives the values back and ends at the end of the bytes with no error.
pub unserialize-serialize :
    (vs : List Value) (bytes : List ℕ)
    → all_fit vs ≡ true
    → store_all vs ≡ ok bytes
    → length bytes < 2 ^ 64
    → (serialize vs ≡ ok bytes)
      × (unserialize (map kind_of vs) bytes ≡ ok (vs, state (ready (length bytes) [])))
unfolding serialize
unserialize-serialize vs bytes h e small =
    let (counted, e', total) = calc_all-store_all vs 0 (omega arith) h in
    let (stored, e'', back) = unserialize-store_all vs h in
    let same : counted ≡ bytes = cc in
    let same' : stored ≡ bytes = cc in
    let exact : calc_all vs 0 ≡ length bytes = omega (arith, total, ap length same) in
    let room : ltb (length bytes) (length bytes) ≡ false = ground arith in
    let full : (length bytes == length bytes) ≡ true = ground arith in
    (
      rw (serialize, e, exact, room, full) refl,
      subst (λ b. unserialize (map kind_of vs) b ≡ ok (vs, state (ready (length b) []))) same' back,
    )
