-- ===== src/Urls/Parts.antt =====
-- HttpUrl.cpp: the bytes that the parts of a parsed URL are made of.
use pxc_core.Prelude.{
  ℕ, zero, suc, ◌+◌, ◌-◌, ◌/◌, ◌%◌, ◌^◌, ◌==◌, ltb, leb, ◌<◌, ◌≡◌, ◌≢◌, ◌⊎◌, inl, inr, refl, sym,
  ap, ◌∙◌, if◌then◌else◌, Bool, true, false, not, ◌&&◌, ◌||◌, List, [], ◌∷◌, ◌++◌, Result, error,
  ok, arith, all_below, all_below→, Bool-cases,
}
use pxc_core.Parser.{contains}
use pxc_core.Misc.{is_alnum, is_alpha, is_digit, hex_to_int, upper_digit}
use pxc_core.Urls.{
  UrlError, wrong_percent, disallowed_character, check_char, check_url_part, url_part_chars,
  is_hex_digit, escape_query, read_query, drop_spaces, print_digits, print_int, bump_last,
  starts_with,
}

-- No byte is a space or a control character below it.
abbrev pub printable : List ℕ → Bool
printable [] = true
printable (c ∷ s) = ltb 32 c && printable s

pub printable-append :
    (s t : List ℕ) → printable s ≡ true → printable t ≡ true → printable (s ++ t) ≡ true
printable-append [] t a b = b
printable-append (c ∷ s) t a b = ground (arith, printable-append s t, a, b)

-- The characters that `check_url_part` lets pass by themselves.
fits : Bool → ℕ → Bool
fits allow_colon c = is_alnum c || contains url_part_chars c || (allow_colon && c == b':')

fits-above : (allow_colon : Bool) (c : ℕ) → c < 33 → not (fits allow_colon c) ≡ true
unfolding all_below fits is_alnum is_alpha is_digit contains
fits-above true c low = all_below→ 33 (λ x. not (fits true x)) c refl low
fits-above false c low = all_below→ 33 (λ x. not (fits false x)) c refl low

is_hex_digit-above : (c : ℕ) → c < 33 → not (is_hex_digit c) ≡ true
unfolding all_below is_digit hex_to_int
is_hex_digit-above c low = all_below→ 33 (λ x. not (is_hex_digit x)) c refl low

above : (c : ℕ) (b : Bool) → b ≡ true → (c < 33 → not b ≡ true) → ltb 32 c ≡ true
above c b yes_b low = elim (Bool-cases (ltb 32 c)) [
  | inl e ↦ e
  | inr e ↦ absurd (ground (arith, low, e, yes_b))
]

refused_ok : (x : UrlError) (b : Bool) → error x ≢ ok b
refused_ok x b e = cc

check_char-above :
    (allow_colon : Bool) (c : ℕ) (percent rest : Result UrlError Bool) (b : Bool)
    → check_char allow_colon c percent rest ≡ ok b
    → (ltb 32 c ≡ true) × ((percent ≡ ok b) ⊎ (rest ≡ ok b))
unfolding fits
check_char-above a c percent rest b e =
    let refused : Result UrlError Bool = if leb 128 c then rest else error disallowed_character in
    let other : Result UrlError Bool = if c == b'%' then percent else refused in
    let taken : Bool → Result UrlError Bool = λ t. if t then rest else other in
    let escaped : Bool → Result UrlError Bool = λ t. if t then percent else refused in
    let byte : Bool → Result UrlError Bool = λ t. if t then rest else error disallowed_character in
    elim (Bool-cases (fits a c)) [
      | inl f ↦ (above c (fits a c) f (fits-above a c), inr (sym (ap taken f) ∙ e))
      | inr f ↦
          let e1 : other ≡ ok b = sym (ap taken f) ∙ e in
          elim (Bool-cases (c == b'%')) [
            | inl g ↦ (ground (arith, g), inl (sym (ap escaped g) ∙ e1))
            | inr g ↦
                let e2 : refused ≡ ok b = sym (ap escaped g) ∙ e1 in
                elim (Bool-cases (leb 128 c)) [
                  | inl k ↦ (ground (arith, k), inr (sym (ap byte k) ∙ e2))
                  | inr k ↦ absurd (refused_ok (disallowed_character) b (sym (ap byte k) ∙ e2))
                ]
          ]
    ]

pub printable-check_url_part :
    (allow_colon : Bool) (s : List ℕ) (b : Bool)
    → check_url_part allow_colon s ≡ ok b
    → printable s ≡ true
unfolding check_url_part
printable-check_url_part a [] b e = refl
printable-check_url_part a (c ∷ []) b e =
    let (low, next) = check_char-above a c _ _ b e in ground (arith, low)
printable-check_url_part a (c ∷ h ∷ []) b e =
    let (low, next) = check_char-above a c _ _ b e in
    elim next [
      | inl e ↦ absurd (refused_ok wrong_percent b e)
      | inr e ↦ ground (arith, low, printable-check_url_part a (h ∷ []) b e)
    ]
printable-check_url_part a (c ∷ h ∷ l ∷ s) b e =
    let (low, next) = check_char-above a c _ _ b e in
    elim next [
      | inl e ↦ elim (Bool-cases (is_hex_digit h && is_hex_digit l)) [
        | inl f ↦
            let hex_h : ltb 32 h ≡ true =
              above h (is_hex_digit h) (ground (arith, f)) (is_hex_digit-above h) in
            let hex_l : ltb 32 l ≡ true =
              above l (is_hex_digit l) (ground (arith, f)) (is_hex_digit-above l) in
            let kept : check_url_part a s ≡ ok b =
              sym (ap (λ t. if t then check_url_part a s else error wrong_percent) f) ∙ e in
            ground (arith, low, hex_h, hex_l, printable-check_url_part a s b kept)
        | inr f ↦ absurd (
            refused_ok wrong_percent b
              (sym (ap (λ t. if t then check_url_part a s else error wrong_percent) f) ∙ e))
      ]
      | inr e ↦ ground (arith, low, printable-check_url_part a (h ∷ l ∷ s) b e)
    ]

escape_above :
    (c : ℕ)
    → printable
        (if leb c 32 then b'%' ∷ upper_digit (c / 16) ∷ upper_digit (c % 16) ∷ [] else c ∷ [])
      ≡ true
unfolding all_below
escape_above c = elim (Bool-cases (ltb c 33)) [
  | inl e ↦
      all_below→ 33
        (λ x.
          printable
            (if leb x 32 then b'%' ∷ upper_digit (x / 16) ∷ upper_digit (x % 16) ∷ [] else x ∷ []))
        c refl (ground (arith, e))
  | inr e ↦ ground (arith, e)
]

printable-escape_query : (s : List ℕ) → printable (escape_query s) ≡ true
unfolding escape_query
printable-escape_query [] = refl
printable-escape_query (c ∷ s) =
    printable-append
      (if leb c 32 then b'%' ∷ upper_digit (c / 16) ∷ upper_digit (c % 16) ∷ [] else c ∷ [])
      (escape_query s) (escape_above c) (printable-escape_query s)

prefixed : List ℕ → List ℕ
prefixed q = if starts_with b'/' q then escape_query q else b'/' ∷ escape_query q

prefixed_lem :
    (q : List ℕ) → (starts_with b'/' (prefixed q) ≡ true) × (printable (prefixed q) ≡ true)
unfolding prefixed escape_query
prefixed_lem [] = (refl, refl)
prefixed_lem (c ∷ s) =
    let clean = printable-escape_query (c ∷ s) in
    elim (Bool-cases (c == b'/')) [
      | inl e ↦ (ground (arith, e), ground (arith, e, clean))
      | inr e ↦ (ground (arith, e), ground (arith, e, clean))
    ]

-- The query starts with `/` and has no spaces.
pub read_query_lem :
    (s : List ℕ) → (starts_with b'/' (read_query s) ≡ true) × (printable (read_query s) ≡ true)
unfolding read_query prefixed
read_query_lem s =
    prefixed_lem (elim (drop_spaces s) as (λ q. List ℕ) [ [] ↦ b'/' ∷ [] | c ∷ rest ↦ c ∷ rest ])

printable-print_digits :
    (fuel x : ℕ) (s : List ℕ) → printable s ≡ true → printable (print_digits fuel x s) ≡ true
unfolding print_digits
printable-print_digits zero x s e = e
printable-print_digits (suc fuel) x s e =
    let digits : printable ((b'0' + x % 10) ∷ s) ≡ true = ground (arith, e) in
    ground (arith, digits, printable-print_digits fuel (x / 10) ((b'0' + x % 10) ∷ s) digits)

either_of :
    (test : Bool) (s t : List ℕ)
    → printable s ≡ true
    → printable t ≡ true
    → printable (if test then s else t) ≡ true
either_of true s t a b = a
either_of false s t a b = b

least_printable : printable (bump_last (b'-' ∷ print_digits 10 (2 ^ 31 - 1) [])) ≡ true
unfolding print_digits
least_printable = refl

pub printable-print_int : (x : ℕ) → printable (print_int x) ≡ true
unfolding print_int
printable-print_int x =
    let least : List ℕ = bump_last (b'-' ∷ print_digits 10 (2 ^ 31 - 1) []) in
    let minus : List ℕ = b'-' ∷ print_digits 10 (2 ^ 32 - x) [] in
    let minus_clean : printable minus ≡ true = printable-print_digits 10 (2 ^ 32 - x) [] refl in
    either_of (ltb x (2 ^ 31)) (print_digits 10 x []) (if x == 2 ^ 31 then least else minus)
      (printable-print_digits 10 x [] refl)
      (either_of (x == 2 ^ 31) least minus least_printable minus_clean)
