-- ===== src/Utf8/Truncate.antt =====
-- The truncations of utf8.h and utf8.cpp.
use pxc_core.Prelude.{
  ◌+◌, if◌then◌else◌, Bool, ℕ, ◌-◌, ◌*◌, ◌^◌, ◌≤◌, ◌<◌, ◌==◌, ltb, leb, ◌≡◌, refl, sym, ap, ◌∙◌,
  inl, inr, true, false, List, [], ◌∷◌, ◌++◌, arith, length, min, u64_mod, sub64, Bool-cases,
}
use mathlib.Core.List.{append-nil}
use pxc_core.Utf8.{is_first, utf8_length, truncate_from, utf8_truncate, utf16_truncate}

utf8_length-le : (s : List ℕ) → utf8_length s ≤ length s
unfolding utf8_length
utf8_length-le [] = omega arith
utf8_length-le (c ∷ cs) = ground (arith, utf8_length-le cs)

utf8_length-truncate_from :
    (s : List ℕ) (n : ℕ) → utf8_length (truncate_from s n) ≡ min n (utf8_length s)
unfolding utf8_length truncate_from
utf8_length-truncate_from [] n = omega arith
utf8_length-truncate_from (c ∷ cs) n = elim (Bool-cases (is_first c)) [
  | inl f ↦ elim (Bool-cases (n == 0)) [
    | inl z ↦ rw (f, z) (ground arith)
    | inr p ↦ rw (f, p) (ground (arith, utf8_length-truncate_from cs (n - 1), f))
  ]
  | inr f ↦ rw f (ground (arith, utf8_length-truncate_from cs n, f))
]

-- The bytes start with a character, if there are any.
abbrev pub at_character : List ℕ → Bool
at_character [] = true
at_character (c ∷ cs) = is_first c

truncate_from-prefix :
    (s : List ℕ) (n : ℕ)
    → (rest : List ℕ) × (s ≡ truncate_from s n ++ rest) × (at_character rest ≡ true)
unfolding truncate_from
truncate_from-prefix [] n = ([], refl, refl)
truncate_from-prefix (c ∷ cs) n = elim (Bool-cases (is_first c)) [
  | inl f ↦ elim (Bool-cases (n == 0)) [
    | inl z ↦ (c ∷ cs, rw (f, z), f)
    | inr p ↦
        let (rest, e, g) = truncate_from-prefix cs (n - 1) in
        (rest, ap (λ l. c ∷ l) e ∙ rw (f, p), g)
  ]
  | inr f ↦ let (rest, e, g) = truncate_from-prefix cs n in (rest, ap (λ l. c ∷ l) e ∙ rw f, g)
]

-- `utf8_truncate` gives a prefix of the string with the first `n` characters, or all of them when
-- there are fewer, and what it cuts off starts with a character.
pub utf8_truncate-prefix :
    (s : List ℕ) (n : ℕ)
    → ((rest : List ℕ) × (s ≡ utf8_truncate s n ++ rest) × (at_character rest ≡ true))
      × (utf8_length (utf8_truncate s n) ≡ min n (utf8_length s))
unfolding utf8_truncate
utf8_truncate-prefix s n = elim (Bool-cases (ltb n (length s))) [
  | inl short ↦ rw short (truncate_from-prefix s n, utf8_length-truncate_from s n)
  | inr long ↦ rw long (([], sym (append-nil s), refl), ground (arith, utf8_length-le s))
]

utf16_truncate_all : (s : List ℕ) (n : ℕ) → 2 * length s ≤ n → n < u64_mod → utf16_truncate s n ≡ s
unfolding utf16_truncate
utf16_truncate_all [] n h k = refl
utf16_truncate_all (c ∷ cs) n h k =
    let z : (n == 0) ≡ false = ground arith in
    let a : sub64 n 1 ≡ n - 1 = omega arith in
    let b : sub64 (n - 1) 1 ≡ n - 2 = omega arith in
    elim (Bool-cases (is_first c)) [
      | inr f ↦ rw f (ap (λ l. c ∷ l) (utf16_truncate_all cs n (omega arith) k))
      | inl f ↦ elim (Bool-cases (leb 0xf0 c)) [
        | inl big ↦
            rw (f, z, big, a, b)
              (ap (λ l. c ∷ l) (utf16_truncate_all cs (n - 2) (omega arith) (omega arith)))
        | inr small ↦
            rw (f, z, small, a)
              (ap (λ l. c ∷ l) (utf16_truncate_all cs (n - 1) (omega arith) (omega arith)))
      ]
    ]

-- The UTF-16 units that `utf8_utf16_truncate` counts: two for a first byte of a four-byte
-- character, one for any other first byte.
abbrev pub counted_units : List ℕ → ℕ
counted_units [] = 0
counted_units (c ∷ cs) =
    (if is_first c then (if leb 0xf0 c then 2 else 1) else 0) + counted_units cs

-- A limit that is not reached before the bytes `cs` leaves the bytes before them as they are.
utf16_truncate-append :
    (front cs : List ℕ) (n : ℕ)
    → 0 < n
    → counted_units front + n < u64_mod
    → utf16_truncate (front ++ cs) (counted_units front + n) ≡ front ++ utf16_truncate cs n
unfolding utf16_truncate
utf16_truncate-append [] cs n pos small =
    let none_counted : 0 + n ≡ n = omega arith in ap (utf16_truncate cs) none_counted
utf16_truncate-append (c ∷ front) cs n pos small =
    let m : ℕ = counted_units front in
    let rest : m + n < u64_mod
        → utf16_truncate (front ++ cs) (m + n) ≡ front ++ utf16_truncate cs n =
      utf16_truncate-append front cs n pos in
    elim (Bool-cases (is_first c)) [
      | inr f ↦
          let low : m + n < u64_mod = ground (arith, f, small) in
          let none_counted : 0 + m + n ≡ m + n = omega arith in
          rw (f, none_counted) (ap (λ l. c ∷ l) (rest low))
      | inl f ↦ elim (Bool-cases (leb 0xf0 c)) [
        | inl big ↦
            let low : 2 + m + n < u64_mod = ground (arith, f, big, small) in
            let z : (2 + m + n == 0) ≡ false = ground arith in
            let left : sub64 (sub64 (2 + m + n) 1) 1 ≡ m + n = omega arith in
            rw (f, big, z, left) (ap (λ l. c ∷ l) (rest (omega arith)))
        | inr plain ↦
            let low : 1 + m + n < u64_mod = ground (arith, f, plain, small) in
            let z : (1 + m + n == 0) ≡ false = ground arith in
            let left : sub64 (1 + m + n) 1 ≡ m + n = omega arith in
            rw (f, plain, z, left) (ap (λ l. c ∷ l) (rest (omega arith)))
      ]
    ]

wraps_at :
    (c : ℕ) (cs : List ℕ)
    → 0xf0 ≤ c
    → c < 256
    → length cs < 2 ^ 62
    → utf16_truncate (c ∷ cs) 1 ≡ c ∷ cs
unfolding utf16_truncate
wraps_at c cs h k small =
    let f : is_first c ≡ true = unfold is_first in (ground arith) in
    let big : leb 0xf0 c ≡ true = ground arith in
    rw (f, big) (ap (λ l. c ∷ l) (utf16_truncate_all cs (u64_mod - 1) (omega arith) (omega arith)))

-- The defect: when the limit falls inside the surrogate pair of a character, wherever it stands,
-- the counter wraps and `utf8_utf16_truncate` cuts nothing off. `front` is what stands before the
-- character, and `cs` what follows its first byte.
pub utf16_truncate_wraps :
    (front : List ℕ) (c : ℕ) (cs : List ℕ)
    → 0xf0 ≤ c
    → c < 256
    → counted_units front + 1 < u64_mod
    → length cs < 2 ^ 62
    → utf16_truncate (front ++ c ∷ cs) (counted_units front + 1) ≡ front ++ c ∷ cs
utf16_truncate_wraps front c cs h k low small =
    utf16_truncate-append front (c ∷ cs) 1 (omega arith) low
    ∙ ap (λ l. front ++ l) (wraps_at c cs h k small)
