-- ===== src/Tl/Buffer.antt =====
-- tl_parsers.h and tl_parsers.cpp: `fetch_string` of TlBufferParser, which gives UTF-8 only.
use pxc_core.Prelude.{
  ℕ, zero, suc, ◌-◌, ◌==◌, ◌≡◌, ◌≢◌, refl, if◌then◌else◌, Bool, true, false, none, some, List, [],
  ◌∷◌, length, get_or, get_elem?, take, map, Result, error, ok, ◌>>=◌, Option-cases, Bool-cases,
  ◌⊎◌, ap, ◌∙◌, arith, inl, inr,
}
use pxc_core.Utf8.{is_first, check_utf8}
use pxc_core.Utf8.Bounds.{check_utf8-ne-none}
use pxc_core.Tl.{TlParser, Fault, outside, check_failed, fetch_string}
use pxc_core.Tl.States.{Shape, state, fetch_string-Returns}

unfoldable pub is_valid_utf8 : List ℕ → Result Fault Bool
is_valid_utf8 str = elim (check_utf8 str) [ none ↦ error outside | some valid ↦ ok valid ]

-- The loop from a position down.
unfoldable pub last_from : ℕ → List ℕ → ℕ
unfolding is_first
last_from zero str = 0
last_from (suc position) str =
    let rest = last_from position str in
    if is_first (get_or str (suc position) 0) then suc position else rest

unfoldable pub last_utf8_character_position : List ℕ → Result Fault ℕ
unfolding last_from
last_utf8_character_position str =
    if length str == 0 then error check_failed else ok (last_from (length str - 1) str)

-- Each byte 0 becomes a space.
abbrev pub without_zeros : List ℕ → List ℕ
without_zeros str = map (λ c. if c == 0 then 32 else c) str

-- A text whose last character is cut off is valid without it, and any other one is dropped.
unfoldable pub valid_part : List ℕ → Result Fault (List ℕ)
unfolding is_valid_utf8 last_utf8_character_position
valid_part str = do
  valid ← is_valid_utf8 str
  if valid then ok str else (do
    position ← last_utf8_character_position str
    still ← is_valid_utf8 (take position str)
    ok (if still then take position str else []))

unfoldable pub fetch_text : TlParser → Result Fault (List ℕ × TlParser)
unfolding fetch_string valid_part
fetch_text p = do (str, q) ← fetch_string p; result ← valid_part (without_zeros str); ok (result, q)

without_zeros-get_elem? : (str : List ℕ) (i : ℕ) → get_elem? (without_zeros str) i ≢ some 0
without_zeros-get_elem? [] i = λ e. absurd (ground (arith, e))
without_zeros-get_elem? (c ∷ str) zero = λ e. absurd (ground (arith, e))
without_zeros-get_elem? (c ∷ str) (suc i) = without_zeros-get_elem? str i

take-get_elem? :
    (n : ℕ) (str : List ℕ) (i : ℕ) → get_elem? str i ≢ some 0 → get_elem? (take n str) i ≢ some 0
take-get_elem? zero str i h = λ e. absurd (ground (arith, e))
take-get_elem? (suc n) [] i h = h
take-get_elem? (suc n) (c ∷ str) zero h = h
take-get_elem? (suc n) (c ∷ str) (suc i) h = take-get_elem? n str i h

is_valid_utf8-cases :
    (str : List ℕ)
    → ((check_utf8 str ≡ some true) × (is_valid_utf8 str ≡ ok true))
      ⊎ (is_valid_utf8 str ≡ ok false)
unfolding is_valid_utf8
is_valid_utf8-cases str = elim (Option-cases (check_utf8 str)) [
  | inl e ↦ absurd (check_utf8-ne-none str e)
  | inr (b, e) ↦ elim (Bool-cases b) [
    | inl t ↦
        let e' : check_utf8 str ≡ some true = e ∙ ap some t in inl (e', rw (is_valid_utf8, e') refl)
    | inr t ↦ inr (rw (is_valid_utf8, e, t) refl)
  ]
]

-- A valid text of no zeros, whatever the text was.
Valid : List ℕ → ℕ → Result Fault (List ℕ) → Type 0
Valid str i result =
    (r : List ℕ) × (result ≡ ok r) × (check_utf8 r ≡ some true) × (get_elem? r i ≢ some 0)

check_utf8-nil : check_utf8 [] ≡ some true
unfolding check_utf8
check_utf8-nil = refl

valid_part-nil : valid_part [] ≡ ok []
unfolding valid_part check_utf8
valid_part-nil = refl

valid_part-Valid : (str : List ℕ) (i : ℕ) → get_elem? str i ≢ some 0 → Valid str i (valid_part str)
unfolding valid_part Valid last_utf8_character_position
valid_part-Valid [] i h = ([], valid_part-nil, check_utf8-nil, h)
valid_part-Valid (c ∷ str) i h =
    let all : List ℕ = c ∷ str in
    let filled : (length all == 0) ≡ false = ground arith in
    let n : ℕ = last_from (length all - 1) all in
    elim (is_valid_utf8-cases all) [
      | inl (e, v) ↦ (all, rw (valid_part, v) refl, e, h)
      | inr v ↦ elim (is_valid_utf8-cases (take n all)) [
        | inl (e', v') ↦ (
          take n all,
          rw (valid_part, v, last_utf8_character_position, filled, v') refl,
          e',
          take-get_elem? n all i h,
        )
        | inr v' ↦ (
          [],
          rw (valid_part, v, last_utf8_character_position, filled, v') refl,
          check_utf8-nil,
          λ z. absurd (ground (arith, z)),
        )
      ]
    ]

-- On any data, also after an error, `fetch_string` of TlBufferParser returns with no fault, and its
-- text passes `check_utf8` and has no byte 0 at any place `i`.
pub fetch_text-check_utf8 :
    (s : Shape) (i : ℕ)
    → (text : List ℕ) × (r : Shape) × (fetch_text (state s) ≡ ok (text, state r))
      × (check_utf8 text ≡ some true)
      × (get_elem? text i ≢ some 0)
unfolding fetch_text Valid
fetch_text-check_utf8 s i =
    let (str, r, e) = fetch_string-Returns s in
    let (text, found, valid, free) =
      valid_part-Valid (without_zeros str) i (without_zeros-get_elem? str i) in
    (text, r, rw (fetch_text, e, found) refl, valid, free)
