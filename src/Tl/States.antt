-- ===== src/Tl/States.antt =====
-- tl_parsers.h: the states of a parser, and texts read from any data.
use pxc_core.Prelude.{
  ℕ, ◌+◌, ◌-◌, ◌*◌, ◌/◌, ◌≤◌, ◌<◌, ◌==◌, ltb, ◌≡◌, refl, true, false, none, some, List, [], ◌∷◌,
  length, take, drop, Result, ok, add64, u64_mod, arith, length-drop, Bool-cases, inl, inr,
}
use pxc_core.Tl.{
  TlParser, TlError, not_enough_data, too_big_string, Fault, empty_data, set_error, check_len,
  number, fetch_unsafe, fetch_binary, take_string, fetch_long_body, fetch_long_string,
  fetch_medium_string, fetch_body, fetch_string, move,
}

-- The states of a parser: with no error so far, what is left is the data; an error leaves what
-- `set_error` leaves and checks.
pub data Shape : Type 0 where
  ready : ℕ → List ℕ → Shape
  broken : TlError → ℕ → List ℕ → Shape

abbrev pub state : Shape → TlParser
state (ready total bytes) = record {
  data_left = bytes;
  data_len = total;
  left_len = length bytes;
  error_pos = none;
  failure = none;
}
state (broken e at bytes) = record {
  data_left = bytes;
  data_len = 0;
  left_len = 0;
  error_pos = some at;
  failure = some e;
}

-- A call that returns, with no fault.
abbrev pub Returns : {A : Type 0} → Result Fault (A × TlParser) → Type 0
Returns {A} r = (x : A) × (s : Shape) × (r ≡ ok (x, state s))

pub passed-check_len :
    (n : ℕ) (p : TlParser)
    → n ≤ p.left_len
    → check_len n p ≡ ok (record p { left_len = p.left_len - n })
unfolding check_len
passed-check_len n p h = let t : ltb p.left_len n ≡ false = ground arith in rw t refl

short-check_len :
    (n : ℕ) (p : TlParser)
    → p.failure ≡ none
    → p.left_len < n
    → check_len n p ≡ ok (state (broken not_enough_data (p.data_len - p.left_len) empty_data))
unfolding check_len set_error
short-check_len n p h lt =
    let t : ltb p.left_len n ≡ true = ground arith in rw (check_len, t, set_error, h) refl

-- `take_string` behind a head of which the length is off already.
take_string-Returns :
    (begin : List ℕ) (size aligned : ℕ) (p : TlParser)
    → p.failure ≡ none
    → p.error_pos ≡ none
    → p.left_len ≡ length p.data_left
    → (aligned ≤ p.left_len → size ≤ length begin)
    → Returns (take_string begin size aligned p)
unfolding take_string
take_string-Returns begin size aligned p fine none_at exact fits =
    elim (Bool-cases (ltb p.left_len aligned)) [
      | inl t ↦ (
        [],
        broken not_enough_data (p.data_len - p.left_len) empty_data,
        rw (take_string, short-check_len aligned p fine (ground (arith, t))) refl,
      )
      | inr t ↦
          let le : aligned ≤ p.left_len = ground (arith, t) in
          let room : ltb (length begin) size ≡ false = ground (arith, fits le) in
          let rest : List ℕ = drop aligned p.data_left in
          let len : p.left_len - aligned ≡ length rest =
            omega (arith, length-drop aligned p.data_left) in
          (
            take size begin,
            ready p.data_len rest,
            rw (take_string, passed-check_len aligned p le, fine, room, none_at, len) refl,
          )
    ]

pub fetch_binary-Returns :
    (size total : ℕ) (bytes : List ℕ)
    → size ≤ 32
    → Returns (fetch_binary size (state (ready total bytes)))
unfolding fetch_binary fetch_unsafe
fetch_binary-Returns size total bytes small =
    let p : TlParser = state (ready total bytes) in
    elim (Bool-cases (ltb (length bytes) size)) [
      | inl t ↦
          let room : ltb 32 size ≡ false = ground arith in
          (
            number (take size empty_data),
            broken not_enough_data (total - length bytes) (drop size empty_data),
            rw (fetch_binary, short-check_len size p refl (ground (arith, t)), room) refl,
          )
      | inr t ↦
          let len : length bytes - size ≡ length (drop size bytes) =
            omega (arith, length-drop size bytes) in
          (
            number (take size bytes),
            ready total (drop size bytes),
            rw (fetch_binary, passed-check_len size p (ground (arith, t)), t, len) refl,
          )
    ]

-- After `check_len(4)`: the head is there, and its length is off.
abbrev pub checked : ℕ → List ℕ → TlParser
checked total bytes = record (state (ready total bytes)) { left_len = length bytes - 4 }

fetch_medium_string-Returns :
    (total : ℕ) (bytes : List ℕ)
    → 4 ≤ length bytes
    → Returns (fetch_medium_string (checked total bytes))
unfolding fetch_medium_string
fetch_medium_string-Returns total bytes h =
    let room : ltb (length bytes) 4 ≡ false = ground arith in
    let size : ℕ = number (take 3 (drop 1 bytes)) in
    rw (fetch_medium_string, room)
      (take_string-Returns (drop 4 bytes) size ((size + 3) / 4 * 4) (move 4 (checked total bytes))
        refl refl (omega (arith, length-drop 4 bytes)) (λ le. omega (arith, length-drop 4 bytes)))

fetch_long_body-Returns :
    (total : ℕ) (bytes : List ℕ)
    → 8 ≤ length bytes
    → Returns (fetch_long_body (record (checked total bytes) { left_len = length bytes - 4 - 4 }))
unfolding fetch_long_body set_error
fetch_long_body-Returns total bytes h =
    let room : ltb (length bytes) 8 ≡ false = ground arith in
    let size : ℕ = number (take 7 (drop 1 bytes)) in
    rw (fetch_long_body, room)
      (elim (Bool-cases (ltb (u64_mod - 4) size)) [
        | inl t ↦ ([], broken too_big_string (total - (length bytes - 4 - 4)) empty_data, rw t refl)
        | inr t ↦
            let le : size ≤ u64_mod - 4 = ground (arith, t) in
            rw t (
              take_string-Returns (drop 8 bytes) size (add64 size 3 / 4 * 4)
                (move 8 (record (checked total bytes) { left_len = length bytes - 4 - 4 })) refl
                refl (omega (arith, length-drop 8 bytes))
                (λ fits. omega (arith, length-drop 8 bytes)))
      ])

fetch_long_string-Returns :
    (total : ℕ) (bytes : List ℕ)
    → 4 ≤ length bytes
    → Returns (fetch_long_string (checked total bytes))
unfolding fetch_long_string
fetch_long_string-Returns total bytes h = elim (Bool-cases (ltb (length bytes - 4) 4)) [
  | inl t ↦ (
    [],
    broken not_enough_data (total - (length bytes - 4)) (drop 8 empty_data),
    rw (fetch_long_string, short-check_len 4 (checked total bytes) refl (ground (arith, t))) refl,
  )
  | inr t ↦
      rw (fetch_long_string, passed-check_len 4 (checked total bytes) (ground (arith, t)))
        (fetch_long_body-Returns total bytes (ground (arith, t)))
]

fetch_body-Returns :
    (total : ℕ) (bytes : List ℕ) → 4 ≤ length bytes → Returns (fetch_body (checked total bytes))
unfolding fetch_body
fetch_body-Returns total [] h = absurd (omega arith)
fetch_body-Returns total (head ∷ rest) h = elim (Bool-cases (ltb head 254)) [
  | inl t ↦ rw t (
      take_string-Returns rest head (head / 4 * 4) (move 4 (checked total (head ∷ rest))) refl refl
        (omega (arith, length-drop 3 rest)) (λ le. omega arith))
  | inr t ↦ rw t (elim (Bool-cases (head == 254)) [
    | inl s ↦ rw s (fetch_medium_string-Returns total (head ∷ rest) h)
    | inr s ↦ rw s (fetch_long_string-Returns total (head ∷ rest) h)
  ])
]

pub fetch_string-Returns : (s : Shape) → Returns (fetch_string (state s))
unfolding fetch_string
fetch_string-Returns (broken e at bytes) = ([], broken e at (drop 4 empty_data), refl)
fetch_string-Returns (ready total bytes) =
    let p : TlParser = state (ready total bytes) in
    elim (Bool-cases (ltb (length bytes) 4)) [
      | inl t ↦ (
        [],
        broken not_enough_data (total - length bytes) (drop 4 empty_data),
        rw (fetch_string, short-check_len 4 p refl (ground (arith, t))) refl,
      )
      | inr t ↦
          rw (fetch_string, passed-check_len 4 p (ground (arith, t)))
            (fetch_body-Returns total bytes (ground (arith, t)))
    ]
