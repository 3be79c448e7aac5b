-- ===== src/Tl/Bytes.antt =====
-- tl_storers.h: numbers and texts as bytes, and the lengths that TlStorerCalcLength adds up.
use pxc_core.Prelude.{
  ℕ, zero, suc, ◌+◌, ◌-◌, ◌/◌, ◌%◌, ◌^◌, ◌≤◌, ◌<◌, ltb, ◌≡◌, refl, sym, ap, ◌∙◌, true, false, List,
  [], ◌∷◌, ◌++◌, length, take, drop, ok, add64, arith, length-append, Bool-cases, inl, inr,
}
use pxc_core.Tl.{number, store_binary, string_head, padding, store_string, calc_string}

-- A number that fits its bytes is read back from them.
pub number-store_binary_four : (x : ℕ) → x < 2 ^ 32 → number (store_binary 4 x) ≡ x
number-store_binary_four x h = omega arith

pub number-store_binary_eight : (x : ℕ) → x < 2 ^ 64 → number (store_binary 8 x) ≡ x
number-store_binary_eight x h = omega arith

pub take-append_all : (s t u : List ℕ) → take (length s) ((s ++ t) ++ u) ≡ s
take-append_all [] t u = refl
take-append_all (x ∷ s) t u = ap (λ l. x ∷ l) (take-append_all s t u)

pub drop-append_all : (n : ℕ) (s t : List ℕ) → n ≡ length s → drop n (s ++ t) ≡ t
drop-append_all zero [] t e = refl
drop-append_all (suc n) [] t e = absurd (omega arith)
drop-append_all zero (x ∷ s) t e = absurd (omega arith)
drop-append_all (suc n) (x ∷ s) t e = drop-append_all n s t (omega arith)

pub length-padding : (r : ℕ) → r < 4 → length (padding r) ≡ (4 - r) % 4
unfolding padding
length-padding r h = ground arith

-- The three forms of a stored text.
pub data Stored (str : List ℕ) : Type 0 where
  short :
      length str < 254
      → store_string str ≡ ok (length str ∷ (str ++ padding ((length str + 1) % 4)))
      → Stored str
  medium :
      254 ≤ length str
      → length str < 2 ^ 24
      → store_string str
        ≡ ok (254 ∷ store_binary 3 (length str) ++ (str ++ padding (length str % 4)))
      → Stored str
  large :
      2 ^ 24 ≤ length str
      → length str < 2 ^ 32
      → store_string str
        ≡ ok (255 ∷ store_binary 7 (length str) ++ (str ++ padding (length str % 4)))
      → Stored str

pub store_string-Stored : (str : List ℕ) → length str < 2 ^ 32 → Stored str
unfolding store_string string_head
store_string-Stored str h = elim (Bool-cases (ltb (length str) 254)) [
  | inl t ↦ short (ground (arith, t)) (rw (store_string, string_head, t) refl)
  | inr t ↦ elim (Bool-cases (ltb (length str) (2 ^ 24))) [
    | inl s ↦
        let top : length str / 256 / 256 ≡ length str / 256 / 256 % 256 = ground (arith, s) in
        medium (ground (arith, t)) (ground (arith, s)) (
          rw (store_string, string_head, t, s)
            (ap
              (λ c. ok (
                254
                ∷ length str % 256
                ∷ length str / 256 % 256
                ∷ c
                ∷ (str ++ padding (length str % 4))))
              top))
    | inr s ↦
        let fits : ltb (length str) (2 ^ 32) ≡ true = ground (arith, h) in
        let zeros : store_binary 3 (length str / 256 / 256 / 256 / 256) ≡ 0 ∷ 0 ∷ 0 ∷ [] =
          let z : length str / 256 / 256 / 256 / 256 ≡ 0 = omega arith in rw z refl in
        large (ground (arith, s)) h (
          rw (store_string, string_head, t, s, fits)
            (ap
              (λ l.
                ok (255 ∷ store_binary 4 (length str) ++ l ++ (str ++ padding (length str % 4))))
              (sym zeros)))
  ]
]

-- The length of the text and its padding.
abbrev pub body : List ℕ → ℕ → List ℕ
body str rest = str ++ padding (rest % 4)

pub length-body :
    (str : List ℕ) (rest : ℕ) → length (body str rest) ≡ length str + (4 - rest % 4) % 4
length-body str rest =
    length-append str (padding (rest % 4))
    ∙ ap (λ n. length str + n) (length-padding (rest % 4) (omega arith))

-- A text of fewer than 2 ^ 32 bytes is stored, in as many bytes as TlStorerCalcLength adds.
pub calc_string-store_string :
    (str : List ℕ) (len : ℕ)
    → length str < 2 ^ 32
    → (bytes : List ℕ) × (store_string str ≡ ok bytes)
      × (calc_string str len ≡ add64 len (length bytes))
unfolding calc_string
calc_string-store_string str len h = elim (store_string-Stored str h) [
  | short a e ↦
      let t : ltb (length str) 254 ≡ true = ground arith in
      (_, e, rw (calc_string, t) (ap (add64 len) (omega (arith, length-body str (length str + 1)))))
  | medium a b e ↦
      let t : ltb (length str) 254 ≡ false = ground arith in
      let s : ltb (length str) (2 ^ 24) ≡ true = ground arith in
      (_, e, rw (calc_string, t, s) (ap (add64 len) (omega (arith, length-body str (length str)))))
  | large a b e ↦
      let t : ltb (length str) 254 ≡ false = ground arith in
      let s : ltb (length str) (2 ^ 24) ≡ false = ground arith in
      (_, e, rw (calc_string, t, s) (ap (add64 len) (omega (arith, length-body str (length str)))))
]
