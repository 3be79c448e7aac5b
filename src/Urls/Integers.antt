-- ===== src/Urls/Integers.antt =====
-- misc.h and StringBuilder.cpp: an `int` as a text and back.
use pxc_core.Prelude.{
  ℕ, zero, suc, ◌+◌, ◌-◌, ◌*◌, ◌/◌, ◌%◌, ◌^◌, ◌==◌, ltb, ◌<◌, ◌≤◌, ◌≡◌, inl, inr, refl, ap, ◌∙◌,
  if◌then◌else◌, Bool, true, false, some, List, [], ◌∷◌, arith, Bool-cases,
}
use pxc_core.Misc.{is_digit}
use pxc_core.Urls.{
  bump_last, equal, digits_value, signed, to_integer, to_integer_safe, print_digits, print_int,
}

equal_refl : (s : List ℕ) → equal s s ≡ true
equal_refl [] = refl
equal_refl (c ∷ s) = ground (arith, equal_refl s)

-- One more digit.
digits_value-digit :
    (value d : ℕ) (s : List ℕ)
    → d < 10
    → value * 10 + d < 2 ^ 32
    → digits_value value ((b'0' + d) ∷ s) ≡ digits_value (value * 10 + d) s
unfolding digits_value is_digit
digits_value-digit value d s low small =
    let test : is_digit (b'0' + d) ≡ true = ground arith in
    let same : (value * 10 + (b'0' + d - b'0')) % 2 ^ 32 ≡ value * 10 + d = omega arith in
    let taken : Bool → ℕ =
      λ t. if t then digits_value ((value * 10 + (b'0' + d - b'0')) % 2 ^ 32) s else value in
    ap taken test ∙ ap (λ n. digits_value n s) same

-- A number from the digits that its quotient by ten is printed with.
print_digits-round :
    (fuel x : ℕ) (s : List ℕ)
    → x < 2 ^ 32
    → (x / 10 == 0 ≡ false
        → digits_value 0 (print_digits fuel (x / 10) ((b'0' + x % 10) ∷ s))
          ≡ digits_value (x / 10) ((b'0' + x % 10) ∷ s))
    → digits_value 0 (print_digits (suc fuel) x s) ≡ digits_value x s
unfolding print_digits
print_digits-round fuel x s small rest =
    let digit : ℕ = b'0' + x % 10 in
    let taken : Bool → ℕ =
      λ t. digits_value 0 (if t then digit ∷ s else print_digits fuel (x / 10) (digit ∷ s)) in
    let whole : x / 10 * 10 + x % 10 ≡ x = omega arith in
    elim (Bool-cases (x / 10 == 0)) [
      | inl e ↦
          let single : 0 * 10 + x % 10 ≡ x = ground (arith, e) in
          ap taken e
          ∙ digits_value-digit 0 (x % 10) s (omega arith) (omega arith)
          ∙ ap (λ n. digits_value n s) single
      | inr e ↦
          ap taken e
          ∙ rest e
          ∙ digits_value-digit (x / 10) (x % 10) s (omega arith) (omega arith)
          ∙ ap (λ n. digits_value n s) whole
    ]

digits_value-print_digits :
    (fuel x : ℕ) (s : List ℕ)
    → x < 10 ^ suc fuel
    → x < 2 ^ 32
    → digits_value 0 (print_digits (suc fuel) x s) ≡ digits_value x s
digits_value-print_digits zero x s bound small =
    print_digits-round 0 x s small (λ e. absurd (ground (arith, e, bound)))
digits_value-print_digits (suc fuel) x s bound small =
    print_digits-round (suc fuel) x s small (λ e.
      digits_value-print_digits fuel (x / 10) ((b'0' + x % 10) ∷ s) (omega arith) (omega arith))

-- What is printed starts with a digit.
starts_digit : List ℕ → Bool
starts_digit [] = false
starts_digit (c ∷ s) = is_digit c

print_digits-starts :
    (fuel x : ℕ) (s : List ℕ) → starts_digit s ≡ true → starts_digit (print_digits fuel x s) ≡ true
unfolding print_digits starts_digit is_digit
print_digits-starts zero x s e = e
print_digits-starts (suc fuel) x s e =
    ground (arith, print_digits-starts fuel (x / 10) ((b'0' + x % 10) ∷ s))

print_digits-filled : (fuel x : ℕ) (s : List ℕ) → starts_digit (print_digits (suc fuel) x s) ≡ true
unfolding print_digits starts_digit is_digit
print_digits-filled fuel x s =
    ground (arith, print_digits-starts fuel (x / 10) ((b'0' + x % 10) ∷ s))

signed_low : (n : ℕ) → n < 2 ^ 31 → signed false n ≡ n
unfolding signed
signed_low n low = ground (arith, low)

signed_high : (n : ℕ) → n < 2 ^ 32 → 2 ^ 31 ≤ n → signed true (2 ^ 32 - n) ≡ n
unfolding signed
signed_high n small high = ground (arith, small, high)

printed_digits : (n : ℕ) → n < 2 ^ 32 → digits_value 0 (print_digits 10 n []) ≡ n
unfolding digits_value
printed_digits n small = digits_value-print_digits 9 n [] (omega arith) small

to_integer-digits :
    (s : List ℕ) → starts_digit s ≡ true → to_integer s ≡ signed false (digits_value 0 s)
unfolding to_integer starts_digit is_digit
to_integer-digits [] e = absurd (ground (arith, e))
to_integer-digits (c ∷ s) e =
    let plain : c == b'-' ≡ false = ground (arith, e) in
    ap (λ t. if t then signed true (digits_value 0 s) else signed false (digits_value 0 (c ∷ s)))
      plain

to_integer-negative : (s : List ℕ) → to_integer (b'-' ∷ s) ≡ signed true (digits_value 0 s)
unfolding to_integer
to_integer-negative s = refl

least_int : to_integer (bump_last (b'-' ∷ print_digits 10 (2 ^ 31 - 1) [])) ≡ 2 ^ 31
unfolding to_integer print_digits
least_int = refl

to_integer-print_int : (n : ℕ) → n < 2 ^ 32 → to_integer (print_int n) ≡ n
unfolding print_int
to_integer-print_int n small =
    let plain : List ℕ = print_digits 10 n [] in
    let least : List ℕ = bump_last (b'-' ∷ print_digits 10 (2 ^ 31 - 1) []) in
    let digits : List ℕ = print_digits 10 (2 ^ 32 - n) [] in
    let other : Bool → List ℕ = λ t. if t then least else b'-' ∷ digits in
    let taken : Bool → ℕ = λ t. to_integer (if t then plain else other (n == 2 ^ 31)) in
    elim (Bool-cases (ltb n (2 ^ 31))) [
      | inl e ↦
          ap taken e
          ∙ to_integer-digits plain (print_digits-filled 9 n [])
          ∙ ap (signed false) (printed_digits n small)
          ∙ signed_low n (ground (arith, e))
      | inr e ↦ elim (Bool-cases (n == 2 ^ 31)) [
        | inl f ↦
            let same : 2 ^ 31 ≡ n = ground (arith, f) in
            ap taken e ∙ ap (λ t. to_integer (other t)) f ∙ least_int ∙ same
        | inr f ↦
            ap taken e
            ∙ ap (λ t. to_integer (other t)) f
            ∙ to_integer-negative digits
            ∙ ap (signed true) (printed_digits (2 ^ 32 - n) (ground (arith, e)))
            ∙ signed_high n small (ground (arith, e))
      ]
    ]

-- Every `int` is read back from the text that it is printed as.
pub to_integer_safe-print_int : (n : ℕ) → n < 2 ^ 32 → to_integer_safe (print_int n) ≡ some n
unfolding to_integer_safe
to_integer_safe-print_int n small =
    let back = to_integer-print_int n small in
    rw (to_integer_safe, back, equal_refl (print_int n)) refl
