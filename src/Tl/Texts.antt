-- ===== src/Tl/Texts.antt =====
-- tl_storers.h and tl_parsers.h: a text that is stored is fetched back.
use pxc_core.Prelude.{
  ℕ, suc, ◌+◌, ◌-◌, ◌*◌, ◌/◌, ◌%◌, ◌^◌, ◌≤◌, ◌<◌, ltb, ◌≡◌, refl, ap, ◌∙◌, true, false, none, List,
  ◌∷◌, ◌++◌, length, drop, ok, add64, u64_mod, arith, length-append, length-drop, drop-drop,
}
use pxc_core.Tl.{
  TlParser, number, store_binary, take_string, fetch_long_body, fetch_long_string,
  fetch_medium_string, fetch_body, fetch_string, move, padding, store_string,
}
use pxc_core.Tl.Bytes.{
  take-append_all, drop-append_all, body, length-body, short, medium, large, store_string-Stored,
}
use pxc_core.Tl.States.{ready, state, passed-check_len, checked}

-- The end of reading a text: `data` is what stands behind the head.
take_string-stored :
    (str : List ℕ) (r aligned : ℕ) (rest : List ℕ) (p : TlParser)
    → p.failure ≡ none
    → p.error_pos ≡ none
    → p.left_len ≡ length p.data_left
    → aligned ≤ length p.data_left
    → drop aligned p.data_left ≡ rest
    → take_string (body str r ++ rest) (length str) aligned p
      ≡ ok (str, state (ready p.data_len rest))
unfolding take_string
take_string-stored str r aligned rest p fine none_at exact le left =
    let room : ltb (length (body str r ++ rest)) (length str) ≡ false =
      ground (arith, length-append (body str r) rest, length-body str r) in
    let len : p.left_len - aligned ≡ length rest =
      omega (arith, length-drop aligned p.data_left, ap length left) in
    rw
      (
        take_string,
        passed-check_len aligned p (omega arith),
        fine,
        room,
        take-append_all str (padding (r % 4)) rest,
        none_at,
        len,
        left,
      )
      refl

fetch_body-short :
    (str rest : List ℕ) (total : ℕ)
    → length str < 254
    → fetch_body (checked total (length str ∷ (body str (length str + 1) ++ rest)))
      ≡ ok (str, state (ready total rest))
unfolding fetch_body
fetch_body-short str rest total h =
    let n : ℕ = length str in
    let tail : List ℕ = body str (n + 1) ++ rest in
    let t : ltb n 254 ≡ true = ground arith in
    let size : length (body str (n + 1)) ≡ n / 4 * 4 + 3 = omega (arith, length-body str (n + 1)) in
    let all : length tail ≡ length (body str (n + 1)) + length rest =
      length-append (body str (n + 1)) rest in
    rw t (
      take_string-stored str (n + 1) (n / 4 * 4) rest (move 4 (checked total (n ∷ tail))) refl refl
        (omega (arith, length-drop 3 tail)) (omega (arith, length-drop 3 tail))
        (drop-drop (n / 4 * 4) 3 tail
          ∙ drop-append_all (3 + n / 4 * 4) (body str (n + 1)) rest (omega arith)))

fetch_body-medium :
    (str rest : List ℕ) (total : ℕ)
    → length str < 2 ^ 24
    → fetch_body
        (checked total (254 ∷ store_binary 3 (length str) ++ (body str (length str) ++ rest)))
      ≡ ok (str, state (ready total rest))
unfolding fetch_body fetch_medium_string
fetch_body-medium str rest total h =
    let n : ℕ = length str in
    let tail : List ℕ = body str n ++ rest in
    let size : number (store_binary 3 n) ≡ n = omega arith in
    let len : length (body str n) ≡ (n + 3) / 4 * 4 = omega (arith, length-body str n) in
    let all : length tail ≡ length (body str n) + length rest = length-append (body str n) rest in
    let room : ltb (suc (suc (suc (suc (length tail))))) 4 ≡ false = ground arith in
    rw (fetch_medium_string, size, room)
      (take_string-stored str n ((n + 3) / 4 * 4) rest
        (move 4 (checked total (254 ∷ store_binary 3 n ++ tail))) refl refl (omega arith)
        (omega arith) (drop-append_all ((n + 3) / 4 * 4) (body str n) rest (omega arith)))

fetch_body-large :
    (str rest : List ℕ) (total : ℕ)
    → length str < 2 ^ 32
    → fetch_body
        (checked total (255 ∷ store_binary 7 (length str) ++ (body str (length str) ++ rest)))
      ≡ ok (str, state (ready total rest))
unfolding fetch_body fetch_long_string fetch_long_body
fetch_body-large str rest total h =
    let n : ℕ = length str in
    let tail : List ℕ = body str n ++ rest in
    let size : number (store_binary 7 n) ≡ n = omega arith in
    let len : length (body str n) ≡ (n + 3) / 4 * 4 = omega (arith, length-body str n) in
    let wide : add64 n 3 / 4 * 4 ≡ (n + 3) / 4 * 4 = omega arith in
    let all : length tail ≡ length (body str n) + length rest = length-append (body str n) rest in
    let whole : List ℕ = 255 ∷ store_binary 7 n ++ tail in
    let room : ltb (length whole) 8 ≡ false = ground arith in
    let small : ltb (u64_mod - 4) n ≡ false = ground arith in
    rw
      (
        fetch_long_string,
        passed-check_len 4 (checked total whole) (omega arith),
        fetch_long_body,
        size,
        room,
        small,
        wide,
      )
      (take_string-stored str n ((n + 3) / 4 * 4) rest
        (move 8 (record (checked total whole) { left_len = length whole - 4 - 4 })) refl refl
        (omega arith) (omega arith)
        (drop-append_all ((n + 3) / 4 * 4) (body str n) rest (omega arith)))

-- `fetch_string` of a text that is there with its padding.
fetch_string-checked :
    (whole rest str : List ℕ) (total : ℕ)
    → 4 ≤ length whole
    → fetch_body (checked total whole) ≡ ok (str, state (ready total rest))
    → fetch_string (state (ready total whole)) ≡ ok (str, state (ready total rest))
unfolding fetch_string
fetch_string-checked whole rest str total h e =
    rw (fetch_string, passed-check_len 4 (state (ready total whole)) h) e

pub fetch_string-store_string :
    (str rest : List ℕ) (total : ℕ)
    → length str < 2 ^ 32
    → (bytes : List ℕ) × (store_string str ≡ ok bytes)
      × (fetch_string (state (ready total (bytes ++ rest))) ≡ ok (str, state (ready total rest)))
fetch_string-store_string str rest total h = elim (store_string-Stored str h) [
  | short a e ↦ (
    _,
    e,
    fetch_string-checked (length str ∷ (body str (length str + 1) ++ rest)) rest str total
        (omega
          (arith, length-append (body str (length str + 1)) rest, length-body str (length str + 1)))
        (fetch_body-short str rest total a),
  )
  | medium a b e ↦ (
    _,
    e,
    fetch_string-checked (254 ∷ store_binary 3 (length str) ++ (body str (length str) ++ rest)) rest
        str total (omega arith) (fetch_body-medium str rest total b),
  )
  | large a b e ↦ (
    _,
    e,
    fetch_string-checked (255 ∷ store_binary 7 (length str) ++ (body str (length str) ++ rest)) rest
        str total (omega arith) (fetch_body-large str rest total b),
  )
]
