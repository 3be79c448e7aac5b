-- ===== src/Base64/RoundTrip.antt =====
-- base64.cpp: what is encoded is decoded to the same bytes.
use pxc_core.Prelude.{
  ℕ, zero, suc, ◌+◌, ◌*◌, ◌/◌, ◌%◌, ◌<◌, ◌≡◌, ◌≢◌, refl, ap, ◌∙◌, if◌then◌else◌, Bool, true, false,
  List, [], ◌∷◌, ◌++◌, arith, length,
}
use pxc_core.Base64.{
  ok, ◌>>=◌, character, encode, strip_step, strip, drop_padding, checked_value, decode_groups,
  decode,
}
use pxc_core.Base64.Table.{value-character}

-- Every element is a byte.
abbrev pub Bytes : List ℕ → Type 0
Bytes [] = Unit
Bytes (x ∷ xs) = (x < 256) × Bytes xs

-- The characters of an encoding, without the padding.
pub body : Bool → List ℕ → List ℕ
body is_url [] = []
body is_url (a ∷ []) =
    character is_url (a * 65536 / 262144) ∷ character is_url (a * 65536 / 4096 % 64) ∷ []
body is_url (a ∷ b ∷ []) =
    let c = a * 65536 + b * 256 in
    character is_url (c / 262144)
    ∷ character is_url (c / 4096 % 64)
    ∷ character is_url (c / 64 % 64)
    ∷ []
body is_url (a ∷ b ∷ d ∷ rest) =
    let c = a * 65536 + b * 256 + d in
    character is_url (c / 262144)
    ∷ character is_url (c / 4096 % 64)
    ∷ character is_url (c / 64 % 64)
    ∷ character is_url (c % 64)
    ∷ body is_url rest

checked : (is_url : Bool) (v : ℕ) → v < 64 → checked_value is_url (character is_url v) ≡ ok v
unfolding checked_value
checked is_url v h = ground (arith, value-character is_url v h)

decode_groups-body :
    (is_url : Bool) (bs : List ℕ) → Bytes bs → decode_groups is_url (body is_url bs) ≡ ok bs
unfolding decode_groups body
decode_groups-body is_url [] h = refl
decode_groups-body is_url (a ∷ []) h =
    rw
      (
        checked is_url (a * 65536 / 262144) (omega arith),
        checked is_url (a * 65536 / 4096 % 64) (omega arith),
      )
      (ground arith)
decode_groups-body is_url (a ∷ b ∷ []) h =
    let c : ℕ = a * 65536 + b * 256 in
    rw
      (
        checked is_url (c / 262144) (omega arith),
        checked is_url (c / 4096 % 64) (omega arith),
        checked is_url (c / 64 % 64) (omega arith),
      )
      (ground arith)
decode_groups-body is_url (a ∷ b ∷ d ∷ rest) h =
    let c : ℕ = a * 65536 + b * 256 + d in
    rw
      (
        checked is_url (c / 262144) (omega arith),
        checked is_url (c / 4096 % 64) (omega arith),
        checked is_url (c / 64 % 64) (omega arith),
        checked is_url (c % 64) (omega arith),
        decode_groups-body is_url rest h.1.1.1,
      )
      (ground arith)

-- No `=` among the characters.
abbrev pub Unpadded : List ℕ → Type 0
Unpadded [] = Unit
Unpadded (x ∷ xs) = (x ≢ b'=') × Unpadded xs

plain : (is_url : Bool) (v : ℕ) → v < 64 → character is_url v ≢ b'='
plain is_url v h = (value-character is_url v h).1

body-Unpadded : (is_url : Bool) (bs : List ℕ) → Bytes bs → Unpadded (body is_url bs)
unfolding body
body-Unpadded is_url [] h = tt
body-Unpadded is_url (a ∷ []) h = (plain is_url _ (omega arith), (plain is_url _ (omega arith), tt))
body-Unpadded is_url (a ∷ b ∷ []) h = (
  plain is_url _ (omega arith),
  (plain is_url _ (omega arith), (plain is_url _ (omega arith), tt)),
)
body-Unpadded is_url (a ∷ b ∷ d ∷ rest) h = (
  plain is_url _ (omega arith),
  (
    plain is_url _ (omega arith),
    (
      plain is_url _ (omega arith),
      (plain is_url _ (omega arith), body-Unpadded is_url rest h.1.1.1),
    ),
  ),
)

pub equals_signs : ℕ → List ℕ
equals_signs zero = []
equals_signs (suc n) = b'=' ∷ equals_signs n

strip-equals_signs : (n : ℕ) → strip (equals_signs n) ≡ ([], n)
unfolding strip equals_signs
strip-equals_signs zero = refl
strip-equals_signs (suc n) =
    let e : n + 1 ≡ suc n = omega arith in
    ap (strip_step b'=') (strip-equals_signs n) ∙ ap (λ k. ([], k)) e

-- Stripping takes off just the padding.
pub strip-append : (xs : List ℕ) (n : ℕ) → Unpadded xs → strip (xs ++ equals_signs n) ≡ (xs, n)
unfolding strip
strip-append [] n h = strip-equals_signs n
strip-append (x ∷ []) n h =
    ap (strip_step x) (strip-append [] n tt) ∙ unfold strip_step in (ground arith)
strip-append (x ∷ y ∷ xs) n h = ap (strip_step x) (strip-append (y ∷ xs) n h.1)

pads : Bool → List ℕ → ℕ
pads is_url [] = 0
pads is_url (a ∷ []) = if is_url then 0 else 2
pads is_url (a ∷ b ∷ []) = if is_url then 0 else 1
pads is_url (a ∷ b ∷ d ∷ rest) = pads is_url rest

encode_lem :
    (is_url : Bool) (bs : List ℕ)
    → encode is_url bs ≡ body is_url bs ++ equals_signs (pads is_url bs)
unfolding encode body pads equals_signs
encode_lem is_url [] = refl
encode_lem true (a ∷ []) = refl
encode_lem false (a ∷ []) = refl
encode_lem true (a ∷ b ∷ []) = refl
encode_lem false (a ∷ b ∷ []) = refl
encode_lem is_url (a ∷ b ∷ d ∷ rest) = rw (encode_lem is_url rest)

length-body :
    (is_url : Bool) (bs : List ℕ)
    → (pads is_url bs < 3)
      × ((is_url ≡ false) → (length (body is_url bs) + pads is_url bs) % 4 ≡ 0)
      × ((is_url ≡ true) → (pads is_url bs ≡ 0) × (length (body is_url bs) % 4 ≢ 1))
unfolding body pads
length-body is_url [] = (omega arith, λ e. refl, λ e. (refl, omega arith))
length-body true (a ∷ []) = (omega arith, λ e. absurd (cc e), λ e. (refl, omega arith))
length-body false (a ∷ []) = (omega arith, λ e. refl, λ e. absurd (cc e))
length-body true (a ∷ b ∷ []) = (omega arith, λ e. absurd (cc e), λ e. (refl, omega arith))
length-body false (a ∷ b ∷ []) = (omega arith, λ e. refl, λ e. absurd (cc e))
length-body is_url (a ∷ b ∷ d ∷ rest) =
    let r = length-body is_url rest in
    (r.0, λ e. omega (arith, r.1 e), λ e. ((r.2 e).0, omega (arith, (r.2 e).1)))

drop_padding-encode :
    (is_url : Bool) (bs : List ℕ)
    → Bytes bs
    → drop_padding is_url (encode is_url bs) ≡ ok (body is_url bs)
unfolding drop_padding
drop_padding-encode is_url bs h =
    let r = length-body is_url bs in
    let s : strip (encode is_url bs) ≡ (body is_url bs, pads is_url bs) =
      ap strip (encode_lem is_url bs)
      ∙ strip-append (body is_url bs) (pads is_url bs) (body-Unpadded is_url bs h) in
    rw s (ground (arith, r))

-- Decoding an encoded string gives the bytes back, in both alphabets.
pub decode-encode :
    (is_url : Bool) (bs : List ℕ) → Bytes bs → decode is_url (encode is_url bs) ≡ ok bs
decode-encode is_url bs h =
    let step : decode is_url (encode is_url bs)
        ≡ (drop_padding is_url (encode is_url bs) >>= decode_groups is_url) =
      unfold decode in refl in
    step
    ∙ ap (λ r. r >>= decode_groups is_url) (drop_padding-encode is_url bs h)
    ∙ decode_groups-body is_url bs h
