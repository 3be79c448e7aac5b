-- ===== src/Base64/Accepts.antt =====
-- base64.cpp: `is_base64` accepts just what the decoder decodes, and the decoder writes just the
-- bytes that were allocated for it.
use pxc_core.Prelude.{
  ℕ, suc, ◌+◌, ◌%◌, ◌<◌, ◌==◌, ◌≡◌, ◌≢◌, refl, sym, ap, ap₂, ◌∙◌, ◌⊎◌, inl, inr, if◌then◌else◌,
  Bool, true, false, not, ◌&&◌, List, [], ◌∷◌, arith, length,
}
use pxc_core.Base64.{
  Error, Result, ok, err, ◌>>=◌, value, strip, strip_step, drop_padding, checked_value,
  decode_groups, decode, decoded_size, is_characters, is_base64, last,
}
use pxc_core.Base64.Table.{character-value}
use pxc_core.Base64.RoundTrip.{Bytes}

abbrev pub is_ok : Result (List ℕ) → Bool
is_ok (ok x) = true
is_ok (err e) = false

-- The tests of `is_base64_impl` on the last character.
abbrev tail_ok : Bool → List ℕ → Bool
tail_ok is_url s =
    if length s % 4 == 2 && not (value is_url (last s) % 16 == 0)
    then false
    else if length s % 4 == 3 && not (value is_url (last s) % 4 == 0)
    then false
    else true

value-lt : (is_url : Bool) (c : ℕ) → c < 256 → (value is_url c == 64) ≡ false → value is_url c < 64
value-lt is_url c h e = ground (arith, character-value is_url c h)

-- A round of four characters: it passes when the table knows them, and the rest decides.
four :
    (is_url : Bool) (p q r s : ℕ) (rest : List ℕ)
    → is_ok (decode_groups is_url (p ∷ q ∷ r ∷ s ∷ rest))
      ≡ (is_characters is_url (p ∷ q ∷ r ∷ s ∷ []) && is_ok (decode_groups is_url rest))
unfolding decode_groups checked_value is_characters
four is_url p q r s rest = ground arith

is_characters-four :
    (is_url : Bool) (p q r s : ℕ) (rest : List ℕ)
    → is_characters is_url (p ∷ q ∷ r ∷ s ∷ rest)
      ≡ (is_characters is_url (p ∷ q ∷ r ∷ s ∷ []) && is_characters is_url rest)
unfolding is_characters
is_characters-four is_url p q r s rest = ground arith

tail_ok-four :
    (is_url : Bool) (p q r s : ℕ) (rest : List ℕ)
    → tail_ok is_url (p ∷ q ∷ r ∷ s ∷ rest) ≡ tail_ok is_url rest
tail_ok-four is_url p q r s [] = refl
tail_ok-four is_url p q r s (x ∷ rest) =
    let e : suc (suc (suc (suc (length (x ∷ rest))))) % 4 ≡ length (x ∷ rest) % 4 = omega arith in
    rw e refl

and_regroup : (a b c : Bool) → (a && (b && c)) ≡ ((a && b) && c)
and_regroup a b c = ground arith

decode_groups-is_ok :
    (is_url : Bool) (s : List ℕ)
    → Bytes s
    → length s % 4 ≢ 1
    → is_ok (decode_groups is_url s) ≡ (is_characters is_url s && tail_ok is_url s)
unfolding decode_groups checked_value is_characters
decode_groups-is_ok is_url [] h n = refl
decode_groups-is_ok is_url (p ∷ []) h n = absurd (n refl)
decode_groups-is_ok is_url (p ∷ q ∷ []) h n =
    ground (arith, value-lt is_url p h.0, value-lt is_url q h.1.0)
decode_groups-is_ok is_url (p ∷ q ∷ r ∷ []) h n =
    ground (arith, value-lt is_url p h.0, value-lt is_url q h.1.0, value-lt is_url r h.1.1.0)
decode_groups-is_ok is_url (p ∷ q ∷ r ∷ s ∷ rest) h n =
    let four_ok : Bool = is_characters is_url (p ∷ q ∷ r ∷ s ∷ []) in
    let ih = decode_groups-is_ok is_url rest h.1.1.1.1 (λ e. n (omega (arith, e))) in
    four is_url p q r s rest
    ∙ ap (λ b. four_ok && b) ih
    ∙ and_regroup four_ok (is_characters is_url rest) (tail_ok is_url rest)
    ∙ ap₂ (λ a b. a && b) (sym (is_characters-four is_url p q r s rest))
        (sym (tail_ok-four is_url p q r s rest))

strip_step-Bytes : (x : ℕ) (r : List ℕ × ℕ) → x < 256 → Bytes r.0 → Bytes (strip_step x r).0
unfolding strip_step
strip_step-Bytes x ([], n) h b = ground arith
strip_step-Bytes x (y ∷ ys, n) h b = (h, b)

strip-Bytes : (s : List ℕ) → Bytes s → Bytes (strip s).0
unfolding strip
strip-Bytes [] h = tt
strip-Bytes (x ∷ xs) h = strip_step-Bytes x (strip xs) h.0 (strip-Bytes xs h.1)

-- What passes the tests of `drop_padding` has no single character in its last round.
pub drop_padding-length :
    (is_url : Bool) (s b : List ℕ)
    → drop_padding is_url s ≡ ok b
    → (b ≡ (strip s).0) × (length b % 4 ≢ 1)
unfolding drop_padding
drop_padding-length is_url s b e = ground arith

is_base64_err :
    (is_url : Bool) (s : List ℕ) (e : Error)
    → drop_padding is_url s ≡ err e
    → is_base64 is_url s ≡ false
unfolding is_base64 drop_padding
is_base64_err is_url s e h = ground arith

is_base64_ok :
    (is_url : Bool) (s b : List ℕ)
    → drop_padding is_url s ≡ ok b
    → is_base64 is_url s ≡ (is_characters is_url (strip s).0 && tail_ok is_url (strip s).0)
unfolding is_base64 drop_padding
is_base64_ok is_url s b h = ground arith

decode_err :
    (is_url : Bool) (s : List ℕ) (e : Error)
    → drop_padding is_url s ≡ err e
    → decode is_url s ≡ err e
unfolding decode
decode_err is_url s e h = ap (λ r. r >>= decode_groups is_url) h

decode_ok :
    (is_url : Bool) (s b : List ℕ)
    → drop_padding is_url s ≡ ok b
    → (decode is_url s ≡ decode_groups is_url (strip s).0) × (length (strip s).0 % 4 ≢ 1)
unfolding decode
decode_ok is_url s b h =
    let (same, n) = drop_padding-length is_url s b h in
    (
      ap (λ r. r >>= decode_groups is_url) h ∙ ap (decode_groups is_url) same,
      λ e. n (ap (λ l. length l % 4) same ∙ e),
    )

Result-cases : (r : Result (List ℕ)) → ((b : List ℕ) × (r ≡ ok b)) ⊎ ((e : Error) × (r ≡ err e))
Result-cases (ok b) = inl (b, refl)
Result-cases (err e) = inr (e, refl)

-- A string is accepted by `is_base64` (`is_base64url`) just when the decoder decodes it.
pub is_base64-decode :
    (is_url : Bool) (s : List ℕ) → Bytes s → is_base64 is_url s ≡ is_ok (decode is_url s)
is_base64-decode is_url s h = elim (Result-cases (drop_padding is_url s)) [
  | inl (b, e) ↦
      let (same, n) = decode_ok is_url s b e in
      is_base64_ok is_url s b e
      ∙ sym (ap is_ok same ∙ decode_groups-is_ok is_url (strip s).0 (strip-Bytes s h) n)
  | inr (x, e) ↦ is_base64_err is_url s x e ∙ sym (ap is_ok (decode_err is_url s x e))
]

bind_ok :
    {A B : Type 0} (first : Result A) (next : A → Result B) {out : B}
    → (first >>= next) ≡ ok out
    → (a : A) × (first ≡ ok a) × (next a ≡ ok out)
bind_ok (err e) next eq = absurd (cc eq)
bind_ok (ok a) next eq = (a, refl, eq)

-- A round of four characters that passes writes three bytes before those of the rest.
four_out :
    (is_url : Bool) (p q r s : ℕ) (rest out : List ℕ)
    → decode_groups is_url (p ∷ q ∷ r ∷ s ∷ rest) ≡ ok out
    → (more : List ℕ) × (decode_groups is_url rest ≡ ok more) × (length out ≡ length more + 3)
unfolding decode_groups
four_out is_url p q r s rest out e =
    let (v, ev, e1) = bind_ok (checked_value is_url p) _ e in
    let (w, ew, e2) = bind_ok (checked_value is_url q) _ e1 in
    let (x, ex, e3) = bind_ok (checked_value is_url r) _ e2 in
    let (y, ey, e4) = bind_ok (checked_value is_url s) _ e3 in
    let (more, got, e5) = bind_ok (decode_groups is_url rest) _ e4 in
    (more, got, ground (arith, e5))

length-decode_groups :
    (is_url : Bool) (s out : List ℕ)
    → length s % 4 ≢ 1
    → decode_groups is_url s ≡ ok out
    → length out ≡ decoded_size s
unfolding decode_groups
length-decode_groups is_url [] out n e = ground arith
length-decode_groups is_url (p ∷ []) out n e = absurd (n refl)
length-decode_groups is_url (p ∷ q ∷ []) out n e = ground arith
length-decode_groups is_url (p ∷ q ∷ r ∷ []) out n e = ground arith
length-decode_groups is_url (p ∷ q ∷ r ∷ s ∷ rest) out n e =
    let (more, got, size) = four_out is_url p q r s rest out e in
    let ih = length-decode_groups is_url rest more (λ z. n (omega (arith, z))) got in
    omega (arith, ih, size)

-- The decoder writes exactly as many bytes as were allocated for the string without its padding.
pub length-decode :
    (is_url : Bool) (s out : List ℕ)
    → decode is_url s ≡ ok out
    → length out ≡ decoded_size (strip s).0
length-decode is_url s out e = elim (Result-cases (drop_padding is_url s)) [
  | inl (b, d) ↦
      let (same, n) = decode_ok is_url s b d in
      length-decode_groups is_url (strip s).0 out n (sym same ∙ e)
  | inr (x, d) ↦ absurd (cc (decode_err is_url s x d))
]
