-- ===== src/Base64/Table.antt =====
-- The character tables of base64.cpp, each entry checked by evaluation.
use pxc_core.Prelude.{
  ℕ, ◌<◌, ◌==◌, ltb, ◌≡◌, ◌≢◌, refl, Bool, true, false, not, ◌&&◌, arith, all_below, all_below→,
  if◌then◌else◌,
}
use pxc_core.Base64.{character, value}

encoded :
    (is_url : Bool)
    → all_below 64 (λ v. value is_url (character is_url v) == v && not (character is_url v == b'='))
      ≡ true
unfolding all_below value character
encoded true = refl
encoded false = refl

decoded :
    (is_url : Bool)
    → all_below 256 (λ c.
      if value is_url c == 64
      then true
      else ltb (value is_url c) 64 && character is_url (value is_url c) == c)
      ≡ true
unfolding all_below value character
decoded true = refl
decoded false = refl

-- A sextet is read back from its character, which is not the padding.
pub value-character :
    (is_url : Bool) (v : ℕ)
    → v < 64
    → (value is_url (character is_url v) ≡ v) × (character is_url v ≢ b'=')
value-character is_url v h =
    let row = all_below→ 64 _ v (encoded is_url) h in (ground (arith, row), ground (arith, row))

-- A byte that the table knows is the character of its value.
pub character-value :
    (is_url : Bool) (c : ℕ)
    → c < 256
    → value is_url c ≢ 64
    → (character is_url (value is_url c) ≡ c) × (value is_url c < 64)
character-value is_url c h known =
    let row = all_below→ 256 _ c (decoded is_url) h in (ground (arith, row), ground (arith, row))

pub value_equals_sign : (is_url : Bool) → value is_url b'=' ≡ 64
unfolding value
value_equals_sign true = refl
value_equals_sign false = refl
