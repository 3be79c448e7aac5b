-- ===== src/Utf8/Tests.antt =====
-- Runs of utf8.cpp, and its theorems at concrete texts.
use pxc_core.Prelude.{
  ℕ, ◌≡◌, refl, inl, inr, true, false, none, some, List, [], ◌∷◌, ◌++◌, arith, length, min,
}
use pxc_core.Utf8.{
  is_first, utf8_length, utf16_length, append_character, next, check_utf8, prev, utf8_truncate,
  utf8_substr, utf8_substr_length, utf16_truncate, utf16_substr, utf16_substr_length,
}
use pxc_core.Utf8.Encode.{AllScalar, text, check_utf8-text, next-append_character}
use pxc_core.Utf8.Count.{units, utf8_length-text}
use pxc_core.Utf8.Bounds.{check_utf8-ne-none}
use pxc_core.Utf8.Truncate.{at_character, utf8_truncate-prefix, utf16_truncate_wraps}

-- `a`, a euro sign and a musical clef, of one, three and four bytes.
abbrev sample : List ℕ
sample = 0x61 ∷ 0x20ac ∷ 0x1d11e ∷ []

abbrev sample_bytes : List ℕ
sample_bytes = 0x61 ∷ 0xe2 ∷ 0x82 ∷ 0xac ∷ 0xf0 ∷ 0x9d ∷ 0x84 ∷ 0x9e ∷ []

sample-text : text sample ≡ sample_bytes
unfolding text append_character
sample-text = refl

-- A surrogate, an overlong form and a lone continuation byte are refused.
refused :
    (check_utf8 (0xed ∷ 0xa0 ∷ 0x80 ∷ []) ≡ some false)
    × (check_utf8 (0xc0 ∷ 0xaf ∷ []) ≡ some false)
    × (check_utf8 (0x80 ∷ []) ≡ some false)
    × (check_utf8 (0xe2 ∷ 0x82 ∷ []) ≡ some false)
unfolding check_utf8
refused = (refl, refl, refl, refl)

cuts :
    (utf8_truncate sample_bytes 2 ≡ 0x61 ∷ 0xe2 ∷ 0x82 ∷ 0xac ∷ [])
    × (utf8_substr sample_bytes 2 ≡ 0xf0 ∷ 0x9d ∷ 0x84 ∷ 0x9e ∷ [])
    × (utf8_substr_length sample_bytes 1 1 ≡ 0xe2 ∷ 0x82 ∷ 0xac ∷ [])
    × (utf16_substr sample_bytes 2 ≡ 0xf0 ∷ 0x9d ∷ 0x84 ∷ 0x9e ∷ [])
    × (utf16_substr_length sample_bytes 1 1 ≡ 0xe2 ∷ 0x82 ∷ 0xac ∷ [])
unfolding utf8_truncate utf8_substr utf8_substr_length utf16_truncate utf16_substr
    utf16_substr_length is_first
cuts = (refl, refl, refl, refl, refl)

goes_back : prev (0xac ∷ 0x82 ∷ 0xe2 ∷ 0x61 ∷ []) ≡ some 3
unfolding prev is_first
goes_back = refl

sample-AllScalar : AllScalar sample
sample-AllScalar = (
  record { small = omega arith; outside = inl (omega arith) },
  (
    record { small = omega arith; outside = inl (omega arith) },
    (record { small = omega arith; outside = inr (omega arith) }, tt),
  ),
)

check_utf8-text_example : check_utf8 (text sample) ≡ some true
check_utf8-text_example = check_utf8-text sample sample-AllScalar

next-append_character_example :
    next (append_character 0x20ac ++ sample_bytes) ≡ some (0x20ac, sample_bytes)
next-append_character_example = next-append_character 0x20ac sample_bytes (omega arith)

utf8_length-text_example :
    (utf8_length (text sample) ≡ length sample) × (utf16_length (text sample) ≡ units sample)
utf8_length-text_example = utf8_length-text sample sample-AllScalar

check_utf8-ne-none_example : check_utf8 (0xf0 ∷ []) ≡ none → ⊥
check_utf8-ne-none_example = check_utf8-ne-none (0xf0 ∷ [])

utf8_truncate-prefix_example :
    ((rest : List ℕ) × (sample_bytes ≡ utf8_truncate sample_bytes 2 ++ rest)
      × (at_character rest ≡ true))
    × (utf8_length (utf8_truncate sample_bytes 2) ≡ min 2 (utf8_length sample_bytes))
utf8_truncate-prefix_example = utf8_truncate-prefix sample_bytes 2

utf16_truncate_wraps_example :
    utf16_truncate (sample_bytes ++ 0xf0 ∷ 0x9d ∷ 0x84 ∷ 0x9e ∷ 0x61 ∷ []) 5
    ≡ sample_bytes ++ 0xf0 ∷ 0x9d ∷ 0x84 ∷ 0x9e ∷ 0x61 ∷ []
unfolding is_first
utf16_truncate_wraps_example =
    utf16_truncate_wraps sample_bytes 0xf0 (0x9d ∷ 0x84 ∷ 0x9e ∷ 0x61 ∷ []) (omega arith)
      (omega arith) (omega arith) (omega arith)
