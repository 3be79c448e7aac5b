-- ===== src/Misc/Runs.antt =====
-- misc.cpp: run-length encoded bytes are decoded to the bytes that they encode.
use pxc_core.Prelude.{
  ℕ, zero, suc, ◌+◌, ◌%◌, ◌<◌, ◌≤◌, ◌==◌, ◌≡◌, refl, ap, ◌∙◌, Bool, true, false, ltb, ◌&&◌, List,
  [], ◌∷◌, ◌++◌, length, replicate, arith, Bool-cases, inl, inr,
}
use pxc_core.Misc.{
  count_run, encode_runs, decode_runs, is_zero, is_zero_or_one, zero_encode, zero_decode,
  zero_one_encode, zero_one_decode,
}

replicate_end : (c n : ℕ) (s : List ℕ) → replicate (n + 1) c ++ s ≡ replicate n c ++ (c ∷ s)
replicate_end c zero s = refl
replicate_end c (suc n) s =
    let e : suc n + 1 ≡ suc (n + 1) = omega arith in rw e (ap (λ l. c ∷ l) (replicate_end c n s))

-- The characters before the counted ones, and these, are a run of `c`.
count_run_lem :
    (c cnt : ℕ) (s : List ℕ)
    → cnt ≤ 250
    → replicate (count_run c cnt s).0 c ++ (count_run c cnt s).1 ≡ replicate cnt c ++ s
unfolding count_run
count_run_lem c cnt [] h = refl
count_run_lem c cnt (x ∷ s) h = elim (Bool-cases (ltb cnt 250 && x == c)) [
  | inr e ↦ rw e refl
  | inl e ↦
      let same : x ≡ c = ground (arith, e) in
      let low : cnt < 250 = ground (arith, e) in
      let next : (cnt + 1) % 256 ≡ cnt + 1 = omega arith in
      rw (e, same, next) (count_run_lem c (cnt + 1) s (omega arith) ∙ replicate_end c cnt s)
]

length-count_run : (c cnt : ℕ) (s : List ℕ) → length (count_run c cnt s).1 ≤ length s
unfolding count_run
length-count_run c cnt [] = omega arith
length-count_run c cnt (x ∷ s) = ground (arith, length-count_run c ((cnt + 1) % 256) s)

count_run-bound : (c cnt : ℕ) (s : List ℕ) → cnt ≤ 250 → (count_run c cnt s).0 ≤ 250
unfolding count_run
count_run-bound c cnt [] h = h
count_run-bound c cnt (x ∷ s) h = ground (arith, count_run-bound c ((cnt + 1) % 256) s, h)

module _ (is_counted : ℕ → Bool) where
  decode-counted :
      (c n : ℕ) (s : List ℕ)
      → is_counted c ≡ true
      → decode_runs is_counted (c ∷ n ∷ s) ≡ replicate n c ++ decode_runs is_counted s
  unfolding decode_runs
  decode-counted c n s e = rw e refl

  decode-plain :
      (c : ℕ) (s : List ℕ)
      → is_counted c ≡ false
      → decode_runs is_counted (c ∷ s) ≡ c ∷ decode_runs is_counted s
  unfolding decode_runs
  decode-plain c [] e = refl
  decode-plain c (n ∷ s) e = rw e refl

  pub decode_runs-encode_runs :
      (fuel : ℕ) (s : List ℕ)
      → length s ≤ fuel
      → decode_runs is_counted (encode_runs is_counted fuel s) ≡ s
  unfolding encode_runs
  decode_runs-encode_runs zero [] h = unfold decode_runs in refl
  decode_runs-encode_runs zero (c ∷ s) h = absurd (omega arith)
  decode_runs-encode_runs (suc fuel) [] h = unfold decode_runs in refl
  decode_runs-encode_runs (suc fuel) (c ∷ s) h = elim (Bool-cases (is_counted c)) [
    | inl e ↦
        let run : ℕ × List ℕ = count_run c 1 s in
        let byte : run.0 % 256 ≡ run.0 = omega (arith, count_run-bound c 1 s (omega arith)) in
        rw (e, byte)
          (decode-counted c run.0 (encode_runs is_counted fuel run.1) e
            ∙ ap (λ l. replicate run.0 c ++ l)
                (decode_runs-encode_runs fuel run.1 (omega (arith, length-count_run c 1 s)))
            ∙ count_run_lem c 1 s (omega arith))
    | inr e ↦ rw e (
        decode-plain c (encode_runs is_counted fuel s) e
        ∙ ap (λ l. c ∷ l) (decode_runs-encode_runs fuel s (omega arith)))
  ]

-- `zero_decode` gives back what `zero_encode` was given, and `zero_one_decode` what
-- `zero_one_encode` was given, for all bytes.
pub zero_decode-zero_encode :
    (s : List ℕ) → (zero_decode (zero_encode s) ≡ s) × (zero_one_decode (zero_one_encode s) ≡ s)
unfolding zero_decode zero_encode zero_one_decode zero_one_encode
zero_decode-zero_encode s = (
  decode_runs-encode_runs is_zero (length s) s (omega arith),
  decode_runs-encode_runs is_zero_or_one (length s) s (omega arith),
)
