-- ===== src/Parser/Reads.antt =====
-- Parser.h: what the reads leave.
use pxc_core.Prelude.{
  ℕ, ◌+◌, ◌≤◌, ◌==◌, ◌≡◌, refl, ap, Bool, some, List, [], ◌∷◌, ◌++◌, length, arith, Bool-cases, inl,
  inr,
}
use pxc_core.Parser.{
  read_while, contains, skip_till_not, skip_whitespaces, try_skip, try_skip_prefix, whitespaces,
}

-- `read_while` cuts the text in two.
pub append-read_while : (f : ℕ → Bool) (s : List ℕ) → (read_while f s).0 ++ (read_while f s).1 ≡ s
unfolding read_while
append-read_while f [] = refl
append-read_while f (c ∷ s) = elim (Bool-cases (f c)) [
  | inl e ↦ rw e (ap (λ l. c ∷ l) (append-read_while f s))
  | inr e ↦ rw e refl
]

pub length-skip_till_not : (str s : List ℕ) → length (skip_till_not str s) ≤ length s
unfolding skip_till_not
length-skip_till_not str [] = omega arith
length-skip_till_not str (c ∷ s) = elim (Bool-cases (contains str c)) [
  | inl e ↦ rw e (omega (arith, length-skip_till_not str s))
  | inr e ↦ rw e (omega arith)
]

pub length-skip_whitespaces : (s : List ℕ) → length (skip_whitespaces s) ≤ length s
unfolding skip_whitespaces
length-skip_whitespaces s = length-skip_till_not whitespaces s

pub length-try_skip : (c : ℕ) (s r : List ℕ) → try_skip c s ≡ some r → length s ≡ length r + 1
length-try_skip c [] r h = cc
length-try_skip c (x ∷ s) r h = ground arith

pub length-try_skip_prefix :
    (p s r : List ℕ) → try_skip_prefix p s ≡ some r → length s ≡ length r + length p
unfolding try_skip_prefix
length-try_skip_prefix [] s r h = ground arith
length-try_skip_prefix (c ∷ p) [] r h = cc
length-try_skip_prefix (c ∷ p) (x ∷ s) r h = elim (Bool-cases (x == c)) [
  | inl e ↦ omega (arith, length-try_skip_prefix p s r (rw e at h))
  | inr e ↦ absurd (cc (rw e at h))
]

pub length-read_while : (f : ℕ → Bool) (s : List ℕ) → length (read_while f s).1 ≤ length s
unfolding read_while
length-read_while f [] = omega arith
length-read_while f (c ∷ s) = elim (Bool-cases (f c)) [
  | inl e ↦ rw e (omega (arith, length-read_while f s))
  | inr e ↦ rw e (omega arith)
]
