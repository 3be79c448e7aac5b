-- ===== src/Parser.antt =====
-- pxcutils/pxc/utils/Parser.h: the operations that take characters off the front of a text. The
-- state is the text between `ptr_` and `end_`, and the error that `skip` and `read_till` leave.
pub mod Reads
use pxc_core.Prelude.{
  ℕ, ◌==◌, if◌then◌else◌, Bool, true, false, not, ◌||◌, Option, none, some, List, [], ◌∷◌, ◌++◌,
}

-- `peek_char`: the end of the text reads as 0.
abbrev pub peek_char : List ℕ → ℕ
peek_char [] = 0
peek_char (c ∷ s) = c

-- `try_skip` of a character: what is left, if it was there.
abbrev pub try_skip : ℕ → List ℕ → Option (List ℕ)
try_skip c [] = none
try_skip c (x ∷ s) = if x == c then some s else none

-- `try_skip` of a prefix.
unfoldable pub try_skip_prefix : List ℕ → List ℕ → Option (List ℕ)
try_skip_prefix [] s = some s
try_skip_prefix (c ∷ p) [] = none
try_skip_prefix (c ∷ p) (x ∷ s) = let rest = try_skip_prefix p s in if x == c then rest else none

unfoldable pub skip_nofail : ℕ → List ℕ → List ℕ
skip_nofail c [] = []
skip_nofail c (x ∷ s) = if x == c then s else x ∷ s

unfoldable pub read_while : (ℕ → Bool) → List ℕ → List ℕ × List ℕ
read_while f [] = ([], [])
read_while f (c ∷ s) =
    let more = read_while f s in if f c then (c ∷ more.0, more.1) else ([], c ∷ s)

-- `memchr(str.data(), c, str.size()) != nullptr`
unfoldable pub contains : List ℕ → ℕ → Bool
contains [] c = false
contains (x ∷ xs) c = x == c || contains xs c

-- `skip_till_not`
unfoldable pub skip_till_not : List ℕ → List ℕ → List ℕ
unfolding contains
skip_till_not str [] = []
skip_till_not str (c ∷ s) = if contains str c then skip_till_not str s else c ∷ s

abbrev pub whitespaces : List ℕ
whitespaces = 32 ∷ 9 ∷ 13 ∷ 10 ∷ []

unfoldable pub skip_whitespaces : List ℕ → List ℕ
unfolding skip_till_not
skip_whitespaces s = skip_till_not whitespaces s

-- `read_till_nofail` of a character.
unfoldable pub read_till_nofail : ℕ → List ℕ → List ℕ × List ℕ
unfolding read_while
read_till_nofail c s = read_while (λ x. not (x == c)) s

-- `read_till_nofail` of a set: the end that is nearest for any of its characters.
unfoldable pub read_till_any : List ℕ → List ℕ → List ℕ × List ℕ
unfolding read_while contains
read_till_any str s = read_while (λ x. not (contains str x)) s

-- A parser with its status: `failed` after an error.
pub record Parser : Type 0 where
  pub data_left : List ℕ
  pub failed : Bool

unfoldable pub skip : ℕ → Parser → Parser
skip c p = if p.failed then p else elim (try_skip c p.data_left) [
  | none ↦ record p { failed = true }
  | some s ↦ record p { data_left = s }
]

unfoldable pub read_till : ℕ → Parser → List ℕ × Parser
unfolding read_till_nofail
read_till c p =
    if p.failed
    then ([], p)
    else let (before, rest) = read_till_nofail c p.data_left in
      elim (try_skip c rest) [
        | none ↦ ([], record { data_left = rest; failed = true })
        | some _ ↦ (before, record { data_left = rest; failed = false })
      ]
