-- ===== src/Prelude/Results.antt =====
-- Fallible results, `Result<T>` and `Status` of the source, and texts as lists of bytes.
use Prim.Native.Nat.{ℕ}
use Prim.Native.Char.{code}
use Prim.Native.String.{String}
use mathlib.Core.Path.{◌≡◌, refl}
use mathlib.Core.List.{List, [], ◌∷◌}

abbrev pub codes : String → List ℕ
codes String.[] = []
codes (String.◌∷◌ c s) = code c ∷ codes s

pub data Result (E A : Type 0) : Type 0 where
  error : E → Result E A
  ok : A → Result E A

module _ {E A B : Type 0} where
  infixl 5 ◌>>=◌
  abbrev pub ◌>>=◌ : Result E A → (A → Result E B) → Result E B
  error e >>= next = error e
  ok a >>= next = next a

  -- Both parts of a chain that gave a result.
  pub ok-bind :
      (r : Result E A) (next : A → Result E B) (b : B)
      → (r >>= next) ≡ ok b
      → (a : A) × (r ≡ ok a) × (next a ≡ ok b)
  ok-bind (error e) next b h = cc
  ok-bind (ok a) next b h = (a, refl, h)
