-- ===== src/Prelude/Tables.antt =====
-- Checks of every value below a bound by evaluation, for facts on bits of small numbers.
use Prim.Native.Nat.{ℕ, zero, suc, ◌<◌}
use mathlib.Core.Path.{◌≡◌}
use mathlib.Core.Bool.{Bool, true, ◌&&◌}
use native.Mathlib.Omega.{arith}

unfoldable pub all_below : ℕ → (ℕ → Bool) → Bool
all_below zero p = true
all_below (suc n) p = p n && all_below n p

pub all_below→ : (n : ℕ) (p : ℕ → Bool) (x : ℕ) → all_below n p ≡ true → x < n → p x ≡ true
unfolding all_below
all_below→ zero p x h lt = absurd (omega arith)
all_below→ (suc n) p x h lt = ground (arith, all_below→ n p x)

-- The same for pairs.
unfoldable pub all_pairs : ℕ → ℕ → (ℕ → ℕ → Bool) → Bool
unfolding all_below
all_pairs m n p = all_below m (λ a. all_below n (p a))

pub all_pairs→ :
    (m n : ℕ) (p : ℕ → ℕ → Bool) (a b : ℕ) → all_pairs m n p ≡ true → a < m → b < n → p a b ≡ true
unfolding all_pairs
all_pairs→ m n p a b h ha hb =
    all_below→ n (p a) b (all_below→ m (λ a. all_below n (p a)) a h ha) hb
