-- ===== src/Prelude/Table.antt =====
-- A statement about small numbers, checked at every value.
use Prim.Native.Nat.{ℕ, zero, suc, ◌<◌}
use mathlib.Core.Path.{◌≡◌}
use mathlib.Core.Bool.{Bool, true, ◌&&◌}
use native.Mathlib.Omega.{arith}

unfoldable pub all_below : ℕ → (ℕ → Bool) → Bool
all_below zero p = true
all_below (suc n) p = p n && all_below n p

pub of-all_below : (n : ℕ) (p : ℕ → Bool) (x : ℕ) → all_below n p ≡ true → x < n → p x ≡ true
unfolding all_below
of-all_below zero p x h lt = elim lt [ ]
of-all_below (suc n) p x h lt = ground (arith, of-all_below n p x)

pub of-all_below₂ :
    (n m : ℕ) (p : ℕ → ℕ → Bool) (x y : ℕ)
    → all_below n (λ a. all_below m (p a)) ≡ true
    → x < n
    → y < m
    → p x y ≡ true
of-all_below₂ n m p x y h hx hy =
    of-all_below m (p x) y (of-all_below n (λ a. all_below m (p a)) x h hx) hy
