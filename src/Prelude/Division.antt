-- ===== src/Prelude/Division.antt =====
-- Division by an unknown, by its bounds.
use Prim.Native.Nat.{ℕ, ◌+◌, ◌*◌, ◌/◌, ◌≤◌, ◌<◌}
use native.Mathlib.Omega.{arith}

pub div_bounds : (n d : ℕ) → 0 < d → (n / d * d ≤ n) × (n < (n / d + 1) * d)
div_bounds n d h = grind arith

pub le-div : (n d q : ℕ) → 0 < d → q * d ≤ n → q ≤ n / d
le-div n d q h below = grind (arith, div_bounds n d h)

pub div-lt : (n d q : ℕ) → 0 < d → n < q * d → n / d < q
div-lt n d q h above = grind (arith, div_bounds n d h)
