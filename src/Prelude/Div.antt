-- ===== src/Prelude/Div.antt =====
-- Division that rounds up.
use Prim.Native.Nat.{ℕ, ◌+◌, ◌*◌, ◌/◌, ◌≤◌, ◌<◌}
use mathlib.Core.Logic.{◌↔◌}
use native.Mathlib.Nat.{div-add-mod, mod-lt}
use native.Mathlib.Omega.{arith}
use cmafly.Prelude.Words.{div_ceil}

pub mul-le : (a b d : ℕ) → a ≤ b → a * d ≤ b * d
mul-le a b d h = grind arith

pub lt-div_ceil : (x n d : ℕ) → 0 < d → (x < div_ceil n d) ↔ (x * d < n)
lt-div_ceil x n d h = ground (
  arith,
  div-add-mod n d,
  mod-lt n h,
  mul-le x (n / d) d,
  mul-le (x + 1) (n / d) d,
  mul-le (n / d) x d,
  mul-le (n / d + 1) x d,
)

-- The quotient is enough, and no smaller number is.
pub div_ceil-enough : (n d : ℕ) → 0 < d → n ≤ div_ceil n d * d
div_ceil-enough n d h = ground (arith, lt-div_ceil (div_ceil n d) n d h)

pub div_ceil-least : (n d q : ℕ) → 0 < d → n ≤ q * d → div_ceil n d ≤ q
div_ceil-least n d q h le = ground (arith, lt-div_ceil q n d h)
