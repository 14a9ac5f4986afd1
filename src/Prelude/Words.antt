-- ===== src/Prelude/Words.antt =====
-- Machine integers are plain numbers with their checks written out. `usize` has 64 bits.
use Prim.Native.Nat.{ℕ, ◌+◌, ◌*◌, ◌/◌, ◌%◌, ◌^◌}
use mathlib.Core.Option.{Option, none, some}
use cmafly.Prelude.Tests.{ltb, if◌then◌else◌}

abbrev pub u32_mod : ℕ
u32_mod = 2 ^ 32

abbrev pub u64_mod : ℕ
u64_mod = 2 ^ 64

-- `a.checked_add(b)` and `a.checked_mul(b)` at 64 bits.
abbrev pub checked_add : ℕ → ℕ → Option ℕ
checked_add a b = if ltb (a + b) u64_mod then some (a + b) else none

abbrev pub checked_mul : ℕ → ℕ → Option ℕ
checked_mul a b = if ltb (a * b) u64_mod then some (a * b) else none

-- `u32::try_from(n)` and `u64::try_from(n)`.
abbrev pub try_u32 : ℕ → Option ℕ
try_u32 n = if ltb n u32_mod then some n else none

abbrev pub try_u64 : ℕ → Option ℕ
try_u64 n = if ltb n u64_mod then some n else none

-- `n.div_ceil(d)`; no caller divides by 0.
abbrev pub div_ceil : ℕ → ℕ → ℕ
div_ceil n d = n / d + (if ltb 0 (n % d) then 1 else 0)
