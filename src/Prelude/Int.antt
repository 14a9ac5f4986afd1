-- ===== src/Prelude/Int.antt =====
-- Signed integers, under the library's name.
use cmafly.Prelude.Tests.{ltb, if◌then◌else◌}
use Prim.Native.Nat.{ℕ, ◌-◌}

-- `negsuc n` is -(n + 1).
pub data ℤ : Type 0 where
  pos : ℕ → ℤ
  negsuc : ℕ → ℤ

-- An `i32` as its bit pattern and back.
abbrev pub to_u32 : ℤ → ℕ
to_u32 (pos n) = n
to_u32 (negsuc n) = 4294967295 - n

abbrev pub of_u32 : ℕ → ℤ
of_u32 n = if ltb n 2147483648 then pos n else negsuc (4294967295 - n)
