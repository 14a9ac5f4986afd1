-- ===== src/NativeEndian.antt =====
-- What the program uses of the target's own number format: `to_ne_bytes`, and the reading of a
-- `repr(C)` row from its bytes, field by field.
pub mod LittleEndian
use cmafly.Prelude.{arith, ℕ, ◌<◌, ◌≡◌, List, length, u32_mod, u64_mod}

pub record NativeEndian : Type 0 where
  pub from_ne_u32 : List ℕ → ℕ
  pub from_ne_u64 : List ℕ → ℕ
  pub to_ne_u32 : ℕ → List ℕ
  pub to_ne_u64 : ℕ → List ℕ
  pub length-to_ne_u32 : (n : ℕ) → length (to_ne_u32 n) ≡ 4
  pub length-to_ne_u64 : (n : ℕ) → length (to_ne_u64 n) ≡ 8
  pub from-to_ne_u32 : (n : ℕ) → n < u32_mod → from_ne_u32 (to_ne_u32 n) ≡ n
  pub from-to_ne_u64 : (n : ℕ) → n < u64_mod → from_ne_u64 (to_ne_u64 n) ≡ n

abbrev pub from_ne_u32 : ⦃ne : NativeEndian⦄ → List ℕ → ℕ
from_ne_u32 ⦃ne⦄ = ne.from_ne_u32

abbrev pub from_ne_u64 : ⦃ne : NativeEndian⦄ → List ℕ → ℕ
from_ne_u64 ⦃ne⦄ = ne.from_ne_u64

abbrev pub to_ne_u32 : ⦃ne : NativeEndian⦄ → ℕ → List ℕ
to_ne_u32 ⦃ne⦄ = ne.to_ne_u32

abbrev pub to_ne_u64 : ⦃ne : NativeEndian⦄ → ℕ → List ℕ
to_ne_u64 ⦃ne⦄ = ne.to_ne_u64

pub length_ne_u32 : ⦃ne : NativeEndian⦄ (n : ℕ) → length (to_ne_u32 n) ≡ 4
length_ne_u32 ⦃ne⦄ n = ne.length-to_ne_u32 n

pub length_ne_u64 : ⦃ne : NativeEndian⦄ (n : ℕ) → length (to_ne_u64 n) ≡ 8
length_ne_u64 ⦃ne⦄ n = ne.length-to_ne_u64 n

-- Arithmetic on positions in a row.
pub ruleset ne_sizes = (arith, length_ne_u32, length_ne_u64)
