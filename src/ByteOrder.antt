-- ===== src/ByteOrder.antt =====
-- What the program uses of the `byteorder` crate: big-endian integers of 16, 32 and 64 bits, read
-- from a slice of their size and written to a writer.
pub mod BigEndian
use cmafly.Prelude.{arith, ℕ, ◌<◌, ◌≡◌, List, length, u32_mod, u64_mod}

pub record ByteOrder : Type 0 where
  pub read_u16 : List ℕ → ℕ
  pub read_u32 : List ℕ → ℕ
  pub read_u64 : List ℕ → ℕ
  pub write_u16 : ℕ → List ℕ
  pub write_u32 : ℕ → List ℕ
  pub write_u64 : ℕ → List ℕ
  pub length-write_u16 : (n : ℕ) → length (write_u16 n) ≡ 2
  pub length-write_u32 : (n : ℕ) → length (write_u32 n) ≡ 4
  pub length-write_u64 : (n : ℕ) → length (write_u64 n) ≡ 8
  pub read-write_u16 : (n : ℕ) → n < 65536 → read_u16 (write_u16 n) ≡ n
  pub read-write_u32 : (n : ℕ) → n < u32_mod → read_u32 (write_u32 n) ≡ n
  pub read-write_u64 : (n : ℕ) → n < u64_mod → read_u64 (write_u64 n) ≡ n

abbrev pub read_u16 : ⦃be : ByteOrder⦄ → List ℕ → ℕ
read_u16 ⦃be⦄ = be.read_u16

abbrev pub read_u32 : ⦃be : ByteOrder⦄ → List ℕ → ℕ
read_u32 ⦃be⦄ = be.read_u32

abbrev pub read_u64 : ⦃be : ByteOrder⦄ → List ℕ → ℕ
read_u64 ⦃be⦄ = be.read_u64

abbrev pub write_u32 : ⦃be : ByteOrder⦄ → ℕ → List ℕ
write_u32 ⦃be⦄ = be.write_u32

abbrev pub write_u64 : ⦃be : ByteOrder⦄ → ℕ → List ℕ
write_u64 ⦃be⦄ = be.write_u64

abbrev pub write_u16 : ⦃be : ByteOrder⦄ → ℕ → List ℕ
write_u16 ⦃be⦄ = be.write_u16

pub length_be_u32 : ⦃be : ByteOrder⦄ (n : ℕ) → length (write_u32 n) ≡ 4
length_be_u32 ⦃be⦄ n = be.length-write_u32 n

pub length_be_u64 : ⦃be : ByteOrder⦄ (n : ℕ) → length (write_u64 n) ≡ 8
length_be_u64 ⦃be⦄ n = be.length-write_u64 n

-- Arithmetic on positions in what is written.
pub ruleset be_sizes = (arith, length_be_u32, length_be_u64)
