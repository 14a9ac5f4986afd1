-- ===== src/ByteOrder/BigEndian.antt =====
-- The big-endian byte order, a value of the interface for tests and witnesses.
use cmafly.Prelude.{ℕ, ◌+◌, ◌*◌, ◌/◌, ◌%◌, ◌<◌, ◌≡◌, refl, List, [], ◌∷◌, arith}
use cmafly.Prelude.{u32_mod, u64_mod}
use cmafly.ByteOrder.{ByteOrder}

abbrev digits_from : ℕ → List ℕ → ℕ
digits_from acc [] = acc
digits_from acc (b ∷ bs) = digits_from (256 * acc + b) bs

abbrev put_u16 : ℕ → List ℕ
put_u16 n = n / 256 % 256 ∷ n % 256 ∷ []

abbrev put_u32 : ℕ → List ℕ
put_u32 n = n / 16777216 % 256 ∷ n / 65536 % 256 ∷ n / 256 % 256 ∷ n % 256 ∷ []

-- The upper and the lower half.
abbrev put_u64 : ℕ → List ℕ
put_u64 n =
    n / 72057594037927936 % 256
    ∷ n / 281474976710656 % 256
    ∷ n / 1099511627776 % 256
    ∷ n / 4294967296 % 256
    ∷ put_u32 n

pub get-put_u16 : (n : ℕ) → n < 65536 → digits_from 0 (put_u16 n) ≡ n
get-put_u16 n h = omega arith

pub get-put_u32 : (n : ℕ) → n < u32_mod → digits_from 0 (put_u32 n) ≡ n
get-put_u32 n h = omega arith

pub get-put_u64 : (n : ℕ) → n < u64_mod → digits_from 0 (put_u64 n) ≡ n
get-put_u64 n h = omega arith

abbrev pub big_endian : ByteOrder
big_endian = record {
  read_u16 = digits_from 0;
  read_u32 = digits_from 0;
  read_u64 = digits_from 0;
  write_u16 = put_u16;
  write_u32 = put_u32;
  write_u64 = put_u64;
  length-write_u16 = λ n. refl;
  length-write_u32 = λ n. refl;
  length-write_u64 = λ n. refl;
  read-write_u16 = get-put_u16;
  read-write_u32 = get-put_u32;
  read-write_u64 = get-put_u64;
}
