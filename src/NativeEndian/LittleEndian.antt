-- ===== src/NativeEndian/LittleEndian.antt =====
-- The little-endian number format, a value of the interface for tests and witnesses.
use cmafly.Prelude.{ℕ, ◌+◌, ◌*◌, ◌/◌, ◌%◌, ◌<◌, ◌≡◌, refl, List, [], ◌∷◌, arith, u32_mod, u64_mod}
use cmafly.NativeEndian.{NativeEndian}

abbrev digits : List ℕ → ℕ
digits [] = 0
digits (b ∷ bs) = b + 256 * digits bs

abbrev put_u32 : ℕ → List ℕ
put_u32 n = n % 256 ∷ n / 256 % 256 ∷ n / 65536 % 256 ∷ n / 16777216 % 256 ∷ []

abbrev put_u64 : ℕ → List ℕ
put_u64 n =
    n % 256
    ∷ n / 256 % 256
    ∷ n / 65536 % 256
    ∷ n / 16777216 % 256
    ∷ n / 4294967296 % 256
    ∷ n / 1099511627776 % 256
    ∷ n / 281474976710656 % 256
    ∷ n / 72057594037927936 % 256
    ∷ []

pub get-put_u32 : (n : ℕ) → n < u32_mod → digits (put_u32 n) ≡ n
get-put_u32 n h = omega arith

pub get-put_u64 : (n : ℕ) → n < u64_mod → digits (put_u64 n) ≡ n
get-put_u64 n h = omega arith

abbrev pub little_endian : NativeEndian
little_endian = record {
  from_ne_u32 = digits;
  from_ne_u64 = digits;
  to_ne_u32 = put_u32;
  to_ne_u64 = put_u64;
  length-to_ne_u32 = λ n. refl;
  length-to_ne_u64 = λ n. refl;
  from-to_ne_u32 = get-put_u32;
  from-to_ne_u64 = get-put_u64;
}
