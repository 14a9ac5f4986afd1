-- ===== src/Demux/Boxes/Tests.antt =====
-- The unit tests of reader.rs, and the theorems at their inputs.
use cmafly.Prelude.{ℕ, ◌≡◌, refl, arith, some, List, [], ◌∷◌, ◌++◌, replicate}
use cmafly.Error.{ok, err, malformed_atom}
use cmafly.ByteOrder.BigEndian.{big_endian}
use cmafly.Demux.Source.{read_at_bytes, read_exact}
use cmafly.Demux.Source.Exact.{read_at_bytes-Reads}
use cmafly.Demux.Boxes.{box_size, read_header, next_header_loop, next_header}
use cmafly.Demux.Boxes.Bounds.{Outcome, next_header-Outcome}
use cmafly.Demux.Boxes.Written.{header_of, read_header-compact, read_header-large}

abbrev ftyp : List ℕ
ftyp = b'f' ∷ b't' ∷ b'y' ∷ b'p' ∷ []

abbrev mdat : List ℕ
mdat = b'm' ∷ b'd' ∷ b'a' ∷ b't' ∷ []

abbrev two_boxes : List ℕ
two_boxes =
    0 ∷ 0 ∷ 0 ∷ 16 ∷ b'u' ∷ b'u' ∷ b'i' ∷ b'd' ∷ replicate 8 0
    ++ (0 ∷ 0 ∷ 0 ∷ 8 ∷ b'f' ∷ b't' ∷ b'y' ∷ b'p' ∷ [])

-- skips_uuid_silently
skips_uuid :
    next_header ⦃be = big_endian⦄ (read_at_bytes two_boxes) 0 24
    ≡ (ok (some (header_of ⦃be = big_endian⦄ ftyp 16 8 8)), 24)
unfolding next_header next_header_loop read_header box_size read_exact read_at_bytes
skips_uuid = refl

-- rejects_size_below_header
size_below_header :
    next_header ⦃be = big_endian⦄ (read_at_bytes (0 ∷ 0 ∷ 0 ∷ 4 ∷ ftyp)) 0 8
    ≡ (err (malformed_atom "<box-header>" "declared size is smaller than its own header"), 0)
unfolding next_header next_header_loop read_header box_size read_exact read_at_bytes
size_below_header = refl

next_header-Outcome_example :
    Outcome ⦃be = big_endian⦄
      (read_at_bytes two_boxes)
      0
      24
      (next_header ⦃be = big_endian⦄ (read_at_bytes two_boxes) 0 24)
next_header-Outcome_example =
    next_header-Outcome ⦃be = big_endian⦄ (read_at_bytes two_boxes) two_boxes 0 24
      (read_at_bytes-Reads two_boxes)

read_header-compact_example :
    read_header ⦃be = big_endian⦄ (read_at_bytes two_boxes) 16 24
    ≡ ok (header_of ⦃be = big_endian⦄ ftyp 16 8 8)
read_header-compact_example =
    read_header-compact ⦃be = big_endian⦄ (read_at_bytes two_boxes) two_boxes ftyp 16 24 8
      (read_at_bytes-Reads two_boxes) refl (omega arith) refl (omega arith) (omega arith)
      (omega arith)

abbrev large_box : List ℕ
large_box = 0 ∷ 0 ∷ 0 ∷ 1 ∷ mdat ++ (replicate 7 0 ++ (32 ∷ replicate 16 0))

-- handles_largesize_header
read_header-large_example :
    read_header ⦃be = big_endian⦄ (read_at_bytes large_box) 0 32
    ≡ ok (header_of ⦃be = big_endian⦄ mdat 0 16 32)
read_header-large_example =
    read_header-large ⦃be = big_endian⦄ (read_at_bytes large_box) large_box mdat 0 32 32
      (read_at_bytes-Reads large_box) refl (omega arith) refl refl (omega arith) (omega arith)
      (omega arith)
