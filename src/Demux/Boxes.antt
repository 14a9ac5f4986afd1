-- ===== src/Demux/Boxes.antt =====
-- crates/packager/src/demux/reader.rs: the iterator over the boxes of a byte range.
pub mod Bounds
pub mod Written
pub mod Each
mod Tests
use Prim.Native.String.{String}
use cmafly.Prelude.{ℕ, zero, suc, ◌+◌, ◌-◌, ◌==◌, ltb, leb, if◌then◌else◌, Option, none, some}
use cmafly.Prelude.{List, [], ◌∷◌, take, drop, bytes_eq}
use cmafly.Error.{Result, ok, err, ◌>>=◌, ◌>>◌, fail_if, map_err, PackagerError, io, malformed_atom}
use cmafly.Error.{out_of_fuel}
use cmafly.ByteOrder.{ByteOrder, read_u32, read_u64}
use cmafly.Demux.Source.{ReadAt, read_exact}

pub record BoxHeader : Type 0 where
  pub box_type : List ℕ
  pub start : ℕ
  pub header_size : ℕ
  pub declared_size : ℕ
  pub payload_offset : ℕ

abbrev pub payload_len : BoxHeader → ℕ
payload_len h = h.declared_size - h.header_size

abbrev pub box_end : BoxHeader → ℕ
box_end h = h.start + h.declared_size

abbrev pub uuid : List ℕ
uuid = b'u' ∷ b'u' ∷ b'i' ∷ b'd' ∷ []

abbrev malformed_header : String → PackagerError
malformed_header reason = malformed_atom "<box-header>" reason

module _ ⦃be : ByteOrder⦄ (reader : ReadAt) where
  -- `(declared_size, header_size)` of a box with this 32-bit size field.
  unfoldable pub box_size : ℕ → ℕ → ℕ → Result PackagerError (ℕ × ℕ)
  box_size cursor remaining size32 =
      let largesize = (do
        fail_if (ltb remaining 16)
            (malformed_header "largesize indicated but fewer than 16 bytes remain")
        large ← map_err io (read_exact reader (cursor + 8) 8)
        ok (read_u64 large, 16)) in
      if size32 == 1 then largesize else if size32 == 0 then ok (remaining, 8) else ok (size32, 8)

  -- The loop body of `next_header` up to the header, at a cursor before the end.
  unfoldable pub read_header : ℕ → ℕ → Result PackagerError BoxHeader
  read_header cursor end = do
    let remaining = end - cursor
    fail_if (ltb remaining 8) (malformed_header "fewer than 8 bytes remain for size and type")
    head ← map_err io (read_exact reader cursor 8)
    (declared_size, header_size) ← box_size cursor remaining (read_u32 (take 4 head))
    fail_if (ltb declared_size header_size)
        (malformed_header "declared size is smaller than its own header")
    fail_if (ltb remaining declared_size)
        (malformed_header "declared size exceeds enclosing container")
    ok (record {
      box_type = take 4 (drop 4 head);
      start = cursor;
      header_size = header_size;
      declared_size = declared_size;
      payload_offset = cursor + header_size;
    })

  -- The result and the cursor behind it.
  unfoldable pub next_header_loop : ℕ → ℕ → ℕ → Result PackagerError (Option BoxHeader) × ℕ
  next_header_loop zero cursor end =
      if leb end cursor then (ok none, cursor) else (err (io out_of_fuel), cursor)
  next_header_loop (suc fuel) cursor end =
      let round : Result PackagerError (Option BoxHeader) × ℕ = elim (read_header cursor end) [
        | err e ↦ (err e, cursor)
        | ok header ↦
            let rest = next_header_loop fuel (box_end header) end in
            if bytes_eq header.box_type uuid then rest else (ok (some header), box_end header)
      ] in
      if leb end cursor then (ok none, cursor) else round

  -- A box takes a byte at least, so as many rounds as the range has bytes are enough.
  unfoldable pub next_header : ℕ → ℕ → Result PackagerError (Option BoxHeader) × ℕ
  unfolding next_header_loop
  next_header cursor end = next_header_loop (end - cursor) cursor end
