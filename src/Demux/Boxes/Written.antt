-- ===== src/Demux/Boxes/Written.antt =====
-- A box header in the source is read as it was written, in the 32-bit, the 64-bit and the open form.
use cmafly.Prelude.{ℕ, ◌+◌, ◌-◌, ◌≤◌, ◌<◌, ◌≡◌, refl, sym, ap, ◌∙◌, arith, le→ltb, u32_mod, u64_mod}
use cmafly.Prelude.{
  List, ◌++◌, take, drop, length, take-append_length, drop-append_length, take_all,
}
use cmafly.Error.{ok}
use cmafly.ByteOrder.{ByteOrder, read_u32, write_u32, write_u64}
use cmafly.Demux.Source.{ReadAt}
use cmafly.Demux.Source.Exact.{Reads, read_exact_inside}
use cmafly.Demux.Boxes.{BoxHeader, box_size, read_header}

module _ ⦃be : ByteOrder⦄ where
  -- The eight bytes of a size field and a type.
  abbrev pub written : ℕ → List ℕ → List ℕ
  written size32 fourcc = write_u32 size32 ++ fourcc

  take-written : (size32 : ℕ) (fourcc : List ℕ) → take 4 (written size32 fourcc) ≡ write_u32 size32
  take-written size32 fourcc =
      ap (λ k. take k (written size32 fourcc)) (sym (be.length-write_u32 size32))
      ∙ take-append_length (write_u32 size32) fourcc

  drop-written : (size32 : ℕ) (fourcc : List ℕ) → drop 4 (written size32 fourcc) ≡ fourcc
  drop-written size32 fourcc =
      ap (λ k. drop k (written size32 fourcc)) (sym (be.length-write_u32 size32))
      ∙ drop-append_length (write_u32 size32) fourcc

  abbrev pub header_of : List ℕ → ℕ → ℕ → ℕ → BoxHeader
  header_of fourcc start header_size declared_size = record {
    box_type = fourcc;
    start = start;
    header_size = header_size;
    declared_size = declared_size;
    payload_offset = start + header_size;
  }

  module _ (reader : ReadAt) (src fourcc : List ℕ) (cursor end size32 : ℕ)
      (reads : Reads src reader) (four : length fourcc ≡ 4) (inside : end ≤ length src)
      (small : size32 < u32_mod) (room : cursor + 8 ≤ end)
      (there : take 8 (drop cursor src) ≡ written size32 fourcc) where
    read_header-written :
        (d hs : ℕ)
        → box_size reader cursor (end - cursor) size32 ≡ ok (d, hs)
        → hs ≤ d
        → d ≤ end - cursor
        → read_header reader cursor end ≡ ok (header_of fourcc cursor hs d)
    unfolding read_header
    read_header-written d hs sized le fits =
        let read = read_exact_inside src reader cursor 8 reads (omega arith) ∙ ap ok there in
        let size = ap read_u32 (take-written size32 fourcc) ∙ be.read-write_u32 size32 small in
        let kind =
          ap (take 4) (drop-written size32 fourcc)
          ∙ ap (λ k. take k fourcc) (sym four)
          ∙ take_all fourcc in
        rw (
          le→ltb (end - cursor) 8 (omega arith),
          read,
          size,
          sized,
          le→ltb d hs le,
          le→ltb (end - cursor) d fits,
          kind,
        )

  -- A 32-bit size `d` of 8 or more and a type of four bytes in the source, at a cursor whose range
  -- has room for a box of `d` bytes, are read as such a box.
  pub read_header-compact :
      (reader : ReadAt) (src fourcc : List ℕ) (cursor end d : ℕ)
      → Reads src reader
      → length fourcc ≡ 4
      → end ≤ length src
      → take 8 (drop cursor src) ≡ written d fourcc
      → 8 ≤ d
      → cursor + d ≤ end
      → d < u32_mod
      → read_header reader cursor end ≡ ok (header_of fourcc cursor 8 d)
  unfolding box_size
  read_header-compact reader src fourcc cursor end d reads four inside there lo hi small =
      read_header-written reader src fourcc cursor end d reads four inside small (omega arith) there
        d 8 (ground arith) lo (omega arith)

  -- The size 1, a type of four bytes and a 64-bit size `d` of 16 or more in the source, at a cursor
  -- whose range has room for a box of `d` bytes, are read as such a box.
  pub read_header-large :
      (reader : ReadAt) (src fourcc : List ℕ) (cursor end d : ℕ)
      → Reads src reader
      → length fourcc ≡ 4
      → end ≤ length src
      → take 8 (drop cursor src) ≡ written 1 fourcc
      → take 8 (drop (cursor + 8) src) ≡ write_u64 d
      → 16 ≤ d
      → cursor + d ≤ end
      → d < u64_mod
      → read_header reader cursor end ≡ ok (header_of fourcc cursor 16 d)
  unfolding box_size
  read_header-large reader src fourcc cursor end d reads four inside there large lo hi small =
      let read = read_exact_inside src reader (cursor + 8) 8 reads (omega arith) ∙ ap ok large in
      let size = be.read-write_u64 d small in
      read_header-written reader src fourcc cursor end 1 reads four inside (omega arith)
        (omega arith) there d 16 (ground (arith, read, size)) lo (omega arith)

  -- The size 0 and a type of four bytes in the source are read as a box up to the end of the range.
  pub read_header-open :
      (reader : ReadAt) (src fourcc : List ℕ) (cursor end : ℕ)
      → Reads src reader
      → length fourcc ≡ 4
      → end ≤ length src
      → take 8 (drop cursor src) ≡ written 0 fourcc
      → cursor + 8 ≤ end
      → read_header reader cursor end ≡ ok (header_of fourcc cursor 8 (end - cursor))
  unfolding box_size
  read_header-open reader src fourcc cursor end reads four inside there room =
      read_header-written reader src fourcc cursor end 0 reads four inside (omega arith) room there
        (end - cursor) 8 refl (omega arith) (omega arith)
