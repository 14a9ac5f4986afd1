-- ===== src/Index/RoundTrip/Assembled.antt =====
-- The byte image of a list of sections, and the view's tests on it.
use cmafly.Prelude.{ℕ, ◌+◌, ◌*◌, ◌<◌, ◌≤◌, ◌≡◌, refl, ap, sym, ◌∙◌, arith, false}
use cmafly.Prelude.{
  List, [], ◌∷◌, ◌++◌, length, replicate, slice, All, u32_mod, u64_mod, append_assoc, bytes_eq_refl,
}
use cmafly.Prelude.{
  length-append, length-replicate, pieces_then-eq, slice_at, position, piece, concat, length-concat,
  replicate-add,
}
use cmafly.Error.{ok}
use cmafly.ByteOrder.{ByteOrder, write_u32, write_u64, be_sizes}
use cmafly.NativeEndian.{NativeEndian}
use cmafly.Index.Format.{magic}
use cmafly.Index.View.{open_index, open_sections}
use cmafly.Index.View.Directory.{first_offset, check_directory, has_duplicate, read_directory}
use cmafly.Index.Builder.Serialise.{assemble, write_header, write_directory}
use cmafly.Index.RoundTrip.Header.{
  header_pieces, directory_bytes, write_header-eq, write_directory-eq, read_directory-eq,
}
use cmafly.Index.RoundTrip.Layout.{
  laid, entries, lay_out-eq, Filled, entries-ascending, entries-aligned, last_offset-le,
  length-entries, entries-EntryFits,
}

first_entry :
    (off : ℕ) (sections : List (ℕ × List ℕ))
    → 0 < length sections
    → first_offset (entries off sections) ≡ off
first_entry off [] h = elim h [ ]
first_entry off (s ∷ rest) h = refl

module _ ⦃be : ByteOrder⦄ where
  length-directory_bytes :
      (directory : List (ℕ × ℕ)) → length (directory_bytes directory) ≡ length directory * 16
  length-directory_bytes [] = omega arith
  length-directory_bytes ((kind, offset) ∷ rest) =
      let inner = write_u64 offset ++ directory_bytes rest in
      omega (
        be_sizes,
        length-append (write_u32 kind) (write_u32 0 ++ inner),
        length-append (write_u32 0) inner,
        length-append (write_u64 offset) (directory_bytes rest),
        length-directory_bytes rest,
      )

  module _ (m s : ℕ) (blake3 : List ℕ) (sections : List (ℕ × List ℕ))
      (len : length blake3 ≡ 32) where
    unfoldable pub header : List ℕ
    header = concat (header_pieces m s blake3 (length sections))

    unfoldable pub header_end : ℕ
    header_end = 56 + length sections * 16

    pub length-header : length header ≡ 56
    unfolding header
    length-header =
        length-concat (header_pieces m s blake3 (length sections)) ∙ omega (be_sizes, len)

    -- The image: the header, the directory and the sections.
    pub assemble-eq :
        assemble m s blake3 sections
        ≡ header ++ (directory_bytes (entries header_end sections) ++ laid sections)
    unfolding assemble header header_end
    assemble-eq =
        let n = length sections in
        let zeros : List ℕ = replicate (56 + n * 16) 0 in
        let size : length zeros ≡ 56 + n * 16 = length-replicate (56 + n * 16) 0 in
        let lay = lay_out-eq sections zeros [] (omega (arith, size)) in
        let dir = entries (56 + n * 16) sections in
        let body = laid sections in
        let rest = replicate (n * 16) 0 ++ body in
        let split : zeros ++ body ≡ replicate 56 0 ++ rest =
          ap (λ l. l ++ body) (replicate-add 56 (n * 16) 0)
          ∙ append_assoc (replicate 56 0) (replicate (n * 16) 0) body in
        let written =
          ap (write_header m s blake3 n) split
          ∙ write_header-eq m s blake3 n rest len
          ∙ pieces_then-eq (header_pieces m s blake3 n) rest in
        let directory =
          ap (λ k. write_directory 0 dir (header ++ (replicate (k * 16) 0 ++ body)))
            (sym (length-entries (56 + n * 16) sections))
          ∙ write_directory-eq 0 dir header body (omega (arith, length-header)) in
        ap (λ p. write_directory 0 (p.1) (write_header m s blake3 n (p.0))) lay
        ∙ ap
            (λ k.
              write_directory 0 (entries k sections) (write_header m s blake3 n (zeros ++ body)))
            size
        ∙ ap (write_directory 0 dir) written
        ∙ directory

    -- The directory and the sections.
    unfoldable pub front : List ℕ
    unfolding header header_end
    front = header ++ directory_bytes (entries header_end sections)

    pub length-front : length front ≡ header_end
    unfolding front header_end
    length-front =
        length-append header (directory_bytes (entries header_end sections))
        ∙ omega (
          arith,
          length-header,
          length-directory_bytes (entries header_end sections),
          length-entries header_end sections,
        )

    unfoldable pub image : List ℕ
    unfolding front
    image = front ++ laid sections

    pub assemble-image : assemble m s blake3 sections ≡ image
    unfolding image front
    assemble-image =
        assemble-eq
        ∙ sym (append_assoc header (directory_bytes (entries header_end sections)) (laid sections))

    pub at_field :
        (i pos n : ℕ)
        → pos ≡ position (header_pieces m s blake3 (length sections)) i
        → n ≡ length (piece (header_pieces m s blake3 (length sections)) i)
        → slice pos n image ≡ piece (header_pieces m s blake3 (length sections)) i
    unfolding image front header
    at_field i pos n at size =
        ap (slice pos n)
          (append_assoc header (directory_bytes (entries header_end sections)) (laid sections))
        ∙ slice_at (header_pieces m s blake3 (length sections))
            (directory_bytes (entries header_end sections) ++ laid sections) i pos n at size

    pub length-image : length image ≡ header_end + length (laid sections)
    unfolding image
    length-image =
        length-append front (laid sections) ∙ ap (λ k. k + length (laid sections)) length-front

    module _ (kinds : All (λ s. s.0 < u32_mod) sections) (filled : Filled sections)
        (few : length sections ≤ 64) (some_section : 0 < length sections)
        (distinct : has_duplicate (entries header_end sections) ≡ false)
        (small : header_end + length (laid sections) < u64_mod) where
      directory_checked :
          check_directory header_end
            (header_end + length (laid sections))
            (entries header_end sections)
          ≡ ok tt
      unfolding check_directory header_end
      directory_checked = ground (
        arith,
        first_entry header_end sections some_section,
        entries-ascending header_end sections filled,
        last_offset-le header_end sections,
        entries-aligned header_end sections (omega arith),
        distinct,
      )

      directory_read :
          read_directory image 0 (length (entries header_end sections))
          ≡ ok (entries header_end sections)
      unfolding image front
      directory_read =
          ap (λ b. read_directory b 0 (length (entries header_end sections)))
            (append_assoc header (directory_bytes (entries header_end sections)) (laid sections))
          ∙ read_directory-eq 0 (entries header_end sections) header (laid sections)
              (omega (arith, length-header)) (entries-EntryFits header_end sections kinds small)

      -- The view comes to the sections of the image, with the directory that was written.
      pub open_index-image :
          ⦃ne : NativeEndian⦄ (addr : ℕ)
          → open_index addr image ≡ open_sections addr image (entries header_end sections)
      unfolding open_index header_end
      open_index-image addr =
          let n = length sections in
          let size : length image ≡ header_end + length (laid sections) = length-image in
          let reads =
            ap (λ k. read_directory image 0 k) (sym (length-entries header_end sections))
            ∙ directory_read in
          ground (
            arith,
            size,
            at_field 0 0 4 refl refl,
            bytes_eq_refl magic,
            at_field 4 48 4 (omega (be_sizes, len)) (omega be_sizes),
            be.read-write_u32 n (omega (arith, few)),
            at_field 5 52 4 (omega (be_sizes, len)) (omega be_sizes),
            be.read-write_u32 0 (omega arith),
            reads,
            ap (λ k. check_directory header_end k (entries header_end sections)) size
                ∙ directory_checked,
          )
