-- ===== src/Index/RoundTrip/Header.antt =====
-- The fixed header and the section directory, written over zeros and read back.
use cmafly.Prelude.{ℕ, suc, ◌+◌, ◌*◌, ◌<◌, ◌≡◌, refl, ap, sym, ◌∙◌, arith}
use cmafly.Prelude.{
  List, [], ◌∷◌, ◌++◌, length, replicate, slice, All, u32_mod, u64_mod, append_assoc,
}
use cmafly.Prelude.{
  length-append, pieces_then, slice_then, overwrite_then, overwrite, replicate-add,
}
use cmafly.Error.{ok}
use cmafly.ByteOrder.{ByteOrder, read_u32, read_u64, write_u32, write_u64, be_sizes}
use cmafly.Index.Format.{magic}
use cmafly.Index.View.Directory.{read_directory}
use cmafly.Index.Builder.Serialise.{write_header, write_directory}

-- The kind and the offset of a section fit their types.
abbrev pub EntryFits : ℕ × ℕ → Type 0
EntryFits (kind, offset) = (kind < u32_mod) × (offset < u64_mod)

module _ ⦃be : ByteOrder⦄ where
  abbrev pub header_pieces : ℕ → ℕ → List ℕ → ℕ → List (List ℕ)
  header_pieces max_segment_size source_len blake3 n =
      magic
      ∷ write_u32 max_segment_size
      ∷ write_u64 source_len
      ∷ blake3
      ∷ write_u32 n
      ∷ write_u32 0
      ∷ []

  abbrev pub directory_bytes : List (ℕ × ℕ) → List ℕ
  directory_bytes [] = []
  directory_bytes ((kind, offset) ∷ rest) =
      write_u32 kind ++ (write_u32 0 ++ (write_u64 offset ++ directory_bytes rest))

  abbrev z : ℕ → List ℕ
  z n = replicate n 0

  pub write_header-eq :
      (m s : ℕ) (blake3 : List ℕ) (n : ℕ) (rest : List ℕ)
      → length blake3 ≡ 32
      → write_header m s blake3 n (replicate 56 0 ++ rest)
        ≡ pieces_then (header_pieces m s blake3 n) rest
  unfolding write_header
  write_header-eq m s h n rest len =
      let m' = write_u32 m in
      let s' = write_u64 s in
      let n' = write_u32 n in
      let e1 =
        overwrite_then [] (z 4) magic (pieces_then (z 4 ∷ z 8 ∷ z 32 ∷ z 4 ∷ z 4 ∷ []) rest) 0 refl
          refl in
      let e2 =
        overwrite_then (magic ∷ []) (z 4) m' (pieces_then (z 8 ∷ z 32 ∷ z 4 ∷ z 4 ∷ []) rest) 4 refl
          (omega be_sizes) in
      let e3 =
        overwrite_then (magic ∷ m' ∷ []) (z 8) s' (pieces_then (z 32 ∷ z 4 ∷ z 4 ∷ []) rest) 8
          (omega be_sizes) (omega be_sizes) in
      let e4 =
        overwrite_then (magic ∷ m' ∷ s' ∷ []) (z 32) h (pieces_then (z 4 ∷ z 4 ∷ []) rest) 16
          (omega be_sizes) (sym len) in
      let e5 =
        overwrite_then (magic ∷ m' ∷ s' ∷ h ∷ []) (z 4) n' (pieces_then (z 4 ∷ []) rest) 48
          (omega (be_sizes, len)) (omega be_sizes) in
      let e6 =
        overwrite_then (magic ∷ m' ∷ s' ∷ h ∷ n' ∷ []) (z 4) (write_u32 0) rest 52
          (omega (be_sizes, len)) (omega be_sizes) in
      ap
        (λ b.
          overwrite 52 (write_u32 0)
            (overwrite 48 n' (overwrite 16 h (overwrite 8 s' (overwrite 4 m' b)))))
        e1
      ∙ ap (λ b. overwrite 52 (write_u32 0) (overwrite 48 n' (overwrite 16 h (overwrite 8 s' b))))
          e2
      ∙ ap (λ b. overwrite 52 (write_u32 0) (overwrite 48 n' (overwrite 16 h b))) e3
      ∙ ap (λ b. overwrite 52 (write_u32 0) (overwrite 48 n' b)) e4
      ∙ ap (overwrite 52 (write_u32 0)) e5
      ∙ e6

  -- An entry moves to the front.
  regroup : (f k p o w : List ℕ) → f ++ (k ++ (p ++ (o ++ w))) ≡ (f ++ (k ++ (p ++ o))) ++ w
  regroup f k p o w = simp append_assoc

  entry_inside :
      (f k p o d b : List ℕ)
      → (f ++ (k ++ (p ++ o))) ++ (d ++ b) ≡ f ++ ((k ++ (p ++ (o ++ d))) ++ b)
  entry_inside f k p o d b = simp append_assoc

  module _ (i kind offset : ℕ) (front : List ℕ) (at : length front ≡ 56 + i * 16) where
    next_front : List ℕ
    next_front = front ++ (write_u32 kind ++ (write_u32 0 ++ write_u64 offset))

    length-next_front : length next_front ≡ 56 + (i + 1) * 16
    unfolding next_front
    length-next_front =
        length-append front _
        ∙ omega (
          be_sizes,
          at,
          length-append (write_u32 kind) (write_u32 0 ++ write_u64 offset),
          length-append (write_u32 0) (write_u64 offset),
        )

    write_entry :
        (w : List ℕ)
        → overwrite (56 + i * 16 + 8) (write_u64 offset) (
            overwrite
              (56 + i * 16 + 4)
              (write_u32 0)
              (overwrite (56 + i * 16) (write_u32 kind) (front ++ (z 16 ++ w))))
          ≡ next_front ++ w
    unfolding next_front
    write_entry w =
        let k = write_u32 kind in
        let p = write_u32 0 in
        let o = write_u64 offset in
        let pos = 56 + i * 16 in
        let e1 =
          overwrite_then (front ∷ []) (z 4) k (z 4 ++ (z 8 ++ w)) pos (omega (arith, at))
            (omega be_sizes) in
        let e2 =
          overwrite_then (front ∷ k ∷ []) (z 4) p (z 8 ++ w) (pos + 4) (omega (be_sizes, at))
            (omega be_sizes) in
        let e3 =
          overwrite_then (front ∷ k ∷ p ∷ []) (z 8) o w (pos + 8) (omega (be_sizes, at))
            (omega be_sizes) in
        ap (λ b. overwrite (pos + 8) o (overwrite (pos + 4) p b)) e1
        ∙ ap (overwrite (pos + 8) o) e2
        ∙ e3
        ∙ regroup front k p o w

  pub write_directory-eq :
      (i : ℕ) (directory : List (ℕ × ℕ)) (front body : List ℕ)
      → length front ≡ 56 + i * 16
      → write_directory i directory (front ++ (replicate (length directory * 16) 0 ++ body))
        ≡ front ++ (directory_bytes directory ++ body)
  unfolding write_directory next_front
  write_directory-eq i [] front body at = refl
  write_directory-eq i ((kind, offset) ∷ rest) front body at =
      let n = length rest in
      let w = replicate (n * 16) 0 ++ body in
      let more : suc n * 16 ≡ 16 + n * 16 = omega arith in
      let zeros : replicate (suc n * 16) 0 ++ body ≡ z 16 ++ w =
        ap (λ k. replicate k 0 ++ body) more ∙ ap (λ l. l ++ body) (replicate-add 16 (n * 16) 0) in
      ap (λ b. write_directory i ((kind, offset) ∷ rest) (front ++ b)) zeros
      ∙ ap (write_directory (i + 1) rest) (write_entry i kind offset front at w)
      ∙ write_directory-eq (i + 1) rest (next_front i kind offset front at) body
          (length-next_front i kind offset front at)
      ∙ entry_inside front (write_u32 kind) (write_u32 0) (write_u64 offset) (directory_bytes rest)
          body

  pub read_directory-eq :
      (i : ℕ) (directory : List (ℕ × ℕ)) (front body : List ℕ)
      → length front ≡ 56 + i * 16
      → All EntryFits directory
      → read_directory (front ++ (directory_bytes directory ++ body)) i (length directory)
        ≡ ok directory
  unfolding read_directory next_front
  read_directory-eq i [] front body at fits = refl
  read_directory-eq i ((kind, offset) ∷ rest) front body at ((fk, fo), fits) =
      let k = write_u32 kind in
      let p = write_u32 0 in
      let o = write_u64 offset in
      let pos = 56 + i * 16 in
      let w = directory_bytes rest ++ body in
      let ps = front ∷ k ∷ p ∷ o ∷ [] in
      let bytes = front ++ (directory_bytes ((kind, offset) ∷ rest) ++ body) in
      let same : pieces_then ps w ≡ bytes =
        regroup front k p o w ∙ entry_inside front k p o (directory_bytes rest) body in
      let ih =
        ap (λ b. read_directory b (i + 1) (length rest))
          (sym (entry_inside front k p o (directory_bytes rest) body))
        ∙ read_directory-eq (i + 1) rest (next_front i kind offset front at) body
            (length-next_front i kind offset front at) fits in
      ground (
        arith,
        ih,
        ap (λ b. read_u32 (slice (pos + 4) 4 b)) (sym same)
            ∙ ap read_u32 (slice_then ps w 2 (pos + 4) 4 (omega (be_sizes, at)) (omega be_sizes))
            ∙ be.read-write_u32 0 (omega arith),
        ap (λ b. read_u32 (slice pos 4 b)) (sym same)
            ∙ ap read_u32 (slice_then ps w 1 pos 4 (omega (be_sizes, at)) (omega be_sizes))
            ∙ be.read-write_u32 kind fk,
        ap (λ b. read_u64 (slice (pos + 8) 8 b)) (sym same)
            ∙ ap read_u64 (slice_then ps w 3 (pos + 8) 8 (omega (be_sizes, at)) (omega be_sizes))
            ∙ be.read-write_u64 offset fo,
      )
