-- ===== src/Demux/SampleTable/Rows.antt =====
-- The rows that `walk_rows` returns, column by column.
use cmafly.Prelude.{ℕ, zero, suc, ◌+◌, ◌≤◌, ◌<◌, ◌≡◌, refl, sym, ap, ◌∙◌, arith, Bool, pos}
use cmafly.Prelude.{List, [], ◌∷◌, ◌++◌, map, append_assoc, append-nil, length, get_or, drop}
use cmafly.Prelude.{u64_mod, drop-get_or, inl, inr, map-append, drop_all}
use cmafly.Error.{ok, ok_or_err}
use cmafly.Demux.Sample.{RawSampleEntry}
use cmafly.Demux.SampleTable.{Columns, row_at, walk_chunk, walk_chunks, walk_rows}

-- The rows of `spc` samples from sample `i` on that lie one behind the other from `off` on.
abbrev pub chunk_rows : Columns → ℕ → ℕ → ℕ → List RawSampleEntry
chunk_rows cols zero off i = []
chunk_rows cols (suc spc) off i =
    row_at cols i off ∷ chunk_rows cols spc (off + get_or cols.sizes i 0) (i + 1)

-- The rows of all chunks: chunk `c` starts at its own offset.
abbrev pub layout : Columns → List ℕ → ℕ → List ℕ → ℕ → List RawSampleEntry
layout cols chunk_offs c [] i = []
layout cols chunk_offs c (spc ∷ rest) i =
    chunk_rows cols spc (get_or chunk_offs c 0) i ++ layout cols chunk_offs (c + 1) rest (i + spc)

abbrev pub total : List ℕ → ℕ
total [] = 0
total (n ∷ ns) = n + total ns

-- The last byte of the samples of a chunk fits 64 bits.
abbrev pub ChunkFits : Columns → ℕ → ℕ → ℕ → Type 0
ChunkFits cols zero off i = Unit
ChunkFits cols (suc spc) off i =
    (off + get_or cols.sizes i 0 < u64_mod)
    × ChunkFits cols spc (off + get_or cols.sizes i 0) (i + 1)

module _ (cols : Columns) where
  walk_chunk_lem :
      (spc off : ℕ) (samples : List RawSampleEntry) (i : ℕ) (out : List RawSampleEntry) (j : ℕ)
      → walk_chunk cols spc off samples i ≡ ok (out, j)
      → (out ≡ samples ++ chunk_rows cols spc off i) × (j ≡ i + spc)
  unfolding walk_chunk
  walk_chunk_lem zero off samples i out j e = (ground (arith, append-nil samples), ground arith)
  walk_chunk_lem (suc spc) off samples i out j e =
      let next = off + get_or cols.sizes i 0 in
      let more = samples ++ (row_at cols i off ∷ []) in
      ground (
        arith,
        walk_chunk_lem spc next more (i + 1) out j,
        append_assoc samples (row_at cols i off ∷ []) (chunk_rows cols spc next (i + 1)),
      )

  walk_chunks_lem :
      (chunk_offs : List ℕ) (c : ℕ) (spcs : List ℕ) (samples : List RawSampleEntry) (i : ℕ)
      (out : List RawSampleEntry) (j : ℕ)
      → walk_chunks cols chunk_offs c spcs samples i ≡ ok (out, j)
      → (out ≡ samples ++ layout cols chunk_offs c spcs i) × (j ≡ i + total spcs)
  unfolding walk_chunks
  walk_chunks_lem chunk_offs c [] samples i out j e =
      (ground (arith, append-nil samples), ground arith)
  walk_chunks_lem chunk_offs c (spc ∷ rest) samples i out j e =
      let off = get_or chunk_offs c 0 in
      elim (ok_or_err (walk_chunk cols spc off samples i)) [
        | inl ((samples', i'), run) ↦ ground (
          arith,
          run,
          walk_chunk_lem spc off samples i samples' i',
          walk_chunks_lem chunk_offs (c + 1) rest samples' i' out j,
          append_assoc samples (chunk_rows cols spc off i)
              (layout cols chunk_offs (c + 1) rest (i + spc)),
        )
        | inr (why, refused) ↦ ground (arith, refused)
      ]

  pub walk_rows_lem :
      (chunk_offs spcs : List ℕ) (out : List RawSampleEntry)
      → walk_rows cols chunk_offs spcs ≡ ok out
      → (out ≡ layout cols chunk_offs 0 spcs 0) × (total spcs ≡ cols.n)
  unfolding walk_rows
  walk_rows_lem chunk_offs spcs out e = elim (ok_or_err (walk_chunks cols chunk_offs 0 spcs [] 0)) [
    | inl ((samples, j), run) ↦
        ground (arith, run, walk_chunks_lem chunk_offs 0 spcs [] 0 samples j)
    | inr (why, refused) ↦ ground (arith, refused)
  ]

  -- A field of the rows is its column.
  module _ {T : Type 0} (f : RawSampleEntry → T) (col : List T) (d : T)
      (reads : (i off : ℕ) → f (row_at cols i off) ≡ get_or col i d) where
    chunk_column :
        (spc off i : ℕ)
        → i + spc ≤ length col
        → map f (chunk_rows cols spc off i) ++ drop (i + spc) col ≡ drop i col
    chunk_column zero off i h = ap (λ k. drop k col) (omega arith)
    chunk_column (suc spc) off i h = ground (
      arith,
      reads i off,
      drop-get_or i col d,
      chunk_column spc (off + get_or cols.sizes i 0) (i + 1),
    )

    layout_column :
        (chunk_offs : List ℕ) (c : ℕ) (spcs : List ℕ) (i : ℕ)
        → i + total spcs ≡ length col
        → map f (layout cols chunk_offs c spcs i) ≡ drop i col
    layout_column chunk_offs c [] i h = sym (ap (λ k. drop k col) (omega arith) ∙ drop_all col)
    layout_column chunk_offs c (spc ∷ rest) i h =
        let off = get_or chunk_offs c 0 in
        ground (
          arith,
          map-append f (chunk_rows cols spc off i) (layout cols chunk_offs (c + 1) rest (i + spc)),
          chunk_column spc off i,
          layout_column chunk_offs (c + 1) rest (i + spc),
        )

-- The rows that the walk returns lie one behind the other in their chunks, each chunk from its
-- own offset on, and every other field of the rows is the column it is read from, sample by
-- sample, where each column has an element for each of the `n` samples.
pub walk_rows-columns :
    (cols : Columns) (chunk_offs spcs : List ℕ) (out : List RawSampleEntry)
    → length cols.sizes ≡ cols.n
    → length cols.dts_deltas ≡ cols.n
    → length cols.cts_offsets ≡ cols.n
    → length cols.sync ≡ cols.n
    → walk_rows cols chunk_offs spcs ≡ ok out
    → (out ≡ layout cols chunk_offs 0 spcs 0)
      × (map RawSampleEntry.size out ≡ cols.sizes)
      × (map RawSampleEntry.dts_delta out ≡ cols.dts_deltas)
      × (map RawSampleEntry.cts_offset out ≡ cols.cts_offsets)
      × (map RawSampleEntry.is_sync out ≡ cols.sync)
walk_rows-columns cols chunk_offs spcs out s d c y e =
    let (rows, count) = walk_rows_lem cols chunk_offs spcs out e in
    (
      rows,
      ap (map RawSampleEntry.size) rows
          ∙ layout_column cols RawSampleEntry.size cols.sizes 0 (λ i off. refl) chunk_offs 0 spcs 0
              (omega (arith, count, s)),
      ap (map RawSampleEntry.dts_delta) rows
          ∙ layout_column cols RawSampleEntry.dts_delta cols.dts_deltas 0 (λ i off. refl) chunk_offs
              0 spcs 0 (omega (arith, count, d)),
      ap (map RawSampleEntry.cts_offset) rows
          ∙ layout_column cols RawSampleEntry.cts_offset cols.cts_offsets (pos 0) (λ i off. refl)
              chunk_offs 0 spcs 0 (omega (arith, count, c)),
      ap (map RawSampleEntry.is_sync) rows
          ∙ layout_column cols RawSampleEntry.is_sync cols.sync Bool.false (λ i off. refl)
              chunk_offs 0 spcs 0 (omega (arith, count, y)),
    )

module _ (cols : Columns) where
  walk_chunk_complete :
      (spc off : ℕ) (samples : List RawSampleEntry) (i : ℕ)
      → i + spc ≤ cols.n
      → ChunkFits cols spc off i
      → walk_chunk cols spc off samples i ≡ ok (samples ++ chunk_rows cols spc off i, i + spc)
  unfolding walk_chunk
  walk_chunk_complete zero off samples i h fits = ground (arith, append-nil samples)
  walk_chunk_complete (suc spc) off samples i h fits =
      let next = off + get_or cols.sizes i 0 in
      let more = samples ++ (row_at cols i off ∷ []) in
      ground (
        arith,
        fits.0,
        walk_chunk_complete spc next more (i + 1) (omega arith) (fits.1),
        append_assoc samples (row_at cols i off ∷ []) (chunk_rows cols spc next (i + 1)),
      )

  -- The samples of every chunk end inside 64 bits.
  abbrev pub ChunksFit : List ℕ → ℕ → List ℕ → ℕ → Type 0
  ChunksFit chunk_offs c [] i = Unit
  ChunksFit chunk_offs c (spc ∷ rest) i =
      ChunkFits cols spc (get_or chunk_offs c 0) i × ChunksFit chunk_offs (c + 1) rest (i + spc)

  walk_chunks_complete :
      (chunk_offs : List ℕ) (c : ℕ) (spcs : List ℕ) (samples : List RawSampleEntry) (i : ℕ)
      → i + total spcs ≤ cols.n
      → ChunksFit chunk_offs c spcs i
      → walk_chunks cols chunk_offs c spcs samples i
        ≡ ok (samples ++ layout cols chunk_offs c spcs i, i + total spcs)
  unfolding walk_chunks
  walk_chunks_complete chunk_offs c [] samples i h fits = ground (arith, append-nil samples)
  walk_chunks_complete chunk_offs c (spc ∷ rest) samples i h fits =
      let off = get_or chunk_offs c 0 in
      let rows = chunk_rows cols spc off i in
      ground (
        arith,
        walk_chunk_complete spc off samples i (omega arith) (fits.0),
        walk_chunks_complete chunk_offs (c + 1) rest (samples ++ rows) (i + spc) (omega arith)
            (fits.1),
        append_assoc samples rows (layout cols chunk_offs (c + 1) rest (i + spc)),
      )

  -- Where the chunks hold `n` samples in all and no chunk ends behind 64 bits, the walk returns
  -- the rows.
  pub walk_rows_complete :
      (chunk_offs spcs : List ℕ)
      → total spcs ≡ cols.n
      → ChunksFit chunk_offs 0 spcs 0
      → walk_rows cols chunk_offs spcs ≡ ok (layout cols chunk_offs 0 spcs 0)
  unfolding walk_rows
  walk_rows_complete chunk_offs spcs count fits =
      ground (arith, walk_chunks_complete chunk_offs 0 spcs [] 0 (omega arith) fits)
