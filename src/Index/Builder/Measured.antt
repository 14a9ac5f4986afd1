-- ===== src/Index/Builder/Measured.antt =====
-- What `build` measures: `max_segment_size`, and the padded playlist.
mod Tests
use cmafly.Prelude.{
  ℕ, zero, suc, ◌+◌, ◌-◌, ◌%◌, ◌≤◌, ◌<◌, ◌≡◌, ◌==◌, refl, ap, sym, ◌∙◌, subst, arith, ltb,
  if◌then◌else◌, inl, inr, Bool-cases, All, List, [], ◌++◌, append-nil, length, length-append,
  length-replicate, replicate, u32_mod, u64_mod, lt→ltb, ==→≡,
}
use cmafly.Error.{Result, ok, ◌>>=◌}
use cmafly.ByteOrder.{ByteOrder}
use cmafly.Demux.Source.{ReadAt}
use cmafly.Demux.Source.Exact.{Reads}
use cmafly.Fmp4.Media.{write_media_segment}
use cmafly.Fmp4.Media.Written.{Servable, segment_bytes, write_media_segment_lem}
use cmafly.Index.Format.{SegmentEntry}
use cmafly.Index.View.Types.{IndexView}
use cmafly.Index.Builder.Counting.{counting, new_counting, new_counting-Holds, counted}
use cmafly.Index.Builder.Build.{
  measured, measure_loop, measure_segments, pad_playlist, render_playlist,
}
use cmafly.Sink.Cursor.{cursor, new_cursor, new_cursor-Holds, received}
use cmafly.Playlist.{Format}
use cmafly.Playlist.Written.{Timed, playlist_text, write_media_playlist_lem}

module _ ⦃be : ByteOrder⦄ (src : List ℕ) (view : IndexView) (row : ℕ → SegmentEntry) where
  -- The number of bytes of segment `i`.
  abbrev pub size : ℕ → ℕ
  size i = length (segment_bytes view i (row i) src)

  -- `row` is the segment table, and every segment can be served with a size of 32 bits.
  abbrev pub AllServable : Type 0
  AllServable =
      (i : ℕ) → i < length view.segments → Servable view i (row i) src × (size i < u32_mod)

  -- The largest of `m` and the sizes from segment `from` on.
  pub record Largest (from m largest : ℕ) : Type 0 where
    pub at_least : m ≤ largest
    pub covers : (i : ℕ) → from ≤ i → i < length view.segments → size i ≤ largest
    pub least :
        (bound : ℕ)
        → m ≤ bound
        → ((i : ℕ) → from ≤ i → i < length view.segments → size i ≤ bound)
        → largest ≤ bound

  measured_lem :
      (reader : ReadAt) (i : ℕ)
      → Reads src reader
      → Servable view i (row i) src
      → size i < u32_mod
      → measured (write_media_segment view i reader new_counting) ≡ ok (size i)
  measured_lem reader i reads s small =
      let bytes = segment_bytes view i (row i) src in
      let (c, h, e) =
        write_media_segment_lem ⦃sink = counting⦄ src reader view i (row i) new_counting [] reads s
          new_counting-Holds (omega (arith, small)) in
      ap measured e ∙ ap ok (counted c bytes (length bytes) h)

  larger :
      (from m largest : ℕ)
      → from < length view.segments
      → Largest (from + 1) (if ltb m (size from) then size from else m) largest
      → Largest from m largest
  larger from m largest inside l = record {
    at_least = ground (arith, l.at_least);
    covers = λ i after before. elim (Bool-cases (i == from)) [
      | inl same ↦
          subst (λ k. size k ≤ largest) (sym (==→≡ i from same)) (ground (arith, l.at_least))
      | inr other ↦ l.covers i (ground (arith, other)) before
    ];
    least = λ bound h hs.
        let here : size from ≤ bound = hs from (omega arith) inside in
        l.least bound (ground (arith, h, here)) (λ i after before. hs i (omega arith) before);
  }

  measure_loop_lem :
      (reader : ReadAt) (count from m : ℕ)
      → from + count ≡ length view.segments
      → length view.segments < u32_mod
      → Reads src reader
      → AllServable
      → (largest : ℕ) × (measure_loop view reader from count m ≡ ok largest)
        × Largest from m largest
  unfolding measure_loop
  measure_loop_lem reader zero from m end rows reads all = (
    m,
    refl,
    record {
      at_least = omega arith;
      covers = λ i after before. absurd (omega (arith, end));
      least = λ bound h hs. h;
    },
  )
  measure_loop_lem reader (suc count) from m end rows reads all =
      let (servable, small) = all from (omega (arith, end)) in
      let next = if ltb m (size from) then size from else m in
      let (largest, e, l) =
        measure_loop_lem reader count (from + 1) next (omega (arith, end)) rows reads all in
      (
        largest,
        rw
            (
              lt→ltb from u32_mod (omega (arith, end)),
              measured_lem reader from reads servable small,
              lt→ltb (size from) u32_mod small,
            )
            e,
        larger from m largest (omega (arith, end)) l,
      )

  -- Where every row of the table is a segment that can be served and has fewer than 2^32 bytes, over any
  -- reader of the source, `build` measures the size of the largest segment.
  pub measure_segments_lem :
      (reader : ReadAt)
      → length view.segments < u32_mod
      → Reads src reader
      → AllServable
      → (largest : ℕ) × (measure_segments view reader ≡ ok largest) × Largest 0 0 largest
  unfolding measure_segments
  measure_segments_lem reader rows reads all =
      measure_loop_lem reader (length view.segments) 0 0 (omega arith) rows reads all

padded :
    (text : List ℕ)
    → (n : ℕ) × (n < 8)
      × (pad_playlist text ≡ text ++ replicate n b'\n')
      × ((length text + n) % 8 ≡ 0)
padded text = elim (Bool-cases (length text % 8 == 0)) [
  | inl full ↦ (0, omega arith, rw full (sym (append-nil text)), ground (arith, full))
  | inr more ↦ (8 - length text % 8, ground (arith, more), rw more, ground (arith, more))
]

-- Where the playlist can be written, `render_playlist` returns its text with fewer than eight line feeds
-- behind it, and a multiple of eight bytes in all, so that the builder adds no zeros behind them.
pub render_playlist_lem :
    (format : Format) (view : IndexView)
    → 0 < view.video_track.timescale
    → length view.video_samples < u64_mod
    → All (Timed view.video_samples) view.segments
    → length (playlist_text format view) < u64_mod
    → (n : ℕ) × (n < 8)
      × (render_playlist format view ≡ ok (playlist_text format view ++ replicate n b'\n'))
      × (length (playlist_text format view ++ replicate n b'\n') % 8 ≡ 0)
unfolding render_playlist
render_playlist_lem format view some small timed fits =
    let text = playlist_text format view in
    let (c, h, e) =
      write_media_playlist_lem ⦃sink = cursor⦄ format view new_cursor [] some small timed
        new_cursor-Holds (omega (arith, fits)) in
    let (n, few, made, full) = padded text in
    let bytes : c.bytes ≡ text = received c text (length text) h in
    (
      n,
      few,
      rw (e, bytes, made),
      omega (arith, full, length-append text (replicate n b'\n'), length-replicate {A = ℕ} n b'\n'),
    )
