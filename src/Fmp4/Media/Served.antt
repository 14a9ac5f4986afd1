-- ===== src/Fmp4/Media/Served.antt =====
-- What the builder measures of a segment, and what a client reads in it.
mod Tests
use cmafly.Prelude.{
  ℕ, ◌+◌, ◌<◌, ◌≡◌, refl, ap, sym, ◌∙◌, arith, List, [], length, slice, u64_mod, Bool,
}
use cmafly.Error.{ok}
use cmafly.ByteOrder.{ByteOrder, read_u32}
use cmafly.Demux.Source.{ReadAt}
use cmafly.Demux.Source.Exact.{Reads}
use cmafly.Sink.{Sink, Holds}
use cmafly.Sink.Cursor.{Cursor, cursor, new_cursor, new_cursor-Holds, received}
use cmafly.Fmp4.Media.{write_media_segment}
use cmafly.Fmp4.Media.Bytes.{total_size}
use cmafly.Fmp4.Media.Written.{Servable, segment_bytes, video_of, audio_of, write_media_segment_lem}
use cmafly.Fmp4.Media.Written.Sizes.{payload}
use cmafly.Fmp4.Media.Written.Moof.{first_video_traf}
use cmafly.Fmp4.Media.Samples.{any_cts_offset}
use cmafly.Fmp4.Media.Offsets.{video_data_offset_lem, audio_data_offset_lem}
use cmafly.Index.Builder.Counting.{
  CountingSink, counting, new_counting, new_counting-Holds, counted,
}
use cmafly.Index.Format.{SegmentEntry}
use cmafly.Index.View.Types.{IndexView}

-- For a segment whose samples are in the source and fit 32-bit sizes and offsets, the counting sink
-- of the builder measures the number of bytes that `write_media_segment` writes to a buffer.
pub measured-eq :
    ⦃be : ByteOrder⦄ (src : List ℕ) (reader : ReadAt) (index : IndexView) (idx : ℕ)
    (segment : SegmentEntry)
    → Reads src reader
    → Servable index idx segment src
    → length (segment_bytes index idx segment src) < u64_mod
    → (s : CountingSink) × (c : Cursor) × (write_media_segment index idx reader new_counting
        ≡ ok (tt, s))
      × (write_media_segment index idx reader new_cursor ≡ ok (tt, c))
      × (s.len ≡ length c.bytes)
measured-eq src reader index idx segment reads fits small =
    let bytes = segment_bytes index idx segment src in
    let (s, hs, es) =
      write_media_segment_lem ⦃sink = counting⦄ src reader index idx segment new_counting [] reads
        fits new_counting-Holds (omega (arith, small)) in
    let (c, hc, ec) =
      write_media_segment_lem ⦃sink = cursor⦄ src reader index idx segment new_cursor [] reads fits
        new_cursor-Holds (omega (arith, small)) in
    (
      s,
      c,
      es,
      ec,
      counted s bytes (length bytes) hs ∙ ap length (sym (received c bytes (length bytes) hc)),
    )

abbrev pub traf_size : ⦃be : ByteOrder⦄ → IndexView → ℕ → SegmentEntry → ℕ
traf_size index idx segment = length (
    first_video_traf idx segment (video_of index segment) (audio_of index segment)
      (any_cts_offset index.video_samples))

module _ ⦃be : ByteOrder⦄ (src : List ℕ) (index : IndexView) (idx : ℕ) (segment : SegmentEntry)
    (fits : Servable index idx segment src) where
  video_offset :
      let bytes = segment_bytes index idx segment src in
      slice (24 + read_u32 (slice 108 4 bytes)) (total_size (video_of index segment)) bytes
      ≡ payload src (video_of index segment)
  unfolding segment_bytes
  video_offset =
      video_data_offset_lem src idx segment (video_of index segment) (audio_of index segment)
        (any_cts_offset index.video_samples) fits.fits

  audio_offset :
      let bytes = segment_bytes index idx segment src in
      slice
        (24 + read_u32 (slice (108 + traf_size index idx segment) 4 bytes))
        (total_size (audio_of index segment))
        bytes
      ≡ payload src (audio_of index segment)
  unfolding segment_bytes
  audio_offset =
      audio_data_offset_lem src idx segment (video_of index segment) (audio_of index segment)
        (any_cts_offset index.video_samples) fits.fits

-- For a segment whose samples are in the source and fit 32-bit sizes and offsets, written from the
-- start of any output: the data offset in the first `trun` (byte 84 of the `moof`), counted from the
-- `moof` (byte 24), is where the bytes of the video samples stand, one sample behind the other, and
-- that in the second `trun` (as far behind the first as the video `traf` is long) is where those of the
-- audio samples stand.
pub data_offsets_lem :
    {W : Type 0} ⦃sink : Sink W⦄ ⦃be : ByteOrder⦄ (src : List ℕ) (reader : ReadAt)
    (index : IndexView) (idx : ℕ) (segment : SegmentEntry) (w : W)
    → Reads src reader
    → Servable index idx segment src
    → Holds w [] 0
    → length (segment_bytes index idx segment src) < u64_mod
    → (w' : W) × (bytes : List ℕ) × (write_media_segment index idx reader w ≡ ok (tt, w'))
      × Holds w' bytes (length bytes)
      × (slice (24 + read_u32 (slice 108 4 bytes)) (total_size (video_of index segment)) bytes
          ≡ payload src (video_of index segment))
      × (slice
            (24 + read_u32 (slice (108 + traf_size index idx segment) 4 bytes))
            (total_size (audio_of index segment))
            bytes
          ≡ payload src (audio_of index segment))
data_offsets_lem src reader index idx segment w reads fits h small =
    let (w', h', e) =
      write_media_segment_lem src reader index idx segment w [] reads fits h
        (omega (arith, small)) in
    (
      w',
      segment_bytes index idx segment src,
      e,
      h',
      video_offset src index idx segment fits,
      audio_offset src index idx segment fits,
    )
