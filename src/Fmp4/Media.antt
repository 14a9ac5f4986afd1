-- ===== src/Fmp4/Media.antt =====
-- crates/packager/src/fmp4/media.rs: a media segment, `styp`, `moof` and `mdat`.
pub mod Samples
pub mod Copy
pub mod Fragment
pub mod Bytes
pub mod Written
pub mod Offsets
pub mod Served
pub mod Example
use cmafly.Prelude.{
  ℕ, ◌+◌, ◌%◌, ◌==◌, Bool, u32_mod, ◌||◌, true, false, some, none, List, length, get_elem?, codes,
}
use cmafly.Error.{
  ok_or, fail_if, PackagerError, segment_index_out_of_range, sample_table_inconsistent,
}
use cmafly.ByteOrder.{ByteOrder}
use cmafly.Sink.{Sink}
use cmafly.Demux.Source.{ReadAt}
use cmafly.Fmp4.Writer.{
  Writer, pure, lift, ◌>>=◌, ◌>>◌, each, write_u32, stream_position, seek_start,
}
use cmafly.Fmp4.Boxes.{in_box}
use cmafly.Fmp4.Media.Samples.{
  slice_segment_samples, sum_sizes, any_cts_offset, mdat_size, compute_data_offset,
}
use cmafly.Fmp4.Media.Copy.{stream_sample}
use cmafly.Fmp4.Media.Fragment.{
  video_track_id, audio_track_id, write_styp, write_mfhd, write_traf, write_video_trun,
  write_audio_trun,
}
use cmafly.Index.Format.{SampleEntry, SegmentEntry}
use cmafly.Index.View.Types.{IndexView}

module _ {W : Type 0} ⦃sink : Sink W⦄ ⦃be : ByteOrder⦄ where
  -- The `moof`, with the positions of its two data offsets.
  unfoldable pub write_moof :
      ℕ → SegmentEntry → List SampleEntry → List SampleEntry → Bool → Writer W (ℕ × ℕ)
  write_moof segment_idx segment video_samples audio_samples has_ctts =
      in_box (codes "moof") none do
        write_mfhd segment_idx
        video_pos ←
            write_traf video_track_id segment.video_base_dts
              (write_video_trun video_samples has_ctts)
        audio_pos ←
            write_traf audio_track_id segment.audio_base_dts (write_audio_trun audio_samples)
        pure (video_pos, audio_pos)

  unfoldable pub write_mdat : ReadAt → ℕ → List SampleEntry → List SampleEntry → Writer W (Unit {0})
  write_mdat source mdat_total_size video_samples audio_samples =
      in_box (codes "mdat") (some mdat_total_size)
        do each (stream_sample source) video_samples; each (stream_sample source) audio_samples

  -- The end of the segment: the data offsets are written in their places.
  unfoldable pub write_data_offsets : ℕ → ℕ → ℕ → ℕ → Writer W (Unit {0})
  write_data_offsets video_pos video_data_offset audio_pos audio_data_offset = do
    after ← stream_position
    seek_start video_pos
    write_u32 video_data_offset
    seek_start audio_pos
    write_u32 audio_data_offset
    seek_start after

  -- `write_media_segment` from the sizes on.
  unfoldable pub write_segment :
      ReadAt → ℕ → SegmentEntry → List SampleEntry → List SampleEntry → Bool → Writer W (Unit {0})
  write_segment source segment_idx segment video_samples audio_samples has_ctts = do
    video_payload_bytes ← lift (sum_sizes video_samples)
    audio_payload_bytes ← lift (sum_sizes audio_samples)
    write_styp
    moof_start ← stream_position
    (video_pos, audio_pos) ← write_moof segment_idx segment video_samples audio_samples has_ctts
    mdat_header_start ← stream_position
    mdat_total_size ← lift (mdat_size video_payload_bytes audio_payload_bytes)
    write_mdat source mdat_total_size video_samples audio_samples
    video_data_offset ← lift (compute_data_offset (mdat_header_start + 8) moof_start 0)
    audio_data_offset ←
        lift (compute_data_offset (mdat_header_start + 8) moof_start video_payload_bytes)
    write_data_offsets video_pos video_data_offset audio_pos audio_data_offset

  unfoldable pub write_media_segment : IndexView → ℕ → ReadAt → Writer W (Unit {0})
  write_media_segment index segment_idx source = do
    segment ← lift (
        ok_or (get_elem? index.segments segment_idx)
          (segment_index_out_of_range segment_idx (length index.segments % u32_mod)))
    video_samples ← lift (slice_segment_samples index.video_samples segment true)
    audio_samples ← lift (slice_segment_samples index.audio_samples segment false)
    lift (
        fail_if (length video_samples == 0 || length audio_samples == 0)
          (sample_table_inconsistent "media segment with zero video or audio samples"))
    write_segment source segment_idx segment video_samples audio_samples
        (any_cts_offset index.video_samples)
