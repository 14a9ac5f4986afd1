-- ===== src/Fmp4/Media/Bytes.antt =====
-- The bytes of a media segment, box by box, as ISO/IEC 14496-12 has them.
use cmafly.Prelude.{
  ℕ, ◌+◌, ◌-◌, ◌^◌, if◌then◌else◌, Bool, List, [], ◌∷◌, ◌++◌, length, min, codes, slice, flat_map,
  to_u32,
}
use cmafly.ByteOrder.{ByteOrder, write_u32, write_u64}
use cmafly.Fmp4.Boxes.Appends.{mp4_box, version_flags}
use cmafly.Fmp4.Media.Fragment.{
  video_trun_base_flags, audio_trun_flags, trun_flag_sample_cts_offset,
  video_first_sample_flags_sync, tfhd_flag_default_base_is_moof, video_track_id, audio_track_id,
}
use cmafly.Index.Format.{SampleEntry, SegmentEntry}

abbrev pub total_size : List SampleEntry → ℕ
total_size [] = 0
total_size (s ∷ samples) = s.size + total_size samples

-- The bytes of a sample in the source.
abbrev pub sample_bytes : List ℕ → SampleEntry → List ℕ
sample_bytes src s = slice s.offset s.size src

module _ ⦃be : ByteOrder⦄ where
  unfoldable pub styp : List ℕ
  styp = mp4_box (codes "styp") (codes "msdh" ++ (write_u32 0 ++ (codes "msdh" ++ codes "cmfc")))

  unfoldable pub mfhd : ℕ → List ℕ
  mfhd sequence_number = mp4_box (codes "mfhd") (version_flags 0 0 ++ write_u32 sequence_number)

  unfoldable pub tfhd : ℕ → List ℕ
  tfhd track_id =
      mp4_box (codes "tfhd") (version_flags 0 tfhd_flag_default_base_is_moof ++ write_u32 track_id)

  unfoldable pub tfdt : ℕ → List ℕ
  tfdt base_dts = mp4_box (codes "tfdt") (version_flags 1 0 ++ write_u64 base_dts)

  abbrev pub traf : ℕ → ℕ → List ℕ → List ℕ
  traf track_id base_dts trun = mp4_box (codes "traf") (tfhd track_id ++ (tfdt base_dts ++ trun))

  abbrev pub video_entry : Bool → SampleEntry → List ℕ
  video_entry has_ctts s =
      write_u32 s.dts_delta
      ++ (write_u32 s.size ++ (if has_ctts then write_u32 (to_u32 s.cts_offset) else []))

  abbrev pub audio_entry : SampleEntry → List ℕ
  audio_entry s = write_u32 s.dts_delta ++ write_u32 s.size

  unfoldable pub video_trun_head : List SampleEntry → Bool → List ℕ
  video_trun_head samples has_ctts =
      version_flags (if has_ctts then 1 else 0)
        (video_trun_base_flags + (if has_ctts then trun_flag_sample_cts_offset else 0))
      ++ write_u32 (length samples)

  unfoldable pub audio_trun_head : List SampleEntry → List ℕ
  audio_trun_head samples = version_flags 0 audio_trun_flags ++ write_u32 (length samples)

  -- `data_offset` is the four bytes at byte 16 of a `trun`.
  abbrev pub video_trun : List SampleEntry → Bool → List ℕ → List ℕ
  video_trun samples has_ctts data_offset = mp4_box (codes "trun") (
      video_trun_head samples has_ctts
      ++ (data_offset
          ++ (write_u32 video_first_sample_flags_sync ++ flat_map (video_entry has_ctts) samples)))

  abbrev pub audio_trun : List SampleEntry → List ℕ → List ℕ
  audio_trun samples data_offset =
      mp4_box (codes "trun")
        (audio_trun_head samples ++ (data_offset ++ flat_map audio_entry samples))

module _ ⦃be : ByteOrder⦄ (segment_idx : ℕ) (segment : SegmentEntry)
    (video audio : List SampleEntry) (has_ctts : Bool) where
  abbrev pub video_traf : List ℕ → List ℕ
  video_traf data_offset =
      traf video_track_id segment.video_base_dts (video_trun video has_ctts data_offset)

  abbrev pub audio_traf : List ℕ → List ℕ
  audio_traf data_offset = traf audio_track_id segment.audio_base_dts (audio_trun audio data_offset)

  abbrev pub moof : List ℕ → List ℕ → List ℕ
  moof video_data_offset audio_data_offset = mp4_box (codes "moof") (
      mfhd (min (segment_idx + 1) (2 ^ 32 - 1))
      ++ (video_traf video_data_offset ++ audio_traf audio_data_offset))

  -- The video samples start behind the header of the `mdat`, the audio samples behind them; both are
  -- counted from the start of the `moof`, whose size does not depend on its data offsets.
  abbrev pub media_segment : List ℕ → List ℕ
  media_segment src =
      let start = length (moof (write_u32 0) (write_u32 0)) + 8 in
      styp
      ++ (moof (write_u32 start) (write_u32 (start + total_size video))
          ++ mp4_box (codes "mdat")
              (flat_map (sample_bytes src) video ++ flat_map (sample_bytes src) audio))
