-- ===== src/Fmp4/Media/Fragment.antt =====
-- crates/packager/src/fmp4/media.rs: the boxes in front of the samples.
use cmafly.Prelude.{ℕ, ◌+◌, ◌-◌, ◌^◌, if◌then◌else◌, Bool, none, List, length, min, codes, try_u32}
use cmafly.Error.{ok_or, io, other}
use cmafly.ByteOrder.{ByteOrder}
use cmafly.Sink.{Sink}
use cmafly.Fmp4.Writer.{
  Writer, pure, lift, ◌>>=◌, ◌>>◌, each, write_all, write_u32, write_u64, write_i32,
  stream_position,
}
use cmafly.Fmp4.Boxes.{in_box, write_full_box_header}
use cmafly.Index.Format.{SampleEntry}

-- VIDEO_TRACK_ID and AUDIO_TRACK_ID
abbrev pub video_track_id : ℕ
video_track_id = 1

abbrev pub audio_track_id : ℕ
audio_track_id = 2

abbrev pub tfhd_flag_default_base_is_moof : ℕ
tfhd_flag_default_base_is_moof = 131072

abbrev pub trun_flag_data_offset : ℕ
trun_flag_data_offset = 1

abbrev pub trun_flag_first_sample_flags : ℕ
trun_flag_first_sample_flags = 4

abbrev pub trun_flag_sample_duration : ℕ
trun_flag_sample_duration = 256

abbrev pub trun_flag_sample_size : ℕ
trun_flag_sample_size = 512

abbrev pub trun_flag_sample_cts_offset : ℕ
trun_flag_sample_cts_offset = 2048

-- The flags have no bit in common, so `|` adds them.
abbrev pub video_trun_base_flags : ℕ
video_trun_base_flags =
    trun_flag_data_offset + trun_flag_first_sample_flags + trun_flag_sample_duration
    + trun_flag_sample_size

abbrev pub audio_trun_flags : ℕ
audio_trun_flags = trun_flag_data_offset + trun_flag_sample_duration + trun_flag_sample_size

abbrev pub video_first_sample_flags_sync : ℕ
video_first_sample_flags_sync = 33554432

module _ {W : Type 0} ⦃sink : Sink W⦄ ⦃be : ByteOrder⦄ where
  unfoldable pub write_styp : Writer W (Unit {0})
  write_styp =
      in_box (codes "styp") none
        do write_all (codes "msdh"); write_u32 0; write_all (codes "msdh"); write_all (codes "cmfc")

  unfoldable pub write_mfhd : ℕ → Writer W (Unit {0})
  write_mfhd segment_idx =
      in_box (codes "mfhd") none
        do write_full_box_header 0 0; write_u32 (min (segment_idx + 1) (2 ^ 32 - 1))

  unfoldable pub write_tfhd : ℕ → Writer W (Unit {0})
  write_tfhd track_id =
      in_box (codes "tfhd") none
        do write_full_box_header 0 tfhd_flag_default_base_is_moof; write_u32 track_id

  unfoldable pub write_tfdt : ℕ → Writer W (Unit {0})
  write_tfdt base_media_decode_time =
      in_box (codes "tfdt") none do write_full_box_header 1 0; write_u64 base_media_decode_time

  unfoldable pub write_traf : ℕ → ℕ → Writer W ℕ → Writer W ℕ
  write_traf track_id base_dts write_trun =
      in_box (codes "traf") none do write_tfhd track_id; write_tfdt base_dts; write_trun

  abbrev pub write_video_entry : Bool → SampleEntry → Writer W (Unit {0})
  write_video_entry has_ctts s = do
    write_u32 s.dts_delta
    write_u32 s.size
    if has_ctts then write_i32 s.cts_offset else pure tt

  abbrev pub write_audio_entry : SampleEntry → Writer W (Unit {0})
  write_audio_entry s = do write_u32 s.dts_delta; write_u32 s.size

  -- The result is the position of `data_offset`, which is written later.
  unfoldable pub write_video_trun : List SampleEntry → Bool → Writer W ℕ
  write_video_trun samples has_ctts = in_box (codes "trun") none do
    write_full_box_header (if has_ctts then 1 else 0)
        (video_trun_base_flags + (if has_ctts then trun_flag_sample_cts_offset else 0))
    sample_count ← lift (ok_or (try_u32 (length samples)) (io other))
    write_u32 sample_count
    data_offset_pos ← stream_position
    write_u32 0
    write_u32 video_first_sample_flags_sync
    each (write_video_entry has_ctts) samples
    pure data_offset_pos

  unfoldable pub write_audio_trun : List SampleEntry → Writer W ℕ
  write_audio_trun samples = in_box (codes "trun") none do
    write_full_box_header 0 audio_trun_flags
    sample_count ← lift (ok_or (try_u32 (length samples)) (io other))
    write_u32 sample_count
    data_offset_pos ← stream_position
    write_u32 0
    each write_audio_entry samples
    pure data_offset_pos
