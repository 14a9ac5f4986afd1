-- ===== src/Index/Builder/Encode.antt =====
-- crates/packager/src/index/builder.rs: the payloads of the sections.
use Prim.Native.String.{String}
use text.Mathlib.Text.{◌==◌ as str_eq}
use cmafly.Prelude.{
  ℕ, if◌then◌else◌, List, [], ◌∷◌, ◌++◌, length, replicate, concat, try_u32, to_u32,
}
use cmafly.Error.{Result, ok, ◌>>=◌, ok_or, PackagerError, io, other, sample_table_inconsistent}
use cmafly.ByteOrder.{ByteOrder, write_u32}
use cmafly.NativeEndian.{NativeEndian, to_ne_u32, to_ne_u64}
use cmafly.Demux.Sample.{RawSampleEntry}
use cmafly.Demux.Moov.Types.{ParsedTrack}
use cmafly.Index.Format.{SampleEntry, SegmentEntry, sample_flag_is_sync}

abbrev pub raw_to_sample_entry : RawSampleEntry → SampleEntry
raw_to_sample_entry r = record {
  offset = r.offset;
  size = r.size;
  dts_delta = r.dts_delta;
  cts_offset = r.cts_offset;
  flags = if r.is_sync then sample_flag_is_sync else 0;
}

-- The message names the blob and its length.
abbrev pub byte_blob_size : List ℕ → Result PackagerError ℕ
byte_blob_size blob = ok_or (try_u32 (length blob)) (io other)

module _ ⦃be : ByteOrder⦄ where
  unfoldable pub encode_video_meta : ParsedTrack → List ℕ → List ℕ → Result PackagerError (List ℕ)
  encode_video_meta track sample_entry elst = do
    sample_entry_size ← byte_blob_size sample_entry
    elst_size ← byte_blob_size elst
    ok (
        concat (
          write_u32 track.timescale
          ∷ track.fourcc
          ∷ write_u32 track.width
          ∷ write_u32 track.height
          ∷ write_u32 sample_entry_size
          ∷ sample_entry
          ∷ write_u32 elst_size
          ∷ elst
          ∷ []))

  unfoldable pub encode_audio_meta : ParsedTrack → List ℕ → List ℕ → Result PackagerError (List ℕ)
  encode_audio_meta track sample_entry elst = do
    sample_entry_size ← byte_blob_size sample_entry
    elst_size ← byte_blob_size elst
    ok (
        concat (
          write_u32 track.timescale
          ∷ track.fourcc
          ∷ write_u32 track.sample_rate
          ∷ (track.channel_count ∷ [])
          ∷ replicate 3 0
          ∷ write_u32 sample_entry_size
          ∷ sample_entry
          ∷ write_u32 elst_size
          ∷ elst
          ∷ []))

module _ ⦃ne : NativeEndian⦄ where
  abbrev pub sample_row : SampleEntry → List ℕ
  sample_row x = concat (
      to_ne_u64 x.offset
      ∷ to_ne_u32 x.size
      ∷ to_ne_u32 x.dts_delta
      ∷ to_ne_u32 (to_u32 x.cts_offset)
      ∷ to_ne_u32 x.flags
      ∷ [])

  abbrev pub segment_row : SegmentEntry → List ℕ
  segment_row x = concat (
      to_ne_u32 x.video_sample_start
      ∷ to_ne_u32 x.video_sample_count
      ∷ to_ne_u32 x.audio_sample_start
      ∷ to_ne_u32 x.audio_sample_count
      ∷ to_ne_u64 x.video_base_dts
      ∷ to_ne_u64 x.audio_base_dts
      ∷ [])

-- `for x in rows { s.extend_from_slice(…) }`
abbrev pub write_rows : {T : Type 0} → (T → List ℕ) → List T → List ℕ
write_rows row [] = []
write_rows row (x ∷ xs) = row x ++ write_rows row xs

pub too_many_samples : String → PackagerError
too_many_samples name = sample_table_inconsistent (
    if str_eq name "VideoSampleTable"
    then "video sample count exceeds u32::MAX"
    else "audio sample count exceeds u32::MAX")

module _ ⦃be : ByteOrder⦄ ⦃ne : NativeEndian⦄ where
  unfoldable pub encode_sample_table : List SampleEntry → String → Result PackagerError (List ℕ)
  unfolding too_many_samples
  encode_sample_table samples name = do
    n ← ok_or (try_u32 (length samples)) (too_many_samples name)
    ok (concat (write_u32 n ∷ write_u32 0 ∷ []) ++ write_rows sample_row samples)

  unfoldable pub encode_segment_table : List SegmentEntry → Result PackagerError (List ℕ)
  encode_segment_table segments = do
    n ←
        ok_or (try_u32 (length segments))
          (sample_table_inconsistent "segment count exceeds u32::MAX")
    ok (concat (write_u32 n ∷ write_u32 0 ∷ []) ++ write_rows segment_row segments)
