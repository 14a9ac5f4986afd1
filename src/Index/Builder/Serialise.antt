-- ===== src/Index/Builder/Serialise.antt =====
-- crates/packager/src/index/builder.rs: the byte image of an `.idx` file.
use cmafly.Prelude.{ℕ, ◌+◌, ◌-◌, ◌*◌, ◌%◌, ◌==◌, if◌then◌else◌}
use cmafly.Prelude.{List, [], ◌∷◌, ◌++◌, length, replicate, overwrite}
use cmafly.Error.{Result, ok, ◌>>=◌, PackagerError}
use cmafly.ByteOrder.{ByteOrder, write_u32, write_u64}
use cmafly.NativeEndian.{NativeEndian}
use cmafly.Demux.Moov.Types.{ParsedTrack}
use cmafly.Index.Format.{
  SampleEntry, SegmentEntry, magic, header_fixed_len, section_dir_entry_len, kind_video_track_meta,
  kind_audio_track_meta, kind_video_sample_table, kind_audio_sample_table, kind_segment_table,
  kind_init_segment_bytes, kind_playlist_bytes,
}
use cmafly.Index.Builder.Encode.{
  encode_video_meta, encode_audio_meta, encode_sample_table, encode_segment_table,
}

-- `bytes.resize(bytes.len() + (8 - rem), 0)` where `rem` is not 0.
abbrev pub pad_to_8 : List ℕ → List ℕ
pad_to_8 bytes =
    let rem = length bytes % 8 in if rem == 0 then bytes else bytes ++ replicate (8 - rem) 0

-- The loop over the sections. Every section but the last is padded.
unfoldable pub lay_out : List (ℕ × List ℕ) → List ℕ → List (ℕ × ℕ) → List ℕ × List (ℕ × ℕ)
lay_out [] bytes directory = (bytes, directory)
lay_out ((kind, content) ∷ []) bytes directory =
    (bytes ++ content, directory ++ ((kind, length bytes) ∷ []))
lay_out ((kind, content) ∷ next ∷ rest) bytes directory =
    lay_out (next ∷ rest) (pad_to_8 (bytes ++ content)) (directory ++ ((kind, length bytes) ∷ []))

module _ ⦃be : ByteOrder⦄ where
  -- The loop that writes the directory, from entry `i` on.
  unfoldable pub write_directory : ℕ → List (ℕ × ℕ) → List ℕ → List ℕ
  write_directory i [] bytes = bytes
  write_directory i ((kind, offset) ∷ rest) bytes =
      let pos = header_fixed_len + i * section_dir_entry_len in
      write_directory (i + 1) rest (
        overwrite (pos + 8) (write_u64 offset)
          (overwrite (pos + 4) (write_u32 0) (overwrite pos (write_u32 kind) bytes)))

  -- The fixed header, field by field.
  unfoldable pub write_header : ℕ → ℕ → List ℕ → ℕ → List ℕ → List ℕ
  write_header max_segment_size source_len blake3 n_sections bytes = overwrite 52 (write_u32 0) (
      overwrite 48 (write_u32 n_sections) (
        overwrite 16 blake3 (
          overwrite 8 (write_u64 source_len)
            (overwrite 4 (write_u32 max_segment_size) (overwrite 0 magic bytes)))))

  -- `serialise` from the list of the sections on.
  unfoldable pub assemble : ℕ → ℕ → List ℕ → List (ℕ × List ℕ) → List ℕ
  unfolding lay_out write_header write_directory
  assemble max_segment_size source_len blake3 sections =
      let n_sections = length sections in
      let header_end = header_fixed_len + n_sections * section_dir_entry_len in
      let (bytes, directory) = lay_out sections (replicate header_end 0) [] in
      write_directory 0 directory (write_header max_segment_size source_len blake3 n_sections bytes)

-- What `serialise` is given.
pub record Parts : Type 0 where
  pub max_segment_size : ℕ
  pub source_len : ℕ
  pub blake3 : List ℕ
  pub video_meta : ParsedTrack
  pub video_sample_entry : List ℕ
  pub video_elst : List ℕ
  pub audio_meta : ParsedTrack
  pub audio_sample_entry : List ℕ
  pub audio_elst : List ℕ
  pub video_samples : List SampleEntry
  pub audio_samples : List SampleEntry
  pub segments : List SegmentEntry
  pub playlist_bytes : List ℕ
  pub init_bytes : List ℕ

module _ ⦃be : ByteOrder⦄ ⦃ne : NativeEndian⦄ where
  unfoldable pub serialise : Parts → Result PackagerError (List ℕ)
  unfolding assemble encode_video_meta encode_audio_meta encode_sample_table encode_segment_table
  serialise p = do
    video_meta ← encode_video_meta p.video_meta p.video_sample_entry p.video_elst
    audio_meta ← encode_audio_meta p.audio_meta p.audio_sample_entry p.audio_elst
    video_table ← encode_sample_table p.video_samples "VideoSampleTable"
    audio_table ← encode_sample_table p.audio_samples "AudioSampleTable"
    segment_table ← encode_segment_table p.segments
    ok (
        assemble p.max_segment_size p.source_len p.blake3 (
          (kind_video_track_meta, video_meta)
          ∷ (kind_audio_track_meta, audio_meta)
          ∷ (kind_video_sample_table, video_table)
          ∷ (kind_audio_sample_table, audio_table)
          ∷ (kind_segment_table, segment_table)
          ∷ (kind_playlist_bytes, p.playlist_bytes)
          ∷ (kind_init_segment_bytes, p.init_bytes)
          ∷ []))
