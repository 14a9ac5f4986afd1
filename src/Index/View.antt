-- ===== src/Index/View.antt =====
-- crates/packager/src/index/view.rs: the view over the bytes of an `.idx` file.
pub mod Types
pub mod Meta
pub mod Tables
pub mod Directory
use Prim.Native.String.{String}
use cmafly.Prelude.{
  ℕ, ◌+◌, ◌*◌, ◌==◌, ltb, not, Option, none, some, List, length, slice, take, bytes_eq,
}
use cmafly.Error.{Result, ok, err, ◌>>=◌, ◌>>◌, fail_if, ok_or, PackagerError}
use cmafly.Error.{malformed_index_directory, malformed_index_section, index_magic_mismatch}
use cmafly.ByteOrder.{ByteOrder, read_u32, read_u64}
use cmafly.NativeEndian.{NativeEndian}
use cmafly.Index.Format.{
  magic, header_fixed_len, section_dir_entry_len, max_sections, kind_video_track_meta,
  kind_audio_track_meta, kind_video_sample_table, kind_audio_sample_table, kind_segment_table,
  kind_init_segment_bytes, kind_playlist_bytes,
}
use cmafly.Index.View.Types.{IndexView}
use cmafly.Index.View.Meta.{parse_video_meta, parse_audio_meta}
use cmafly.Index.View.Tables.{parse_sample_table, parse_segment_table}
use cmafly.Index.View.Directory.{read_directory, check_directory, section_payload}

-- The bytes of a section without its start.
abbrev pub payload_bytes : Option (ℕ × List ℕ) → Option (List ℕ)
payload_bytes none = none
payload_bytes (some (start, payload)) = some payload

module _ ⦃be : ByteOrder⦄ ⦃ne : NativeEndian⦄ where
  -- The end of `open`: the sections by their kinds. `addr` is the address of `bytes` in memory.
  unfoldable pub open_sections : ℕ → List ℕ → List (ℕ × ℕ) → Result PackagerError IndexView
  open_sections addr bytes directory = do
    (s1, video_meta) ←
        ok_or (section_payload directory bytes kind_video_track_meta)
          (malformed_index_section "missing VideoTrackMeta section")
    (s2, audio_meta) ←
        ok_or (section_payload directory bytes kind_audio_track_meta)
          (malformed_index_section "missing AudioTrackMeta section")
    (s3, video_table) ←
        ok_or (section_payload directory bytes kind_video_sample_table)
          (malformed_index_section "missing VideoSampleTable section")
    (s4, audio_table) ←
        ok_or (section_payload directory bytes kind_audio_sample_table)
          (malformed_index_section "missing AudioSampleTable section")
    (s5, segment_table) ←
        ok_or (section_payload directory bytes kind_segment_table)
          (malformed_index_section "missing SegmentTable section")
    (s6, init_segment_bytes) ←
        ok_or (section_payload directory bytes kind_init_segment_bytes)
          (malformed_index_section "missing InitSegmentBytes section")
    video_track ← parse_video_meta video_meta
    audio_track ← parse_audio_meta audio_meta
    video_samples ← parse_sample_table "VideoSampleTable" (addr + s3) video_table
    audio_samples ← parse_sample_table "AudioSampleTable" (addr + s4) audio_table
    segments ← parse_segment_table (addr + s5) segment_table
    ok (record {
      max_segment_size = read_u32 (slice 4 4 bytes);
      source_mp4_len = read_u64 (slice 8 8 bytes);
      source_mp4_blake3 = slice 16 32 bytes;
      video_track = video_track;
      audio_track = audio_track;
      video_samples = video_samples;
      audio_samples = audio_samples;
      segments = segments;
      init_segment_bytes = init_segment_bytes;
      playlist_bytes = payload_bytes (section_payload directory bytes kind_playlist_bytes);
    })

  -- `IndexView::open`.
  unfoldable pub open_index : ℕ → List ℕ → Result PackagerError IndexView
  open_index addr bytes = do
    fail_if (ltb (length bytes) header_fixed_len)
        (malformed_index_directory "file shorter than fixed header")
    fail_if (not (bytes_eq (take 4 bytes) magic)) index_magic_mismatch
    let section_count = read_u32 (slice 48 4 bytes)
    fail_if (not (read_u32 (slice 52 4 bytes) == 0))
        (malformed_index_directory "reserved word at offset 52 is nonzero")
    fail_if (ltb max_sections section_count)
        (malformed_index_directory "section_count exceeds MAX_SECTIONS")
    fail_if (section_count == 0) (malformed_index_directory "section_count is zero")
    let header_end = header_fixed_len + section_count * section_dir_entry_len
    fail_if (ltb (length bytes) header_end) (malformed_index_directory "directory truncated")
    directory ← read_directory bytes 0 section_count
    check_directory header_end (length bytes) directory
    open_sections addr bytes directory
