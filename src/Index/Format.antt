-- ===== src/Index/Format.antt =====
-- crates/packager/src/index/format.rs: the rows and constants of the `.idx` file.
use cmafly.Prelude.{ℕ, ◌%◌, ℤ, Bool, ◌==◌, not, List, codes}

-- `flags` has the sync mark in bit 0.
pub record SampleEntry : Type 0 where
  pub offset : ℕ
  pub size : ℕ
  pub dts_delta : ℕ
  pub cts_offset : ℤ
  pub flags : ℕ

abbrev pub sample_flag_is_sync : ℕ
sample_flag_is_sync = 1

-- `(self.flags & SAMPLE_FLAG_IS_SYNC) != 0`: bit 0 is the remainder by 2.
unfoldable pub is_sync : SampleEntry → Bool
is_sync s = not (s.flags % 2 == 0)

pub record SegmentEntry : Type 0 where
  pub video_sample_start : ℕ
  pub video_sample_count : ℕ
  pub audio_sample_start : ℕ
  pub audio_sample_count : ℕ
  pub video_base_dts : ℕ
  pub audio_base_dts : ℕ

-- The magic number, the sizes of the header and of a directory entry, and the section kinds.
abbrev pub magic : List ℕ
magic = codes "HCMI"

abbrev pub header_fixed_len : ℕ
header_fixed_len = 56

abbrev pub section_dir_entry_len : ℕ
section_dir_entry_len = 16

abbrev pub max_sections : ℕ
max_sections = 64

abbrev pub kind_video_track_meta : ℕ
kind_video_track_meta = 1

abbrev pub kind_audio_track_meta : ℕ
kind_audio_track_meta = 2

abbrev pub kind_video_sample_table : ℕ
kind_video_sample_table = 3

abbrev pub kind_audio_sample_table : ℕ
kind_audio_sample_table = 4

abbrev pub kind_segment_table : ℕ
kind_segment_table = 5

abbrev pub kind_init_segment_bytes : ℕ
kind_init_segment_bytes = 6

abbrev pub kind_playlist_bytes : ℕ
kind_playlist_bytes = 7

-- `size_of` of the two rows, which the source asserts.
abbrev pub sample_entry_size : ℕ
sample_entry_size = 24

abbrev pub segment_entry_size : ℕ
segment_entry_size = 32
