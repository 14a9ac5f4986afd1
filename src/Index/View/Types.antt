-- ===== src/Index/View/Types.antt =====
-- crates/packager/src/index/view.rs: the parts of an index.
use cmafly.Prelude.{ℕ, List, Option}
use cmafly.Index.Format.{SampleEntry, SegmentEntry}

pub record VideoTrackMeta : Type 0 where
  pub timescale : ℕ
  pub fourcc : List ℕ
  pub width : ℕ
  pub height : ℕ
  pub sample_entry : List ℕ
  pub elst : List ℕ

pub record AudioTrackMeta : Type 0 where
  pub timescale : ℕ
  pub fourcc : List ℕ
  pub sample_rate : ℕ
  pub channel_count : ℕ
  pub sample_entry : List ℕ
  pub elst : List ℕ

-- The fields are the accessors.
pub record IndexView : Type 0 where
  pub max_segment_size : ℕ
  pub source_mp4_len : ℕ
  pub source_mp4_blake3 : List ℕ
  pub video_track : VideoTrackMeta
  pub audio_track : AudioTrackMeta
  pub video_samples : List SampleEntry
  pub audio_samples : List SampleEntry
  pub segments : List SegmentEntry
  pub init_segment_bytes : List ℕ
  pub playlist_bytes : Option (List ℕ)
