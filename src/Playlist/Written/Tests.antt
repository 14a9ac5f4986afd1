-- ===== src/Playlist/Written/Tests.antt =====
-- The playlist of an index with a segment.
use cmafly.Prelude.{
  ℕ, ◌+◌, ◌≤◌, ◌≡◌, refl, arith, [], ◌∷◌, ◌++◌, length, replicate, pos, none, codes,
}
use cmafly.Error.{ok}
use cmafly.Sink.{Holds}
use cmafly.Sink.Cursor.{Cursor, cursor, new_cursor, new_cursor-Holds}
use cmafly.Playlist.{Format, write_media_playlist}
use cmafly.Playlist.Ticks.{target_duration}
use cmafly.Playlist.Target.{Within, target_duration_lem}
use cmafly.Playlist.Written.{playlist_text, write_media_playlist_lem}
use cmafly.Index.Format.{SampleEntry, SegmentEntry}
use cmafly.Index.View.Types.{IndexView, VideoTrackMeta, AudioTrackMeta}

-- The formats of the test write every number as one digit.
abbrev one_digit : Format
one_digit = record {
  number = λ n. (b'0' + n) ∷ [];
  four_digits = λ n. codes "000" ++ ((b'0' + n) ∷ []);
  six_decimals = λ ticks timescale. (b'0' + ticks) ∷ codes ".000000";
}

abbrev sample : SampleEntry
sample = record { offset = 0; size = 1; dts_delta = 3; cts_offset = pos 0; flags = 1 }

abbrev segment : SegmentEntry
segment = record {
  video_sample_start = 0;
  video_sample_count = 1;
  audio_sample_start = 0;
  audio_sample_count = 1;
  video_base_dts = 0;
  audio_base_dts = 0;
}

abbrev video : VideoTrackMeta
video = record {
  timescale = 2;
  fourcc = codes "avc1";
  width = 1920;
  height = 1080;
  sample_entry = [];
  elst = [];
}

abbrev audio : AudioTrackMeta
audio = record {
  timescale = 48000;
  fourcc = codes "mp4a";
  sample_rate = 48000;
  channel_count = 2;
  sample_entry = [];
  elst = [];
}

abbrev index : IndexView
index = record {
  max_segment_size = 0;
  source_mp4_len = 7;
  source_mp4_blake3 = replicate 32 0;
  video_track = video;
  audio_track = audio;
  video_samples = sample ∷ [];
  audio_samples = sample ∷ [];
  segments = segment ∷ [];
  init_segment_bytes = [];
  playlist_bytes = none;
}

target_duration_lem_example :
    Within 2 (target_duration (3 ∷ 5 ∷ []) 2) (3 ∷ 5 ∷ [])
    × ((target : ℕ) → Within 2 target (3 ∷ 5 ∷ []) → target_duration (3 ∷ 5 ∷ []) 2 ≤ target)
target_duration_lem_example = target_duration_lem (3 ∷ 5 ∷ []) 2 (omega arith)

text_size : length (playlist_text one_digit index) ≡ 174
unfolding playlist_text target_duration
text_size = refl

write_media_playlist_lem_example :
    (c : Cursor) × Holds c
      ([] ++ playlist_text one_digit index)
      (length ([] ++ playlist_text one_digit index))
    × (write_media_playlist one_digit index new_cursor ≡ ok (tt, c))
write_media_playlist_lem_example =
    write_media_playlist_lem ⦃sink = cursor⦄ one_digit index new_cursor [] (omega arith)
      (omega arith) (record { range = omega arith; ticks = omega arith }, tt) new_cursor-Holds
      (omega (arith, text_size))
