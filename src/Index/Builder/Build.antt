-- ===== src/Index/Builder/Build.antt =====
-- crates/packager/src/index/builder.rs: IndexBuilder::build, from the source to the bytes of the index.
use cmafly.Prelude.{
  ℕ, zero, suc, ◌+◌, ◌-◌, ◌%◌, ◌==◌, ltb, if◌then◌else◌, Option, none, some, List, [], ◌++◌, map,
  length, replicate, try_u32,
}
use cmafly.Error.{Result, ok, ◌>>=◌, ok_or, PackagerError, io, other, sample_table_inconsistent}
use cmafly.ByteOrder.{ByteOrder}
use cmafly.NativeEndian.{NativeEndian}
use cmafly.Sink.Cursor.{Cursor, cursor, new_cursor}
use cmafly.Demux.Source.{ReadAt}
use cmafly.Demux.Locations.{ByteRange}
use cmafly.Demux.Moov.Types.{ParsedTrack, MoovParse}
use cmafly.Demux.Moov.{parse_top_level}
use cmafly.Demux.SampleTable.{walk}
use cmafly.Segment.Splitter.{Float64, split}
use cmafly.Fmp4.Init.{write_init_segment}
use cmafly.Fmp4.Media.{write_media_segment}
use cmafly.Playlist.{Format, write_media_playlist}
use cmafly.Index.Format.{SampleEntry, SegmentEntry}
use cmafly.Index.View.Types.{IndexView, VideoTrackMeta, AudioTrackMeta}
use cmafly.Index.Builder.Counting.{CountingSink, counting, new_counting}
use cmafly.Index.Builder.Encode.{raw_to_sample_entry}
use cmafly.Index.Builder.Hash.{Hasher, read_byte_range, blake3_of_source}
use cmafly.Index.Builder.Serialise.{serialise}

-- The value behind the output of a writer, and the bytes in a buffer.
abbrev pub written : Result PackagerError (Unit {0} × Cursor) → Result PackagerError (List ℕ)
written run = run >>= λ (done, c). ok c.bytes

abbrev pub measured : Result PackagerError (Unit {0} × CountingSink) → Result PackagerError ℕ
measured run = run >>= λ (done, s). ok s.len

-- `bytes.resize(bytes.len() + (8 - rem), b'\n')` where `rem` is not 0.
abbrev pub pad_playlist : List ℕ → List ℕ
pad_playlist bytes =
    let rem = length bytes % 8 in if rem == 0 then bytes else bytes ++ replicate (8 - rem) b'\n'

unfoldable pub render_playlist : Format → IndexView → Result PackagerError (List ℕ)
render_playlist format view = do
  bytes ← written (write_media_playlist format view new_cursor)
  ok (pad_playlist bytes)

-- `range.map(…).transpose()?.unwrap_or_default()`
abbrev read_optional : ReadAt → Option ByteRange → Result PackagerError (List ℕ)
read_optional reader none = ok []
read_optional reader (some range) = read_byte_range reader range

abbrev pub video_view : ParsedTrack → List ℕ → List ℕ → VideoTrackMeta
video_view track sample_entry elst = record {
  timescale = track.timescale;
  fourcc = track.fourcc;
  width = track.width;
  height = track.height;
  sample_entry = sample_entry;
  elst = elst;
}

abbrev pub audio_view : ParsedTrack → List ℕ → List ℕ → AudioTrackMeta
audio_view track sample_entry elst = record {
  timescale = track.timescale;
  fourcc = track.fourcc;
  sample_rate = track.sample_rate;
  channel_count = track.channel_count;
  sample_entry = sample_entry;
  elst = elst;
}

-- The view over the parts, whose `max_segment_size` is not known yet.
abbrev pub temp_view :
    MoovParse
    → ℕ
    → List ℕ
    → List ℕ
    → List ℕ
    → List ℕ
    → List ℕ
    → List SampleEntry
    → List SampleEntry
    → List SegmentEntry
    → IndexView
temp_view moov source_len blake3 video_sample_entry video_elst audio_sample_entry audio_elst
      video_samples audio_samples segments =
    record {
      max_segment_size = 0;
      source_mp4_len = source_len;
      source_mp4_blake3 = blake3;
      video_track = video_view moov.video video_sample_entry video_elst;
      audio_track = audio_view moov.audio audio_sample_entry audio_elst;
      video_samples = video_samples;
      audio_samples = audio_samples;
      segments = segments;
      init_segment_bytes = [];
      playlist_bytes = none;
    }

module _ ⦃be : ByteOrder⦄ where
  -- The loop over the segments, from `idx` on.
  unfoldable pub measure_loop : IndexView → ReadAt → ℕ → ℕ → ℕ → Result PackagerError ℕ
  measure_loop view source idx zero max_segment_size = ok max_segment_size
  measure_loop view source idx (suc count) max_segment_size = do
    segment_idx ← ok_or (try_u32 idx) (sample_table_inconsistent "segment index exceeds u32::MAX")
    len ← measured (write_media_segment view segment_idx source new_counting)
    bytes_for_segment ← ok_or (try_u32 len) (io other)
    measure_loop view source (idx + 1) count
        (if ltb max_segment_size bytes_for_segment then bytes_for_segment else max_segment_size)

  unfoldable pub measure_segments : IndexView → ReadAt → Result PackagerError ℕ
  measure_segments view source = measure_loop view source 0 (length view.segments) 0

  unfoldable pub build :
      ⦃ne : NativeEndian⦄ (f64 : Float64) (hasher : Hasher) (format : Format) (source : ReadAt)
      (source_len : ℕ) (segment_duration_secs : f64.F)
      → Result PackagerError (List ℕ)
  build f64 hasher format source source_len segment_duration_secs = do
    moov ← parse_top_level source source_len
    video_walked ← walk source moov.video.sample_table
    audio_walked ← walk source moov.audio.sample_table
    let video_samples = map raw_to_sample_entry video_walked.samples
    let audio_samples = map raw_to_sample_entry audio_walked.samples
    segments ←
        split f64 video_walked.samples audio_walked.samples moov.video.timescale
          moov.audio.timescale segment_duration_secs
    video_sample_entry ← read_byte_range source moov.video.sample_entry
    video_elst ← read_optional source moov.video.elst
    audio_sample_entry ← read_byte_range source moov.audio.sample_entry
    audio_elst ← read_optional source moov.audio.elst
    blake3_digest ← blake3_of_source hasher source source_len
    let view =
        temp_view moov source_len blake3_digest video_sample_entry video_elst audio_sample_entry
          audio_elst video_samples audio_samples segments
    init_bytes ← written (write_init_segment view new_cursor)
    playlist_bytes ← render_playlist format view
    max_segment_size ← measure_segments view source
    serialise (record {
      max_segment_size = max_segment_size;
      source_len = source_len;
      blake3 = blake3_digest;
      video_meta = moov.video;
      video_sample_entry = video_sample_entry;
      video_elst = video_elst;
      audio_meta = moov.audio;
      audio_sample_entry = audio_sample_entry;
      audio_elst = audio_elst;
      video_samples = video_samples;
      audio_samples = audio_samples;
      segments = segments;
      playlist_bytes = playlist_bytes;
      init_bytes = init_bytes;
    })
