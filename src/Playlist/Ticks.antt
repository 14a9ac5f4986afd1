-- ===== src/Playlist/Ticks.antt =====
-- crates/packager/src/playlist/m3u8.rs: the durations of the segments, in ticks of the video track.
use cmafly.Prelude.{ℕ, ◌-◌, ltb, max, List, [], ◌∷◌, length, slice, checked_add, div_ceil}
use cmafly.Error.{Result, ok, ◌>>=◌, ◌>>◌, ok_or, fail_if, PackagerError, sample_table_inconsistent}
use cmafly.Index.Format.{SampleEntry, SegmentEntry}

-- The loop over the samples of a segment.
abbrev pub ticks_loop : ℕ → List SampleEntry → Result PackagerError ℕ
ticks_loop ticks [] = ok ticks
ticks_loop ticks (s ∷ samples) =
    ok_or (checked_add ticks s.dts_delta)
      (sample_table_inconsistent "segment dts ticks overflow u64")
    >>= λ sum. ticks_loop sum samples

unfoldable pub segment_video_ticks : SegmentEntry → List SampleEntry → Result PackagerError ℕ
segment_video_ticks segment video_samples = do
  let start = segment.video_sample_start
  end ←
      ok_or (checked_add start segment.video_sample_count)
        (sample_table_inconsistent "segment sample range overflows usize")
  fail_if (ltb (length video_samples) end)
      (sample_table_inconsistent "segment sample range exceeds video sample table")
  ticks_loop 0 (slice start (end - start) video_samples)

-- `segments.iter().map(…).collect::<Result<_, _>>()`
unfoldable pub all_ticks : List SegmentEntry → List SampleEntry → Result PackagerError (List ℕ)
all_ticks [] video_samples = ok []
all_ticks (s ∷ segments) video_samples = do
  ticks ← segment_video_ticks s video_samples
  rest ← all_ticks segments video_samples
  ok (ticks ∷ rest)

-- `seg_ticks.iter().copied().max().unwrap_or(0)`
abbrev pub max_ticks : List ℕ → ℕ
max_ticks [] = 0
max_ticks (t ∷ ticks) = max t (max_ticks ticks)

unfoldable pub target_duration : List ℕ → ℕ → ℕ
target_duration ticks timescale = div_ceil (max_ticks ticks) timescale
