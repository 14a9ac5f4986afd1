-- ===== src/Segment/Splitter/Tests.antt =====
-- The unit tests of splitter.rs, and the theorems at their inputs.
use cmafly.Prelude.{length, ℕ, ◌*◌, ◌≡◌, refl, pos, Bool, true, false, ltb, div_ceil}
use cmafly.Prelude.{List, [], ◌∷◌, All, replicate, arith}
use cmafly.Error.{ok, err, sample_table_inconsistent}
use cmafly.Demux.Sample.{RawSampleEntry}
use cmafly.Index.Format.{SegmentEntry}
use cmafly.Segment.Splitter.{Float64, split, split_loop, split_step, close_segment}
use cmafly.Segment.Splitter.{scale_dts_ceil, advance_audio_to, push_segment}
use cmafly.Segment.Splitter.Spec.{Partition, sync_at}
use cmafly.Segment.Splitter.Correct.{
  split-Partition, split-covers, split-starts_sync, indices, indices_of,
}
use cmafly.Segment.Splitter.Complete.{split_complete}

-- Durations in milliseconds stand for `f64`.
abbrev millis : Float64
millis = record {
  F = ℕ;
  is_finite = λ n. true;
  is_positive = λ n. ltb 0 n;
  ceil_mul_u32 = λ n ts. div_ceil (n * ts) 1000;
}

abbrev vsample : Bool → RawSampleEntry
vsample sync = record { offset = 0; size = 1; dts_delta = 1; cts_offset = pos 0; is_sync = sync }

abbrev asample : RawSampleEntry
asample = vsample true

abbrev video_4 : List RawSampleEntry
video_4 = vsample true ∷ vsample false ∷ vsample true ∷ vsample false ∷ []

abbrev audio_5 : List RawSampleEntry
audio_5 = replicate 5 asample

abbrev row : ℕ → ℕ → ℕ → ℕ → ℕ → ℕ → SegmentEntry
row vs vc s ac vb ab = record {
  video_sample_start = vs;
  video_sample_count = vc;
  audio_sample_start = s;
  audio_sample_count = ac;
  video_base_dts = vb;
  audio_base_dts = ab;
}

abbrev fractional : List SegmentEntry
fractional = row 0 2 0 3 0 0 ∷ row 2 2 3 2 2 3 ∷ []

-- fractional_audio_boundary_keeps_straddling_sample_with_previous_segment
fractional_boundary : split millis video_4 audio_5 3 4 500 ≡ ok fractional
unfolding split split_loop split_step close_segment scale_dts_ceil advance_audio_to push_segment
fractional_boundary = refl

sparse_sync :
    split millis (vsample true ∷ replicate 59 (vsample false)) (replicate 60 asample) 30 30 1000
    ≡ ok (row 0 60 0 60 0 0 ∷ [])
unfolding split split_loop split_step close_segment scale_dts_ceil advance_audio_to push_segment
sparse_sync = refl

first_must_be_sync :
    split millis (vsample false ∷ vsample true ∷ []) (asample ∷ []) 30 30 1000
    ≡ err (sample_table_inconsistent "first video sample is not a sync sample")
unfolding split
first_must_be_sync = refl

split-Partition_example : Partition video_4 audio_5 3 4 2 0 0 fractional
split-Partition_example =
    split-Partition millis video_4 audio_5 3 4 500 fractional fractional_boundary

split-covers_example :
    (indices_of SegmentEntry.video_sample_start SegmentEntry.video_sample_count fractional
      ≡ indices 0 (length video_4))
    × (indices_of SegmentEntry.audio_sample_start SegmentEntry.audio_sample_count fractional
        ≡ indices 0 (length audio_5))
split-covers_example = split-covers millis video_4 audio_5 3 4 500 fractional fractional_boundary

split-starts_sync_example : All (λ e. sync_at video_4 e.video_sample_start ≡ true) fractional
split-starts_sync_example =
    split-starts_sync millis video_4 audio_5 3 4 500 fractional fractional_boundary

split_complete_example : split millis video_4 audio_5 3 4 500 ≡ ok fractional
split_complete_example =
    split_complete millis video_4 audio_5 3 4 500 fractional (omega arith) (omega arith) refl refl
      split-Partition_example
