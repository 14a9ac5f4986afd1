-- ===== src/Fmp4/Media/Samples.antt =====
-- crates/packager/src/fmp4/media.rs: the samples of a segment and the numbers about them.
use cmafly.Prelude.{ℕ, ◌-◌, ◌^◌, ◌==◌, ltb, not, ◌||◌, if◌then◌else◌, Bool, false}
use cmafly.Prelude.{Option, none, some, List, [], ◌∷◌, length, slice, checked_add, ℤ, pos, negsuc}
use cmafly.Error.{
  Result, ok, ◌>>=◌, ◌>>◌, ok_or, fail_if, PackagerError, io, other, sample_table_inconsistent,
}
use cmafly.Fmp4.Boxes.{checked_sub}
use cmafly.Index.Format.{SampleEntry, SegmentEntry}

unfoldable pub slice_segment_samples :
    List SampleEntry → SegmentEntry → Bool → Result PackagerError (List SampleEntry)
slice_segment_samples table segment video = do
  let start = if video then segment.video_sample_start else segment.audio_sample_start
  let count = if video then segment.video_sample_count else segment.audio_sample_count
  end ←
      ok_or (checked_add start count)
        (sample_table_inconsistent "segment sample range overflows usize")
  fail_if (ltb (length table) end)
      (sample_table_inconsistent "segment sample range exceeds sample table length")
  ok (slice start (end - start) table)

-- The loop of `sum_sizes`.
abbrev pub sum_loop : ℕ → List SampleEntry → Result PackagerError ℕ
sum_loop total [] = ok total
sum_loop total (s ∷ samples) =
    ok_or (checked_add total s.size)
      (sample_table_inconsistent "segment payload byte count overflows u64")
    >>= λ sum. sum_loop sum samples

unfoldable pub sum_sizes : List SampleEntry → Result PackagerError ℕ
sum_sizes samples = sum_loop 0 samples

abbrev pub is_zero : ℤ → Bool
is_zero (pos n) = n == 0
is_zero (negsuc n) = false

-- `index.video_samples().iter().any(|s| s.cts_offset != 0)`
abbrev pub any_cts_offset : List SampleEntry → Bool
any_cts_offset [] = false
any_cts_offset (s ∷ samples) = not (is_zero s.cts_offset) || any_cts_offset samples

-- `i32::try_from` of a `u64`.
abbrev try_i32 : ℕ → Option ℕ
try_i32 n = if ltb n (2 ^ 31) then some n else none

unfoldable pub compute_data_offset : ℕ → ℕ → ℕ → Result PackagerError ℕ
compute_data_offset mdat_payload_start moof_start trailing = do
  v ← ok_or (checked_sub mdat_payload_start moof_start) (io other)
  absolute ← ok_or (checked_add v trailing) (io other)
  ok_or (try_i32 absolute) (io other)

-- The sizes of the `mdat` box: `write_media_segment` from `payload_bytes` to `mdat_total_size`.
unfoldable pub mdat_size : ℕ → ℕ → Result PackagerError ℕ
mdat_size video_payload_bytes audio_payload_bytes = do
  payload_bytes ← ok_or (checked_add video_payload_bytes audio_payload_bytes) (io other)
  total ← ok_or (checked_add payload_bytes 8) (io other)
  ok_or (if ltb total (2 ^ 32) then some total else none) (io other)
