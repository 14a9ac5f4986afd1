-- ===== src/Segment/Splitter.antt =====
-- crates/packager/src/segment/splitter.rs: the segment table of two tracks.
pub mod Spec
pub mod Cuts
pub mod Rounds
pub mod Table
pub mod Correct
pub mod Complete
mod Tests
use cmafly.Prelude.{ℕ, ◌+◌, ◌-◌, ◌*◌, ltb, leb, ◌==◌, if◌then◌else◌, Bool, not, ◌&&◌, ◌||◌}
use cmafly.Prelude.{List, [], ◌∷◌, ◌++◌, length, drop, max, div_ceil}
use cmafly.Prelude.{checked_add, try_u32, try_u64}
use cmafly.Error.{Result, ok, ◌>>=◌, ◌>>◌, fail_if, ok_or, PackagerError}
use cmafly.Error.{sample_table_inconsistent}
use cmafly.Demux.Sample.{RawSampleEntry}
use cmafly.Index.Format.{SegmentEntry}

-- What the splitter uses of `f64`: the test that the duration is positive and finite, and
-- `(nominal_secs * f64::from(timescale)).ceil() as u64`.
pub record Float64 : Type 1 where
  pub F : Type 0
  pub is_finite : F → Bool
  pub is_positive : F → Bool
  pub ceil_mul_u32 : F → ℕ → ℕ

-- The loop variables of `split`.
pub record State : Type 0 where
  pub segments : List SegmentEntry
  pub v_start : ℕ
  pub v_base_dts : ℕ
  pub v_dts : ℕ
  pub a_start : ℕ
  pub a_base_dts : ℕ
  pub a_cursor : ℕ
  pub a_dts : ℕ

pub push_segment : List SegmentEntry → SegmentEntry → Result PackagerError (List SegmentEntry)
push_segment segments entry = do
  fail_if (entry.video_sample_count == 0 || entry.audio_sample_count == 0)
      (sample_table_inconsistent "splitter produced an empty segment")
  ok (segments ++ (entry ∷ []))

-- The products are of a u64 and a u32, in a u128.
pub scale_dts_ceil : ℕ → ℕ → ℕ → Result PackagerError ℕ
scale_dts_ceil video_dts video_timescale audio_timescale =
    let numerator = video_dts * audio_timescale in
    ok_or (try_u64 (div_ceil numerator video_timescale))
      (sample_table_inconsistent "scaled audio DTS overflows u64")

-- The `while` loop of `advance_audio_to`, over the samples from the cursor on.
pub advance_loop : List RawSampleEntry → ℕ → ℕ → ℕ → Result PackagerError (ℕ × ℕ)
advance_loop [] cursor cursor_dts target = ok (cursor, cursor_dts)
advance_loop (sample ∷ rest) cursor cursor_dts target =
    let go = (do
      dts ←
          ok_or (checked_add cursor_dts sample.dts_delta)
            (sample_table_inconsistent "audio cumulative DTS overflows u64")
      advance_loop rest (cursor + 1) dts target) in
    if ltb cursor_dts target then go else ok (cursor, cursor_dts)

pub advance_audio_to : List RawSampleEntry → ℕ → ℕ → ℕ → Result PackagerError (ℕ × ℕ)
unfolding advance_loop
advance_audio_to audio cursor cursor_dts target =
    advance_loop (drop cursor audio) cursor cursor_dts target

module _ (audio : List RawSampleEntry) (video_timescale audio_timescale nominal_ticks : ℕ) where
  -- The body of the `if` in the loop: close the active segment at sample `here`.
  pub close_segment : ℕ → State → Result PackagerError State
  close_segment here s = do
    target ← scale_dts_ceil s.v_dts video_timescale audio_timescale
    (a_cursor, a_dts) ← advance_audio_to audio s.a_cursor s.a_dts target
    segments ← push_segment s.segments (record {
      video_sample_start = s.v_start;
      video_sample_count = here - s.v_start;
      audio_sample_start = s.a_start;
      audio_sample_count = a_cursor - s.a_start;
      video_base_dts = s.v_base_dts;
      audio_base_dts = s.a_base_dts;
    })
    ok (record s {
      segments = segments;
      v_start = here;
      v_base_dts = s.v_dts;
      a_start = a_cursor;
      a_base_dts = a_dts;
      a_cursor = a_cursor;
      a_dts = a_dts;
    })

  -- One round of the loop, at sample `i`.
  pub split_step : ℕ → RawSampleEntry → State → Result PackagerError State
  split_step i sample s = do
    here ← ok_or (try_u32 i) (sample_table_inconsistent "video sample index exceeds u32::MAX")
    s' ←
        (if ltb s.v_start here && sample.is_sync && leb nominal_ticks (s.v_dts - s.v_base_dts)
          then close_segment here s
          else ok s)
    v_dts ←
        ok_or (checked_add s'.v_dts sample.dts_delta)
          (sample_table_inconsistent "video cumulative DTS overflows u64")
    ok (record s' { v_dts = v_dts })

  pub split_loop : ℕ → List RawSampleEntry → State → Result PackagerError State
  split_loop i [] s = ok s
  split_loop i (sample ∷ rest) s = split_step i sample s >>= split_loop (i + 1) rest

abbrev pub first_state : State
first_state = record {
  segments = [];
  v_start = 0;
  v_base_dts = 0;
  v_dts = 0;
  a_start = 0;
  a_base_dts = 0;
  a_cursor = 0;
  a_dts = 0;
}

-- The tail segment.
abbrev pub tail_entry : ℕ → ℕ → State → SegmentEntry
tail_entry video_count audio_count s = record {
  video_sample_start = s.v_start;
  video_sample_count = video_count - s.v_start;
  audio_sample_start = s.a_start;
  audio_sample_count = audio_count - s.a_start;
  video_base_dts = s.v_base_dts;
  audio_base_dts = s.a_base_dts;
}

-- `video[0].is_sync`; the list is not empty where it is read.
abbrev pub starts_sync : List RawSampleEntry → Bool
starts_sync [] = Bool.false
starts_sync (x ∷ xs) = x.is_sync

module _ (f64 : Float64) where
  -- `let nominal_ticks = (… as u64).max(1)`
  abbrev pub nominal_ticks : f64.F → ℕ → ℕ
  nominal_ticks nominal_secs video_timescale = max (f64.ceil_mul_u32 nominal_secs video_timescale) 1

  pub split :
      List RawSampleEntry
      → List RawSampleEntry
      → ℕ
      → ℕ
      → f64.F
      → Result PackagerError (List SegmentEntry)
  split video audio video_timescale audio_timescale nominal_secs = do
    fail_if (length video == 0)
        (sample_table_inconsistent "splitter requires at least one video sample")
    fail_if (length audio == 0)
        (sample_table_inconsistent "splitter requires at least one audio sample")
    fail_if (not (starts_sync video))
        (sample_table_inconsistent "first video sample is not a sync sample")
    fail_if (video_timescale == 0 || audio_timescale == 0)
        (sample_table_inconsistent "track timescale is zero")
    fail_if (not (f64.is_finite nominal_secs && f64.is_positive nominal_secs))
        (sample_table_inconsistent "segment nominal duration must be positive and finite")
    video_count ←
        ok_or (try_u32 (length video))
          (sample_table_inconsistent "video sample count exceeds u32::MAX")
    audio_count ←
        ok_or (try_u32 (length audio))
          (sample_table_inconsistent "audio sample count exceeds u32::MAX")
    s ←
        split_loop audio video_timescale audio_timescale
          (nominal_ticks nominal_secs video_timescale) 0 video first_state
    push_segment s.segments (tail_entry video_count audio_count s)
