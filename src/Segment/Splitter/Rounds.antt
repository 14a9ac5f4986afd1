-- ===== src/Segment/Splitter/Rounds.antt =====
-- One round of the loop of `split`, taken apart.
use cmafly.Prelude.{ℕ, ◌+◌, ◌-◌, ◌<◌, ◌≡◌, ◌⊎◌, inl, inr, Bool, true, false, ◌&&◌}
use cmafly.Prelude.{arith, ltb, leb, List, [], ◌∷◌, ◌++◌}
use cmafly.Error.{ok, bind-eq-ok, ok_or_err}
use cmafly.Demux.Sample.{RawSampleEntry}
use cmafly.Index.Format.{SegmentEntry}
use cmafly.Segment.Splitter.{
  State, scale_dts_ceil, advance_audio_to, close_segment, split_step, split_loop,
}
use cmafly.Segment.Splitter.{push_segment}

pub push_segment-eq-ok :
    (segments : List SegmentEntry) (e : SegmentEntry) (out : List SegmentEntry)
    → push_segment segments e ≡ ok out
    → (0 < e.video_sample_count) × (0 < e.audio_sample_count) × (segments ++ (e ∷ []) ≡ out)
unfolding push_segment
push_segment-eq-ok segments e out h = ground arith

module _ (audio : List RawSampleEntry) (vts ats nominal : ℕ) where
  -- The test of the loop: sample `x`, at index `i`, closes the active segment.
  abbrev pub closes : ℕ → RawSampleEntry → State → Bool
  closes i x s = ltb s.v_start i && x.is_sync && leb nominal (s.v_dts - s.v_base_dts)

  pub split_step-cases :
      (i : ℕ) (x : RawSampleEntry) (s s' : State)
      → split_step audio vts ats nominal i x s ≡ ok s'
      → (closes i x s ≡ false) × (s' ≡ record s { v_dts = s.v_dts + x.dts_delta })
        ⊎ (closes i x s ≡ true)
          × ((c : State) × (close_segment audio vts ats nominal i s ≡ ok c)
              × (s' ≡ record c { v_dts = c.v_dts + x.dts_delta }))
  unfolding split_step
  split_step-cases i x s s' e = ground arith

  abbrev pub active_entry : ℕ → State → ℕ → SegmentEntry
  active_entry here s a = record {
    video_sample_start = s.v_start;
    video_sample_count = here - s.v_start;
    audio_sample_start = s.a_start;
    audio_sample_count = a - s.a_start;
    video_base_dts = s.v_base_dts;
    audio_base_dts = s.a_base_dts;
  }

  abbrev pub closed_state : ℕ → State → ℕ → ℕ → State
  closed_state here s a t = record s {
    segments = s.segments ++ (active_entry here s a ∷ []);
    v_start = here;
    v_base_dts = s.v_dts;
    a_start = a;
    a_base_dts = t;
    a_cursor = a;
    a_dts = t;
  }

  pub record Closes (here : ℕ) (s c : State) : Type 0 where
    pub target : ℕ
    pub a : ℕ
    pub t : ℕ
    pub scaled : scale_dts_ceil s.v_dts vts ats ≡ ok target
    pub advanced : advance_audio_to audio s.a_cursor s.a_dts target ≡ ok (a, t)
    pub video_some : 0 < here - s.v_start
    pub audio_some : 0 < a - s.a_start
    pub state : c ≡ closed_state here s a t

  pub close_segment-Closes :
      (here : ℕ) (s c : State) → close_segment audio vts ats nominal here s ≡ ok c → Closes here s c
  unfolding close_segment push_segment
  close_segment-Closes here s c e = elim (ok_or_err (scale_dts_ceil s.v_dts vts ats)) [
    | inl (target, scaled) ↦ elim (ok_or_err (advance_audio_to audio s.a_cursor s.a_dts target)) [
      | inl ((a, t), advanced) ↦ record {
        target = target;
        a = a;
        t = t;
        scaled = scaled;
        advanced = advanced;
        video_some = ground arith;
        audio_some = ground arith;
        state = ground arith;
      }
      | inr (x, stuck) ↦ ground arith
    ]
    | inr (x, stuck) ↦ ground arith
  ]

  pub split_loop-cons :
      (i : ℕ) (x : RawSampleEntry) (rest : List RawSampleEntry) (s s' : State)
      → split_loop audio vts ats nominal i (x ∷ rest) s ≡ ok s'
      → (m : State) × (split_loop audio vts ats nominal (i + 1) rest m ≡ ok s')
        × (split_step audio vts ats nominal i x s ≡ ok m)
  unfolding split_loop
  split_loop-cons i x rest s s' e =
      bind-eq-ok (split_step audio vts ats nominal i x s)
        (split_loop audio vts ats nominal (i + 1) rest) e
