-- ===== src/Segment/Splitter/Complete.antt =====
-- `split` finds the partition whenever there is one: no step before the end fails.
use cmafly.Prelude.{ℕ, zero, suc, ◌+◌, ◌*◌, ◌≤◌, ◌<◌, ◌≡◌, inl, inr, refl, sym, ap, ◌∙◌}
use cmafly.Prelude.{
  true, false, arith, List, [], ◌∷◌, ◌++◌, append_assoc, length, drop, div_ceil, mul-le,
  lt-div_ceil,
}
use cmafly.Prelude.{
  drop-eq-cons, drop-eq-nil, get_elem?, some, Bool-cases, ltb, u32_mod, u64_mod, ◌&&◌,
}
use cmafly.Error.{ok}
use cmafly.Demux.Sample.{RawSampleEntry}
use cmafly.Index.Format.{SegmentEntry}
use cmafly.Segment.Splitter.{
  State, Float64, nominal_ticks, scale_dts_ceil, advance_loop, advance_audio_to, close_segment,
  split_step, split_loop, push_segment, tail_entry, first_state, split, starts_sync,
}
use cmafly.Segment.Splitter.Spec.{
  dts, dts-step, MayCut, IsSegment, IsAudioCut, Partition, tail, cut,
}
use cmafly.Segment.Splitter.Cuts.{scale_dts_ceil_lem, Stops, advance_audio_to-Stops}
use cmafly.Segment.Splitter.Rounds.{closes, active_entry, closed_state, Closes}
use cmafly.Segment.Splitter.Table.{Inv, Inv-keep, closes-MayCut, next-Inv, first-Inv}

pub dts_mono : (xs : List RawSampleEntry) (i j : ℕ) → i ≤ j → dts xs i ≤ dts xs j
dts_mono [] i j h = omega arith
dts_mono (x ∷ xs) zero j h = omega arith
dts_mono (x ∷ xs) (suc i) zero h = absurd (omega arith)
dts_mono (x ∷ xs) (suc i) (suc j) h = omega (arith, dts_mono xs i j (omega arith))

-- The cursor moves without an overflow while the whole track's time fits 64 bits.
advance_loop_total :
    (audio rest : List RawSampleEntry) (c t target : ℕ)
    → drop c audio ≡ rest
    → t ≡ dts audio c
    → dts audio (length audio) < u64_mod
    → (p : ℕ × ℕ) × (advance_loop rest c t target ≡ ok p)
unfolding advance_loop
advance_loop_total audio [] c t target d et fits = ((c, t), refl)
advance_loop_total audio (x ∷ rest) c t target d et fits =
    let (here, next, inside) = drop-eq-cons c audio d in
    let step = dts-step audio c here in
    let more = dts_mono audio (c + 1) (length audio) (omega (arith, inside)) in
    let (p, run) =
      advance_loop_total audio rest (c + 1) (t + x.dts_delta) target next (omega (arith, step))
        fits in
    elim (Bool-cases (ltb t target)) [
      | inl below ↦ (p, ground (arith, below, run, step, more))
      | inr there ↦ ((c, t), rw there)
    ]

scale_dts_ceil_total :
    (d D vts ats : ℕ)
    → 0 < vts
    → d ≤ D
    → D * ats ≤ 18446744073709551615 * vts
    → (t : ℕ) × (scale_dts_ceil d vts ats ≡ ok t)
unfolding scale_dts_ceil
scale_dts_ceil_total d D vts ats pos le fits =
    let small : d * ats ≤ D * ats = mul-le d D ats le in
    (div_ceil (d * ats) vts, ground (arith, lt-div_ceil 18446744073709551615 (d * ats) vts pos))

module _ (video audio : List RawSampleEntry) (vts ats nominal : ℕ) where
  -- There is one place to cut the audio.
  audio_cut_unique :
      (target v' a c' t' a' : ℕ)
      → ((x : ℕ)
          → (x < target → x * vts < dts video v' * ats)
            × (x * vts < dts video v' * ats → x < target))
      → Stops audio target a c' t'
      → IsAudioCut video audio vts ats nominal v' a a'
      → c' ≡ a'
  audio_cut_unique target v' a c' t' a' scaled st ac = ground (
    arith,
    scaled (dts audio c'),
    scaled (dts audio a'),
    st.before a',
    ac.before c',
    st.past,
    ac.past,
    st.inside,
    ac.inside,
    st.behind,
    ac.behind,
  )

  entry_eq :
      {v v' a a' : ℕ} {e : SegmentEntry} (s : State)
      → IsSegment video audio vts ats nominal v v' a a' e
      → s.v_start ≡ v
      → s.a_start ≡ a
      → s.v_base_dts ≡ dts video v
      → s.a_base_dts ≡ dts audio a
      → active_entry audio vts ats nominal v' s a' ≡ e
  entry_eq s seg ev ea bv ba = ground (
    arith, seg.video_start, seg.video_count, seg.video_dts, seg.audio_start, seg.audio_count,
    seg.audio_dts,
  )

  -- A partition whose first possible cut is at `i` has its first row end there.
  pub record CutHere (i v a : ℕ) (new : List SegmentEntry) : Type 0 where
    pub a' : ℕ
    pub e : SegmentEntry
    pub es : List SegmentEntry
    pub rows : new ≡ e ∷ es
    pub seg : IsSegment video audio vts ats nominal v i a a' e
    pub acut : IsAudioCut video audio vts ats nominal i a a'
    pub rest : Partition video audio vts ats nominal i a' es

  cut_here :
      (i : ℕ) {v a : ℕ} {new : List SegmentEntry}
      → v < i
      → i < length video
      → MayCut video nominal v i
      → ((k : ℕ) → v < k → k < i → ¬ MayCut video nominal v k)
      → Partition video audio vts ats nominal v a new
      → CutHere i v a new
  cut_here i lo hi may none (tail seg uncut) = absurd (uncut i lo hi may)
  cut_here i lo hi may none (cut {v} {v'} {a} {a'} {e} {es} seg first ac p) =
      let same : v' ≡ i = ground (arith, none v', first.first i) in
      record {
        a' = a';
        e = e;
        es = es;
        rows = refl;
        seg = rw (← same) seg;
        acut = rw (← same) ac;
        rest = rw (← same) p;
      }

  push_segment_total :
      (segments : List SegmentEntry) (e : SegmentEntry)
      → 0 < e.video_sample_count
      → 0 < e.audio_sample_count
      → push_segment segments e ≡ ok (segments ++ (e ∷ []))
  unfolding push_segment
  push_segment_total segments e hv ha = ground arith

  close_segment_total :
      (here : ℕ) (s c : State)
      → Closes audio vts ats nominal here s c
      → close_segment audio vts ats nominal here s ≡ ok c
  unfolding close_segment
  close_segment_total here s c cl =
      let entry = active_entry audio vts ats nominal here s cl.a in
      ground (
        arith,
        cl.scaled,
        cl.advanced,
        cl.state,
        push_segment_total s.segments entry cl.video_some cl.audio_some,
      )

  step_open :
      (i : ℕ) (x : RawSampleEntry) (s : State)
      → i < u32_mod
      → s.v_dts + x.dts_delta < u64_mod
      → closes audio vts ats nominal i x s ≡ false
      → split_step audio vts ats nominal i x s ≡ ok (record s { v_dts = s.v_dts + x.dts_delta })
  unfolding split_step
  step_open i x s hi fits e = ground arith

  step_closing :
      (i : ℕ) (x : RawSampleEntry) (s c : State)
      → i < u32_mod
      → c.v_dts + x.dts_delta < u64_mod
      → closes audio vts ats nominal i x s ≡ true
      → close_segment audio vts ats nominal i s ≡ ok c
      → split_step audio vts ats nominal i x s ≡ ok (record c { v_dts = c.v_dts + x.dts_delta })
  unfolding split_step
  step_closing i x s c hi fits e h = ground arith

  loop_cons :
      (i : ℕ) (x : RawSampleEntry) (rest : List RawSampleEntry) (s m : State)
      → split_step audio vts ats nominal i x s ≡ ok m
      → split_loop audio vts ats nominal i (x ∷ rest) s
        ≡ split_loop audio vts ats nominal (i + 1) rest m
  unfolding split_loop
  loop_cons i x rest s m e = rw e

  -- Both tracks fit their counters, also when the video time is scaled to the audio's.
  pub record Fits : Type 0 where
    pub video_timescale_pos : 0 < vts
    pub video_count : length video < u32_mod
    pub audio_count : length audio < u32_mod
    pub video_time : dts video (length video) < u64_mod
    pub audio_time : dts audio (length audio) < u64_mod
    pub scaled_time : dts video (length video) * ats ≤ 18446744073709551615 * vts

  module _ (f : Fits) where
    -- A round that has to close the segment does.
    closing_round :
        (i : ℕ) (x : RawSampleEntry) (s : State) (a' : ℕ) (e : SegmentEntry)
        → get_elem? video i ≡ some x
        → i < length video
        → Inv video audio vts ats nominal f.video_timescale_pos i s
        → IsSegment video audio vts ats nominal s.v_start i s.a_start a' e
        → IsAudioCut video audio vts ats nominal i s.a_start a'
        → (t : ℕ) × Closes audio vts ats nominal i s (closed_state audio vts ats nominal i s a' t)
    closing_round i x s a' e here inside inv seg ac =
        let pos = f.video_timescale_pos in
        let below = dts_mono video i (length video) (omega (arith, inside)) in
        let (target, scaled) =
          scale_dts_ceil_total s.v_dts (dts video (length video)) vts ats pos
            (omega (arith, inv.v_time)) f.scaled_time in
        let at_start : s.a_dts ≡ dts audio s.a_cursor =
          inv.a_time ∙ ap (dts audio) (sym inv.a_cursor) in
        let (p, run) =
          advance_loop_total audio (drop s.a_cursor audio) s.a_cursor s.a_dts target refl at_start
            f.audio_time in
        let advanced : advance_audio_to audio s.a_cursor s.a_dts target ≡ ok p =
          unfold advance_audio_to in run in
        let st =
          advance_audio_to-Stops audio s.a_cursor s.a_dts target {c' = p.0} {t' = p.1}
            (omega (arith, inv.a_cursor, inv.a_inside)) at_start advanced in
        let same : p.0 ≡ a' =
          audio_cut_unique target i s.a_cursor p.0 p.1 a'
            (λ y. rw (← inv.v_time) (scale_dts_ceil_lem s.v_dts vts ats target y pos scaled)) st
            (rw inv.a_cursor ac) in
        (
          p.1,
          record {
            target = target;
            a = a';
            t = p.1;
            scaled = scaled;
            advanced = advanced ∙ ap (λ (k : ℕ). ok (k, p.1)) same;
            video_some = omega (arith, seg.video_some, seg.video_count);
            audio_some = omega (arith, seg.audio_some, seg.audio_count);
            state = refl;
          },
        )

    run :
        (rest : List RawSampleEntry) (i v a : ℕ) (s : State) (new : List SegmentEntry)
        → drop i video ≡ rest
        → i ≤ length video
        → s.v_start ≡ v
        → s.a_start ≡ a
        → Inv video audio vts ats nominal f.video_timescale_pos i s
        → Partition video audio vts ats nominal v a new
        → (s' : State) × (split_loop audio vts ats nominal i rest s ≡ ok s')
          × (push_segment s'.segments (tail_entry (length video) (length audio) s')
              ≡ ok (s.segments ++ new))
    run [] i v a s _ d le ev ea inv (tail {e} seg uncut) =
        let entry =
          entry_eq s seg ev ea (inv.v_base ∙ ap (dts video) ev) (inv.a_base ∙ ap (dts audio) ea) in
        (
          s,
          unfold split_loop in refl,
          rw entry (push_segment_total s.segments e seg.video_some seg.audio_some),
        )
    run [] i v a s _ d le ev ea inv (cut {v' = v'} seg first ac p) =
        absurd (ground (arith, drop-eq-nil i video d, inv.uncut v'))
    run (x ∷ rest) i v a s new d le ev ea inv p =
        let (here, next, inside) = drop-eq-cons i video d in
        let step = dts-step video i here in
        let bound = dts_mono video (i + 1) (length video) (omega (arith, inside)) in
        elim (Bool-cases (closes audio vts ats nominal i x s)) [
          | inl closing ↦
              let pos = f.video_timescale_pos in
              let (lo, may) =
                closes-MayCut video audio vts ats nominal pos i x s here closing inv in
              let row : CutHere i s.v_start s.a_start new =
                cut_here i lo inside may inv.uncut (rw (ev, ea) p) in
              let (t, cl) = closing_round i x s row.a' row.e here inside inv row.seg row.acut in
              let c = closed_state audio vts ats nominal i s row.a' t in
              let m = record c { v_dts = c.v_dts + x.dts_delta } in
              let entry : active_entry audio vts ats nominal i s row.a' ≡ row.e =
                entry_eq s row.seg refl refl inv.v_base inv.a_base in
              let same : s.segments ++ (active_entry audio vts ats nominal i s row.a' ∷ row.es)
                  ≡ s.segments ++ new =
                ap (λ l. s.segments ++ l) (ap (λ r. r ∷ row.es) entry ∙ sym row.rows) in
              let (s', looped, pushed) =
                run rest (i + 1) i row.a' m row.es next (omega (arith, inside)) refl refl
                  (next-Inv video audio vts ats nominal pos i x s c here inside closing inv cl m
                    refl)
                  row.rest in
              (
                s',
                loop_cons i x rest s m (
                      step_closing i x s c (omega (arith, inside, f.video_count))
                        (omega (arith, inv.v_time, step, bound, f.video_time)) closing
                        (close_segment_total i s c cl))
                    ∙ looped,
                pushed ∙ ap ok (append_assoc s.segments _ row.es ∙ same),
              )
          | inr open_still ↦
              let m = record s { v_dts = s.v_dts + x.dts_delta } in
              let kept =
                Inv-keep video audio vts ats nominal f.video_timescale_pos i x s here open_still
                  inv in
              let (s', looped, pushed) =
                run rest (i + 1) v a m new next (omega (arith, inside)) ev ea kept p in
              (
                s',
                loop_cons i x rest s m (
                      step_open i x s (omega (arith, inside, f.video_count))
                        (omega (arith, inv.v_time, step, bound, f.video_time)) open_still)
                    ∙ looped,
                pushed,
              )
        ]

some_video : (video : List RawSampleEntry) → starts_sync video ≡ true → 0 < length video
some_video [] h = cc
some_video (x ∷ xs) h = omega arith

some_audio :
    {video audio : List RawSampleEntry} {vts ats nominal v a : ℕ} {segs : List SegmentEntry}
    → Partition video audio vts ats nominal v a segs
    → 0 < length audio
some_audio (tail seg uncut) = omega (arith, seg.audio_some, seg.audio_count)
some_audio (cut seg first ac p) = omega (arith, seg.audio_some, seg.audio_count, ac.inside)

-- Where both tracks fit their counters, the timescales and the duration pass the tests and the
-- first video sample is a sync sample, `split` returns every partition of the tracks that there is:
-- with `split-Partition`, it returns a table exactly if the table is the partition.
pub split_complete :
    (f64 : Float64) (video audio : List RawSampleEntry) (vts ats : ℕ) (secs : Float64.F f64)
    (segs : List SegmentEntry)
    → Fits video audio vts ats (nominal_ticks f64 secs vts)
    → 0 < ats
    → starts_sync video ≡ true
    → f64.is_finite secs && f64.is_positive secs ≡ true
    → Partition video audio vts ats (nominal_ticks f64 secs vts) 0 0 segs
    → split f64 video audio vts ats secs ≡ ok segs
unfolding split
split_complete f64 video audio vts ats secs segs f ap sync dur p =
    let nominal = nominal_ticks f64 secs vts in
    let (s', looped, pushed) =
      run video audio vts ats nominal f video 0 0 0 first_state segs refl (omega arith) refl refl
        (first-Inv video audio vts ats nominal f.video_timescale_pos) p in
    ground
      (arith, looped, pushed, some_video video sync, some_audio p, f.video_count, f.audio_count)
