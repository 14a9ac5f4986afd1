-- ===== src/Segment/Splitter/Table.antt =====
-- The whole loop of `split` against the specification.
use cmafly.Prelude.{ℕ, ◌+◌, ◌≤◌, ◌<◌, ◌≡◌, inl, inr, refl, sym, ap, ◌∙◌, subst}
use cmafly.Prelude.{true, false, arith, List, [], ◌∷◌, ◌++◌, append_assoc, length, drop}
use cmafly.Prelude.{drop-eq-cons, drop-eq-nil, get_elem?, some}
use cmafly.Error.{ok}
use cmafly.Demux.Sample.{RawSampleEntry}
use cmafly.Index.Format.{SegmentEntry}
use cmafly.Segment.Splitter.{State, split_loop, push_segment, tail_entry}
use cmafly.Segment.Splitter.{first_state}
use cmafly.Segment.Splitter.Spec.{
  dts, dts-step, dts-zero, is_sync_entry, MayCut, IsSegment, IsFirstCut, IsAudioCut, Partition,
  tail, cut,
}
use cmafly.Segment.Splitter.Cuts.{scale_dts_ceil_lem, Stops, advance_audio_to-Stops}
use cmafly.Segment.Splitter.Rounds.{
  closes, split_step-cases, split_loop-cons, closed_state, active_entry, Closes,
  close_segment-Closes, push_segment-eq-ok,
}

module _ (video audio : List RawSampleEntry) (vts ats nominal : ℕ) (pos : 0 < vts) where
  -- What the loop keeps at sample `i`.
  pub record Inv (i : ℕ) (s : State) : Type 0 where
    pub v_le : s.v_start ≤ i
    pub v_base : s.v_base_dts ≡ dts video s.v_start
    pub v_time : s.v_dts ≡ dts video i
    pub uncut : (k : ℕ) → s.v_start < k → k < i → ¬ MayCut video nominal s.v_start k
    pub a_inside : s.a_start ≤ length audio
    pub a_cursor : s.a_cursor ≡ s.a_start
    pub a_base : s.a_base_dts ≡ dts audio s.a_start
    pub a_time : s.a_dts ≡ dts audio s.a_start

  pub first-Inv : Inv 0 first_state
  first-Inv = record {
    v_le = omega arith;
    v_base = sym (dts-zero video);
    v_time = sym (dts-zero video);
    uncut = λ k lo hi. omega arith;
    a_inside = omega arith;
    a_cursor = refl;
    a_base = sym (dts-zero audio);
    a_time = sym (dts-zero audio);
  }

  pub Inv-keep :
      (i : ℕ) (x : RawSampleEntry) (s : State)
      → get_elem? video i ≡ some x
      → closes audio vts ats nominal i x s ≡ false
      → Inv i s
      → Inv (i + 1) (record s { v_dts = s.v_dts + x.dts_delta })
  Inv-keep i x s here open_still inv = record {
    v_le = omega (arith, inv.v_le);
    v_base = inv.v_base;
    v_time = omega (arith, inv.v_time, dts-step video i here);
    uncut = λ k lo hi may.
        ground (arith, inv.uncut k lo, inv.v_time, inv.v_base, ap is_sync_entry here);
    a_inside = inv.a_inside;
    a_cursor = inv.a_cursor;
    a_base = inv.a_base;
    a_time = inv.a_time;
  }

  pub closes-MayCut :
      (i : ℕ) (x : RawSampleEntry) (s : State)
      → get_elem? video i ≡ some x
      → closes audio vts ats nominal i x s ≡ true
      → Inv i s
      → (s.v_start < i) × MayCut video nominal s.v_start i
  closes-MayCut i x s here closing inv =
      (ground arith, (ap is_sync_entry here ∙ ground arith, ground (arith, inv.v_time, inv.v_base)))

  module _ (i : ℕ) (x : RawSampleEntry) (s c : State) (here : get_elem? video i ≡ some x)
      (inside : i < length video) (closing : closes audio vts ats nominal i x s ≡ true)
      (inv : Inv i s) (cl : Closes audio vts ats nominal i s c) where
    stops : Stops audio cl.target s.a_cursor cl.a cl.t
    stops =
        advance_audio_to-Stops audio s.a_cursor s.a_dts cl.target
          (omega (arith, inv.a_cursor, inv.a_inside))
          (inv.a_time ∙ ap (dts audio) (sym inv.a_cursor)) cl.advanced

    pub closed-IsFirstCut : IsFirstCut video audio vts ats nominal s.v_start i
    closed-IsFirstCut = record {
      behind = (closes-MayCut i x s here closing inv).0;
      inside = inside;
      may = (closes-MayCut i x s here closing inv).1;
      first = inv.uncut;
    }

    pub closed-IsSegment :
        IsSegment video audio vts ats nominal s.v_start i s.a_start cl.a
          (active_entry audio vts ats nominal i s cl.a)
    closed-IsSegment = record {
      video_start = refl;
      video_count = omega (arith, inv.v_le);
      video_some = cl.video_some;
      video_dts = inv.v_base;
      audio_start = refl;
      audio_count = omega (arith, cl.audio_some);
      audio_some = cl.audio_some;
      audio_dts = inv.a_base;
    }

    pub closed-IsAudioCut : IsAudioCut video audio vts ats nominal i s.a_start cl.a
    closed-IsAudioCut = record {
      behind = omega (arith, cl.audio_some);
      inside = stops.inside;
      before = λ k lo hi. ground (
        arith,
        inv.v_time,
        inv.a_cursor,
        stops.before k,
        scale_dts_ceil_lem s.v_dts vts ats cl.target (dts audio k) pos cl.scaled,
      );
      past = ground (
        arith,
        inv.v_time,
        stops.past,
        scale_dts_ceil_lem s.v_dts vts ats cl.target (dts audio cl.a) pos cl.scaled,
      );
    }

    pub next-Inv : (s' : State) → s' ≡ record c { v_dts = c.v_dts + x.dts_delta } → Inv (i + 1) s'
    next-Inv s' e =
        let next = λ (n : State). record n { v_dts = n.v_dts + x.dts_delta } in
        subst (Inv (i + 1)) (sym (e ∙ ap next cl.state)) (record {
          v_le = omega arith;
          v_base = inv.v_time;
          v_time = omega (arith, inv.v_time, dts-step video i here);
          uncut = λ k lo hi may. omega arith;
          a_inside = stops.inside;
          a_cursor = refl;
          a_base = stops.time;
          a_time = stops.time;
        })

  pub split_loop-Partition :
      (rest : List RawSampleEntry) (i : ℕ) (s s' : State) (segs : List SegmentEntry)
      → drop i video ≡ rest
      → i ≤ length video
      → Inv i s
      → split_loop audio vts ats nominal i rest s ≡ ok s'
      → push_segment s'.segments (tail_entry (length video) (length audio) s') ≡ ok segs
      → (new : List SegmentEntry) × (segs ≡ s.segments ++ new)
        × Partition video audio vts ats nominal s.v_start s.a_start new
  split_loop-Partition [] i s s' segs d le inv e p =
      let same : s ≡ s' = unfold split_loop in cc in
      let (vp, ap', out) =
        push_segment-eq-ok s.segments (tail_entry (length video) (length audio) s) segs
          (rw same p) in
      let end = drop-eq-nil i video d in
      (
        tail_entry (length video) (length audio) s ∷ [],
        sym out,
        tail
            (record {
              video_start = refl;
              video_count = omega (arith, vp);
              video_some = vp;
              video_dts = inv.v_base;
              audio_start = refl;
              audio_count = omega (arith, ap');
              audio_some = ap';
              audio_dts = inv.a_base;
            })
            (λ k lo hi. inv.uncut k lo (omega arith)),
      )
  split_loop-Partition (x ∷ rest) i s s' segs d le inv e p =
      let (here, next, inside) = drop-eq-cons i video d in
      let (m, more, step) = split_loop-cons audio vts ats nominal i x rest s s' e in
      elim (split_step-cases audio vts ats nominal i x s m step) [
        | inl (open_still, em) ↦
            split_loop-Partition rest (i + 1) (record s { v_dts = s.v_dts + x.dts_delta }) s' segs
              next (omega (arith, inside)) (Inv-keep i x s here open_still inv) (rw (← em) more) p
        | inr (closing, (c, closed, em)) ↦
            let cl = close_segment-Closes audio vts ats nominal i s c closed in
            let next_of = λ (n : State). record n { v_dts = n.v_dts + x.dts_delta } in
            let after = next_of (closed_state audio vts ats nominal i s cl.a cl.t) in
            let state = ap next_of cl.state in
            let (new, out, table) =
              split_loop-Partition rest (i + 1) after s' segs next (omega (arith, inside))
                (next-Inv i x s c here inside closing inv cl after (sym state))
                (subst (λ n. split_loop audio vts ats nominal (i + 1) rest n ≡ ok s') (em ∙ state)
                  more)
                p in
            (
              active_entry audio vts ats nominal i s cl.a ∷ new,
              out ∙ append_assoc s.segments _ new,
              cut (closed-IsSegment i x s c here inside closing inv cl)
                  (closed-IsFirstCut i x s c here inside closing inv cl)
                  (closed-IsAudioCut i x s c here inside closing inv cl) table,
            )
      ]
