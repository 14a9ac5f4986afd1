-- ===== src/Fmp4/Media/Written.antt =====
-- What write_media_segment writes.
pub mod Fragment
pub mod Copy
pub mod Moof
pub mod Sizes
pub mod Offsets
use cmafly.Prelude.{
  ℕ, ◌+◌, ◌-◌, ◌^◌, ◌≤◌, ◌<◌, ◌≡◌, if◌then◌else◌, refl, ap, sym, ◌∙◌, subst, arith, Bool, none,
  some, List, [], ◌∷◌, ◌++◌, append_assoc, append-nil, length, length-append, codes, flat_map,
  u32_mod, u64_mod, All, lt→ltb, le→ltb, ◌==◌, ◌||◌,
}
use cmafly.Prelude.{take, drop, length-take, length-drop, slice, get_elem?, true, false}
use cmafly.Error.{ok, ok_or, fail_if, PackagerError}
use cmafly.ByteOrder.{ByteOrder, write_u32 as be_u32, be_sizes, length_be_u32}
use cmafly.Demux.Source.{ReadAt}
use cmafly.Demux.Source.Exact.{Reads}
use cmafly.Sink.{Sink, Holds}
use cmafly.Fmp4.Writer.{Writer}
use cmafly.Fmp4.Writer.Appends.{
  Leaves, Appends, then-Appends, each-Appends, lift_step, append_step, position_step, seek_last,
}
use cmafly.Fmp4.Boxes.Appends.{mp4_box, length-mp4_box, in_box-Appends}
use cmafly.Fmp4.Boxes.Holes.{same_length, fill_step}
use cmafly.Fmp4.Media.{write_mdat, write_data_offsets, write_segment, write_media_segment}
use cmafly.Fmp4.Media.Samples.{
  sum_loop, sum_sizes, mdat_size, compute_data_offset, slice_segment_samples, any_cts_offset,
}
use cmafly.Fmp4.Media.Bytes.{total_size, sample_bytes, styp, moof, media_segment}
use cmafly.Fmp4.Media.Written.Copy.{InSource, stream_sample-Appends}
use cmafly.Fmp4.Media.Written.Fragment.{write_styp-Appends, length-styp}
use cmafly.Fmp4.Media.Written.Moof.{
  first_moof, first_video_traf, write_moof-Appends, video-Hole, audio-Hole,
}
use cmafly.Index.Format.{SampleEntry, SegmentEntry}
use cmafly.Index.View.Types.{IndexView}
use cmafly.Fmp4.Media.Written.Sizes.{
  payload, length-payload, sum_sizes-eq, mdat_size-eq, compute_data_offset-eq,
}
use cmafly.Fmp4.Media.Written.Offsets.{length-moof, write_data_offsets_lem}

module _ ⦃be : ByteOrder⦄ (src : List ℕ) (idx : ℕ) (segment : SegmentEntry)
    (video audio : List SampleEntry) (ctts : Bool) where
  -- The samples lie in the source, and the sizes and data offsets fit 32 bits.
  pub record SegmentFits : Type 0 where
    pub video_in : All (InSource src) video
    pub audio_in : All (InSource src) audio
    pub offsets : length (first_moof idx segment video audio ctts) + 8 + total_size video < 2 ^ 31
    pub mdat : 8 + (total_size video + total_size audio) < u32_mod

payload_size :
    (src : List ℕ) (video audio : List SampleEntry)
    → All (InSource src) video
    → All (InSource src) audio
    → length (payload src video ++ payload src audio) ≡ total_size video + total_size audio
payload_size src video audio iv ia = omega (
  arith,
  length-append (payload src video) (payload src audio),
  length-payload src video iv,
  length-payload src audio ia,
)

module _ {W : Type 0} ⦃sink : Sink W⦄ ⦃be : ByteOrder⦄ (src : List ℕ) (reader : ReadAt)
    (reads : Reads src reader) where
  write_mdat-Appends :
      (video audio : List SampleEntry) (total : ℕ)
      → All (InSource src) video
      → All (InSource src) audio
      → total ≡ 8 + (total_size video + total_size audio)
      → total < u32_mod
      → Appends {W = W}
          (write_mdat reader total video audio)
          (mp4_box (codes "mdat") (payload src video ++ payload src audio))
          (λ n. tt)
  unfolding write_mdat
  write_mdat-Appends video audio total iv ia e small =
      let size = payload_size src video audio iv ia in
      in_box-Appends (codes "mdat") (some total) _
        (then-Appends
          (each-Appends (InSource src) _ (sample_bytes src) video iv
            (stream_sample-Appends src reader reads))
          (each-Appends (InSource src) _ (sample_bytes src) audio ia
            (stream_sample-Appends src reader reads)))
        refl (omega (arith, size)) (λ n same. let eq : total ≡ n = cc in omega (arith, size, eq, e))

  pub write_segment_lem :
      (idx : ℕ) (segment : SegmentEntry) (video audio : List SampleEntry) (ctts : Bool) (w : W)
      (b : List ℕ)
      → SegmentFits src idx segment video audio ctts
      → Holds w b (length b)
      → length b + length (media_segment idx segment video audio ctts src) < u64_mod
      → Leaves
          (write_segment reader idx segment video audio ctts w)
          (b ++ media_segment idx segment video audio ctts src)
          (length (b ++ media_segment idx segment video audio ctts src))
          tt
  unfolding write_segment
  write_segment_lem idx segment video audio ctts w b fits h small =
      let z = be_u32 0 in
      let v = total_size video in
      let a = total_size audio in
      let first = first_moof idx segment video audio ctts in
      let start = length first + 8 in
      let mdat = mp4_box (codes "mdat") (payload src video ++ payload src audio) in
      let ready = moof idx segment video audio ctts (be_u32 start) (be_u32 (start + v)) in
      let first_size =
        length-moof idx segment video audio ctts (be_u32 start) (be_u32 (start + v))
          (length_be_u32 start) (length_be_u32 (start + v)) in
      let b1 = b ++ styp in
      let b2 = b1 ++ first in
      let s1 = length-append b styp in
      let s2 = length-append b1 first in
      let s3 = length-append b2 mdat in
      let whole : length (media_segment idx segment video audio ctts src)
          ≡ 24 + (length first + length mdat) =
        omega (
          arith,
          length-append styp (ready ++ mdat),
          length-append ready mdat,
          length-styp,
          first_size,
        ) in
      lift_step (sum_sizes video) _ w (sum_sizes-eq video (omega (arith, fits.mdat))) (
        lift_step (sum_sizes audio) _ w (sum_sizes-eq audio (omega (arith, fits.mdat))) (
          append_step _ w b write_styp-Appends h (omega (arith, length-styp, whole)) λ w1 h1.
            position_step _ w1 b1 (length b1) h1 (
              append_step _ w1 b1
                (write_moof-Appends idx segment video audio ctts (omega (arith, fits.offsets))) h1
                (omega (arith, s1, length-styp, whole))
                λ w2 h2. position_step _ w2 b2 (length b2) h2 (
                  lift_step (mdat_size v a) _ w2 (mdat_size-eq v a fits.mdat) (
                    append_step _ w2 b2
                      (write_mdat-Appends video audio (8 + (v + a)) fits.video_in fits.audio_in refl
                        fits.mdat)
                      h2 (omega (arith, s1, s2, length-styp, whole))
                      λ w3 h3.
                        lift_step (compute_data_offset (length b2 + 8) (length b1) 0) _ w3
                          (compute_data_offset-eq (length b2 + 8) (length b1) 0 start
                            (omega (arith, s2)) (omega arith) (omega (arith, fits.offsets)))
                          (lift_step (compute_data_offset (length b2 + 8) (length b1) v) _ w3
                            (compute_data_offset-eq (length b2 + 8) (length b1) v (start + v)
                              (omega (arith, s2)) (omega arith) (omega (arith, fits.offsets)))
                            (subst
                              (λ c.
                                Leaves
                                  (write_data_offsets (length b1 + 84) start
                                    (length b1
                                      + (84
                                          + length (first_video_traf idx segment video audio ctts)))
                                    (start + v) w3)
                                  c (length c) tt)
                              (append_assoc b styp (ready ++ mdat))
                              (write_data_offsets_lem idx segment video audio ctts w3 b1 mdat start
                                (start + v)
                                (subst (λ c. Holds w3 c (length c)) (append_assoc b1 first mdat) h3)
                                (omega (
                                  arith,
                                  s1,
                                  length-append b1 (first ++ mdat),
                                  length-append first mdat,
                                  length-styp,
                                  whole,
                                ))))))))))

slice_segment_samples-eq :
    (table : List SampleEntry) (segment : SegmentEntry) (is_video : Bool) (start count : ℕ)
    → (if is_video then segment.video_sample_start else segment.audio_sample_start) ≡ start
    → (if is_video then segment.video_sample_count else segment.audio_sample_count) ≡ count
    → start + count ≤ length table
    → length table < u64_mod
    → slice_segment_samples table segment is_video ≡ ok (slice start count table)
unfolding slice_segment_samples
slice_segment_samples-eq table segment is_video start count es ec inside small =
    let size : start + count - start ≡ count = omega arith in
    rw (
      es,
      ec,
      lt→ltb (start + count) u64_mod (omega arith),
      le→ltb (length table) (start + count) inside,
      size,
    )

both_some : (m n : ℕ) (why : PackagerError) → 0 < m → 0 < n → fail_if (m == 0 || n == 0) why ≡ ok tt
both_some m n why hm hn = ground arith

-- The samples of a segment.
abbrev pub video_of : IndexView → SegmentEntry → List SampleEntry
video_of index segment =
    slice segment.video_sample_start segment.video_sample_count index.video_samples

abbrev pub audio_of : IndexView → SegmentEntry → List SampleEntry
audio_of index segment =
    slice segment.audio_sample_start segment.audio_sample_count index.audio_samples

-- The bytes of segment `idx` of an index.
unfoldable pub segment_bytes : ⦃be : ByteOrder⦄ → IndexView → ℕ → SegmentEntry → List ℕ → List ℕ
segment_bytes index idx segment src =
    media_segment idx segment (video_of index segment) (audio_of index segment)
      (any_cts_offset index.video_samples) src

-- Row `idx` of the segment table names samples of both tracks, which lie in the source and fit a
-- segment.
pub record Servable ⦃be : ByteOrder⦄ (index : IndexView) (idx : ℕ) (segment : SegmentEntry)
    (src : List ℕ) : Type 0 where
  pub found : get_elem? index.segments idx ≡ some segment
  pub video_some : 0 < segment.video_sample_count
  pub video_range :
      segment.video_sample_start + segment.video_sample_count ≤ length index.video_samples
  pub video_small : length index.video_samples < u64_mod
  pub audio_some : 0 < segment.audio_sample_count
  pub audio_range :
      segment.audio_sample_start + segment.audio_sample_count ≤ length index.audio_samples
  pub audio_small : length index.audio_samples < u64_mod
  pub fits :
      SegmentFits src idx segment
        (video_of index segment)
        (audio_of index segment)
        (any_cts_offset index.video_samples)

-- For a segment whose samples are in the source and fit 32-bit sizes and offsets, over any reader of
-- the source and any writer, `write_media_segment` appends the segment to what was written: `styp`, a
-- `moof` whose data offsets are those of the samples, and an `mdat` of the bytes of the samples.
pub write_media_segment_lem :
    {W : Type 0} ⦃sink : Sink W⦄ ⦃be : ByteOrder⦄ (src : List ℕ) (reader : ReadAt)
    (index : IndexView) (idx : ℕ) (segment : SegmentEntry) (w : W) (b : List ℕ)
    → Reads src reader
    → Servable index idx segment src
    → Holds w b (length b)
    → length b + length (segment_bytes index idx segment src) < u64_mod
    → (w' : W) × Holds w'
        (b ++ segment_bytes index idx segment src)
        (length (b ++ segment_bytes index idx segment src))
      × (write_media_segment index idx reader w ≡ ok (tt, w'))
unfolding write_media_segment segment_bytes
write_media_segment_lem src reader index idx segment w b reads s h small =
    lift_step (ok_or (get_elem? index.segments idx) _) _ w (rw s.found) (
      lift_step (slice_segment_samples index.video_samples segment true) _ w
        (slice_segment_samples-eq index.video_samples segment true segment.video_sample_start
          segment.video_sample_count refl refl s.video_range s.video_small)
        (lift_step (slice_segment_samples index.audio_samples segment false) _ w
          (slice_segment_samples-eq index.audio_samples segment false segment.audio_sample_start
            segment.audio_sample_count refl refl s.audio_range s.audio_small)
          (lift_step
            (fail_if (length (video_of index segment) == 0 || length (audio_of index segment) == 0)
              _)
            _ w
            (both_some (length (video_of index segment)) (length (audio_of index segment)) _
              (omega (
                arith,
                length-take segment.video_sample_count
                    (drop segment.video_sample_start index.video_samples),
                length-drop segment.video_sample_start index.video_samples,
                s.video_some,
                s.video_range,
              ))
              (omega (
                arith,
                length-take segment.audio_sample_count
                    (drop segment.audio_sample_start index.audio_samples),
                length-drop segment.audio_sample_start index.audio_samples,
                s.audio_some,
                s.audio_range,
              )))
            (write_segment_lem src reader reads idx segment _ _ _ w b s.fits h small))))
