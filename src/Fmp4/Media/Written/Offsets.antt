-- ===== src/Fmp4/Media/Written/Offsets.antt =====
-- The data offsets of a written `moof`.
use cmafly.Prelude.{
  ℕ, ◌+◌, ◌<◌, ◌≡◌, refl, sym, ◌∙◌, subst, arith, Bool, List, ◌++◌, length, length-append, u64_mod,
}
use cmafly.ByteOrder.{ByteOrder, write_u32 as be_u32, length_be_u32}
use cmafly.Sink.{Sink, Holds}
use cmafly.Fmp4.Writer.{seek_start}
use cmafly.Fmp4.Writer.Appends.{Leaves, position_step, seek_last}
use cmafly.Fmp4.Boxes.Holes.{same_length, fill_step}
use cmafly.Fmp4.Media.{write_data_offsets}
use cmafly.Fmp4.Media.Bytes.{moof}
use cmafly.Fmp4.Media.Written.Moof.{first_moof, first_video_traf, video-Hole, audio-Hole}
use cmafly.Index.Format.{SampleEntry, SegmentEntry}

module _ ⦃be : ByteOrder⦄ (idx : ℕ) (segment : SegmentEntry) (video audio : List SampleEntry)
    (ctts : Bool) where
  -- The size of a `moof` does not depend on its data offsets.
  pub length-moof :
      (x y : List ℕ)
      → length x ≡ 4
      → length y ≡ 4
      → length (moof idx segment video audio ctts x y)
        ≡ length (first_moof idx segment video audio ctts)
  length-moof x y fx fy =
      let z = be_u32 0 in
      let fz = length_be_u32 0 in
      let v = video-Hole idx segment video audio ctts y in
      let a = audio-Hole idx segment video audio ctts z fz in
      omega (arith, same_length v x fx, same_length v z fz, same_length a y fy, same_length a z fz)

  abbrev placed : List ℕ → List ℕ → List ℕ → List ℕ → List ℕ
  placed front rest x y = front ++ (moof idx segment video audio ctts x y ++ rest)

  length-placed :
      (front rest x y : List ℕ)
      → length x ≡ 4
      → length y ≡ 4
      → length (placed front rest x y)
        ≡ length front + (length (first_moof idx segment video audio ctts) + length rest)
  length-placed front rest x y fx fy = omega (
    arith,
    length-append front (moof idx segment video audio ctts x y ++ rest),
    length-append (moof idx segment video audio ctts x y) rest,
    length-moof x y fx fy,
  )

  -- The two data offsets are put in their places.
  pub write_data_offsets_lem :
      {W : Type 0} ⦃sink : Sink W⦄ (w : W) (front rest : List ℕ) (dv da : ℕ)
      → Holds w
          (placed front rest (be_u32 0) (be_u32 0))
          (length (placed front rest (be_u32 0) (be_u32 0)))
      → length (placed front rest (be_u32 0) (be_u32 0)) < u64_mod
      → Leaves
          (write_data_offsets
            (length front + 84)
            dv
            (length front + (84 + length (first_video_traf idx segment video audio ctts)))
            da
            w)
          (placed front rest (be_u32 dv) (be_u32 da))
          (length (placed front rest (be_u32 dv) (be_u32 da)))
          tt
  unfolding write_data_offsets
  write_data_offsets_lem w front rest dv da h small =
      let z = be_u32 0 in
      let fz = length_be_u32 0 in
      let x = be_u32 dv in
      let fx = length_be_u32 dv in
      let y = be_u32 da in
      let fy = length_be_u32 da in
      let after = length (placed front rest z z) in
      let size0 = length-placed front rest z z fz fz in
      let size1 = length-placed front rest x z fx fz in
      let size2 = length-placed front rest x y fx fy in
      let same : after ≡ length (placed front rest x y) = size0 ∙ sym size2 in
      position_step _ w (placed front rest z z) after h (
        fill_step (video-Hole idx segment video audio ctts z) _ w front z x rest after _ h refl fz
          fx small
          λ w1 h1.
            fill_step (audio-Hole idx segment video audio ctts x fx) _ w1 front z y rest _ _ h1 refl
              fz fy (omega (arith, size0, size1))
              λ w2 h2.
                subst (λ n. Leaves (seek_start after w2) (placed front rest x y) n tt) same
                  (seek_last w2 (placed front rest x y) _ after h2 (omega (arith, same))))
