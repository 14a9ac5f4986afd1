-- ===== src/Fmp4/Init/Written.antt =====
-- What write_init_segment writes.
pub mod Boxes
mod Tests
use cmafly.Prelude.{
  ℕ, ◌+◌, ◌<◌, ◌≡◌, refl, ap, arith, ◌==◌, if◌then◌else◌, Bool, true, false, none, List, [], ◌∷◌,
  ◌++◌, length, length-append, codes, u32_mod, u64_mod,
}
use cmafly.Error.{ok}
use cmafly.ByteOrder.{ByteOrder, be_sizes}
use cmafly.Sink.{Sink, Holds}
use cmafly.Fmp4.Writer.{Writer, pure, write_all}
use cmafly.Fmp4.Writer.Appends.{
  Appends, pure-Appends, write_all-Appends, then-Appends, else-Appends,
}
use cmafly.Fmp4.Boxes.Appends.{mp4_box, small_box-Appends, length-mp4_box}
use cmafly.Fmp4.Init.Boxes.{video_default_sample_flags, audio_default_sample_flags}
use cmafly.Fmp4.Init.{
  write_video_minf, write_audio_minf, write_video_mdia, write_audio_mdia, write_elst,
  write_video_trak, write_audio_trak, write_mvex, write_moov, write_init_segment,
}
use cmafly.Fmp4.Init.Bytes.{
  ftyp, mvhd, tkhd, mdhd, hdlr, vmhd, smhd, dinf, stbl, mdia, video_trak, audio_trak, trex, moov,
  init_segment,
}
use cmafly.Fmp4.Init.Written.Boxes.{
  within, first, rest, write_ftyp-Appends, write_mvhd-Appends, write_tkhd-Appends,
  write_mdhd-Appends, write_hdlr-Appends, write_vmhd-Appends, write_smhd-Appends,
  write_dinf-Appends, write_stbl-Appends, write_trex-Appends,
}
use cmafly.Index.View.Types.{IndexView, VideoTrackMeta, AudioTrackMeta}

module _ {W : Type 0} ⦃sink : Sink W⦄ ⦃be : ByteOrder⦄ where
  -- A `mdia` around its `minf`, and a `trak` around its `mdia`.
  write_video_mdia-Appends :
      (meta : VideoTrackMeta)
      → let bytes =
          mdia meta.timescale (codes "vide") (codes "VideoHandler") vmhd meta.sample_entry in
        length bytes < u32_mod → Appends {W = W} (write_video_mdia meta) bytes (λ n. tt)
  unfolding write_video_mdia write_video_minf
  write_video_mdia-Appends meta small =
      let header = mdhd meta.timescale in
      let handler = hdlr (codes "vide") (codes "VideoHandler") in
      let s1 = within (codes "mdia") _ small in
      let s2 = rest header _ s1 in
      let s3 = rest handler _ s2 in
      let s4 = within (codes "minf") _ s3 in
      let s5 = rest vmhd _ s4 in
      small_box-Appends (codes "mdia") _
        (then-Appends (write_mdhd-Appends meta.timescale (first header _ s1)) (
          then-Appends
            (write_hdlr-Appends (codes "vide") (codes "VideoHandler") (first handler _ s2))
            (small_box-Appends (codes "minf") _
              (then-Appends (write_vmhd-Appends (first vmhd _ s4)) (
                then-Appends (write_dinf-Appends (first dinf _ s5))
                  (write_stbl-Appends meta.sample_entry (rest dinf _ s5))))
              refl s3)))
        refl small

  write_audio_mdia-Appends :
      (meta : AudioTrackMeta)
      → let bytes =
          mdia meta.timescale (codes "soun") (codes "SoundHandler") smhd meta.sample_entry in
        length bytes < u32_mod → Appends {W = W} (write_audio_mdia meta) bytes (λ n. tt)
  unfolding write_audio_mdia write_audio_minf
  write_audio_mdia-Appends meta small =
      let header = mdhd meta.timescale in
      let handler = hdlr (codes "soun") (codes "SoundHandler") in
      let s1 = within (codes "mdia") _ small in
      let s2 = rest header _ s1 in
      let s3 = rest handler _ s2 in
      let s4 = within (codes "minf") _ s3 in
      let s5 = rest smhd _ s4 in
      small_box-Appends (codes "mdia") _
        (then-Appends (write_mdhd-Appends meta.timescale (first header _ s1)) (
          then-Appends
            (write_hdlr-Appends (codes "soun") (codes "SoundHandler") (first handler _ s2))
            (small_box-Appends (codes "minf") _
              (then-Appends (write_smhd-Appends (first smhd _ s4)) (
                then-Appends (write_dinf-Appends (first dinf _ s5))
                  (write_stbl-Appends meta.sample_entry (rest dinf _ s5))))
              refl s3)))
        refl small

  -- An edit list that is not there has no bytes.
  write_elst-Appends : (elst : List ℕ) → Appends {W = W} (write_elst elst) elst (λ n. tt)
  write_elst-Appends [] = pure-Appends tt
  write_elst-Appends (b ∷ bs) =
      else-Appends (length (b ∷ bs) == 0) _ _ (ground arith) (write_all-Appends (b ∷ bs))

  write_video_trak-Appends :
      (meta : VideoTrackMeta)
      → length (video_trak meta) < u32_mod
      → Appends {W = W} (write_video_trak meta) (video_trak meta) (λ n. tt)
  unfolding write_video_trak
  write_video_trak-Appends meta small =
      let header = tkhd 1 false meta.width meta.height in
      let s1 = within (codes "trak") _ small in
      small_box-Appends (codes "trak") _
        (then-Appends (write_tkhd-Appends 1 false meta.width meta.height (first header _ s1)) (
          then-Appends (write_elst-Appends meta.elst)
            (write_video_mdia-Appends meta (rest meta.elst _ (rest header _ s1)))))
        refl small

  write_audio_trak-Appends :
      (meta : AudioTrackMeta)
      → length (audio_trak meta) < u32_mod
      → Appends {W = W} (write_audio_trak meta) (audio_trak meta) (λ n. tt)
  unfolding write_audio_trak
  write_audio_trak-Appends meta small =
      let header = tkhd 2 true 0 0 in
      let s1 = within (codes "trak") _ small in
      small_box-Appends (codes "trak") _
        (then-Appends (write_tkhd-Appends 2 true 0 0 (first header _ s1)) (
          then-Appends (write_elst-Appends meta.elst)
            (write_audio_mdia-Appends meta (rest meta.elst _ (rest header _ s1)))))
        refl small

  write_moov-Appends :
      (index : IndexView)
      → length (moov index) < u32_mod
      → Appends {W = W} (write_moov index) (moov index) (λ n. tt)
  unfolding write_moov write_mvex
  write_moov-Appends index small =
      let video = trex 1 video_default_sample_flags in
      let audio = trex 2 audio_default_sample_flags in
      let s1 = within (codes "moov") _ small in
      let s2 = rest mvhd _ s1 in
      let s3 = rest (video_trak index.video_track) _ s2 in
      let s4 = rest (audio_trak index.audio_track) _ s3 in
      let s5 = within (codes "mvex") _ s4 in
      small_box-Appends (codes "moov") _
        (then-Appends (write_mvhd-Appends (first mvhd _ s1)) (
          then-Appends
            (write_video_trak-Appends index.video_track (first (video_trak index.video_track) _ s2))
            (then-Appends
              (write_audio_trak-Appends index.audio_track
                (first (audio_trak index.audio_track) _ s3))
              (small_box-Appends (codes "mvex") _
                (then-Appends
                  (write_trex-Appends 1 video_default_sample_flags (first video audio s5))
                  (write_trex-Appends 2 audio_default_sample_flags (rest video audio s5)))
                refl s4))))
        refl small

-- Over any writer, `write_init_segment` appends the init segment to what was written, where its size
-- fits 32 bits: `ftyp`, and a `moov` with the header, a track for video and one for audio with the
-- sample entry and the edit list of the index as they are, and the defaults of their fragments.
pub write_init_segment_lem :
    {W : Type 0} ⦃sink : Sink W⦄ ⦃be : ByteOrder⦄ (index : IndexView) (w : W) (b : List ℕ)
    → Holds w b (length b)
    → length (init_segment index) < u32_mod
    → length b + length (init_segment index) < u64_mod
    → (w' : W) × Holds w' (b ++ init_segment index) (length (b ++ init_segment index))
      × (write_init_segment index w ≡ ok (tt, w'))
unfolding write_init_segment init_segment
write_init_segment_lem index w b h fits small =
    (then-Appends (write_ftyp-Appends (first ftyp (moov index) fits))
        (write_moov-Appends index (rest ftyp (moov index) fits))).run
      w b h small
