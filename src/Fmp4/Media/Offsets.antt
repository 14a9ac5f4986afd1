-- ===== src/Fmp4/Media/Offsets.antt =====
-- What a player finds at the data offsets of a segment: ISO/IEC 14496-12 counts them from the start
-- of the `moof`.
use cmafly.Prelude.{
  ℕ, ◌+◌, ◌<◌, ◌≡◌, ap, sym, ◌∙◌, arith, Bool, List, [], ◌∷◌, ◌++◌, append_assoc, append-nil, piece,
  position, length, slice, codes, u32_mod, pieces_then, slice_then,
}
use cmafly.ByteOrder.{ByteOrder, read_u32, write_u32 as be_u32, be_sizes, length_be_u32}
use cmafly.Fmp4.Boxes.Appends.{mp4_box, mp4_box_lem}
use cmafly.Fmp4.Boxes.Holes.{Hole}
use cmafly.Fmp4.Media.Bytes.{total_size, styp, moof, media_segment}
use cmafly.Fmp4.Media.Written.{SegmentFits}
use cmafly.Fmp4.Media.Written.Sizes.{payload, length-payload}
use cmafly.Fmp4.Media.Written.Offsets.{length-moof}
use cmafly.Fmp4.Media.Written.Fragment.{length-styp}
use cmafly.Fmp4.Media.Written.Moof.{first_moof, first_video_traf, video-Hole, audio-Hole}
use cmafly.Index.Format.{SampleEntry, SegmentEntry}

-- Four bytes behind a front, in a `moof` between other bytes.
read-Hole :
    ⦃be : ByteOrder⦄ {f : List ℕ → List ℕ} {at : ℕ} (hole : Hole f at) (front rest : List ℕ)
    (n pos : ℕ)
    → n < u32_mod
    → pos ≡ length front + at
    → read_u32 (slice pos 4 (front ++ (f (be_u32 n) ++ rest))) ≡ n
read-Hole ⦃be = be⦄ {f} hole front rest n pos small place =
    let ps = front ∷ hole.before ∷ be_u32 n ∷ [] in
    let spread : front ++ (f (be_u32 n) ++ rest) ≡ pieces_then ps (hole.behind ++ rest) =
      ap (λ l. front ++ (l ++ rest)) (hole.around (be_u32 n) (length_be_u32 n))
      ∙ ap (λ l. front ++ l)
          (append_assoc hole.before (be_u32 n ++ hole.behind) rest
            ∙ ap (λ l. hole.before ++ l) (append_assoc (be_u32 n) hole.behind rest)) in
    ap (λ l. read_u32 (slice pos 4 l)) spread
    ∙ ap read_u32 (
        slice_then ps (hole.behind ++ rest) 2 pos 4 (omega (arith, place, hole.place))
          (sym (length_be_u32 n)))
    ∙ be.read-write_u32 n small

module _ ⦃be : ByteOrder⦄ (src : List ℕ) (idx : ℕ) (segment : SegmentEntry)
    (video audio : List SampleEntry) (ctts : Bool)
    (fits : SegmentFits src idx segment video audio ctts) where
  abbrev start : ℕ
  start = length (first_moof idx segment video audio ctts) + 8

  abbrev bytes : List ℕ
  bytes = media_segment idx segment video audio ctts src

  -- The pieces of a segment.
  abbrev parts : List (List ℕ)
  parts =
      styp
      ∷ moof idx segment video audio ctts (be_u32 start) (be_u32 (start + total_size video))
      ∷ be_u32 (8 + length (payload src video ++ payload src audio))
      ∷ codes "mdat"
      ∷ payload src video
      ∷ payload src audio
      ∷ []

  bytes-parts : bytes ≡ pieces_then parts []
  bytes-parts =
      let pv = payload src video in
      let pa = payload src audio in
      let m =
        moof idx segment video audio ctts (be_u32 start) (be_u32 (start + total_size video)) in
      ap (λ l. styp ++ (m ++ l)) (mp4_box_lem (codes "mdat") (pv ++ pa))
      ∙ ap (λ l. styp ++ (m ++ (be_u32 (8 + length (pv ++ pa)) ++ (codes "mdat" ++ (pv ++ l)))))
          (sym (append-nil pa))

  slice-parts :
      (i pos n : ℕ)
      → pos ≡ position parts i
      → n ≡ length (piece parts i)
      → slice pos n bytes ≡ piece parts i
  slice-parts i pos n at len = ap (slice pos n) bytes-parts ∙ slice_then parts [] i pos n at len

  moof_size :
      length (moof idx segment video audio ctts (be_u32 start) (be_u32 (start + total_size video)))
        + 8
      ≡ start
  moof_size = omega (
    arith,
    length-moof idx segment video audio ctts (be_u32 start) (be_u32 (start + total_size video))
        (length_be_u32 start) (length_be_u32 (start + total_size video)),
  )

  -- The four bytes at byte 84 of the `moof`, which starts at byte 24 of the segment, are the distance
  -- from the `moof` to the bytes of the video samples.
  pub video_data_offset_lem :
      slice (24 + read_u32 (slice 108 4 bytes)) (total_size video) bytes ≡ payload src video
  video_data_offset_lem =
      let mdat = mp4_box (codes "mdat") (payload src video ++ payload src audio) in
      let offset : read_u32 (slice 108 4 bytes) ≡ start =
        read-Hole (video-Hole idx segment video audio ctts (be_u32 (start + total_size video))) styp
          mdat start 108 (omega (arith, fits.offsets)) (omega (arith, length-styp)) in
      slice-parts 4 (24 + read_u32 (slice 108 4 bytes)) (total_size video)
        (omega (be_sizes, offset, moof_size, length-styp))
        (sym (length-payload src video fits.video_in))

  -- The data offset of the audio track stands in the `traf` behind that of the video track.
  pub audio_data_offset_lem :
      let at = 108 + length (first_video_traf idx segment video audio ctts) in
      slice (24 + read_u32 (slice at 4 bytes)) (total_size audio) bytes ≡ payload src audio
  audio_data_offset_lem =
      let at = 108 + length (first_video_traf idx segment video audio ctts) in
      let mdat = mp4_box (codes "mdat") (payload src video ++ payload src audio) in
      let offset : read_u32 (slice at 4 bytes) ≡ start + total_size video =
        read-Hole (audio-Hole idx segment video audio ctts (be_u32 start) (length_be_u32 start))
          styp mdat (start + total_size video) at (omega (arith, fits.offsets))
          (omega (arith, length-styp)) in
      slice-parts 5 (24 + read_u32 (slice at 4 bytes)) (total_size audio)
        (omega (be_sizes, offset, moof_size, length-styp, length-payload src video fits.video_in))
        (sym (length-payload src audio fits.audio_in))
