-- ===== src/Fmp4/Media/Written/Moof.antt =====
-- The `moof` as it is first written, and its two data offsets.
use cmafly.Prelude.{
  ℕ, ◌+◌, ◌-◌, ◌^◌, ◌≤◌, ◌<◌, ◌≡◌, refl, ap, arith, if◌then◌else◌, to_u32, Bool, List, [], ◌∷◌,
  ◌++◌, append-nil, length, length-append, min, codes, flat_map, u32_mod,
}
use cmafly.ByteOrder.{ByteOrder, write_u32 as be_u32, be_sizes, length_be_u32}
use cmafly.Sink.{Sink}
use cmafly.Fmp4.Writer.Appends.{Appends, pure-Appends, bind-Appends, then-Appends, as_Appends}
use cmafly.Fmp4.Boxes.Appends.{small_box-Appends, length-mp4_box}
use cmafly.Fmp4.Boxes.Holes.{Hole, moved, same_length, here, inside_front, in_front_of, boxed}
use cmafly.Fmp4.Media.{write_moof}
use cmafly.Fmp4.Media.Fragment.{video_first_sample_flags_sync}
use cmafly.Fmp4.Media.Bytes.{
  mfhd, tfhd, tfdt, traf, video_entry, audio_entry, video_trun_head, audio_trun_head, video_trun,
  audio_trun, video_traf, audio_traf, moof,
}
use cmafly.Fmp4.Media.Written.Fragment.{
  write_mfhd-Appends, write_traf-Appends, write_video_trun-Appends, write_audio_trun-Appends,
  length-mfhd, length-tfhd, length-tfdt, length-traf, length-video_trun_head,
  length-audio_trun_head,
}
use cmafly.Index.Format.{SampleEntry, SegmentEntry}

count_le :
    {X : Type 0} (f : X → List ℕ) (xs : List X)
    → ((x : X) → 0 < length (f x))
    → length xs ≤ length (flat_map f xs)
count_le f [] some = omega arith
count_le f (x ∷ xs) some =
    omega (arith, some x, count_le f xs some, length-append (f x) (flat_map f xs))

pair_eq : {a b c d : ℕ} → a ≡ b → c ≡ d → ◌≡◌ {A = ℕ × ℕ} (a, c) (b, d)
pair_eq e f = cc

module _ ⦃be : ByteOrder⦄ where
  video_count_le :
      (samples : List SampleEntry) (ctts : Bool) (off : List ℕ)
      → length samples ≤ length (video_trun samples ctts off)
  video_count_le samples ctts off =
      let entries = flat_map (video_entry ctts) samples in
      let sync = be_u32 video_first_sample_flags_sync in
      let rest = off ++ (sync ++ entries) in
      omega (
        arith,
        length-mp4_box (codes "trun") (video_trun_head samples ctts ++ rest),
        length-append (video_trun_head samples ctts) rest,
        length-append off (sync ++ entries),
        length-append sync entries,
        count_le (video_entry ctts) samples λ s. omega (
          be_sizes,
          length-append (be_u32 s.dts_delta)
              (be_u32 s.size ++ (if ctts then be_u32 (to_u32 s.cts_offset) else [])),
        ),
      )

  audio_count_le :
      (samples : List SampleEntry) (off : List ℕ) → length samples ≤ length (audio_trun samples off)
  audio_count_le samples off =
      let entries = flat_map audio_entry samples in
      omega (
        arith,
        length-mp4_box (codes "trun") (audio_trun_head samples ++ (off ++ entries)),
        length-append (audio_trun_head samples) (off ++ entries),
        length-append off entries,
        count_le audio_entry samples
            λ s. omega (be_sizes, length-append (be_u32 s.dts_delta) (be_u32 s.size)),
      )

  -- The data offset of a `trun` is at byte 16, that of a `traf` at byte 60.
  video_traf-Hole :
      (track_id dts : ℕ) (samples : List SampleEntry) (ctts : Bool)
      → Hole (λ x. traf track_id dts (video_trun samples ctts x)) 60
  video_traf-Hole track_id dts samples ctts =
      moved
        (boxed (codes "traf") refl (
          inside_front (tfhd track_id) (
            inside_front (tfdt dts) (
              boxed (codes "trun") refl (
                inside_front (video_trun_head samples ctts) (
                  here (
                    be_u32 video_first_sample_flags_sync
                    ++ flat_map (video_entry ctts) samples)))))))
        (omega (arith, length-tfhd track_id, length-tfdt dts, length-video_trun_head samples ctts))

  audio_traf-Hole :
      (track_id dts : ℕ) (samples : List SampleEntry)
      → Hole (λ x. traf track_id dts (audio_trun samples x)) 60
  audio_traf-Hole track_id dts samples =
      moved
        (boxed (codes "traf") refl (
          inside_front (tfhd track_id) (
            inside_front (tfdt dts) (
              boxed (codes "trun") refl
                (inside_front (audio_trun_head samples) (here (flat_map audio_entry samples)))))))
        (omega (arith, length-tfhd track_id, length-tfdt dts, length-audio_trun_head samples))

module _ ⦃be : ByteOrder⦄ (idx : ℕ) (segment : SegmentEntry) (video audio : List SampleEntry)
    (ctts : Bool) where
  abbrev pub first_moof : List ℕ
  first_moof = moof idx segment video audio ctts (be_u32 0) (be_u32 0)

  abbrev pub first_video_traf : List ℕ
  first_video_traf = video_traf idx segment video audio ctts (be_u32 0)

  pub write_moof-Appends :
      {W : Type 0} ⦃sink : Sink W⦄
      → length first_moof < u32_mod
      → Appends {W = W}
          (write_moof idx segment video audio ctts)
          first_moof
          (λ n. (n + 84, n + (84 + length first_video_traf)))
  unfolding write_moof
  write_moof-Appends small =
      let vt = video_trun video ctts (be_u32 0) in
      let at = audio_trun audio (be_u32 0) in
      let vf = video_traf idx segment video audio ctts (be_u32 0) in
      let af = audio_traf idx segment video audio ctts (be_u32 0) in
      let sequence = mfhd (min (idx + 1) (2 ^ 32 - 1)) in
      let sequence_size = length-mfhd (min (idx + 1) (2 ^ 32 - 1)) in
      let size : length first_moof ≡ 24 + (length vf + length af) = omega (
        arith,
        length-mp4_box (codes "moof") (sequence ++ (vf ++ af)),
        length-append sequence (vf ++ af),
        length-append vf af,
        sequence_size,
      ) in
      let video_size : length vf ≡ 44 + length vt = length-traf 1 segment.video_base_dts vt in
      let audio_size : length af ≡ 44 + length at = length-traf 2 segment.audio_base_dts at in
      let video_count : length video < u32_mod =
        omega (arith, video_count_le video ctts (be_u32 0)) in
      let audio_count : length audio < u32_mod = omega (arith, audio_count_le audio (be_u32 0)) in
      as_Appends
        (small_box-Appends (codes "moof") _
          (as_Appends
            (then-Appends (write_mfhd-Appends idx) (
              bind-Appends _
                (write_traf-Appends 1 segment.video_base_dts _
                  (write_video_trun-Appends video ctts video_count (omega arith)) (omega arith))
                λ n.
                  bind-Appends _
                    (write_traf-Appends 2 segment.audio_base_dts _
                      (write_audio_trun-Appends audio audio_count (omega arith)) (omega arith))
                    λ m. pure-Appends (n + 60, m + 60)))
            (ap (λ l. sequence ++ (vf ++ l)) (append-nil af)) λ n. refl)
          refl small)
        refl λ n. pair_eq (omega (arith, sequence_size)) (omega (arith, sequence_size))

  pub video-Hole : (y : List ℕ) → Hole (λ x. moof idx segment video audio ctts x y) 84
  video-Hole y =
      let sequence = min (idx + 1) (2 ^ 32 - 1) in
      moved
        (boxed (codes "moof") refl (
          inside_front (mfhd sequence) (
            in_front_of (audio_traf idx segment video audio ctts y)
              (video_traf-Hole 1 segment.video_base_dts video ctts))))
        (omega (arith, length-mfhd sequence))

  pub audio-Hole :
      (x : List ℕ)
      → length x ≡ 4
      → Hole (λ y. moof idx segment video audio ctts x y) (84 + length first_video_traf)
  audio-Hole x four =
      let sequence = min (idx + 1) (2 ^ 32 - 1) in
      let hole = video_traf-Hole 1 segment.video_base_dts video ctts in
      moved
        (boxed (codes "moof") refl (
          inside_front (mfhd sequence) (
            inside_front (video_traf idx segment video audio ctts x)
              (audio_traf-Hole 2 segment.audio_base_dts audio))))
        (omega (
          be_sizes,
          length-mfhd sequence,
          same_length hole x four,
          same_length hole (be_u32 0) (length_be_u32 0),
        ))
