-- ===== src/Fmp4/Media/Written/Fragment.antt =====
-- The boxes in front of the samples, as they are first written.
use cmafly.Prelude.{
  ℕ, ◌+◌, ◌-◌, ◌^◌, ◌<◌, ◌≡◌, refl, ap, sym, ◌∙◌, arith, if◌then◌else◌, Bool, true, false, List, [],
  ◌∷◌, ◌++◌, append-nil, append_assoc, length, length-append, min, codes, flat_map, u32_mod, lt→ltb,
  ℤ, to_u32, All,
}
use cmafly.ByteOrder.{ByteOrder, write_u32 as be_u32, write_u64 as be_u64, be_sizes}
use cmafly.Sink.{Sink}
use cmafly.Fmp4.Writer.{Writer, pure, each, write_i32}
use cmafly.Fmp4.Writer.Appends.{
  Appends, pure-Appends, write_all-Appends, stream_position-Appends, bind-Appends, then-Appends,
  lift-Appends, each-Appends, as_Appends,
}
use cmafly.Fmp4.Boxes.Appends.{
  mp4_box, length-mp4_box, version_flags, small_box-Appends, write_full_box_header-Appends,
}
use cmafly.Fmp4.Media.Fragment.{
  video_trun_base_flags, audio_trun_flags, trun_flag_sample_cts_offset,
  video_first_sample_flags_sync, write_styp, write_mfhd, write_tfhd, write_tfdt, write_traf,
  write_video_entry, write_audio_entry, write_video_trun, write_audio_trun,
}
use cmafly.Fmp4.Media.Bytes.{
  styp, mfhd, tfhd, tfdt, traf, video_entry, audio_entry, video_trun_head, audio_trun_head,
  video_trun, audio_trun,
}
use cmafly.Index.Format.{SampleEntry}

no_condition : {X : Type 0} (xs : List X) → All (λ x. Unit {0}) xs
no_condition [] = tt
no_condition (x ∷ xs) = (tt, no_condition xs)

module _ ⦃be : ByteOrder⦄ where
  pub length-styp : length styp ≡ 24
  unfolding styp
  length-styp = omega (
    be_sizes,
    length-mp4_box (codes "styp") (codes "msdh" ++ (be_u32 0 ++ (codes "msdh" ++ codes "cmfc"))),
    length-append (be_u32 0) (codes "msdh" ++ codes "cmfc"),
  )

  -- A full box of four bytes more, or of eight.
  length-full_box :
      (fourcc rest : List ℕ) (version flags : ℕ)
      → length fourcc ≡ 4
      → length (mp4_box fourcc (version_flags version flags ++ rest)) ≡ 12 + length rest
  length-full_box fourcc rest version flags four = omega (
    be_sizes,
    length-mp4_box fourcc (version_flags version flags ++ rest),
    length-append (version_flags version flags) rest,
  )

  pub length-mfhd : (n : ℕ) → length (mfhd n) ≡ 16
  unfolding mfhd
  length-mfhd n = omega (be_sizes, length-full_box (codes "mfhd") (be_u32 n) 0 0 refl)

  pub length-tfhd : (n : ℕ) → length (tfhd n) ≡ 16
  unfolding tfhd
  length-tfhd n = omega (be_sizes, length-full_box (codes "tfhd") (be_u32 n) 0 131072 refl)

  pub length-tfdt : (n : ℕ) → length (tfdt n) ≡ 20
  unfolding tfdt
  length-tfdt n = omega (be_sizes, length-full_box (codes "tfdt") (be_u64 n) 1 0 refl)

  pub length-video_trun_head :
      (samples : List SampleEntry) (has_ctts : Bool) → length (video_trun_head samples has_ctts) ≡ 8
  unfolding video_trun_head
  length-video_trun_head samples has_ctts =
      omega (be_sizes, length-append (version_flags _ _) (be_u32 (length samples)))

  pub length-audio_trun_head : (samples : List SampleEntry) → length (audio_trun_head samples) ≡ 8
  unfolding audio_trun_head
  length-audio_trun_head samples =
      omega (be_sizes, length-append (version_flags 0 audio_trun_flags) (be_u32 (length samples)))

  pub length-traf :
      (track_id dts : ℕ) (trun : List ℕ) → length (traf track_id dts trun) ≡ 44 + length trun
  length-traf track_id dts trun = omega (
    arith,
    length-mp4_box (codes "traf") (tfhd track_id ++ (tfdt dts ++ trun)),
    length-append (tfhd track_id) (tfdt dts ++ trun),
    length-append (tfdt dts) trun,
    length-tfhd track_id,
    length-tfdt dts,
  )

module _ {W : Type 0} ⦃sink : Sink W⦄ ⦃be : ByteOrder⦄ where
  pub write_styp-Appends : Appends {W = W} write_styp styp (λ n. tt)
  unfolding write_styp styp
  write_styp-Appends =
      small_box-Appends (codes "styp") _
        (then-Appends (write_all-Appends (codes "msdh")) (
          then-Appends (write_all-Appends (be_u32 0))
            (then-Appends (write_all-Appends (codes "msdh")) (write_all-Appends (codes "cmfc")))))
        refl (omega (arith, length-styp))

  pub write_mfhd-Appends :
      (idx : ℕ) → Appends {W = W} (write_mfhd idx) (mfhd (min (idx + 1) (2 ^ 32 - 1))) (λ n. tt)
  unfolding write_mfhd mfhd
  write_mfhd-Appends idx =
      small_box-Appends (codes "mfhd") _
        (then-Appends (write_full_box_header-Appends 0 0) (write_all-Appends _)) refl
        (omega (arith, length-mfhd (min (idx + 1) (2 ^ 32 - 1))))

  write_tfhd-Appends :
      (track_id : ℕ) → Appends {W = W} (write_tfhd track_id) (tfhd track_id) (λ n. tt)
  unfolding write_tfhd tfhd
  write_tfhd-Appends track_id =
      small_box-Appends (codes "tfhd") _
        (then-Appends (write_full_box_header-Appends _ _) (write_all-Appends _)) refl
        (omega (arith, length-tfhd track_id))

  write_tfdt-Appends : (dts : ℕ) → Appends {W = W} (write_tfdt dts) (tfdt dts) (λ n. tt)
  unfolding write_tfdt tfdt
  write_tfdt-Appends dts =
      small_box-Appends (codes "tfdt") _
        (then-Appends (write_full_box_header-Appends _ _) (write_all-Appends _)) refl
        (omega (arith, length-tfdt dts))

  -- The position that the `trun` returns is passed on.
  pub write_traf-Appends :
      (track_id dts : ℕ) (trun : Writer W ℕ) {out : List ℕ}
      → Appends trun out (λ n. n + 16)
      → length (traf track_id dts out) < u32_mod
      → Appends (write_traf track_id dts trun) (traf track_id dts out) (λ n. n + 60)
  unfolding write_traf
  write_traf-Appends track_id dts trun {out} a small =
      as_Appends
        (small_box-Appends (codes "traf") _
          (then-Appends (write_tfhd-Appends track_id) (then-Appends (write_tfdt-Appends dts) a))
          refl small)
        refl λ n. omega (arith, length-tfhd track_id, length-tfdt dts)

  write_cts-Appends :
      (has_ctts : Bool) (cts : ℤ)
      → Appends {W = W}
          (if has_ctts then write_i32 cts else pure tt)
          (if has_ctts then be_u32 (to_u32 cts) else [])
          (λ n. tt)
  write_cts-Appends true cts = write_all-Appends _
  write_cts-Appends false cts = pure-Appends tt

  video_entries-Appends :
      (has_ctts : Bool) (samples : List SampleEntry)
      → Appends {W = W}
          (each (write_video_entry has_ctts) samples)
          (flat_map (video_entry has_ctts) samples)
          (λ n. tt)
  video_entries-Appends has_ctts samples =
      each-Appends (λ s. Unit {0}) _ (video_entry has_ctts) samples (no_condition samples)
        λ s _.
          then-Appends (write_all-Appends _)
            (then-Appends (write_all-Appends _) (write_cts-Appends has_ctts s.cts_offset))

  audio_entries-Appends :
      (samples : List SampleEntry)
      → Appends {W = W} (each write_audio_entry samples) (flat_map audio_entry samples) (λ n. tt)
  audio_entries-Appends samples =
      each-Appends (λ s. Unit {0}) _ audio_entry samples (no_condition samples)
        λ s _. then-Appends (write_all-Appends _) (write_all-Appends _)

  pub write_video_trun-Appends :
      (samples : List SampleEntry) (has_ctts : Bool)
      → length samples < u32_mod
      → length (video_trun samples has_ctts (be_u32 0)) < u32_mod
      → Appends {W = W}
          (write_video_trun samples has_ctts)
          (video_trun samples has_ctts (be_u32 0))
          (λ n. n + 16)
  unfolding write_video_trun video_trun_head
  write_video_trun-Appends samples has_ctts count small =
      let flags =
        version_flags (if has_ctts then 1 else 0)
          (video_trun_base_flags + (if has_ctts then trun_flag_sample_cts_offset else 0)) in
      let entries = flat_map (video_entry has_ctts) samples in
      let sync = be_u32 video_first_sample_flags_sync in
      as_Appends
        (small_box-Appends (codes "trun") _
          (as_Appends
            (then-Appends (write_full_box_header-Appends _ _) (
              bind-Appends _
                (lift-Appends _ (length samples) (rw (lt→ltb (length samples) u32_mod count)))
                λ m. then-Appends (write_all-Appends _) (
                  bind-Appends _ stream_position-Appends λ n. then-Appends (write_all-Appends _) (
                    then-Appends (write_all-Appends _)
                      (then-Appends (video_entries-Appends has_ctts samples) (pure-Appends n))))))
            (ap (λ r. flags ++ (be_u32 (length samples) ++ (be_u32 0 ++ (sync ++ r))))
                (append-nil entries)
              ∙ sym (append_assoc flags (be_u32 (length samples)) (be_u32 0 ++ (sync ++ entries))))
            λ n. refl)
          refl small)
        refl λ n. omega be_sizes

  pub write_audio_trun-Appends :
      (samples : List SampleEntry)
      → length samples < u32_mod
      → length (audio_trun samples (be_u32 0)) < u32_mod
      → Appends {W = W} (write_audio_trun samples) (audio_trun samples (be_u32 0)) (λ n. n + 16)
  unfolding write_audio_trun audio_trun_head
  write_audio_trun-Appends samples count small =
      let flags = version_flags 0 audio_trun_flags in
      let entries = flat_map audio_entry samples in
      as_Appends
        (small_box-Appends (codes "trun") _
          (as_Appends
            (then-Appends (write_full_box_header-Appends _ _) (
              bind-Appends _
                (lift-Appends _ (length samples) (rw (lt→ltb (length samples) u32_mod count)))
                λ m. then-Appends (write_all-Appends _) (
                  bind-Appends _ stream_position-Appends λ n.
                    then-Appends (write_all-Appends _)
                      (then-Appends (audio_entries-Appends samples) (pure-Appends n)))))
            (ap (λ r. flags ++ (be_u32 (length samples) ++ (be_u32 0 ++ r))) (append-nil entries)
              ∙ sym (append_assoc flags (be_u32 (length samples)) (be_u32 0 ++ entries)))
            λ n. refl)
          refl small)
        refl λ n. omega be_sizes
