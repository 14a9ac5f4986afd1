-- ===== src/Demux/Moov/Classify/Pair.antt =====
-- `classify_tracks` accepts exactly a video and an audio track, in either order.
use cmafly.Prelude.{ℕ, ◌≡◌, ◌⊎◌, inl, inr, refl, arith, true, false, Option, none, some}
use cmafly.Prelude.{List, [], ◌∷◌, length, bytes_eq, Bool-cases, bytes_eq→≡, ap, ◌∙◌}
use cmafly.Error.{ok}
use cmafly.Demux.Moov.Types.{UnclassifiedTrack, MoovParse, handler_video, handler_audio}
use cmafly.Demux.Moov.Classify.{
  classify_tracks, classify_loop, classify_step, classified, into_parsed, no_tracks,
}

-- The two tracks of a movie, in the order of the list.
abbrev pub IsPair : List UnclassifiedTrack → UnclassifiedTrack → UnclassifiedTrack → Type 0
IsPair tracks v a =
    (bytes_eq v.handler handler_video ≡ true)
    × (bytes_eq a.handler handler_audio ≡ true)
    × ((tracks ≡ v ∷ a ∷ []) ⊎ (tracks ≡ a ∷ v ∷ []))

classified-ok :
    (total : ℕ) (video audio : Option UnclassifiedTrack) (n_video n_audio : ℕ) (m : MoovParse)
    → classified total video audio n_video n_audio ≡ ok m
    → (total ≡ 2) × (n_video ≡ 1) × (n_audio ≡ 1)
unfolding classified
classified-ok total (some v) (some a) n_video n_audio m e = ground arith
classified-ok total (some v) none n_video n_audio m e = absurd cc
classified-ok total none audio n_video n_audio m e = absurd cc

two_tracks :
    (x y : UnclassifiedTrack) (m : MoovParse)
    → classify_tracks (x ∷ y ∷ []) ≡ ok m
    → (v : UnclassifiedTrack) × (a : UnclassifiedTrack) × IsPair (x ∷ y ∷ []) v a
      × (m ≡ record { video = into_parsed v; audio = into_parsed a })
unfolding classify_tracks classify_loop classify_step classified
two_tracks x y m e = elim (Bool-cases (bytes_eq x.handler handler_video)) [
  | inl xv ↦ (x, y, (xv, ground (arith, xv), inl refl), ground (arith, xv))
  | inr xo ↦ (y, x, (ground (arith, xo), ground (arith, xo), inr refl), ground (arith, xo))
]

classified_length :
    (tracks : List UnclassifiedTrack) (m : MoovParse)
    → classify_tracks tracks ≡ ok m
    → length tracks ≡ 2
unfolding classify_tracks
classified_length tracks m e =
    let s = classify_loop tracks no_tracks in
    (classified-ok (length tracks) s.video s.audio s.video_count s.audio_count m e).0

-- A movie that `classify_tracks` returns is made of a track with the video handler and a track with
-- the audio handler, and these are all the tracks.
pub classify_tracks-IsPair :
    (tracks : List UnclassifiedTrack) (m : MoovParse)
    → classify_tracks tracks ≡ ok m
    → (v : UnclassifiedTrack) × (a : UnclassifiedTrack) × IsPair tracks v a
      × (m ≡ record { video = into_parsed v; audio = into_parsed a })
classify_tracks-IsPair [] m e = absurd (omega (arith, classified_length [] m e))
classify_tracks-IsPair (x ∷ []) m e = absurd (omega (arith, classified_length (x ∷ []) m e))
classify_tracks-IsPair (x ∷ y ∷ []) m e = two_tracks x y m e
classify_tracks-IsPair (x ∷ y ∷ z ∷ r) m e =
    absurd (omega (arith, classified_length (x ∷ y ∷ z ∷ r) m e))

-- A list of a track with the video handler and a track with the audio handler, in either order, is
-- accepted.
pub classify_tracks_complete :
    (tracks : List UnclassifiedTrack) (v a : UnclassifiedTrack)
    → IsPair tracks v a
    → classify_tracks tracks ≡ ok (record { video = into_parsed v; audio = into_parsed a })
unfolding classify_tracks classify_loop classify_step classified
classify_tracks_complete tracks v a (is_v, is_a, inl same) =
    let other : bytes_eq a.handler handler_video ≡ false =
      ap (λ h. bytes_eq h handler_video) (bytes_eq→≡ a.handler handler_audio is_a) in
    ap classify_tracks same ∙ ground (arith, is_v, is_a, other)
classify_tracks_complete tracks v a (is_v, is_a, inr same) =
    let other : bytes_eq a.handler handler_video ≡ false =
      ap (λ h. bytes_eq h handler_video) (bytes_eq→≡ a.handler handler_audio is_a) in
    ap classify_tracks same ∙ ground (arith, is_v, is_a, other)
