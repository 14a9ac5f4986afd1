-- ===== src/Index/RoundTrip/Meta.antt =====
-- The track sections, read back.
use Prim.Native.String.{String}
use cmafly.Prelude.{ℕ, zero, suc, ◌+◌, ◌<◌, ◌≡◌, refl, ap, sym, subst, ◌∙◌, arith, false}
use cmafly.Prelude.{
  List, [], ◌∷◌, ◌++◌, length, drop, slice, replicate, u32_mod, length-append, length-replicate,
}
use cmafly.Prelude.{concat, length-concat, slice_at, drop_behind, bytes_eq_refl, get_or}
use cmafly.Error.{ok}
use cmafly.ByteOrder.{ByteOrder, read_u32, write_u32, be_sizes}
use cmafly.Demux.Moov.Types.{ParsedTrack}
use cmafly.Index.View.Types.{VideoTrackMeta, AudioTrackMeta}
use cmafly.Index.View.Meta.{
  any_nonzero, validate_trailing_padding, parse_blobs, parse_video_meta, parse_audio_meta,
}
use cmafly.Index.Builder.Encode.{encode_video_meta, encode_audio_meta}

-- The numbers of a track fit their types.
pub record TrackFits (t : ParsedTrack) : Type 0 where
  pub timescale : t.timescale < u32_mod
  pub fourcc : length t.fourcc ≡ 4
  pub width : t.width < u32_mod
  pub height : t.height < u32_mod
  pub sample_rate : t.sample_rate < u32_mod

abbrev pub video_meta : ParsedTrack → List ℕ → List ℕ → VideoTrackMeta
video_meta t sample_entry elst = record {
  timescale = t.timescale;
  fourcc = t.fourcc;
  width = t.width;
  height = t.height;
  sample_entry = sample_entry;
  elst = elst;
}

abbrev pub audio_meta : ParsedTrack → List ℕ → List ℕ → AudioTrackMeta
audio_meta t sample_entry elst = record {
  timescale = t.timescale;
  fourcc = t.fourcc;
  sample_rate = t.sample_rate;
  channel_count = t.channel_count;
  sample_entry = sample_entry;
  elst = elst;
}

zeros : (k : ℕ) → any_nonzero (replicate k 0) ≡ false
zeros zero = refl
zeros (suc k) = zeros k

-- A byte as a slice of one.
slice_get : (xs : List ℕ) (i : ℕ) {b : ℕ} → slice i 1 xs ≡ b ∷ [] → get_or xs i 0 ≡ b
slice_get [] zero e = cc
slice_get [] (suc i) e = cc
slice_get (x ∷ xs) zero e = cc
slice_get (x ∷ xs) (suc i) e = slice_get xs i e

padding_ok :
    (section : String) (k : ℕ) → k < 8 → validate_trailing_padding section (replicate k 0) ≡ ok tt
unfolding validate_trailing_padding
padding_ok section k h = ground (arith, zeros k, length-replicate {A = ℕ} k 0)

module _ ⦃be : ByteOrder⦄ where
  blobs_ok :
      (section : String) (payload : List ℕ) (l e k : ℕ)
      → l < u32_mod
      → e < u32_mod
      → k < 8
      → read_u32 (slice 16 4 payload) ≡ l
      → read_u32 (slice (20 + l) 4 payload) ≡ e
      → drop (20 + l + 4 + e) payload ≡ replicate k 0
      → length payload ≡ 20 + l + 4 + e + k
      → parse_blobs section payload ≡ ok (slice 20 l payload, slice (20 + l + 4) e payload)
  unfolding parse_blobs
  blobs_ok section payload l e k hl he hk rl re behind len =
      ground (arith, rl, re, behind, len, padding_ok section k hk)

  module _ (t : ParsedTrack) (sample_entry elst : List ℕ) (k : ℕ) where
    abbrev video_pieces : List (List ℕ)
    video_pieces =
        write_u32 t.timescale
        ∷ t.fourcc
        ∷ write_u32 t.width
        ∷ write_u32 t.height
        ∷ write_u32 (length sample_entry)
        ∷ sample_entry
        ∷ write_u32 (length elst)
        ∷ elst
        ∷ []

    parse_video_meta-written :
        TrackFits t
        → length sample_entry < u32_mod
        → length elst < u32_mod
        → k < 8
        → parse_video_meta (concat video_pieces ++ replicate k 0)
          ≡ ok (video_meta t sample_entry elst)
    unfolding parse_video_meta
    parse_video_meta-written f hl he hk =
        let l = length sample_entry in
        let e = length elst in
        let ps = video_pieces in
        let pad : List ℕ = replicate k 0 in
        let four = f.fourcc in
        let at = λ (i pos n : ℕ). slice_at ps pad i pos n in
        let end : length (concat ps) ≡ 20 + l + 4 + e = length-concat ps ∙ omega (be_sizes, four) in
        let size : length (concat ps ++ pad) ≡ 20 + l + 4 + e + k =
          length-append (concat ps) pad ∙ omega (arith, end, length-replicate {A = ℕ} k 0) in
        let blobs =
          blobs_ok "VideoTrackMeta" (concat ps ++ pad) l e k hl he hk
            (ap read_u32 (at 4 16 4 (omega (be_sizes, four)) (omega be_sizes))
              ∙ be.read-write_u32 l hl)
            (ap read_u32 (at 6 (20 + l) 4 (omega (be_sizes, four)) (omega be_sizes))
              ∙ be.read-write_u32 e he)
            (drop_behind ps pad (20 + l + 4 + e) (sym end)) size in
        ground (
          arith,
          size,
          blobs,
          at 0 0 4 (omega be_sizes) (omega be_sizes),
          at 1 4 4 (omega be_sizes) (sym four),
          at 2 8 4 (omega (be_sizes, four)) (omega be_sizes),
          at 3 12 4 (omega (be_sizes, four)) (omega be_sizes),
          at 5 20 l (omega (be_sizes, four)) refl,
          at 7 (20 + l + 4) e (omega (be_sizes, four)) refl,
          be.read-write_u32 t.timescale f.timescale,
          be.read-write_u32 t.width f.width,
          be.read-write_u32 t.height f.height,
        )

    abbrev audio_pieces : List (List ℕ)
    audio_pieces =
        write_u32 t.timescale
        ∷ t.fourcc
        ∷ write_u32 t.sample_rate
        ∷ (t.channel_count ∷ [])
        ∷ replicate 3 0
        ∷ write_u32 (length sample_entry)
        ∷ sample_entry
        ∷ write_u32 (length elst)
        ∷ elst
        ∷ []

    parse_audio_meta-written :
        TrackFits t
        → length sample_entry < u32_mod
        → length elst < u32_mod
        → k < 8
        → parse_audio_meta (concat audio_pieces ++ replicate k 0)
          ≡ ok (audio_meta t sample_entry elst)
    unfolding parse_audio_meta
    parse_audio_meta-written f hl he hk =
        let l = length sample_entry in
        let e = length elst in
        let ps = audio_pieces in
        let pad : List ℕ = replicate k 0 in
        let four = f.fourcc in
        let at = λ (i pos n : ℕ). slice_at ps pad i pos n in
        let end : length (concat ps) ≡ 20 + l + 4 + e = length-concat ps ∙ omega (be_sizes, four) in
        let size : length (concat ps ++ pad) ≡ 20 + l + 4 + e + k =
          length-append (concat ps) pad ∙ omega (arith, end, length-replicate {A = ℕ} k 0) in
        let blobs =
          blobs_ok "AudioTrackMeta" (concat ps ++ pad) l e k hl he hk
            (ap read_u32 (at 5 16 4 (omega (be_sizes, four)) (omega be_sizes))
              ∙ be.read-write_u32 l hl)
            (ap read_u32 (at 7 (20 + l) 4 (omega (be_sizes, four)) (omega be_sizes))
              ∙ be.read-write_u32 e he)
            (drop_behind ps pad (20 + l + 4 + e) (sym end)) size in
        ground (
          arith,
          size,
          blobs,
          at 0 0 4 (omega be_sizes) (omega be_sizes),
          at 1 4 4 (omega be_sizes) (sym four),
          at 2 8 4 (omega (be_sizes, four)) (omega be_sizes),
          slice_get (concat ps ++ pad) 12 (at 3 12 1 (omega (be_sizes, four)) refl),
          at 4 13 3 (omega (be_sizes, four)) refl,
          bytes_eq_refl (replicate 3 0),
          at 6 20 l (omega (be_sizes, four)) refl,
          at 8 (20 + l + 4) e (omega (be_sizes, four)) refl,
          be.read-write_u32 t.timescale f.timescale,
          be.read-write_u32 t.sample_rate f.sample_rate,
        )

  module _ (t : ParsedTrack) (sample_entry elst : List ℕ) where
    -- An encoded video section, followed by fewer than eight bytes of padding, is read back.
    pub parse-encode_video_meta :
        (k : ℕ) (bytes : List ℕ)
        → TrackFits t
        → k < 8
        → encode_video_meta t sample_entry elst ≡ ok bytes
        → parse_video_meta (bytes ++ replicate k 0) ≡ ok (video_meta t sample_entry elst)
    unfolding encode_video_meta
    parse-encode_video_meta k bytes f hk e =
        let same : concat (video_pieces t sample_entry elst k) ≡ bytes = ground (arith, e) in
        subst (λ b. parse_video_meta (b ++ replicate k 0) ≡ ok (video_meta t sample_entry elst))
          same
          (parse_video_meta-written t sample_entry elst k f (ground (arith, e)) (ground (arith, e))
            hk)

    pub length-encode_video_meta :
        (bytes : List ℕ)
        → encode_video_meta t sample_entry elst ≡ ok bytes
        → TrackFits t
        → length bytes ≡ 24 + length sample_entry + length elst
    unfolding encode_video_meta
    length-encode_video_meta bytes e f =
        let same : concat (video_pieces t sample_entry elst 0) ≡ bytes = ground (arith, e) in
        subst (λ b. length b ≡ 24 + length sample_entry + length elst) same
          (length-concat (video_pieces t sample_entry elst 0) ∙ omega (be_sizes, f.fourcc))

    pub parse-encode_audio_meta :
        (k : ℕ) (bytes : List ℕ)
        → TrackFits t
        → k < 8
        → encode_audio_meta t sample_entry elst ≡ ok bytes
        → parse_audio_meta (bytes ++ replicate k 0) ≡ ok (audio_meta t sample_entry elst)
    unfolding encode_audio_meta
    parse-encode_audio_meta k bytes f hk e =
        let same : concat (audio_pieces t sample_entry elst k) ≡ bytes = ground (arith, e) in
        subst (λ b. parse_audio_meta (b ++ replicate k 0) ≡ ok (audio_meta t sample_entry elst))
          same
          (parse_audio_meta-written t sample_entry elst k f (ground (arith, e)) (ground (arith, e))
            hk)

    pub length-encode_audio_meta :
        (bytes : List ℕ)
        → encode_audio_meta t sample_entry elst ≡ ok bytes
        → TrackFits t
        → length bytes ≡ 24 + length sample_entry + length elst
    unfolding encode_audio_meta
    length-encode_audio_meta bytes e f =
        let same : concat (audio_pieces t sample_entry elst 0) ≡ bytes = ground (arith, e) in
        subst (λ b. length b ≡ 24 + length sample_entry + length elst) same
          (length-concat (audio_pieces t sample_entry elst 0) ∙ omega (be_sizes, f.fourcc))

    module _ (hl : length sample_entry < u32_mod) (he : length elst < u32_mod) where
      pub encode_video_meta_complete :
          (bytes : List ℕ) × (encode_video_meta t sample_entry elst ≡ ok bytes)
      unfolding encode_video_meta
      encode_video_meta_complete =
          (concat (video_pieces t sample_entry elst 0), ground (arith, hl, he))

      pub encode_audio_meta_complete :
          (bytes : List ℕ) × (encode_audio_meta t sample_entry elst ≡ ok bytes)
      unfolding encode_audio_meta
      encode_audio_meta_complete =
          (concat (audio_pieces t sample_entry elst 0), ground (arith, hl, he))
