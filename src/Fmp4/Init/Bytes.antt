-- ===== src/Fmp4/Init/Bytes.antt =====
-- The bytes of the init segment, box by box, as ISO/IEC 14496-12 has them.
use cmafly.Prelude.{
  ℕ, if◌then◌else◌, Bool, true, false, List, [], ◌∷◌, ◌++◌, codes, flat_map, replicate, pieces_then,
}
use cmafly.ByteOrder.{ByteOrder, write_u16, write_u32, write_u64}
use cmafly.Fmp4.Boxes.Appends.{mp4_box, version_flags}
use cmafly.Fmp4.Init.Boxes.{
  identity_matrix, fixed_16_16, movie_timescale, next_track_id, tkhd_flags_enabled, language_und,
  video_default_sample_flags, audio_default_sample_flags,
}
use cmafly.Index.View.Types.{IndexView, VideoTrackMeta, AudioTrackMeta}

module _ ⦃be : ByteOrder⦄ where
  unfoldable pub matrix : List ℕ
  matrix = flat_map write_u32 identity_matrix

  unfoldable pub ftyp : List ℕ
  ftyp = mp4_box (codes "ftyp") (codes "cmfc" ++ (write_u32 0 ++ (codes "iso6" ++ codes "cmfc")))

  unfoldable pub mvhd : List ℕ
  mvhd = mp4_box (codes "mvhd") (
      pieces_then
        (version_flags 1 0
          ∷ write_u64 0
          ∷ write_u64 0
          ∷ write_u32 movie_timescale
          ∷ write_u64 0
          ∷ write_u32 65536
          ∷ write_u16 256
          ∷ write_u16 0
          ∷ write_u32 0
          ∷ write_u32 0
          ∷ [])
        (matrix ++ (flat_map write_u32 (replicate 6 0) ++ write_u32 next_track_id)))

  unfoldable pub tkhd : ℕ → Bool → ℕ → ℕ → List ℕ
  tkhd track_id is_audio width height = mp4_box (codes "tkhd") (
      pieces_then
        (version_flags 1 tkhd_flags_enabled
          ∷ write_u64 0
          ∷ write_u64 0
          ∷ write_u32 track_id
          ∷ write_u32 0
          ∷ write_u64 0
          ∷ write_u32 0
          ∷ write_u32 0
          ∷ write_u16 0
          ∷ write_u16 0
          ∷ write_u16 (if is_audio then 256 else 0)
          ∷ write_u16 0
          ∷ [])
        (matrix ++ (write_u32 (fixed_16_16 width) ++ write_u32 (fixed_16_16 height))))

  unfoldable pub mdhd : ℕ → List ℕ
  mdhd timescale = mp4_box (codes "mdhd") (
      pieces_then
        (version_flags 1 0
          ∷ write_u64 0
          ∷ write_u64 0
          ∷ write_u32 timescale
          ∷ write_u64 0
          ∷ write_u16 language_und
          ∷ [])
        (write_u16 0))

  unfoldable pub hdlr : List ℕ → List ℕ → List ℕ
  hdlr handler_type name = mp4_box (codes "hdlr") (
      pieces_then
        (version_flags 0 0
          ∷ write_u32 0
          ∷ handler_type
          ∷ write_u32 0
          ∷ write_u32 0
          ∷ write_u32 0
          ∷ name
          ∷ [])
        (0 ∷ []))

  unfoldable pub vmhd : List ℕ
  vmhd =
      mp4_box (codes "vmhd") (
        pieces_then (version_flags 0 1 ∷ write_u16 0 ∷ write_u16 0 ∷ write_u16 0 ∷ [])
          (write_u16 0))

  unfoldable pub smhd : List ℕ
  smhd = mp4_box (codes "smhd") (version_flags 0 0 ++ (write_u16 0 ++ write_u16 0))

  abbrev pub url : List ℕ
  url = mp4_box (codes "url ") (version_flags 0 1)

  abbrev pub dinf : List ℕ
  dinf = mp4_box (codes "dinf") (mp4_box (codes "dref") (version_flags 0 0 ++ (write_u32 1 ++ url)))

  abbrev pub stsd : List ℕ → List ℕ
  stsd sample_entry = mp4_box (codes "stsd") (version_flags 0 0 ++ (write_u32 1 ++ sample_entry))

  -- A table without entries.
  abbrev pub empty_table : List ℕ → List ℕ
  empty_table fourcc = mp4_box fourcc (version_flags 0 0 ++ write_u32 0)

  abbrev pub stsz : List ℕ
  stsz = mp4_box (codes "stsz") (version_flags 0 0 ++ (write_u32 0 ++ write_u32 0))

  abbrev pub stbl : List ℕ → List ℕ
  stbl sample_entry = mp4_box (codes "stbl") (
      stsd sample_entry
      ++ (empty_table (codes "stts")
          ++ (empty_table (codes "stsc") ++ (stsz ++ empty_table (codes "stco")))))

  -- A track, with the header of its medium and its handler.
  abbrev pub mdia : ℕ → List ℕ → List ℕ → List ℕ → List ℕ → List ℕ
  mdia timescale handler name media_header sample_entry = mp4_box (codes "mdia") (
      mdhd timescale
      ++ (hdlr handler name
          ++ mp4_box (codes "minf") (media_header ++ (dinf ++ stbl sample_entry))))

  abbrev pub video_trak : VideoTrackMeta → List ℕ
  video_trak meta = mp4_box (codes "trak") (
      tkhd 1 false meta.width meta.height
      ++ (meta.elst
          ++ mdia meta.timescale (codes "vide") (codes "VideoHandler") vmhd meta.sample_entry))

  abbrev pub audio_trak : AudioTrackMeta → List ℕ
  audio_trak meta = mp4_box (codes "trak") (
      tkhd 2 true 0 0
      ++ (meta.elst
          ++ mdia meta.timescale (codes "soun") (codes "SoundHandler") smhd meta.sample_entry))

  abbrev pub trex : ℕ → ℕ → List ℕ
  trex track_id default_sample_flags = mp4_box (codes "trex") (
      pieces_then
        (version_flags 0 0 ∷ write_u32 track_id ∷ write_u32 1 ∷ write_u32 0 ∷ write_u32 0 ∷ [])
        (write_u32 default_sample_flags))

  abbrev pub moov : IndexView → List ℕ
  moov index = mp4_box (codes "moov") (
      mvhd
      ++ (video_trak index.video_track
          ++ (audio_trak index.audio_track
              ++ mp4_box (codes "mvex")
                  (trex 1 video_default_sample_flags ++ trex 2 audio_default_sample_flags))))

  unfoldable pub init_segment : IndexView → List ℕ
  init_segment index = ftyp ++ moov index
