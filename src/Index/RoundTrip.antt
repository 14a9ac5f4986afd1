-- ===== src/Index/RoundTrip.antt =====
-- The view of an index that the builder wrote.
pub mod Rows
pub mod Meta
pub mod Layout
pub mod Header
pub mod Assembled
pub mod Complete
mod Tests
use cmafly.Prelude.{ℕ, ◌+◌, ◌*◌, ◌%◌, ◌<◌, ◌≡◌, refl, ap, sym, subst, ◌∙◌, arith, some}
use cmafly.Prelude.{List, [], ◌∷◌, ◌++◌, length, All, slice, position, piece, u32_mod, u64_mod}
use cmafly.Error.{ok, bind_inv}
use cmafly.ByteOrder.{ByteOrder, read_u32, read_u64, be_sizes}
use cmafly.NativeEndian.{NativeEndian}
use cmafly.Index.Format.{
  kind_video_track_meta, kind_audio_track_meta, kind_video_sample_table, kind_audio_sample_table,
  kind_segment_table, kind_init_segment_bytes, kind_playlist_bytes,
}
use cmafly.Index.View.{open_index, open_sections}
use cmafly.Index.View.Types.{IndexView}
use cmafly.Index.View.Meta.{parse_video_meta, parse_audio_meta}
use cmafly.Index.View.Tables.{parse_sample_table, parse_segment_table}
use cmafly.Index.View.Directory.{section_payload}
use cmafly.Index.Builder.Encode.{
  encode_video_meta, encode_audio_meta, encode_sample_table, encode_segment_table,
}
use cmafly.Index.Builder.Serialise.{Parts, serialise, assemble}
use cmafly.Index.RoundTrip.Rows.{
  SampleFits, SegmentFits, parse-encode_sample_table, length-encode_sample_table,
  parse-encode_segment_table, length-encode_segment_table,
}
use cmafly.Index.RoundTrip.Meta.{
  TrackFits, video_meta, audio_meta, parse-encode_video_meta, parse-encode_audio_meta,
  length-encode_video_meta, length-encode_audio_meta,
}
use cmafly.Index.RoundTrip.Layout.{
  Filled, laid, entries, found, padded, padded_full, padded-aligned, pad_len, section_payload-laid,
}
use cmafly.Index.RoundTrip.Header.{header_pieces}
use cmafly.Index.RoundTrip.Assembled.{
  image, front, header_end, length-front, assemble-image, open_index-image, at_field, length-image,
}

-- The parts of an index as the view gives them.
abbrev pub view_of : Parts → IndexView
view_of p = record {
  max_segment_size = p.max_segment_size;
  source_mp4_len = p.source_len;
  source_mp4_blake3 = p.blake3;
  video_track = video_meta p.video_meta p.video_sample_entry p.video_elst;
  audio_track = audio_meta p.audio_meta p.audio_sample_entry p.audio_elst;
  video_samples = p.video_samples;
  audio_samples = p.audio_samples;
  segments = p.segments;
  init_segment_bytes = p.init_bytes;
  playlist_bytes = some p.playlist_bytes;
}

-- The numbers fit their types, and the playlist is padded as `render_playlist` pads it.
pub record PartsFit (p : Parts) : Type 0 where
  pub max_segment_size : p.max_segment_size < u32_mod
  pub source_len : p.source_len < u64_mod
  pub blake3 : length p.blake3 ≡ 32
  pub video_meta : TrackFits p.video_meta
  pub audio_meta : TrackFits p.audio_meta
  pub video_samples : All SampleFits p.video_samples
  pub audio_samples : All SampleFits p.audio_samples
  pub segments : All SegmentFits p.segments
  pub playlist_some : 0 < length p.playlist_bytes
  pub playlist_full : length p.playlist_bytes % 8 ≡ 0

module _ ⦃be : ByteOrder⦄ ⦃ne : NativeEndian⦄ where
  -- The encoded payloads of an index.
  pub record Payloads (p : Parts) : Type 0 where
    pub vm : List ℕ
    pub am : List ℕ
    pub vt : List ℕ
    pub at : List ℕ
    pub st : List ℕ
    pub vm_made : encode_video_meta p.video_meta p.video_sample_entry p.video_elst ≡ ok vm
    pub am_made : encode_audio_meta p.audio_meta p.audio_sample_entry p.audio_elst ≡ ok am
    pub vt_made : encode_sample_table p.video_samples "VideoSampleTable" ≡ ok vt
    pub at_made : encode_sample_table p.audio_samples "AudioSampleTable" ≡ ok at
    pub st_made : encode_segment_table p.segments ≡ ok st

  abbrev pub sections : {p : Parts} → Payloads p → List (ℕ × List ℕ)
  sections {p} c =
      (kind_video_track_meta, c.vm)
      ∷ (kind_audio_track_meta, c.am)
      ∷ (kind_video_sample_table, c.vt)
      ∷ (kind_audio_sample_table, c.at)
      ∷ (kind_segment_table, c.st)
      ∷ (kind_playlist_bytes, p.playlist_bytes)
      ∷ (kind_init_segment_bytes, p.init_bytes)
      ∷ []

  payloads :
      (p : Parts) (bytes : List ℕ)
      → serialise p ≡ ok bytes
      → (c : Payloads p) × (assemble p.max_segment_size p.source_len p.blake3 (sections c) ≡ bytes)
  unfolding serialise
  payloads p bytes e =
      bind_inv (encode_video_meta p.video_meta p.video_sample_entry p.video_elst) _ e λ vm a1 e1.
        bind_inv (encode_audio_meta p.audio_meta p.audio_sample_entry p.audio_elst) _ e1 λ am a2 e2.
          bind_inv (encode_sample_table p.video_samples "VideoSampleTable") _ e2 λ vt a3 e3.
            bind_inv (encode_sample_table p.audio_samples "AudioSampleTable") _ e3 λ at a4 e4.
              bind_inv (encode_segment_table p.segments) _ e4 λ st a5 e5. (
                record {
                  vm = vm;
                  am = am;
                  vt = vt;
                  at = at;
                  st = st;
                  vm_made = a1;
                  am_made = a2;
                  vt_made = a3;
                  at_made = a4;
                  st_made = a5;
                },
                cc,
              )

  module _ (p : Parts) (fit : PartsFit p) (c : Payloads p) where
    abbrev img : List ℕ
    img = image p.max_segment_size p.source_len p.blake3 (sections c) fit.blake3

    abbrev dir : List (ℕ × ℕ)
    dir = entries 168 (sections c)

    payload : (kind : ℕ) → section_payload dir img kind ≡ found 168 (sections c) kind
    unfolding image header_end
    payload kind =
        section_payload-laid (sections c)
          (front p.max_segment_size p.source_len p.blake3 (sections c) fit.blake3) 168 kind
          (length-front p.max_segment_size p.source_len p.blake3 (sections c) fit.blake3)

    abbrev fixed : List (List ℕ)
    fixed = header_pieces p.max_segment_size p.source_len p.blake3 7

    -- A field of the fixed header.
    field_at :
        (i pos n : ℕ)
        → pos ≡ position fixed i
        → n ≡ length (piece fixed i)
        → slice pos n img ≡ piece fixed i
    field_at = at_field p.max_segment_size p.source_len p.blake3 (sections c) fit.blake3

    -- A payload of whole rows has no padding.
    table_payload :
        (kind off : ℕ) (content : List ℕ)
        → length content % 8 ≡ 0
        → found 168 (sections c) kind ≡ some (off, padded content)
        → section_payload dir img kind ≡ some (off, content)
    table_payload kind off content full at =
        payload kind ∙ at ∙ ap (λ b. some (off, b)) (padded_full content full)

    module _ (addr : ℕ) (aligned : addr % 8 ≡ 0) where
      abbrev s3 : ℕ
      s3 = 168 + length (padded c.vm) + length (padded c.am)

      abbrev s4 : ℕ
      s4 = s3 + length (padded c.vt)

      abbrev s5 : ℕ
      s5 = s4 + length (padded c.at)

      opened : open_sections addr img dir ≡ ok (view_of p)
      unfolding open_sections
      opened =
          let f3 : length c.vt % 8 ≡ 0 =
            omega (
              arith,
              length-encode_sample_table p.video_samples "VideoSampleTable" c.vt c.vt_made,
            ) in
          let f4 : length c.at % 8 ≡ 0 =
            omega (
              arith,
              length-encode_sample_table p.audio_samples "AudioSampleTable" c.at c.at_made,
            ) in
          let f5 : length c.st % 8 ≡ 0 =
            omega (arith, length-encode_segment_table p.segments c.st c.st_made) in
          let a3 : (addr + s3) % 8 ≡ 0 =
            omega (arith, aligned, padded-aligned c.vm, padded-aligned c.am) in
          let a4 : (addr + s4) % 8 ≡ 0 = omega (arith, a3, padded-aligned c.vt) in
          let a5 : (addr + s5) % 8 ≡ 0 = omega (arith, a4, padded-aligned c.at) in
          let vm =
            parse-encode_video_meta p.video_meta p.video_sample_entry p.video_elst
              (pad_len (length c.vm)) c.vm fit.video_meta (omega arith) c.vm_made in
          let am =
            parse-encode_audio_meta p.audio_meta p.audio_sample_entry p.audio_elst
              (pad_len (length c.am)) c.am fit.audio_meta (omega arith) c.am_made in
          cc (
            payload kind_video_track_meta,
            payload kind_audio_track_meta,
            table_payload kind_video_sample_table s3 c.vt f3 refl,
            table_payload kind_audio_sample_table s4 c.at f4 refl,
            table_payload kind_segment_table s5 c.st f5 refl,
            payload kind_init_segment_bytes,
            table_payload kind_playlist_bytes (s5 + length (padded c.st)) p.playlist_bytes
                fit.playlist_full refl,
            vm,
            am,
            parse-encode_sample_table p.video_samples "VideoSampleTable" (addr + s3) c.vt
                fit.video_samples a3 c.vt_made,
            parse-encode_sample_table p.audio_samples "AudioSampleTable" (addr + s4) c.at
                fit.audio_samples a4 c.at_made,
            parse-encode_segment_table p.segments (addr + s5) c.st fit.segments a5 c.st_made,
            field_at 1 4 4 (omega be_sizes) (omega be_sizes),
            field_at 2 8 8 (omega be_sizes) (omega be_sizes),
            field_at 3 16 32 (omega be_sizes) (sym fit.blake3),
            be.read-write_u32 p.max_segment_size fit.max_segment_size,
            be.read-write_u64 p.source_len fit.source_len,
          )

-- What the builder serialised from parts that fit their types is opened, at an aligned address, as a
-- view with exactly these parts, where the file is shorter than 2^64 bytes.
pub open_index-serialise :
    ⦃be : ByteOrder⦄ ⦃ne : NativeEndian⦄ (p : Parts) (addr : ℕ) (bytes : List ℕ)
    → PartsFit p
    → addr % 8 ≡ 0
    → length bytes < u64_mod
    → serialise p ≡ ok bytes
    → open_index addr bytes ≡ ok (view_of p)
unfolding image header_end
open_index-serialise p addr bytes fit aligned small e =
    let (c, made) = payloads p bytes e in
    let m = p.max_segment_size in
    let n = p.source_len in
    let same : img p fit c ≡ bytes =
      sym (assemble-image m n p.blake3 (sections c) fit.blake3) ∙ made in
    let size = length-image m n p.blake3 (sections c) fit.blake3 in
    let filled : Filled (sections c) = (
      omega (
        arith,
        length-encode_video_meta p.video_meta p.video_sample_entry p.video_elst c.vm c.vm_made
            fit.video_meta,
      ),
      (
        omega (
          arith,
          length-encode_audio_meta p.audio_meta p.audio_sample_entry p.audio_elst c.am c.am_made
              fit.audio_meta,
        ),
        (
          omega
              (arith, length-encode_sample_table p.video_samples "VideoSampleTable" c.vt c.vt_made),
          (
            omega (
              arith,
              length-encode_sample_table p.audio_samples "AudioSampleTable" c.at c.at_made,
            ),
            (
              omega (arith, length-encode_segment_table p.segments c.st c.st_made),
              (fit.playlist_some, tt),
            ),
          ),
        ),
      ),
    ) in
    let file : 168 + length (laid (sections c)) < u64_mod =
      omega (arith, small, ap length same, size) in
    subst (λ b. open_index addr b ≡ ok (view_of p)) same
      (open_index-image m n p.blake3 (sections c) fit.blake3 (omega arith) filled (omega arith)
          (omega arith) refl file addr
        ∙ opened p fit c addr aligned)
