-- ===== src/Index/RoundTrip/Complete.antt =====
-- crates/packager/src/index/builder.rs: `serialise` succeeds, the size of its file, and that `open` takes it.
use cmafly.Prelude.{
  ℕ, ◌+◌, ◌*◌, ◌%◌, ◌<◌, ◌≡◌, ap, ◌∙◌, arith, List, ◌++◌, length, length-append, u32_mod, u64_mod,
}
use cmafly.Error.{ok}
use cmafly.ByteOrder.{ByteOrder}
use cmafly.NativeEndian.{NativeEndian}
use cmafly.Index.View.{open_index}
use cmafly.Index.Builder.Serialise.{Parts, serialise, assemble}
use cmafly.Index.RoundTrip.{PartsFit, Payloads, sections, view_of, open_index-serialise}
use cmafly.Index.RoundTrip.Rows.{
  length-encode_sample_table, length-encode_segment_table, encode_sample_table_complete,
  encode_segment_table_complete,
}
use cmafly.Index.RoundTrip.Meta.{
  length-encode_video_meta, length-encode_audio_meta, encode_video_meta_complete,
  encode_audio_meta_complete,
}
use cmafly.Index.RoundTrip.Layout.{laid, padded, pad_len, length-padded}
use cmafly.Index.RoundTrip.Assembled.{image, header_end, assemble-image, length-image}

-- The blobs and tables have fewer than 2^32 bytes and rows, as their 32-bit counts want.
pub record Countable (p : Parts) : Type 0 where
  pub video_sample_entry : length p.video_sample_entry < u32_mod
  pub video_elst : length p.video_elst < u32_mod
  pub audio_sample_entry : length p.audio_sample_entry < u32_mod
  pub audio_elst : length p.audio_elst < u32_mod
  pub video_samples : length p.video_samples < u32_mod
  pub audio_samples : length p.audio_samples < u32_mod
  pub segments : length p.segments < u32_mod

-- A multiple of eight.
abbrev pub round_up : ℕ → ℕ
round_up n = n + pad_len n

-- A track section: six numbers of four bytes, and the two blobs.
abbrev pub track_size : List ℕ → List ℕ → ℕ
track_size sample_entry elst = round_up (24 + length sample_entry + length elst)

-- The header and the directory of seven sections, and the sections.
abbrev pub file_size : Parts → ℕ
file_size p =
    56
    + 7 * 16
    + track_size p.video_sample_entry p.video_elst
    + track_size p.audio_sample_entry p.audio_elst
    + (8 + length p.video_samples * 24)
    + (8 + length p.audio_samples * 24)
    + (8 + length p.segments * 32)
    + length p.playlist_bytes
    + length p.init_bytes

module _ ⦃be : ByteOrder⦄ ⦃ne : NativeEndian⦄ (p : Parts) where
  encoded :
      Countable p
      → (c : Payloads p) × (serialise p
          ≡ ok (assemble p.max_segment_size p.source_len p.blake3 (sections c)))
  encoded n =
      let (vm, h1) =
        encode_video_meta_complete p.video_meta p.video_sample_entry p.video_elst
          n.video_sample_entry n.video_elst in
      let (am, h2) =
        encode_audio_meta_complete p.audio_meta p.audio_sample_entry p.audio_elst
          n.audio_sample_entry n.audio_elst in
      let (vt, h3) =
        encode_sample_table_complete p.video_samples "VideoSampleTable" n.video_samples in
      let (xt, h4) =
        encode_sample_table_complete p.audio_samples "AudioSampleTable" n.audio_samples in
      let (st, h5) = encode_segment_table_complete p.segments n.segments in
      (
        record {
          vm = vm;
          am = am;
          vt = vt;
          at = xt;
          st = st;
          vm_made = h1;
          am_made = h2;
          vt_made = h3;
          at_made = h4;
          st_made = h5;
        },
        unfold serialise in cc (h1, h2, h3, h4, h5),
      )

  module _ (fit : PartsFit p) (c : Payloads p) where
    abbrev vm_size : length c.vm ≡ 24 + length p.video_sample_entry + length p.video_elst
    vm_size =
        length-encode_video_meta p.video_meta p.video_sample_entry p.video_elst c.vm c.vm_made
          fit.video_meta

    abbrev am_size : length c.am ≡ 24 + length p.audio_sample_entry + length p.audio_elst
    am_size =
        length-encode_audio_meta p.audio_meta p.audio_sample_entry p.audio_elst c.am c.am_made
          fit.audio_meta

    laid_size : 168 + length (laid (sections c)) ≡ file_size p
    laid_size =
        let playlist = padded p.playlist_bytes in
        let r5 = padded c.st ++ (playlist ++ p.init_bytes) in
        let r4 = padded c.at ++ r5 in
        let r3 = padded c.vt ++ r4 in
        let r2 = padded c.am ++ r3 in
        omega (
          arith,
          length-append (padded c.vm) r2,
          length-append (padded c.am) r3,
          length-append (padded c.vt) r4,
          length-append (padded c.at) r5,
          length-append (padded c.st) (playlist ++ p.init_bytes),
          length-append playlist p.init_bytes,
          length-padded c.vm,
          length-padded c.am,
          length-padded c.vt,
          length-padded c.at,
          length-padded c.st,
          length-padded p.playlist_bytes,
          vm_size,
          am_size,
          length-encode_sample_table p.video_samples "VideoSampleTable" c.vt c.vt_made,
          length-encode_sample_table p.audio_samples "AudioSampleTable" c.at c.at_made,
          length-encode_segment_table p.segments c.st c.st_made,
          fit.playlist_full,
        )

    file_made_size :
        length (assemble p.max_segment_size p.source_len p.blake3 (sections c)) ≡ file_size p
    unfolding image header_end
    file_made_size =
        let m = p.max_segment_size in
        ap length (assemble-image m p.source_len p.blake3 (sections c) fit.blake3)
        ∙ length-image m p.source_len p.blake3 (sections c) fit.blake3
        ∙ laid_size

-- For all parts that fit their types and have fewer than 2^32 bytes in each blob and rows in each table, in
-- all fewer than 2^64 bytes, `serialise` returns a file. The file has the size of the header, the directory
-- of seven sections and the sections, and at an aligned address it is opened as a view with exactly the parts.
pub serialise_complete :
    ⦃be : ByteOrder⦄ ⦃ne : NativeEndian⦄ (p : Parts) (addr : ℕ)
    → PartsFit p
    → Countable p
    → file_size p < u64_mod
    → addr % 8 ≡ 0
    → (bytes : List ℕ) × (serialise p ≡ ok bytes)
      × (length bytes ≡ file_size p)
      × (open_index addr bytes ≡ ok (view_of p))
serialise_complete p addr fit countable small aligned =
    let (c, made) = encoded p countable in
    let bytes = assemble p.max_segment_size p.source_len p.blake3 (sections c) in
    let size = file_made_size p fit c in
    (
      bytes,
      made,
      size,
      open_index-serialise p addr bytes fit aligned (omega (arith, size, small)) made,
    )
