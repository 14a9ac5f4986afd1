-- ===== src/Fmp4/Init/Written/Boxes.antt =====
-- The boxes of the init segment up to the sample tables.
use cmafly.Prelude.{
  ℕ, ◌<◌, ◌≡◌, refl, arith, if◌then◌else◌, Bool, List, [], ◌∷◌, ◌++◌, length, length-append, codes,
  flat_map, replicate, u32_mod,
}
use cmafly.ByteOrder.{ByteOrder, write_u16, write_u32, write_u64}
use cmafly.Sink.{Sink}
use cmafly.Fmp4.Writer.{write_u32 as put_u32, each}
use cmafly.Fmp4.Writer.Appends.{
  Appends, pure-Appends, write_all-Appends, writes_then-Appends, then-Appends,
}
use cmafly.Fmp4.Boxes.{write_full_box_header}
use cmafly.Fmp4.Boxes.Appends.{mp4_box, version_flags, small_box-Appends, length-mp4_box}
use cmafly.Fmp4.Init.Boxes.{
  write_matrix, write_ftyp, write_mvhd, write_tkhd, write_mdhd, write_hdlr, write_vmhd, write_smhd,
  write_stsd, write_empty_entry_count_box, write_empty_stsz, write_trex, identity_matrix,
  fixed_16_16, movie_timescale, next_track_id, tkhd_flags_enabled, language_und,
}
use cmafly.Fmp4.Init.{write_dinf, write_stbl}
use cmafly.Fmp4.Init.Bytes.{
  matrix, ftyp, mvhd, tkhd, mdhd, hdlr, vmhd, smhd, url, dinf, stsd, empty_table, stsz, stbl, trex,
}

-- The content of a box that fits 32 bits, and the parts of such a content.
pub within :
    ⦃be : ByteOrder⦄ (fourcc content : List ℕ)
    → length (mp4_box fourcc content) < u32_mod
    → length content < u32_mod
within fourcc content h = omega (arith, h, length-mp4_box fourcc content)

pub first : (a b : List ℕ) → length (a ++ b) < u32_mod → length a < u32_mod
first a b h = omega (arith, h, length-append a b)

pub rest : (a b : List ℕ) → length (a ++ b) < u32_mod → length b < u32_mod
rest a b h = omega (arith, h, length-append a b)

module _ {W : Type 0} ⦃sink : Sink W⦄ ⦃be : ByteOrder⦄ where
  numbers-Appends :
      (ns : List ℕ) → Appends {W = W} (each put_u32 ns) (flat_map write_u32 ns) (λ n. tt)
  unfolding each
  numbers-Appends [] = pure-Appends tt
  numbers-Appends (n ∷ ns) = then-Appends (write_all-Appends (write_u32 n)) (numbers-Appends ns)

  pub write_matrix-Appends : Appends {W = W} write_matrix matrix (λ n. tt)
  unfolding write_matrix matrix
  write_matrix-Appends = numbers-Appends identity_matrix

  pub write_mvhd-Appends : length mvhd < u32_mod → Appends {W = W} write_mvhd mvhd (λ n. tt)
  unfolding write_mvhd mvhd write_full_box_header
  write_mvhd-Appends small =
      small_box-Appends (codes "mvhd") _
        (writes_then-Appends
          (version_flags 1 0
            ∷ write_u64 0
            ∷ write_u64 0
            ∷ write_u32 movie_timescale
            ∷ write_u64 0
            ∷ write_u32 65536
            ∷ write_u16 256
            ∷ write_u16 0
            ∷ write_u32 0
            ∷ write_u32 0
            ∷ [])
          (then-Appends write_matrix-Appends (
            then-Appends (numbers-Appends (replicate 6 0))
              (write_all-Appends (write_u32 next_track_id)))))
        refl small

  pub write_ftyp-Appends : length ftyp < u32_mod → Appends {W = W} write_ftyp ftyp (λ n. tt)
  unfolding write_ftyp ftyp
  write_ftyp-Appends small =
      small_box-Appends (codes "ftyp") _
        (writes_then-Appends (codes "cmfc" ∷ write_u32 0 ∷ codes "iso6" ∷ [])
          (write_all-Appends (codes "cmfc")))
        refl small

  pub write_tkhd-Appends :
      (id : ℕ) (is_audio : Bool) (width height : ℕ)
      → length (tkhd id is_audio width height) < u32_mod
      → Appends {W = W}
          (write_tkhd id is_audio width height)
          (tkhd id is_audio width height)
          (λ n. tt)
  unfolding write_tkhd tkhd write_full_box_header
  write_tkhd-Appends id is_audio width height small =
      small_box-Appends (codes "tkhd") _
        (writes_then-Appends
          (version_flags 1 tkhd_flags_enabled
            ∷ write_u64 0
            ∷ write_u64 0
            ∷ write_u32 id
            ∷ write_u32 0
            ∷ write_u64 0
            ∷ write_u32 0
            ∷ write_u32 0
            ∷ write_u16 0
            ∷ write_u16 0
            ∷ write_u16 (if is_audio then 256 else 0)
            ∷ write_u16 0
            ∷ [])
          (then-Appends write_matrix-Appends (
            then-Appends (write_all-Appends (write_u32 (fixed_16_16 width)))
              (write_all-Appends (write_u32 (fixed_16_16 height))))))
        refl small

  pub write_mdhd-Appends :
      (timescale : ℕ)
      → length (mdhd timescale) < u32_mod
      → Appends {W = W} (write_mdhd timescale) (mdhd timescale) (λ n. tt)
  unfolding write_mdhd mdhd write_full_box_header
  write_mdhd-Appends timescale small =
      small_box-Appends (codes "mdhd") _
        (writes_then-Appends
          (version_flags 1 0
            ∷ write_u64 0
            ∷ write_u64 0
            ∷ write_u32 timescale
            ∷ write_u64 0
            ∷ write_u16 language_und
            ∷ [])
          (write_all-Appends (write_u16 0)))
        refl small

  pub write_hdlr-Appends :
      (handler name : List ℕ)
      → length (hdlr handler name) < u32_mod
      → Appends {W = W} (write_hdlr handler name) (hdlr handler name) (λ n. tt)
  unfolding write_hdlr hdlr write_full_box_header
  write_hdlr-Appends handler name small =
      small_box-Appends (codes "hdlr") _
        (writes_then-Appends
          (version_flags 0 0
            ∷ write_u32 0
            ∷ handler
            ∷ write_u32 0
            ∷ write_u32 0
            ∷ write_u32 0
            ∷ name
            ∷ [])
          (write_all-Appends (0 ∷ [])))
        refl small

  pub write_vmhd-Appends : length vmhd < u32_mod → Appends {W = W} write_vmhd vmhd (λ n. tt)
  unfolding write_vmhd vmhd write_full_box_header
  write_vmhd-Appends small =
      small_box-Appends (codes "vmhd") _
        (writes_then-Appends (version_flags 0 1 ∷ write_u16 0 ∷ write_u16 0 ∷ write_u16 0 ∷ [])
          (write_all-Appends (write_u16 0)))
        refl small

  pub write_smhd-Appends : length smhd < u32_mod → Appends {W = W} write_smhd smhd (λ n. tt)
  unfolding write_smhd smhd write_full_box_header
  write_smhd-Appends small =
      small_box-Appends (codes "smhd") _
        (writes_then-Appends (version_flags 0 0 ∷ write_u16 0 ∷ [])
          (write_all-Appends (write_u16 0)))
        refl small

  pub write_trex-Appends :
      (id flags : ℕ)
      → length (trex id flags) < u32_mod
      → Appends {W = W} (write_trex id flags) (trex id flags) (λ n. tt)
  unfolding write_trex write_full_box_header
  write_trex-Appends id flags small =
      small_box-Appends (codes "trex") _
        (writes_then-Appends
          (version_flags 0 0 ∷ write_u32 id ∷ write_u32 1 ∷ write_u32 0 ∷ write_u32 0 ∷ [])
          (write_all-Appends (write_u32 flags)))
        refl small

  pub write_stsd-Appends :
      (entry : List ℕ)
      → length (stsd entry) < u32_mod
      → Appends {W = W} (write_stsd entry) (stsd entry) (λ n. tt)
  unfolding write_stsd write_full_box_header
  write_stsd-Appends entry small =
      small_box-Appends (codes "stsd") _
        (writes_then-Appends (version_flags 0 0 ∷ write_u32 1 ∷ []) (write_all-Appends entry)) refl
        small

  pub write_empty_entry_count_box-Appends :
      (fourcc : List ℕ)
      → length fourcc ≡ 4
      → length (empty_table fourcc) < u32_mod
      → Appends {W = W} (write_empty_entry_count_box fourcc) (empty_table fourcc) (λ n. tt)
  unfolding write_empty_entry_count_box write_full_box_header
  write_empty_entry_count_box-Appends fourcc four small =
      small_box-Appends fourcc _
        (writes_then-Appends (version_flags 0 0 ∷ []) (write_all-Appends (write_u32 0))) four small

  pub write_empty_stsz-Appends :
      length stsz < u32_mod → Appends {W = W} write_empty_stsz stsz (λ n. tt)
  unfolding write_empty_stsz write_full_box_header
  write_empty_stsz-Appends small =
      small_box-Appends (codes "stsz") _
        (writes_then-Appends (version_flags 0 0 ∷ write_u32 0 ∷ [])
          (write_all-Appends (write_u32 0)))
        refl small

  pub write_dinf-Appends : length dinf < u32_mod → Appends {W = W} write_dinf dinf (λ n. tt)
  unfolding write_dinf write_full_box_header
  write_dinf-Appends small =
      let dref_fits = within (codes "dinf") _ small in
      let url_fits =
        rest (write_u32 1) url (rest (version_flags 0 0) _ (within (codes "dref") _ dref_fits)) in
      small_box-Appends (codes "dinf") _
        (small_box-Appends (codes "dref") _
          (writes_then-Appends (version_flags 0 0 ∷ write_u32 1 ∷ []) (
            small_box-Appends (codes "url ") _ (write_all-Appends (version_flags 0 1)) refl
              url_fits))
          refl dref_fits)
        refl small

  pub write_stbl-Appends :
      (entry : List ℕ)
      → length (stbl entry) < u32_mod
      → Appends {W = W} (write_stbl entry) (stbl entry) (λ n. tt)
  unfolding write_stbl
  write_stbl-Appends entry small =
      let s1 = within (codes "stbl") _ small in
      let s2 = rest (stsd entry) _ s1 in
      let s3 = rest (empty_table (codes "stts")) _ s2 in
      let s4 = rest (empty_table (codes "stsc")) _ s3 in
      small_box-Appends (codes "stbl") _
        (then-Appends (write_stsd-Appends entry (first (stsd entry) _ s1)) (
          then-Appends
            (write_empty_entry_count_box-Appends (codes "stts") refl
              (first (empty_table (codes "stts")) _ s2))
            (then-Appends
              (write_empty_entry_count_box-Appends (codes "stsc") refl
                (first (empty_table (codes "stsc")) _ s3))
              (then-Appends (write_empty_stsz-Appends (first stsz _ s4))
                (write_empty_entry_count_box-Appends (codes "stco") refl (rest stsz _ s4))))))
        refl small
