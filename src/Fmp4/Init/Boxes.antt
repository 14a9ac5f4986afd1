-- ===== src/Fmp4/Init/Boxes.antt =====
-- crates/packager/src/fmp4/init.rs: the boxes of the init segment that hold no other box of it.
use cmafly.Prelude.{ℕ, ◌*◌, ◌^◌, ltb, if◌then◌else◌, Bool, none, List, [], ◌∷◌, replicate, codes}
use cmafly.ByteOrder.{ByteOrder}
use cmafly.Sink.{Sink}
use cmafly.Fmp4.Writer.{Writer, ◌>>◌, each, write_all, write_u16, write_u32, write_u64}
use cmafly.Fmp4.Boxes.{in_box, write_full_box_header}

abbrev pub movie_timescale : ℕ
movie_timescale = 1000

abbrev pub next_track_id : ℕ
next_track_id = 3

abbrev pub video_default_sample_flags : ℕ
video_default_sample_flags = 16842752

abbrev pub audio_default_sample_flags : ℕ
audio_default_sample_flags = 33554432

abbrev pub identity_matrix : List ℕ
identity_matrix = 65536 ∷ 0 ∷ 0 ∷ 0 ∷ 65536 ∷ 0 ∷ 0 ∷ 0 ∷ 1073741824 ∷ []

abbrev pub tkhd_flags_enabled : ℕ
tkhd_flags_enabled = 7

abbrev pub language_und : ℕ
language_und = 21956

-- `value << 16`, or `u32::MAX` where that does not fit.
abbrev pub fixed_16_16 : ℕ → ℕ
fixed_16_16 value =
    let widened = value * 2 ^ 16 in if ltb widened (2 ^ 32) then widened else 4294967295

module _ {W : Type 0} ⦃sink : Sink W⦄ ⦃be : ByteOrder⦄ where
  unfoldable pub write_matrix : Writer W (Unit {0})
  write_matrix = each write_u32 identity_matrix

  unfoldable pub write_ftyp : Writer W (Unit {0})
  write_ftyp =
      in_box (codes "ftyp") none
        do write_all (codes "cmfc"); write_u32 0; write_all (codes "iso6"); write_all (codes "cmfc")

  unfoldable pub write_mvhd : Writer W (Unit {0})
  write_mvhd = in_box (codes "mvhd") none do
    write_full_box_header 1 0
    write_u64 0
    write_u64 0
    write_u32 movie_timescale
    write_u64 0
    write_u32 65536
    write_u16 256
    write_u16 0
    write_u32 0
    write_u32 0
    write_matrix
    each write_u32 (replicate 6 0)
    write_u32 next_track_id

  unfoldable pub write_tkhd : ℕ → Bool → ℕ → ℕ → Writer W (Unit {0})
  write_tkhd track_id is_audio width height = in_box (codes "tkhd") none do
    write_full_box_header 1 tkhd_flags_enabled
    write_u64 0
    write_u64 0
    write_u32 track_id
    write_u32 0
    write_u64 0
    write_u32 0
    write_u32 0
    write_u16 0
    write_u16 0
    write_u16 (if is_audio then 256 else 0)
    write_u16 0
    write_matrix
    write_u32 (fixed_16_16 width)
    write_u32 (fixed_16_16 height)

  unfoldable pub write_mdhd : ℕ → Writer W (Unit {0})
  write_mdhd timescale = in_box (codes "mdhd") none do
    write_full_box_header 1 0
    write_u64 0
    write_u64 0
    write_u32 timescale
    write_u64 0
    write_u16 language_und
    write_u16 0

  unfoldable pub write_hdlr : List ℕ → List ℕ → Writer W (Unit {0})
  write_hdlr handler_type name = in_box (codes "hdlr") none do
    write_full_box_header 0 0
    write_u32 0
    write_all handler_type
    write_u32 0
    write_u32 0
    write_u32 0
    write_all name
    write_all (0 ∷ [])

  unfoldable pub write_vmhd : Writer W (Unit {0})
  write_vmhd =
      in_box (codes "vmhd") none
        do write_full_box_header 0 1; write_u16 0; write_u16 0; write_u16 0; write_u16 0

  unfoldable pub write_smhd : Writer W (Unit {0})
  write_smhd = in_box (codes "smhd") none do write_full_box_header 0 0; write_u16 0; write_u16 0

  unfoldable pub write_stsd : List ℕ → Writer W (Unit {0})
  write_stsd sample_entry =
      in_box (codes "stsd") none do write_full_box_header 0 0; write_u32 1; write_all sample_entry

  unfoldable pub write_empty_entry_count_box : List ℕ → Writer W (Unit {0})
  write_empty_entry_count_box fourcc = in_box fourcc none do write_full_box_header 0 0; write_u32 0

  unfoldable pub write_empty_stsz : Writer W (Unit {0})
  write_empty_stsz =
      in_box (codes "stsz") none do write_full_box_header 0 0; write_u32 0; write_u32 0

  unfoldable pub write_trex : ℕ → ℕ → Writer W (Unit {0})
  write_trex track_id default_sample_flags = in_box (codes "trex") none do
    write_full_box_header 0 0
    write_u32 track_id
    write_u32 1
    write_u32 0
    write_u32 0
    write_u32 default_sample_flags
