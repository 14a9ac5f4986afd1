-- ===== src/Fmp4/Init.antt =====
-- crates/packager/src/fmp4/init.rs: the init segment, `ftyp` and `moov`.
pub mod Boxes
pub mod Bytes
pub mod Written
use cmafly.Prelude.{ℕ, ◌==◌, if◌then◌else◌, Bool, true, false, none, List, length, codes}
use cmafly.ByteOrder.{ByteOrder}
use cmafly.Sink.{Sink}
use cmafly.Fmp4.Writer.{Writer, pure, ◌>>=◌, ◌>>◌, write_all, write_u32}
use cmafly.Fmp4.Boxes.{in_box, write_full_box_header}
use cmafly.Fmp4.Media.Fragment.{video_track_id, audio_track_id}
use cmafly.Fmp4.Init.Boxes.{
  write_ftyp, write_mvhd, write_tkhd, write_mdhd, write_hdlr, write_vmhd, write_smhd, write_stsd,
  write_empty_entry_count_box, write_empty_stsz, write_trex, video_default_sample_flags,
  audio_default_sample_flags,
}
use cmafly.Index.View.Types.{IndexView, VideoTrackMeta, AudioTrackMeta}

module _ {W : Type 0} ⦃sink : Sink W⦄ ⦃be : ByteOrder⦄ where
  unfoldable pub write_dinf : Writer W (Unit {0})
  write_dinf = in_box (codes "dinf") none (
      in_box (codes "dref") none do
        write_full_box_header 0 0
        write_u32 1
        in_box (codes "url ") none (write_full_box_header 0 1))

  unfoldable pub write_stbl : List ℕ → Writer W (Unit {0})
  write_stbl sample_entry = in_box (codes "stbl") none do
    write_stsd sample_entry
    write_empty_entry_count_box (codes "stts")
    write_empty_entry_count_box (codes "stsc")
    write_empty_stsz
    write_empty_entry_count_box (codes "stco")

  unfoldable pub write_video_minf : VideoTrackMeta → Writer W (Unit {0})
  write_video_minf meta =
      in_box (codes "minf") none do write_vmhd; write_dinf; write_stbl meta.sample_entry

  unfoldable pub write_audio_minf : AudioTrackMeta → Writer W (Unit {0})
  write_audio_minf meta =
      in_box (codes "minf") none do write_smhd; write_dinf; write_stbl meta.sample_entry

  unfoldable pub write_video_mdia : VideoTrackMeta → Writer W (Unit {0})
  write_video_mdia meta = in_box (codes "mdia") none do
    write_mdhd meta.timescale
    write_hdlr (codes "vide") (codes "VideoHandler")
    write_video_minf meta

  unfoldable pub write_audio_mdia : AudioTrackMeta → Writer W (Unit {0})
  write_audio_mdia meta = in_box (codes "mdia") none do
    write_mdhd meta.timescale
    write_hdlr (codes "soun") (codes "SoundHandler")
    write_audio_minf meta

  -- `if !meta.elst.is_empty() { … }`
  abbrev pub write_elst : List ℕ → Writer W (Unit {0})
  write_elst elst = if length elst == 0 then pure tt else write_all elst

  unfoldable pub write_video_trak : VideoTrackMeta → Writer W (Unit {0})
  write_video_trak meta = in_box (codes "trak") none do
    write_tkhd video_track_id false meta.width meta.height
    write_elst meta.elst
    write_video_mdia meta

  unfoldable pub write_audio_trak : AudioTrackMeta → Writer W (Unit {0})
  write_audio_trak meta =
      in_box (codes "trak") none
        do write_tkhd audio_track_id true 0 0; write_elst meta.elst; write_audio_mdia meta

  unfoldable pub write_mvex : Writer W (Unit {0})
  write_mvex = in_box (codes "mvex") none do
    write_trex video_track_id video_default_sample_flags
    write_trex audio_track_id audio_default_sample_flags

  unfoldable pub write_moov : IndexView → Writer W (Unit {0})
  write_moov index = in_box (codes "moov") none do
    write_mvhd
    write_video_trak index.video_track
    write_audio_trak index.audio_track
    write_mvex

  unfoldable pub write_init_segment : IndexView → Writer W (Unit {0})
  write_init_segment index = do write_ftyp; write_moov index
