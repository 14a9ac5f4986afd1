-- ===== src/Fmp4/Init/Written/Tests.antt =====
-- The init segment of an index with an edit list in the video track.
use cmafly.Prelude.{◌≡◌, refl, arith, [], ◌∷◌, ◌++◌, length, replicate, none, codes}
use cmafly.Error.{ok}
use cmafly.ByteOrder.BigEndian.{big_endian}
use cmafly.Sink.{Holds}
use cmafly.Sink.Cursor.{Cursor, cursor, new_cursor, new_cursor-Holds}
use cmafly.Fmp4.Boxes.Appends.{mp4_box}
use cmafly.Fmp4.Init.{write_init_segment}
use cmafly.Fmp4.Init.Bytes.{init_segment, matrix, ftyp, mvhd, tkhd, mdhd, hdlr, vmhd, smhd}
use cmafly.Fmp4.Init.Written.{write_init_segment_lem}
use cmafly.Index.View.Types.{IndexView, VideoTrackMeta, AudioTrackMeta}

abbrev video : VideoTrackMeta
video = record {
  timescale = 90000;
  fourcc = codes "avc1";
  width = 1920;
  height = 1080;
  sample_entry = 0 ∷ 0 ∷ 0 ∷ 9 ∷ (codes "avc1" ++ (1 ∷ []));
  elst = 0 ∷ 0 ∷ 0 ∷ 8 ∷ codes "edts";
}

abbrev audio : AudioTrackMeta
audio = record {
  timescale = 48000;
  fourcc = codes "mp4a";
  sample_rate = 48000;
  channel_count = 2;
  sample_entry = 0 ∷ 0 ∷ 0 ∷ 8 ∷ codes "mp4a";
  elst = [];
}

abbrev index : IndexView
index = record {
  max_segment_size = 0;
  source_mp4_len = 7;
  source_mp4_blake3 = replicate 32 0;
  video_track = video;
  audio_track = audio;
  video_samples = [];
  audio_samples = [];
  segments = [];
  init_segment_bytes = [];
  playlist_bytes = none;
}

init_size : length (init_segment ⦃be = big_endian⦄ index) ≡ 975
unfolding init_segment mp4_box matrix ftyp mvhd tkhd mdhd hdlr vmhd smhd
init_size = refl

write_init_segment_lem_example :
    (c : Cursor) × Holds c
      ([] ++ init_segment ⦃be = big_endian⦄ index)
      (length ([] ++ init_segment ⦃be = big_endian⦄ index))
    × (write_init_segment ⦃be = big_endian⦄ index new_cursor ≡ ok (tt, c))
write_init_segment_lem_example =
    write_init_segment_lem ⦃sink = cursor⦄ ⦃be = big_endian⦄ index new_cursor [] new_cursor-Holds
      (omega (arith, init_size)) (omega (arith, init_size))
