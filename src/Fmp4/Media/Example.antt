-- ===== src/Fmp4/Media/Example.antt =====
-- Test data: an index with a segment of three samples, over a source of seven bytes.
use cmafly.Prelude.{
  ℕ, ◌≡◌, refl, arith, List, [], ◌∷◌, true, length, replicate, negsuc, none, codes,
}
use cmafly.ByteOrder.BigEndian.{big_endian}
use cmafly.Sink.Cursor.{cursor}
use cmafly.Fmp4.Boxes.Appends.{mp4_box}
use cmafly.Fmp4.Media.Bytes.{styp, mfhd, tfhd, tfdt, video_trun_head, audio_trun_head}
use cmafly.Fmp4.Media.Written.{Servable, segment_bytes}
use cmafly.Fmp4.Media.Written.Moof.{first_moof}
use cmafly.Index.Builder.Counting.{counting}
use cmafly.Index.Format.{SampleEntry, SegmentEntry}
use cmafly.Index.View.Types.{IndexView, VideoTrackMeta, AudioTrackMeta}

abbrev pub source : List ℕ
source = 10 ∷ 11 ∷ 12 ∷ 13 ∷ 14 ∷ 15 ∷ 16 ∷ []

abbrev pub sample : ℕ → ℕ → SampleEntry
sample offset size = record {
  offset = offset;
  size = size;
  dts_delta = 3000;
  cts_offset = negsuc 49;
  flags = 1;
}

abbrev pub segment : SegmentEntry
segment = record {
  video_sample_start = 0;
  video_sample_count = 2;
  audio_sample_start = 1;
  audio_sample_count = 1;
  video_base_dts = 0;
  audio_base_dts = 1024;
}

abbrev pub video : VideoTrackMeta
video = record {
  timescale = 90000;
  fourcc = codes "avc1";
  width = 1920;
  height = 1080;
  sample_entry = [];
  elst = [];
}

abbrev pub audio : AudioTrackMeta
audio = record {
  timescale = 48000;
  fourcc = codes "mp4a";
  sample_rate = 48000;
  channel_count = 2;
  sample_entry = [];
  elst = [];
}

abbrev pub index : IndexView
index = record {
  max_segment_size = 0;
  source_mp4_len = 7;
  source_mp4_blake3 = replicate 32 0;
  video_track = video;
  audio_track = audio;
  video_samples = sample 0 2 ∷ sample 4 1 ∷ [];
  audio_samples = sample 2 1 ∷ sample 5 2 ∷ [];
  segments = segment ∷ [];
  init_segment_bytes = [];
  playlist_bytes = none;
}

pub moof_size :
    length
      (first_moof ⦃be = big_endian⦄ 0 segment (sample 0 2 ∷ sample 4 1 ∷ []) (sample 5 2 ∷ []) true)
    ≡ 188
unfolding mp4_box mfhd tfhd tfdt video_trun_head audio_trun_head
moof_size = refl

pub index-Servable : Servable ⦃be = big_endian⦄ index 0 segment source
index-Servable = record {
  found = refl;
  video_some = omega arith;
  video_range = omega arith;
  video_small = omega arith;
  audio_some = omega arith;
  audio_range = omega arith;
  audio_small = omega arith;
  fits = record {
    video_in = (omega arith, (omega arith, tt));
    audio_in = (omega arith, tt);
    offsets = omega (arith, moof_size);
    mdat = omega arith;
  };
}

pub segment_size : length (segment_bytes ⦃be = big_endian⦄ index 0 segment source) ≡ 225
unfolding segment_bytes styp mp4_box mfhd tfhd tfdt video_trun_head audio_trun_head
segment_size = refl
