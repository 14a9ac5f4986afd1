-- ===== src/Index/RoundTrip/Tests.antt =====
-- The round trip at an index with one sample in each track.
use cmafly.Prelude.{ℕ, ◌≡◌, refl, arith, List, [], ◌∷◌, replicate, length, negsuc, none}
use cmafly.Error.{Result, ok, err, PackagerError, index_magic_mismatch}
use cmafly.ByteOrder.BigEndian.{big_endian}
use cmafly.NativeEndian.LittleEndian.{little_endian}
use cmafly.Demux.Locations.{ByteRange, stco}
use cmafly.Demux.Moov.Types.{ParsedTrack, chars}
use cmafly.Index.Format.{SampleEntry, SegmentEntry}
use cmafly.Index.View.{open_index}
use cmafly.Index.Builder.Serialise.{Parts, serialise}
use cmafly.Index.RoundTrip.{PartsFit, view_of, open_index-serialise}
use cmafly.Index.RoundTrip.Complete.{Countable, file_size, serialise_complete}

abbrev range : ByteRange
range = record { offset = 0; len = 0 }

abbrev track : List ℕ → ParsedTrack
track fourcc = record {
  timescale = 90000;
  fourcc = fourcc;
  width = 1920;
  height = 1080;
  sample_rate = 48000;
  channel_count = 2;
  sample_entry = range;
  elst = none;
  sample_table = record {
    stts = range;
    stsc = range;
    stsz = range;
    chunk_offsets = stco range;
    stss = none;
    ctts = none;
  };
}

abbrev sample : SampleEntry
sample = record { offset = 1000; size = 7; dts_delta = 3000; cts_offset = negsuc 49; flags = 1 }

abbrev segment : SegmentEntry
segment = record {
  video_sample_start = 0;
  video_sample_count = 1;
  audio_sample_start = 0;
  audio_sample_count = 1;
  video_base_dts = 0;
  audio_base_dts = 0;
}

abbrev parts : Parts
parts = record {
  max_segment_size = 500;
  source_len = 2000;
  blake3 = replicate 32 7;
  video_meta = track (chars b'a' b'v' b'c' b'1');
  video_sample_entry = 1 ∷ 2 ∷ 3 ∷ [];
  video_elst = [];
  audio_meta = track (chars b'm' b'p' b'4' b'a');
  audio_sample_entry = 4 ∷ 5 ∷ [];
  audio_elst = 6 ∷ [];
  video_samples = sample ∷ [];
  audio_samples = sample ∷ [];
  segments = segment ∷ [];
  playlist_bytes = replicate 8 b'\n';
  init_bytes = 9 ∷ 9 ∷ 9 ∷ [];
}

parts-PartsFit : PartsFit parts
parts-PartsFit = record {
  max_segment_size = omega arith;
  source_len = omega arith;
  blake3 = refl;
  video_meta = record {
    timescale = omega arith;
    fourcc = refl;
    width = omega arith;
    height = omega arith;
    sample_rate = omega arith;
  };
  audio_meta = record {
    timescale = omega arith;
    fourcc = refl;
    width = omega arith;
    height = omega arith;
    sample_rate = omega arith;
  };
  video_samples = (
    record {
      offset = omega arith;
      size = omega arith;
      dts_delta = omega arith;
      cts_offset = omega arith;
      flags = omega arith;
    },
    tt,
  );
  audio_samples = (
    record {
      offset = omega arith;
      size = omega arith;
      dts_delta = omega arith;
      cts_offset = omega arith;
      flags = omega arith;
    },
    tt,
  );
  segments = (
    record {
      video_sample_start = omega arith;
      video_sample_count = omega arith;
      audio_sample_start = omega arith;
      audio_sample_count = omega arith;
      video_base_dts = omega arith;
      audio_base_dts = omega arith;
    },
    tt,
  );
  playlist_some = omega arith;
  playlist_full = refl;
}

abbrev bytes_of : Result PackagerError (List ℕ) → List ℕ
bytes_of (ok bytes) = bytes
bytes_of (err why) = []

file : List ℕ
unfolding serialise
file = bytes_of (serialise ⦃be = big_endian⦄ ⦃ne = little_endian⦄ parts)

file_made : serialise ⦃be = big_endian⦄ ⦃ne = little_endian⦄ parts ≡ ok file
unfolding serialise file
file_made = refl

length-file : length file ≡ 347
unfolding serialise file
length-file = refl

open_index-serialise_example :
    open_index ⦃be = big_endian⦄ ⦃ne = little_endian⦄ 4096 file ≡ ok (view_of parts)
open_index-serialise_example =
    open_index-serialise ⦃be = big_endian⦄ ⦃ne = little_endian⦄ parts 4096 file parts-PartsFit refl
      (omega (arith, length-file)) file_made

parts-Countable : Countable parts
parts-Countable = record {
  video_sample_entry = omega arith;
  video_elst = omega arith;
  audio_sample_entry = omega arith;
  audio_elst = omega arith;
  video_samples = omega arith;
  audio_samples = omega arith;
  segments = omega arith;
}

serialise_complete_example :
    (bytes : List ℕ) × (serialise ⦃be = big_endian⦄ ⦃ne = little_endian⦄ parts ≡ ok bytes)
    × (length bytes ≡ file_size parts)
    × (open_index ⦃be = big_endian⦄ ⦃ne = little_endian⦄ 4096 bytes ≡ ok (view_of parts))
serialise_complete_example =
    serialise_complete ⦃be = big_endian⦄ ⦃ne = little_endian⦄ parts 4096 parts-PartsFit
      parts-Countable (omega arith) refl

-- corrupt_magic_returns_index_magic_mismatch
corrupt_magic :
    open_index ⦃be = big_endian⦄ ⦃ne = little_endian⦄ 0 (replicate 56 0) ≡ err index_magic_mismatch
unfolding open_index
corrupt_magic = refl
