-- ===== src/Demux/Moov/Tests.antt =====
-- The movie of the unit test parses_minimal_dual_track_mp4, and the theorems at it.
use cmafly.Prelude.{
  ℕ, ◌+◌, ◌*◌, ◌/◌, ◌%◌, ◌≡◌, refl, inr, none, List, [], ◌∷◌, ◌++◌, length, replicate,
}
use cmafly.Error.{ok, err, unsupported_track_layout}
use cmafly.ByteOrder.BigEndian.{big_endian}
use cmafly.Demux.Source.{ReadAt, read_at_bytes, read_exact}
use cmafly.Demux.Source.Exact.{read_at_bytes-Reads}
use cmafly.Demux.Locations.{ByteRange, SampleTableLocs, stco}
use cmafly.Demux.Boxes.{next_header, next_header_loop, read_header, box_size}
use cmafly.Demux.Moov.{parse_top_level}
use cmafly.Demux.Moov.Types.{chars, MoovParse, UnclassifiedTrack, handler_video, handler_audio}
use cmafly.Demux.Moov.Classify.{into_parsed, classify_tracks}
use cmafly.Demux.Moov.Classify.Pair.{IsPair, classify_tracks-IsPair, classify_tracks_complete}
use cmafly.Demux.Moov.Ranges.{TrackEndsBy}
use cmafly.Prelude.{take}
use cmafly.Demux.Boxes.Each.Fuel.{IsDone}
use cmafly.Demux.Moov.Fuel.{parse_top_level-IsDone}
use cmafly.Demux.Moov.Safety.{parse_top_level-EndsBy}

abbrev word : ℕ → List ℕ
word n = n / 16777216 ∷ n / 65536 % 256 ∷ n / 256 % 256 ∷ n % 256 ∷ []

abbrev make_box : List ℕ → List ℕ → List ℕ
make_box fourcc payload = word (8 + length payload) ++ fourcc ++ payload

abbrev zeros : ℕ → List ℕ
zeros n = replicate n 0

abbrev table : List ℕ → List ℕ
table fourcc = make_box fourcc (zeros 8)

abbrev stbl : List ℕ → List ℕ
stbl entry = make_box (chars b's' b't' b'b' b'l') (
    make_box (chars b's' b't' b's' b'd') (word 0 ++ word 1 ++ entry)
    ++ table (chars b's' b't' b't' b's')
    ++ table (chars b's' b't' b's' b'c')
    ++ make_box (chars b's' b't' b's' b'z') (zeros 12)
    ++ table (chars b's' b't' b'c' b'o'))

abbrev trak : ℕ → List ℕ → List ℕ → List ℕ
trak timescale handler entry = make_box (chars b't' b'r' b'a' b'k') (
    make_box (chars b't' b'k' b'h' b'd') (zeros 76 ++ word (1920 * 65536) ++ word (1080 * 65536))
    ++ make_box (chars b'm' b'd' b'i' b'a') (
        make_box (chars b'm' b'd' b'h' b'd') (zeros 12 ++ word timescale ++ zeros 8)
        ++ make_box (chars b'h' b'd' b'l' b'r') (zeros 8 ++ handler ++ zeros 12)
        ++ make_box (chars b'm' b'i' b'n' b'f') (stbl entry)))

abbrev movie : List ℕ
movie =
    make_box (chars b'f' b't' b'y' b'p') (chars b'i' b's' b'o' b'm' ++ word 0)
    ++ make_box (chars b'm' b'o' b'o' b'v') (
        trak 90000 (chars b'v' b'i' b'd' b'e') (make_box (chars b'a' b'v' b'c' b'1') (zeros 78))
        ++ trak 48000 (chars b's' b'o' b'u' b'n') (
            make_box (chars b'm' b'p' b'4' b'a')
              (zeros 16 ++ (0 ∷ 2 ∷ zeros 6) ++ word (48000 * 65536))))

abbrev source : ReadAt
source = read_at_bytes movie

abbrev range : ℕ → ℕ → ByteRange
range offset len = record { offset = offset; len = len }

abbrev locs : ℕ → SampleTableLocs
locs at = record {
  stts = range at 8;
  stsc = range (at + 16) 8;
  stsz = range (at + 32) 12;
  chunk_offsets = stco (range (at + 52) 8);
  stss = none;
  ctts = none;
}

abbrev parsed : MoovParse
parsed = record {
  video = record {
    timescale = 90000;
    fourcc = chars b'a' b'v' b'c' b'1';
    width = 1920;
    height = 1080;
    sample_rate = 0;
    channel_count = 0;
    sample_entry = range 228 86;
    elst = none;
    sample_table = locs 322;
  };
  audio = record {
    timescale = 48000;
    fourcc = chars b'm' b'p' b'4' b'a';
    width = 0;
    height = 0;
    sample_rate = 48000;
    channel_count = 2;
    sample_entry = range 586 36;
    elst = none;
    sample_table = locs 630;
  };
}

parses_movie : parse_top_level ⦃be = big_endian⦄ source (length movie) ≡ ok parsed
unfolding parse_top_level next_header next_header_loop read_header box_size read_at_bytes read_exact
parses_movie = refl

parse_top_level-EndsBy_example :
    TrackEndsBy (length movie) parsed.video × TrackEndsBy (length movie) parsed.audio
parse_top_level-EndsBy_example =
    parse_top_level-EndsBy ⦃be = big_endian⦄ source movie (length movie) parsed
      (read_at_bytes-Reads movie) parses_movie

abbrev track : List ℕ → UnclassifiedTrack
track handler = record {
  handler = handler;
  timescale = 48000;
  width = 0;
  height = 0;
  fourcc = chars b'm' b'p' b'4' b'a';
  sample_entry = range 586 36;
  sample_rate = 48000;
  channel_count = 2;
  elst = none;
  sample_table = locs 630;
}

abbrev two : List UnclassifiedTrack
two = track handler_audio ∷ track handler_video ∷ []

abbrev both : MoovParse
both = record {
  video = into_parsed (track handler_video);
  audio = into_parsed (track handler_audio);
}

classifies : classify_tracks two ≡ ok both
unfolding classify_tracks
classifies = refl

-- rejects_extra_track_even_when_av_pair_present
extra_track : classify_tracks (track handler_audio ∷ two) ≡ err (unsupported_track_layout 1 2)
unfolding classify_tracks
extra_track = refl

classify_tracks-IsPair_example :
    (v : UnclassifiedTrack) × (a : UnclassifiedTrack) × IsPair two v a
    × (both ≡ record { video = into_parsed v; audio = into_parsed a })
classify_tracks-IsPair_example = classify_tracks-IsPair two both classifies

classify_tracks_complete_example : classify_tracks two ≡ ok both
classify_tracks_complete_example =
    classify_tracks_complete two (track handler_video) (track handler_audio) (refl, refl, inr refl)

-- A movie whose last byte is cut off.
parse_top_level-IsDone_example :
    IsDone (parse_top_level ⦃be = big_endian⦄ (read_at_bytes (take 689 movie)) 690)
parse_top_level-IsDone_example =
    parse_top_level-IsDone ⦃be = big_endian⦄ (read_at_bytes (take 689 movie)) (take 689 movie) 690
      (read_at_bytes-Reads (take 689 movie))
