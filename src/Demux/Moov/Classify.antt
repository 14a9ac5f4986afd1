-- ===== src/Demux/Moov/Classify.antt =====
-- crates/packager/src/demux/moov.rs: exactly one video and one audio track.
pub mod Pair
use cmafly.Prelude.{ℕ, ◌+◌, ◌==◌, if◌then◌else◌, Option, none, some, List, [], ◌∷◌, length, Bool}
use cmafly.Prelude.{◌&&◌, bytes_eq}
use cmafly.Error.{Result, ok, err, PackagerError, unsupported_track_layout}
use cmafly.Demux.Moov.Types.{
  ParsedTrack, MoovParse, UnclassifiedTrack, handler_video, handler_audio,
}

abbrev pub into_parsed : UnclassifiedTrack → ParsedTrack
into_parsed t = record {
  timescale = t.timescale;
  fourcc = t.fourcc;
  width = t.width;
  height = t.height;
  sample_rate = t.sample_rate;
  channel_count = t.channel_count;
  sample_entry = t.sample_entry;
  elst = t.elst;
  sample_table = t.sample_table;
}

-- The variables of the loop. The counters are exact here.
pub record Classes : Type 0 where
  pub video : Option UnclassifiedTrack
  pub audio : Option UnclassifiedTrack
  pub video_count : ℕ
  pub audio_count : ℕ

-- `if slot.is_none() { slot = Some(trk); }`
abbrev or_first : Option UnclassifiedTrack → UnclassifiedTrack → Option UnclassifiedTrack
or_first none trk = some trk
or_first (some first) trk = some first

pub classify_step : UnclassifiedTrack → Classes → Classes
classify_step trk s =
    if bytes_eq trk.handler handler_video
    then record s { video = or_first s.video trk; video_count = s.video_count + 1 }
    else if bytes_eq trk.handler handler_audio
    then record s { audio = or_first s.audio trk; audio_count = s.audio_count + 1 }
    else s

pub classify_loop : List UnclassifiedTrack → Classes → Classes
classify_loop [] s = s
classify_loop (trk ∷ tracks) s = classify_loop tracks (classify_step trk s)

abbrev pub no_tracks : Classes
no_tracks = record { video = none; audio = none; video_count = 0; audio_count = 0 }

-- The match at the end, on the variables of the loop and the number of tracks.
unfoldable pub classified :
    ℕ → Option UnclassifiedTrack → Option UnclassifiedTrack → ℕ → ℕ → Result PackagerError MoovParse
classified total (some v) (some a) video_count audio_count =
    if total == 2 && (video_count == 1 && audio_count == 1)
    then ok (record { video = into_parsed v; audio = into_parsed a })
    else err (unsupported_track_layout video_count audio_count)
classified total (some v) none video_count audio_count =
    err (unsupported_track_layout video_count audio_count)
classified total none audio video_count audio_count =
    err (unsupported_track_layout video_count audio_count)

unfoldable pub classify_tracks : List UnclassifiedTrack → Result PackagerError MoovParse
unfolding classify_loop classify_step classified
classify_tracks tracks =
    let s = classify_loop tracks no_tracks in
    classified (length tracks) s.video s.audio s.video_count s.audio_count
