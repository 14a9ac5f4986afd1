-- ===== src/Demux/Moov/SampleEntry.antt =====
-- crates/packager/src/demux/moov.rs: the sample entry of a track, from its `stsd`.
use cmafly.Prelude.{ℕ, ◌+◌, ◌/◌, ◌==◌, ltb, leb, if◌then◌else◌, not}
use cmafly.Prelude.{List, [], ◌∷◌, take, drop, bytes_eq}
use cmafly.Error.{Result, ok, ◌>>=◌, ◌>>◌, fail_if, ok_or, map_err, PackagerError, io}
use cmafly.Error.{malformed_atom, encrypted_input, unsupported_video_codec, unsupported_audio_codec}
use cmafly.ByteOrder.{ByteOrder, read_u16, read_u32}
use cmafly.Demux.Source.{ReadAt, read_exact}
use cmafly.Demux.Boxes.{BoxHeader, payload_len, box_end, next_header}
use cmafly.Demux.Boxes.Each.{each_box}
use cmafly.Demux.Locations.{ByteRange}
use cmafly.Demux.Moov.Types.{
  chars, fourcc_in, video_fourccs, audio_fourccs, handler_video, handler_audio,
}

pub record SampleEntryInfo : Type 0 where
  pub fourcc : List ℕ
  pub sample_entry : ByteRange
  pub sample_rate : ℕ
  pub channel_count : ℕ

abbrev pub encryption_boxes : List (List ℕ)
encryption_boxes =
    chars b's' b'i' b'n' b'f'
    ∷ chars b't' b'e' b'n' b'c'
    ∷ chars b's' b'e' b'n' b'c'
    ∷ chars b's' b'b' b'g' b'p'
    ∷ chars b's' b'g' b'p' b'd'
    ∷ []

-- The loop body of `verify_no_encryption`.
unfoldable pub reject_encryption : BoxHeader → Unit {0} → Result PackagerError (Unit {0})
reject_encryption child s = fail_if (fourcc_in child.box_type encryption_boxes) encrypted_input

module _ ⦃be : ByteOrder⦄ (reader : ReadAt) where
  -- The children begin behind a fixed prefix of 28 bytes for audio and 78 for video.
  unfoldable pub verify_no_encryption : BoxHeader → ℕ → Result PackagerError (Unit {0})
  unfolding each_box reject_encryption
  verify_no_encryption entry prefix =
      if leb (payload_len entry) prefix
      then ok tt
      else each_box reader reject_encryption (entry.payload_offset + prefix) (box_end entry) tt

  unfoldable pub parse_audio_sample_entry : BoxHeader → Result PackagerError (ℕ × ℕ)
  parse_audio_sample_entry entry = do
    fail_if (ltb (payload_len entry) 28) (malformed_atom "mp4a" "AudioSampleEntry header truncated")
    buf ← map_err io (read_exact reader entry.payload_offset 28)
    let version = read_u16 (take 2 (drop 8 buf))
    fail_if (ltb 1 version) (malformed_atom "mp4a" "unsupported AudioSampleEntry version")
    let channel_count = read_u16 (take 2 (drop 16 buf))
    fail_if (ltb 255 channel_count) (malformed_atom "mp4a" "channel_count exceeds u8 range")
    let sample_rate = read_u32 (take 4 (drop 24 buf)) / 65536
    ok (sample_rate, channel_count)

  -- `(sample_rate, channel_count)` by the handler of the track.
  unfoldable pub entry_format : BoxHeader → List ℕ → Result PackagerError (ℕ × ℕ)
  unfolding verify_no_encryption parse_audio_sample_entry
  entry_format entry handler =
      let for_video : Result PackagerError (ℕ × ℕ) =
        verify_no_encryption entry 78
        >> (fail_if (not (fourcc_in entry.box_type video_fourccs)) unsupported_video_codec
            >> ok (0, 0)) in
      let for_audio : Result PackagerError (ℕ × ℕ) =
        verify_no_encryption entry 28
        >> (fail_if (not (fourcc_in entry.box_type audio_fourccs)) unsupported_audio_codec
            >> parse_audio_sample_entry entry) in
      if bytes_eq handler handler_video
      then for_video
      else if bytes_eq handler handler_audio
      then for_audio
      else ok (0, 0)

  unfoldable pub parse_stsd_entry : BoxHeader → List ℕ → Result PackagerError SampleEntryInfo
  unfolding entry_format
  parse_stsd_entry stsd handler = do
    fail_if (ltb (payload_len stsd) 8)
        (malformed_atom "stsd" "payload missing version+flags+entry_count")
    head ← map_err io (read_exact reader stsd.payload_offset 8)
    fail_if (not (read_u32 (drop 4 head) == 1)) (malformed_atom "stsd" "entry_count must be 1")
    let first_off = stsd.payload_offset + 8
    fail_if (leb (box_end stsd) first_off)
        (malformed_atom "stsd" "no entry follows the entry_count field")
    found ← (next_header reader first_off (box_end stsd)).0
    entry ← ok_or found (malformed_atom "stsd" "entry table empty")
    fail_if (not (box_end entry == box_end stsd))
        (malformed_atom "stsd" "entry_count is 1 but extra bytes follow the sample entry")
    (sample_rate, channel_count) ← entry_format entry handler
    ok (record {
      fourcc = entry.box_type;
      sample_entry = record { offset = entry.start; len = entry.declared_size };
      sample_rate = sample_rate;
      channel_count = channel_count;
    })
