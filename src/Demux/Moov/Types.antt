-- ===== src/Demux/Moov/Types.antt =====
-- crates/packager/src/demux/moov.rs: the types of the parser and its constants.
use cmafly.Prelude.{ℕ, Option, List, [], ◌∷◌, Bool, ◌||◌, bytes_eq}
use cmafly.Demux.Locations.{ByteRange, SampleTableLocs}

pub record ParsedTrack : Type 0 where
  pub timescale : ℕ
  pub fourcc : List ℕ
  pub width : ℕ
  pub height : ℕ
  pub sample_rate : ℕ
  pub channel_count : ℕ
  pub sample_entry : ByteRange
  pub elst : Option ByteRange
  pub sample_table : SampleTableLocs

pub record MoovParse : Type 0 where
  pub video : ParsedTrack
  pub audio : ParsedTrack

pub record UnclassifiedTrack : Type 0 where
  pub handler : List ℕ
  pub timescale : ℕ
  pub width : ℕ
  pub height : ℕ
  pub fourcc : List ℕ
  pub sample_entry : ByteRange
  pub sample_rate : ℕ
  pub channel_count : ℕ
  pub elst : Option ByteRange
  pub sample_table : SampleTableLocs

-- `list.contains(&fourcc)`
abbrev pub fourcc_in : List ℕ → List (List ℕ) → Bool
fourcc_in fourcc [] = Bool.false
fourcc_in fourcc (f ∷ fs) = bytes_eq fourcc f || fourcc_in fourcc fs

-- A type of four characters.
abbrev pub chars : ℕ → ℕ → ℕ → ℕ → List ℕ
chars a b c d = a ∷ b ∷ c ∷ d ∷ []

abbrev pub allowed_brands : List (List ℕ)
allowed_brands =
    chars b'i' b's' b'o' b'm'
    ∷ chars b'm' b'p' b'4' b'2'
    ∷ chars b'i' b's' b'o' b'2'
    ∷ chars b'i' b's' b'o' b'4'
    ∷ chars b'i' b's' b'o' b'5'
    ∷ chars b'i' b's' b'o' b'6'
    ∷ chars b'c' b'm' b'f' b'c'
    ∷ chars b'm' b'p' b'4' b'1'
    ∷ []

abbrev pub video_fourccs : List (List ℕ)
video_fourccs =
    chars b'a' b'v' b'c' b'1' ∷ chars b'h' b'v' b'c' b'1' ∷ chars b'h' b'e' b'v' b'1' ∷ []

abbrev pub audio_fourccs : List (List ℕ)
audio_fourccs = chars b'm' b'p' b'4' b'a' ∷ []

abbrev pub handler_video : List ℕ
handler_video = chars b'v' b'i' b'd' b'e'

abbrev pub handler_audio : List ℕ
handler_audio = chars b's' b'o' b'u' b'n'
