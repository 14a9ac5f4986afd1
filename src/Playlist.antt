-- ===== src/Playlist.antt =====
-- crates/packager/src/playlist/m3u8.rs: the media playlist of an index.
pub mod Ticks
pub mod Target
pub mod Written
use Prim.Native.String.{String}
use cmafly.Prelude.{ℕ, ◌+◌, ◌==◌, List, [], ◌∷◌, ◌++◌, codes}
use cmafly.Error.{Result, fail_if, PackagerError, sample_table_inconsistent}
use cmafly.Sink.{Sink}
use cmafly.Fmp4.Writer.{Writer, pure, lift, ◌>>=◌, ◌>>◌, write_all}
use cmafly.Playlist.Ticks.{all_ticks, target_duration}
use cmafly.Index.View.Types.{IndexView}

-- The formatting of the standard library: a number, a number of four digits at least, and the
-- quotient of two numbers as an f64 with six decimal places.
pub record Format : Type 0 where
  pub number : ℕ → List ℕ
  pub four_digits : ℕ → List ℕ
  pub six_decimals : ℕ → ℕ → List ℕ

-- A text with the line feed behind it.
abbrev pub line : String → List ℕ
line text = codes text ++ (b'\n' ∷ [])

module _ {W : Type 0} ⦃sink : Sink W⦄ (format : Format) where
  -- The loop over the segments, from index `i` on. `writeln!` is one write here.
  unfoldable pub write_entries : ℕ → ℕ → List ℕ → Writer W (Unit {0})
  write_entries timescale i [] = pure tt
  write_entries timescale i (ticks ∷ rest) = do
    write_all (codes "#EXTINF:" ++ (format.six_decimals ticks timescale ++ line ","))
    write_all (codes "seg_" ++ (format.four_digits (i + 1) ++ line ".m4s"))
    write_entries timescale (i + 1) rest

  unfoldable pub write_media_playlist : IndexView → Writer W (Unit {0})
  write_media_playlist index = do
    let timescale = index.video_track.timescale
    lift (
        fail_if (timescale == 0)
          (sample_table_inconsistent "video timescale is zero (cannot compute EXTINF)"))
    seg_ticks ← lift (all_ticks index.segments index.video_samples)
    write_all (line "#EXTM3U")
    write_all (line "#EXT-X-VERSION:7")
    write_all (line "#EXT-X-INDEPENDENT-SEGMENTS")
    write_all (
        codes "#EXT-X-TARGETDURATION:"
        ++ (format.number (target_duration seg_ticks timescale) ++ (b'\n' ∷ [])))
    write_all (line "#EXT-X-PLAYLIST-TYPE:VOD")
    write_all (line "#EXT-X-MAP:URI=\"init.mp4\"")
    write_entries timescale 0 seg_ticks
    write_all (line "#EXT-X-ENDLIST")
