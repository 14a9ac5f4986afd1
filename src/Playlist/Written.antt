-- ===== src/Playlist/Written.antt =====
-- What write_media_playlist writes.
mod Tests
use Prim.Native.String.{String}
use cmafly.Prelude.{
  ℕ, ◌+◌, ◌-◌, ◌*◌, ◌≤◌, ◌<◌, ◌≡◌, refl, ap, sym, ◌∙◌, arith, ◌==◌, List, [], ◌∷◌, ◌++◌, append-nil,
  length, slice, map, All, u64_mod, lt→ltb, le→ltb, codes, pieces_then,
}
use cmafly.Error.{ok, ◌>>=◌, fail_if, sample_table_inconsistent, PackagerError}
use cmafly.Sink.{Sink, Holds}
use cmafly.Fmp4.Writer.{Writer}
use cmafly.Fmp4.Writer.Appends.{
  Appends, pure-Appends, write_all-Appends, writes_then-Appends, then-Appends, bind-Appends,
  lift-Appends,
}
use cmafly.Playlist.{Format, line, write_entries, write_media_playlist}
use cmafly.Playlist.Ticks.{ticks_loop, segment_video_ticks, all_ticks, target_duration}
use cmafly.Index.Format.{SampleEntry, SegmentEntry}
use cmafly.Index.View.Types.{IndexView}

-- The sum of the deltas of a segment, and the segments of an index.
abbrev pub duration : List SampleEntry → ℕ
duration [] = 0
duration (s ∷ samples) = s.dts_delta + duration samples

abbrev pub segment_duration : List SampleEntry → SegmentEntry → ℕ
segment_duration table s = duration (slice s.video_sample_start s.video_sample_count table)

abbrev pub durations : List SampleEntry → List SegmentEntry → List ℕ
durations table [] = []
durations table (s ∷ segments) = segment_duration table s ∷ durations table segments

-- A segment lies in the table, and its ticks fit 64 bits.
pub record Timed (table : List SampleEntry) (s : SegmentEntry) : Type 0 where
  pub range : s.video_sample_start + s.video_sample_count ≤ length table
  pub ticks : segment_duration table s < u64_mod

ticks_loop-eq :
    (ticks : ℕ) (samples : List SampleEntry)
    → ticks + duration samples < u64_mod
    → ticks_loop ticks samples ≡ ok (ticks + duration samples)
ticks_loop-eq ticks [] h = ap ok (omega arith)
ticks_loop-eq ticks (s ∷ samples) h =
    rw (lt→ltb (ticks + s.dts_delta) u64_mod (omega arith))
      (ticks_loop-eq (ticks + s.dts_delta) samples (omega arith) ∙ ap ok (omega arith))

segment_video_ticks-eq :
    (table : List SampleEntry) (s : SegmentEntry)
    → length table < u64_mod
    → Timed table s
    → segment_video_ticks s table ≡ ok (segment_duration table s)
unfolding segment_video_ticks
segment_video_ticks-eq table s small t =
    let start = s.video_sample_start in
    let count = s.video_sample_count in
    let size : start + count - start ≡ count = omega arith in
    rw
      (
        lt→ltb (start + count) u64_mod (omega (arith, t.range)),
        le→ltb (length table) (start + count) t.range,
        size,
      )
      (ticks_loop-eq 0 (slice start count table) (omega (arith, t.ticks)) ∙ ap ok (omega arith))

pub all_ticks-eq :
    (table : List SampleEntry) (segments : List SegmentEntry)
    → length table < u64_mod
    → All (Timed table) segments
    → all_ticks segments table ≡ ok (durations table segments)
unfolding all_ticks
all_ticks-eq table [] small all = refl
all_ticks-eq table (s ∷ segments) small (t, all) =
    rw (segment_video_ticks-eq table s small t, all_ticks-eq table segments small all)

-- The lines of a playlist, as RFC 8216 has them.
abbrev pub entry_lines : Format → ℕ → ℕ → List ℕ → List ℕ
entry_lines format timescale i [] = []
entry_lines format timescale i (ticks ∷ rest) =
    (codes "#EXTINF:" ++ (format.six_decimals ticks timescale ++ line ","))
    ++ ((codes "seg_" ++ (format.four_digits (i + 1) ++ line ".m4s"))
        ++ entry_lines format timescale (i + 1) rest)

abbrev pub header_lines : Format → ℕ → List (List ℕ)
header_lines format target =
    line "#EXTM3U"
    ∷ line "#EXT-X-VERSION:7"
    ∷ line "#EXT-X-INDEPENDENT-SEGMENTS"
    ∷ (codes "#EXT-X-TARGETDURATION:" ++ (format.number target ++ (b'\n' ∷ [])))
    ∷ line "#EXT-X-PLAYLIST-TYPE:VOD"
    ∷ line "#EXT-X-MAP:URI=\"init.mp4\""
    ∷ []

unfoldable pub playlist_text : Format → IndexView → List ℕ
playlist_text format index =
    let timescale = index.video_track.timescale in
    let ticks = durations index.video_samples index.segments in
    pieces_then (header_lines format (target_duration ticks timescale))
      (entry_lines format timescale 0 ticks ++ line "#EXT-X-ENDLIST")

write_entries-Appends :
    {W : Type 0} ⦃sink : Sink W⦄ (format : Format) (timescale i : ℕ) (ticks : List ℕ)
    → Appends {W = W}
        (write_entries format timescale i ticks)
        (entry_lines format timescale i ticks)
        (λ n. tt)
unfolding write_entries
write_entries-Appends format timescale i [] = pure-Appends tt
write_entries-Appends format timescale i (t ∷ ticks) =
    then-Appends (write_all-Appends _)
      (then-Appends (write_all-Appends _) (write_entries-Appends format timescale (i + 1) ticks))

timescale_some :
    (timescale : ℕ) (why : PackagerError) → 0 < timescale → fail_if (timescale == 0) why ≡ ok tt
timescale_some timescale why h = ground arith

-- Where the timescale is not 0 and every segment lies in the video table with ticks of 64 bits,
-- `write_media_playlist` appends to any writer the lines of the playlist: the header with the target
-- duration, two lines for each segment in order, with its ticks and its number from 1 on, and the end.
pub write_media_playlist_lem :
    {W : Type 0} ⦃sink : Sink W⦄ (format : Format) (index : IndexView) (w : W) (b : List ℕ)
    → 0 < index.video_track.timescale
    → length index.video_samples < u64_mod
    → All (Timed index.video_samples) index.segments
    → Holds w b (length b)
    → length b + length (playlist_text format index) < u64_mod
    → (w' : W) × Holds w'
        (b ++ playlist_text format index)
        (length (b ++ playlist_text format index))
      × (write_media_playlist format index w ≡ ok (tt, w'))
unfolding write_media_playlist playlist_text
write_media_playlist_lem format index w b some small timed h fits =
    let timescale = index.video_track.timescale in
    let ticks = durations index.video_samples index.segments in
    (bind-Appends _ (lift-Appends (fail_if (timescale == 0) _) tt (timescale_some timescale _ some))
        λ n.
          bind-Appends _
            (lift-Appends (all_ticks index.segments index.video_samples) ticks
              (all_ticks-eq index.video_samples index.segments small timed))
            λ m. writes_then-Appends (header_lines format (target_duration ticks timescale)) (
              then-Appends (write_entries-Appends format timescale 0 ticks)
                (write_all-Appends (line "#EXT-X-ENDLIST")))).run
      w b h fits
