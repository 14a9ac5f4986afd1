-- ===== src/Segment/Splitter/Correct.antt =====
-- What a table that `split` returns promises to the writers and to the server.
use cmafly.Prelude.{ℕ, zero, suc, ◌+◌, ◌-◌, ◌≤◌, ◌<◌, ◌≡◌, refl, ap, ◌∙◌, true}
use cmafly.Prelude.{arith, List, [], ◌∷◌, ◌++◌, All, length}
use cmafly.Error.{ok}
use cmafly.Demux.Sample.{RawSampleEntry}
use cmafly.Index.Format.{SegmentEntry}
use cmafly.Segment.Splitter.{Float64, nominal_ticks, split, starts_sync, split_loop, push_segment}
use cmafly.Segment.Splitter.{first_state, tail_entry, State}
use cmafly.Segment.Splitter.Spec.{sync_at, Partition, tail, cut}
use cmafly.Segment.Splitter.Table.{first-Inv, split_loop-Partition}

split_inv :
    (f64 : Float64) (video audio : List RawSampleEntry) (vts ats : ℕ) (secs : Float64.F f64)
    (segs : List SegmentEntry)
    → split f64 video audio vts ats secs ≡ ok segs
    → (starts_sync video ≡ true)
      × (0 < vts)
      × ((s : State) × (split_loop audio vts ats (nominal_ticks f64 secs vts) 0 video first_state
            ≡ ok s)
          × (push_segment s.segments (tail_entry (length video) (length audio) s) ≡ ok segs))
unfolding split
split_inv f64 video audio vts ats secs segs e = ground arith

-- A table that `split` returns is the partition of both tracks from their first samples on: every
-- row but the last ends at the first sync sample that is the nominal duration or more behind its
-- start, the audio is cut at the first sample that does not start before that video sample in real
-- time, no row is empty in a track, and each row has the decode times of its first samples.
pub split-Partition :
    (f64 : Float64) (video audio : List RawSampleEntry) (vts ats : ℕ) (secs : Float64.F f64)
    (segs : List SegmentEntry)
    → split f64 video audio vts ats secs ≡ ok segs
    → Partition video audio vts ats (nominal_ticks f64 secs vts) 0 0 segs
split-Partition f64 video audio vts ats secs segs e =
    let (sync, pos, (s, run, last)) = split_inv f64 video audio vts ats secs segs e in
    let (new, out, table) =
      split_loop-Partition video audio vts ats (nominal_ticks f64 secs vts) pos video 0 first_state
        s segs refl (omega arith) (first-Inv video audio vts ats (nominal_ticks f64 secs vts) pos)
        run last in
    rw out table

-- The `n` positions from `s` on.
abbrev pub indices : ℕ → ℕ → List ℕ
indices s zero = []
indices s (suc n) = s ∷ indices (s + 1) n

-- The positions that the rows name in one track, row after row.
abbrev pub indices_of : (SegmentEntry → ℕ) → (SegmentEntry → ℕ) → List SegmentEntry → List ℕ
indices_of start count [] = []
indices_of start count (e ∷ es) = indices (start e) (count e) ++ indices_of start count es

indices-add : (s n m : ℕ) → indices s n ++ indices (s + n) m ≡ indices s (n + m)
indices-add s zero m =
    let here : s + 0 ≡ s = omega arith in let all : 0 + m ≡ m = omega arith in rw (here, all) refl
indices-add s (suc n) m =
    let there : s + suc n ≡ s + 1 + n = omega arith in
    let all : suc n + m ≡ suc (n + m) = omega arith in
    rw (there, all) (ap (λ l. s ∷ l) (indices-add (s + 1) n m))

-- A row from `v` up to `v'`, in front of rows that name the positions from `v'` up to `end`.
indices_step :
    (s n v v' end : ℕ) (more : List ℕ)
    → s ≡ v
    → v + n ≡ v'
    → v' ≤ end
    → more ≡ indices v' (end - v')
    → indices s n ++ more ≡ indices v (end - v)
indices_step s n v v' end more e h inside m =
    let size : n + (end - v') ≡ end - v = omega arith in
    rw (e, m, ← h)
      (indices-add v n (end - (v + n)) ∙ ap (indices v) (ap (λ k. n + (end - k)) h ∙ size))

module _ (video audio : List RawSampleEntry) (vts ats nominal : ℕ) where
  covers :
      {v a : ℕ} {segs : List SegmentEntry}
      → Partition video audio vts ats nominal v a segs
      → (indices_of SegmentEntry.video_sample_start SegmentEntry.video_sample_count segs
          ≡ indices v (length video - v))
        × (indices_of SegmentEntry.audio_sample_start SegmentEntry.audio_sample_count segs
            ≡ indices a (length audio - a))
  covers (tail {v} {a} {e} seg rest) = (
    let none : 0 ≡ length video - length video = omega arith in
        indices_step _ _ v (length video) (length video) [] seg.video_start seg.video_count
          (omega arith) (ap (indices (length video)) none),
    let none : 0 ≡ length audio - length audio = omega arith in
        indices_step _ _ a (length audio) (length audio) [] seg.audio_start seg.audio_count
          (omega arith) (ap (indices (length audio)) none),
  )
  covers (cut {v} {v'} {a} {a'} {e} {es} seg first acut more) = (
    indices_step _ _ v v' (length video) _ seg.video_start seg.video_count
        (omega (arith, first.inside)) (covers more).0,
    indices_step _ _ a a' (length audio) _ seg.audio_start seg.audio_count acut.inside
        (covers more).1,
  )

  starts_sync-All :
      {v a : ℕ} {segs : List SegmentEntry}
      → sync_at video v ≡ true
      → Partition video audio vts ats nominal v a segs
      → All (λ e. sync_at video e.video_sample_start ≡ true) segs
  starts_sync-All h (tail seg rest) = (rw seg.video_start h, tt)
  starts_sync-All h (cut seg first acut more) =
      (rw seg.video_start h, starts_sync-All first.may.0 more)

first_sync : (video : List RawSampleEntry) → starts_sync video ≡ true → sync_at video 0 ≡ true
first_sync [] h = h
first_sync (x ∷ xs) h = h

-- The rows of a table that `split` returns name the positions 0, 1, 2, ... of the two tracks one by one,
-- in order and up to the last sample, and no position behind it.
pub split-covers :
    (f64 : Float64) (video audio : List RawSampleEntry) (vts ats : ℕ) (secs : Float64.F f64)
    (segs : List SegmentEntry)
    → split f64 video audio vts ats secs ≡ ok segs
    → (indices_of SegmentEntry.video_sample_start SegmentEntry.video_sample_count segs
        ≡ indices 0 (length video))
      × (indices_of SegmentEntry.audio_sample_start SegmentEntry.audio_sample_count segs
          ≡ indices 0 (length audio))
split-covers f64 video audio vts ats secs segs e =
    let (v, a) =
      covers video audio vts ats (nominal_ticks f64 secs vts)
        (split-Partition f64 video audio vts ats secs segs e) in
    (v ∙ ap (indices 0) (omega arith), a ∙ ap (indices 0) (omega arith))

-- Every row of a table that `split` returns starts at a sync sample of the video track.
pub split-starts_sync :
    (f64 : Float64) (video audio : List RawSampleEntry) (vts ats : ℕ) (secs : Float64.F f64)
    (segs : List SegmentEntry)
    → split f64 video audio vts ats secs ≡ ok segs
    → All (λ e. sync_at video e.video_sample_start ≡ true) segs
split-starts_sync f64 video audio vts ats secs segs e =
    starts_sync-All video audio vts ats (nominal_ticks f64 secs vts)
      (first_sync video (split_inv f64 video audio vts ats secs segs e).0)
      (split-Partition f64 video audio vts ats secs segs e)
