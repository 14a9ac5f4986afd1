-- ===== src/Segment/Splitter/Spec.antt =====
-- What a segment table of two tracks should be, said without a loop.
use cmafly.Prelude.{ℕ, zero, suc, ◌+◌, ◌-◌, ◌*◌, ◌≤◌, ◌<◌, ◌≡◌, ◌⊎◌, Bool, true, false, arith}
use cmafly.Prelude.{Option, none, some, List, [], ◌∷◌, length, get_elem?, refl}
use cmafly.Demux.Sample.{RawSampleEntry}
use cmafly.Index.Format.{SegmentEntry}

-- The decode time of sample `k`: the sum of the deltas before it.
abbrev pub dts : List RawSampleEntry → ℕ → ℕ
dts [] k = 0
dts (x ∷ xs) zero = 0
dts (x ∷ xs) (suc k) = x.dts_delta + dts xs k

abbrev pub is_sync_entry : Option RawSampleEntry → Bool
is_sync_entry none = false
is_sync_entry (some x) = x.is_sync

abbrev pub sync_at : List RawSampleEntry → ℕ → Bool
sync_at xs k = is_sync_entry (get_elem? xs k)

pub dts-zero : (xs : List RawSampleEntry) → dts xs 0 ≡ 0
dts-zero [] = refl
dts-zero (x ∷ xs) = refl

pub dts-step :
    (xs : List RawSampleEntry) (k : ℕ) {x : RawSampleEntry}
    → get_elem? xs k ≡ some x
    → dts xs (k + 1) ≡ dts xs k + x.dts_delta
dts-step [] k e = cc
dts-step (y ∷ ys) zero e = ground (arith, dts-zero ys)
dts-step (y ∷ ys) (suc k) e = ground (arith, dts-step ys k e)

-- A sync sample that is `nominal` ticks or more after sample `v`.
abbrev pub MayCut : List RawSampleEntry → ℕ → ℕ → ℕ → Type 0
MayCut video nominal v k = (sync_at video k ≡ true) × (nominal ≤ dts video k - dts video v)

module _ (video audio : List RawSampleEntry) (video_timescale audio_timescale nominal : ℕ) where
  -- `e` is the row of the samples from `v` up to `v'` and from `a` up to `a'`.
  pub record IsSegment (v v' a a' : ℕ) (e : SegmentEntry) : Type 0 where
    pub video_start : e.video_sample_start ≡ v
    pub video_count : v + e.video_sample_count ≡ v'
    pub video_some : 0 < e.video_sample_count
    pub video_dts : e.video_base_dts ≡ dts video v
    pub audio_start : e.audio_sample_start ≡ a
    pub audio_count : a + e.audio_sample_count ≡ a'
    pub audio_some : 0 < e.audio_sample_count
    pub audio_dts : e.audio_base_dts ≡ dts audio a

  -- `v'` is the first sample behind `v` at which a segment may be cut.
  pub record IsFirstCut (v v' : ℕ) : Type 0 where
    pub behind : v < v'
    pub inside : v' < length video
    pub may : MayCut video nominal v v'
    pub first : (k : ℕ) → v < k → k < v' → ¬ MayCut video nominal v k

  -- The audio samples from `a` up to `a'` start before the video sample `v'` does in real time,
  -- and `a'` does not, if there is such a sample. Times are compared as fractions.
  pub record IsAudioCut (v' a a' : ℕ) : Type 0 where
    pub behind : a ≤ a'
    pub inside : a' ≤ length audio
    pub before :
        (k : ℕ) → a ≤ k → k < a' → dts audio k * video_timescale < dts video v' * audio_timescale
    pub past :
        (a' ≡ length audio) ⊎ (dts video v' * audio_timescale ≤ dts audio a' * video_timescale)

  -- The rows of the samples from `v` and from `a` on.
  pub data Partition : ℕ → ℕ → List SegmentEntry → Type 0 where
    tail :
        {v a : ℕ} {e : SegmentEntry}
        → IsSegment v (length video) a (length audio) e
        → ((k : ℕ) → v < k → k < length video → ¬ MayCut video nominal v k)
        → Partition v a (e ∷ [])
    cut :
        {v v' a a' : ℕ} {e : SegmentEntry} {es : List SegmentEntry}
        → IsSegment v v' a a' e
        → IsFirstCut v v'
        → IsAudioCut v' a a'
        → Partition v' a' es
        → Partition v a (e ∷ es)
