-- ===== src/Segment/Splitter/Cuts.antt =====
-- The steps of `split` against the specification: the scaled time, the audio cursor, one round.
use cmafly.Prelude.{ℕ, ◌+◌, ◌*◌, ◌≤◌, ◌<◌, ◌≡◌, ◌↔◌, ◌⊎◌, inl, inr, refl}
use cmafly.Prelude.{arith, lt-div_ceil}
use cmafly.Prelude.{List, [], ◌∷◌, length, drop, drop-eq-cons, drop-eq-nil}
use cmafly.Error.{ok}
use cmafly.Demux.Sample.{RawSampleEntry}
use cmafly.Segment.Splitter.{scale_dts_ceil, advance_loop, advance_audio_to}
use cmafly.Segment.Splitter.Spec.{dts, dts-step}

-- A tick is below the scaled time exactly if it is before the unscaled one in real time.
pub scale_dts_ceil_lem :
    (d vts ats t x : ℕ) → 0 < vts → scale_dts_ceil d vts ats ≡ ok t → (x < t) ↔ (x * vts < d * ats)
unfolding scale_dts_ceil
scale_dts_ceil_lem d vts ats t x h e = ground (arith, lt-div_ceil x (d * ats) vts h)

-- Where the audio cursor stops.
pub record Stops (audio : List RawSampleEntry) (target c c' t' : ℕ) : Type 0 where
  pub behind : c ≤ c'
  pub inside : c' ≤ length audio
  pub time : t' ≡ dts audio c'
  pub before : (k : ℕ) → c ≤ k → k < c' → dts audio k < target
  pub past : (c' ≡ length audio) ⊎ (target ≤ dts audio c')

-- One round of the loop: the cursor steps over `x`, or it stops at it.
advance_loop-cons :
    (x : RawSampleEntry) (rest : List RawSampleEntry) (c t target c' t' : ℕ)
    → advance_loop (x ∷ rest) c t target ≡ ok (c', t')
    → (t < target) × (advance_loop rest (c + 1) (t + x.dts_delta) target ≡ ok (c', t'))
      ⊎ (target ≤ t) × (c ≡ c') × (t ≡ t')
unfolding advance_loop
advance_loop-cons x rest c t target c' t' e = ground arith

advance_loop-Stops :
    (audio rest : List RawSampleEntry) (c t target : ℕ) {c' t' : ℕ}
    → drop c audio ≡ rest
    → c ≤ length audio
    → t ≡ dts audio c
    → advance_loop rest c t target ≡ ok (c', t')
    → Stops audio target c c' t'
advance_loop-Stops audio [] c t target {c'} {t'} d h et e =
    let end = drop-eq-nil c audio d in
    let same : (c ≡ c') × (t ≡ t') = unfold advance_loop in (cc, cc) in
    record {
      behind = omega arith;
      inside = omega arith;
      time = ground arith;
      before = λ k lo hi. omega arith;
      past = ground arith;
    }
advance_loop-Stops audio (x ∷ rest) c t target {c'} {t'} d h et e =
    let (here, next, inside) = drop-eq-cons c audio d in
    elim (advance_loop-cons x rest c t target c' t' e) [
      | inl (below, e') ↦
          let r =
            advance_loop-Stops audio rest (c + 1) (t + x.dts_delta) target next (omega arith)
              (omega (arith, dts-step audio c here)) e' in
          record {
            behind = omega (arith, r.behind);
            inside = r.inside;
            time = r.time;
            before = λ k lo hi. ground (arith, r.before k);
            past = r.past;
          }
      | inr (there, ec, et') ↦ record {
        behind = omega arith;
        inside = omega arith;
        time = ground arith;
        before = λ k lo hi. omega arith;
        past = ground arith;
      }
    ]

pub advance_audio_to-Stops :
    (audio : List RawSampleEntry) (c t target : ℕ) {c' t' : ℕ}
    → c ≤ length audio
    → t ≡ dts audio c
    → advance_audio_to audio c t target ≡ ok (c', t')
    → Stops audio target c c' t'
unfolding advance_audio_to
advance_audio_to-Stops audio c t target h et e =
    advance_loop-Stops audio (drop c audio) c t target refl h et e
