-- ===== src/Playlist/Target.antt =====
-- The target duration, and when the durations can be computed.
use cmafly.Prelude.{
  ℕ, ◌*◌, ◌≤◌, ◌<◌, arith, List, [], ◌∷◌, All, div_ceil, div_ceil-enough, div_ceil-least,
}
use cmafly.Playlist.Ticks.{max_ticks, target_duration}

-- Every segment is as long as `target` seconds at most.
abbrev pub Within : ℕ → ℕ → List ℕ → Type 0
Within timescale target ticks = All (λ t. t ≤ target * timescale) ticks

max_ticks-All : (bound : ℕ) (ticks : List ℕ) → max_ticks ticks ≤ bound → All (λ t. t ≤ bound) ticks
max_ticks-All bound [] h = tt
max_ticks-All bound (t ∷ ticks) h = (omega arith, max_ticks-All bound ticks (omega arith))

max_ticks-least :
    (bound : ℕ) (ticks : List ℕ) → All (λ t. t ≤ bound) ticks → max_ticks ticks ≤ bound
max_ticks-least bound [] h = omega arith
max_ticks-least bound (t ∷ ticks) (h, hs) = omega (arith, max_ticks-least bound ticks hs)

-- The target duration of a playlist, in seconds, is the least that no segment is longer than.
pub target_duration_lem :
    (ticks : List ℕ) (timescale : ℕ)
    → 0 < timescale
    → Within timescale (target_duration ticks timescale) ticks
      × ((target : ℕ) → Within timescale target ticks → target_duration ticks timescale ≤ target)
unfolding target_duration
target_duration_lem ticks timescale h = (
  max_ticks-All (div_ceil (max_ticks ticks) timescale * timescale) ticks
      (div_ceil-enough (max_ticks ticks) timescale h),
  λ target within.
      div_ceil-least (max_ticks ticks) timescale target h
        (max_ticks-least (target * timescale) ticks within),
)
