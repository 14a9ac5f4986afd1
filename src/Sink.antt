-- ===== src/Sink.antt =====
-- `Write + Seek` of the standard library, as far as the writers of the packager use it.
pub mod Cursor
use cmafly.Prelude.{ℕ, ◌+◌, ◌≤◌, ◌<◌, ◌≡◌, List, length, overwrite, u64_mod}
use cmafly.Error.{Result, ok, IoError}

-- `Holds w bytes pos`: the writer was given `bytes` and stands at `pos`. The laws are for a writer
-- that does not fail within 64 bits.
pub record Sink (W : Type 0) : Type 1 where
  pub write_all : List ℕ → W → Result IoError W
  pub stream_position : W → Result IoError ℕ
  pub seek : ℕ → W → Result IoError W
  pub Holds : W → List ℕ → ℕ → Type 0
  pub write_all-Holds :
      (w : W) (bytes : List ℕ) (pos : ℕ) (new : List ℕ)
      → Holds w bytes pos
      → pos ≤ length bytes
      → pos + length new < u64_mod
      → (w' : W) × Holds w' (overwrite pos new bytes) (pos + length new) × (write_all new w ≡ ok w')
  pub stream_position-Holds :
      (w : W) (bytes : List ℕ) (pos : ℕ) → Holds w bytes pos → stream_position w ≡ ok pos
  pub seek-Holds :
      (w : W) (bytes : List ℕ) (pos to : ℕ)
      → Holds w bytes pos
      → to ≤ length bytes
      → (w' : W) × Holds w' bytes to × (seek to w ≡ ok w')

abbrev pub Holds : {W : Type 0} ⦃sink : Sink W⦄ → W → List ℕ → ℕ → Type 0
Holds ⦃sink⦄ = sink.Holds
