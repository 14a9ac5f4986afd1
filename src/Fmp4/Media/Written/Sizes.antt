-- ===== src/Fmp4/Media/Written/Sizes.antt =====
-- The numbers that write_media_segment computes.
use cmafly.Prelude.{
  ℕ, ◌+◌, ◌^◌, ◌≤◌, ◌<◌, ◌≡◌, refl, ap, ◌∙◌, arith, List, [], ◌∷◌, length, length-append, flat_map,
  u32_mod, u64_mod, All, lt→ltb,
}
use cmafly.Prelude.{drop, length-take, length-drop}
use cmafly.Error.{ok}
use cmafly.Fmp4.Media.Samples.{sum_loop, sum_sizes, mdat_size, compute_data_offset}
use cmafly.Fmp4.Media.Bytes.{total_size, sample_bytes}
use cmafly.Fmp4.Media.Written.Copy.{InSource}
use cmafly.Index.Format.{SampleEntry}

sum_loop-eq :
    (total : ℕ) (samples : List SampleEntry)
    → total + total_size samples < u64_mod
    → sum_loop total samples ≡ ok (total + total_size samples)
sum_loop-eq total [] h = ap ok (omega arith)
sum_loop-eq total (s ∷ samples) h =
    rw (lt→ltb (total + s.size) u64_mod (omega arith))
      (sum_loop-eq (total + s.size) samples (omega arith) ∙ ap ok (omega arith))

pub sum_sizes-eq :
    (samples : List SampleEntry)
    → total_size samples < u64_mod
    → sum_sizes samples ≡ ok (total_size samples)
unfolding sum_sizes
sum_sizes-eq samples h = sum_loop-eq 0 samples (omega arith) ∙ ap ok (omega arith)

-- The copied bytes of the samples.
abbrev pub payload : List ℕ → List SampleEntry → List ℕ
payload src samples = flat_map (sample_bytes src) samples

pub length-payload :
    (src : List ℕ) (samples : List SampleEntry)
    → All (InSource src) samples
    → length (payload src samples) ≡ total_size samples
length-payload src [] all = refl
length-payload src (s ∷ samples) (inside, all) = omega (
  arith,
  length-append (sample_bytes src s) (flat_map (sample_bytes src) samples),
  length-payload src samples all,
  length-take s.size (drop s.offset src),
  length-drop s.offset src,
)

pub mdat_size-eq : (v a : ℕ) → 8 + (v + a) < u32_mod → mdat_size v a ≡ ok (8 + (v + a))
unfolding mdat_size
mdat_size-eq v a h = ground arith

pub compute_data_offset-eq :
    (payload_start moof_start trailing n : ℕ)
    → payload_start + trailing ≡ moof_start + n
    → trailing ≤ n
    → n < 2 ^ 31
    → compute_data_offset payload_start moof_start trailing ≡ ok n
unfolding compute_data_offset
compute_data_offset-eq payload_start moof_start trailing n e le h = ground arith
