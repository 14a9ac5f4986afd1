-- ===== src/Demux/SampleTable.antt =====
-- crates/packager/src/demux/sample_table.rs: the walker over the sample tables of a track.
pub mod Expand
pub mod Tables
pub mod Rows
pub mod Sync
pub mod Walked
mod Tests
use Prim.Native.String.{String}
use cmafly.Prelude.{ℕ, zero, suc, ◌+◌, ◌-◌, ◌==◌, ltb, leb, if◌then◌else◌, Bool, not, ◌||◌}
use cmafly.Prelude.{
  List, [], ◌∷◌, ◌++◌, length, set, get_or, replicate, checked_add, Option, none, some,
}
use cmafly.Prelude.{ℤ, pos}
use cmafly.Error.{Result, ok, err, ◌>>=◌, ◌>>◌, fail_if, ok_or, PackagerError}
use cmafly.Error.{sample_table_inconsistent}
use cmafly.ByteOrder.{ByteOrder}
use cmafly.Demux.Source.{ReadAt}
use cmafly.Demux.Locations.{SampleTableLocs}
use cmafly.Demux.Sample.{RawSampleEntry}
use cmafly.Demux.SampleTable.Expand.{expand_run_table, expand_stsc}
use cmafly.Demux.SampleTable.Tables.{
  read_stsz, read_stts, read_stsc, read_stss, read_ctts, read_chunk_offsets,
}

pub record WalkedSamples : Type 0 where
  pub samples : List RawSampleEntry
  pub stss_absent : Bool

-- The loop that marks the sync samples.
pub mark_sync : ℕ → List ℕ → List Bool → Result PackagerError (List Bool)
mark_sync n [] sync = ok sync
mark_sync n (s ∷ stss) sync = do
  fail_if (s == 0 || ltb n s) (sample_table_inconsistent "stss sample_number out of range")
  mark_sync n stss (set sync (s - 1) Bool.true)

-- The tables of one element for each of the `n` samples.
pub record Columns : Type 0 where
  pub n : ℕ
  pub sizes : List ℕ
  pub dts_deltas : List ℕ
  pub cts_offsets : List ℤ
  pub sync : List Bool

-- The row of sample `i`. Every column has `n` elements, so no index is out of range and no
-- default is read.
abbrev pub row_at : Columns → ℕ → ℕ → RawSampleEntry
row_at cols i off = record {
  offset = off;
  size = get_or cols.sizes i 0;
  dts_delta = get_or cols.dts_deltas i 0;
  cts_offset = get_or cols.cts_offsets i (pos 0);
  is_sync = get_or cols.sync i Bool.false;
}

-- The inner loop: what is left of one chunk. The state is `samples` and `sample_idx`.
pub walk_chunk :
    Columns → ℕ → ℕ → List RawSampleEntry → ℕ → Result PackagerError (List RawSampleEntry × ℕ)
walk_chunk cols zero off samples sample_idx = ok (samples, sample_idx)
walk_chunk cols (suc spc) off samples sample_idx = do
  fail_if (leb cols.n sample_idx) (sample_table_inconsistent "stsc sample count exceeds stsz")
  let size = get_or cols.sizes sample_idx 0
  next ← ok_or (checked_add off size) (sample_table_inconsistent "sample offset overflows u64")
  walk_chunk cols spc next (samples ++ (row_at cols sample_idx off ∷ [])) (sample_idx + 1)

-- The loop over the chunks, at chunk `chunk_idx`. `expand_stsc` gives a count for each chunk offset, so no
-- index is out of range and no default is read.
pub walk_chunks :
    Columns
    → List ℕ
    → ℕ
    → List ℕ
    → List RawSampleEntry
    → ℕ
    → Result PackagerError (List RawSampleEntry × ℕ)
walk_chunks cols chunk_offs chunk_idx [] samples sample_idx = ok (samples, sample_idx)
walk_chunks cols chunk_offs chunk_idx (spc ∷ rest) samples sample_idx = do
  (samples', sample_idx') ← walk_chunk cols spc (get_or chunk_offs chunk_idx 0) samples sample_idx
  walk_chunks cols chunk_offs (chunk_idx + 1) rest samples' sample_idx'

-- The end of `walk`, from the expanded tables on.
pub walk_rows : Columns → List ℕ → List ℕ → Result PackagerError (List RawSampleEntry)
walk_rows cols chunk_offs samples_per_chunk = do
  (samples, sample_idx) ← walk_chunks cols chunk_offs 0 samples_per_chunk [] 0
  fail_if (not (sample_idx == cols.n))
      (sample_table_inconsistent "stsc sample count disagrees with stsz")
  ok samples

abbrev pub is_none : {A : Type 0} → Option A → Bool
is_none none = Bool.true
is_none (some a) = Bool.false

-- `o.map(f).transpose()?`
abbrev pub transpose :
    {A B : Type 0} → (A → Result PackagerError B) → Option A → Result PackagerError (Option B)
transpose f none = ok none
transpose f (some a) = f a >>= λ b. ok (some b)

-- With no `stss` there is nothing to mark.
abbrev pub get_table : Option (List ℕ) → List ℕ
get_table none = []
get_table (some stss) = stss

abbrev pub expand_ctts : ℕ → Option (List (ℕ × ℤ)) → Result PackagerError (List ℤ)
expand_ctts n none = ok (replicate n (pos 0))
expand_ctts n (some t) = expand_run_table t n "ctts"

unfoldable pub walk :
    ⦃be : ByteOrder⦄ → ReadAt → SampleTableLocs → Result PackagerError WalkedSamples
unfolding walk_rows walk_chunks walk_chunk mark_sync
walk reader locs = do
  sizes ← read_stsz reader locs.stsz
  let n = length sizes
  stts ← read_stts reader locs.stts
  stsc ← read_stsc reader locs.stsc
  chunk_offs ← read_chunk_offsets reader locs.chunk_offsets
  let stss_absent = is_none locs.stss
  stss_table ← transpose (read_stss reader) locs.stss
  ctts_table ← transpose (read_ctts reader) locs.ctts
  dts_deltas ← expand_run_table stts n "stts"
  cts_offsets ← expand_ctts n ctts_table
  sync ← mark_sync n (get_table stss_table) (replicate n stss_absent)
  samples_per_chunk ← expand_stsc stsc (length chunk_offs)
  samples ←
      walk_rows
        (record {
          n = n;
          sizes = sizes;
          dts_deltas = dts_deltas;
          cts_offsets = cts_offsets;
          sync = sync;
        })
        chunk_offs samples_per_chunk
  ok (record { samples = samples; stss_absent = stss_absent })
