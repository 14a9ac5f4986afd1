-- ===== src/Demux/SampleTable/Tests.antt =====
-- A walk over the tables of three samples in two chunks, and the theorems at it.
use cmafly.Prelude.{ℕ, ◌/◌, ◌%◌, ◌≡◌, refl, arith, none, some, List, [], ◌∷◌, ◌++◌, Bool, pos}
use cmafly.Error.{ok, err, sample_table_inconsistent}
use cmafly.ByteOrder.BigEndian.{big_endian}
use cmafly.Demux.Source.{ReadAt, read_at_bytes, read_exact}
use cmafly.Demux.Locations.{stco, SampleTableLocs}
use cmafly.Demux.Sample.{RawSampleEntry}
use cmafly.Demux.SampleTable.{
  Columns, WalkedSamples, walk, walk_rows, walk_chunks, walk_chunk, mark_sync,
}
use cmafly.Demux.SampleTable.Expand.{expand_run_table, expand_stsc}
use cmafly.Demux.SampleTable.Tables.{read_stsz, read_stts, read_stsc, read_chunk_offsets, read_stss}
use cmafly.Demux.SampleTable.Rows.{walk_rows_complete}
use cmafly.Demux.SampleTable.Walked.{Walked, walk-Walked}

abbrev word : ℕ → List ℕ
word n = 0 ∷ 0 ∷ n / 256 ∷ n % 256 ∷ []

-- The payloads of an `stsz`, `stts`, `stsc`, `stco` and `stss`, one behind the other.
abbrev tables : List ℕ
tables =
    (word 0 ++ word 0 ++ word 3 ++ word 5 ++ word 6 ++ word 7)
    ++ (word 0 ++ word 1 ++ word 3 ++ word 100)
    ++ (word 0 ++ word 2 ++ word 1 ++ word 2 ++ word 1 ++ word 2 ++ word 1 ++ word 1)
    ++ (word 0 ++ word 2 ++ word 1000 ++ word 2000)
    ++ (word 0 ++ word 1 ++ word 1)

abbrev source : ReadAt
source = read_at_bytes tables

abbrev locs : SampleTableLocs
locs = record {
  stsz = record { offset = 0; len = 24 };
  stts = record { offset = 24; len = 16 };
  stsc = record { offset = 40; len = 32 };
  chunk_offsets = stco (record { offset = 72; len = 16 });
  stss = some (record { offset = 88; len = 12 });
  ctts = none;
}

abbrev row : ℕ → ℕ → Bool → RawSampleEntry
row offset size sync = record {
  offset = offset;
  size = size;
  dts_delta = 100;
  cts_offset = pos 0;
  is_sync = sync;
}

abbrev rows : List RawSampleEntry
rows = row 1000 5 Bool.true ∷ row 1005 6 Bool.false ∷ row 2000 7 Bool.false ∷ []

abbrev walked : WalkedSamples
walked = record { samples = rows; stss_absent = Bool.false }

walks : walk ⦃be = big_endian⦄ source locs ≡ ok walked
unfolding walk read_at_bytes read_exact read_stsz read_stts read_stsc read_chunk_offsets read_stss
    expand_run_table expand_stsc
walks = refl

walk-Walked_example : Walked ⦃be = big_endian⦄ source locs walked
walk-Walked_example = walk-Walked ⦃be = big_endian⦄ source locs walked walks

abbrev columns : Columns
columns = record {
  n = 3;
  sizes = 5 ∷ 6 ∷ 7 ∷ [];
  dts_deltas = 100 ∷ 100 ∷ 100 ∷ [];
  cts_offsets = pos 0 ∷ pos 0 ∷ pos 0 ∷ [];
  sync = Bool.true ∷ Bool.false ∷ Bool.false ∷ [];
}

walk_rows_complete_example : walk_rows columns (1000 ∷ 2000 ∷ []) (2 ∷ 1 ∷ []) ≡ ok rows
walk_rows_complete_example =
    walk_rows_complete columns (1000 ∷ 2000 ∷ []) (2 ∷ 1 ∷ []) refl
      ((omega arith, (omega arith, tt)), ((omega arith, tt), tt))

too_few_samples :
    walk_rows columns (1000 ∷ []) (2 ∷ [])
    ≡ err (sample_table_inconsistent "stsc sample count disagrees with stsz")
unfolding walk_rows walk_chunks walk_chunk
too_few_samples = refl

sample_number_zero :
    mark_sync 3 (0 ∷ []) (Bool.false ∷ Bool.false ∷ Bool.false ∷ [])
    ≡ err (sample_table_inconsistent "stss sample_number out of range")
unfolding mark_sync
sample_number_zero = refl
