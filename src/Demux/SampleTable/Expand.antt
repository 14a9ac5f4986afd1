-- ===== src/Demux/SampleTable/Expand.antt =====
-- crates/packager/src/demux/sample_table.rs: the tables that are stored as runs, written out.
pub mod Runs
pub mod Chunks
mod Tests
use Prim.Native.String.{String}
use text.Mathlib.Text.{◌==◌ as str_eq}
use cmafly.Prelude.{ℕ, zero, suc, ◌+◌, ◌-◌, ◌==◌, ltb, leb, if◌then◌else◌, Bool, not, ◌||◌}
use cmafly.Prelude.{List, [], ◌∷◌, ◌++◌, length, take, drop, replicate}
use cmafly.Error.{Result, ok, err, ◌>>=◌, ◌>>◌, fail_if, PackagerError, sample_table_inconsistent}

pub runs_exceed : String → PackagerError
runs_exceed atom = sample_table_inconsistent (
    if str_eq atom "stts"
    then "stts run-counts exceed stsz sample count"
    else if str_eq atom "ctts"
    then "ctts run-counts exceed stsz sample count"
    else "run-table exceeds expected sample count")

pub runs_disagree : String → PackagerError
runs_disagree atom = sample_table_inconsistent (
    if str_eq atom "stts"
    then "stts run-counts disagree with stsz sample count"
    else if str_eq atom "ctts"
    then "ctts run-counts disagree with stsz sample count"
    else "run-table disagrees with expected sample count")

module _ {T : Type 0} where
  -- The inner loop: what is left of one run.
  pub push_run : ℕ → String → ℕ → T → List T → Result PackagerError (List T)
  push_run expected_total atom zero value out = ok out
  push_run expected_total atom (suc count) value out =
      let rest = push_run expected_total atom count value (out ++ (value ∷ [])) in
      if length out == expected_total then err (runs_exceed atom) else rest

  pub push_runs : ℕ → String → List (ℕ × T) → List T → Result PackagerError (List T)
  push_runs expected_total atom [] out = ok out
  push_runs expected_total atom ((count, value) ∷ runs) out =
      push_run expected_total atom count value out >>= push_runs expected_total atom runs

  unfoldable pub expand_run_table : List (ℕ × T) → ℕ → String → Result PackagerError (List T)
  unfolding push_runs push_run runs_exceed runs_disagree
  expand_run_table runs expected_total atom = do
    out ← push_runs expected_total atom runs []
    fail_if (not (length out == expected_total)) (runs_disagree atom)
    ok out

-- `for slot in &mut v[from..to] { *slot = spc; }`
abbrev pub fill : ℕ → ℕ → ℕ → List ℕ → List ℕ
fill from to spc v = take from v ++ (replicate (to - from) spc ++ drop to v)

-- `to_exclusive` of an entry, from the entries behind it.
pub entry_end : ℕ → ℕ → List (ℕ × ℕ × ℕ) → Result PackagerError ℕ
entry_end chunk_count first_chunk [] = ok chunk_count
entry_end chunk_count first_chunk ((next, _, _) ∷ rest) = do
  fail_if (leb next first_chunk)
      (sample_table_inconsistent "stsc first_chunk not strictly ascending")
  ok (next - 1)

-- The loop over the entries.
pub expand_entries : ℕ → List (ℕ × ℕ × ℕ) → List ℕ → Result PackagerError (List ℕ)
expand_entries chunk_count [] samples_per_chunk = ok samples_per_chunk
expand_entries chunk_count ((first_chunk, spc, _) ∷ rest) samples_per_chunk = do
  fail_if (first_chunk == 0) (sample_table_inconsistent "stsc first_chunk is zero")
  to_exclusive ← entry_end chunk_count first_chunk rest
  fail_if (leb chunk_count (first_chunk - 1) || ltb chunk_count to_exclusive)
      (sample_table_inconsistent "stsc first_chunk index out of range vs stco length")
  expand_entries chunk_count rest (fill (first_chunk - 1) to_exclusive spc samples_per_chunk)

unfoldable pub expand_stsc : List (ℕ × ℕ × ℕ) → ℕ → Result PackagerError (List ℕ)
unfolding expand_entries entry_end
expand_stsc [] chunk_count =
    if not (chunk_count == 0)
    then err (sample_table_inconsistent "stsc empty but stco/co64 has chunks")
    else ok (replicate chunk_count 0)
expand_stsc ((first_chunk, spc, sdi) ∷ rest) chunk_count = do
  fail_if (not (first_chunk == 1))
      (sample_table_inconsistent "stsc first entry does not start at chunk 1")
  expand_entries chunk_count ((first_chunk, spc, sdi) ∷ rest) (replicate chunk_count 0)
