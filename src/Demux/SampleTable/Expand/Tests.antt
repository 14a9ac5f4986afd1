-- ===== src/Demux/SampleTable/Expand/Tests.antt =====
-- The unit tests of sample_table.rs on runs and chunks, and the theorems at such inputs.
use cmafly.Prelude.{ℕ, ◌+◌, ◌<◌, ◌≡◌, refl, arith, List, [], ◌∷◌, get_elem?, pos}
use cmafly.Error.{ok, err, sample_table_inconsistent}
use cmafly.Demux.SampleTable.Expand.{expand_run_table, expand_stsc, runs_disagree}
use cmafly.Demux.SampleTable.Expand.Runs.{expand_run_table-eq}
use cmafly.Demux.SampleTable.Expand.Chunks.{
  Ascending, StartsAtOne, last_spc, expand_stsc_lem, expand_stsc_complete,
}

-- ctts_offsets_are_applied
ctts_applied :
    expand_run_table ((1, pos 0) ∷ (2, pos 50) ∷ (1, pos 0) ∷ []) 4 "ctts"
    ≡ ok (pos 0 ∷ pos 50 ∷ pos 50 ∷ pos 0 ∷ [])
unfolding expand_run_table
ctts_applied = refl

expand_run_table-eq_example :
    expand_run_table {T = ℕ} ((3, 100) ∷ []) 4 "stts" ≡ err (runs_disagree "stts")
expand_run_table-eq_example = expand_run_table-eq ((3, 100) ∷ []) 4 "stts"

abbrev three_chunks : List (ℕ × ℕ × ℕ)
three_chunks = (1, 4, 1) ∷ (3, 2, 1) ∷ []

three_chunks_run : expand_stsc three_chunks 4 ≡ ok (4 ∷ 4 ∷ 2 ∷ 2 ∷ [])
unfolding expand_stsc
three_chunks_run = refl

-- stsc_first_chunk_one_past_chunk_count_rejected
one_past_rejected :
    expand_stsc ((1, 1, 1) ∷ (3, 1, 1) ∷ []) 2
    ≡ err (sample_table_inconsistent "stsc first_chunk index out of range vs stco length")
unfolding expand_stsc
one_past_rejected = refl

expand_stsc_lem_example :
    ◌≡◌ {A = ℕ} 4 4
    × StartsAtOne 4 three_chunks
    × Ascending 4 three_chunks
    × ((i : ℕ) → i < 4 → get_elem? (4 ∷ 4 ∷ 2 ∷ 2 ∷ []) i ≡ last_spc three_chunks (i + 1))
expand_stsc_lem_example = expand_stsc_lem three_chunks 4 (4 ∷ 4 ∷ 2 ∷ 2 ∷ []) three_chunks_run

expand_stsc_complete_example : (out : List ℕ) × (expand_stsc three_chunks 4 ≡ ok out)
expand_stsc_complete_example = expand_stsc_complete three_chunks 4 refl (omega arith)
