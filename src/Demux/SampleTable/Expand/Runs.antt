-- ===== src/Demux/SampleTable/Expand/Runs.antt =====
-- `expand_run_table` against the concatenation of the runs.
use Prim.Native.String.{String}
use cmafly.Prelude.{ℕ, zero, suc, ◌+◌, ◌≤◌, ◌≡◌, ltb, if◌then◌else◌, arith}
use cmafly.Prelude.{List, [], ◌∷◌, ◌++◌, length, replicate, length-append, length-replicate}
use cmafly.Prelude.{append_assoc, append-nil}
use cmafly.Error.{ok, err}
use cmafly.Demux.SampleTable.Expand.{
  push_run, push_runs, expand_run_table, runs_exceed, runs_disagree,
}

module _ {T : Type 0} where
  -- The runs, written out one after the other.
  abbrev pub written_out : List (ℕ × T) → List T
  written_out [] = []
  written_out ((count, value) ∷ runs) = replicate count value ++ written_out runs

  push_run-eq :
      (n : ℕ) (atom : String) (count : ℕ) (value : T) (out : List T)
      → length out ≤ n
      → push_run n atom count value out ≡ (
          if ltb n (length out + count)
          then err (runs_exceed atom)
          else ok (out ++ replicate count value))
  unfolding push_run
  push_run-eq n atom zero value out le = ground (arith, append-nil out)
  push_run-eq n atom (suc count) value out le = ground (
    arith,
    length-append out (value ∷ []),
    append_assoc out (value ∷ []) (replicate count value),
    push_run-eq n atom count value (out ++ (value ∷ [])),
  )

  push_runs-eq :
      (n : ℕ) (atom : String) (runs : List (ℕ × T)) (out : List T)
      → length out ≤ n
      → push_runs n atom runs out ≡ (
          if ltb n (length out + length (written_out runs))
          then err (runs_exceed atom)
          else ok (out ++ written_out runs))
  unfolding push_runs
  push_runs-eq n atom [] out le = ground (arith, append-nil out)
  push_runs-eq n atom ((count, value) ∷ runs) out le = ground (
    arith,
    push_run-eq n atom count value out,
    length-append out (replicate count value),
    length-append (replicate count value) (written_out runs),
    length-replicate count value,
    append_assoc out (replicate count value) (written_out runs),
    push_runs-eq n atom runs (out ++ replicate count value),
  )

  -- `expand_run_table` returns the runs written out if they make as many entries as expected, and
  -- the one or the other error if they make more or fewer.
  pub expand_run_table-eq :
      (runs : List (ℕ × T)) (n : ℕ) (atom : String)
      → expand_run_table runs n atom ≡ (
          if ltb n (length (written_out runs))
          then err (runs_exceed atom)
          else if ltb (length (written_out runs)) n
          then err (runs_disagree atom)
          else ok (written_out runs))
  expand_run_table-eq runs n atom =
      let all = push_runs-eq n atom runs [] (omega arith) in
      unfold expand_run_table in ground (arith, all)
