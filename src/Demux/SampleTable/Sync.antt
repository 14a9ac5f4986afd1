-- ===== src/Demux/SampleTable/Sync.antt =====
-- `mark_sync` against the sample numbers that the table lists.
use cmafly.Prelude.{ℕ, zero, suc, ◌+◌, ◌-◌, ◌<◌, ◌==◌, ◌≡◌, arith, Bool, ◌||◌}
use cmafly.Prelude.{List, [], ◌∷◌, length, get_or, set, length-set}
use cmafly.Error.{ok}
use cmafly.Demux.SampleTable.{mark_sync}

-- The table lists the number.
abbrev pub listed : List ℕ → ℕ → Bool
listed [] number = Bool.false
listed (s ∷ stss) number = s == number || listed stss number

get_or-set :
    (xs : List Bool) (j i : ℕ)
    → i < length xs
    → get_or (set xs j Bool.true) i Bool.false ≡ (j == i || get_or xs i Bool.false)
get_or-set [] j i h = ground arith
get_or-set (x ∷ xs) zero zero h = ground arith
get_or-set (x ∷ xs) zero (suc i) h = ground arith
get_or-set (x ∷ xs) (suc j) zero h = ground arith
get_or-set (x ∷ xs) (suc j) (suc i) h = ground (arith, get_or-set xs j i)

-- Marking leaves the length, and marks a sample if its number is listed or it was marked before.
pub mark_sync_lem :
    (n : ℕ) (stss : List ℕ) (sync out : List Bool)
    → length sync ≡ n
    → mark_sync n stss sync ≡ ok out
    → (length out ≡ n)
      × ((i : ℕ)
          → i < n
          → get_or out i Bool.false ≡ (listed stss (i + 1) || get_or sync i Bool.false))
unfolding mark_sync
mark_sync_lem n [] sync out len e = (ground arith, λ i h. ground arith)
mark_sync_lem n (s ∷ stss) sync out len e =
    let marked = set sync (s - 1) Bool.true in
    let (length', marks) =
      mark_sync_lem n stss marked out (omega (arith, len, length-set sync (s - 1) Bool.true))
        (ground (arith, e)) in
    (length', λ i h. ground (arith, marks i h, get_or-set sync (s - 1) i))
