-- ===== src/Demux/Source/Tests.antt =====
-- Runs of `read_exact`, and its theorem over the reader of the example.
use cmafly.Prelude.{◌≡◌, refl, [], ◌∷◌}
use cmafly.Prelude.{arith}
use cmafly.Error.{ok, err, unexpected_eof}
use cmafly.Demux.Source.{read_at_bytes, read_exact}
use cmafly.Demux.Source.Exact.{read_exact-eq}
use cmafly.Demux.Source.Example.{six, pairs, pairs-Reads}

five_in_pairs : read_exact pairs 1 5 ≡ ok (11 ∷ 12 ∷ 13 ∷ 14 ∷ 15 ∷ [])
unfolding read_exact read_at_bytes
five_in_pairs = refl

one_past : read_exact pairs 1 6 ≡ err unexpected_eof
unfolding read_exact read_at_bytes
one_past = refl

read_exact-eq_example : read_exact pairs 1 5 ≡ ok (11 ∷ 12 ∷ 13 ∷ 14 ∷ 15 ∷ [])
read_exact-eq_example = read_exact-eq six pairs 1 5 pairs-Reads (omega arith)
