-- ===== src/Demux/Source/Example.antt =====
-- A source of six bytes, and a reader of it that gives two bytes at most for each read.
use cmafly.Prelude.{ℕ, min, List, [], ◌∷◌, arith}
use cmafly.Demux.Source.{ReadAt, read_at_bytes}
use cmafly.Demux.Source.Exact.{Reads, read_at_bytes-Reads}

abbrev pub six : List ℕ
six = 10 ∷ 11 ∷ 12 ∷ 13 ∷ 14 ∷ 15 ∷ []

abbrev pub pairs : ReadAt
pairs offset len = read_at_bytes six offset (min len 2)

pub pairs-Reads : Reads six pairs
pairs-Reads offset len =
    let s = read_at_bytes-Reads six offset (min len 2) in
    record {
      n = s.n;
      bytes = s.bytes;
      in_buffer = omega (arith, s.in_buffer);
      in_source = s.in_source;
      some = ground (arith, s.some);
    }
