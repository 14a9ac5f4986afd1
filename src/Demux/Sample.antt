-- ===== src/Demux/Sample.antt =====
-- crates/packager/src/demux/sample_table.rs: the row type of the sample table.
use cmafly.Prelude.{ℕ, ℤ, Bool}

pub record RawSampleEntry : Type 0 where
  pub offset : ℕ
  pub size : ℕ
  pub dts_delta : ℕ
  pub cts_offset : ℤ
  pub is_sync : Bool
