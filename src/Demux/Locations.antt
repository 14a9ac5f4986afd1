-- ===== src/Demux/Locations.antt =====
-- crates/packager/src/demux/moov.rs: where the atoms of a track lie in the source.
use cmafly.Prelude.{ℕ, Option}

pub record ByteRange : Type 0 where
  pub offset : ℕ
  pub len : ℕ

pub data ChunkOffsets : Type 0 where
  stco : ByteRange → ChunkOffsets
  co64 : ByteRange → ChunkOffsets

pub record SampleTableLocs : Type 0 where
  pub stts : ByteRange
  pub stsc : ByteRange
  pub stsz : ByteRange
  pub chunk_offsets : ChunkOffsets
  pub stss : Option ByteRange
  pub ctts : Option ByteRange
