-- ===== src/Demux/Moov/Ranges.antt =====
-- The ranges that the parser of the movie header returns end inside the source.
use cmafly.Prelude.{ℕ, ◌+◌, ◌≤◌, ◌≡◌, ◌⊎◌, inl, inr, arith, Option, none, some, sym, subst}
use cmafly.Error.{ok, ok_or, PackagerError}
use cmafly.Demux.Boxes.{BoxHeader}
use cmafly.Demux.Boxes.Bounds.{IsInside}
use cmafly.Demux.Locations.{ByteRange, SampleTableLocs, ChunkOffsets, stco, co64}
use cmafly.Demux.Moov.Stbl.{payload_range}
use cmafly.Demux.Moov.Types.{ParsedTrack}

-- The range ends at byte `n` of the source or before.
abbrev pub EndsBy : ℕ → ByteRange → Type 0
EndsBy n r = r.offset + r.len ≤ n

abbrev pub Each {ℓ} : {A : Type ℓ} → (A → Type 0) → Option A → Type 0
Each P none = Unit
Each P (some a) = P a

abbrev pub ChunkOffsetsEndBy : ℕ → ChunkOffsets → Type 0
ChunkOffsetsEndBy n (stco r) = EndsBy n r
ChunkOffsetsEndBy n (co64 r) = EndsBy n r

pub record LocsEndBy (n : ℕ) (locs : SampleTableLocs) : Type 0 where
  pub stts : EndsBy n locs.stts
  pub stsc : EndsBy n locs.stsc
  pub stsz : EndsBy n locs.stsz
  pub chunk_offsets : ChunkOffsetsEndBy n locs.chunk_offsets
  pub stss : Each (EndsBy n) locs.stss
  pub ctts : Each (EndsBy n) locs.ctts

-- The ranges of a track: its sample entry, its edit list and its tables.
pub record TrackEndsBy (n : ℕ) (t : ParsedTrack) : Type 0 where
  pub sample_entry : EndsBy n t.sample_entry
  pub elst : Each (EndsBy n) t.elst
  pub sample_table : LocsEndBy n t.sample_table

-- A box in a part of the range.
pub widen : {s e n : ℕ} {h : BoxHeader} → e ≤ n → IsInside s e h → IsInside 0 n h
widen le i = record {
  lower = omega arith;
  payload = i.payload;
  header = i.header;
  room = i.room;
  upper = omega (arith, le, i.upper);
}

pub payload-EndsBy : {s n : ℕ} {h : BoxHeader} → IsInside s n h → EndsBy n (payload_range h)
payload-EndsBy i = omega (arith, i.payload, i.room, i.upper)

-- What a round leaves or sets.
pub Each-kept :
    {A : Type 0} (P : A → Type 0) {o o' : Option A} {a : A}
    → (o' ≡ o) ⊎ (o' ≡ some a)
    → Each P o
    → P a
    → Each P o'
Each-kept P (inl same) p pa = subst (Each P) (sym same) p
Each-kept P (inr set) p pa = subst (Each P) (sym set) pa

-- `Option::ok_or` returned what is there.
pub there :
    {A : Type 0} (P : A → Type 0) (o : Option A) (why : PackagerError) (a : A)
    → ok_or o why ≡ ok a
    → Each P o
    → P a
there P (some b) why a e p = let same : b ≡ a = cc in subst P same p
there P none why a e p = absurd cc

-- The bytes of a whole box.
abbrev pub box_range : BoxHeader → ByteRange
box_range h = record { offset = h.start; len = h.declared_size }
