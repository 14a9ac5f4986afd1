-- ===== src/Demux/Moov/Stbl/Ranges.antt =====
-- The ranges of an `stbl` that lies inside the source.
use cmafly.Prelude.{ℕ, ◌+◌, ◌≡◌, ◌⊎◌, inl, inr, arith, Option, none, some, List}
use cmafly.Error.{ok, ok_or, ok_or_err, bind_inv, missing_atom}
use cmafly.Prelude.{subst}
use cmafly.Demux.Moov.SampleEntry.{SampleEntryInfo, parse_stsd_entry, entry_format}
use cmafly.ByteOrder.{ByteOrder}
use cmafly.Demux.Source.{ReadAt, read_exact}
use cmafly.Demux.Source.Exact.{Reads}
use cmafly.Demux.Boxes.{BoxHeader, box_end, next_header}
use cmafly.Demux.Boxes.Each.{each_box}
use cmafly.Demux.Boxes.Bounds.{IsInside}
use cmafly.Demux.Boxes.Each.Invariant.{each_box-keeps, next_box-IsInside}
use cmafly.Demux.Locations.{ByteRange, ChunkOffsets, stco, co64}
use cmafly.Demux.Moov.Ranges.{
  EndsBy, Each, LocsEndBy, ChunkOffsetsEndBy, widen, payload-EndsBy, Each-kept, there, box_range,
}
use cmafly.Demux.Moov.Stbl.{
  StblBoxes, StblData, payload_range, stbl_child, parse_stbl, no_stbl_boxes, pick_chunk_offsets,
  check_grouping_type,
}

record BoxesEndBy (n : ℕ) (s : StblBoxes) : Type 0 where
  stsd : Each (IsInside 0 n) s.stsd
  stts : Each (EndsBy n) s.stts
  stsc : Each (EndsBy n) s.stsc
  stsz : Each (EndsBy n) s.stsz
  stco_box : Each (EndsBy n) s.stco_box
  co64_box : Each (EndsBy n) s.co64_box
  stss : Each (EndsBy n) s.stss
  ctts : Each (EndsBy n) s.ctts

none_EndBy : {n : ℕ} → BoxesEndBy n no_stbl_boxes
none_EndBy = record {
  stsd = tt;
  stts = tt;
  stsc = tt;
  stsz = tt;
  stco_box = tt;
  co64_box = tt;
  stss = tt;
  ctts = tt;
}

module _ ⦃be : ByteOrder⦄ (reader : ReadAt) where
  -- A round keeps each variable or sets it to the box or its payload.
  child_sets :
      (child : BoxHeader) (s s' : StblBoxes)
      → stbl_child reader child s ≡ ok s'
      → ((s'.stsd ≡ s.stsd) ⊎ (s'.stsd ≡ some child))
        × ((s'.stts ≡ s.stts) ⊎ (s'.stts ≡ some (payload_range child)))
        × ((s'.stsc ≡ s.stsc) ⊎ (s'.stsc ≡ some (payload_range child)))
        × ((s'.stsz ≡ s.stsz) ⊎ (s'.stsz ≡ some (payload_range child)))
        × ((s'.stco_box ≡ s.stco_box) ⊎ (s'.stco_box ≡ some (payload_range child)))
        × ((s'.co64_box ≡ s.co64_box) ⊎ (s'.co64_box ≡ some (payload_range child)))
        × ((s'.stss ≡ s.stss) ⊎ (s'.stss ≡ some (payload_range child)))
        × ((s'.ctts ≡ s.ctts) ⊎ (s'.ctts ≡ some (payload_range child)))
  unfolding stbl_child
  child_sets child s s' e = ground (
    arith,
    ok_or_err (check_grouping_type reader child "sbgp"),
    ok_or_err (check_grouping_type reader child "sgpd"),
  )

  module _ (src : List ℕ) (reads : Reads src reader) (n : ℕ) where
    entry-EndsBy :
        (stsd : BoxHeader) (handler : List ℕ) (info : SampleEntryInfo)
        → IsInside 0 n stsd
        → parse_stsd_entry reader stsd handler ≡ ok info
        → EndsBy n info.sample_entry
    unfolding parse_stsd_entry
    entry-EndsBy stsd handler info i e =
        let first = stsd.payload_offset + 8 in
        elim (ok_or_err (read_exact reader stsd.payload_offset 8)) [
          | inl (head, a) ↦ elim (ok_or_err ((next_header reader first (box_end stsd)).0)) [
            | inl (none, b) ↦ absurd (ground (arith, a, b))
            | inl (some entry, b) ↦ elim (ok_or_err (entry_format reader entry handler)) [
              | inl ((rate, count), c) ↦
                  let inside = next_box-IsInside reader src first (box_end stsd) entry reads b in
                  let same : box_range entry ≡ info.sample_entry = ground (arith, a, b, c) in
                  subst (EndsBy n) same (omega (arith, inside.upper, i.upper))
              | inr (why, refused) ↦ absurd (ground (arith, a, b, refused))
            ]
            | inr (why, refused) ↦ absurd (ground (arith, a, refused))
          ]
          | inr (why, refused) ↦ absurd (ground (arith, refused))
        ]

    child-BoxesEndBy :
        (child : BoxHeader) (s s' : StblBoxes)
        → IsInside 0 n child
        → BoxesEndBy n s
        → stbl_child reader child s ≡ ok s'
        → BoxesEndBy n s'
    child-BoxesEndBy child s s' i p e =
        let (c0, c1, c2, c3, c4, c5, c6, c7) = child_sets child s s' e in
        let range = payload-EndsBy i in
        record {
          stsd = Each-kept (IsInside 0 n) c0 p.stsd i;
          stts = Each-kept (EndsBy n) c1 p.stts range;
          stsc = Each-kept (EndsBy n) c2 p.stsc range;
          stsz = Each-kept (EndsBy n) c3 p.stsz range;
          stco_box = Each-kept (EndsBy n) c4 p.stco_box range;
          co64_box = Each-kept (EndsBy n) c5 p.co64_box range;
          stss = Each-kept (EndsBy n) c6 p.stss range;
          ctts = Each-kept (EndsBy n) c7 p.ctts range;
        }

    chunk_offsets-EndBy :
        (a b : Option ByteRange) (c : ChunkOffsets)
        → Each (EndsBy n) a
        → Each (EndsBy n) b
        → pick_chunk_offsets a b ≡ ok c
        → ChunkOffsetsEndBy n c
    unfolding pick_chunk_offsets
    chunk_offsets-EndBy (some r) (some q) c pa pb e = absurd cc
    chunk_offsets-EndBy (some r) none c pa pb e =
        let same : stco r ≡ c = cc in subst (ChunkOffsetsEndBy n) same pa
    chunk_offsets-EndBy none (some q) c pa pb e =
        let same : co64 q ≡ c = cc in subst (ChunkOffsetsEndBy n) same pb
    chunk_offsets-EndBy none none c pa pb e = absurd cc

    pub stbl-EndsBy :
        (stbl : BoxHeader) (handler : List ℕ) (d : StblData)
        → IsInside 0 n stbl
        → parse_stbl reader stbl handler ≡ ok d
        → EndsBy n d.sample_entry × LocsEndBy n d.locs
    unfolding parse_stbl
    stbl-EndsBy stbl handler d i e =
        bind_inv
          (each_box reader (stbl_child reader) stbl.payload_offset (box_end stbl) no_stbl_boxes) _ e
          λ s a e1. bind_inv (ok_or s.stsd (missing_atom "stsd")) _ e1 λ stsd b e2.
            bind_inv (parse_stsd_entry reader stsd handler) _ e2 λ entry c e3.
              bind_inv (pick_chunk_offsets s.stco_box s.co64_box) _ e3 λ offs f e4.
                bind_inv (ok_or s.stts (missing_atom "stts")) _ e4 λ stts g e5.
                  bind_inv (ok_or s.stsc (missing_atom "stsc")) _ e5 λ stsc h e6.
                    bind_inv (ok_or s.stsz (missing_atom "stsz")) _ e6 λ stsz k e7.
                      let p =
                        each_box-keeps reader src reads (BoxesEndBy n) (stbl_child reader)
                          stbl.payload_offset (box_end stbl)
                          (λ child s s' inside. child-BoxesEndBy child s s' (widen i.upper inside))
                          no_stbl_boxes s none_EndBy a in
                      let stsd_in =
                        there (IsInside 0 n) s.stsd (missing_atom "stsd") stsd b p.stsd in
                      let made : (record {
                        fourcc = entry.fourcc;
                        sample_entry = entry.sample_entry;
                        sample_rate = entry.sample_rate;
                        channel_count = entry.channel_count;
                        locs = record {
                          stts = stts;
                          stsc = stsc;
                          stsz = stsz;
                          chunk_offsets = offs;
                          stss = s.stss;
                          ctts = s.ctts;
                        };
                      })
                          ≡ d =
                        cc in
                      subst (λ d. EndsBy n d.sample_entry × LocsEndBy n d.locs) made
                        (
                          entry-EndsBy stsd handler entry stsd_in c,
                          record {
                            stts = there (EndsBy n) s.stts (missing_atom "stts") stts g p.stts;
                            stsc = there (EndsBy n) s.stsc (missing_atom "stsc") stsc h p.stsc;
                            stsz = there (EndsBy n) s.stsz (missing_atom "stsz") stsz k p.stsz;
                            chunk_offsets =
                                chunk_offsets-EndBy s.stco_box s.co64_box offs p.stco_box p.co64_box
                                  f;
                            stss = p.stss;
                            ctts = p.ctts;
                          },
                        )
