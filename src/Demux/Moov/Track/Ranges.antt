-- ===== src/Demux/Moov/Track/Ranges.antt =====
-- The ranges of a `trak` that lies inside the source.
use cmafly.Prelude.{ℕ, ◌≡◌, ◌⊎◌, arith, none, some, List, subst}
use cmafly.Error.{ok, ok_or, ok_or_err, bind_inv, missing_atom}
use cmafly.ByteOrder.{ByteOrder}
use cmafly.Demux.Source.{ReadAt}
use cmafly.Demux.Source.Exact.{Reads}
use cmafly.Demux.Boxes.{BoxHeader, box_end}
use cmafly.Demux.Boxes.Bounds.{IsInside}
use cmafly.Demux.Boxes.Each.{each_box}
use cmafly.Demux.Boxes.Each.Invariant.{each_box-keeps, find_box-IsInside}
use cmafly.Demux.Moov.Types.{UnclassifiedTrack}
use cmafly.Demux.Moov.Classify.{into_parsed}
use cmafly.Demux.Moov.Ranges.{
  EndsBy, Each, Each-kept, there, LocsEndBy, TrackEndsBy, widen, box_range,
}
use cmafly.Demux.Moov.Stbl.{parse_stbl}
use cmafly.Demux.Moov.Stbl.Ranges.{stbl-EndsBy}
use cmafly.Demux.Moov.Track.{
  MdiaBoxes, MdiaData, TrakBoxes, mdia_child, parse_mdia, trak_child, parse_trak, locate_stbl,
  parse_mdhd_timescale, parse_hdlr_type, parse_tkhd,
}

module _ ⦃be : ByteOrder⦄ (reader : ReadAt) where
  mdia_sets :
      (child : BoxHeader) (s s' : MdiaBoxes)
      → mdia_child reader child s ≡ ok s'
      → (s'.minf ≡ s.minf) ⊎ (s'.minf ≡ some child)
  unfolding mdia_child
  mdia_sets child s s' e = ground (
    arith,
    ok_or_err (parse_mdhd_timescale reader child),
    ok_or_err (parse_hdlr_type reader child),
  )

  trak_sets :
      (child : BoxHeader) (s s' : TrakBoxes)
      → trak_child reader child s ≡ ok s'
      → ((s'.mdia ≡ s.mdia) ⊎ (s'.mdia ≡ some child))
        × ((s'.elst ≡ s.elst) ⊎ (s'.elst ≡ some (box_range child)))
  unfolding trak_child
  trak_sets child s s' e = ground (arith, ok_or_err (parse_tkhd reader child))

  module _ (src : List ℕ) (reads : Reads src reader) (n : ℕ) where
    mdia-EndsBy :
        (mdia : BoxHeader) (d : MdiaData)
        → IsInside 0 n mdia
        → parse_mdia reader mdia ≡ ok d
        → EndsBy n d.sample_entry × LocsEndBy n d.sample_table
    unfolding parse_mdia locate_stbl
    mdia-EndsBy mdia d i e =
        let start : MdiaBoxes = record { mdhd = none; handler = none; minf = none } in
        bind_inv (each_box reader (mdia_child reader) mdia.payload_offset (box_end mdia) start) _ e
          λ s a e1. bind_inv (ok_or s.mdhd (missing_atom "mdhd")) _ e1 λ timescale b e2.
            bind_inv (ok_or s.handler (missing_atom "hdlr")) _ e2 λ handler c e3.
              bind_inv (ok_or s.minf (missing_atom "minf")) _ e3 λ minf f e4.
                bind_inv (locate_stbl reader minf) _ e4 λ stbl g e5.
                  bind_inv (parse_stbl reader stbl handler) _ e5 λ found h e6.
                    let p =
                      each_box-keeps reader src reads (λ s. Each (IsInside 0 n) s.minf)
                        (mdia_child reader) mdia.payload_offset (box_end mdia)
                        (λ child s s' inside p run.
                          Each-kept (IsInside 0 n) (mdia_sets child s s' run) p
                            (widen i.upper inside))
                        start s tt a in
                    let minf_in = there (IsInside 0 n) s.minf (missing_atom "minf") minf f p in
                    let stbl_in =
                      widen minf_in.upper
                        (find_box-IsInside reader src reads _ "stbl" _ _ stbl g) in
                    let made : (record {
                      handler = handler;
                      timescale = timescale;
                      fourcc = found.fourcc;
                      sample_entry = found.sample_entry;
                      sample_rate = found.sample_rate;
                      channel_count = found.channel_count;
                      sample_table = found.locs;
                    })
                        ≡ d =
                      cc in
                    subst (λ d. EndsBy n d.sample_entry × LocsEndBy n d.sample_table) made
                      (stbl-EndsBy reader src reads n stbl handler found stbl_in h)

    pub trak-EndsBy :
        (trak : BoxHeader) (t : UnclassifiedTrack)
        → IsInside 0 n trak
        → parse_trak reader trak ≡ ok t
        → TrackEndsBy n (into_parsed t)
    unfolding parse_trak
    trak-EndsBy trak t i e =
        let start : TrakBoxes = record { tkhd = none; mdia = none; elst = none } in
        bind_inv (each_box reader (trak_child reader) trak.payload_offset (box_end trak) start) _ e
          λ s a e1. bind_inv (ok_or s.tkhd (missing_atom "tkhd")) _ e1 λ tkhd b e2.
            bind_inv (ok_or s.mdia (missing_atom "mdia")) _ e2 λ mdia c e3.
              bind_inv (parse_mdia reader mdia) _ e3 λ found f e4.
                let (mdia_in, elst_in) =
                  each_box-keeps reader src reads
                    (λ s. Each (IsInside 0 n) s.mdia × Each (EndsBy n) s.elst) (trak_child reader)
                    trak.payload_offset (box_end trak)
                    (λ child s s' inside p run.
                      let (m, l) = trak_sets child s s' run in
                      let at = widen i.upper inside in
                      (Each-kept (IsInside 0 n) m p.0 at, Each-kept (EndsBy n) l p.1 at.upper))
                    start s (tt, tt) a in
                let (entry, locs) =
                  mdia-EndsBy mdia found
                    (there (IsInside 0 n) s.mdia (missing_atom "mdia") mdia c mdia_in) f in
                let same_entry : found.sample_entry ≡ t.sample_entry = cc in
                let same_elst : s.elst ≡ t.elst = cc in
                let same_locs : found.sample_table ≡ t.sample_table = cc in
                record {
                  sample_entry = subst (EndsBy n) same_entry entry;
                  elst = subst (Each (EndsBy n)) same_elst elst_in;
                  sample_table = subst (LocsEndBy n) same_locs locs;
                }
