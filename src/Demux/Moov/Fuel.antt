-- ===== src/Demux/Moov/Fuel.antt =====
-- The parser of the movie header does not run out of fuel.
use Prim.Native.String.{String}
use cmafly.Prelude.{ℕ, zero, suc, ◌+◌, ◌<◌, ◌≢◌, inl, inr, arith, Option, none, some, List}
use cmafly.Prelude.{if◌then◌else◌, [], Bool}
use cmafly.Error.{Result, ok, err, ok_or, ok_or_err, fail_if, PackagerError, io, out_of_fuel}
use cmafly.Error.{◌>>=◌, malformed_atom, fragmented_input, encrypted_input, map_err}
use cmafly.ByteOrder.{ByteOrder}
use cmafly.Demux.Source.{ReadAt, read_exact}
use cmafly.Demux.Source.Exact.{Reads}
use cmafly.Demux.Boxes.{BoxHeader, box_end, next_header, payload_len}
use cmafly.Demux.Boxes.Each.Fuel.{
  IsDone, each_box-IsDone, find_box-IsDone, read_exact-IsDone, next_header-IsDone,
}
use cmafly.Prelude.{drop, length, ◌/◌}
use cmafly.Demux.Locations.{ByteRange}
use cmafly.Demux.Moov.Types.{UnclassifiedTrack}
use cmafly.Demux.Moov.Classify.{classified, classify_tracks}
use cmafly.Demux.Moov.{
  brand_loop, TopBoxes, check_ftyp, keep_moov, top_child, moov_child, parse_top_level,
}
use cmafly.Demux.Moov.SampleEntry.{
  reject_encryption, verify_no_encryption, parse_audio_sample_entry, entry_format, parse_stsd_entry,
}
use cmafly.Demux.Moov.Stbl.{
  StblBoxes, check_grouping_type, stbl_child, parse_stbl, pick_chunk_offsets, no_stbl_boxes,
}
use cmafly.Demux.Moov.Track.{
  MdiaBoxes, TrakBoxes, parse_tkhd, parse_mdhd_timescale, parse_hdlr_type, locate_stbl, mdia_child,
  parse_mdia, trak_child, parse_trak,
}

-- A chain is done if its steps are.
bind-IsDone :
    {V W : Type 0} (r : Result PackagerError V) (next : V → Result PackagerError W)
    → IsDone r
    → ((v : V) → IsDone (next v))
    → IsDone (r >>= next)
bind-IsDone (ok v) next d f e = f v e
bind-IsDone (err why) next d f e = d cc

ok-IsDone : {V : Type 0} (v : V) → IsDone (ok v)
ok-IsDone v e = cc

err-IsDone : {V : Type 0} (why : PackagerError) → why ≢ io out_of_fuel → IsDone {A = V} (err why)
err-IsDone why ne e = ne cc

ok_or-IsDone :
    {V : Type 0} (o : Option V) (why : PackagerError) → why ≢ io out_of_fuel → IsDone (ok_or o why)
ok_or-IsDone (some v) why ne e = cc
ok_or-IsDone none why ne e = ne cc

-- A test that refuses the source.
fail_if-IsDone : (b : Bool) (atom reason : String) → IsDone (fail_if b (malformed_atom atom reason))
fail_if-IsDone Bool.true atom reason e = cc
fail_if-IsDone Bool.false atom reason e = cc

if-IsDone :
    {V : Type 0} (b : Bool) (x y : Result PackagerError V)
    → IsDone x
    → IsDone y
    → IsDone (if b then x else y)
if-IsDone Bool.true x y dx dy = dx
if-IsDone Bool.false x y dx dy = dy

module _ ⦃be : ByteOrder⦄ (reader : ReadAt) (src : List ℕ) (reads : Reads src reader) where
  read : (offset len : ℕ) → 0 < len → IsDone (map_err io (read_exact reader offset len))
  read = read_exact-IsDone reader src reads

  verify_no_encryption-IsDone :
      (entry : BoxHeader) (prefix : ℕ) → IsDone (verify_no_encryption reader entry prefix)
  unfolding verify_no_encryption reject_encryption
  verify_no_encryption-IsDone entry prefix e =
      let each =
        each_box-IsDone reader src reads reject_encryption (λ h s e. ground (arith, e))
          (entry.payload_offset + prefix) (box_end entry) tt in
      ground (arith, each)

  parse_audio_sample_entry-IsDone :
      (entry : BoxHeader) → IsDone (parse_audio_sample_entry reader entry)
  unfolding parse_audio_sample_entry
  parse_audio_sample_entry-IsDone entry e = ground (arith, read entry.payload_offset 28)

  entry_format-IsDone :
      (entry : BoxHeader) (handler : List ℕ) → IsDone (entry_format reader entry handler)
  unfolding entry_format
  entry_format-IsDone entry handler e = ground (
    arith,
    verify_no_encryption-IsDone entry 78,
    verify_no_encryption-IsDone entry 28,
    parse_audio_sample_entry-IsDone entry,
  )

  check_grouping_type-IsDone :
      (h : BoxHeader) (atom : String) → IsDone (check_grouping_type reader h atom)
  unfolding check_grouping_type
  check_grouping_type-IsDone h atom e = ground (arith, read (h.payload_offset + 4) 4)

  stbl_child-IsDone : (h : BoxHeader) (s : StblBoxes) → IsDone (stbl_child reader h s)
  unfolding stbl_child
  stbl_child-IsDone h s e =
      ground (arith, check_grouping_type-IsDone h "sbgp", check_grouping_type-IsDone h "sgpd")

  parse_tkhd-IsDone : (h : BoxHeader) → IsDone (parse_tkhd reader h)
  unfolding parse_tkhd
  parse_tkhd-IsDone h e = ground (
    arith,
    read h.payload_offset 4,
    read (h.payload_offset + 4 + 72) 8,
    read (h.payload_offset + 4 + 84) 8,
  )

  parse_mdhd_timescale-IsDone : (h : BoxHeader) → IsDone (parse_mdhd_timescale reader h)
  unfolding parse_mdhd_timescale
  parse_mdhd_timescale-IsDone h e = ground (
    arith,
    read h.payload_offset 4,
    read (h.payload_offset + 4 + 8) 4,
    read (h.payload_offset + 4 + 16) 4,
  )

  parse_hdlr_type-IsDone : (h : BoxHeader) → IsDone (parse_hdlr_type reader h)
  unfolding parse_hdlr_type
  parse_hdlr_type-IsDone h e = ground (arith, read (h.payload_offset + 8) 4)

  mdia_child-IsDone : (h : BoxHeader) (s : MdiaBoxes) → IsDone (mdia_child reader h s)
  unfolding mdia_child
  mdia_child-IsDone h s e = ground (arith, parse_mdhd_timescale-IsDone h, parse_hdlr_type-IsDone h)

  trak_child-IsDone : (h : BoxHeader) (s : TrakBoxes) → IsDone (trak_child reader h s)
  unfolding trak_child
  trak_child-IsDone h s e = ground (arith, parse_tkhd-IsDone h)

  parse_stsd_entry-IsDone :
      (stsd : BoxHeader) (handler : List ℕ) → IsDone (parse_stsd_entry reader stsd handler)
  unfolding parse_stsd_entry
  parse_stsd_entry-IsDone stsd handler e =
      let first = stsd.payload_offset + 8 in
      let header = read stsd.payload_offset 8 in
      let found = next_header-IsDone reader src reads first (box_end stsd) in
      elim (ok_or_err ((next_header reader first (box_end stsd)).0)) [
        | inl (none, f) ↦ ground (arith, header, f)
        | inl (some entry, f) ↦ ground (arith, header, f, entry_format-IsDone entry handler)
        | inr (why, refused) ↦ ground (arith, header, refused, found)
      ]

  pick_chunk_offsets-IsDone : (a b : Option ByteRange) → IsDone (pick_chunk_offsets a b)
  unfolding pick_chunk_offsets
  pick_chunk_offsets-IsDone (some r) (some q) e = cc
  pick_chunk_offsets-IsDone (some r) none e = cc
  pick_chunk_offsets-IsDone none (some q) e = cc
  pick_chunk_offsets-IsDone none none e = cc

  parse_stbl-IsDone :
      (stbl : BoxHeader) (handler : List ℕ) → IsDone (parse_stbl reader stbl handler)
  unfolding parse_stbl
  parse_stbl-IsDone stbl handler =
      bind-IsDone _ _
        (each_box-IsDone reader src reads (stbl_child reader) stbl_child-IsDone stbl.payload_offset
          (box_end stbl) no_stbl_boxes)
        λ s. bind-IsDone _ _ (ok_or-IsDone s.stsd _ (λ e. cc)) λ stsd.
          bind-IsDone _ _ (parse_stsd_entry-IsDone stsd handler) λ entry.
            bind-IsDone _ _ (pick_chunk_offsets-IsDone s.stco_box s.co64_box) λ offsets.
              bind-IsDone _ _ (ok_or-IsDone s.stts _ (λ e. cc)) λ stts.
                bind-IsDone _ _ (ok_or-IsDone s.stsc _ (λ e. cc))
                  λ stsc. bind-IsDone _ _ (ok_or-IsDone s.stsz _ (λ e. cc)) λ stsz e. cc

  parse_mdia-IsDone : (mdia : BoxHeader) → IsDone (parse_mdia reader mdia)
  unfolding parse_mdia locate_stbl
  parse_mdia-IsDone mdia =
      bind-IsDone _ _
        (each_box-IsDone reader src reads (mdia_child reader) mdia_child-IsDone mdia.payload_offset
          (box_end mdia) _)
        λ s. bind-IsDone _ _ (ok_or-IsDone s.mdhd _ (λ e. cc)) λ timescale.
          bind-IsDone _ _ (ok_or-IsDone s.handler _ (λ e. cc)) λ handler.
            bind-IsDone _ _ (ok_or-IsDone s.minf _ (λ e. cc)) λ minf.
              bind-IsDone _ _
                (find_box-IsDone reader src reads _ "stbl" minf.payload_offset (box_end minf))
                λ stbl. bind-IsDone _ _ (parse_stbl-IsDone stbl handler) λ d e. cc

  pub parse_trak-IsDone : (trak : BoxHeader) → IsDone (parse_trak reader trak)
  unfolding parse_trak
  parse_trak-IsDone trak =
      bind-IsDone _ _
        (each_box-IsDone reader src reads (trak_child reader) trak_child-IsDone trak.payload_offset
          (box_end trak) _)
        λ s. bind-IsDone _ _ (ok_or-IsDone s.tkhd _ (λ e. cc)) λ tkhd.
          bind-IsDone _ _ (ok_or-IsDone s.mdia _ (λ e. cc))
            λ mdia. bind-IsDone _ _ (parse_mdia-IsDone mdia) λ d e. cc

  brand_loop-IsDone : (chunks : ℕ) (compat : List ℕ) → IsDone (brand_loop chunks compat)
  unfolding brand_loop
  brand_loop-IsDone zero compat e = cc
  brand_loop-IsDone (suc chunks) compat e = ground (arith, brand_loop-IsDone chunks (drop 4 compat))

  check_ftyp-IsDone : (h : BoxHeader) → IsDone (check_ftyp reader h)
  unfolding check_ftyp
  check_ftyp-IsDone h e = elim (ok_or_err (read_exact reader h.payload_offset (payload_len h))) [
    | inl (buf, a) ↦ ground (arith, a, brand_loop-IsDone (length (drop 8 buf) / 4) (drop 8 buf))
    | inr (why, refused) ↦ ground (arith, read h.payload_offset (payload_len h))
  ]

  keep_moov-IsDone :
      (h : BoxHeader) (s : TopBoxes) (o : Option BoxHeader) → IsDone (keep_moov reader h s o)
  keep_moov-IsDone h s none e = cc
  keep_moov-IsDone h s (some first) e = cc

  top_child-IsDone : (h : BoxHeader) (s : TopBoxes) → IsDone (top_child reader h s)
  unfolding top_child
  top_child-IsDone h s =
      if-IsDone _ _ _ (bind-IsDone _ _ (check_ftyp-IsDone h) λ checked. ok-IsDone _) (
        if-IsDone _ _ _ (keep_moov-IsDone h s s.moov) (
          if-IsDone _ _ _ (err-IsDone fragmented_input (λ e. cc))
            (if-IsDone _ _ _ (err-IsDone encrypted_input (λ e. cc)) (ok-IsDone s))))

  moov_child-IsDone :
      (h : BoxHeader) (ts : List UnclassifiedTrack) → IsDone (moov_child reader h ts)
  unfolding moov_child
  moov_child-IsDone h ts e = ground (arith, parse_trak-IsDone h)

  classified-IsDone :
      (total : ℕ) (video audio : Option UnclassifiedTrack) (n_video n_audio : ℕ)
      → IsDone (classified total video audio n_video n_audio)
  unfolding classified
  classified-IsDone total (some v) (some a) n_video n_audio e = ground arith
  classified-IsDone total (some v) none n_video n_audio e = cc
  classified-IsDone total none audio n_video n_audio e = cc

-- Over any reader of a source, `parse_top_level` comes to a track pair or to an error of the source:
-- no loop of the model runs out of fuel, neither its own nor that of a parser below it.
pub parse_top_level-IsDone :
    ⦃be : ByteOrder⦄ (reader : ReadAt) (src : List ℕ) (source_len : ℕ)
    → Reads src reader
    → IsDone (parse_top_level reader source_len)
unfolding parse_top_level classify_tracks
parse_top_level-IsDone reader src source_len reads =
    bind-IsDone _ _
      (each_box-IsDone reader src reads (top_child reader) (top_child-IsDone reader src reads) 0
        source_len _)
      λ s.
        bind-IsDone _ _ (λ e. ground (arith, e))
          λ seen. bind-IsDone _ _ (ok_or-IsDone s.moov _ (λ e. cc)) λ moov.
            bind-IsDone _ _
              (each_box-IsDone reader src reads (moov_child reader)
                (moov_child-IsDone reader src reads) moov.payload_offset (box_end moov) [])
              λ tracks. classified-IsDone reader src reads (length tracks) _ _ _ _
