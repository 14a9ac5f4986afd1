-- ===== src/Demux/Moov/Stbl.antt =====
-- crates/packager/src/demux/moov.rs: the boxes of an `stbl`.
pub mod Ranges
use Prim.Native.String.{String}
use cmafly.Prelude.{ℕ, ◌+◌, ltb, if◌then◌else◌, Option, none, some, List, bytes_eq}
use cmafly.Error.{Result, ok, err, ◌>>=◌, ◌>>◌, fail_if, ok_or, map_err, PackagerError, io}
use cmafly.Error.{malformed_atom, missing_atom, encrypted_input}
use cmafly.ByteOrder.{ByteOrder}
use cmafly.Demux.Source.{ReadAt, read_exact}
use cmafly.Demux.Boxes.{BoxHeader, payload_len, box_end}
use cmafly.Demux.Boxes.Each.{each_box}
use cmafly.Demux.Locations.{ByteRange, SampleTableLocs, ChunkOffsets, stco, co64}
use cmafly.Demux.Moov.Types.{chars}
use cmafly.Demux.Moov.SampleEntry.{SampleEntryInfo, parse_stsd_entry}

pub record StblData : Type 0 where
  pub fourcc : List ℕ
  pub sample_entry : ByteRange
  pub sample_rate : ℕ
  pub channel_count : ℕ
  pub locs : SampleTableLocs

-- The variables of the loop.
pub record StblBoxes : Type 0 where
  pub stsd : Option BoxHeader
  pub stts : Option ByteRange
  pub stsc : Option ByteRange
  pub stsz : Option ByteRange
  pub stco_box : Option ByteRange
  pub co64_box : Option ByteRange
  pub stss : Option ByteRange
  pub ctts : Option ByteRange

abbrev pub no_stbl_boxes : StblBoxes
no_stbl_boxes = record {
  stsd = none;
  stts = none;
  stsc = none;
  stsz = none;
  stco_box = none;
  co64_box = none;
  stss = none;
  ctts = none;
}

abbrev pub payload_range : BoxHeader → ByteRange
payload_range header = record { offset = header.payload_offset; len = payload_len header }

unfoldable pub pick_chunk_offsets :
    Option ByteRange → Option ByteRange → Result PackagerError ChunkOffsets
pick_chunk_offsets (some a) (some b) = err (malformed_atom "stbl" "both stco and co64 present")
pick_chunk_offsets (some r) none = ok (stco r)
pick_chunk_offsets none (some r) = ok (co64 r)
pick_chunk_offsets none none = err (missing_atom "stco|co64")

module _ ⦃be : ByteOrder⦄ (reader : ReadAt) where
  unfoldable pub check_grouping_type : BoxHeader → String → Result PackagerError (Unit {0})
  check_grouping_type header atom = do
    fail_if (ltb (payload_len header) 8)
        (malformed_atom atom "payload truncated before grouping_type")
    buf ← map_err io (read_exact reader (header.payload_offset + 4) 4)
    fail_if (bytes_eq buf (chars b's' b'e' b'i' b'g')) encrypted_input

  -- The loop body.
  unfoldable pub stbl_child : BoxHeader → StblBoxes → Result PackagerError StblBoxes
  unfolding check_grouping_type
  stbl_child child s =
      let t = child.box_type in
      if bytes_eq t (chars b's' b't' b's' b'd')
      then ok (record s { stsd = some child })
      else if bytes_eq t (chars b's' b't' b't' b's')
      then ok (record s { stts = some (payload_range child) })
      else if bytes_eq t (chars b's' b't' b's' b'c')
      then ok (record s { stsc = some (payload_range child) })
      else if bytes_eq t (chars b's' b't' b's' b'z')
      then ok (record s { stsz = some (payload_range child) })
      else if bytes_eq t (chars b's' b't' b'c' b'o')
      then ok (record s { stco_box = some (payload_range child) })
      else if bytes_eq t (chars b'c' b'o' b'6' b'4')
      then ok (record s { co64_box = some (payload_range child) })
      else if bytes_eq t (chars b's' b't' b's' b's')
      then ok (record s { stss = some (payload_range child) })
      else if bytes_eq t (chars b'c' b't' b't' b's')
      then ok (record s { ctts = some (payload_range child) })
      else if bytes_eq t (chars b's' b'b' b'g' b'p')
      then check_grouping_type child "sbgp" >> ok s
      else if bytes_eq t (chars b's' b'g' b'p' b'd')
      then check_grouping_type child "sgpd" >> ok s
      else if bytes_eq t (chars b's' b'e' b'n' b'c')
      then err encrypted_input
      else ok s

  unfoldable pub parse_stbl : BoxHeader → List ℕ → Result PackagerError StblData
  unfolding each_box stbl_child parse_stsd_entry pick_chunk_offsets
  parse_stbl stbl handler = do
    s ← each_box reader stbl_child stbl.payload_offset (box_end stbl) no_stbl_boxes
    stsd ← ok_or s.stsd (missing_atom "stsd")
    entry ← parse_stsd_entry reader stsd handler
    chunk_offsets ← pick_chunk_offsets s.stco_box s.co64_box
    stts ← ok_or s.stts (missing_atom "stts")
    stsc ← ok_or s.stsc (missing_atom "stsc")
    stsz ← ok_or s.stsz (missing_atom "stsz")
    ok (record {
      fourcc = entry.fourcc;
      sample_entry = entry.sample_entry;
      sample_rate = entry.sample_rate;
      channel_count = entry.channel_count;
      locs = record {
        stts = stts;
        stsc = stsc;
        stsz = stsz;
        chunk_offsets = chunk_offsets;
        stss = s.stss;
        ctts = s.ctts;
      };
    })
