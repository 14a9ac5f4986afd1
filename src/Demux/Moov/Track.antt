-- ===== src/Demux/Moov/Track.antt =====
-- crates/packager/src/demux/moov.rs: a `trak` and its `tkhd` and `mdia`.
pub mod Ranges
use cmafly.Prelude.{ℕ, ◌+◌, ◌/◌, ◌==◌, ltb, if◌then◌else◌, Option, none, some, List, take, drop}
use cmafly.Prelude.{get_or, bytes_eq}
use cmafly.Error.{Result, ok, err, ◌>>=◌, ◌>>◌, fail_if, ok_or, map_err, PackagerError, io}
use cmafly.Error.{malformed_atom, missing_atom}
use cmafly.ByteOrder.{ByteOrder, read_u32}
use cmafly.Demux.Source.{ReadAt, read_exact}
use cmafly.Demux.Boxes.{BoxHeader, payload_len, box_end}
use cmafly.Demux.Boxes.Each.{each_box, find_box}
use cmafly.Demux.Locations.{ByteRange, SampleTableLocs}
use cmafly.Demux.Moov.Types.{chars, UnclassifiedTrack, handler_video}
use cmafly.Demux.Moov.Stbl.{parse_stbl}

pub record TkhdInfo : Type 0 where
  pub width : ℕ
  pub height : ℕ

pub record MdiaData : Type 0 where
  pub handler : List ℕ
  pub timescale : ℕ
  pub fourcc : List ℕ
  pub sample_entry : ByteRange
  pub sample_rate : ℕ
  pub channel_count : ℕ
  pub sample_table : SampleTableLocs

-- The variables of the loop of `parse_mdia`.
pub record MdiaBoxes : Type 0 where
  pub mdhd : Option ℕ
  pub handler : Option (List ℕ)
  pub minf : Option BoxHeader

-- The variables of the loop of `parse_trak`.
pub record TrakBoxes : Type 0 where
  pub tkhd : Option TkhdInfo
  pub mdia : Option BoxHeader
  pub elst : Option ByteRange

-- A value for each of the versions 0 and 1.
abbrev by_version : {A : Type 0} → ℕ → A → A → PackagerError → Result PackagerError A
by_version version v0 v1 e = if version == 0 then ok v0 else if version == 1 then ok v1 else err e

module _ ⦃be : ByteOrder⦄ (reader : ReadAt) where
  unfoldable pub parse_tkhd : BoxHeader → Result PackagerError TkhdInfo
  parse_tkhd tkhd = do
    fail_if (ltb (payload_len tkhd) 4) (malformed_atom "tkhd" "payload missing version+flags")
    header ← map_err io (read_exact reader tkhd.payload_offset 4)
    let body_off = tkhd.payload_offset + 4
    (body_len, w_off) ←
        by_version (get_or header 0 0) (80, 72) (92, 84)
          (malformed_atom "tkhd" "unsupported version")
    fail_if (ltb (payload_len tkhd) (4 + body_len))
        (malformed_atom "tkhd" "payload truncated before width/height")
    wh ← map_err io (read_exact reader (body_off + w_off) 8)
    ok (record { width = read_u32 (take 4 wh) / 65536; height = read_u32 (drop 4 wh) / 65536 })

  unfoldable pub parse_mdhd_timescale : BoxHeader → Result PackagerError ℕ
  parse_mdhd_timescale mdhd = do
    fail_if (ltb (payload_len mdhd) 4) (malformed_atom "mdhd" "payload missing version+flags")
    version_flags ← map_err io (read_exact reader mdhd.payload_offset 4)
    timescale_off ←
        by_version (get_or version_flags 0 0) 8 16 (malformed_atom "mdhd" "unsupported version")
    fail_if (ltb (payload_len mdhd) (4 + timescale_off + 4))
        (malformed_atom "mdhd" "payload truncated before timescale")
    ts ← map_err io (read_exact reader (mdhd.payload_offset + 4 + timescale_off) 4)
    ok (read_u32 ts)

  unfoldable pub parse_hdlr_type : BoxHeader → Result PackagerError (List ℕ)
  parse_hdlr_type hdlr = do
    fail_if (ltb (payload_len hdlr) 12)
        (malformed_atom "hdlr" "payload truncated before handler_type")
    map_err io (read_exact reader (hdlr.payload_offset + 8) 4)

  unfoldable pub locate_stbl : BoxHeader → Result PackagerError BoxHeader
  unfolding find_box
  locate_stbl minf =
      find_box reader (chars b's' b't' b'b' b'l') "stbl" minf.payload_offset (box_end minf)

  unfoldable pub mdia_child : BoxHeader → MdiaBoxes → Result PackagerError MdiaBoxes
  unfolding parse_mdhd_timescale parse_hdlr_type
  mdia_child child s =
      let t = child.box_type in
      if bytes_eq t (chars b'm' b'd' b'h' b'd')
      then parse_mdhd_timescale child >>= (λ v. ok (record s { mdhd = some v }))
      else if bytes_eq t (chars b'h' b'd' b'l' b'r')
      then parse_hdlr_type child >>= (λ v. ok (record s { handler = some v }))
      else if bytes_eq t (chars b'm' b'i' b'n' b'f')
      then ok (record s { minf = some child })
      else ok s

  unfoldable pub parse_mdia : BoxHeader → Result PackagerError MdiaData
  unfolding each_box mdia_child locate_stbl parse_stbl
  parse_mdia mdia = do
    s ←
        each_box reader mdia_child mdia.payload_offset (box_end mdia)
          (record { mdhd = none; handler = none; minf = none })
    timescale ← ok_or s.mdhd (missing_atom "mdhd")
    handler ← ok_or s.handler (missing_atom "hdlr")
    minf ← ok_or s.minf (missing_atom "minf")
    stbl ← locate_stbl minf
    stbl_data ← parse_stbl reader stbl handler
    ok (record {
      handler = handler;
      timescale = timescale;
      fourcc = stbl_data.fourcc;
      sample_entry = stbl_data.sample_entry;
      sample_rate = stbl_data.sample_rate;
      channel_count = stbl_data.channel_count;
      sample_table = stbl_data.locs;
    })

  unfoldable pub trak_child : BoxHeader → TrakBoxes → Result PackagerError TrakBoxes
  unfolding parse_tkhd
  trak_child child s =
      let t = child.box_type in
      if bytes_eq t (chars b't' b'k' b'h' b'd')
      then parse_tkhd child >>= (λ v. ok (record s { tkhd = some v }))
      else if bytes_eq t (chars b'm' b'd' b'i' b'a')
      then ok (record s { mdia = some child })
      else if bytes_eq t (chars b'e' b'd' b't' b's')
      then ok
          (record s { elst = some (record { offset = child.start; len = child.declared_size }) })
      else ok s

  unfoldable pub parse_trak : BoxHeader → Result PackagerError UnclassifiedTrack
  unfolding each_box trak_child parse_mdia
  parse_trak trak = do
    s ←
        each_box reader trak_child trak.payload_offset (box_end trak)
          (record { tkhd = none; mdia = none; elst = none })
    tkhd ← ok_or s.tkhd (missing_atom "tkhd")
    mdia ← ok_or s.mdia (missing_atom "mdia")
    mdia_data ← parse_mdia mdia
    let is_video = bytes_eq mdia_data.handler handler_video
    ok (record {
      handler = mdia_data.handler;
      timescale = mdia_data.timescale;
      width = if is_video then tkhd.width else 0;
      height = if is_video then tkhd.height else 0;
      fourcc = mdia_data.fourcc;
      sample_entry = mdia_data.sample_entry;
      sample_rate = mdia_data.sample_rate;
      channel_count = mdia_data.channel_count;
      elst = s.elst;
      sample_table = mdia_data.sample_table;
    })
