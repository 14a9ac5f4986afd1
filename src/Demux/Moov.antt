-- ===== src/Demux/Moov.antt =====
-- crates/packager/src/demux/moov.rs: the parser of the movie header, from the top level on.
pub mod Types
pub mod Classify
pub mod SampleEntry
pub mod Stbl
pub mod Track
pub mod Ranges
pub mod Fuel
pub mod Safety
mod Tests
use cmafly.Prelude.{
  ℕ, zero, suc, ◌/◌, ◌%◌, ◌^◌, ◌==◌, ltb, leb, if◌then◌else◌, Option, none, some, Bool, not,
}
use cmafly.Prelude.{List, [], ◌∷◌, ◌++◌, take, drop, length, bytes_eq}
use cmafly.Error.{
  Result, ok, err, ◌>>=◌, ◌>>◌, fail_if, ok_or, map_err, PackagerError, io, panicked,
}
use cmafly.Error.{
  malformed_atom, missing_atom, encrypted_input, fragmented_input, unsupported_brand,
}
use cmafly.ByteOrder.{ByteOrder}
use cmafly.Demux.Source.{ReadAt, read_exact}
use cmafly.Demux.Boxes.{BoxHeader, payload_len, box_end}
use cmafly.Demux.Boxes.Each.{each_box}
use cmafly.Demux.Moov.Types.{chars, fourcc_in, allowed_brands, MoovParse, UnclassifiedTrack}
use cmafly.Demux.Moov.Classify.{classify_tracks}
use cmafly.Demux.Moov.SampleEntry.{encryption_boxes}
use cmafly.Demux.Moov.Track.{parse_trak}

-- `for chunk in compat.chunks_exact(4)`, on the chunks that are left.
pub brand_loop : ℕ → List ℕ → Result PackagerError (Unit {0})
brand_loop zero compat = err unsupported_brand
brand_loop (suc chunks) compat =
    let rest = brand_loop chunks (drop 4 compat) in
    if fourcc_in (take 4 compat) allowed_brands then ok tt else rest

-- The variables of the loop over the top-level boxes.
pub record TopBoxes : Type 0 where
  pub ftyp_seen : Bool
  pub moov : Option BoxHeader

module _ ⦃be : ByteOrder⦄ (reader : ReadAt) where
  -- `vec![0u8; len]` panics above `isize::MAX` bytes.
  unfoldable pub check_ftyp : BoxHeader → Result PackagerError (Unit {0})
  unfolding brand_loop
  check_ftyp header =
      let found = (do
        fail_if (ltb (payload_len header) 8)
            (malformed_atom "ftyp" "payload shorter than major+minor brand")
        fail_if (leb (2 ^ 63) (payload_len header)) (io panicked)
        map_err io (read_exact reader header.payload_offset (payload_len header))) in
      found >>= λ buf.
      let compat = drop 8 buf in
      let others = (do
        fail_if (not (length compat % 4 == 0))
            (malformed_atom "ftyp" "compatible-brands list is not a multiple of 4 bytes")
        brand_loop (length compat / 4) compat) in
      if fourcc_in (take 4 buf) allowed_brands then ok tt else others

  -- `moov.is_some()` is an error, else the box is kept.
  abbrev pub keep_moov : BoxHeader → TopBoxes → Option BoxHeader → Result PackagerError TopBoxes
  keep_moov header s (some first) = err (malformed_atom "moov" "more than one top-level moov")
  keep_moov header s none = ok (record s { moov = some header })

  -- The body of the loop over the top-level boxes.
  pub top_child : BoxHeader → TopBoxes → Result PackagerError TopBoxes
  unfolding check_ftyp
  top_child header s =
      let t = header.box_type in
      if bytes_eq t (chars b'f' b't' b'y' b'p')
      then check_ftyp header >> ok (record s { ftyp_seen = Bool.true })
      else if bytes_eq t (chars b'm' b'o' b'o' b'v')
      then keep_moov header s s.moov
      else if bytes_eq t (chars b'm' b'o' b'o' b'f')
      then err fragmented_input
      else if fourcc_in t encryption_boxes
      then err encrypted_input
      else ok s

  -- The body of the loop over the boxes of the `moov`.
  pub moov_child :
      BoxHeader → List UnclassifiedTrack → Result PackagerError (List UnclassifiedTrack)
  unfolding parse_trak
  moov_child child tracks =
      if bytes_eq child.box_type (chars b't' b'r' b'a' b'k')
      then parse_trak reader child >>= (λ t. ok (tracks ++ (t ∷ [])))
      else ok tracks

  unfoldable pub parse_top_level : ℕ → Result PackagerError MoovParse
  unfolding each_box top_child moov_child classify_tracks
  parse_top_level source_len = do
    s ← each_box reader top_child 0 source_len (record { ftyp_seen = Bool.false; moov = none })
    fail_if (not s.ftyp_seen) (missing_atom "ftyp")
    moov ← ok_or s.moov (missing_atom "moov")
    tracks ← each_box reader moov_child moov.payload_offset (box_end moov) []
    classify_tracks tracks
