-- ===== src/Demux/Boxes/Each.antt =====
-- The two loops of crates/packager/src/demux/moov.rs over a BoxIter of demux/reader.rs.
pub mod Invariant
pub mod Fuel
use cmafly.Prelude.{ℕ, zero, suc, ◌-◌, leb, if◌then◌else◌, Option, none, some, List, bytes_eq}
use cmafly.Error.{Result, ok, err, PackagerError, io, out_of_fuel, missing_atom}
use cmafly.ByteOrder.{ByteOrder}
use cmafly.Demux.Source.{ReadAt}
use cmafly.Demux.Boxes.{BoxHeader, next_header}
use Prim.Native.String.{String}

module _ ⦃be : ByteOrder⦄ (reader : ReadAt) where
  -- `while let Some(child) = iter.next_header()? { … }` with the variables of the loop as its state
  -- and its body as a function.
  pub each_box_loop :
      {S : Type 0}
      → (BoxHeader → S → Result PackagerError S)
      → ℕ
      → ℕ
      → ℕ
      → S
      → Result PackagerError S
  each_box_loop body zero cursor end s = if leb end cursor then ok s else err (io out_of_fuel)
  each_box_loop body (suc fuel) cursor end s =
      let (found, cursor') = next_header reader cursor end in
      elim found [
        | err e ↦ err e
        | ok none ↦ ok s
        | ok (some child) ↦ elim (body child s) [
          | err e ↦ err e
          | ok s' ↦ each_box_loop body fuel cursor' end s'
        ]
      ]

  -- A box takes eight bytes at least, so as many rounds as the range has bytes are enough.
  unfoldable pub each_box :
      {S : Type 0} → (BoxHeader → S → Result PackagerError S) → ℕ → ℕ → S → Result PackagerError S
  unfolding each_box_loop
  each_box body start end s = each_box_loop body (end - start) start end s

  -- The loop that returns the first box of a type.
  pub find_box_loop : List ℕ → String → ℕ → ℕ → ℕ → Result PackagerError BoxHeader
  find_box_loop fourcc name zero cursor end =
      if leb end cursor then err (missing_atom name) else err (io out_of_fuel)
  find_box_loop fourcc name (suc fuel) cursor end =
      let (found, cursor') = next_header reader cursor end in
      let rest = find_box_loop fourcc name fuel cursor' end in
      elim found [
        | err e ↦ err e
        | ok none ↦ err (missing_atom name)
        | ok (some child) ↦ if bytes_eq child.box_type fourcc then ok child else rest
      ]

  unfoldable pub find_box : List ℕ → String → ℕ → ℕ → Result PackagerError BoxHeader
  unfolding find_box_loop
  find_box fourcc name start end = find_box_loop fourcc name (end - start) start end
