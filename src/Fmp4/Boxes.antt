-- ===== src/Fmp4/Boxes.antt =====
-- crates/packager/src/fmp4/boxes.rs: boxes whose size is written once their content is.
pub mod Appends
pub mod Holes
use cmafly.Prelude.{
  ℕ, ◌+◌, ◌-◌, ◌*◌, ◌%◌, ◌^◌, ◌==◌, leb, not, if◌then◌else◌, Option, none, some, List, try_u32,
}
use cmafly.Error.{Result, ok, ok_or, fail_if, PackagerError, io, other, panicked}
use cmafly.Sink.{Sink}
use cmafly.ByteOrder.{ByteOrder}
use cmafly.Fmp4.Writer.{
  Writer, pure, lift, ◌>>=◌, ◌>>◌, write_all, write_u32, stream_position, seek_start,
}

-- The writer itself is the state of the code.
pub record BoxWriter : Type 0 where
  pub start : ℕ
  pub fourcc : List ℕ

abbrev pub checked_sub : ℕ → ℕ → Option ℕ
checked_sub a b = if leb b a then some (a - b) else none

abbrev pub check_expected : Option ℕ → ℕ → Result PackagerError (Unit {0})
check_expected none written = ok tt
check_expected (some expected) written = fail_if (not (expected == written)) (io panicked)

module _ {W : Type 0} ⦃sink : Sink W⦄ ⦃be : ByteOrder⦄ where
  -- `BoxWriter::open` and `child`.
  unfoldable pub open_box : List ℕ → Writer W BoxWriter
  open_box fourcc = do
    start ← stream_position
    write_u32 0
    write_all fourcc
    pure (record { start = start; fourcc = fourcc })

  unfoldable pub finish_with_expected : BoxWriter → Option ℕ → Writer W ℕ
  finish_with_expected bx expected = do
    end ← stream_position
    written ← lift (ok_or (checked_sub end bx.start) (io other))
    declared ← lift (ok_or (try_u32 written) (io other))
    seek_start bx.start
    write_u32 declared
    seek_start end
    lift (fail_if (not (declared == written)) (io panicked))
    lift (check_expected expected written)
    pure written

  -- A box with a body, from `open` to `finish` or `finish_expecting`.
  unfoldable pub in_box : {A : Type 0} → List ℕ → Option ℕ → Writer W A → Writer W A
  in_box fourcc expected body = do
    bx ← open_box fourcc
    v ← body
    written ← finish_with_expected bx expected
    pure v

  -- `flags` has 24 bits wherever this is called, which a debug build asserts.
  unfoldable pub write_full_box_header : ℕ → ℕ → Writer W (Unit {0})
  write_full_box_header version flags = write_u32 (version * 2 ^ 24 + flags % 2 ^ 24)
