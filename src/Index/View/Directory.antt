-- ===== src/Index/View/Directory.antt =====
-- crates/packager/src/index/view.rs: the section directory.
pub mod Valid
mod Tests
use cmafly.Prelude.{ℕ, zero, suc, ◌+◌, ◌*◌, ◌%◌, ◌==◌, ltb, leb, if◌then◌else◌, Bool, not, ◌||◌}
use cmafly.Prelude.{Option, none, some, List, [], ◌∷◌, drop, take, slice}
use cmafly.Error.{Result, ok, ◌>>=◌, ◌>>◌, fail_if, PackagerError, malformed_index_directory}
use cmafly.ByteOrder.{ByteOrder, read_u32, read_u64}
use cmafly.Index.Format.{header_fixed_len, section_dir_entry_len}

-- The entries from number `i` on: `(kind, offset)`.
unfoldable pub read_directory :
    ⦃be : ByteOrder⦄ → List ℕ → ℕ → ℕ → Result PackagerError (List (ℕ × ℕ))
read_directory bytes i zero = ok []
read_directory bytes i (suc count) = do
  let pos = header_fixed_len + i * section_dir_entry_len
  fail_if (not (read_u32 (slice (pos + 4) 4 bytes) == 0))
      (malformed_index_directory "section directory _pad word is nonzero")
  rest ← read_directory bytes (i + 1) count
  ok ((read_u32 (slice pos 4 bytes), read_u64 (slice (pos + 8) 8 bytes)) ∷ rest)

-- `directory[0].1`; the directory is not empty where it is read.
abbrev pub first_offset : List (ℕ × ℕ) → ℕ
first_offset [] = 0
first_offset ((kind, offset) ∷ rest) = offset

abbrev pub last_offset : List (ℕ × ℕ) → ℕ
last_offset [] = 0
last_offset ((kind, offset) ∷ []) = offset
last_offset (e ∷ f ∷ rest) = last_offset (f ∷ rest)

-- `directory.windows(2)` has a pair whose second offset is not behind the first.
abbrev pub not_ascending : List (ℕ × ℕ) → Bool
not_ascending [] = Bool.false
not_ascending (e ∷ []) = Bool.false
not_ascending ((k, o) ∷ (k', o') ∷ rest) = leb o' o || not_ascending ((k', o') ∷ rest)

abbrev pub misaligned : List (ℕ × ℕ) → Bool
misaligned [] = Bool.false
misaligned ((kind, offset) ∷ rest) = not (offset % 8 == 0) || misaligned rest

abbrev pub has_kind : ℕ → List (ℕ × ℕ) → Bool
has_kind kind [] = Bool.false
has_kind kind ((k, offset) ∷ rest) = k == kind || has_kind kind rest

-- The two nested loops over the pairs of sections.
abbrev pub has_duplicate : List (ℕ × ℕ) → Bool
has_duplicate [] = Bool.false
has_duplicate ((kind, offset) ∷ rest) = has_kind kind rest || has_duplicate rest

-- The tests on the directory, in order.
unfoldable pub check_directory : ℕ → ℕ → List (ℕ × ℕ) → Result PackagerError (Unit {0})
check_directory header_end bytes_len directory = do
  fail_if (not (first_offset directory == header_end))
      (malformed_index_directory "first section offset does not equal header end")
  fail_if (not_ascending directory)
      (malformed_index_directory "section offsets must be strictly ascending")
  fail_if (ltb bytes_len (last_offset directory))
      (malformed_index_directory "last section offset exceeds file length")
  fail_if (misaligned directory) (malformed_index_directory "section offset is not 8-byte aligned")
  fail_if (has_duplicate directory) (malformed_index_directory "duplicate section kind")

-- The start of the first section of a kind, and its bytes up to the next section or the end.
unfoldable pub section_payload : List (ℕ × ℕ) → List ℕ → ℕ → Option (ℕ × List ℕ)
section_payload [] bytes kind = none
section_payload ((k, start) ∷ []) bytes kind =
    if k == kind then some (start, drop start bytes) else none
section_payload ((k, start) ∷ (k', end) ∷ rest) bytes kind =
    if k == kind
    then some (start, drop start (take end bytes))
    else section_payload ((k', end) ∷ rest) bytes kind
