-- ===== src/Index/View/Tables.antt =====
-- crates/packager/src/index/view.rs: the payloads of the sample and segment tables, which are read
-- in place.
use Prim.Native.String.{String}
use cmafly.Prelude.{
  ℕ, zero, suc, ◌+◌, ◌%◌, ◌==◌, ltb, not, List, [], ◌∷◌, length, drop, slice, checked_mul,
}
use cmafly.Prelude.{of_u32}
use cmafly.Error.{Result, ok, ◌>>=◌, ◌>>◌, fail_if, ok_or, PackagerError}
use cmafly.ByteOrder.{ByteOrder, read_u32}
use cmafly.NativeEndian.{NativeEndian, from_ne_u32, from_ne_u64}
use cmafly.Index.Format.{SampleEntry, SegmentEntry, sample_entry_size, segment_entry_size}
use cmafly.Index.View.Meta.{section_error}

module _ ⦃ne : NativeEndian⦄ where
  -- The row whose `repr(C)` bytes these are.
  abbrev pub sample_of : List ℕ → SampleEntry
  sample_of row = record {
    offset = from_ne_u64 (slice 0 8 row);
    size = from_ne_u32 (slice 8 4 row);
    dts_delta = from_ne_u32 (slice 12 4 row);
    cts_offset = of_u32 (from_ne_u32 (slice 16 4 row));
    flags = from_ne_u32 (slice 20 4 row);
  }

  abbrev pub segment_of : List ℕ → SegmentEntry
  segment_of row = record {
    video_sample_start = from_ne_u32 (slice 0 4 row);
    video_sample_count = from_ne_u32 (slice 4 4 row);
    audio_sample_start = from_ne_u32 (slice 8 4 row);
    audio_sample_count = from_ne_u32 (slice 12 4 row);
    video_base_dts = from_ne_u64 (slice 16 8 row);
    audio_base_dts = from_ne_u64 (slice 24 8 row);
  }

-- `slice::from_raw_parts(ptr.cast(), n)` for rows of `size` bytes.
abbrev pub rows : {T : Type 0} → (List ℕ → T) → ℕ → ℕ → List ℕ → List T
rows of size zero body = []
rows of size (suc n) body = of (slice 0 size body) ∷ rows of size n (drop size body)

module _ ⦃be : ByteOrder⦄ ⦃ne : NativeEndian⦄ where
  -- `addr` is the address of the payload in memory.
  unfoldable pub parse_sample_table : String → ℕ → List ℕ → Result PackagerError (List SampleEntry)
  parse_sample_table name addr payload = do
    fail_if (ltb (length payload) 8) (section_error name " shorter than 8-byte prefix")
    let n = read_u32 (slice 0 4 payload)
    fail_if (not (read_u32 (slice 4 4 payload) == 0))
        (section_error name " padding word is nonzero")
    let body = drop 8 payload
    expected_len ←
        ok_or (checked_mul n sample_entry_size) (section_error name " n_samples overflows usize")
    fail_if (not (length body == expected_len))
        (section_error name " body length disagrees with n_samples")
    fail_if (not ((addr + 8) % 8 == 0)) (section_error name " rows misaligned for SampleEntry")
    ok (rows sample_of sample_entry_size n body)

  unfoldable pub parse_segment_table : ℕ → List ℕ → Result PackagerError (List SegmentEntry)
  parse_segment_table addr payload = do
    fail_if (ltb (length payload) 8) (section_error "SegmentTable" " shorter than 8-byte prefix")
    let n = read_u32 (slice 0 4 payload)
    fail_if (not (read_u32 (slice 4 4 payload) == 0))
        (section_error "SegmentTable" " padding word is nonzero")
    let body = drop 8 payload
    expected_len ←
        ok_or (checked_mul n segment_entry_size)
          (section_error "SegmentTable" " n_segments overflows usize")
    fail_if (not (length body == expected_len))
        (section_error "SegmentTable" " body length disagrees with n_segments")
    fail_if (not ((addr + 8) % 8 == 0))
        (section_error "SegmentTable" " rows misaligned for SegmentEntry")
    ok (rows segment_of segment_entry_size n body)
