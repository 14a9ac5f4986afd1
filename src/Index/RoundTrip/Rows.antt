-- ===== src/Index/RoundTrip/Rows.antt =====
-- The rows of the tables, read back in place.
use Prim.Native.String.{String}
use cmafly.Prelude.{ℕ, ◌+◌, ◌-◌, ◌*◌, ◌%◌, ◌<◌, ◌≡◌, refl, ap, sym, ◌∙◌, arith, ℤ, pos, negsuc}
use cmafly.Prelude.{
  List, [], ◌∷◌, ◌++◌, length, take, drop, All, subst, slice, to_u32, of_u32, u32_mod, u64_mod,
}
use cmafly.Prelude.{
  length-append, take-append_length, drop-append_length, concat, length-concat, slice_of, slice_at,
  drop_behind,
}
use cmafly.Error.{ok}
use cmafly.ByteOrder.{ByteOrder, read_u32, write_u32, be_sizes}
use cmafly.NativeEndian.{NativeEndian, to_ne_u32, to_ne_u64, ne_sizes}
use cmafly.Index.Format.{SampleEntry, SegmentEntry, sample_entry_size, segment_entry_size}
use cmafly.Index.View.Tables.{sample_of, segment_of, rows, parse_sample_table, parse_segment_table}
use cmafly.Index.Builder.Encode.{
  sample_row, segment_row, write_rows, encode_sample_table, encode_segment_table,
}

-- The values that an `i32` can have.
abbrev pub IsI32 : ℤ → Type 0
IsI32 (pos n) = n < 2147483648
IsI32 (negsuc n) = n < 2147483648

pub to_u32-lt : (z : ℤ) → IsI32 z → to_u32 z < u32_mod
to_u32-lt (pos n) h = omega arith
to_u32-lt (negsuc n) h = omega arith

pub of_u32-to_u32 : (z : ℤ) → IsI32 z → of_u32 (to_u32 z) ≡ z
of_u32-to_u32 (pos n) h = ground arith
of_u32-to_u32 (negsuc n) h =
    let back : 4294967295 - (4294967295 - n) ≡ n = omega arith in ground (arith, back)

-- The fields of a row fit their types.
pub record SampleFits (x : SampleEntry) : Type 0 where
  pub offset : x.offset < u64_mod
  pub size : x.size < u32_mod
  pub dts_delta : x.dts_delta < u32_mod
  pub cts_offset : IsI32 x.cts_offset
  pub flags : x.flags < u32_mod

pub record SegmentFits (x : SegmentEntry) : Type 0 where
  pub video_sample_start : x.video_sample_start < u32_mod
  pub video_sample_count : x.video_sample_count < u32_mod
  pub audio_sample_start : x.audio_sample_start < u32_mod
  pub audio_sample_count : x.audio_sample_count < u32_mod
  pub video_base_dts : x.video_base_dts < u64_mod
  pub audio_base_dts : x.audio_base_dts < u64_mod

module _ {T : Type 0} (row : T → List ℕ) (size : ℕ) (len : (x : T) → length (row x) ≡ size) where
  pub length-write_rows : (xs : List T) → length (write_rows row xs) ≡ length xs * size
  length-write_rows [] = omega arith
  length-write_rows (x ∷ xs) =
      grind (arith, length-append (row x) (write_rows row xs), len x, length-write_rows xs)

  module _ (of : List ℕ → T) (P : T → Type 0) (back : (x : T) → P x → of (row x) ≡ x) where
    pub rows-write_rows :
        (xs : List T) → All P xs → rows of size (length xs) (write_rows row xs) ≡ xs
    rows-write_rows [] ps = refl
    rows-write_rows (x ∷ xs) (p, ps) =
        let rest = write_rows row xs in
        let front : take size (row x ++ rest) ≡ row x =
          ap (λ k. take k (row x ++ rest)) (sym (len x)) ∙ take-append_length (row x) rest in
        let behind : drop size (row x ++ rest) ≡ rest =
          ap (λ k. drop k (row x ++ rest)) (sym (len x)) ∙ drop-append_length (row x) rest in
        cc (front, behind, back x p, rows-write_rows xs ps)

module _ ⦃ne : NativeEndian⦄ where
  abbrev sample_pieces : SampleEntry → List (List ℕ)
  sample_pieces x =
      to_ne_u64 x.offset
      ∷ to_ne_u32 x.size
      ∷ to_ne_u32 x.dts_delta
      ∷ to_ne_u32 (to_u32 x.cts_offset)
      ∷ to_ne_u32 x.flags
      ∷ []

  length-sample_row : (x : SampleEntry) → length (sample_row x) ≡ 24
  length-sample_row x = length-concat (sample_pieces x) ∙ omega ne_sizes

  sample_of-sample_row : (x : SampleEntry) → SampleFits x → sample_of (sample_row x) ≡ x
  sample_of-sample_row x f =
      let ps = sample_pieces x in
      cc (
        slice_of ps 0 0 8 (omega ne_sizes) (omega ne_sizes),
        slice_of ps 1 8 4 (omega ne_sizes) (omega ne_sizes),
        slice_of ps 2 12 4 (omega ne_sizes) (omega ne_sizes),
        slice_of ps 3 16 4 (omega ne_sizes) (omega ne_sizes),
        slice_of ps 4 20 4 (omega ne_sizes) (omega ne_sizes),
        ne.from-to_ne_u64 x.offset f.offset,
        ne.from-to_ne_u32 x.size f.size,
        ne.from-to_ne_u32 x.dts_delta f.dts_delta,
        ne.from-to_ne_u32 (to_u32 x.cts_offset) (to_u32-lt x.cts_offset f.cts_offset),
        of_u32-to_u32 x.cts_offset f.cts_offset,
        ne.from-to_ne_u32 x.flags f.flags,
      )

  abbrev segment_pieces : SegmentEntry → List (List ℕ)
  segment_pieces x =
      to_ne_u32 x.video_sample_start
      ∷ to_ne_u32 x.video_sample_count
      ∷ to_ne_u32 x.audio_sample_start
      ∷ to_ne_u32 x.audio_sample_count
      ∷ to_ne_u64 x.video_base_dts
      ∷ to_ne_u64 x.audio_base_dts
      ∷ []

  length-segment_row : (x : SegmentEntry) → length (segment_row x) ≡ 32
  length-segment_row x = length-concat (segment_pieces x) ∙ omega ne_sizes

  segment_of-segment_row : (x : SegmentEntry) → SegmentFits x → segment_of (segment_row x) ≡ x
  segment_of-segment_row x f =
      let ps = segment_pieces x in
      cc (
        slice_of ps 0 0 4 (omega ne_sizes) (omega ne_sizes),
        slice_of ps 1 4 4 (omega ne_sizes) (omega ne_sizes),
        slice_of ps 2 8 4 (omega ne_sizes) (omega ne_sizes),
        slice_of ps 3 12 4 (omega ne_sizes) (omega ne_sizes),
        slice_of ps 4 16 8 (omega ne_sizes) (omega ne_sizes),
        slice_of ps 5 24 8 (omega ne_sizes) (omega ne_sizes),
        ne.from-to_ne_u32 x.video_sample_start f.video_sample_start,
        ne.from-to_ne_u32 x.video_sample_count f.video_sample_count,
        ne.from-to_ne_u32 x.audio_sample_start f.audio_sample_start,
        ne.from-to_ne_u32 x.audio_sample_count f.audio_sample_count,
        ne.from-to_ne_u64 x.video_base_dts f.video_base_dts,
        ne.from-to_ne_u64 x.audio_base_dts f.audio_base_dts,
      )

-- The prefix of a table: the number of rows and a word of padding.
module _ ⦃be : ByteOrder⦄ (n : ℕ) (body : List ℕ) where
  abbrev prefix : List (List ℕ)
  prefix = write_u32 n ∷ write_u32 0 ∷ []

  table_count : n < u32_mod → read_u32 (slice 0 4 (concat prefix ++ body)) ≡ n
  table_count h =
      ap read_u32 (slice_at prefix body 0 0 4 (omega be_sizes) (omega be_sizes))
      ∙ be.read-write_u32 n h

  table_pad : read_u32 (slice 4 4 (concat prefix ++ body)) ≡ 0
  table_pad =
      ap read_u32 (slice_at prefix body 1 4 4 (omega be_sizes) (omega be_sizes))
      ∙ be.read-write_u32 0 (omega arith)

  table_body : drop 8 (concat prefix ++ body) ≡ body
  table_body = drop_behind prefix body 8 (omega (be_sizes, length-concat prefix))

  length-table : length (concat prefix ++ body) ≡ 8 + length body
  length-table = length-append (concat prefix) body ∙ omega (be_sizes, length-concat prefix)

module _ ⦃be : ByteOrder⦄ ⦃ne : NativeEndian⦄ where
  parse_sample_table-written :
      (name : String) (addr n : ℕ) (body : List ℕ)
      → n < u32_mod
      → length body ≡ n * 24
      → addr % 8 ≡ 0
      → parse_sample_table name addr (concat (prefix n body) ++ body)
        ≡ ok (rows sample_of sample_entry_size n body)
  unfolding parse_sample_table
  parse_sample_table-written name addr n body h len aligned =
      ground (arith, table_count n body h, table_pad n body, table_body n body, length-table n body)

  parse_segment_table-written :
      (addr n : ℕ) (body : List ℕ)
      → n < u32_mod
      → length body ≡ n * 32
      → addr % 8 ≡ 0
      → parse_segment_table addr (concat (prefix n body) ++ body)
        ≡ ok (rows segment_of segment_entry_size n body)
  unfolding parse_segment_table
  parse_segment_table-written addr n body h len aligned =
      ground (arith, table_count n body h, table_pad n body, table_body n body, length-table n body)

  -- An encoded sample table at an aligned address is read back, row by row, if the rows fit.
  pub parse-encode_sample_table :
      (samples : List SampleEntry) (name : String) (addr : ℕ) (bytes : List ℕ)
      → All SampleFits samples
      → addr % 8 ≡ 0
      → encode_sample_table samples name ≡ ok bytes
      → parse_sample_table name addr bytes ≡ ok samples
  unfolding encode_sample_table
  parse-encode_sample_table samples name addr bytes fits aligned e =
      let n = length samples in
      let body = write_rows sample_row samples in
      let small : n < u32_mod = ground (arith, e) in
      let same : concat (prefix n body) ++ body ≡ bytes = ground (arith, e) in
      subst (λ b. parse_sample_table name addr b ≡ ok samples) same
        (parse_sample_table-written name addr n body small
            (length-write_rows sample_row 24 length-sample_row samples) aligned
          ∙ ap ok (
              rows-write_rows sample_row 24 length-sample_row sample_of SampleFits
                sample_of-sample_row samples fits))

  pub length-encode_sample_table :
      (samples : List SampleEntry) (name : String) (bytes : List ℕ)
      → encode_sample_table samples name ≡ ok bytes
      → length bytes ≡ 8 + length samples * 24
  unfolding encode_sample_table
  length-encode_sample_table samples name bytes e =
      let body = write_rows sample_row samples in
      let same : concat (prefix (length samples) body) ++ body ≡ bytes = ground (arith, e) in
      ap length (sym same)
      ∙ length-table (length samples) body
      ∙ ap (λ k. 8 + k) (length-write_rows sample_row 24 length-sample_row samples)

  pub parse-encode_segment_table :
      (segments : List SegmentEntry) (addr : ℕ) (bytes : List ℕ)
      → All SegmentFits segments
      → addr % 8 ≡ 0
      → encode_segment_table segments ≡ ok bytes
      → parse_segment_table addr bytes ≡ ok segments
  unfolding encode_segment_table
  parse-encode_segment_table segments addr bytes fits aligned e =
      let n = length segments in
      let body = write_rows segment_row segments in
      let small : n < u32_mod = ground (arith, e) in
      let same : concat (prefix n body) ++ body ≡ bytes = ground (arith, e) in
      subst (λ b. parse_segment_table addr b ≡ ok segments) same
        (parse_segment_table-written addr n body small
            (length-write_rows segment_row 32 length-segment_row segments) aligned
          ∙ ap ok (
              rows-write_rows segment_row 32 length-segment_row segment_of SegmentFits
                segment_of-segment_row segments fits))

  pub length-encode_segment_table :
      (segments : List SegmentEntry) (bytes : List ℕ)
      → encode_segment_table segments ≡ ok bytes
      → length bytes ≡ 8 + length segments * 32
  unfolding encode_segment_table
  length-encode_segment_table segments bytes e =
      let body = write_rows segment_row segments in
      let same : concat (prefix (length segments) body) ++ body ≡ bytes = ground (arith, e) in
      ap length (sym same)
      ∙ length-table (length segments) body
      ∙ ap (λ k. 8 + k) (length-write_rows segment_row 32 length-segment_row segments)

  pub encode_sample_table_complete :
      (samples : List SampleEntry) (name : String)
      → length samples < u32_mod
      → (bytes : List ℕ) × (encode_sample_table samples name ≡ ok bytes)
  unfolding encode_sample_table
  encode_sample_table_complete samples name h =
      let body = write_rows sample_row samples in
      (concat (prefix (length samples) body) ++ body, ground (arith, h))

  pub encode_segment_table_complete :
      (segments : List SegmentEntry)
      → length segments < u32_mod
      → (bytes : List ℕ) × (encode_segment_table segments ≡ ok bytes)
  unfolding encode_segment_table
  encode_segment_table_complete segments h =
      let body = write_rows segment_row segments in
      (concat (prefix (length segments) body) ++ body, ground (arith, h))
