-- ===== src/Demux/SampleTable/Tables.antt =====
-- crates/packager/src/demux/sample_table.rs: the sample-table atoms, read from the source.
use Prim.Native.String.{String}
use cmafly.Prelude.{ℕ, zero, suc, ◌/◌, ◌==◌, ltb, if◌then◌else◌, Bool, not, ◌||◌}
use cmafly.Prelude.{List, [], ◌∷◌, length, take, drop, get_or, replicate, checked_mul}
use cmafly.Prelude.{ℤ, pos, of_u32}
use cmafly.Error.{Result, ok, err, ◌>>=◌, ◌>>◌, fail_if, ok_or, map_err, PackagerError, io}
use cmafly.Error.{malformed_atom}
use cmafly.ByteOrder.{ByteOrder, read_u32, read_u64}
use cmafly.Demux.Source.{ReadAt, read_exact}
use cmafly.Demux.Locations.{ByteRange, ChunkOffsets, stco, co64}

-- A vector can hold at most `isize::MAX` bytes: `try_reserve_exact` refuses more. That the host is
-- out of memory below this bound is not modelled.
abbrev isize_max : ℕ
isize_max = 9223372036854775807

unfoldable pub read_payload : ReadAt → ByteRange → ℕ → Result PackagerError (List ℕ)
read_payload reader range min_len = do
  fail_if (ltb range.len min_len)
      (malformed_atom "<sample-table>" "payload shorter than minimum full-box header")
  fail_if (ltb isize_max range.len)
      (malformed_atom "<sample-table>" "sample-table payload too large to allocate")
  map_err io (read_exact reader range.offset range.len)

-- `allowed.contains(&version)`
abbrev contains : List ℕ → ℕ → Bool
contains [] version = Bool.false
contains (v ∷ vs) version = v == version || contains vs version

unfoldable pub ensure_full_box_version : List ℕ → String → List ℕ → Result PackagerError ℕ
ensure_full_box_version payload atom allowed =
    let version = get_or payload 0 0 in
    if contains allowed version
    then ok version
    else err (malformed_atom atom "unsupported full-box version")

unfoldable pub entry_bytes : ℕ → ℕ → String → Result PackagerError ℕ
entry_bytes entry_count bytes_per_entry atom =
    ok_or (checked_mul entry_count bytes_per_entry)
      (malformed_atom atom "entry table size overflows usize")

-- `body.chunks_exact(k)`: as many chunks of `k` bytes as there are.
abbrev pub split_chunks : ℕ → ℕ → List ℕ → List (List ℕ)
split_chunks zero k body = []
split_chunks (suc count) k body = take k body ∷ split_chunks count k (drop k body)

abbrev pub chunks_exact : ℕ → List ℕ → List (List ℕ)
chunks_exact k body = split_chunks (length body / k) k body

-- `for chunk in chunks { out.push(parse(chunk)?); }`
unfoldable pub parse_all :
    {T : Type 0} → (List ℕ → Result PackagerError T) → List (List ℕ) → Result PackagerError (List T)
parse_all parse [] = ok []
parse_all parse (c ∷ cs) = do x ← parse c; xs ← parse_all parse cs; ok (x ∷ xs)

module _ ⦃be : ByteOrder⦄ (reader : ReadAt) (range : ByteRange) where
  unfoldable pub read_stsz : Result PackagerError (List ℕ)
  unfolding read_payload ensure_full_box_version entry_bytes parse_all
  read_stsz = do
    payload ← read_payload reader range 12
    version ← ensure_full_box_version payload "stsz" (0 ∷ [])
    let sample_size = read_u32 (take 4 (drop 4 payload))
    let sample_count = read_u32 (take 4 (drop 8 payload))
    let body = drop 12 payload
    if not (sample_size == 0)
        then (if not (length body == 0)
            then err (malformed_atom "stsz" "constant sample_size has trailing per-sample entries")
            else ok (replicate sample_count sample_size))
        else (do
          bytes ← entry_bytes sample_count 4 "stsz"
          fail_if (not (length body == bytes))
              (malformed_atom "stsz" "entry table size disagrees with sample_count")
          parse_all (λ c. ok (read_u32 c)) (chunks_exact 4 body))

  unfoldable pub read_full_box_table :
      {T : Type 0}
      → String
      → List ℕ
      → ℕ
      → (ℕ → List ℕ → Result PackagerError T)
      → Result PackagerError (List T)
  unfolding read_payload ensure_full_box_version entry_bytes parse_all
  read_full_box_table atom allowed_versions bytes_per_entry parse_entry = do
    payload ← read_payload reader range 8
    version ← ensure_full_box_version payload atom allowed_versions
    let entry_count = read_u32 (take 4 (drop 4 payload))
    let body = drop 8 payload
    bytes ← entry_bytes entry_count bytes_per_entry atom
    fail_if (not (length body == bytes))
        (malformed_atom atom "entry table size disagrees with entry_count")
    parse_all (parse_entry version) (chunks_exact bytes_per_entry body)

  abbrev parse_stts_entry : ℕ → List ℕ → Result PackagerError (ℕ × ℕ)
  parse_stts_entry version c = ok (read_u32 (take 4 c), read_u32 (drop 4 c))

  unfoldable pub read_stts : Result PackagerError (List (ℕ × ℕ))
  unfolding read_full_box_table
  read_stts = read_full_box_table "stts" (0 ∷ []) 8 parse_stts_entry

  -- `i32::try_from` refuses 2^31 and more; `read_i32` reads the same bits as a signed number.
  abbrev parse_ctts_entry : ℕ → List ℕ → Result PackagerError (ℕ × ℤ)
  parse_ctts_entry version c =
      let count = read_u32 (take 4 c) in
      let raw = read_u32 (drop 4 c) in
      if version == 0
      then (if ltb raw 2147483648
          then ok (count, pos raw)
          else err (malformed_atom "ctts" "version 0 sample_offset exceeds i32 range"))
      else ok (count, of_u32 raw)

  unfoldable pub read_ctts : Result PackagerError (List (ℕ × ℤ))
  unfolding read_full_box_table
  read_ctts = read_full_box_table "ctts" (0 ∷ 1 ∷ []) 8 parse_ctts_entry

  unfoldable pub read_stss : Result PackagerError (List ℕ)
  unfolding read_full_box_table
  read_stss = read_full_box_table "stss" (0 ∷ []) 4 (λ version c. ok (read_u32 c))

  abbrev parse_stsc_entry : ℕ → List ℕ → Result PackagerError (ℕ × ℕ × ℕ)
  parse_stsc_entry version c =
      let sdi = read_u32 (drop 8 c) in
      if not (sdi == 1)
      then err (malformed_atom "stsc" "sample_description_index must be 1")
      else ok (read_u32 (take 4 c), read_u32 (take 4 (drop 4 c)), sdi)

  unfoldable pub read_stsc : Result PackagerError (List (ℕ × ℕ × ℕ))
  unfolding read_full_box_table
  read_stsc = read_full_box_table "stsc" (0 ∷ []) 12 parse_stsc_entry

unfoldable pub read_chunk_offsets :
    ⦃be : ByteOrder⦄ → ReadAt → ChunkOffsets → Result PackagerError (List ℕ)
unfolding read_full_box_table
read_chunk_offsets reader (stco range) =
    read_full_box_table reader range "stco" (0 ∷ []) 4 (λ version c. ok (read_u32 c))
read_chunk_offsets reader (co64 range) =
    read_full_box_table reader range "co64" (0 ∷ []) 8 (λ version c. ok (read_u64 c))
