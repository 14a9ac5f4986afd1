-- ===== src/Fmp4/Media/Served/Tests.antt =====
-- The segment of the example, written, measured and read back.
use cmafly.Prelude.{ℕ, ◌+◌, ◌≡◌, arith, List, [], ◌∷◌, ◌++◌, length, slice}
use cmafly.Error.{ok}
use cmafly.ByteOrder.{read_u32}
use cmafly.ByteOrder.BigEndian.{big_endian}
use cmafly.Demux.Source.{read_at_bytes}
use cmafly.Demux.Source.Exact.{read_at_bytes-Reads}
use cmafly.Sink.Cursor.{Cursor, cursor, new_cursor, new_cursor-Holds}
use cmafly.Sink.{Holds}
use cmafly.Fmp4.Media.{write_media_segment}
use cmafly.Fmp4.Media.Written.{segment_bytes, write_media_segment_lem}
use cmafly.Fmp4.Media.Served.{measured-eq, traf_size, data_offsets_lem}
use cmafly.Index.Builder.Counting.{CountingSink, counting, new_counting}
use cmafly.Fmp4.Media.Example.{source, segment, index, index-Servable, segment_size}

write_media_segment_lem_example :
    (c : Cursor) × Holds c
      ([] ++ segment_bytes ⦃be = big_endian⦄ index 0 segment source)
      (length ([] ++ segment_bytes ⦃be = big_endian⦄ index 0 segment source))
    × (write_media_segment ⦃be = big_endian⦄ index 0 (read_at_bytes source) new_cursor ≡ ok (tt, c))
write_media_segment_lem_example =
    write_media_segment_lem ⦃sink = cursor⦄ ⦃be = big_endian⦄ source (read_at_bytes source) index 0
      segment new_cursor [] (read_at_bytes-Reads source) index-Servable new_cursor-Holds
      (omega (arith, segment_size))

measured-eq_example :
    (s : CountingSink) × (c : Cursor) × (write_media_segment ⦃be = big_endian⦄ index 0
        (read_at_bytes source)
        new_counting
      ≡ ok (tt, s))
    × (write_media_segment ⦃be = big_endian⦄ index 0 (read_at_bytes source) new_cursor ≡ ok (tt, c))
    × (s.len ≡ length c.bytes)
measured-eq_example =
    measured-eq ⦃be = big_endian⦄ source (read_at_bytes source) index 0 segment
      (read_at_bytes-Reads source) index-Servable (omega (arith, segment_size))

data_offsets_lem_example :
    (c : Cursor) × (bytes : List ℕ) × (write_media_segment ⦃be = big_endian⦄ index 0
        (read_at_bytes source)
        new_cursor
      ≡ ok (tt, c))
    × Holds c bytes (length bytes)
    × (slice (24 + read_u32 ⦃be = big_endian⦄ (slice 108 4 bytes)) 3 bytes ≡ 10 ∷ 11 ∷ 14 ∷ [])
    × (slice
          (24
            + read_u32 ⦃be = big_endian⦄
                (slice (108 + traf_size ⦃be = big_endian⦄ index 0 segment) 4 bytes))
          2
          bytes
        ≡ 15 ∷ 16 ∷ [])
data_offsets_lem_example =
    data_offsets_lem ⦃sink = cursor⦄ ⦃be = big_endian⦄ source (read_at_bytes source) index 0 segment
      new_cursor (read_at_bytes-Reads source) index-Servable new_cursor-Holds
      (omega (arith, segment_size))
