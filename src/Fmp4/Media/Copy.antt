-- ===== src/Fmp4/Media/Copy.antt =====
-- crates/packager/src/fmp4/media.rs: stream_sample, which copies a sample from the source.
use cmafly.Prelude.{ℕ, zero, suc, ◌+◌, ◌-◌, ◌==◌, ltb, if◌then◌else◌, min, length}
use cmafly.Error.{err, map_err, io, unexpected_eof, out_of_fuel}
use cmafly.Demux.Source.{ReadAt}
use cmafly.Sink.{Sink}
use cmafly.Fmp4.Writer.{Writer, pure, lift, ◌>>=◌, ◌>>◌, write_all}
use cmafly.Index.Format.{SampleEntry}

-- COPY_BUF_SIZE
abbrev pub copy_buf_size : ℕ
copy_buf_size = 65536

module _ {W : Type 0} ⦃sink : Sink W⦄ where
  unfoldable pub stream_loop : ReadAt → ℕ → ℕ → ℕ → Writer W (Unit {0})
  stream_loop src zero remaining pos =
      if ltb 0 remaining then lift (err (io out_of_fuel)) else pure tt
  stream_loop src (suc fuel) remaining pos =
      let round = lift (map_err io (src pos (min remaining copy_buf_size))) >>= λ bytes.
      let rest = stream_loop src fuel (remaining - length bytes) (pos + length bytes) in
      if length bytes == 0 then lift (err (io unexpected_eof)) else write_all bytes >> rest in
      if ltb 0 remaining then round else pure tt

  -- A round copies a byte at least, so the size is enough fuel.
  unfoldable pub stream_sample : ReadAt → SampleEntry → Writer W (Unit {0})
  unfolding stream_loop
  stream_sample src sample = stream_loop src sample.size sample.size sample.offset
