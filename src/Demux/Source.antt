-- ===== src/Demux/Source.antt =====
-- crates/packager/src/read_at.rs, and `read_exact` of demux/reader.rs: reading the source MP4.
pub mod Exact
pub mod Example
mod Tests
use cmafly.Prelude.{ℕ, zero, suc, ◌+◌, ◌-◌, ◌==◌, ltb, leb, if◌then◌else◌, min, List, [], ◌++◌}
use cmafly.Prelude.{length, take, drop}
use cmafly.Error.{Result, ok, err, ◌>>=◌, IoError, unexpected_eof, out_of_fuel}

-- The trait: `read_at(offset, buf)` at an offset and a buffer length gives the bytes that it puts
-- into the buffer, at most as many as the buffer holds, or an `io::Error`.
abbrev pub ReadAt : Type 0
ReadAt = ℕ → ℕ → Result IoError (List ℕ)

-- The implementation for a byte slice, such as an mmap.
unfoldable pub read_at_bytes : List ℕ → ReadAt
read_at_bytes src offset len =
    if leb (length src) offset
    then ok []
    else ok (take (min len (length src - offset)) (drop offset src))

-- The loop of `read_exact`: `buf` is the filled part of the buffer of `len` bytes.
read_exact_loop : ReadAt → ℕ → ℕ → ℕ → List ℕ → Result IoError (List ℕ)
read_exact_loop reader zero offset len buf =
    if ltb (length buf) len then err out_of_fuel else ok buf
read_exact_loop reader (suc fuel) offset len buf =
    let round = reader (offset + length buf) (len - length buf) >>= λ bytes.
    let rest = read_exact_loop reader fuel offset len (buf ++ bytes) in
    if length bytes == 0 then err unexpected_eof else rest in
    if ltb (length buf) len then round else ok buf

-- A round fills a byte at least, so `len` rounds are enough.
unfoldable pub read_exact : ReadAt → ℕ → ℕ → Result IoError (List ℕ)
unfolding read_exact_loop
read_exact reader offset len = read_exact_loop reader len offset len []
