-- ===== src/Index/Builder/Hash.antt =====
-- crates/packager/src/index/builder.rs: blake3_of_source and read_byte_range.
use cmafly.Prelude.{
  ℕ, zero, suc, ◌+◌, ◌-◌, ◌^◌, ◌≤◌, ◌<◌, ◌≡◌, ◌==◌, ap, sym, ◌∙◌, subst, arith, ltb, leb,
  if◌then◌else◌, min, List, [], ◌++◌, length, take, drop, take-add, length-take, length-drop,
  ltb→lt, ltb→le, le→ltb, Bool-cases, inl, inr, false,
}
use cmafly.Error.{
  Result, ok, err, ◌>>=◌, ◌>>◌, fail_if, map_err, PackagerError, io, unexpected_eof, out_of_fuel,
  panicked,
}
use cmafly.Demux.Source.{ReadAt, read_exact}
use cmafly.Demux.Source.Exact.{Reads}
use cmafly.Demux.Locations.{ByteRange}

-- `blake3::Hasher`: `hash` of the bytes that it was given, in whatever pieces.
pub record Hasher : Type 1 where
  pub State : Type 0
  pub new : State
  pub update : State → List ℕ → State
  pub finalize : State → List ℕ
  pub hash : List ℕ → List ℕ
  pub Absorbed : State → List ℕ → Type 0
  pub new-Absorbed : Absorbed new []
  pub update-Absorbed : (h : State) (a b : List ℕ) → Absorbed h a → Absorbed (update h b) (a ++ b)
  pub finalize-hash : (h : State) (a : List ℕ) → Absorbed h a → finalize h ≡ hash a

-- COPY_BUF_SIZE
abbrev copy_buf_size : ℕ
copy_buf_size = 65536

-- `vec![0u8; len]` panics above `isize::MAX` bytes.
unfoldable pub read_byte_range : ReadAt → ByteRange → Result PackagerError (List ℕ)
read_byte_range reader range = do
  fail_if (leb (2 ^ 63) range.len) (io panicked)
  map_err io (read_exact reader range.offset range.len)

module _ (hasher : Hasher) where
  unfoldable pub hash_loop : ReadAt → ℕ → ℕ → ℕ → hasher.State → Result PackagerError (List ℕ)
  hash_loop reader zero pos len h =
      if ltb pos len then err (io out_of_fuel) else ok (hasher.finalize h)
  hash_loop reader (suc fuel) pos len h =
      let round = map_err io (reader pos (min (len - pos) copy_buf_size)) >>= λ bytes.
      let rest = hash_loop reader fuel (pos + length bytes) len (hasher.update h bytes) in
      if length bytes == 0 then err (io unexpected_eof) else rest in
      if ltb pos len then round else ok (hasher.finalize h)

  -- A round hashes a byte at least.
  unfoldable pub blake3_of_source : ReadAt → ℕ → Result PackagerError (List ℕ)
  blake3_of_source reader len = hash_loop reader len 0 len hasher.new

  module _ (src : List ℕ) (reader : ReadAt) (reads : Reads src reader) where
    hash_loop-eq :
        (fuel pos len : ℕ) (h : hasher.State)
        → len - pos ≤ fuel
        → pos ≤ len
        → len ≤ length src
        → hasher.Absorbed h (take pos src)
        → hash_loop reader fuel pos len h ≡ ok (hasher.hash (take len src))
    unfolding hash_loop
    hash_loop-eq zero pos len h enough before inside a =
        let end : pos ≡ len = omega arith in
        rw (le→ltb pos len (omega arith))
          (ap ok (hasher.finalize-hash h (take pos src) a ∙ ap (λ n. hasher.hash (take n src)) end))
    hash_loop-eq (suc fuel) pos len h enough before inside a = elim (Bool-cases (ltb pos len)) [
      | inl more ↦
          let room = ltb→lt pos len more in
          let sv = reads pos (min (len - pos) copy_buf_size) in
          let bytes = take sv.n (drop pos src) in
          let size : length bytes ≡ sv.n =
            omega (arith, length-take sv.n (drop pos src), length-drop pos src, sv.in_source) in
          let some : 0 < sv.n = sv.some (omega arith) (ground arith) in
          let in_buffer : sv.n ≤ len - pos = ground (arith, sv.in_buffer) in
          let next : hasher.Absorbed (hasher.update h bytes) (take (pos + sv.n) src) =
            subst (hasher.Absorbed (hasher.update h bytes)) (sym (take-add pos sv.n src))
              (hasher.update-Absorbed h (take pos src) bytes a) in
          let none : (sv.n == 0) ≡ false = ground arith in
          rw (more, sv.bytes, size, none)
            (hash_loop-eq fuel (pos + sv.n) len (hasher.update h bytes) (omega arith) (omega arith)
              inside next)
      | inr done ↦
          let end : pos ≡ len = omega (arith, ltb→le pos len done) in
          rw done (
            ap ok
              (hasher.finalize-hash h (take pos src) a ∙ ap (λ n. hasher.hash (take n src)) end))
    ]

    -- Over any reader of the source, also one whose reads stop short in the middle of the source,
    -- `blake3_of_source` returns the hash of the first `len` bytes of the source, where it has them.
    pub blake3_of_source-eq :
        (len : ℕ) → len ≤ length src → blake3_of_source reader len ≡ ok (hasher.hash (take len src))
    unfolding blake3_of_source
    blake3_of_source-eq len inside =
        hash_loop-eq len 0 len hasher.new (omega arith) (omega arith) inside hasher.new-Absorbed
