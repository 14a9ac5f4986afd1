-- ===== src/Demux/Source/Exact.antt =====
-- `read_exact` over a reader that may return fewer bytes than it is asked for.
use cmafly.Prelude.{ℕ, zero, suc, ◌+◌, ◌-◌, ◌≤◌, ◌<◌, ◌≡◌, ◌==◌, ltb, leb}
use cmafly.Prelude.{min, List, ◌++◌, length, take, drop, length-take, length-drop, take-add}
use cmafly.Prelude.{drop-drop, Bool-cases, lt→ltb, inl, inr, if◌then◌else◌, arith}
use cmafly.Error.{ok, err, unexpected_eof}
use cmafly.Demux.Source.{ReadAt, read_at_bytes, read_exact_loop, read_exact}

-- What one call of a reader of `src` may return: a front of the bytes from the offset on, which is
-- empty only at the end of the source or for an empty buffer. This allows a read that stops short in the
-- middle of the source, after which the loops of the code read on; the doc of the trait has callers take a
-- short read for the last.
pub record Serves (src : List ℕ) (reader : ReadAt) (offset len : ℕ) : Type 0 where
  pub n : ℕ
  pub bytes : reader offset len ≡ ok (take n (drop offset src))
  pub in_buffer : n ≤ len
  pub in_source : n ≤ length src - offset
  pub some : offset < length src → 0 < len → 0 < n

abbrev pub Reads : List ℕ → ReadAt → Type 0
Reads src reader = (offset len : ℕ) → Serves src reader offset len

-- A byte slice is such a reader.
pub read_at_bytes-Reads : (src : List ℕ) → Reads src (read_at_bytes src)
unfolding read_at_bytes
read_at_bytes-Reads src offset len = elim (Bool-cases (leb (length src) offset)) [
  | inl past ↦ record {
    n = 0;
    bytes = rw past;
    in_buffer = omega arith;
    in_source = omega arith;
    some = ground arith;
  }
  | inr inside ↦ record {
    n = min len (length src - offset);
    bytes = rw inside;
    in_buffer = omega arith;
    in_source = omega arith;
    some = ground arith;
  }
]

module _ (src : List ℕ) (reader : ReadAt) (reads : Reads src reader) (offset len : ℕ) where
  front : ℕ → List ℕ
  front f = take f (drop offset src)

  length-front : (f : ℕ) → f ≤ length src - offset → length (front f) ≡ f
  unfolding front
  length-front f h = omega (arith, length-take f (drop offset src), length-drop offset src)

  front-add : (f n : ℕ) → front f ++ take n (drop (offset + f) src) ≡ front (f + n)
  unfolding front
  front-add f n = rw (take-add f n (drop offset src), drop-drop offset f src)

  -- The buffer is full.
  loop_done :
      (fuel : ℕ)
      → len ≤ length src - offset
      → read_exact_loop reader fuel offset len (front len) ≡ ok (front len)
  unfolding read_exact_loop
  loop_done zero h = ground (arith, length-front len h)
  loop_done (suc fuel) h = ground (arith, length-front len h)

  -- A round with room left in the buffer.
  loop_round :
      (fuel f : ℕ)
      → f < len
      → f ≤ length src - offset
      → read_exact_loop reader (suc fuel) offset len (front f) ≡ (
          let n = (reads (offset + f) (len - f)).n in
          let rest = read_exact_loop reader fuel offset len (front (f + n)) in
          if n == 0 then err unexpected_eof else rest)
  unfolding read_exact_loop
  loop_round fuel f h hs =
      let sv = reads (offset + f) (len - f) in
      let size : length (take sv.n (drop (offset + f) src)) ≡ sv.n = omega (
        arith,
        length-take sv.n (drop (offset + f) src),
        length-drop (offset + f) src,
        sv.in_source,
      ) in
      rw (length-front f hs, lt→ltb f len h, sv.bytes, size, front-add f sv.n)

  loop_full :
      (fuel f : ℕ)
      → offset + len ≤ length src
      → f ≤ len
      → len ≤ f + fuel
      → read_exact_loop reader fuel offset len (front f) ≡ ok (front len)
  loop_full zero f fits le enough =
      let same : f ≡ len = omega arith in rw same (loop_done zero (omega arith))
  loop_full (suc fuel) f fits le enough = elim (Bool-cases (ltb f len)) [
    | inl more ↦
        let sv = reads (offset + f) (len - f) in
        ground (arith, loop_round fuel f, sv.in_buffer, sv.some, loop_full fuel (f + sv.n) fits)
    | inr full ↦ let same : f ≡ len = ground arith in rw same (loop_done (suc fuel) (omega arith))
  ]

  loop_short :
      (fuel f : ℕ)
      → length src < offset + len
      → f ≤ length src - offset
      → f < len
      → len ≤ f + fuel
      → read_exact_loop reader fuel offset len (front f) ≡ err unexpected_eof
  loop_short zero f short le lt enough = absurd (omega arith)
  loop_short (suc fuel) f short le lt enough =
      let sv = reads (offset + f) (len - f) in
      ground
        (arith, loop_round fuel f, sv.in_buffer, sv.in_source, loop_short fuel (f + sv.n) short)

-- Over any reader of `src`, also one whose reads stop short in the middle of the source,
-- `read_exact` of one byte or more returns the bytes `[offset, offset + len)` of the source if it has them all, and
-- `UnexpectedEof` if not.
pub read_exact-eq :
    (src : List ℕ) (reader : ReadAt) (offset len : ℕ)
    → Reads src reader
    → 0 < len
    → read_exact reader offset len ≡ (
        if leb (offset + len) (length src)
        then ok (take len (drop offset src))
        else err unexpected_eof)
unfolding read_exact front
read_exact-eq src reader offset len reads pos = ground (
  arith,
  loop_full src reader reads offset len len 0,
  loop_short src reader reads offset len len 0,
)

pub read_exact_inside :
    (src : List ℕ) (reader : ReadAt) (offset len : ℕ)
    → Reads src reader
    → offset + len ≤ length src
    → read_exact reader offset len ≡ ok (take len (drop offset src))
unfolding read_exact front
read_exact_inside src reader offset len reads fits =
    loop_full src reader reads offset len len 0 fits (omega arith) (omega arith)
