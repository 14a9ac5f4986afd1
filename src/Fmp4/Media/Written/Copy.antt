-- ===== src/Fmp4/Media/Written/Copy.antt =====
-- stream_sample copies the bytes of its sample from any reader of the source.
use cmafly.Prelude.{
  ℕ, zero, suc, ◌+◌, ◌-◌, ◌≤◌, ◌<◌, ◌≡◌, ◌==◌, refl, ap, sym, ◌∙◌, subst, arith, ltb, min,
}
use cmafly.Prelude.{
  List, ◌++◌, length, slice_split, take, drop, slice, length-take, length-drop, lt→ltb,
}
use cmafly.Demux.Source.{ReadAt}
use cmafly.Demux.Source.Exact.{Reads}
use cmafly.Sink.{Sink}
use cmafly.Fmp4.Writer.Appends.{
  Appends, pure-Appends, write_all-Appends, bind-Appends, then-Appends, lift-Appends, if-Appends,
  else-Appends, as_Appends,
}
use cmafly.Fmp4.Media.Copy.{stream_loop, stream_sample, copy_buf_size}
use cmafly.Fmp4.Media.Bytes.{sample_bytes}
use cmafly.Index.Format.{SampleEntry}

-- The sample lies in the source.
abbrev pub InSource : List ℕ → SampleEntry → Type 0
InSource src s = s.offset + s.size ≤ length src

module _ {W : Type 0} ⦃sink : Sink W⦄ (src : List ℕ) (reader : ReadAt)
    (reads : Reads src reader) where
  stream_loop-Appends :
      (fuel remaining at : ℕ)
      → remaining ≤ fuel
      → at + remaining ≤ length src
      → Appends {W = W} (stream_loop reader fuel remaining at) (slice at remaining src) (λ n. tt)
  unfolding stream_loop
  stream_loop-Appends zero remaining at enough inside =
      let none : remaining ≡ 0 = omega arith in
      subst (λ r. Appends {W = W} (stream_loop reader zero r at) (slice at r src) (λ n. tt))
        (sym none) (pure-Appends tt)
  stream_loop-Appends (suc fuel) zero at enough inside = pure-Appends tt
  stream_loop-Appends (suc fuel) (suc r) at enough inside =
      let sv = reads at (min (suc r) copy_buf_size) in
      let bytes = take sv.n (drop at src) in
      let size : length bytes ≡ sv.n =
        omega (arith, length-take sv.n (drop at src), length-drop at src, sv.in_source) in
      let some : 0 < sv.n = sv.some (omega arith) (ground arith) in
      let in_buffer : sv.n ≤ suc r = ground (arith, sv.in_buffer) in
      as_Appends
        (if-Appends (ltb 0 (suc r)) _ _ (lt→ltb 0 (suc r) (omega arith)) (
          bind-Appends _ (lift-Appends _ bytes (rw sv.bytes)) λ n.
            else-Appends (length bytes == 0) _ _ (ground (arith, size, some)) (
              then-Appends (write_all-Appends bytes) (
                stream_loop-Appends fuel (suc r - length bytes) (at + length bytes) (omega arith)
                  (omega arith)))))
        (ap (λ k. bytes ++ slice (at + k) (suc r - k) src) size
          ∙ sym (slice_split at sv.n (suc r) src in_buffer))
        λ n. refl

  pub stream_sample-Appends :
      (s : SampleEntry)
      → InSource src s
      → Appends {W = W} (stream_sample reader s) (sample_bytes src s) (λ n. tt)
  unfolding stream_sample
  stream_sample-Appends s inside = stream_loop-Appends s.size s.size s.offset (omega arith) inside
