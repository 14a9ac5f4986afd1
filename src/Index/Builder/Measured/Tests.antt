-- ===== src/Index/Builder/Measured/Tests.antt =====
-- The numbers of the builder at the example of a segment, and the hash of a source.
use cmafly.Prelude.{
  ℕ, ◌+◌, ◌%◌, ◌<◌, ◌≡◌, refl, ap, subst, arith, List, [], ◌∷◌, ◌++◌, length, replicate, take,
  codes, u32_mod,
}
use cmafly.Error.{ok}
use cmafly.ByteOrder.BigEndian.{big_endian}
use cmafly.Demux.Source.{read_at_bytes}
use cmafly.Demux.Source.Exact.{read_at_bytes-Reads}
use cmafly.Demux.Source.Example.{six, pairs, pairs-Reads}
use cmafly.Fmp4.Media.Example.{source, segment, index, index-Servable, segment_size}
use cmafly.Fmp4.Media.Written.{Servable}
use cmafly.Playlist.{Format}
use cmafly.Playlist.Ticks.{target_duration}
use cmafly.Playlist.Written.{playlist_text}
use cmafly.Index.Builder.Build.{measure_segments, render_playlist}
use cmafly.Index.Builder.Hash.{Hasher, blake3_of_source, blake3_of_source-eq}
use cmafly.Index.Builder.Measured.{
  size, AllServable, Largest, measure_segments_lem, render_playlist_lem,
}

index-AllServable : AllServable ⦃be = big_endian⦄ source index (λ i. segment)
index-AllServable i inside =
    let only : 0 ≡ i = omega arith in
    subst
      (λ k.
        Servable ⦃be = big_endian⦄ index k segment source
        × (size ⦃be = big_endian⦄ source index (λ i. segment) k < u32_mod))
      only (index-Servable, omega (arith, segment_size))

measure_segments_lem_example :
    (largest : ℕ) × (measure_segments ⦃be = big_endian⦄ index (read_at_bytes source) ≡ ok largest)
    × Largest ⦃be = big_endian⦄ source index (λ i. segment) 0 0 largest
measure_segments_lem_example =
    measure_segments_lem ⦃be = big_endian⦄ source index (λ i. segment) (read_at_bytes source)
      (omega arith) (read_at_bytes-Reads source) index-AllServable

-- The formats of the test write every number as one digit.
abbrev one_digit : Format
one_digit = record {
  number = λ n. (b'0' + n) ∷ [];
  four_digits = λ n. codes "000" ++ ((b'0' + n) ∷ []);
  six_decimals = λ ticks timescale. (b'0' + ticks) ∷ codes ".000000";
}

text_size : length (playlist_text one_digit index) ≡ 174
unfolding playlist_text target_duration
text_size = refl

render_playlist_lem_example :
    (n : ℕ) × (n < 8)
    × (render_playlist one_digit index ≡ ok (playlist_text one_digit index ++ replicate n b'\n'))
    × (length (playlist_text one_digit index ++ replicate n b'\n') % 8 ≡ 0)
render_playlist_lem_example =
    render_playlist_lem one_digit index (omega arith) (omega arith)
      (record { range = omega arith; ticks = omega arith }, tt) (omega (arith, text_size))

-- A hash that keeps its input.
plain : Hasher
plain = record {
  State = List ℕ;
  new = [];
  update = λ h bytes. h ++ bytes;
  finalize = λ h. h;
  hash = λ bytes. bytes;
  Absorbed = λ h bytes. h ≡ bytes;
  new-Absorbed = refl;
  update-Absorbed = λ h a b e. ap (λ l. l ++ b) e;
  finalize-hash = λ h a e. e;
}

-- The hash over a reader that gives two bytes at most for each read.
blake3_of_source-eq_example : blake3_of_source plain pairs 5 ≡ ok (plain.hash (take 5 six))
blake3_of_source-eq_example = blake3_of_source-eq plain six pairs pairs-Reads 5 (omega arith)
