-- ===== src/Index/View/Meta.antt =====
-- crates/packager/src/index/view.rs: the payloads of the two track sections.
use Prim.Native.String.{String, ◌++◌ as followed_by}
use cmafly.Prelude.{
  ℕ, ◌+◌, ◌==◌, ltb, leb, Bool, not, ◌||◌, List, [], ◌∷◌, length, get_or, drop, slice,
}
use cmafly.Prelude.{checked_add, bytes_eq}
use cmafly.Error.{Result, ok, ◌>>=◌, ◌>>◌, fail_if, ok_or, PackagerError, malformed_index_section}
use cmafly.ByteOrder.{ByteOrder, read_u32}
use cmafly.Index.View.Types.{VideoTrackMeta, AudioTrackMeta}

-- The source has one text for each section and reason.
abbrev pub section_error : String → String → PackagerError
section_error section reason = malformed_index_section (followed_by section reason)

-- `padding.iter().any(|&b| b != 0)`
abbrev pub any_nonzero : List ℕ → Bool
any_nonzero [] = Bool.false
any_nonzero (b ∷ bs) = not (b == 0) || any_nonzero bs

unfoldable pub validate_trailing_padding : String → List ℕ → Result PackagerError (Unit {0})
validate_trailing_padding section padding = do
  fail_if (leb 8 (length padding)) (section_error section " has non-canonical trailing padding")
  fail_if (any_nonzero padding) (section_error section " trailing padding is nonzero")

module _ ⦃be : ByteOrder⦄ where
  -- The end of both parsers: the sample entry and the edit list, each behind its size.
  unfoldable pub parse_blobs : String → List ℕ → Result PackagerError (List ℕ × List ℕ)
  unfolding validate_trailing_padding
  parse_blobs section payload = do
    let sample_entry_size = read_u32 (slice 16 4 payload)
    sample_entry_end ←
        ok_or (checked_add 20 sample_entry_size)
          (section_error section " sample_entry_size overflows usize")
    fail_if (ltb (length payload) (sample_entry_end + 4))
        (section_error section " truncated before elst_size")
    let elst_size = read_u32 (slice sample_entry_end 4 payload)
    elst_end ←
        ok_or (checked_add (sample_entry_end + 4) elst_size)
          (section_error section " elst_size overflows usize")
    fail_if (ltb (length payload) elst_end) (section_error section " truncated before elst end")
    validate_trailing_padding section (drop elst_end payload)
    ok (slice 20 sample_entry_size payload, slice (sample_entry_end + 4) elst_size payload)

  unfoldable pub parse_video_meta : List ℕ → Result PackagerError VideoTrackMeta
  unfolding parse_blobs
  parse_video_meta payload = do
    fail_if (ltb (length payload) 20)
        (section_error "VideoTrackMeta" " truncated before sample_entry_size")
    (sample_entry, elst) ← parse_blobs "VideoTrackMeta" payload
    ok (record {
      timescale = read_u32 (slice 0 4 payload);
      fourcc = slice 4 4 payload;
      width = read_u32 (slice 8 4 payload);
      height = read_u32 (slice 12 4 payload);
      sample_entry = sample_entry;
      elst = elst;
    })

  unfoldable pub parse_audio_meta : List ℕ → Result PackagerError AudioTrackMeta
  unfolding parse_blobs
  parse_audio_meta payload = do
    fail_if (ltb (length payload) 20)
        (section_error "AudioTrackMeta" " truncated before sample_entry_size")
    fail_if (not (bytes_eq (slice 13 3 payload) (0 ∷ 0 ∷ 0 ∷ [])))
        (section_error "AudioTrackMeta" " padding bytes are nonzero")
    (sample_entry, elst) ← parse_blobs "AudioTrackMeta" payload
    ok (record {
      timescale = read_u32 (slice 0 4 payload);
      fourcc = slice 4 4 payload;
      sample_rate = read_u32 (slice 8 4 payload);
      channel_count = get_or payload 12 0;
      sample_entry = sample_entry;
      elst = elst;
    })
