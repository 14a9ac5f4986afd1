-- ===== src/Server/SegmentName.antt =====
-- crates/server/src/handlers.rs: parse_segment_idx, the segment number in the name of a request.
use cmafly.Prelude.{
  ℕ, ◌+◌, ◌-◌, ◌*◌, ◌≤◌, ◌<◌, ◌≡◌, refl, ap, sym, ◌∙◌, arith, ltb, leb, if◌then◌else◌, Bool, true,
  ◌&&◌, Option, none, some, List, [], ◌∷◌, ◌++◌, length, length-append, take, drop,
  take-append_length, drop-append_length, take-append-drop, replicate, zero, suc, bytes_eq→≡,
  Option-cases, inl, inr, All, codes, bytes_eq, bytes_eq_refl, u32_mod, lt→ltb, le→ltb, try_u32,
}
use cmafly.Playlist.{Format}

-- `s.strip_prefix(p)` and `s.strip_suffix(p)` of the standard library.
abbrev strip_prefix : List ℕ → List ℕ → Option (List ℕ)
strip_prefix p s = if bytes_eq (take (length p) s) p then some (drop (length p) s) else none

abbrev strip_suffix : List ℕ → List ℕ → Option (List ℕ)
strip_suffix p s =
    let n = length s - length p in if bytes_eq (drop n s) p then some (take n s) else none

abbrev is_digit : ℕ → Bool
is_digit b = leb b'0' b && leb b b'9'

abbrev all_digits : List ℕ → Bool
all_digits [] = true
all_digits (b ∷ bs) = is_digit b && all_digits bs

-- The number that digits write, behind a number that was read.
abbrev pub decimal : ℕ → List ℕ → ℕ
decimal n [] = n
decimal n (b ∷ bs) = decimal (n * 10 + (b - b'0')) bs

abbrev pub seg_prefix : List ℕ
seg_prefix = codes "seg_"

abbrev pub seg_suffix : List ℕ
seg_suffix = codes ".m4s"

abbrev pub seg_min_digits : ℕ
seg_min_digits = 4

-- `body.parse::<u32>().ok()?.checked_sub(1)` for a string of digits.
abbrev parse_one_based : Option ℕ → Option ℕ
parse_one_based none = none
parse_one_based (some n) = if leb 1 n then some (n - 1) else none

abbrev parse_body : Option (List ℕ) → Option ℕ
parse_body none = none
parse_body (some body) =
    if ltb (length body) seg_min_digits
    then none
    else if all_digits body
    then parse_one_based (try_u32 (decimal 0 body))
    else none

abbrev strip_both : Option (List ℕ) → Option (List ℕ)
strip_both none = none
strip_both (some s) = strip_suffix seg_suffix s

unfoldable pub parse_segment_idx : List ℕ → Option ℕ
parse_segment_idx filename = parse_body (strip_both (strip_prefix seg_prefix filename))

-- `{n:04}` writes `n` in decimal digits, four at least.
pub record IsFourDigits (n : ℕ) (text : List ℕ) : Type 0 where
  pub long : 4 ≤ length text
  pub digits : All (λ b. (b'0' ≤ b) × (b ≤ b'9')) text
  pub value : decimal 0 text ≡ n

-- The name that the playlist has for segment `i`, counted from 0.
abbrev pub segment_name : Format → ℕ → List ℕ
segment_name format i = codes "seg_" ++ (format.four_digits (i + 1) ++ codes ".m4s")

digits-eq-true : (text : List ℕ) → All (λ b. (b'0' ≤ b) × (b ≤ b'9')) text → all_digits text ≡ true
digits-eq-true [] all = refl
digits-eq-true (b ∷ bs) ((low, high), all) = ground (arith, low, high, digits-eq-true bs all)

strip_prefix-append : (p s : List ℕ) → strip_prefix p (p ++ s) ≡ some s
strip_prefix-append p s = rw (take-append_length p s, drop-append_length p s, bytes_eq_refl p)

strip_suffix-append : (p s : List ℕ) → strip_suffix p (s ++ p) ≡ some s
strip_suffix-append p s =
    let n : length (s ++ p) - length p ≡ length s = omega (arith, length-append s p) in
    rw (n, take-append_length s p, drop-append_length s p, bytes_eq_refl p)

-- What a name must be for segment `i`, counted from 0.
pub record IsNameOf (i : ℕ) (filename : List ℕ) : Type 0 where
  pub body : List ℕ
  pub name : filename ≡ codes "seg_" ++ (body ++ codes ".m4s")
  pub number : IsFourDigits (i + 1) body
  pub small : i + 1 < u32_mod

strip_prefix_inv : (p s rest : List ℕ) → strip_prefix p s ≡ some rest → s ≡ p ++ rest
strip_prefix_inv p s rest e =
    let same : take (length p) s ≡ p = bytes_eq→≡ (take (length p) s) p (ground (arith, e)) in
    let behind : drop (length p) s ≡ rest = ground (arith, e) in
    sym (take-append-drop (length p) s)
    ∙ ap (λ l. l ++ drop (length p) s) same
    ∙ ap (λ l. p ++ l) behind

strip_suffix_inv : (p s body : List ℕ) → strip_suffix p s ≡ some body → s ≡ body ++ p
strip_suffix_inv p s body e =
    let n = length s - length p in
    let same : drop n s ≡ p = bytes_eq→≡ (drop n s) p (ground (arith, e)) in
    let front : take n s ≡ body = ground (arith, e) in
    sym (take-append-drop n s) ∙ ap (λ l. l ++ drop n s) front ∙ ap (λ l. body ++ l) same

digits_inv : (text : List ℕ) → all_digits text ≡ true → All (λ b. (b'0' ≤ b) × (b ≤ b'9')) text
digits_inv [] e = tt
digits_inv (b ∷ bs) e = (ground (arith, e), digits_inv bs (ground (arith, e)))

parse_body_inv :
    (i : ℕ) (body : List ℕ)
    → parse_body (some body) ≡ some i
    → IsFourDigits (i + 1) body × (i + 1 < u32_mod)
parse_body_inv i body e = (
  record {
    long = ground (arith, e);
    digits = digits_inv body (ground (arith, e));
    value = ground (arith, e);
  },
  ground (arith, e),
)

-- Every name that is parsed as segment `i` is `seg_`, the number `i + 1` in four digits or more, and `.m4s`,
-- and the number fits 32 bits.
pub parse_segment_idx-IsNameOf :
    (filename : List ℕ) (i : ℕ) → parse_segment_idx filename ≡ some i → IsNameOf i filename
unfolding parse_segment_idx
parse_segment_idx-IsNameOf filename i e = elim (Option-cases (strip_prefix seg_prefix filename)) [
  | inl none_left ↦ let refused : ◌≡◌ {A = Option ℕ} none (some i) = rw none_left at e in cc
  | inr (rest, front) ↦ elim (Option-cases (strip_suffix seg_suffix rest)) [
    | inl none_left ↦
        let refused : ◌≡◌ {A = Option ℕ} none (some i) = rw (front, none_left) at e in cc
    | inr (body, back) ↦
        let (number, small) = parse_body_inv i body (rw (front, back) at e) in
        record {
          body = body;
          name =
              strip_prefix_inv seg_prefix filename rest front
              ∙ ap (λ l. seg_prefix ++ l) (strip_suffix_inv seg_suffix rest body back);
          number = number;
          small = small;
        }
  ]
]

decimal-zeros : (k : ℕ) (text : List ℕ) → decimal 0 (replicate k b'0' ++ text) ≡ decimal 0 text
decimal-zeros zero text = refl
decimal-zeros (suc k) text = decimal-zeros k text

zeros-digits :
    (k : ℕ) (text : List ℕ)
    → All (λ b. (b'0' ≤ b) × (b ≤ b'9')) text
    → All (λ b. (b'0' ≤ b) × (b ≤ b'9')) (replicate k b'0' ++ text)
zeros-digits zero text all = all
zeros-digits (suc k) text all = ((omega arith, omega arith), zeros-digits k text all)

-- A body of digits is parsed as its number less one.
parse_segment_idx_number :
    (i : ℕ) (body : List ℕ)
    → IsFourDigits (i + 1) body
    → i + 1 < u32_mod
    → parse_segment_idx (codes "seg_" ++ (body ++ codes ".m4s")) ≡ some i
unfolding parse_segment_idx
parse_segment_idx_number i body d small =
    ap (λ s. parse_body (strip_both s)) (strip_prefix-append seg_prefix (body ++ seg_suffix))
    ∙ ap parse_body (strip_suffix-append seg_suffix body)
    ∙ rw
        (
          le→ltb (length body) 4 d.long,
          digits-eq-true body d.digits,
          d.value,
          lt→ltb (i + 1) u32_mod small,
        )
        (ground arith)

-- Where the number of a segment is written in decimal digits, four at least, and fits 32 bits, the name
-- in the playlist is parsed as the index of its segment.
pub parse_segment_idx-segment_name :
    (format : Format) (i : ℕ)
    → IsFourDigits (i + 1) (format.four_digits (i + 1))
    → i + 1 < u32_mod
    → parse_segment_idx (segment_name format i) ≡ some i
parse_segment_idx-segment_name format i d small =
    parse_segment_idx_number i (format.four_digits (i + 1)) d small

-- Where the number of a segment is written in decimal digits, four at least, and fits 32 bits, the name
-- in the playlist with any number of zeros in front of the number is parsed as the index of the same
-- segment.
pub parse_segment_idx-leading_zeros :
    (format : Format) (i k : ℕ)
    → IsFourDigits (i + 1) (format.four_digits (i + 1))
    → i + 1 < u32_mod
    → parse_segment_idx
        (codes "seg_" ++ ((replicate k b'0' ++ format.four_digits (i + 1)) ++ codes ".m4s"))
      ≡ some i
parse_segment_idx-leading_zeros format i k d small =
    let text = format.four_digits (i + 1) in
    let zeros = replicate k b'0' in
    parse_segment_idx_number i (zeros ++ text)
      (record {
        long = omega (arith, length-append zeros text, d.long);
        digits = zeros-digits k text d.digits;
        value = decimal-zeros k text ∙ d.value;
      })
      small
