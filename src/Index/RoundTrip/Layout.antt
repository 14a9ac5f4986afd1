-- ===== src/Index/RoundTrip/Layout.antt =====
-- Where the sections lie in the byte image, and that the view finds them there.
use cmafly.Prelude.{ℕ, suc, ◌+◌, ◌-◌, ◌%◌, ◌≤◌, ◌<◌, ◌≡◌, refl, ap, sym, ◌∙◌, arith, ◌==◌}
use cmafly.Prelude.{false, Bool-cases, inl, inr, if◌then◌else◌, Option, none, some}
use cmafly.Prelude.{List, [], ◌∷◌, ◌++◌, length, take, drop, replicate, append_assoc, append-nil}
use cmafly.Prelude.{length-append, length-replicate, take-append_length, drop-append_length}
use cmafly.Prelude.{All, u32_mod, u64_mod}
use cmafly.Index.RoundTrip.Header.{EntryFits}
use cmafly.Index.View.Directory.{section_payload, last_offset, not_ascending, misaligned}
use cmafly.Index.Builder.Serialise.{pad_to_8, lay_out}

-- The zero bytes behind a content of `n` bytes that starts aligned.
abbrev pub pad_len : ℕ → ℕ
pad_len n = (8 - n % 8) % 8

abbrev pub padded : List ℕ → List ℕ
padded content = content ++ replicate (pad_len (length content)) 0

-- The sections one behind the other, all but the last padded, and their directory from `off` on.
abbrev pub laid : List (ℕ × List ℕ) → List ℕ
laid [] = []
laid ((kind, content) ∷ []) = content
laid ((kind, content) ∷ next ∷ rest) = padded content ++ laid (next ∷ rest)

abbrev pub entries : ℕ → List (ℕ × List ℕ) → List (ℕ × ℕ)
entries off [] = []
entries off ((kind, content) ∷ rest) = (kind, off) ∷ entries (off + length (padded content)) rest

-- What `section_payload` should find.
abbrev pub found : ℕ → List (ℕ × List ℕ) → ℕ → Option (ℕ × List ℕ)
found off [] kind = none
found off ((k, content) ∷ []) kind = if k == kind then some (off, content) else none
found off ((k, content) ∷ next ∷ rest) kind =
    if k == kind
    then some (off, padded content)
    else found (off + length (padded content)) (next ∷ rest) kind

pub length-padded :
    (content : List ℕ) → length (padded content) ≡ length content + pad_len (length content)
length-padded content =
    length-append content (replicate (pad_len (length content)) 0)
    ∙ ap (λ n. length content + n) (length-replicate {A = ℕ} (pad_len (length content)) 0)

pub padded-aligned : (content : List ℕ) → length (padded content) % 8 ≡ 0
padded-aligned content = omega (arith, length-padded content)

pad_to_8-eq :
    (bytes content : List ℕ)
    → length bytes % 8 ≡ 0
    → pad_to_8 (bytes ++ content) ≡ bytes ++ padded content
pad_to_8-eq bytes content aligned =
    let len = length-append bytes content in
    elim (Bool-cases (length (bytes ++ content) % 8 == 0)) [
      | inl full ↦
          let none_left : pad_len (length content) ≡ 0 = ground (arith, full, len) in
          rw (full, none_left) (ap (λ c. bytes ++ c) (sym (append-nil content)))
      | inr short ↦
          let left : 8 - length (bytes ++ content) % 8 ≡ pad_len (length content) =
            ground (arith, short, len) in
          rw (short, left) (append_assoc bytes content (replicate (pad_len (length content)) 0))
    ]

pub lay_out-eq :
    (sections : List (ℕ × List ℕ)) (bytes : List ℕ) (directory : List (ℕ × ℕ))
    → length bytes % 8 ≡ 0
    → lay_out sections bytes directory
      ≡ (bytes ++ laid sections, directory ++ entries (length bytes) sections)
unfolding lay_out
lay_out-eq [] bytes directory aligned = cc (append-nil bytes, append-nil directory)
lay_out-eq ((kind, content) ∷ []) bytes directory aligned = refl
lay_out-eq ((kind, content) ∷ next ∷ rest) bytes directory aligned =
    let len = length-append bytes (padded content) in
    let more = directory ++ ((kind, length bytes) ∷ []) in
    let aligned' : length (bytes ++ padded content) % 8 ≡ 0 =
      omega (arith, len, padded-aligned content) in
    cc (
      pad_to_8-eq bytes content aligned,
      lay_out-eq (next ∷ rest) (bytes ++ padded content) more aligned',
      append_assoc bytes (padded content) (laid (next ∷ rest)),
      append_assoc directory ((kind, length bytes) ∷ [])
          (entries (length bytes + length (padded content)) (next ∷ rest)),
      len,
    )

pub section_payload-laid :
    (sections : List (ℕ × List ℕ)) (front : List ℕ) (off kind : ℕ)
    → length front ≡ off
    → section_payload (entries off sections) (front ++ laid sections) kind ≡ found off sections kind
unfolding section_payload
section_payload-laid [] front off kind at = refl
section_payload-laid ((k, content) ∷ []) front off kind at =
    let behind : drop off (front ++ content) ≡ content =
      ap (λ n. drop n (front ++ content)) (sym at) ∙ drop-append_length front content in
    rw behind
section_payload-laid ((k, content) ∷ next ∷ rest) front off kind at =
    let c = padded content in
    let more = laid (next ∷ rest) in
    let off' = off + length c in
    let bytes = front ++ (c ++ more) in
    let len : length (front ++ c) ≡ off' = omega (arith, length-append front c, at) in
    let joined : (front ++ c) ++ more ≡ bytes = append_assoc front c more in
    let ih =
      ap (λ b. section_payload (entries off' (next ∷ rest)) b kind) (sym joined)
      ∙ section_payload-laid (next ∷ rest) (front ++ c) off' kind len in
    let upto : take off' bytes ≡ front ++ c =
      ap (take off') (sym joined)
      ∙ ap (λ n. take n ((front ++ c) ++ more)) (sym len)
      ∙ take-append_length (front ++ c) more in
    let cut : drop off (take off' bytes) ≡ c =
      ap (drop off) upto ∙ ap (λ n. drop n (front ++ c)) (sym at) ∙ drop-append_length front c in
    let tail = section_payload (entries off' (next ∷ rest)) bytes kind in
    ap (λ p. if k == kind then some (off, p) else tail) cut
    ∙ ap (λ r. if k == kind then some (off, c) else r) ih

-- The contents of all sections but the last have a byte at least.
abbrev pub Filled : List (ℕ × List ℕ) → Type 0
Filled [] = Unit
Filled ((kind, content) ∷ []) = Unit
Filled ((kind, content) ∷ next ∷ rest) = (0 < length content) × Filled (next ∷ rest)

pub entries-ascending :
    (off : ℕ) (sections : List (ℕ × List ℕ))
    → Filled sections
    → not_ascending (entries off sections) ≡ false
entries-ascending off [] f = refl
entries-ascending off (s ∷ []) f = refl
entries-ascending off ((k, content) ∷ next ∷ rest) (filled, f) =
    let ih = entries-ascending (off + length (padded content)) (next ∷ rest) f in
    ground (arith, length-padded content, ih)

pub entries-aligned :
    (off : ℕ) (sections : List (ℕ × List ℕ))
    → off % 8 ≡ 0
    → misaligned (entries off sections) ≡ false
entries-aligned off [] aligned = refl
entries-aligned off ((k, content) ∷ rest) aligned =
    let next : (off + length (padded content)) % 8 ≡ 0 =
      omega (arith, aligned, padded-aligned content) in
    ground (arith, aligned, entries-aligned (off + length (padded content)) rest next)

pub last_offset-le :
    (off : ℕ) (sections : List (ℕ × List ℕ))
    → last_offset (entries off sections) ≤ off + length (laid sections)
last_offset-le off [] = omega arith
last_offset-le off (s ∷ []) = omega arith
last_offset-le off ((k, content) ∷ next ∷ rest) =
    let ih = last_offset-le (off + length (padded content)) (next ∷ rest) in
    omega (arith, ih, length-append (padded content) (laid (next ∷ rest)))

pub padded_full : (content : List ℕ) → length content % 8 ≡ 0 → padded content ≡ content
padded_full content full =
    let none_left : pad_len (length content) ≡ 0 = omega (arith, full) in
    ap (λ k. content ++ replicate k 0) none_left ∙ append-nil content

pub length-entries :
    (off : ℕ) (sections : List (ℕ × List ℕ)) → length (entries off sections) ≡ length sections
length-entries off [] = refl
length-entries off ((k, content) ∷ rest) =
    ap suc (length-entries (off + length (padded content)) rest)

-- The kinds fit 32 bits, and the end of the sections 64 bits.
pub entries-EntryFits :
    (off : ℕ) (sections : List (ℕ × List ℕ))
    → All (λ s. s.0 < u32_mod) sections
    → off + length (laid sections) < u64_mod
    → All EntryFits (entries off sections)
entries-EntryFits off [] kinds small = tt
entries-EntryFits off ((k, content) ∷ []) (fits, kinds) small = ((fits, omega arith), tt)
entries-EntryFits off ((k, content) ∷ next ∷ rest) (fits, kinds) small =
    let len = length-append (padded content) (laid (next ∷ rest)) in
    (
      (fits, omega arith),
      entries-EntryFits (off + length (padded content)) (next ∷ rest) kinds
          (omega (arith, small, len)),
    )
