-- ===== src/Demux/SampleTable/Expand/Chunks.antt =====
-- `expand_stsc`: how many samples each chunk has.
use cmafly.Prelude.{ℕ, ◌+◌, ◌-◌, ◌≤◌, ◌<◌, ◌≡◌, ltb, leb, if◌then◌else◌, refl, ap, ◌∙◌}
use cmafly.Prelude.{arith, List, [], ◌∷◌, ◌++◌, length, replicate, take, drop, length-append, sym}
use cmafly.Prelude.{length-replicate, length-take, length-drop, get_elem?, Option, none, some}
use cmafly.Prelude.{get_elem?-append_left, get_elem?-append_right, get_elem?-take, get_elem?-drop}
use cmafly.Prelude.{get_elem?-replicate, Bool-cases, inl, inr}
use cmafly.Error.{ok, ok_or_err}
use cmafly.Demux.SampleTable.Expand.{fill, entry_end, expand_entries, expand_stsc}

-- The samples per chunk of the last entry that starts at chunk number `k` or before.
abbrev pub last_spc : List (ℕ × ℕ × ℕ) → ℕ → Option ℕ
last_spc [] k = none
last_spc ((first_chunk, spc, _) ∷ rest) k = elim (last_spc rest k) [
  | some later ↦ some later
  | none ↦ if leb first_chunk k then some spc else none
]

abbrev pub or_else : Option ℕ → Option ℕ → Option ℕ
or_else (some s) o = some s
or_else none o = o

module _ (from to spc : ℕ) (v : List ℕ) (le : from ≤ to) (inside : to ≤ length v) where
  length-front : length (take from v) ≡ from
  length-front = omega (arith, length-take from v)

  length-middle : length (replicate (to - from) spc) ≡ to - from
  length-middle = length-replicate (to - from) spc

  length-fill : length (fill from to spc v) ≡ length v
  length-fill = omega (
    arith,
    length-front,
    length-middle,
    length-drop to v,
    length-append (take from v) (replicate (to - from) spc ++ drop to v),
    length-append (replicate (to - from) spc) (drop to v),
  )

  get_elem?-fill_before : (i : ℕ) → i < from → get_elem? (fill from to spc v) i ≡ get_elem? v i
  get_elem?-fill_before i h =
      get_elem?-append_left (take from v) _ i (omega (arith, length-front))
      ∙ get_elem?-take from v i h

  get_elem?-fill_in : (i : ℕ) → from ≤ i → i < to → get_elem? (fill from to spc v) i ≡ some spc
  get_elem?-fill_in i lo hi =
      get_elem?-append_right (take from v) _ i (i - from) (omega (arith, length-front))
      ∙ get_elem?-append_left (replicate (to - from) spc) _ (i - from)
          (omega (arith, length-middle))
      ∙ get_elem?-replicate (to - from) spc (i - from) (omega arith)

  get_elem?-fill_behind : (i : ℕ) → to ≤ i → get_elem? (fill from to spc v) i ≡ get_elem? v i
  get_elem?-fill_behind i h =
      get_elem?-append_right (take from v) _ i (i - from) (omega (arith, length-front))
      ∙ get_elem?-append_right (replicate (to - from) spc) _ (i - from) (i - to)
          (omega (arith, length-middle))
      ∙ get_elem?-drop to v (i - to)
      ∙ ap (get_elem? v) (omega arith)

-- The entries behind `first_chunk` start behind it.
abbrev pub StartsBehind : ℕ → List (ℕ × ℕ × ℕ) → Type 0
StartsBehind first_chunk [] = Unit
StartsBehind first_chunk ((next, _, _) ∷ rest) = first_chunk < next

-- The entries start at ascending chunk numbers from 1 up to `n`.
abbrev pub Ascending : ℕ → List (ℕ × ℕ × ℕ) → Type 0
Ascending n [] = Unit
Ascending n ((first_chunk, spc, sdi) ∷ rest) =
    (0 < first_chunk) × (first_chunk ≤ n) × StartsBehind first_chunk rest × Ascending n rest

-- An entry that starts at `k` or before leaves chunk `k` with a number of samples.
last_some :
    (later : Option ℕ) (f s k : ℕ)
    → f ≤ k
    → (r : ℕ) × ((elim later [ some l ↦ some l | none ↦ if leb f k then some s else none ])
        ≡ some r)
last_some (some l) f s k h = (l, refl)
last_some none f s k h = (s, ground arith)

-- What the end of an entry's chunks says of the entries behind it.
entry_end_lem :
    (n first_chunk to : ℕ) (rest : List (ℕ × ℕ × ℕ))
    → entry_end n first_chunk rest ≡ ok to
    → to ≤ n
    → StartsBehind first_chunk rest
      × ((i : ℕ) → i < n → to ≤ i → (s : ℕ) × (last_spc rest (i + 1) ≡ some s))
unfolding entry_end
entry_end_lem n first_chunk to [] e le = (tt, λ i hi lo. absurd (ground arith))
entry_end_lem n first_chunk to ((next, spc, sdi) ∷ rest) e le =
    (ground arith, λ i hi lo. last_some (last_spc rest (i + 1)) next spc (i + 1) (ground arith))

module _ (n : ℕ) where
  entries_inv :
      (first_chunk spc sdi : ℕ) (rest : List (ℕ × ℕ × ℕ)) (v out : List ℕ)
      → expand_entries n ((first_chunk, spc, sdi) ∷ rest) v ≡ ok out
      → (to : ℕ) × (entry_end n first_chunk rest ≡ ok to)
        × (0 < first_chunk)
        × (first_chunk ≤ n)
        × (to ≤ n)
        × (expand_entries n rest (fill (first_chunk - 1) to spc v) ≡ ok out)
  unfolding expand_entries
  entries_inv first_chunk spc sdi rest v out e = elim (ok_or_err (entry_end n first_chunk rest)) [
    | inl (to, ended) ↦ (to, ended, ground arith, ground arith, ground arith, ground (arith, ended))
    | inr (why, refused) ↦ ground arith
  ]

  entry_end-le :
      (first_chunk to : ℕ) (rest : List (ℕ × ℕ × ℕ))
      → entry_end n first_chunk rest ≡ ok to
      → first_chunk ≤ n
      → first_chunk ≤ to
  unfolding entry_end
  entry_end-le first_chunk to [] e le = ground arith
  entry_end-le first_chunk to ((next, spc, sdi) ∷ rest) e le = ground arith

  -- The slots that an entry fills, and those that it leaves.
  entry_slot :
      (first_chunk spc to i : ℕ) (v : List ℕ) (later : Option ℕ)
      → first_chunk ≤ to
      → to ≤ length v
      → 0 < first_chunk
      → (to ≤ i → (s : ℕ) × (later ≡ some s))
      → or_else later (get_elem? (fill (first_chunk - 1) to spc v) i)
        ≡ or_else
            (elim later [
              | some l ↦ some l
              | none ↦ if leb first_chunk (i + 1) then some spc else none
            ])
            (get_elem? v i)
  entry_slot f spc to i v (some l) lo hi pos more = refl
  entry_slot f spc to i v none lo hi pos more = elim (Bool-cases (leb f (i + 1))) [
    | inl at ↦ elim (Bool-cases (ltb i to)) [
      | inl before ↦
          rw (
            at,
            get_elem?-fill_in (f - 1) to spc v (omega arith) hi i (ground arith) (ground arith),
          )
      | inr behind ↦ absurd (ground (arith, (more (ground arith)).1))
    ]
    | inr not_yet ↦
        rw (not_yet, get_elem?-fill_before (f - 1) to spc v (omega arith) hi i (ground arith))
  ]

  expand_entries_lem :
      (entries : List (ℕ × ℕ × ℕ)) (v out : List ℕ)
      → length v ≡ n
      → expand_entries n entries v ≡ ok out
      → (length out ≡ n)
        × Ascending n entries
        × ((i : ℕ) → i < n → get_elem? out i ≡ or_else (last_spc entries (i + 1)) (get_elem? v i))
  expand_entries_lem [] v out size e =
      let same : v ≡ out = unfold expand_entries in cc in
      (ap length (sym same) ∙ size, tt, λ i h. ap (λ l. get_elem? l i) (sym same))
  expand_entries_lem ((first_chunk, spc, sdi) ∷ rest) v out size e =
      let (to, ended, pos, le, fits, more) = entries_inv first_chunk spc sdi rest v out e in
      let lo = entry_end-le first_chunk to rest ended le in
      let filled =
        length-fill (first_chunk - 1) to spc v (omega (arith, lo)) (omega (arith, size, fits)) in
      let (behind, later) = entry_end_lem n first_chunk to rest ended fits in
      let (total, ascending, slots) =
        expand_entries_lem rest (fill (first_chunk - 1) to spc v) out (filled ∙ size) more in
      (
        total,
        (pos, le, behind, ascending),
        λ i h.
            slots i h
            ∙ entry_slot first_chunk spc to i v (last_spc rest (i + 1)) lo
                (omega (arith, size, fits)) pos (later i h),
      )

  entry_end_total :
      (first_chunk : ℕ) (rest : List (ℕ × ℕ × ℕ))
      → StartsBehind first_chunk rest
      → Ascending n rest
      → (to : ℕ) × (entry_end n first_chunk rest ≡ ok to) × (to ≤ n)
  unfolding entry_end
  entry_end_total first_chunk [] behind more = (n, refl, omega arith)
  entry_end_total first_chunk ((next, spc, sdi) ∷ rest) behind (pos, le, after, more) =
      (next - 1, ground arith, omega arith)

  entry_step :
      (first_chunk spc sdi to : ℕ) (rest : List (ℕ × ℕ × ℕ)) (v : List ℕ)
      → 0 < first_chunk
      → first_chunk ≤ n
      → entry_end n first_chunk rest ≡ ok to
      → to ≤ n
      → expand_entries n ((first_chunk, spc, sdi) ∷ rest) v
        ≡ expand_entries n rest (fill (first_chunk - 1) to spc v)
  unfolding expand_entries
  entry_step first_chunk spc sdi to rest v pos le ended fits = ground arith

  entries_complete :
      (entries : List (ℕ × ℕ × ℕ)) (v : List ℕ)
      → Ascending n entries
      → (out : List ℕ) × (expand_entries n entries v ≡ ok out)
  entries_complete [] v h = (v, unfold expand_entries in refl)
  entries_complete ((first_chunk, spc, sdi) ∷ rest) v (pos, le, behind, more) =
      let (to, ended, fits) = entry_end_total first_chunk rest behind more in
      let (out, run) = entries_complete rest (fill (first_chunk - 1) to spc v) more in
      (out, entry_step first_chunk spc sdi to rest v pos le ended fits ∙ run)

-- The first entry starts at chunk 1; with no entry there is no chunk.
abbrev pub StartsAtOne : ℕ → List (ℕ × ℕ × ℕ) → Type 0
StartsAtOne n [] = n ≡ 0
StartsAtOne n ((first_chunk, spc, sdi) ∷ rest) = first_chunk ≡ 1

or_else_some : (o p : Option ℕ) (s : ℕ) → o ≡ some s → or_else o p ≡ o
or_else_some (some l) p s e = refl
or_else_some none p s e = cc

-- A table that `expand_stsc` returns has an element for each of the `n` chunks, the samples per
-- chunk of the last entry that starts at the chunk or before it; the entries start at chunk 1 and
-- ascend strictly within the chunks.
pub expand_stsc_lem :
    (stsc : List (ℕ × ℕ × ℕ)) (n : ℕ) (out : List ℕ)
    → expand_stsc stsc n ≡ ok out
    → (length out ≡ n)
      × StartsAtOne n stsc
      × Ascending n stsc
      × ((i : ℕ) → i < n → get_elem? out i ≡ last_spc stsc (i + 1))
unfolding expand_stsc
expand_stsc_lem [] n out e =
    let none_left : n ≡ 0 = ground arith in
    let same : replicate n 0 ≡ out = ground arith in
    (ap length (sym same) ∙ length-replicate n 0, none_left, tt, λ i h. absurd (omega arith))
expand_stsc_lem ((first_chunk, spc, sdi) ∷ rest) n out e =
    let one : first_chunk ≡ 1 = ground arith in
    let run : expand_entries n ((first_chunk, spc, sdi) ∷ rest) (replicate n 0) ≡ ok out =
      ground arith in
    let (total, ascending, slots) =
      expand_entries_lem n ((first_chunk, spc, sdi) ∷ rest) (replicate n 0) out
        (length-replicate n 0) run in
    (
      total,
      one,
      ascending,
      λ i h.
          let (s, has) =
            last_some (last_spc rest (i + 1)) first_chunk spc (i + 1) (omega (arith, one)) in
          slots i h ∙ or_else_some (last_spc ((first_chunk, spc, sdi) ∷ rest) (i + 1)) _ s has,
    )

-- `expand_stsc` accepts every table whose entries start at chunk 1 and ascend strictly within the
-- chunks.
pub expand_stsc_complete :
    (stsc : List (ℕ × ℕ × ℕ)) (n : ℕ)
    → StartsAtOne n stsc
    → Ascending n stsc
    → (out : List ℕ) × (expand_stsc stsc n ≡ ok out)
unfolding expand_stsc
expand_stsc_complete [] n one h = (replicate n 0, ground arith)
expand_stsc_complete ((first_chunk, spc, sdi) ∷ rest) n one h =
    let (out, run) = entries_complete n ((first_chunk, spc, sdi) ∷ rest) (replicate n 0) h in
    (out, ground (arith, run))
