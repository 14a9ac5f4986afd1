-- ===== src/Demux/Moov/Safety.antt =====
-- What `parse_top_level` returns lies inside the source.
use cmafly.Prelude.{ℕ, ◌≡◌, ◌⊎◌, inl, inr, arith, Bool, Option, none, some, List, subst}
use cmafly.Prelude.{[], ◌∷◌, ◌++◌, All, not, sym}
use cmafly.Error.{ok, ok_or, ok_or_err, bind_inv, fail_if, missing_atom}
use cmafly.ByteOrder.{ByteOrder}
use cmafly.Demux.Source.{ReadAt}
use cmafly.Demux.Source.Exact.{Reads}
use cmafly.Demux.Boxes.{BoxHeader, box_end}
use cmafly.Demux.Boxes.Bounds.{IsInside}
use cmafly.Demux.Boxes.Each.{each_box}
use cmafly.Demux.Boxes.Each.Invariant.{each_box-keeps}
use cmafly.Demux.Moov.Types.{UnclassifiedTrack, MoovParse}
use cmafly.Demux.Moov.Classify.{into_parsed}
use cmafly.Demux.Moov.Classify.Pair.{classify_tracks-IsPair}
use cmafly.Demux.Moov.Track.{parse_trak}
use cmafly.Demux.Moov.Track.Ranges.{trak-EndsBy}
use cmafly.Demux.Moov.Ranges.{Each, Each-kept, there, TrackEndsBy, widen}
use cmafly.Demux.Moov.{TopBoxes, top_child, moov_child, check_ftyp, keep_moov, parse_top_level}

All-snoc :
    {A : Type 0} (P : A → Type 0) (xs : List A) (a : A) → All P xs → P a → All P (xs ++ (a ∷ []))
All-snoc P [] a ps p = (p, tt)
All-snoc P (x ∷ xs) a (px, ps) p = (px, All-snoc P xs a ps p)

abbrev UnclassifiedEndsBy : ℕ → UnclassifiedTrack → Type 0
UnclassifiedEndsBy n t = TrackEndsBy n (into_parsed t)

module _ ⦃be : ByteOrder⦄ (reader : ReadAt) where
  keep_moov-sets :
      (child : BoxHeader) (s s' : TopBoxes) (o : Option BoxHeader)
      → keep_moov reader child s o ≡ ok s'
      → s'.moov ≡ some child
  keep_moov-sets child s s' none e = ground arith
  keep_moov-sets child s s' (some first) e = absurd cc

  top_sets :
      (child : BoxHeader) (s s' : TopBoxes)
      → top_child reader child s ≡ ok s'
      → (s'.moov ≡ s.moov) ⊎ (s'.moov ≡ some child)
  unfolding top_child
  top_sets child s s' e =
      ground (arith, ok_or_err (check_ftyp reader child), keep_moov-sets child s s' s.moov)

  module _ (src : List ℕ) (reads : Reads src reader) (n : ℕ) where
    moov_child-EndBy :
        (child : BoxHeader) (tracks tracks' : List UnclassifiedTrack)
        → IsInside 0 n child
        → All (UnclassifiedEndsBy n) tracks
        → moov_child reader child tracks ≡ ok tracks'
        → All (UnclassifiedEndsBy n) tracks'
    unfolding moov_child
    moov_child-EndBy child tracks tracks' i p e = elim (ok_or_err (parse_trak reader child)) [
      | inl (t, run) ↦
          let sets : (tracks' ≡ tracks) ⊎ (tracks' ≡ tracks ++ (t ∷ [])) = ground (arith, run) in
          let more =
            All-snoc (UnclassifiedEndsBy n) tracks t p
              (trak-EndsBy reader src reads n child t i run) in
          elim sets [
            | inl same ↦ subst (All (UnclassifiedEndsBy n)) (sym same) p
            | inr added ↦ subst (All (UnclassifiedEndsBy n)) (sym added) more
          ]
      | inr (why, refused) ↦
          let same : tracks ≡ tracks' = ground (arith, refused) in
          subst (All (UnclassifiedEndsBy n)) same p
    ]

  pair-EndsBy :
      (n : ℕ) (tracks : List UnclassifiedTrack) (v a : UnclassifiedTrack)
      → (tracks ≡ v ∷ a ∷ []) ⊎ (tracks ≡ a ∷ v ∷ [])
      → All (UnclassifiedEndsBy n) tracks
      → UnclassifiedEndsBy n v × UnclassifiedEndsBy n a
  pair-EndsBy n tracks v a (inl same) p =
      let (pv, (pa, end)) = subst (All (UnclassifiedEndsBy n)) same p in (pv, pa)
  pair-EndsBy n tracks v a (inr same) p =
      let (pa, (pv, end)) = subst (All (UnclassifiedEndsBy n)) same p in (pv, pa)

-- Over any reader of a source, every range that `parse_top_level` returns for the first
-- `source_len` bytes (the sample entry, the edit list and the tables of both tracks) ends at byte
-- `source_len` or before.
pub parse_top_level-EndsBy :
    ⦃be : ByteOrder⦄ (reader : ReadAt) (src : List ℕ) (source_len : ℕ) (m : MoovParse)
    → Reads src reader
    → parse_top_level reader source_len ≡ ok m
    → TrackEndsBy source_len m.video × TrackEndsBy source_len m.audio
unfolding parse_top_level
parse_top_level-EndsBy reader src n m reads e =
    let start : TopBoxes = record { ftyp_seen = Bool.false; moov = none } in
    bind_inv (each_box reader (top_child reader) 0 n start) _ e λ s a e1.
      bind_inv (fail_if (not s.ftyp_seen) (missing_atom "ftyp")) _ e1 λ seen b e2.
        bind_inv (ok_or s.moov (missing_atom "moov")) _ e2 λ moov c e3.
          bind_inv (each_box reader (moov_child reader) moov.payload_offset (box_end moov) []) _ e3
            λ tracks f e4.
              let kept =
                each_box-keeps reader src reads (λ s. Each (IsInside 0 n) s.moov) (top_child reader)
                  0 n
                  (λ child s s' inside p run.
                    Each-kept (IsInside 0 n) (top_sets reader child s s' run) p inside)
                  start s tt a in
              let moov_in = there (IsInside 0 n) s.moov (missing_atom "moov") moov c kept in
              let all =
                each_box-keeps reader src reads (All (UnclassifiedEndsBy n)) (moov_child reader)
                  moov.payload_offset (box_end moov)
                  (λ child ts ts' inside.
                    moov_child-EndBy reader src reads n child ts ts' (widen moov_in.upper inside))
                  [] tracks tt f in
              let (v, w, (is_v, is_a, listed), made) = classify_tracks-IsPair tracks m e4 in
              subst (λ m. TrackEndsBy n m.video × TrackEndsBy n m.audio) (sym made)
                (pair-EndsBy reader n tracks v w listed all)
