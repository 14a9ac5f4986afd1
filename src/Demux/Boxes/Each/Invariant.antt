-- ===== src/Demux/Boxes/Each/Invariant.antt =====
-- What holds of the state of a loop over boxes: what its body keeps for every box of the range.
use cmafly.Prelude.{ℕ, zero, suc, ◌-◌, ◌≤◌, ◌≡◌, arith}
use cmafly.Prelude.{inl, inr, Option, none, some, List, subst, Bool-cases, bytes_eq}
use Prim.Native.String.{String}
use cmafly.Error.{Result, ok, err, ok_or_err, PackagerError}
use cmafly.ByteOrder.{ByteOrder}
use cmafly.Demux.Source.{ReadAt}
use cmafly.Demux.Source.Exact.{Reads}
use cmafly.Demux.Boxes.{BoxHeader, box_end, next_header}
use cmafly.Demux.Boxes.Bounds.{IsInside, IsInside-later, Outcome, next_header-Outcome}
use cmafly.Demux.Boxes.Each.{each_box_loop, each_box, find_box_loop, find_box}

module _ ⦃be : ByteOrder⦄ (reader : ReadAt) where
  Outcome-box :
      (cursor end : ℕ) (p : Result PackagerError (Option BoxHeader) × ℕ) (h : BoxHeader)
      → Outcome reader cursor end p
      → p.0 ≡ ok (some h)
      → IsInside cursor end h × (p.1 ≡ box_end h)
  Outcome-box cursor end (err e, c) h o same = absurd cc
  Outcome-box cursor end (ok none, c) h o same = absurd cc
  Outcome-box cursor end (ok (some b), c) h (skips, read, other, inside, at) same =
      let eq : b ≡ h = cc in subst (λ b. IsInside cursor end b × (c ≡ box_end b)) eq (inside, at)

  module _ (src : List ℕ) (reads : Reads src reader) where
    pub found_box :
        (cursor end : ℕ) (h : BoxHeader)
        → (next_header reader cursor end).0 ≡ ok (some h)
        → IsInside cursor end h × ((next_header reader cursor end).1 ≡ box_end h)
    found_box cursor end h =
        Outcome-box cursor end (next_header reader cursor end) h
          (next_header-Outcome reader src cursor end reads)

    module _ {S : Type 0} (P : S → Type 0) (body : BoxHeader → S → Result PackagerError S)
        (start end : ℕ)
        (keeps : (h : BoxHeader) (s s' : S)
          → IsInside start end h
          → P s
          → body h s ≡ ok s'
          → P s') where
      each_box_loop-keeps :
          (fuel cursor : ℕ) (s s' : S)
          → start ≤ cursor
          → P s
          → each_box_loop reader body fuel cursor end s ≡ ok s'
          → P s'
      unfolding each_box_loop
      each_box_loop-keeps zero cursor s s' le p e = subst P (ground (arith, e)) p
      each_box_loop-keeps (suc fuel) cursor s s' le p e =
          elim (ok_or_err ((next_header reader cursor end).0)) [
            | inl (none, found) ↦ subst P (ground (arith, found)) p
            | inl (some h, found) ↦
                let (inside, at) = found_box cursor end h found in
                elim (ok_or_err (body h s)) [
                  | inl (t, run) ↦
                      each_box_loop-keeps fuel ((next_header reader cursor end).1) t s'
                        (omega (arith, le, at, inside.lower))
                        (keeps h s t (IsInside-later reader le inside) p run)
                        (ground (arith, found, run))
                  | inr (why, refused) ↦ absurd (ground (arith, found, refused))
                ]
            | inr (why, refused) ↦ absurd (ground (arith, refused))
          ]

      -- A body that keeps `P` for every box inside the range makes the loop keep it.
      pub each_box-keeps : (s s' : S) → P s → each_box reader body start end s ≡ ok s' → P s'
      unfolding each_box
      each_box-keeps s s' p e = each_box_loop-keeps (end - start) start s s' (omega arith) p e

    -- The box that `find_box` returns lies inside the range and has the type.
    find_box_loop-IsInside :
        (fourcc : List ℕ) (name : String) (start end fuel cursor : ℕ) (h : BoxHeader)
        → start ≤ cursor
        → find_box_loop reader fourcc name fuel cursor end ≡ ok h
        → IsInside start end h
    unfolding find_box_loop
    find_box_loop-IsInside fourcc name start end zero cursor h le e = absurd (ground arith)
    find_box_loop-IsInside fourcc name start end (suc fuel) cursor h le e =
        elim (ok_or_err ((next_header reader cursor end).0)) [
          | inl (none, found) ↦ absurd (ground (arith, found))
          | inl (some b, found) ↦
              let (inside, at) = found_box cursor end b found in
              elim (Bool-cases (bytes_eq b.box_type fourcc)) [
                | inl here ↦
                    let same : b ≡ h = ground (arith, found, here) in
                    subst (IsInside start end) same (IsInside-later reader le inside)
                | inr other ↦
                    find_box_loop-IsInside fourcc name start end fuel
                      ((next_header reader cursor end).1) h (omega (arith, le, at, inside.lower))
                      (ground (arith, found, other))
              ]
          | inr (why, refused) ↦ absurd (ground (arith, refused))
        ]

    pub find_box-IsInside :
        (fourcc : List ℕ) (name : String) (start end : ℕ) (h : BoxHeader)
        → find_box reader fourcc name start end ≡ ok h
        → IsInside start end h
    unfolding find_box
    find_box-IsInside fourcc name start end h e =
        find_box_loop-IsInside fourcc name start end (end - start) start h (omega arith) e

  pub next_box-IsInside :
      (src : List ℕ) (cursor end : ℕ) (h : BoxHeader)
      → Reads src reader
      → (next_header reader cursor end).0 ≡ ok (some h)
      → IsInside cursor end h
  next_box-IsInside src cursor end h reads found = (found_box src reads cursor end h found).0
