-- ===== src/Demux/Boxes/Each/Fuel.antt =====
-- The loops over boxes do not run out of fuel.
use cmafly.Prelude.{
  ℕ, zero, suc, ◌-◌, ◌≤◌, ◌<◌, ◌≡◌, ◌≢◌, inl, inr, arith, Option, none, some, List,
}
use Prim.Native.String.{String}
use cmafly.Error.{Result, ok, err, ok_or_err, map_err, PackagerError, io, out_of_fuel}
use cmafly.ByteOrder.{ByteOrder}
use cmafly.Demux.Source.{ReadAt, read_exact}
use cmafly.Demux.Source.Exact.{Reads, read_exact-eq}
use cmafly.Demux.Boxes.{BoxHeader, box_end, next_header}
use cmafly.Demux.Boxes.Bounds.{IsInside, Outcome, next_header-Outcome}
use cmafly.Demux.Boxes.Each.{each_box_loop, each_box, find_box_loop, find_box}
use cmafly.Demux.Boxes.Each.Invariant.{found_box}

-- The result is not the end of fuel.
abbrev pub IsDone {ℓ} : {A : Type ℓ} → Result PackagerError A → Type ℓ
IsDone r = r ≢ err (io out_of_fuel)

-- What is left behind a box has a byte less at least.
shorter :
    (fuel cursor end : ℕ) (h : BoxHeader) {c : ℕ}
    → end - cursor ≤ suc fuel
    → IsInside cursor end h
    → c ≡ box_end h
    → end - c ≤ fuel
shorter fuel cursor end h le i at = elim i.header [
  | inl eight ↦ omega (arith, le, i.lower, i.room, at, eight)
  | inr sixteen ↦ omega (arith, le, i.lower, i.room, at, sixteen)
]

module _ ⦃be : ByteOrder⦄ (reader : ReadAt) where
  Outcome-IsDone :
      (cursor end : ℕ) (p : Result PackagerError (Option BoxHeader) × ℕ)
      → Outcome reader cursor end p
      → IsDone (p.0)
  Outcome-IsDone cursor end (err why, c) (skips, lt, read, ne) e = ne cc
  Outcome-IsDone cursor end (ok found, c) o e = cc

  module _ (src : List ℕ) (reads : Reads src reader) where
    pub next_header-IsDone : (cursor end : ℕ) → IsDone ((next_header reader cursor end).0)
    next_header-IsDone cursor end =
        Outcome-IsDone cursor end (next_header reader cursor end)
          (next_header-Outcome reader src cursor end reads)

    module _ {S : Type 0} (body : BoxHeader → S → Result PackagerError S)
        (done : (h : BoxHeader) (s : S) → IsDone (body h s)) where
      each_box_loop-IsDone :
          (fuel cursor end : ℕ) (s : S)
          → end - cursor ≤ fuel
          → IsDone (each_box_loop reader body fuel cursor end s)
      unfolding each_box_loop
      each_box_loop-IsDone zero cursor end s le e = ground arith
      each_box_loop-IsDone (suc fuel) cursor end s le e =
          elim (ok_or_err ((next_header reader cursor end).0)) [
            | inl (none, found) ↦ ground (arith, found)
            | inl (some h, found) ↦
                let (inside, at) = found_box reader src reads cursor end h found in
                let next = (next_header reader cursor end).1 in
                elim (ok_or_err (body h s)) [
                  | inl (t, run) ↦
                      each_box_loop-IsDone fuel next end t (shorter fuel cursor end h le inside at)
                        (ground (arith, found, run))
                  | inr (why, refused) ↦ done h s (ground (arith, found, refused))
                ]
            | inr (why, refused) ↦ next_header-IsDone cursor end (ground (arith, refused))
          ]

      -- A body that is done makes the loop done: it has fuel for every box of the range.
      pub each_box-IsDone : (start end : ℕ) (s : S) → IsDone (each_box reader body start end s)
      unfolding each_box
      each_box-IsDone start end s = each_box_loop-IsDone (end - start) start end s (omega arith)

    find_box_loop-IsDone :
        (fourcc : List ℕ) (name : String) (fuel cursor end : ℕ)
        → end - cursor ≤ fuel
        → IsDone (find_box_loop reader fourcc name fuel cursor end)
    unfolding find_box_loop
    find_box_loop-IsDone fourcc name zero cursor end le e = ground arith
    find_box_loop-IsDone fourcc name (suc fuel) cursor end le e =
        elim (ok_or_err ((next_header reader cursor end).0)) [
          | inl (none, found) ↦ ground (arith, found)
          | inl (some h, found) ↦
              let (inside, at) = found_box reader src reads cursor end h found in
              let next = (next_header reader cursor end).1 in
              ground (
                arith,
                found,
                find_box_loop-IsDone fourcc name fuel next end
                    (shorter fuel cursor end h le inside at),
              )
          | inr (why, refused) ↦ next_header-IsDone cursor end (ground (arith, refused))
        ]

    pub find_box-IsDone :
        (fourcc : List ℕ) (name : String) (start end : ℕ)
        → IsDone (find_box reader fourcc name start end)
    unfolding find_box
    find_box-IsDone fourcc name start end =
        find_box_loop-IsDone fourcc name (end - start) start end (omega arith)

    -- So is a read of one byte or more.
    pub read_exact-IsDone :
        (offset len : ℕ) → 0 < len → IsDone (map_err io (read_exact reader offset len))
    read_exact-IsDone offset len pos e = ground (arith, read_exact-eq src reader offset len reads)
