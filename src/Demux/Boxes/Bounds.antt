-- ===== src/Demux/Boxes/Bounds.antt =====
-- The headers that `next_header` returns stay inside the container, and the iteration ends.
use cmafly.Prelude.{
  ℕ, zero, suc, ◌+◌, ◌-◌, ◌≤◌, ◌<◌, ◌≡◌, ◌≢◌, ◌⊎◌, inl, inr, refl, ap, ◌∙◌, arith, leb,
}
use cmafly.Prelude.{Bool-cases, true, false, Option, none, some, List, bytes_eq, take}
use cmafly.Error.{Result, ok, err, ok_or_err, PackagerError, io, out_of_fuel}
use cmafly.ByteOrder.{ByteOrder, read_u32}
use cmafly.Demux.Source.{ReadAt, read_exact}
use cmafly.Demux.Source.Exact.{Reads, read_exact-eq}
use cmafly.Demux.Boxes.{
  BoxHeader, box_end, uuid, box_size, read_header, next_header_loop, next_header,
}

-- A header that stands at `start` or behind it and whose box ends at `end` or before.
pub record IsInside (start end : ℕ) (h : BoxHeader) : Type 0 where
  pub lower : start ≤ h.start
  pub payload : h.payload_offset ≡ h.start + h.header_size
  pub header : (h.header_size ≡ 8) ⊎ (h.header_size ≡ 16)
  pub room : h.header_size ≤ h.declared_size
  pub upper : box_end h ≤ end

module _ ⦃be : ByteOrder⦄ (reader : ReadAt) where
  box_size_header :
      (cursor remaining size32 d hs : ℕ)
      → box_size reader cursor remaining size32 ≡ ok (d, hs)
      → (hs ≡ 8) ⊎ (hs ≡ 16)
  unfolding box_size
  box_size_header cursor remaining size32 d hs e = ground arith

  -- The steps of `read_header` that succeeded.
  record Header (cursor end : ℕ) (h : BoxHeader) : Type 0 where
    head : List ℕ
    read : read_exact reader cursor 8 ≡ ok head
    size :
        box_size reader cursor (end - cursor) (read_u32 (take 4 head))
        ≡ ok (h.declared_size, h.header_size)
    eight : 8 ≤ end - cursor
    room : h.header_size ≤ h.declared_size
    fits : h.declared_size ≤ end - cursor
    start : h.start ≡ cursor
    payload : h.payload_offset ≡ cursor + h.header_size

  read_header_inv :
      (cursor end : ℕ) (h : BoxHeader) → read_header reader cursor end ≡ ok h → Header cursor end h
  unfolding read_header
  read_header_inv cursor end h e = elim (ok_or_err (read_exact reader cursor 8)) [
    | inl (head, read) ↦
        elim (ok_or_err (box_size reader cursor (end - cursor) (read_u32 (take 4 head)))) [
          | inl ((d, hs), size) ↦ record {
            head = head;
            read = read;
            size = ground arith;
            eight = ground arith;
            room = ground arith;
            fits = ground arith;
            start = ground arith;
            payload = ground arith;
          }
          | inr (why, refused) ↦ ground arith
        ]
    | inr (why, refused) ↦ ground arith
  ]

  read_header-IsInside :
      (cursor end : ℕ) (h : BoxHeader)
      → read_header reader cursor end ≡ ok h
      → IsInside cursor end h × (h.start ≡ cursor)
  read_header-IsInside cursor end h e =
      let inv = read_header_inv cursor end h e in
      let sized =
        box_size_header cursor (end - cursor) (read_u32 (take 4 inv.head)) h.declared_size
          h.header_size inv.size in
      (
        record {
          lower = omega (arith, inv.start);
          payload = omega (arith, inv.start, inv.payload);
          header = sized;
          room = inv.room;
          upper = omega (arith, inv.start, inv.fits, inv.eight);
        },
        inv.start,
      )

  module _ (src : List ℕ) (reads : Reads src reader) where
    read_exact-ne-fuel : (offset len : ℕ) → 0 < len → read_exact reader offset len ≢ err out_of_fuel
    read_exact-ne-fuel offset len pos e = ground (arith, read_exact-eq src reader offset len reads)

    box_size-ne-fuel :
        (cursor remaining size32 : ℕ)
        → box_size reader cursor remaining size32 ≢ err (io out_of_fuel)
    unfolding box_size
    box_size-ne-fuel cursor remaining size32 e = ground (arith, read_exact-ne-fuel (cursor + 8) 8)

    read_header-ne-fuel : (cursor end : ℕ) → read_header reader cursor end ≢ err (io out_of_fuel)
    unfolding read_header
    read_header-ne-fuel cursor end e = elim (ok_or_err (read_exact reader cursor 8)) [
      | inl (head, read) ↦
          ground (arith, box_size-ne-fuel cursor (end - cursor) (read_u32 (take 4 head)))
      | inr (why, refused) ↦ ground (arith, read_exact-ne-fuel cursor 8)
    ]

  -- From the first cursor to the second one there are only `uuid` boxes.
  pub data Skips (end : ℕ) : ℕ → ℕ → Type 0 where
    here : {c : ℕ} → Skips end c c
    uuid_box :
        {c c' : ℕ} (h : BoxHeader)
        → c < end
        → read_header reader c end ≡ ok h
        → bytes_eq h.box_type uuid ≡ true
        → Skips end (box_end h) c'
        → Skips end c c'

  -- What `next_header` may return with the cursor that it leaves. A box is the first one behind
  -- `uuid` boxes, lies inside the range, and ends at the new cursor. No box means that the range is
  -- used up. An error is that of the header at the new cursor, and no loop ran out of fuel.
  abbrev pub Outcome : ℕ → ℕ → Result PackagerError (Option BoxHeader) × ℕ → Type 0
  Outcome cursor end (ok (some h), c) =
      Skips end cursor h.start
      × (read_header reader h.start end ≡ ok h)
      × (bytes_eq h.box_type uuid ≡ false)
      × IsInside cursor end h
      × (c ≡ box_end h)
  Outcome cursor end (ok none, c) = Skips end cursor c × (end ≤ c)
  Outcome cursor end (err e, c) =
      Skips end cursor c × (c < end) × (read_header reader c end ≡ err e) × (e ≢ io out_of_fuel)

  pub IsInside-later :
      {cursor c end : ℕ} {h : BoxHeader} → cursor ≤ c → IsInside c end h → IsInside cursor end h
  IsInside-later le i = record {
    lower = omega (arith, i.lower);
    payload = i.payload;
    header = i.header;
    room = i.room;
    upper = i.upper;
  }

  Outcome-skip :
      (cursor end : ℕ) (u : BoxHeader) (p : Result PackagerError (Option BoxHeader) × ℕ)
      → cursor < end
      → read_header reader cursor end ≡ ok u
      → bytes_eq u.box_type uuid ≡ true
      → Outcome (box_end u) end p
      → Outcome cursor end p
  Outcome-skip cursor end u (ok (some h), c) lt r same (skips, read, other, inside, at) =
      let (i, start) = read_header-IsInside cursor end u r in
      (uuid_box u lt r same skips, read, other, IsInside-later (omega (arith, start)) inside, at)
  Outcome-skip cursor end u (ok none, c) lt r same (skips, past) =
      (uuid_box u lt r same skips, past)
  Outcome-skip cursor end u (err e, c) lt r same (skips, before, read, ne) =
      (uuid_box u lt r same skips, before, read, ne)

  module _ (src : List ℕ) (reads : Reads src reader) where
    next_header_loop-Outcome :
        (fuel cursor end : ℕ)
        → end ≤ cursor + fuel
        → Outcome cursor end (next_header_loop reader fuel cursor end)
    unfolding next_header_loop
    next_header_loop-Outcome zero cursor end enough = elim (Bool-cases (leb end cursor)) [
      | inl past ↦ rw past (here, ground arith)
      | inr before ↦ absurd (ground arith)
    ]
    next_header_loop-Outcome (suc fuel) cursor end enough = elim (Bool-cases (leb end cursor)) [
      | inl past ↦ rw past (here, ground arith)
      | inr before ↦ elim (ok_or_err (read_header reader cursor end)) [
        | inl (h, read) ↦
            let (inside, start) = read_header-IsInside cursor end h read in
            elim (Bool-cases (bytes_eq h.box_type uuid)) [
              | inl same ↦
                  rw (before, read, same)
                    (Outcome-skip cursor end h (next_header_loop reader fuel (box_end h) end)
                      (ground arith) read same
                      (next_header_loop-Outcome fuel (box_end h) end
                        (omega (arith, inside.header, inside.room, start))))
              | inr other ↦
                  rw (before, read, other)
                    (
                      rw start here,
                      ap (λ c. read_header reader c end) start ∙ read,
                      other,
                      inside,
                      refl,
                    )
            ]
        | inr (why, refused) ↦
            rw (before, refused)
              (
                here,
                ground arith,
                refused,
                λ e. read_header-ne-fuel src reads cursor end (refused ∙ ap err e),
              )
      ]
    ]

-- Over any reader of a source, `next_header` returns the first box behind `uuid` boxes, which lies
-- inside the range; or no box, where only `uuid` boxes are left up to the end; or the error of the
-- first header behind `uuid` boxes that is refused, with the cursor left at that header. The
-- model's loop does not run out of fuel.
pub next_header-Outcome :
    ⦃be : ByteOrder⦄ (reader : ReadAt) (src : List ℕ) (cursor end : ℕ)
    → Reads src reader
    → Outcome reader cursor end (next_header reader cursor end)
unfolding next_header
next_header-Outcome reader src cursor end reads =
    next_header_loop-Outcome reader src reads (end - cursor) cursor end (omega arith)
