-- ===== src/Index/Builder/Counting.antt =====
-- crates/packager/src/index/builder.rs: CountingSink, which measures what is written to it.
use cmafly.Prelude.{ℕ, ◌+◌, ◌-◌, ◌≤◌, ◌<◌, ◌≡◌, refl, sym, arith, ltb, if◌then◌else◌, none, some}
use cmafly.Prelude.{
  List, [], ◌++◌, take, drop, length, overwrite, checked_add, u64_mod, lt→ltb, ℤ, pos, negsuc,
}
use cmafly.Prelude.{length-append, length-take, length-drop, leb}
use cmafly.Error.{Result, ok, ◌>>=◌, ok_or, IoError, other, kind}
use cmafly.Sink.{Sink}

pub record CountingSink : Type 0 where
  pub position : ℕ
  pub len : ℕ

-- `CountingSink::default()`
abbrev pub new_counting : CountingSink
new_counting = record { position = 0; len = 0 }

-- `write_all` calls `write` once, which takes the whole buffer.
abbrev pub write : List ℕ → CountingSink → Result IoError CountingSink
write buf s = do
  position ← ok_or (checked_add s.position (length buf)) other
  ok (record { position = position; len = if ltb s.len position then position else s.len })

-- `ErrorKind::InvalidInput`, one of the other kinds.
abbrev invalid_input : IoError
invalid_input = kind 0

abbrev pub offset_from : ℕ → ℤ → Result IoError ℕ
offset_from base (pos delta) = ok_or (checked_add base delta) other
offset_from base (negsuc n) =
    ok_or (if leb (n + 1) base then some (base - (n + 1)) else none) invalid_input

pub data SeekFrom : Type 0 where
  start : ℕ → SeekFrom
  end current : ℤ → SeekFrom

abbrev new_position : SeekFrom → CountingSink → Result IoError ℕ
new_position (start p) s = ok p
new_position (end d) s = offset_from s.len d
new_position (current d) s = offset_from s.position d

abbrev pub seek : SeekFrom → CountingSink → Result IoError CountingSink
seek from s = do new ← new_position from s; ok (record s { position = new })

-- It holds as many bytes as it counted, and their number has 64 bits.
record CountingHolds (s : CountingSink) (bytes : List ℕ) (at : ℕ) : Type 0 where
  len : s.len ≡ length bytes
  position : s.position ≡ at
  inside : at ≤ length bytes
  small : length bytes < u64_mod

length-overwrite :
    (at : ℕ) (new bytes : List ℕ)
    → at ≤ length bytes
    → length (overwrite at new bytes)
      ≡ (if ltb (length bytes) (at + length new) then at + length new else length bytes)
length-overwrite at new bytes h =
    let parts : length (overwrite at new bytes)
        ≡ at + (length new + (length bytes - (at + length new))) =
      omega (
        arith,
        length-append (take at bytes) (new ++ drop (at + length new) bytes),
        length-append new (drop (at + length new) bytes),
        length-take at bytes,
        length-drop (at + length new) bytes,
      ) in
    ground (arith, parts)

write-CountingHolds :
    (s : CountingSink) (bytes : List ℕ) (at : ℕ) (new : List ℕ)
    → CountingHolds s bytes at
    → at + length new < u64_mod
    → (s' : CountingSink) × CountingHolds s' (overwrite at new bytes) (at + length new)
      × (write new s ≡ ok s')
write-CountingHolds s bytes at new h small =
    let size = length-overwrite at new bytes h.inside in
    (
      record {
        position = at + length new;
        len = if ltb (length bytes) (at + length new) then at + length new else length bytes;
      },
      record {
        len = sym size;
        position = refl;
        inside = ground (arith, size);
        small = ground (arith, size, h.small);
      },
      rw (h.position, h.len, lt→ltb (at + length new) u64_mod small),
    )

add-zero : (n : ℕ) → n + 0 ≡ n
add-zero n = omega arith

instance pub counting : Sink CountingSink
counting = record {
  write_all = write;
  stream_position = λ s. new_position (current (pos 0)) s;
  seek = λ to s. seek (start to) s;
  Holds = CountingHolds;
  write_all-Holds = λ s bytes at new h inside small. write-CountingHolds s bytes at new h small;
  stream_position-Holds = λ s bytes at h.
      rw (h.position, add-zero at, lt→ltb at u64_mod (omega (arith, h.inside, h.small)));
  seek-Holds = λ s bytes at to h inside. (
    record s { position = to },
    record { len = h.len; position = refl; inside = inside; small = h.small },
    refl,
  );
}

pub new_counting-Holds : counting.Holds new_counting [] 0
unfolding counting
new_counting-Holds = record {
  len = refl;
  position = refl;
  inside = omega arith;
  small = omega arith;
}

pub counted :
    (s : CountingSink) (bytes : List ℕ) (at : ℕ) → counting.Holds s bytes at → s.len ≡ length bytes
unfolding counting
counted s bytes at h = h.len
