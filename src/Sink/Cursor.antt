-- ===== src/Sink/Cursor.antt =====
-- `Cursor<Vec<u8>>` of the standard library: the bytes and the position.
use cmafly.Prelude.{ℕ, ◌+◌, ◌-◌, ◌≤◌, ◌≡◌, refl, ap, ◌∙◌, arith, ltb, if◌then◌else◌}
use cmafly.Prelude.{List, [], ◌++◌, append-nil, length, replicate, overwrite, u64_mod, lt→ltb}
use cmafly.Error.{Result, ok, err, IoError, other}
use cmafly.Sink.{Sink}

pub record Cursor : Type 0 where
  pub bytes : List ℕ
  pub pos : ℕ

abbrev pub new_cursor : Cursor
new_cursor = record { bytes = []; pos = 0 }

-- A write behind the end fills the gap with zeros.
write_all : List ℕ → Cursor → Result IoError Cursor
write_all new c =
    if ltb (c.pos + length new) u64_mod
    then ok (record {
      bytes = overwrite c.pos new (c.bytes ++ replicate (c.pos - length c.bytes) 0);
      pos = c.pos + length new;
    })
    else err other

abbrev CursorHolds : Cursor → List ℕ → ℕ → Type 0
CursorHolds c bytes pos = (c.bytes ≡ bytes) × (c.pos ≡ pos)

no_gap : (xs : List ℕ) (pos : ℕ) → pos ≤ length xs → xs ++ replicate (pos - length xs) 0 ≡ xs
no_gap xs pos h =
    let none : pos - length xs ≡ 0 = omega arith in
    ap (λ n. xs ++ replicate n 0) none ∙ append-nil xs

instance pub cursor : Sink Cursor
unfolding write_all
cursor = record {
  write_all = write_all;
  stream_position = λ c. ok c.pos;
  seek = λ to c. ok (record c { pos = to });
  Holds = CursorHolds;
  write_all-Holds = λ c bytes pos new (same, at) inside small. (
    record { bytes = overwrite pos new bytes; pos = pos + length new },
    (refl, refl),
    rw (same, at, lt→ltb (pos + length new) u64_mod small, no_gap bytes pos inside),
  );
  stream_position-Holds = λ c bytes pos (same, at). ap ok at;
  seek-Holds = λ c bytes pos to (same, at) inside. (record c { pos = to }, (same, refl), refl);
}

pub new_cursor-Holds : cursor.Holds new_cursor [] 0
unfolding cursor
new_cursor-Holds = (refl, refl)

pub received : (c : Cursor) (bytes : List ℕ) (at : ℕ) → cursor.Holds c bytes at → c.bytes ≡ bytes
unfolding cursor
received c bytes at (same, _) = same
