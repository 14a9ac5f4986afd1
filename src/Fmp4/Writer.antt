-- ===== src/Fmp4/Writer.antt =====
-- Code that writes to an output: it returns a value and the output, or an error, which stops it.
-- An `io::Error` stands in the form that `?` gives it in a `Result` of the library.
pub mod Appends
use cmafly.Prelude.{ℕ, List, length, ℤ, to_u32}
use cmafly.Error.{Result, ok, err, map_err, PackagerError, io}
use cmafly.Sink.{Sink}
use cmafly.ByteOrder.{ByteOrder, write_u16 as be_u16, write_u32 as be_u32, write_u64 as be_u64}

abbrev pub Writer : Type 0 → Type 0 → Type 0
Writer W A = W → Result PackagerError (A × W)

module _ {W : Type 0} where
  abbrev pub pure : {A : Type 0} → A → Writer W A
  pure a w = ok (a, w)

  -- `?` on a result that does not concern the output.
  abbrev pub lift : {A : Type 0} → Result PackagerError A → Writer W A
  lift (ok a) w = ok (a, w)
  lift (err why) w = err why

  infixl 5 ◌>>=◌
  unfoldable pub ◌>>=◌ : {A B : Type 0} → Writer W A → (A → Writer W B) → Writer W B
  ◌>>=◌ m f w = elim (m w) [ err why ↦ err why | ok (a, w') ↦ f a w' ]

  infixl 5 ◌>>◌
  abbrev pub ◌>>◌ : {B : Type 0} → Writer W (Unit {0}) → Writer W B → Writer W B
  m >> k = m >>= λ done. k

  -- `for x in xs { … }`
  unfoldable pub each : {X : Type 0} → (X → Writer W (Unit {0})) → List X → Writer W (Unit {0})
  each body List.[] = pure tt
  each body (List.◌∷◌ x xs) = body x >> each body xs

  abbrev done : Result PackagerError W → Result PackagerError (Unit {0} × W)
  done (ok w) = ok (tt, w)
  done (err why) = err why

  abbrev told : W → Result PackagerError ℕ → Result PackagerError (ℕ × W)
  told w (ok n) = ok (n, w)
  told w (err why) = err why

  module _ ⦃sink : Sink W⦄ where
    abbrev pub write_all : List ℕ → Writer W (Unit {0})
    write_all bytes w = done (map_err io (sink.write_all bytes w))

    abbrev pub stream_position : Writer W ℕ
    stream_position w = told w (map_err io (sink.stream_position w))

    abbrev pub seek_start : ℕ → Writer W (Unit {0})
    seek_start to w = done (map_err io (sink.seek to w))

    module _ ⦃be : ByteOrder⦄ where
      abbrev pub write_u32 : ℕ → Writer W (Unit {0})
      write_u32 n = write_all (be_u32 n)

      abbrev pub write_u64 : ℕ → Writer W (Unit {0})
      write_u64 n = write_all (be_u64 n)

      abbrev pub write_u16 : ℕ → Writer W (Unit {0})
      write_u16 n = write_all (be_u16 n)

      abbrev pub write_i32 : ℤ → Writer W (Unit {0})
      write_i32 n = write_all (be_u32 (to_u32 n))
