-- ===== src/Error.antt =====
-- crates/packager/src/error.rs: the errors of the library, and `Result` with the `?` operator.
use Prim.Native.String.{String}
use cmafly.Prelude.{ℕ, ◌≡◌, refl, ◌⊎◌, inl, inr, Option, none, some, Bool, true, false}

-- The two kinds of `io::Error` that the library makes itself, by `io::Error::new` and
-- `io::Error::other`, without their messages, and any other kind of a reader or a writer.
-- Two are no errors of the program: with `out_of_fuel` a loop of the model ran out of fuel, and with
-- `panicked` an `assert!` failed, or an allocation was above `isize::MAX` bytes.
pub data IoError : Type 0 where
  unexpected_eof other out_of_fuel panicked : IoError
  kind : ℕ → IoError

pub data PackagerError : Type 0 where
  io : IoError → PackagerError
  unsupported_brand : PackagerError
  missing_atom : String → PackagerError
  malformed_atom : String → String → PackagerError
  unsupported_track_layout : ℕ → ℕ → PackagerError
  unsupported_video_codec unsupported_audio_codec : PackagerError
  fragmented_input encrypted_input : PackagerError
  sample_table_inconsistent : String → PackagerError
  index_magic_mismatch : PackagerError
  malformed_index_directory : String → PackagerError
  malformed_index_section : String → PackagerError
  segment_index_out_of_range : ℕ → ℕ → PackagerError

-- `Result<A, E>`.
pub data Result {ℓ} (E : Type 0) (A : Type ℓ) : Type ℓ where
  ok : A → Result E A
  err : E → Result E A

-- `?` is the bind; the operators of a chain share the error type of its section.
module _ {E : Type 0} where
  infixl 5 ◌>>=◌
  abbrev pub ◌>>=◌ {ℓ κ} : {V : Type ℓ} {W : Type κ} → Result E V → (V → Result E W) → Result E W
  err why >>= next = err why
  ok v >>= next = next v

  infixl 5 ◌>>◌
  abbrev pub ◌>>◌ {κ} : {W : Type κ} → Result E (Unit {0}) → Result E W → Result E W
  check >> after = check >>= λ done. after

  -- `if b { return Err(e); }`
  abbrev pub fail_if : Bool → E → Result E (Unit {0})
  fail_if true why = err why
  fail_if false why = ok tt

  abbrev pub ok_or {ℓ} : {V : Type ℓ} → Option V → E → Result E V
  ok_or (some v) why = ok v
  ok_or none why = err why

  abbrev pub map_err {ℓ} : {D : Type 0} {V : Type ℓ} → (D → E) → Result D V → Result E V
  map_err f (ok v) = ok v
  map_err f (err why) = err (f why)

  -- Split on a computed result.
  pub ok_or_err {ℓ} :
      {V : Type ℓ} (r : Result E V) → ((v : V) × (r ≡ ok v)) ⊎ ((why : E) × (r ≡ err why))
  ok_or_err (err why) = inr (why, refl)
  ok_or_err (ok v) = inl (v, refl)

  -- A chain that succeeds succeeded in its first step and went on from its value.
  pub bind-eq-ok {ℓ κ} :
      {V : Type ℓ} {W : Type κ} (r : Result E V) (next : V → Result E W) {w : W}
      → (r >>= next) ≡ ok w
      → (v : V) × (next v ≡ ok w) × (r ≡ ok v)
  bind-eq-ok (err why) next e = cc
  bind-eq-ok (ok v) next e = (v, e, refl)

  -- The same for a proof that goes on with the value and both equations.
  pub bind_inv {ℓ κ μ} :
      {V : Type ℓ} {W : Type κ} {C : Type μ} (r : Result E V) (next : V → Result E W) {w : W}
      → (r >>= next) ≡ ok w
      → ((v : V) → r ≡ ok v → next v ≡ ok w → C)
      → C
  bind_inv (err why) next e go = cc
  bind_inv (ok v) next e go = go v refl e
