-- ===== src/Prelude/Pieces.antt =====
-- A byte string that is written piece by piece, and its pieces read back by position.
use Prim.Native.Nat.{ℕ, zero, suc, ◌+◌, ◌-◌, ◌≤◌}
use Prim.Native.Char.{code}
use Prim.Native.String.{String}
use mathlib.Core.Path.{◌≡◌, refl, ap, sym, ◌∙◌}
use mathlib.Core.List.{List, [], ◌∷◌, ◌++◌, append_assoc, append-nil}
use cmafly.Prelude.Lists.{
  length, take, drop, replicate, slice, length-append, take-append_length, drop-append_length,
  drop-drop, drop-nil, take-add,
}
use native.Mathlib.Omega.{arith}

-- The bytes of an ASCII text.
abbrev pub codes : String → List ℕ
codes String.[] = []
codes (String.◌∷◌ c s) = code c ∷ codes s

-- What a loop appends that appends `f x` for each `x`.
abbrev pub flat_map {ℓ κ} : {A : Type ℓ} {X : Type κ} → (X → List A) → List X → List A
flat_map f [] = []
flat_map f (x ∷ xs) = f x ++ flat_map f xs

module _ {ℓ} {A : Type ℓ} where
  abbrev pub concat : List (List A) → List A
  concat [] = []
  concat (p ∷ ps) = p ++ concat ps

  -- The number of elements in front of piece `i`.
  abbrev pub position : List (List A) → ℕ → ℕ
  position [] i = 0
  position (p ∷ ps) zero = 0
  position (p ∷ ps) (suc i) = length p + position ps i

  abbrev pub piece : List (List A) → ℕ → List A
  piece [] i = []
  piece (p ∷ ps) zero = p
  piece (p ∷ ps) (suc i) = piece ps i

  abbrev pub total_length : List (List A) → ℕ
  total_length [] = 0
  total_length (p ∷ ps) = length p + total_length ps

  pub length-concat : (ps : List (List A)) → length (concat ps) ≡ total_length ps
  length-concat [] = refl
  length-concat (p ∷ ps) = length-append p (concat ps) ∙ ap (λ n. length p + n) (length-concat ps)

  drop_past : (n : ℕ) (p xs : List A) → drop (length p + n) (p ++ xs) ≡ drop n xs
  drop_past n p xs = sym (drop-drop (length p) n (p ++ xs)) ∙ ap (drop n) (drop-append_length p xs)

  slice-piece :
      (ps : List (List A)) (rest : List A) (i : ℕ)
      → slice (position ps i) (length (piece ps i)) (concat ps ++ rest) ≡ piece ps i
  slice-piece [] rest i = refl
  slice-piece (p ∷ ps) rest zero =
      ap (take (length p)) (append_assoc p (concat ps) rest)
      ∙ take-append_length p (concat ps ++ rest)
  slice-piece (p ∷ ps) rest (suc i) =
      ap (λ xs. slice (length p + position ps i) (length (piece ps i)) xs)
        (append_assoc p (concat ps) rest)
      ∙ ap (take (length (piece ps i))) (drop_past (position ps i) p (concat ps ++ rest))
      ∙ slice-piece ps rest i

  -- Piece `i` is what stands at its place.
  pub slice_at :
      (ps : List (List A)) (rest : List A) (i pos n : ℕ)
      → pos ≡ position ps i
      → n ≡ length (piece ps i)
      → slice pos n (concat ps ++ rest) ≡ piece ps i
  slice_at ps rest i pos n at len =
      ap (λ k. slice k n (concat ps ++ rest)) at
      ∙ ap (λ k. slice (position ps i) k (concat ps ++ rest)) len
      ∙ slice-piece ps rest i

  -- And what follows the pieces stands behind them.
  pub drop_behind :
      (ps : List (List A)) (rest : List A) (pos : ℕ)
      → pos ≡ length (concat ps)
      → drop pos (concat ps ++ rest) ≡ rest
  drop_behind ps rest pos at =
      ap (λ k. drop k (concat ps ++ rest)) at ∙ drop-append_length (concat ps) rest

  -- `bytes[pos..pos + new.len()].copy_from_slice(new)`; no caller writes past the end.
  abbrev pub overwrite : ℕ → List A → List A → List A
  overwrite pos new xs = take pos xs ++ (new ++ drop (pos + length new) xs)

  pub overwrite_at :
      (front old new rest : List A) (pos : ℕ)
      → pos ≡ length front
      → length old ≡ length new
      → overwrite pos new (front ++ (old ++ rest)) ≡ front ++ (new ++ rest)
  overwrite_at front old new rest pos at len =
      let xs = front ++ (old ++ rest) in
      let before : take pos xs ≡ front =
        ap (λ k. take k xs) at ∙ take-append_length front (old ++ rest) in
      let behind : drop (pos + length new) xs ≡ rest =
        ap (λ k. drop (k + length new) xs) at
        ∙ drop_past (length new) front (old ++ rest)
        ∙ ap (λ k. drop k (old ++ rest)) (sym len)
        ∙ drop-append_length old rest in
      ap (λ f. f ++ (new ++ drop (pos + length new) xs)) before
      ∙ ap (λ r. front ++ (new ++ r)) behind

  pub overwrite_end : (xs new : List A) → overwrite (length xs) new xs ≡ xs ++ new
  overwrite_end xs new =
      let all : take (length xs) xs ≡ xs =
        ap (take (length xs)) (sym (append-nil xs)) ∙ take-append_length xs [] in
      let behind : drop (length xs + length new) xs ≡ [] =
        ap (drop (length xs + length new)) (sym (append-nil xs))
        ∙ drop_past (length new) xs []
        ∙ drop-nil (length new) in
      ap (λ f. f ++ (new ++ drop (length xs + length new) xs)) all
      ∙ ap (λ r. xs ++ (new ++ r)) behind
      ∙ ap (λ r. xs ++ r) (append-nil new)

  -- A slice in two parts.
  pub slice_split :
      (at n m : ℕ) (xs : List A)
      → n ≤ m
      → slice at m xs ≡ take n (drop at xs) ++ slice (at + n) (m - n) xs
  slice_split at n m xs h =
      let parts : m ≡ n + (m - n) = omega arith in
      ap (λ k. take k (drop at xs)) parts
      ∙ take-add n (m - n) (drop at xs)
      ∙ ap (λ l. take n (drop at xs) ++ take (m - n) l) (drop-drop at n xs)

  pub slice_of :
      (ps : List (List A)) (i pos n : ℕ)
      → pos ≡ position ps i
      → n ≡ length (piece ps i)
      → slice pos n (concat ps) ≡ piece ps i
  slice_of ps i pos n at len =
      ap (slice pos n) (sym (append-nil (concat ps))) ∙ slice_at ps [] i pos n at len

  -- The pieces in front of the rest, with no list of their own.
  abbrev pub pieces_then : List (List A) → List A → List A
  pieces_then [] rest = rest
  pieces_then (p ∷ ps) rest = p ++ pieces_then ps rest

  pub pieces_then-eq :
      (ps : List (List A)) (rest : List A) → pieces_then ps rest ≡ concat ps ++ rest
  pieces_then-eq [] rest = refl
  pieces_then-eq (p ∷ ps) rest =
      ap (λ r. p ++ r) (pieces_then-eq ps rest) ∙ sym (append_assoc p (concat ps) rest)

  pub slice_then :
      (ps : List (List A)) (rest : List A) (i pos n : ℕ)
      → pos ≡ position ps i
      → n ≡ length (piece ps i)
      → slice pos n (pieces_then ps rest) ≡ piece ps i
  slice_then ps rest i pos n at len =
      ap (slice pos n) (pieces_then-eq ps rest) ∙ slice_at ps rest i pos n at len

  pub overwrite_then :
      (ps : List (List A)) (old new rest : List A) (pos : ℕ)
      → pos ≡ total_length ps
      → length old ≡ length new
      → overwrite pos new (pieces_then ps (old ++ rest)) ≡ pieces_then ps (new ++ rest)
  overwrite_then ps old new rest pos at len =
      ap (overwrite pos new) (pieces_then-eq ps (old ++ rest))
      ∙ overwrite_at (concat ps) old new rest pos (at ∙ sym (length-concat ps)) len
      ∙ sym (pieces_then-eq ps (new ++ rest))

  pub length-pieces_then :
      (ps : List (List A)) (rest : List A)
      → length (pieces_then ps rest) ≡ total_length ps + length rest
  length-pieces_then ps rest =
      ap length (pieces_then-eq ps rest)
      ∙ length-append (concat ps) rest
      ∙ ap (λ n. n + length rest) (length-concat ps)

  pub replicate-add : (m n : ℕ) (a : A) → replicate (m + n) a ≡ replicate m a ++ replicate n a
  replicate-add zero n a = let e : 0 + n ≡ n = omega arith in ap (λ k. replicate k a) e
  replicate-add (suc m) n a =
      let e : suc m + n ≡ suc (m + n) = omega arith in
      ap (λ k. replicate k a) e ∙ ap (λ l. a ∷ l) (replicate-add m n a)
