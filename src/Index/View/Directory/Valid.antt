-- ===== src/Index/View/Directory/Valid.antt =====
-- The directories that `open` accepts.
use cmafly.Prelude.{
  ℕ, ◌%◌, ◌≤◌, ◌<◌, ◌≡◌, ◌≢◌, ◌↔◌, refl, arith, ◌==◌, ltb, not, Bool, true, false, List, [], ◌∷◌,
  All, ltb→le, le→ltb,
}
use cmafly.Error.{ok, fail_if, bind_inv, PackagerError}
use cmafly.Index.View.Directory.{
  first_offset, last_offset, not_ascending, misaligned, has_kind, has_duplicate, check_directory,
}

abbrev pub Ascending : List (ℕ × ℕ) → Type 0
Ascending [] = Unit
Ascending (e ∷ []) = Unit
Ascending ((k, o) ∷ (k', o') ∷ rest) = (o < o') × Ascending ((k', o') ∷ rest)

-- No later section has the kind of this one.
abbrev pub Distinct : List (ℕ × ℕ) → Type 0
Distinct [] = Unit
Distinct ((k, o) ∷ rest) = All (λ e. e.0 ≢ k) rest × Distinct rest

-- The first section starts at the byte at which the header ends, not later; the sections start one behind
-- the other, at aligned offsets inside the file, and have different kinds. SPEC.md lists only a first offset
-- before the end of the header among the refused ones; the code refuses one behind it too.
pub record ValidDirectory (header_end bytes_len : ℕ) (directory : List (ℕ × ℕ)) : Type 0 where
  pub first : first_offset directory ≡ header_end
  pub ascending : Ascending directory
  pub inside : All (λ e. e.1 ≤ bytes_len) directory
  pub aligned : All (λ e. e.1 % 8 ≡ 0) directory
  pub distinct : Distinct directory

ascending↔ : (d : List (ℕ × ℕ)) → (not_ascending d ≡ false) ↔ Ascending d
ascending↔ [] = ((λ e. tt), λ a. refl)
ascending↔ (e ∷ []) = ((λ e. tt), λ a. refl)
ascending↔ ((k, o) ∷ (k', o') ∷ rest) =
    let ih = ascending↔ ((k', o') ∷ rest) in
    (
      (λ e. (ground (arith, e), ih.0 (ground (arith, e)))),
      λ a. let low = a.0 in let more = ih.1 a.1 in ground (arith, low, more),
    )

aligned↔ : (d : List (ℕ × ℕ)) → (misaligned d ≡ false) ↔ All (λ e. e.1 % 8 ≡ 0) d
aligned↔ [] = ((λ e. tt), λ a. refl)
aligned↔ ((k, o) ∷ rest) =
    let ih = aligned↔ rest in
    (
      (λ e. (ground (arith, e), ih.0 (ground (arith, e)))),
      λ a. let low = a.0 in let more = ih.1 a.1 in ground (arith, low, more),
    )

has_kind↔ : (kind : ℕ) (d : List (ℕ × ℕ)) → (has_kind kind d ≡ false) ↔ All (λ e. e.0 ≢ kind) d
has_kind↔ kind [] = ((λ e. tt), λ a. refl)
has_kind↔ kind ((k, o) ∷ rest) =
    let ih = has_kind↔ kind rest in
    (
      (λ e. ((λ same. ground (arith, e, same)), ih.0 (ground (arith, e)))),
      λ a. let differs = a.0 in let more = ih.1 a.1 in ground (arith, differs, more),
    )

distinct↔ : (d : List (ℕ × ℕ)) → (has_duplicate d ≡ false) ↔ Distinct d
distinct↔ [] = ((λ e. tt), λ a. refl)
distinct↔ ((k, o) ∷ rest) =
    let ih = distinct↔ rest in
    let kinds = has_kind↔ k rest in
    (
      (λ e. (kinds.0 (ground (arith, e)), ih.0 (ground (arith, e)))),
      λ a. let none = kinds.1 a.0 in let more = ih.1 a.1 in ground (arith, none, more),
    )

-- The offsets ascend, so the last is the largest.
inside_of :
    (bytes_len : ℕ) (d : List (ℕ × ℕ))
    → Ascending d
    → last_offset d ≤ bytes_len
    → All (λ e. e.1 ≤ bytes_len) d
inside_of bytes_len [] a h = tt
inside_of bytes_len ((k, o) ∷ []) a h = (h, tt)
inside_of bytes_len ((k, o) ∷ (k', o') ∷ rest) (low, a) h =
    let (next, others) = inside_of bytes_len ((k', o') ∷ rest) a h in (omega arith, (next, others))

last_of :
    (bytes_len : ℕ) (d : List (ℕ × ℕ)) → All (λ e. e.1 ≤ bytes_len) d → last_offset d ≤ bytes_len
last_of bytes_len [] all = omega arith
last_of bytes_len ((k, o) ∷ []) (h, all) = h
last_of bytes_len ((k, o) ∷ (k', o') ∷ rest) (h, all) = last_of bytes_len ((k', o') ∷ rest) all

passed : (b : Bool) (why : PackagerError) → fail_if b why ≡ ok tt → b ≡ false
passed true why e = cc
passed false why e = refl

-- The tests of `open` on the directory pass exactly where the first offset is equal to the end of the
-- header, and the offsets ascend strictly, are aligned and not behind the end of the file, and the kinds
-- differ; a first offset behind the end of the header is so refused like one before it.
pub check_directory-ValidDirectory :
    (header_end bytes_len : ℕ) (directory : List (ℕ × ℕ))
    → (check_directory header_end bytes_len directory ≡ ok tt)
      ↔ ValidDirectory header_end bytes_len directory
unfolding check_directory
check_directory-ValidDirectory header_end bytes_len d = (
  λ e. bind_inv (fail_if (not (first_offset d == header_end)) _) _ e λ t1 a1 e1.
      bind_inv (fail_if (not_ascending d) _) _ e1 λ t2 a2 e2.
        bind_inv (fail_if (ltb bytes_len (last_offset d)) _) _ e2 λ t3 a3 e3.
          bind_inv (fail_if (misaligned d) _) _ e3 λ t4 a4 e4.
            let ascending = (ascending↔ d).0 (passed _ _ a2) in
            record {
              first = let same = passed _ _ a1 in ground (arith, same);
              ascending = ascending;
              inside =
                  inside_of bytes_len d ascending
                    (ltb→le bytes_len (last_offset d) (passed _ _ a3));
              aligned = (aligned↔ d).0 (passed _ _ a4);
              distinct = (distinct↔ d).0 (passed _ _ e4);
            },
  λ v.
      let first : (not (first_offset d == header_end)) ≡ false = ground (arith, v.first) in
      rw
        (
          first,
          (ascending↔ d).1 v.ascending,
          le→ltb bytes_len (last_offset d) (last_of bytes_len d v.inside),
          (aligned↔ d).1 v.aligned,
          (distinct↔ d).1 v.distinct,
        )
        refl,
)
