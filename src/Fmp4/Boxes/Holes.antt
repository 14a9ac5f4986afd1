-- ===== src/Fmp4/Boxes/Holes.antt =====
-- Four bytes inside nested boxes that are written later.
use cmafly.Prelude.{
  ℕ, ◌+◌, ◌<◌, u64_mod, subst, ◌≡◌, refl, ap, sym, ◌∙◌, arith, List, [], ◌++◌, append_assoc, length,
  length-append,
}
use cmafly.ByteOrder.{ByteOrder, write_u32 as be_u32, be_sizes}
use cmafly.Sink.{Sink, Holds}
use cmafly.Fmp4.Writer.{Writer, ◌>>◌, write_all, seek_start}
use cmafly.Fmp4.Writer.Appends.{Leaves, patch_step}
use cmafly.Fmp4.Boxes.Appends.{mp4_box}

-- The argument of `f` stands at byte `at` of its value, and the bytes around it are the same for
-- every argument of four bytes.
pub record Hole (f : List ℕ → List ℕ) (at : ℕ) : Type 0 where
  pub before : List ℕ
  pub behind : List ℕ
  pub around : (x : List ℕ) → length x ≡ 4 → f x ≡ before ++ (x ++ behind)
  pub place : length before ≡ at

pub here : (behind : List ℕ) → Hole (λ x. x ++ behind) 0
here behind = record { before = []; behind = behind; around = λ x four. refl; place = refl }

-- The same place, written in another way.
pub moved : {f : List ℕ → List ℕ} {at to : ℕ} → Hole f at → at ≡ to → Hole f to
moved h e = record { before = h.before; behind = h.behind; around = h.around; place = h.place ∙ e }

pub inside_front :
    {f : List ℕ → List ℕ} {at : ℕ} (front : List ℕ)
    → Hole f at
    → Hole (λ x. front ++ f x) (length front + at)
inside_front front h = record {
  before = front ++ h.before;
  behind = h.behind;
  around = λ x four.
      ap (λ l. front ++ l) (h.around x four) ∙ sym (append_assoc front h.before (x ++ h.behind));
  place = length-append front h.before ∙ ap (λ n. length front + n) h.place;
}

pub in_front_of :
    {f : List ℕ → List ℕ} {at : ℕ} (rest : List ℕ) → Hole f at → Hole (λ x. f x ++ rest) at
in_front_of rest h = record {
  before = h.before;
  behind = h.behind ++ rest;
  around = λ x four.
      ap (λ l. l ++ rest) (h.around x four)
      ∙ append_assoc h.before (x ++ h.behind) rest
      ∙ ap (λ l. h.before ++ l) (append_assoc x h.behind rest);
  place = h.place;
}

pub same_length :
    {f : List ℕ → List ℕ} {at : ℕ} (h : Hole f at) (x : List ℕ)
    → length x ≡ 4
    → length (f x) ≡ at + (4 + length h.behind)
same_length h x four =
    ap length (h.around x four)
    ∙ omega (arith, length-append h.before (x ++ h.behind), length-append x h.behind, h.place, four)

-- The size of a box around a hole does not depend on what is in it.
pub boxed :
    ⦃be : ByteOrder⦄ {f : List ℕ → List ℕ} {at : ℕ} (fourcc : List ℕ)
    → length fourcc ≡ 4
    → Hole f at
    → Hole (λ x. mp4_box fourcc (f x)) (8 + at)
unfolding mp4_box inside_front
boxed {f} {at} fourcc four h =
    let size = 8 + (at + (4 + length h.behind)) in
    let inner = inside_front (be_u32 size ++ fourcc) h in
    record {
      before = inner.before;
      behind = inner.behind;
      around = λ x len.
          ap (λ n. be_u32 (8 + n) ++ (fourcc ++ f x)) (same_length h x len)
          ∙ sym (append_assoc (be_u32 size) fourcc (f x))
          ∙ inner.around x len;
      place = omega (be_sizes, inner.place, length-append (be_u32 size) fourcc);
    }

-- Writing into the hole.
pub fill_step :
    {W : Type 0} ⦃sink : Sink W⦄ {B : Type 0} {f : List ℕ → List ℕ} {at : ℕ} (hole : Hole f at)
    (k : Writer W B) (w : W) (front old new rest : List ℕ) (from pos : ℕ) {bytes : List ℕ} {to : ℕ}
    {v : B}
    → Holds w (front ++ (f old ++ rest)) from
    → pos ≡ length front + at
    → length old ≡ 4
    → length new ≡ 4
    → length (front ++ (f old ++ rest)) < u64_mod
    → ((w' : W) → Holds w' (front ++ (f new ++ rest)) (pos + length new) → Leaves (k w') bytes to v)
    → Leaves ((seek_start pos >> (write_all new >> k)) w) bytes to v
fill_step {f} hole k w front old new rest from pos h place four four' small next =
    let spread : (x : List ℕ)
        → length x ≡ 4
        → front ++ (f x ++ rest) ≡ (front ++ hole.before) ++ (x ++ (hole.behind ++ rest)) =
      λ x len.
        ap (λ l. front ++ (l ++ rest)) (hole.around x len)
        ∙ ap (λ l. front ++ l)
            (append_assoc hole.before (x ++ hole.behind) rest
              ∙ ap (λ l. hole.before ++ l) (append_assoc x hole.behind rest))
        ∙ sym (append_assoc front hole.before (x ++ (hole.behind ++ rest))) in
    patch_step k w (front ++ hole.before) old new (hole.behind ++ rest) from pos
      (subst (λ c. Holds w c from) (spread old four) h)
      (place ∙ ap (λ n. length front + n) (sym hole.place) ∙ sym (length-append front hole.before))
      (four ∙ sym four') (subst (λ c. length c < u64_mod) (spread old four) small)
      λ w' h'. next w' (subst (λ c. Holds w' c (pos + length new)) (sym (spread new four')) h')
