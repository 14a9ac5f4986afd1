-- ===== src/Fmp4/Boxes/Appends.antt =====
-- A box is its size, its type and its content.
use cmafly.Prelude.{
  ◌*◌, ◌%◌, ◌^◌, ℕ, ◌+◌, ◌<◌, ◌≡◌, ◌==◌, refl, ap, sym, ◌∙◌, subst, arith, not, Option, none, some,
}
use cmafly.Prelude.{
  List, ◌++◌, append_assoc, append-nil, length, length-append, u32_mod, try_u32, u64_mod, lt→ltb,
}
use cmafly.Error.{ok, ok_or, fail_if, panicked, io, other}
use cmafly.Sink.{Sink, Holds}
use cmafly.ByteOrder.{ByteOrder, write_u32 as be_u32, length_be_u32, be_sizes}
use cmafly.Fmp4.Writer.{Writer, stream_position}
use cmafly.Fmp4.Writer.Appends.{
  Leaves, run_step, lift_step, patch_step, seek_step, Appends, pure-Appends, write_all-Appends,
  stream_position-Appends, bind-Appends, then-Appends, as_Appends, >>=-eq-ok,
}
use cmafly.Fmp4.Boxes.{
  BoxWriter, checked_sub, check_expected, open_box, finish_with_expected, in_box,
  write_full_box_header,
}

-- The bytes of a box.
unfoldable pub mp4_box : ⦃be : ByteOrder⦄ → List ℕ → List ℕ → List ℕ
mp4_box fourcc content = be_u32 (8 + length content) ++ (fourcc ++ content)

pub mp4_box_lem :
    ⦃be : ByteOrder⦄ (fourcc content : List ℕ)
    → mp4_box fourcc content ≡ be_u32 (8 + length content) ++ (fourcc ++ content)
unfolding mp4_box
mp4_box_lem fourcc content = refl

pub length-mp4_box :
    ⦃be : ByteOrder⦄ (fourcc content : List ℕ)
    → length (mp4_box fourcc content) ≡ 4 + length fourcc + length content
unfolding mp4_box
length-mp4_box fourcc content = omega (
  be_sizes,
  length-append (be_u32 (8 + length content)) (fourcc ++ content),
  length-append fourcc content,
)

-- The first four bytes of a full box.
abbrev pub version_flags : ⦃be : ByteOrder⦄ → ℕ → ℕ → List ℕ
version_flags version flags = be_u32 (version * 2 ^ 24 + flags % 2 ^ 24)

checks :
    (expected : Option ℕ) (n : ℕ)
    → ((m : ℕ) → expected ≡ some m → m ≡ n)
    → check_expected expected n ≡ ok tt
checks none n agrees = refl
checks (some m) n agrees = ground (arith, agrees m refl)

module _ {W : Type 0} ⦃sink : Sink W⦄ ⦃be : ByteOrder⦄ where
  -- The end of a box whose content was written: its size is put in place of the four bytes in front.
  finish_lem :
      (bx : BoxWriter) (w : W) (b old rest : List ℕ) (expected : Option ℕ)
      → Holds w (b ++ (old ++ rest)) (length (b ++ (old ++ rest)))
      → length (b ++ (old ++ rest)) < u64_mod
      → bx.start ≡ length b
      → length old ≡ 4
      → 4 + length rest < u32_mod
      → ((n : ℕ) → expected ≡ some n → n ≡ 4 + length rest)
      → Leaves
          (finish_with_expected bx expected w)
          (b ++ (be_u32 (4 + length rest) ++ rest))
          (length (b ++ (be_u32 (4 + length rest) ++ rest)))
          (4 + length rest)
  unfolding finish_with_expected
  finish_lem bx w b old rest expected h small at four fits agrees =
      let e = length (b ++ (old ++ rest)) in
      let n = 4 + length rest in
      let size : e ≡ length b + n =
        omega (arith, length-append b (old ++ rest), length-append old rest) in
      let filled = b ++ (be_u32 n ++ rest) in
      let same_size : length filled ≡ e =
        omega (be_sizes, size, length-append b (be_u32 n ++ rest), length-append (be_u32 n) rest) in
      run_step stream_position _ w (rw (sink.stream_position-Holds w (b ++ (old ++ rest)) e h)) (
        lift_step (ok_or (checked_sub e bx.start) (io other)) _ w (ground (arith, at, size)) (
          lift_step (ok_or (try_u32 n) (io other)) _ w (rw (lt→ltb n u32_mod fits)) (
            patch_step _ w b old (be_u32 n) rest e bx.start h at (omega be_sizes) small λ w1 h1.
              seek_step _ w1 filled (bx.start + length (be_u32 n)) e h1 (omega arith) λ w2 h2.
                lift_step (fail_if (not (n == n)) (io panicked)) _ w2 (ground arith) (
                  lift_step (check_expected expected n) _ w2 (checks expected n agrees)
                    (w2, subst (Holds w2 filled) (sym same_size) h2, refl)))))

  open_box-Appends :
      (fourcc : List ℕ)
      → Appends {W = W}
          (open_box fourcc)
          (be_u32 0 ++ fourcc)
          (λ n. record { start = n; fourcc = fourcc })
  unfolding open_box
  open_box-Appends fourcc =
      as_Appends
        (bind-Appends _ stream_position-Appends λ n. then-Appends (write_all-Appends (be_u32 0)) (
          then-Appends (write_all-Appends fourcc)
            (pure-Appends (record { start = n; fourcc = fourcc }))))
        (ap (λ l. be_u32 0 ++ l) (append-nil fourcc)) (λ n. refl)

  -- A box is appended whole.
  pub in_box-Appends :
      {A : Type 0} (fourcc : List ℕ) (expected : Option ℕ) (body : Writer W A) {out : List ℕ}
      {v : ℕ → A}
      → Appends body out v
      → length fourcc ≡ 4
      → 8 + length out < u32_mod
      → ((n : ℕ) → expected ≡ some n → n ≡ 8 + length out)
      → Appends (in_box fourcc expected body) (mp4_box fourcc out) (λ n. v (n + 8))
  unfolding in_box mp4_box
  in_box-Appends fourcc expected body {out} {v} a four fits agrees = record {
    run = λ w b h small.
        let rest = fourcc ++ out in
        let size : length rest ≡ 4 + length out = omega (arith, length-append fourcc out) in
        let whole : length (mp4_box fourcc out) ≡ 8 + length out =
          omega (be_sizes, length-append (be_u32 (8 + length out)) rest, size) in
        let heading = be_u32 0 ++ fourcc in
        let heading_size : length heading ≡ 8 = omega (be_sizes, length-append (be_u32 0) fourcc) in
        let start_size = length-append b heading in
        let (w1, h1, e1) = (open_box-Appends fourcc).run w b h (omega arith) in
        let (w2, h2, e2) = a.run w1 (b ++ heading) h1 (omega arith) in
        let bytes = b ++ (be_u32 0 ++ rest) in
        let same : (b ++ heading) ++ out ≡ bytes =
          append_assoc b heading out ∙ ap (λ l. b ++ l) (append_assoc (be_u32 0) fourcc out) in
        let bytes_size : length bytes ≡ length b + (8 + length out) =
          omega
            (be_sizes, length-append b (be_u32 0 ++ rest), length-append (be_u32 0) rest, size) in
        let made : 4 + length rest ≡ 8 + length out = omega arith in
        let bx : BoxWriter = record { start = length b; fourcc = fourcc } in
        let (w3, h3, e3) =
          finish_lem bx w2 b (be_u32 0) rest expected (subst (λ c. Holds w2 c (length c)) same h2)
            (omega arith) refl (length_be_u32 0) (omega arith) (λ n e. agrees n e ∙ sym made) in
        (
          w3,
          subst (λ k. Holds w3 (b ++ (be_u32 k ++ rest)) (length (b ++ (be_u32 k ++ rest)))) made
              h3,
          >>=-eq-ok (open_box fourcc) _ w bx w1 e1
              ∙ >>=-eq-ok body _ w1 (v (length (b ++ heading))) w2 e2
              ∙ >>=-eq-ok (finish_with_expected bx expected) _ w2 (4 + length rest) w3 e3
              ∙ ap (λ k. ok (v k, w3)) (start_size ∙ ap (λ k. length b + k) heading_size),
        );
  }

  -- A box of a known content, without an expected size.
  pub small_box-Appends :
      {A : Type 0} (fourcc : List ℕ) (body : Writer W A) {out : List ℕ} {v : ℕ → A}
      → Appends body out v
      → length fourcc ≡ 4
      → length (mp4_box fourcc out) < u32_mod
      → Appends (in_box fourcc none body) (mp4_box fourcc out) (λ n. v (n + 8))
  small_box-Appends fourcc body {out} a four small =
      in_box-Appends fourcc none body a four (omega (be_sizes, length-mp4_box fourcc out))
        (λ n e. cc)

  pub write_full_box_header-Appends :
      (version flags : ℕ)
      → Appends {W = W}
          (write_full_box_header version flags)
          (version_flags version flags)
          (λ n. tt)
  unfolding write_full_box_header
  write_full_box_header-Appends version flags = write_all-Appends _
