-- ===== src/Server/Tests.antt =====
-- Names and bodies of the server.
use cmafly.Prelude.{◌+◌, ◌/◌, ◌%◌, ◌≡◌, ◌⊎◌, refl, arith, none, some, [], ◌∷◌, codes}
use cmafly.Playlist.{Format}
use cmafly.Server.PermitBody.{
  PermitBody, new_body, poll_frame, Polls, stay, poll, Sent, Polls-Sent, new_body_lem, Ended, Going,
}
use cmafly.Server.SegmentName.{
  parse_segment_idx, IsFourDigits, parse_segment_idx-segment_name, IsNameOf,
  parse_segment_idx-IsNameOf, parse_segment_idx-leading_zeros,
}

-- The formats of the test: a number below 10000 in four digits.
abbrev four_digits : Format
four_digits = record {
  number = λ n. (b'0' + n) ∷ [];
  four_digits = λ n.
      (b'0' + (n / 1000) % 10)
      ∷ (b'0' + (n / 100) % 10)
      ∷ (b'0' + (n / 10) % 10)
      ∷ (b'0' + n % 10)
      ∷ [];
  six_decimals = λ ticks timescale. (b'0' + ticks) ∷ codes ".000000";
}

number_42 : IsFourDigits (41 + 1) (four_digits.four_digits (41 + 1))
number_42 = record {
  long = omega arith;
  digits = (
    (omega arith, omega arith),
    ((omega arith, omega arith), ((omega arith, omega arith), ((omega arith, omega arith), tt))),
  );
  value = refl;
}

parse_segment_idx-segment_name_example : parse_segment_idx (codes "seg_0042.m4s") ≡ some 41
parse_segment_idx-segment_name_example =
    parse_segment_idx-segment_name four_digits 41 number_42 (omega arith)

parse_segment_idx-leading_zeros_example : parse_segment_idx (codes "seg_000042.m4s") ≡ some 41
parse_segment_idx-leading_zeros_example =
    parse_segment_idx-leading_zeros four_digits 41 2 number_42 (omega arith)

name_42 : parse_segment_idx (codes "seg_0042.m4s") ≡ some 41
unfolding parse_segment_idx
name_42 = refl

parse_segment_idx-IsNameOf_example : IsNameOf 41 (codes "seg_0042.m4s")
parse_segment_idx-IsNameOf_example = parse_segment_idx-IsNameOf (codes "seg_0042.m4s") 41 name_42

-- parse_segment_idx_rejects_zero_index, and that of an alias
zero_index : parse_segment_idx (codes "seg_0000.m4s") ≡ none
unfolding parse_segment_idx
zero_index = refl

alias_index : parse_segment_idx (codes "seg_00001.m4s") ≡ some 0
unfolding parse_segment_idx
alias_index = refl

abbrev body : PermitBody
body = new_body (1 ∷ 2 ∷ 3 ∷ [])

abbrev drained_body : PermitBody
drained_body = record { source = 1 ∷ 2 ∷ 3 ∷ []; pos = 3 }

one_frame : Polls body ((1 ∷ 2 ∷ 3 ∷ []) ∷ []) drained_body
unfolding poll_frame
one_frame = poll refl stay

Polls-Sent_example : Sent body drained_body ((1 ∷ 2 ∷ 3 ∷ []) ∷ [])
Polls-Sent_example = Polls-Sent body drained_body ((1 ∷ 2 ∷ 3 ∷ []) ∷ []) one_frame (omega arith)

new_body_lem_example :
    Ended (1 ∷ 2 ∷ 3 ∷ []) ((1 ∷ 2 ∷ 3 ∷ []) ∷ []) drained_body
    ⊎ Going (1 ∷ 2 ∷ 3 ∷ []) ((1 ∷ 2 ∷ 3 ∷ []) ∷ []) drained_body
new_body_lem_example = new_body_lem (1 ∷ 2 ∷ 3 ∷ []) ((1 ∷ 2 ∷ 3 ∷ []) ∷ []) drained_body one_frame
