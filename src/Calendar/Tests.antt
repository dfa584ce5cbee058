-- ===== src/Calendar/Tests.antt =====
-- A value and a line of 80 bytes.
use owl_invites.Base.{◌≡◌, refl, [], ◌∷◌, ◌++◌}
use owl_invites.Text.{Text, lit}
use owl_invites.Calendar.{
  replace_all, escape_ics_text, take, drop, continuation_lines, write_folded_line,
}
use owl_invites.Calendar.Proofs.{
  unescape, without_cr, unescape-escape_ics_text, unfold_lines, unfold_lines-write_folded_line,
  HasNoReturn-any,
}

escapes :
    escape_ics_text (lit "a;b,c" ++ 10 ∷ 92 ∷ [])
    ≡ lit "a" ++ 92 ∷ lit ";b" ++ 92 ∷ lit ",c" ++ 92 ∷ lit "n" ++ 92 ∷ 92 ∷ []
unfolding replace_all lit
escapes = refl

unescape-escape_ics_text_example : unescape (escape_ics_text (lit "a;b")) ≡ without_cr (lit "a;b")
unescape-escape_ics_text_example = unescape-escape_ics_text (lit "a;b")

abbrev long_line : Text
long_line =
    lit "DESCRIPTION:Please bring a cake and something to drink and a blanket to sit on, too."

folds :
    write_folded_line long_line
    ≡ lit "DESCRIPTION:Please bring a cake and something to drink and a blanket to sit"
      ++ 13 ∷ 10 ∷ 32 ∷ lit " on, too."
      ++ 13 ∷ 10 ∷ []
unfolding write_folded_line continuation_lines take drop lit
folds = refl

unfold_lines-write_folded_line_example :
    unfold_lines (write_folded_line long_line) ≡ long_line ++ 13 ∷ 10 ∷ []
unfold_lines-write_folded_line_example =
    unfold_lines-write_folded_line long_line (HasNoReturn-any long_line (unfold lit in refl))
