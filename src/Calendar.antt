-- ===== src/Calendar.antt =====
-- internal/calendar/ics.go: the text values and the lines of an iCalendar file.
pub mod Proofs
mod Tests
use owl_invites.Base.{ℕ, zero, suc, List, [], ◌∷◌, ◌++◌, ◌==◌, leb, length, if◌then◌else◌}
use owl_invites.Text.{Text, lit}

-- `strings.ReplaceAll` of one byte.
unfoldable pub replace_all : ℕ → Text → Text → Text
replace_all b new [] = []
replace_all b new (c ∷ s) =
    let rest = replace_all b new s in if c == b then new ++ rest else c ∷ rest

abbrev pub escape_ics_text : Text → Text
escape_ics_text s = replace_all 13 [] (
    replace_all 10 (92 ∷ b'n' ∷ []) (
      replace_all b',' (92 ∷ b',' ∷ [])
        (replace_all b';' (92 ∷ b';' ∷ []) (replace_all 92 (92 ∷ 92 ∷ []) s))))

-- `line[:n]` and `line[n:]`; the code asks for no more than there is.
unfoldable pub take : ℕ → Text → Text
take zero s = []
take (suc n) [] = []
take (suc n) (c ∷ s) = c ∷ take n s

unfoldable pub drop : ℕ → Text → Text
drop zero s = s
drop (suc n) [] = []
drop (suc n) (c ∷ s) = drop n s

-- The loop over the continuation lines. The line gets shorter in each round, so its length is fuel
-- enough.
unfoldable pub continuation_lines : ℕ → Text → Text
continuation_lines fuel [] = []
continuation_lines zero (c ∷ s) = []
continuation_lines (suc fuel) (c ∷ s) =
    32 ∷ (take 74 (c ∷ s) ++ 13 ∷ 10 ∷ continuation_lines fuel (drop 74 (c ∷ s)))

unfoldable pub write_folded_line : Text → Text
write_folded_line line =
    if leb (length line) 75
    then line ++ 13 ∷ 10 ∷ []
    else take 75 line ++ 13 ∷ 10 ∷ continuation_lines (length (drop 75 line)) (drop 75 line)
