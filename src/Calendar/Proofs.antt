-- ===== src/Calendar/Proofs.antt =====
-- A reader of an iCalendar file gets back what was written.
use mathlib.Core.List.{append_assoc}
use owl_invites.Base.{
  ℕ, zero, suc, ◌≡◌, ◌≢◌, ◌≤◌, refl, sym, ◌∙◌, ap, false, [], ◌∷◌, ◌++◌, arith, ◌==◌, leb, length,
  All, any, if◌then◌else◌, Bool-cases, inl, inr,
}
use owl_invites.Text.{Text}
use owl_invites.Calendar.{
  replace_all, escape_ics_text, take, drop, continuation_lines, write_folded_line,
}

-- How RFC 5545 reads a text value: a backslash with `n` is a line feed, with another byte that byte.
abbrev read_escape : ℕ → ℕ
read_escape c = if c == b'n' then 10 else c

unfoldable pub unescape : Text → Text
unescape [] = []
unescape (c ∷ []) = c ∷ []
unescape (c ∷ d ∷ s) =
    let pair = unescape s in
    let rest = unescape (d ∷ s) in if c == 92 then read_escape d ∷ pair else c ∷ rest

-- The carriage returns are left out.
unfoldable pub without_cr : Text → Text
without_cr [] = []
without_cr (c ∷ s) = let rest = without_cr s in if c == 13 then rest else c ∷ rest

replace_all-append :
    (b : ℕ) (new s t : Text)
    → replace_all b new (s ++ t) ≡ replace_all b new s ++ replace_all b new t
unfolding replace_all
replace_all-append b new [] t = refl
replace_all-append b new (c ∷ s) t = ground (
  arith,
  replace_all-append b new s t,
  append_assoc new (replace_all b new s) (replace_all b new t),
)

abbrev semicolons : Text → Text
semicolons = replace_all b';' (92 ∷ b';' ∷ [])

abbrev commas : Text → Text
commas = replace_all b',' (92 ∷ b',' ∷ [])

abbrev feeds : Text → Text
feeds = replace_all 10 (92 ∷ b'n' ∷ [])

abbrev returns : Text → Text
returns = replace_all 13 []

escape-cons :
    (c : ℕ) (s : Text) → escape_ics_text (c ∷ s) ≡ escape_ics_text (c ∷ []) ++ escape_ics_text s
escape-cons c s =
    ap (λ x. returns (feeds (commas (semicolons x)))) (replace_all-append 92 _ (c ∷ []) s)
    ∙ ap (λ x. returns (feeds (commas x))) (replace_all-append b';' _ _ _)
    ∙ ap (λ x. returns (feeds x)) (replace_all-append b',' _ _ _)
    ∙ ap returns (replace_all-append 10 _ _ _)
    ∙ replace_all-append 13 [] _ _

-- What one byte becomes.
escape-byte :
    (c : ℕ)
    → escape_ics_text (c ∷ []) ≡ (
        if c == 92
        then 92 ∷ 92 ∷ []
        else if c == b';'
        then 92 ∷ b';' ∷ []
        else if c == b','
        then 92 ∷ b',' ∷ []
        else if c == 10
        then 92 ∷ b'n' ∷ []
        else if c == 13
        then []
        else c ∷ [])
unfolding replace_all
escape-byte c = ground arith

unescape-plain : (c : ℕ) (s : Text) → c ≢ 92 → unescape (c ∷ s) ≡ c ∷ unescape s
unfolding unescape
unescape-plain c [] h = refl
unescape-plain c (d ∷ s) h = ground (arith, h)

unescape-pair : (d : ℕ) (s : Text) → unescape (92 ∷ d ∷ s) ≡ read_escape d ∷ unescape s
unfolding unescape
unescape-pair d s = ground arith

-- Reading the escaped text of a value gives back the value, but for its carriage returns.
pub unescape-escape_ics_text : (s : Text) → unescape (escape_ics_text s) ≡ without_cr s
unfolding unescape replace_all without_cr
unescape-escape_ics_text [] = refl
unescape-escape_ics_text (c ∷ s) = ground (
  arith,
  escape-cons c s,
  escape-byte c,
  unescape-plain c (escape_ics_text s),
  unescape-pair 92 (escape_ics_text s),
  unescape-pair b';' (escape_ics_text s),
  unescape-pair b',' (escape_ics_text s),
  unescape-pair b'n' (escape_ics_text s),
  unescape-escape_ics_text s,
)

-- A reader joins a line with the one that continues it: a line break before a space is left out.
unfoldable pub unfold_lines : Text → Text
unfold_lines [] = []
unfold_lines (c ∷ []) = c ∷ []
unfold_lines (c ∷ d ∷ []) = c ∷ d ∷ []
unfold_lines (c ∷ d ∷ e ∷ s) =
    let joined = unfold_lines s in
    let rest = unfold_lines (d ∷ e ∷ s) in
    if c == 13 then if d == 10 then if e == 32 then joined else c ∷ rest else c ∷ rest else c ∷ rest

abbrev pub HasNoReturn : Text → Type 0
HasNoReturn s = All (λ c. c ≢ 13) s

unfold_lines-byte : (c : ℕ) (s : Text) → c ≢ 13 → unfold_lines (c ∷ s) ≡ c ∷ unfold_lines s
unfolding unfold_lines
unfold_lines-byte c [] h = refl
unfold_lines-byte c (d ∷ []) h = refl
unfold_lines-byte c (d ∷ e ∷ s) h = ground (arith, h)

unfold_lines-append : (s t : Text) → HasNoReturn s → unfold_lines (s ++ t) ≡ s ++ unfold_lines t
unfold_lines-append [] t h = refl
unfold_lines-append (c ∷ s) t (ne, h) =
    unfold_lines-byte c (s ++ t) ne ∙ ap (λ x. c ∷ x) (unfold_lines-append s t h)

unfold_lines-break : (s : Text) → unfold_lines (13 ∷ 10 ∷ 32 ∷ s) ≡ unfold_lines s
unfolding unfold_lines
unfold_lines-break s = refl

take-drop : (n : ℕ) (s : Text) → take n s ++ drop n s ≡ s
unfolding take drop
take-drop zero s = refl
take-drop (suc n) [] = refl
take-drop (suc n) (c ∷ s) = ap (λ x. c ∷ x) (take-drop n s)

take-HasNoReturn : (n : ℕ) (s : Text) → HasNoReturn s → HasNoReturn (take n s)
unfolding take
take-HasNoReturn zero s h = tt
take-HasNoReturn (suc n) [] h = tt
take-HasNoReturn (suc n) (c ∷ s) (ne, h) = (ne, take-HasNoReturn n s h)

drop-HasNoReturn : (n : ℕ) (s : Text) → HasNoReturn s → HasNoReturn (drop n s)
unfolding drop
drop-HasNoReturn zero s h = h
drop-HasNoReturn (suc n) [] h = tt
drop-HasNoReturn (suc n) (c ∷ s) (ne, h) = drop-HasNoReturn n s h

length-drop_le : (n : ℕ) (s : Text) → length (drop n s) ≤ length s
unfolding drop
length-drop_le zero s = omega arith
length-drop_le (suc n) [] = omega arith
length-drop_le (suc n) (c ∷ s) = omega (arith, length-drop_le n s)

drop-shorter :
    (n c : ℕ) (s : Text) {fuel : ℕ}
    → length (c ∷ s) ≤ suc fuel
    → length (drop (suc n) (c ∷ s)) ≤ fuel
unfolding drop
drop-shorter n c s h = omega (arith, h, length-drop_le n s)

-- A line that is cut in two, of which the second part is read back.
rejoined :
    (n : ℕ) (line later : Text)
    → HasNoReturn line
    → unfold_lines later ≡ drop n line ++ 13 ∷ 10 ∷ []
    → unfold_lines (take n line ++ later) ≡ line ++ 13 ∷ 10 ∷ []
rejoined n line later h back =
    unfold_lines-append (take n line) later (take-HasNoReturn n line h)
    ∙ ap (λ x. take n line ++ x) back
    ∙ sym (append_assoc (take n line) (drop n line) (13 ∷ 10 ∷ []))
    ∙ ap (λ x. x ++ 13 ∷ 10 ∷ []) (take-drop n line)

continuation_lines-joined :
    (fuel : ℕ) (line : Text)
    → length line ≤ fuel
    → HasNoReturn line
    → unfold_lines (13 ∷ 10 ∷ continuation_lines fuel line) ≡ line ++ 13 ∷ 10 ∷ []
unfolding continuation_lines
continuation_lines-joined fuel [] le h = unfold unfold_lines in refl
continuation_lines-joined zero (c ∷ s) le h = absurd (omega (arith, le))
continuation_lines-joined (suc fuel) (c ∷ s) le h =
    unfold_lines-break (take 74 (c ∷ s) ++ 13 ∷ 10 ∷ continuation_lines fuel (drop 74 (c ∷ s)))
    ∙ rejoined 74 (c ∷ s) (13 ∷ 10 ∷ continuation_lines fuel (drop 74 (c ∷ s))) h (
        continuation_lines-joined fuel (drop 74 (c ∷ s)) (drop-shorter 73 c s le)
          (drop-HasNoReturn 74 (c ∷ s) h))

-- A reader that joins the continued lines gets back each line that was written, if there is no
-- carriage return in it, however long it is: the fuel of the loop is enough.
pub unfold_lines-write_folded_line :
    (line : Text) → HasNoReturn line → unfold_lines (write_folded_line line) ≡ line ++ 13 ∷ 10 ∷ []
unfolding write_folded_line
unfold_lines-write_folded_line line h = elim (Bool-cases (leb (length line) 75)) [
  | inl short ↦
      ap (λ b. unfold_lines (if b then line ++ 13 ∷ 10 ∷ [] else folded)) short
      ∙ unfold_lines-append line (13 ∷ 10 ∷ []) h
      ∙ ap (λ x. line ++ x) (unfold unfold_lines in refl)
  | inr long ↦
      ap (λ b. unfold_lines (if b then line ++ 13 ∷ 10 ∷ [] else folded)) long
      ∙ rejoined 75 line (13 ∷ 10 ∷ continuation_lines (length (drop 75 line)) (drop 75 line)) h (
          continuation_lines-joined (length (drop 75 line)) (drop 75 line) (omega arith)
            (drop-HasNoReturn 75 line h))
]
  where
    folded : Text
    folded = take 75 line ++ 13 ∷ 10 ∷ continuation_lines (length (drop 75 line)) (drop 75 line)

pub HasNoReturn-any : (s : Text) → any (λ c. c == 13) s ≡ false → HasNoReturn s
HasNoReturn-any [] h = tt
HasNoReturn-any (c ∷ s) h = ((λ eq. ground arith), HasNoReturn-any s (ground arith))
