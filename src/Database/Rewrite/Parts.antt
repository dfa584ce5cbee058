-- ===== src/Database/Rewrite/Parts.antt =====
-- The rewriting against the grammar of the text: a query is written from its parts, and the parts
-- say which question marks are placeholders.
use owl_invites.Base.{ℕ, suc, ◌≡◌, ◌≢◌, refl, ◌∙◌, ap, List, [], ◌∷◌, ◌++◌, ==_iff, arith, All}
use owl_invites.Text.{Text}
use owl_invites.Text.Number.{itoa}
use owl_invites.Database.Rewrite.{
  normal, in_single_quote, in_double_quote, in_line_comment, in_block_comment, next_is, open_state,
  close_state, rewrite_placeholders,
}
use owl_invites.Database.Rewrite.Pieces.{
  Piece, copied, classify, numbered, copies, rewrite_placeholders-numbered,
}

-- A part of a query: a placeholder, another byte, or a stretch between delimiters.
pub data Part : Type 0 where
  placeholder : Part
  byte : ℕ → Part
  literal identifier line_comment block_comment : Text → Part

-- The text of a query. A line comment ends in front of its line feed.
abbrev pub query_text : List Part → Text
query_text [] = []
query_text (placeholder ∷ ps) = b'?' ∷ query_text ps
query_text (byte c ∷ ps) = c ∷ query_text ps
query_text (literal body ∷ ps) = b'\'' ∷ (body ++ b'\'' ∷ query_text ps)
query_text (identifier body ∷ ps) = b'"' ∷ (body ++ b'"' ∷ query_text ps)
query_text (line_comment body ∷ ps) = b'-' ∷ b'-' ∷ (body ++ query_text ps)
query_text (block_comment body ∷ ps) = b'/' ∷ b'*' ∷ (body ++ b'*' ∷ b'/' ∷ query_text ps)

-- The same text with the placeholders numbered from the one behind `n` on.
abbrev pub numbered_text : ℕ → List Part → Text
numbered_text n [] = []
numbered_text n (placeholder ∷ ps) = b'$' ∷ (itoa (suc n) ++ numbered_text (suc n) ps)
numbered_text n (byte c ∷ ps) = c ∷ numbered_text n ps
numbered_text n (literal body ∷ ps) = b'\'' ∷ (body ++ b'\'' ∷ numbered_text n ps)
numbered_text n (identifier body ∷ ps) = b'"' ∷ (body ++ b'"' ∷ numbered_text n ps)
numbered_text n (line_comment body ∷ ps) = b'-' ∷ b'-' ∷ (body ++ numbered_text n ps)
numbered_text n (block_comment body ∷ ps) = b'/' ∷ b'*' ∷ (body ++ b'*' ∷ b'/' ∷ numbered_text n ps)

-- The text begins with the byte.
abbrev pub Begins : ℕ → Text → Type 0
Begins c [] = ⊥
Begins c (d ∷ s) = d ≡ c

-- The text is empty, or begins with a line feed.
abbrev pub EndsLine : Text → Type 0
EndsLine [] = Unit
EndsLine (d ∷ s) = d ≡ b'\n'

-- No star is followed by a slash.
abbrev pub IsOpen : Text → Type 0
IsOpen [] = Unit
IsOpen (c ∷ []) = Unit
IsOpen (c ∷ d ∷ s) = ¬ ((c ≡ b'*') × (d ≡ b'/')) × IsOpen (d ∷ s)

-- A byte that stands for itself: it is no placeholder and opens nothing.
abbrev pub IsPlain : ℕ → Text → Type 0
IsPlain c rest =
    (c ≢ b'?')
    × (c ≢ b'\'')
    × (c ≢ b'"')
    × ¬ ((c ≡ b'-') × Begins b'-' rest)
    × ¬ ((c ≡ b'/') × Begins b'*' rest)

-- The parts stand for themselves. The body of a block comment holds no end of a comment, also
-- together with the stars of its delimiters.
abbrev pub IsQuery : List Part → Type 0
IsQuery [] = Unit
IsQuery (placeholder ∷ ps) = IsQuery ps
IsQuery (byte c ∷ ps) = IsPlain c (query_text ps) × IsQuery ps
IsQuery (literal body ∷ ps) = All (λ c. c ≢ b'\'') body × IsQuery ps
IsQuery (identifier body ∷ ps) = All (λ c. c ≢ b'"') body × IsQuery ps
IsQuery (line_comment body ∷ ps) = All (λ c. c ≢ b'\n') body × EndsLine (query_text ps) × IsQuery ps
IsQuery (block_comment body ∷ ps) = IsOpen (b'*' ∷ (body ++ b'*' ∷ [])) × IsQuery ps

numbered-copies-append :
    (n : ℕ) (s : Text) (ps : List Piece) → numbered n (copies s ++ ps) ≡ s ++ numbered n ps
unfolding numbered copies
numbered-copies-append n [] ps = refl
numbered-copies-append n (c ∷ s) ps = ap (c ∷◌) (numbered-copies-append n s ps)

classify-literal :
    (body rest : Text)
    → All (λ c. c ≢ b'\'') body
    → classify in_single_quote (body ++ b'\'' ∷ rest)
      ≡ copies body ++ copied b'\'' ∷ classify normal rest
unfolding classify copies close_state
classify-literal [] rest h = refl
classify-literal (c ∷ body) rest (other, h) =
    ground (arith, ==_iff c b'\'', classify-literal body rest h)

classify-identifier :
    (body rest : Text)
    → All (λ c. c ≢ b'"') body
    → classify in_double_quote (body ++ b'"' ∷ rest)
      ≡ copies body ++ copied b'"' ∷ classify normal rest
unfolding classify copies close_state
classify-identifier [] rest h = refl
classify-identifier (c ∷ body) rest (other, h) =
    ground (arith, ==_iff c b'"', classify-identifier body rest h)

-- A line feed ends the comment, and is read alike behind it.
classify-line_comment :
    (body rest : Text)
    → All (λ c. c ≢ b'\n') body
    → EndsLine rest
    → classify in_line_comment (body ++ rest) ≡ copies body ++ classify normal rest
unfolding classify copies close_state open_state
classify-line_comment [] [] h e = refl
classify-line_comment [] (c ∷ rest) h e = ground arith
classify-line_comment (c ∷ body) rest (other, h) e =
    ground (arith, ==_iff c b'\n', classify-line_comment body rest h e)

classify-block_comment :
    (body rest : Text)
    → IsOpen (body ++ b'*' ∷ [])
    → classify in_block_comment (body ++ b'*' ∷ b'/' ∷ rest)
      ≡ copies body ++ copied b'*' ∷ copied b'/' ∷ classify normal rest
unfolding classify copies
classify-block_comment [] rest h = refl
classify-block_comment (c ∷ []) rest (other, h) = ground (arith, classify-block_comment [] rest h)
classify-block_comment (c ∷ d ∷ body) rest (other, h) =
    ground (arith, ==_iff c b'*', ==_iff d b'/', classify-block_comment (d ∷ body) rest h)

open_state-plain : (c : ℕ) (rest : Text) → IsPlain c rest → open_state c rest ≡ normal
unfolding open_state next_is
open_state-plain c [] h = ground arith
open_state-plain c (d ∷ rest) h = ground arith

-- What the reading of a query has behind a stretch that is copied.
copied-numbered :
    (n : ℕ) (s : Text) (ps : List Piece) {q : List Piece} {out : Text}
    → q ≡ copies s ++ ps
    → numbered n ps ≡ out
    → numbered n q ≡ s ++ out
copied-numbered n s ps h k = ap (numbered n) h ∙ numbered-copies-append n s ps ∙ ap (s ++◌) k

parts-numbered :
    (n : ℕ) (ps : List Part)
    → IsQuery ps
    → numbered n (classify normal (query_text ps)) ≡ numbered_text n ps
unfolding numbered classify open_state next_is close_state
parts-numbered n [] h = refl
parts-numbered n (placeholder ∷ ps) h =
    ap (λ t. b'$' ∷ (itoa (suc n) ++ t)) (parts-numbered (suc n) ps h)
parts-numbered n (byte c ∷ ps) (plain, h) =
    ground (arith, ==_iff c b'?', open_state-plain c (query_text ps) plain, parts-numbered n ps h)
parts-numbered n (literal body ∷ ps) (inside, h) = ap (b'\'' ∷◌) (
    copied-numbered n body (copied b'\'' ∷ classify normal (query_text ps))
      (classify-literal body (query_text ps) inside) (ap (b'\'' ∷◌) (parts-numbered n ps h)))
parts-numbered n (identifier body ∷ ps) (inside, h) = ap (b'"' ∷◌) (
    copied-numbered n body (copied b'"' ∷ classify normal (query_text ps))
      (classify-identifier body (query_text ps) inside) (ap (b'"' ∷◌) (parts-numbered n ps h)))
parts-numbered n (line_comment body ∷ ps) (inside, end, h) =
    ap (λ t. b'-' ∷ b'-' ∷ t)
      (copied-numbered n body (classify normal (query_text ps))
        (classify-line_comment body (query_text ps) inside end) (parts-numbered n ps h))
parts-numbered n (block_comment body ∷ ps) (inside, h) = ap (b'/' ∷◌) (
    copied-numbered n (b'*' ∷ body) (copied b'*' ∷ copied b'/' ∷ classify normal (query_text ps))
      (classify-block_comment (b'*' ∷ body) (query_text ps) inside)
      (ap (λ t. b'*' ∷ b'/' ∷ t) (parts-numbered n ps h)))

-- A query that is written from placeholders, other bytes, literals, quoted identifiers, line
-- comments and block comments is rewritten to the same text with its placeholders numbered from 1
-- on, and no question mark of a literal, an identifier or a comment is touched. The parts are what
-- they seem, and no block comment starts with a slash behind its star.
pub rewrite_placeholders-query_text :
    (ps : List Part) → IsQuery ps → rewrite_placeholders (query_text ps) ≡ numbered_text 0 ps
rewrite_placeholders-query_text ps h =
    rewrite_placeholders-numbered (query_text ps) ∙ parts-numbered 0 ps h
