-- ===== src/Database/Rewrite/Pieces.antt =====
-- The loop as a reading of the query into placeholders and copied bytes, and their numbering.
use mathlib.Core.List.{append_assoc, append-nil}
use owl_invites.Base.{
  ℕ, suc, ◌≡◌, refl, sym, ◌∙◌, ap, true, false, ◌&&◌, some, none, List, [], ◌∷◌, ◌++◌, ◌==◌, arith,
}
use owl_invites.Text.{Text}
use owl_invites.Text.Number.{itoa}
use owl_invites.Database.Rewrite.{
  State, normal, in_single_quote, in_double_quote, in_line_comment, in_block_comment, open_state,
  close_state, rewrite_loop, or_query, rewrite_placeholders,
}

-- A byte of a query: a placeholder, or one that is copied.
pub data Piece : Type 0 where
  mark : Piece
  copied : ℕ → Piece

-- The reading of a query from a state on.
unfoldable pub classify : State → Text → List Piece
classify state [] = []
classify normal (c ∷ rest) = elim (c == b'?') [
  | true ↦ mark ∷ classify normal rest
  | false ↦ copied c ∷ classify (open_state c rest) rest
]
classify in_single_quote (c ∷ rest) = copied c ∷ classify (close_state in_single_quote b'\'' c) rest
classify in_double_quote (c ∷ rest) = copied c ∷ classify (close_state in_double_quote b'"' c) rest
classify in_line_comment (c ∷ rest) = copied c ∷ classify (close_state in_line_comment b'\n' c) rest
classify in_block_comment (c ∷ []) = copied c ∷ []
classify in_block_comment (c ∷ d ∷ rest) = elim (c == b'*' && d == b'/') [
  | true ↦ copied c ∷ copied d ∷ classify normal rest
  | false ↦ copied c ∷ classify in_block_comment (d ∷ rest)
]

-- The pieces with the placeholders numbered from the one behind `n` on.
unfoldable pub numbered : ℕ → List Piece → Text
numbered n [] = []
numbered n (mark ∷ ps) = b'$' ∷ (itoa (suc n) ++ numbered (suc n) ps)
numbered n (copied c ∷ ps) = c ∷ numbered n ps

-- With the buffer allocated, the loop appends the numbered rest.
loop-numbered :
    (state : State) (n : ℕ) (seen b q : Text)
    → rewrite_loop state n seen (some b) q ≡ some (b ++ numbered n (classify state q))
unfolding rewrite_loop classify numbered
loop-numbered state n seen b [] = ap some (sym (append-nil b))
loop-numbered normal n seen b (c ∷ rest) = ground (
  arith,
  loop-numbered normal (suc n) (seen ++ c ∷ []) (b ++ b'$' ∷ itoa (suc n)) rest,
  append_assoc b (b'$' ∷ itoa (suc n)) (numbered (suc n) (classify normal rest)),
  loop-numbered (open_state c rest) n (seen ++ c ∷ []) (b ++ c ∷ []) rest,
  append_assoc b (c ∷ []) (numbered n (classify (open_state c rest) rest)),
)
loop-numbered in_single_quote n seen b (c ∷ rest) =
    loop-numbered (close_state in_single_quote b'\'' c) n (seen ++ c ∷ []) (b ++ c ∷ []) rest
    ∙ ap some (append_assoc b (c ∷ []) _)
loop-numbered in_double_quote n seen b (c ∷ rest) =
    loop-numbered (close_state in_double_quote b'"' c) n (seen ++ c ∷ []) (b ++ c ∷ []) rest
    ∙ ap some (append_assoc b (c ∷ []) _)
loop-numbered in_line_comment n seen b (c ∷ rest) =
    loop-numbered (close_state in_line_comment b'\n' c) n (seen ++ c ∷ []) (b ++ c ∷ []) rest
    ∙ ap some (append_assoc b (c ∷ []) _)
loop-numbered in_block_comment n seen b (c ∷ []) = refl
loop-numbered in_block_comment n seen b (c ∷ d ∷ rest) = ground (
  arith,
  loop-numbered normal n (seen ++ c ∷ d ∷ []) ((b ++ c ∷ []) ++ d ∷ []) rest,
  append_assoc (b ++ c ∷ []) (d ∷ []) (numbered n (classify normal rest)),
  append_assoc b (c ∷ []) (d ∷ numbered n (classify normal rest)),
  loop-numbered in_block_comment n (seen ++ c ∷ []) (b ++ c ∷ []) (d ∷ rest),
  append_assoc b (c ∷ []) (numbered n (classify in_block_comment (d ∷ rest))),
)

-- Without a buffer the loop does the same to what was seen.
loop-lazy :
    (state : State) (n : ℕ) (seen q : Text)
    → or_query (seen ++ q) (rewrite_loop state n seen none q)
      ≡ seen ++ numbered n (classify state q)
unfolding rewrite_loop classify numbered
loop-lazy state n seen [] = refl
loop-lazy normal n seen (c ∷ rest) = ground (
  arith,
  loop-numbered normal (suc n) (seen ++ c ∷ []) (seen ++ b'$' ∷ itoa (suc n)) rest,
  append_assoc seen (b'$' ∷ itoa (suc n)) (numbered (suc n) (classify normal rest)),
  loop-lazy (open_state c rest) n (seen ++ c ∷ []) rest,
  append_assoc seen (c ∷ []) rest,
  append_assoc seen (c ∷ []) (numbered n (classify (open_state c rest) rest)),
)
loop-lazy in_single_quote n seen (c ∷ rest) =
    let next = close_state in_single_quote b'\'' c in
    ground (
      arith,
      loop-lazy next n (seen ++ c ∷ []) rest,
      append_assoc seen (c ∷ []) rest,
      append_assoc seen (c ∷ []) (numbered n (classify next rest)),
    )
loop-lazy in_double_quote n seen (c ∷ rest) =
    let next = close_state in_double_quote b'"' c in
    ground (
      arith,
      loop-lazy next n (seen ++ c ∷ []) rest,
      append_assoc seen (c ∷ []) rest,
      append_assoc seen (c ∷ []) (numbered n (classify next rest)),
    )
loop-lazy in_line_comment n seen (c ∷ rest) =
    let next = close_state in_line_comment b'\n' c in
    ground (
      arith,
      loop-lazy next n (seen ++ c ∷ []) rest,
      append_assoc seen (c ∷ []) rest,
      append_assoc seen (c ∷ []) (numbered n (classify next rest)),
    )
loop-lazy in_block_comment n seen (c ∷ []) = refl
loop-lazy in_block_comment n seen (c ∷ d ∷ rest) = ground (
  arith,
  loop-lazy normal n (seen ++ c ∷ d ∷ []) rest,
  append_assoc seen (c ∷ d ∷ []) rest,
  append_assoc seen (c ∷ d ∷ []) (numbered n (classify normal rest)),
  loop-lazy in_block_comment n (seen ++ c ∷ []) (d ∷ rest),
  append_assoc seen (c ∷ []) (d ∷ rest),
  append_assoc seen (c ∷ []) (numbered n (classify in_block_comment (d ∷ rest))),
)

unfoldable pub copies : Text → List Piece
copies [] = []
copies (c ∷ s) = copied c ∷ copies s

-- The rewriting numbers the placeholders of the reading.
pub rewrite_placeholders-numbered :
    (q : Text) → rewrite_placeholders q ≡ numbered 0 (classify normal q)
unfolding rewrite_placeholders
rewrite_placeholders-numbered q = loop-lazy normal 0 [] q
