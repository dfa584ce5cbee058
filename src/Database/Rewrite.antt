-- ===== src/Database/Rewrite.antt =====
-- `rewritePlaceholders` of internal/database/rewrite.go: `?` becomes `$1`, `$2`, … outside of what
-- the scan takes for literals, quoted identifiers and comments. The bytes behind the index are an
-- argument.
mod Tests
pub mod Proofs
pub mod Pieces
pub mod Parts
use owl_invites.Base.{
  ℕ, suc, Bool, true, false, ◌&&◌, Option, none, some, List, [], ◌∷◌, ◌++◌, ◌==◌, if◌then◌else◌,
}
use owl_invites.Text.{Text}
use owl_invites.Text.Number.{itoa}

pub data State : Type 0 where
  normal in_single_quote in_double_quote in_line_comment in_block_comment : State

-- `i+1 < len(query) && query[i+1] == c`
unfoldable pub next_is : Text → ℕ → Bool
next_is [] c = false
next_is (d ∷ rest) c = d == c

-- The state behind a byte of normal context that is no placeholder.
unfoldable pub open_state : ℕ → Text → State
open_state c rest =
    if c == b'\''
    then in_single_quote
    else if c == b'"'
    then in_double_quote
    else if c == b'-' && next_is rest b'-'
    then in_line_comment
    else if c == b'/' && next_is rest b'*'
    then in_block_comment
    else normal

-- The state behind a byte of a literal, a quoted identifier or a line comment.
unfoldable pub close_state : State → ℕ → ℕ → State
close_state state closing c = if c == closing then normal else state

-- The buffer is allocated by the first placeholder.
abbrev pub emit : ℕ → Option Text → Option Text
emit c none = none
emit c (some b) = some (b ++ c ∷ [])

abbrev pub start : Text → Option Text → Text
start seen none = seen
start seen (some b) = b

unfoldable pub rewrite_loop : State → ℕ → Text → Option Text → Text → Option Text
rewrite_loop state n seen b [] = b
rewrite_loop normal n seen b (c ∷ rest) = elim (c == b'?') [
  | true ↦
      rewrite_loop normal (suc n) (seen ++ c ∷ []) (some (start seen b ++ b'$' ∷ itoa (suc n))) rest
  | false ↦ rewrite_loop (open_state c rest) n (seen ++ c ∷ []) (emit c b) rest
]
rewrite_loop in_single_quote n seen b (c ∷ rest) =
    rewrite_loop (close_state in_single_quote b'\'' c) n (seen ++ c ∷ []) (emit c b) rest
rewrite_loop in_double_quote n seen b (c ∷ rest) =
    rewrite_loop (close_state in_double_quote b'"' c) n (seen ++ c ∷ []) (emit c b) rest
rewrite_loop in_line_comment n seen b (c ∷ rest) =
    rewrite_loop (close_state in_line_comment b'\n' c) n (seen ++ c ∷ []) (emit c b) rest
rewrite_loop in_block_comment n seen b (c ∷ []) = emit c b
rewrite_loop in_block_comment n seen b (c ∷ d ∷ rest) = elim (c == b'*' && d == b'/') [
  | true ↦ rewrite_loop normal n (seen ++ c ∷ d ∷ []) (emit d (emit c b)) rest
  | false ↦ rewrite_loop in_block_comment n (seen ++ c ∷ []) (emit c b) (d ∷ rest)
]

abbrev pub or_query : Text → Option Text → Text
or_query query none = query
or_query query (some b) = b

unfoldable pub rewrite_placeholders : Text → Text
rewrite_placeholders query = or_query query (rewrite_loop normal 0 [] none query)
