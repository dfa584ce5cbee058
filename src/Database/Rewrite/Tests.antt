-- ===== src/Database/Rewrite/Tests.antt =====
-- Queries with placeholders, literals and comments.
use owl_invites.Base.{◌≡◌, refl, List, [], ◌∷◌, arith}
use owl_invites.Text.{lit}
use owl_invites.Text.Number.{itoa}
use owl_invites.Database.Rewrite.{
  rewrite_placeholders, rewrite_loop, open_state, close_state, next_is,
}
use owl_invites.Database.Rewrite.Proofs.{rewrite_placeholders_idem}
use owl_invites.Database.Rewrite.Parts.{
  Part, placeholder, byte, literal, identifier, line_comment, block_comment, IsQuery,
  rewrite_placeholders-query_text,
}

computes : Unit {0}
unfolding lit itoa rewrite_placeholders rewrite_loop open_state close_state next_is
computes = tt

rewritten :
    rewrite_placeholders (lit "SELECT '?' -- ?\n, /* ? */ a FROM t WHERE b = ? AND c = ?")
    ≡ lit "SELECT '?' -- ?\n, /* ? */ a FROM t WHERE b = $1 AND c = $2"
unfolding computes
rewritten = refl

untouched : rewrite_placeholders (lit "SELECT 'a''?'") ≡ lit "SELECT 'a''?'"
unfolding computes
untouched = refl

-- The star that opens a comment is taken for the one that closes it.
early_close : rewrite_placeholders (lit "/*/ ? */") ≡ lit "/*/ $1 */"
unfolding computes
early_close = refl

abbrev parts : List Part
parts =
    byte b'a'
    ∷ literal (lit "?")
    ∷ identifier (lit "?")
    ∷ placeholder
    ∷ block_comment (lit "?*")
    ∷ placeholder
    ∷ line_comment (lit "?")
    ∷ []

parts-IsQuery : IsQuery parts
unfolding lit
parts-IsQuery = omega arith

rewrite_placeholders-query_text_example :
    rewrite_placeholders (lit "a'?'\"?\"?/*?**/?--?") ≡ lit "a'?'\"?\"$1/*?**/$2--?"
unfolding lit itoa
rewrite_placeholders-query_text_example = rewrite_placeholders-query_text parts parts-IsQuery

rewrite_placeholders_idem_example :
    rewrite_placeholders (rewrite_placeholders (lit "a = ?")) ≡ rewrite_placeholders (lit "a = ?")
rewrite_placeholders_idem_example = rewrite_placeholders_idem (lit "a = ?")
