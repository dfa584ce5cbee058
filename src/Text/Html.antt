-- ===== src/Text/Html.antt =====
-- `html.EscapeString`
use owl_invites.Base.{ℕ, [], ◌∷◌, ◌++◌, ◌==◌, if◌then◌else◌}
use owl_invites.Text.{Text, lit}

abbrev escape_byte : ℕ → Text
escape_byte c =
    if c == b'&'
    then lit "&amp;"
    else if c == 39
    then lit "&#39;"
    else if c == b'<'
    then lit "&lt;"
    else if c == b'>'
    then lit "&gt;"
    else if c == 34
    then lit "&#34;"
    else c ∷ []

unfoldable pub escape_string : Text → Text
escape_string [] = []
escape_string (c ∷ s) = escape_byte c ++ escape_string s
