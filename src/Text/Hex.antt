-- ===== src/Text/Hex.antt =====
-- `hex.EncodeToString`.
use owl_invites.Base.{ℕ, ◌+◌, ◌-◌, ◌/◌, ◌%◌, List, [], ◌∷◌, ltb, if◌then◌else◌}

hex_digit : ℕ → ℕ
hex_digit n = if ltb n 10 then 48 + n else b'a' + (n - 10)

unfoldable pub hex : List ℕ → List ℕ
unfolding hex_digit
hex [] = []
hex (b ∷ s) = hex_digit (b / 16) ∷ hex_digit (b % 16) ∷ hex s
