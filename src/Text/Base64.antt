-- ===== src/Text/Base64.antt =====
-- `base64.RawURLEncoding.EncodeToString`: three bytes to four letters, no padding.
use owl_invites.Base.{
  ℕ, ◌+◌, ◌-◌, ◌*◌, ◌/◌, ◌%◌, ◌≢◌, List, [], ◌∷◌, arith, ltb, ◌==◌, if◌then◌else◌, All,
}

-- The letter of a value of six bits.
letter : ℕ → ℕ
letter n =
    if ltb n 26
    then b'A' + n
    else if ltb n 52
    then b'a' + (n - 26)
    else if ltb n 62
    then b'0' + (n - 52)
    else if n == 62
    then b'-'
    else b'_'

unfoldable pub base64 : List ℕ → List ℕ
unfolding letter
base64 [] = []
base64 (a ∷ []) = letter (a / 4) ∷ letter (a % 4 * 16) ∷ []
base64 (a ∷ b ∷ []) = letter (a / 4) ∷ letter (a % 4 * 16 + b / 16) ∷ letter (b % 16 * 4) ∷ []
base64 (a ∷ b ∷ c ∷ s) =
    letter (a / 4)
    ∷ letter (a % 4 * 16 + b / 16)
    ∷ letter (b % 16 * 4 + c / 64)
    ∷ letter (c % 64)
    ∷ base64 s

letter-ne-dot : (n : ℕ) → letter n ≢ b'.'
unfolding letter
letter-ne-dot n = ground arith

-- An encoding holds no dot.
pub base64-All : (s : List ℕ) → All (λ c. c ≢ b'.') (base64 s)
unfolding base64
base64-All [] = tt
base64-All (a ∷ []) = (letter-ne-dot (a / 4), (letter-ne-dot (a % 4 * 16), tt))
base64-All (a ∷ b ∷ []) =
    (letter-ne-dot (a / 4), (letter-ne-dot (a % 4 * 16 + b / 16), (letter-ne-dot (b % 16 * 4), tt)))
base64-All (a ∷ b ∷ c ∷ s) = (
  letter-ne-dot (a / 4),
  (
    letter-ne-dot (a % 4 * 16 + b / 16),
    (letter-ne-dot (b % 16 * 4 + c / 64), (letter-ne-dot (c % 64), base64-All s)),
  ),
)
