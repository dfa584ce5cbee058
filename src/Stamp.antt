-- ===== src/Stamp.antt =====
-- Instants in nanoseconds, and the texts that the store keeps of them: `time.RFC3339Nano` in UTC,
-- which the queries compare as texts. Up to the year 9999 the part before the fraction has one
-- width, so texts of two seconds are ordered as the seconds; within a second the fraction decides,
-- written without its trailing zeros and followed by `Z`.
use owl_invites.Base.{
  ℕ, zero, suc, ◌+◌, ◌/◌, ◌%◌, ◌<◌, ◌≡◌, refl, Bool, true, false, [], ◌∷◌, ◌++◌, arith, ◌==◌, ltb,
  if◌then◌else◌,
}
use owl_invites.Text.{Text}

abbrev pub second : ℕ
second = 1000000000

-- A zero behind which no digit stands is dropped.
abbrev push_digit : ℕ → Text → Text
push_digit d [] = if d == 0 then [] else (48 + d) ∷ []
push_digit d (c ∷ s) = (48 + d) ∷ c ∷ s

-- The last `k` digits of `n` in front of `acc`.
fraction_digits : ℕ → ℕ → Text → Text
fraction_digits zero n acc = acc
fraction_digits (suc k) n acc = fraction_digits k (n / 10) (push_digit (n % 10) acc)

-- The fraction of a second with its point, if it is not zero, and the zone.
fraction_text : ℕ → Text
unfolding fraction_digits
fraction_text n = if n == 0 then b'Z' ∷ [] else b'.' ∷ (fraction_digits 9 n [] ++ b'Z' ∷ [])

text_lt : Text → Text → Bool
text_lt s [] = false
text_lt [] (b ∷ t) = true
text_lt (a ∷ s) (b ∷ t) =
    let rest = text_lt s t in if ltb a b then true else if a == b then rest else false

-- `a > b` in SQL, between the texts of two instants.
unfoldable pub after : ℕ → ℕ → Bool
unfolding fraction_text text_lt
after a b =
    if a / second == b / second
    then text_lt (fraction_text (b % second)) (fraction_text (a % second))
    else ltb (b / second) (a / second)

-- Two seconds are told apart as they should be.
pub after-seconds : (a b : ℕ) → a / second < b / second → (after a b ≡ false) × (after b a ≡ true)
unfolding after
after-seconds a b h = ground arith

text_lt_irrefl : (s : Text) → text_lt s s ≡ false
unfolding text_lt
text_lt_irrefl [] = refl
text_lt_irrefl (a ∷ s) = ground (arith, text_lt_irrefl s)

pub after_irrefl : (a : ℕ) → after a a ≡ false
unfolding after
after_irrefl a = ground (arith, text_lt_irrefl (fraction_text (a % second)))
