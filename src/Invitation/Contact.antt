-- ===== src/Invitation/Contact.antt =====
-- `validateContact` of internal/invitation/service.go, `normalizeEmail` and `normalizePhone` of
-- internal/invitation/store.go.
mod Tests
pub mod Proofs
use owl_invites.Base.{
  ℕ, suc, Bool, true, false, ◌&&◌, not, List, [], ◌∷◌, String, Option, none, some, ◌==◌, leb, ltb,
  if◌then◌else◌, length, Result, ok, err, Error, validation, reject, ◌>>=◌, ◌>>◌,
}
use owl_invites.Text.{Text, lit, text_eq}
use owl_invites.Text.Trim.{trim_space}
use owl_invites.Text.Case.{to_lower}
use owl_invites.Platform.{Platform}

unfoldable pub normalize_email : Platform → Text → Text
normalize_email p value = to_lower p.table (trim_space value)

abbrev is_digit : ℕ → Bool
is_digit c = leb b'0' c && leb c b'9'

-- The loop behind the first byte. The bytes of longer runes are no digits.
keep_digits : Text → Text
keep_digits [] = []
keep_digits (c ∷ s) = let rest = keep_digits s in if is_digit c then c ∷ rest else rest

keep_phone : Text → Text
unfolding keep_digits
keep_phone [] = []
keep_phone (c ∷ s) =
    if is_digit c then c ∷ keep_digits s else if c == b'+' then c ∷ keep_digits s else keep_digits s

unfoldable pub normalize_phone : Text → Text
unfolding keep_phone
normalize_phone value = keep_phone (trim_space value)

-- `strings.TrimPrefix(value, "+")`
abbrev trim_plus : Text → Text
trim_plus [] = []
trim_plus (c ∷ s) = if c == b'+' then s else c ∷ s

pub record Contact : Type 0 where
  pub email : Option Text
  pub phone : Option Text
  pub method : Text

abbrev pub is_none {ℓ} : {A : Type ℓ} → Option A → Bool
is_none none = true
is_none (some a) = false

unfoldable pub validate_email : Platform → Option Text → Result (Option Text)
validate_email p none = ok none
validate_email p (some raw) =
    if text_eq (trim_space raw) []
    then ok none
    else if p.parse_address (normalize_email p raw)
    then ok (some (normalize_email p raw))
    else err (validation "invalid contact email" [])

unfoldable pub validate_phone : Option Text → Result (Option Text)
validate_phone none = ok none
validate_phone (some raw) =
    if text_eq (trim_space raw) []
    then ok none
    else if ltb (length (trim_plus (normalize_phone raw))) 7
    then err (validation "invalid contact phone" [])
    else ok (some (normalize_phone raw))

abbrev pub default_method : Text → Text
default_method method = if text_eq method [] then lit "email" else method

unfoldable pub validate_contact : Platform → Option Text → Option Text → Text → Result Contact
validate_contact p email_input phone_input raw_method = do
  let method = default_method (trim_space raw_method)
  reject
      (not (text_eq method (lit "email"))
        && not (text_eq method (lit "sms"))
        && not (text_eq method (lit "none")))
      (validation "invalid preferred delivery method" [])
  email ← validate_email p email_input
  phone ← validate_phone phone_input
  reject (text_eq method (lit "email") && is_none email)
      (validation "contact email is required for email delivery" [])
  reject (text_eq method (lit "sms") && is_none phone)
      (validation "contact phone is required for SMS delivery" [])
  ok (record { email = email; phone = phone; method = method })
