-- ===== src/Invitation/Contact/Proofs.antt =====
-- What a validated contact is: deliverable by its method, and a fixed point of validation.
use owl_invites.Base.{
  ◌≡◌, ◌≢◌, refl, ap, ◌∙◌, ◌⊎◌, inl, Bool, false, ◌&&◌, not, [], ◌∷◌, Option, none, some, arith,
  All, ok,
}
use owl_invites.Text.{Text, lit, text_eq, text_eq_iff}
use owl_invites.Text.Trim.{trim_space, trim_space-fixed, trim_space-IsTrimmed, IsTrimmed}
use owl_invites.Text.Case.{to_lower, to_lower_idem, trim_space-to_lower}
use owl_invites.Text.Graph.{IsGraph, graph-IsTrimmed}
use owl_invites.Text.Number.{IsDigit}
use owl_invites.Platform.{Platform, PlatformLaws}
use owl_invites.Invitation.Contact.{
  normalize_email, normalize_phone, keep_digits, keep_phone, Contact, validate_email,
  validate_phone, validate_contact, default_method,
}

-- A validated phone number: digits behind at most one plus.
abbrev pub IsPhone : Text → Type 0
IsPhone [] = Unit
IsPhone (c ∷ s) = (IsDigit c ⊎ (c ≡ b'+')) × All IsDigit s

keep_digits-All : (s : Text) → All IsDigit (keep_digits s)
unfolding keep_digits
keep_digits-All [] = tt
keep_digits-All (c ∷ s) = ground (arith, keep_digits-All s)

digits-IsPhone : (s : Text) → All IsDigit s → IsPhone s
digits-IsPhone [] h = tt
digits-IsPhone (c ∷ s) (d, h) = (inl d, h)

keep_phone-IsPhone : (s : Text) → IsPhone (keep_phone s)
unfolding keep_phone
keep_phone-IsPhone [] = tt
keep_phone-IsPhone (c ∷ s) =
    ground (arith, keep_digits-All s, digits-IsPhone (keep_digits s) (keep_digits-All s))

keep_digits-fixed : (s : Text) → All IsDigit s → keep_digits s ≡ s
unfolding keep_digits
keep_digits-fixed [] h = refl
keep_digits-fixed (c ∷ s) (d, h) = ground (arith, keep_digits-fixed s h)

keep_phone-fixed : (s : Text) → IsPhone s → keep_phone s ≡ s
unfolding keep_phone
keep_phone-fixed [] h = refl
keep_phone-fixed (c ∷ s) (d, h) = ground (arith, keep_digits-fixed s h)

digits-IsGraph : (s : Text) → All IsDigit s → All IsGraph s
digits-IsGraph [] h = tt
digits-IsGraph (c ∷ s) (d, h) = (omega arith, digits-IsGraph s h)

phone-IsGraph : (s : Text) → IsPhone s → All IsGraph s
phone-IsGraph [] h = tt
phone-IsGraph (c ∷ s) (d, h) = (omega arith, digits-IsGraph s h)

pub normalize_phone-IsPhone : (s : Text) → IsPhone (normalize_phone s)
unfolding normalize_phone
normalize_phone-IsPhone s = keep_phone-IsPhone (trim_space s)

pub normalize_phone-IsTrimmed : (s : Text) → IsTrimmed (normalize_phone s)
normalize_phone-IsTrimmed s =
    graph-IsTrimmed (normalize_phone s)
      (phone-IsGraph (normalize_phone s) (normalize_phone-IsPhone s))

pub normalize_phone_idem : (s : Text) → normalize_phone (normalize_phone s) ≡ normalize_phone s
unfolding normalize_phone
normalize_phone_idem s =
    ap keep_phone (trim_space-fixed (normalize_phone s) (normalize_phone-IsTrimmed s))
    ∙ keep_phone-fixed (normalize_phone s) (normalize_phone-IsPhone s)

module _ (p : Platform) (laws : PlatformLaws p) where
  trim_space-normalize_email : (s : Text) → trim_space (normalize_email p s) ≡ normalize_email p s
  unfolding normalize_email
  trim_space-normalize_email s =
      trim_space-to_lower p.table laws.case (trim_space s) (trim_space-IsTrimmed s)

  pub normalize_email_idem :
      (s : Text) → normalize_email p (normalize_email p s) ≡ normalize_email p s
  unfolding normalize_email
  normalize_email_idem s =
      ap (to_lower p.table) (trim_space-normalize_email s)
      ∙ to_lower_idem p.table laws.case (trim_space s)

  validate_email-fixed :
      (e e' : Option Text) → validate_email p e ≡ ok e' → validate_email p e' ≡ ok e'
  unfolding validate_email
  validate_email-fixed none e' h = ground arith
  validate_email-fixed (some raw) e' h = ground (
    arith,
    trim_space-normalize_email raw,
    normalize_email_idem raw,
    laws.no_address,
    text_eq_iff (normalize_email p raw) [],
  )

validate_phone-fixed : (e e' : Option Text) → validate_phone e ≡ ok e' → validate_phone e' ≡ ok e'
unfolding validate_phone
validate_phone-fixed none e' h = ground arith
validate_phone-fixed (some raw) e' h = ground (
  arith,
  trim_space-fixed (normalize_phone raw) (normalize_phone-IsTrimmed raw),
  normalize_phone_idem raw,
  text_eq_iff (normalize_phone raw) [],
)

abbrev unknown_method : Text → Bool
unknown_method m =
    not (text_eq m (lit "email")) && not (text_eq m (lit "sms")) && not (text_eq m (lit "none"))

method-fixed : (m : Text) → unknown_method m ≡ false → default_method (trim_space m) ≡ m
method-fixed m h = ground (
  arith,
  text_eq_iff m (lit "email"),
  text_eq_iff m (lit "sms"),
  text_eq_iff m (lit "none"),
  email_method,
  sms_method,
  none_method,
)
  where
    email_method : default_method (trim_space (lit "email")) ≡ lit "email"
    email_method = unfold trim_space lit text_eq in refl

    sms_method : default_method (trim_space (lit "sms")) ≡ lit "sms"
    sms_method = unfold trim_space lit text_eq in refl

    none_method : default_method (trim_space (lit "none")) ≡ lit "none"
    none_method = unfold trim_space lit text_eq in refl

-- A contact that a household can be reached by, by the method that it names.
pub record IsDeliverable (c : Contact) : Type 0 where
  pub method : unknown_method c.method ≡ false
  pub email : c.method ≡ lit "email" → c.email ≢ none
  pub phone : c.method ≡ lit "sms" → c.phone ≢ none

module _ (p : Platform) where
  -- A validated contact names email, sms or none as its method, and has what the method needs.
  pub validate_contact-IsDeliverable :
      (e ph : Option Text) (m : Text) {c : Contact}
      → validate_contact p e ph m ≡ ok c
      → IsDeliverable c
  unfolding validate_contact
  validate_contact-IsDeliverable e ph m {c} h =
      ground (arith, text_eq_iff c.method (lit "email"), text_eq_iff c.method (lit "sms"))

-- What a validated contact is made of.
pub validate_contact-parts :
    (p : Platform) (e ph : Option Text) (m : Text) {c : Contact}
    → validate_contact p e ph m ≡ ok c
    → (validate_email p e ≡ ok c.email)
      × (validate_phone ph ≡ ok c.phone)
      × (c.method ≡ default_method (trim_space m))
unfolding validate_contact
validate_contact-parts p e ph m {c} h = ground arith

-- The addresses of a validated contact are valid with the method that it was given.
pub validate_contact-same_method :
    (p : Platform)
    → PlatformLaws p
    → (e ph : Option Text) (m : Text) {c : Contact} → validate_contact p e ph m ≡ ok c
    → validate_contact p c.email c.phone m ≡ ok c
unfolding validate_contact
validate_contact-same_method p laws e ph m {c} h =
    ground (arith, validate_email-fixed p laws e c.email, validate_phone-fixed ph c.phone)

-- Validation of what it has returned changes nothing. For case tables that lower a lowered text to itself and bring no white space to its
-- ends, and an address parser that refuses the empty text.
pub validate_contact-fixed :
    (p : Platform)
    → PlatformLaws p
    → (e ph : Option Text) (m : Text) {c : Contact} → validate_contact p e ph m ≡ ok c
    → validate_contact p c.email c.phone c.method ≡ ok c
unfolding validate_contact
validate_contact-fixed p laws e ph m {c} h = ground (
  arith,
  method-fixed c.method,
  validate_email-fixed p laws e c.email,
  validate_phone-fixed ph c.phone,
)
