-- ===== src/Invitation/Import/Proofs/Normal.antt =====
-- Normal households: what the rows of a preview give, and what a commit leaves as it is.
use owl_invites.Base.{
  ℕ, suc, ◌+◌, ◌≤◌, ◌≡◌, refl, true, false, Option, none, some, List, [], ◌∷◌, arith, length,
  if◌then◌else◌, ok, All, map,
}
use owl_invites.Text.{Text, text_eq}
use owl_invites.Text.Trim.{trim_space}
use owl_invites.Text.Case.{to_lower}
use owl_invites.Map.{contains}
use owl_invites.Platform.{Platform}
use owl_invites.Invitation.Contact.{
  Contact, validate_contact, default_method, validate_email, validate_phone, normalize_email,
  normalize_phone,
}
use owl_invites.Invitation.Import.Row.{ImportHousehold, allowed, given, max_import_rows}
use owl_invites.Invitation.Import.Preview.{guest_count}
use owl_invites.Invitation.Import.Commit.{trim_names, validate_household, validate_households}

-- A name, or a key: trimmed, not empty, and of at most so many bytes.
unfoldable pub IsName : ℕ → Text → Type 0
IsName limit s = (trim_space s ≡ s) × (text_eq s [] ≡ false) × (length s ≤ limit)

abbrev pub contact_of : ImportHousehold → Contact
contact_of h = record {
  email = h.contact_email;
  phone = h.contact_phone;
  method = default_method h.preferred_delivery;
}

pub record IsNormal (p : Platform) (h : ImportHousehold) : Type 0 where
  pub key : IsName 100 h.household_key
  pub label : IsName 200 h.household_label
  pub allowance : allowed (some h.additional_guest_allowance) ≡ true
  pub method : to_lower p.table (trim_space h.preferred_delivery) ≡ h.preferred_delivery
  pub contact :
      validate_contact p h.contact_email h.contact_phone h.preferred_delivery ≡ ok (contact_of h)
  pub names : All (IsName 200) h.assigned_guest_names
  pub present : 1 ≤ length h.assigned_guest_names
  pub few : length h.assigned_guest_names ≤ 100

-- What a commit makes of a normal household: an empty method is email.
abbrev pub committed : ImportHousehold → ImportHousehold
committed h = record h { preferred_delivery = default_method h.preferred_delivery }

abbrev pub keys : List ImportHousehold → List Text
keys [] = []
keys (h ∷ hs) = h.household_key ∷ keys hs

-- No key stands twice, or among those that were seen.
abbrev pub Fresh : List Text → List Text → Type 0
Fresh seen [] = Unit
Fresh seen (k ∷ ks) = (contains seen k ≡ false) × Fresh (k ∷ seen) ks

trim_names-fixed :
    (number guest : ℕ) (names : List Text)
    → All (IsName 200) names
    → trim_names number guest names ≡ ok names
unfolding trim_names IsName
trim_names-fixed number guest [] h = refl
trim_names-fixed number guest (n ∷ names) (h, hs) =
    ground (arith, trim_names-fixed number (suc guest) names hs)

validate_household-normal :
    (p : Platform) (number : ℕ) (seen : List Text) (h : ImportHousehold)
    → IsNormal p h
    → contains seen h.household_key ≡ false
    → validate_household p number seen h ≡ ok (committed h)
unfolding validate_household IsName
validate_household-normal p number seen h n fresh =
    rw
      (
        n.key.0,
        n.label.0,
        n.method,
        n.contact,
        trim_names-fixed number 1 h.assigned_guest_names n.names,
      )
      (ground (arith, n.key, n.label, n.allowance, n.present, n.few))

pub validate_households-normal :
    (p : Platform) (number : ℕ) (seen : List Text) (total : ℕ) (hs : List ImportHousehold)
    → All (IsNormal p) hs
    → Fresh seen (keys hs)
    → total + guest_count hs ≤ max_import_rows
    → validate_households p number seen total hs ≡ ok (map committed hs)
unfolding validate_households guest_count
validate_households-normal p number seen total [] all fresh fits = refl
validate_households-normal p number seen total (h ∷ hs) (n, all) (new, fresh) fits =
    rw (validate_household-normal p number seen h n new) (
      ground (
        arith,
        validate_households-normal p (suc number) (h.household_key ∷ seen)
            (total + length h.assigned_guest_names) hs all fresh,
      ))

pub validate_email-given :
    (p : Platform) (s : Text) {e : Option Text}
    → trim_space s ≡ s
    → validate_email p (given s) ≡ ok e
    → (if text_eq s [] then none else some (normalize_email p s)) ≡ e
unfolding validate_email
validate_email-given p s t h = ground arith

pub validate_phone-given :
    (s : Text) {e : Option Text}
    → trim_space s ≡ s
    → validate_phone (given s) ≡ ok e
    → (if text_eq s [] then none else some (normalize_phone s)) ≡ e
unfolding validate_phone
validate_phone-given s t h = ground arith
