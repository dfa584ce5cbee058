-- ===== src/Invitation/Import/Proofs/Rows.antt =====
-- A row without issues is a normal household.
use owl_invites.Base.{
  ℕ, ◌≤◌, ◌≡◌, refl, ◌∙◌, ap, subst, Bool, true, false, String, Option, none, some, List, [], ◌∷◌,
  ◌++◌, arith, length, if◌then◌else◌, Result, ok, err,
}
use owl_invites.Text.{Text, lit, text_eq}
use owl_invites.Text.Trim.{trim_space, IsTrimmed, trim_space-IsTrimmed, trim_space-fixed}
use owl_invites.Text.Case.{to_lower, trim_space-to_lower, to_lower_idem}
use owl_invites.Text.Number.{atoi}
use owl_invites.Base.{ℤ}
use owl_invites.Map.{Map, lookup}
use owl_invites.Platform.{Platform, PlatformLaws}
use owl_invites.Invitation.Contact.{Contact, validate_contact, default_method}
use owl_invites.Invitation.Contact.Proofs.{validate_contact-parts, validate_contact-same_method}
use owl_invites.Invitation.Import.Row.{
  ImportIssue, ImportRow, allowed, given, validate_import_row, row_household, int_or, check_length,
  contact_issues,
}
use owl_invites.Invitation.Import.Preview.{import_row, value, value_at}
use owl_invites.Invitation.Import.Proofs.Normal.{
  IsName, IsNormal, contact_of, validate_email-given, validate_phone-given,
}

trim_space-nil : trim_space [] ≡ []
unfolding trim_space
trim_space-nil = refl

value_at-IsTrimmed : (f : List Text) (index : Option ℕ) → IsTrimmed (value_at f index)
value_at-IsTrimmed f none = subst IsTrimmed trim_space-nil (trim_space-IsTrimmed [])
value_at-IsTrimmed f (some i) = trim_space-IsTrimmed _

value-IsTrimmed :
    (indexes : Map ℕ) (f : List Text) (column : Text) → IsTrimmed (value indexes f column)
value-IsTrimmed indexes f column = value_at-IsTrimmed f (lookup column indexes)

-- What the values of a row satisfy before they are validated.
pub record IsRead (p : Platform) (r : ImportRow) : Type 0 where
  pub key : trim_space r.key ≡ r.key
  pub label : trim_space r.label ≡ r.label
  pub email : trim_space r.email ≡ r.email
  pub phone : trim_space r.phone ≡ r.phone
  pub guest_name : trim_space r.guest_name ≡ r.guest_name
  pub method : trim_space r.method ≡ r.method
  pub lowered : to_lower p.table r.method ≡ r.method

pub import_row-IsRead :
    (p : Platform)
    → PlatformLaws p
    → (indexes : Map ℕ) (f : List Text) → IsRead p (import_row p indexes f)
unfolding import_row
import_row-IsRead p laws indexes f = record {
  key = fixed (lit "household_key");
  label = fixed (lit "household_label");
  email = fixed (lit "contact_email");
  phone = fixed (lit "contact_phone");
  guest_name = fixed (lit "guest_name");
  method =
      trim_space-to_lower p.table laws.case _
        (value-IsTrimmed indexes f (lit "preferred_delivery"));
  lowered = to_lower_idem p.table laws.case _;
}
  where
    fixed : (column : Text) → trim_space (value indexes f column) ≡ value indexes f column
    fixed column = trim_space-fixed _ (value-IsTrimmed indexes f column)

append-eq-nil : (xs ys : List ImportIssue) → xs ++ ys ≡ [] → (xs ≡ []) × (ys ≡ [])
append-eq-nil [] ys h = (refl, h)
append-eq-nil (x ∷ xs) ys h = cc

check_length-none :
    (row : ℕ) (field : String) (limit : ℕ) (missing long : String) (value : Text)
    → check_length row field limit missing long value ≡ []
    → (text_eq value [] ≡ false) × (length value ≤ limit)
check_length-none row field limit missing long value h = ground arith

contact_issues-none :
    (row : ℕ) (r : Result Contact) → contact_issues row r ≡ [] → (c : Contact) × (r ≡ ok c)
contact_issues-none row (ok c) h = (c, refl)
contact_issues-none row (err e) h = cc

no_issue :
    (given : Bool) (i : ImportIssue) (issues : List ImportIssue)
    → (if given then [] else i ∷ issues) ≡ []
    → given ≡ true
no_issue true i issues h = refl
no_issue false i issues h = cc

-- What a row without issues satisfies.
validate_import_row-none :
    (p : Platform) (row : ℕ) (r : ImportRow)
    → validate_import_row p row r ≡ []
    → ((text_eq r.key [] ≡ false) × (length r.key ≤ 100))
      × ((text_eq r.label [] ≡ false) × (length r.label ≤ 200))
      × ((text_eq r.guest_name [] ≡ false) × (length r.guest_name ≤ 200))
      × (allowed (atoi r.allowance) ≡ true)
      × ((c : Contact) × (validate_contact p (given r.email) (given r.phone) r.method ≡ ok c))
unfolding validate_import_row
validate_import_row-none p row r h =
    let (key, h1) = append-eq-nil _ _ h in
    let (label, h2) = append-eq-nil _ _ h1 in
    let (name, h3) = append-eq-nil _ _ h2 in
    let (allowance, contact) = append-eq-nil _ _ h3 in
    (
      check_length-none row _ 100 _ _ r.key key,
      check_length-none row _ 200 _ _ r.label label,
      check_length-none row _ 200 _ _ r.guest_name name,
      no_issue (allowed (atoi r.allowance)) _ [] allowance,
      contact_issues-none row _ contact,
    )

int_or-allowed : (o : Option ℤ) → allowed o ≡ true → allowed (some (int_or o)) ≡ true
int_or-allowed none h = cc
int_or-allowed (some n) h = h

-- The addresses of the household are what the validation of the row has returned.
row_contact :
    (p : Platform)
    → PlatformLaws p
    → (r : ImportRow) → IsRead p r
    → (c : Contact) → validate_contact p (given r.email) (given r.phone) r.method ≡ ok c
    → validate_contact p
        (row_household p r).contact_email
        (row_household p r).contact_phone
        r.method
      ≡ ok (contact_of (row_household p r))
unfolding row_household
row_contact p laws r read c valid =
    let (email, phone, method) =
      validate_contact-parts p (given r.email) (given r.phone) r.method valid in
    let same = validate_contact-same_method p laws (given r.email) (given r.phone) r.method valid in
    rw
      (
        validate_email-given p r.email read.email email,
        validate_phone-given r.phone read.phone phone,
      )
      (same ∙ ap (λ m. ok (record c { method = m })) (method ∙ ap default_method read.method))

pub row_household-IsNormal :
    (p : Platform)
    → PlatformLaws p
    → (row : ℕ) (r : ImportRow) → IsRead p r
    → validate_import_row p row r ≡ []
    → IsNormal p (row_household p r)
unfolding row_household IsName
row_household-IsNormal p laws row r read h =
    let (key, label, name, allowance, (c, valid)) = validate_import_row-none p row r h in
    record {
      key = (read.key, key.0, key.1);
      label = (read.label, label.0, label.1);
      allowance = int_or-allowed (atoi r.allowance) allowance;
      method = ap (to_lower p.table) read.method ∙ read.lowered;
      contact = row_contact p laws r read c valid;
      names = ((read.guest_name, name.0, name.1), tt);
      present = omega arith;
      few = omega arith;
    }
