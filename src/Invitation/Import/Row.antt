-- ===== src/Invitation/Import/Row.antt =====
-- A data row of an import: `validateImportRow`, the household that it normalizes to, and
-- `householdConflicts`. The message of an issue is kept as the error that prints it.
use owl_invites.Base.{
  ℕ, Bool, false, not, ◌==◌, String, Option, none, some, List, [], ◌∷◌, ◌++◌, length, ltb,
  if◌then◌else◌, Result, ok, err, Error, validation,
}
use owl_invites.Text.{Text, lit, text_eq}
use owl_invites.Text.Number.{atoi}
use owl_invites.Base.{ℤ, pos, negsuc}
use owl_invites.Map.{text_or}
use owl_invites.Platform.{Platform}
use owl_invites.Invitation.Contact.{Contact, validate_contact, normalize_email, normalize_phone}

-- `MaxImportBytes`, `MaxImportRows`, `MaxImportHouseholds` and `MaxHouseholdGuests`.
abbrev pub max_import_bytes : ℕ
max_import_bytes = 524288

abbrev pub max_import_rows : ℕ
max_import_rows = 5000

abbrev pub max_import_households : ℕ
max_import_households = 1000

abbrev pub max_household_guests : ℕ
max_household_guests = 100

-- Row zero is an issue of the file.
pub record ImportIssue : Type 0 where
  pub row : ℕ
  pub field : Text
  pub message : Error

pub record ImportHousehold : Type 0 where
  pub household_key : Text
  pub household_label : Text
  pub contact_email : Option Text
  pub contact_phone : Option Text
  pub preferred_delivery : Text
  pub additional_guest_allowance : ℤ
  pub assigned_guest_names : List Text

-- The values of a row, trimmed, and the method lowered.
pub record ImportRow : Type 0 where
  pub key : Text
  pub label : Text
  pub email : Text
  pub phone : Text
  pub method : Text
  pub allowance : Text
  pub guest_name : Text

-- A value that must be given, in at most so many bytes.
abbrev pub check_length : ℕ → String → ℕ → String → String → Text → List ImportIssue
check_length row field limit missing long value =
    if text_eq value []
    then record { row = row; field = lit field; message = validation missing [] } ∷ []
    else if ltb limit (length value)
    then record { row = row; field = lit field; message = validation long [] } ∷ []
    else []

-- Whether an allowance is a number from 0 to 50.
abbrev pub allowed : Option ℤ → Bool
allowed none = false
allowed (some (negsuc n)) = false
allowed (some (pos n)) = not (ltb 50 n)

abbrev pub given : Text → Option Text
given value = if text_eq value [] then none else some value

abbrev pub contact_issues : ℕ → Result Contact → List ImportIssue
contact_issues row (ok c) = []
contact_issues row (err e) =
    record { row = row; field = lit "preferred_delivery"; message = e } ∷ []

unfoldable pub validate_import_row : Platform → ℕ → ImportRow → List ImportIssue
validate_import_row p row r =
    check_length row "household_key" 100 "household key is required"
      "household key must be 100 characters or fewer" r.key
    ++ (check_length row "household_label" 200 "household label is required"
          "household label must be 200 characters or fewer" r.label
        ++ (check_length row "guest_name" 200 "guest name is required"
              "guest name must be 200 characters or fewer" r.guest_name
            ++ ((if allowed (atoi r.allowance)
                  then []
                  else record {
                    row = row;
                    field = lit "additional_guest_allowance";
                    message =
                        validation "additional guest allowance must be an integer between 0 and 50"
                          [];
                  }
                    ∷ [])
                ++ contact_issues row
                    (validate_contact p (given r.email) (given r.phone) r.method))))

abbrev pub int_or : Option ℤ → ℤ
int_or none = pos 0
int_or (some n) = n

-- The household of one row.
unfoldable pub row_household : Platform → ImportRow → ImportHousehold
row_household p r = record {
  household_key = r.key;
  household_label = r.label;
  contact_email = if text_eq r.email [] then none else some (normalize_email p r.email);
  contact_phone = if text_eq r.phone [] then none else some (normalize_phone r.phone);
  preferred_delivery = r.method;
  additional_guest_allowance = int_or (atoi r.allowance);
  assigned_guest_names = r.guest_name ∷ [];
}

abbrev same_int : ℤ → ℤ → Bool
same_int (pos n) (pos k) = n == k
same_int (negsuc n) (negsuc k) = n == k
same_int _ _ = false

abbrev conflict : Bool → String → List Text
conflict same field = if same then [] else lit field ∷ []

unfoldable pub household_conflicts : ImportHousehold → ImportHousehold → List Text
household_conflicts first next =
    conflict (text_eq first.household_label next.household_label) "household_label"
    ++ (conflict (text_eq (text_or first.contact_email) (text_or next.contact_email))
          "contact_email"
        ++ (conflict (text_eq (text_or first.contact_phone) (text_or next.contact_phone))
              "contact_phone"
            ++ (conflict (text_eq first.preferred_delivery next.preferred_delivery)
                  "preferred_delivery"
                ++ conflict
                    (same_int first.additional_guest_allowance next.additional_guest_allowance)
                    "additional_guest_allowance")))
