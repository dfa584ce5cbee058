-- ===== src/Invitation/Import/Commit.antt =====
-- `validateImportCommit`: what is committed is validated again.
use owl_invites.Base.{
  ℕ, suc, ◌+◌, not, ◌||◌, some, List, [], ◌∷◌, ◌==◌, ltb, length, Result, ok, err, validation,
  wrapped, num, reject, ◌>>=◌, ◌>>◌,
}
use owl_invites.Text.{Text, text_eq}
use owl_invites.Text.Trim.{trim_space}
use owl_invites.Text.Case.{to_lower}
use owl_invites.Map.{contains}
use owl_invites.Platform.{Platform}
use owl_invites.Invitation.Contact.{Contact, validate_contact}
use owl_invites.Invitation.Import.Row.{
  ImportHousehold, allowed, max_import_rows, max_import_households, max_household_guests,
}

abbrev for_household : ℕ → Result Contact → Result Contact
for_household number (ok c) = ok c
for_household number (err e) = err (wrapped "household %d: %v" (num number ∷ []) e)

-- The names, trimmed. `number` and `guest` count from 1.
unfoldable pub trim_names : ℕ → ℕ → List Text → Result (List Text)
trim_names number guest [] = ok []
trim_names number guest (raw ∷ rest) = do
  let name = trim_space raw
  reject (text_eq name [] || ltb 200 (length name)) (
      validation "invalid assigned guest name at household %d guest %d"
        (num number ∷ num guest ∷ []))
  names ← trim_names number (suc guest) rest
  ok (name ∷ names)

unfoldable pub validate_household :
    Platform → ℕ → List Text → ImportHousehold → Result ImportHousehold
validate_household p number seen raw = do
  let key = trim_space raw.household_key
  let label = trim_space raw.household_label
  reject (contains seen key)
      (validation "duplicate household key at household %d" (num number ∷ []))
  reject (text_eq key [] || ltb 100 (length key))
      (validation "invalid household key at household %d" (num number ∷ []))
  reject (text_eq label [] || ltb 200 (length label))
      (validation "invalid household label at household %d" (num number ∷ []))
  reject (not (allowed (some raw.additional_guest_allowance)))
      (validation "invalid additional guest allowance at household %d" (num number ∷ []))
  reject
      (length raw.assigned_guest_names == 0
        || ltb max_household_guests (length raw.assigned_guest_names))
      (validation "household %d must contain between 1 and %d assigned guests"
        (num number ∷ num max_household_guests ∷ []))
  c ← for_household number (
      validate_contact p raw.contact_email raw.contact_phone
        (to_lower p.table (trim_space raw.preferred_delivery)))
  names ← trim_names number 1 raw.assigned_guest_names
  ok (record {
    household_key = key;
    household_label = label;
    contact_email = c.email;
    contact_phone = c.phone;
    preferred_delivery = c.method;
    additional_guest_allowance = raw.additional_guest_allowance;
    assigned_guest_names = names;
  })

-- The loop, with the keys that were seen and the guests of the households before.
unfoldable pub validate_households :
    Platform → ℕ → List Text → ℕ → List ImportHousehold → Result (List ImportHousehold)
validate_households p number seen total [] = ok []
validate_households p number seen total (raw ∷ rest) = do
  h ← validate_household p number seen raw
  let guests = total + length h.assigned_guest_names
  reject (ltb max_import_rows guests)
      (validation "import exceeds the %d assigned guest limit" (num max_import_rows ∷ []))
  hs ← validate_households p (suc number) (h.household_key ∷ seen) guests rest
  ok (h ∷ hs)

unfoldable pub validate_import_commit :
    Platform → List ImportHousehold → Result (List ImportHousehold)
validate_import_commit p households = do
  reject (length households == 0) (validation "at least one household is required" [])
  reject (ltb max_import_households (length households))
      (validation "import exceeds the %d household limit" (num max_import_households ∷ []))
  validate_households p 1 [] 0 households
