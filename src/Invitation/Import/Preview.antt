-- ===== src/Invitation/Import/Preview.antt =====
-- `PreviewImportCSV` and `validateImportHeader`. The map from keys to accumulators and the list of
-- the keys in their order are one list of accumulators.
use owl_invites.Base.{
  ℕ, suc, ◌+◌, Bool, not, ◌&&◌, Option, none, some, List, [], ◌∷◌, ◌++◌, ◌==◌, leb, ltb, length,
  get_elem?, if◌then◌else◌, Error, validation, str, num,
}
use owl_invites.Text.{Text, lit, text_eq}
use owl_invites.Text.Trim.{trim_space}
use owl_invites.Text.Case.{to_lower}
use owl_invites.Map.{Map, lookup, insert, text_or, contains}
use owl_invites.Table.{find_where}
use owl_invites.Platform.{Platform, CsvRead, columns, malformed}
use owl_invites.Invitation.Contact.{is_none}
use owl_invites.Invitation.Import.Row.{
  ImportIssue, ImportHousehold, ImportRow, validate_import_row, row_household, household_conflicts,
  max_import_bytes, max_import_rows, max_import_households, max_household_guests,
}

abbrev import_columns : List Text
import_columns =
    lit "household_key"
    ∷ lit "household_label"
    ∷ lit "contact_email"
    ∷ lit "contact_phone"
    ∷ lit "preferred_delivery"
    ∷ lit "additional_guest_allowance"
    ∷ lit "guest_name"
    ∷ []

abbrev required_import_columns : List Text
required_import_columns =
    lit "household_key"
    ∷ lit "household_label"
    ∷ lit "preferred_delivery"
    ∷ lit "additional_guest_allowance"
    ∷ lit "guest_name"
    ∷ []

abbrev pub issue : ℕ → Text → Error → List ImportIssue
issue row field message = record { row = row; field = field; message = message } ∷ []

-- One column of the header.
abbrev header_column : Platform → ℕ → Text → Map ℕ × List ImportIssue → Map ℕ × List ImportIssue
header_column p index raw (indexes, issues) =
    let column = trim_space (to_lower p.table raw) in
    if text_eq column []
    then (indexes, issues ++ issue 0 [] (validation "CSV contains a blank header" []))
    else if not (contains import_columns column)
    then (indexes, issues ++ issue 0 column (validation "unsupported CSV column" []))
    else if not (is_none (lookup column indexes))
    then (indexes, issues ++ issue 0 column (validation "duplicate CSV header" []))
    else (insert column index indexes, issues)

unfoldable pub header_columns :
    Platform → ℕ → List Text → Map ℕ × List ImportIssue → Map ℕ × List ImportIssue
header_columns p index [] r = r
header_columns p index (raw ∷ header) r =
    header_columns p (suc index) header (header_column p index raw r)

unfoldable pub missing_columns : List Text → Map ℕ → List ImportIssue
missing_columns [] indexes = []
missing_columns (c ∷ cs) indexes =
    (if is_none (lookup c indexes)
      then issue 0 c (validation "required CSV column is missing" [])
      else [])
    ++ missing_columns cs indexes

unfoldable pub validate_import_header : Platform → List Text → Map ℕ × List ImportIssue
validate_import_header p header =
    let (indexes, issues) = header_columns p 0 header ([], []) in
    (indexes, issues ++ missing_columns required_import_columns indexes)

-- A column of a record; the records that are read have the columns of the header.
abbrev pub value_at : List Text → Option ℕ → Text
value_at found none = []
value_at found (some index) = trim_space (text_or (get_elem? found index))

abbrev pub value : Map ℕ → List Text → Text → Text
value indexes found column = value_at found (lookup column indexes)

unfoldable pub import_row : Platform → Map ℕ → List Text → ImportRow
import_row p indexes fields = record {
  key = value indexes fields (lit "household_key");
  label = value indexes fields (lit "household_label");
  email = value indexes fields (lit "contact_email");
  phone = value indexes fields (lit "contact_phone");
  method = to_lower p.table (value indexes fields (lit "preferred_delivery"));
  allowance = value indexes fields (lit "additional_guest_allowance");
  guest_name = value indexes fields (lit "guest_name");
}

pub record Accumulator : Type 0 where
  pub household : ImportHousehold
  pub first_row : ℕ

-- What the loop over the rows changes.
pub record Progress : Type 0 where
  pub accumulators : List Accumulator
  pub email_keys : Map (List Text)
  pub errors : List ImportIssue

abbrev add_errors : List ImportIssue → Progress → Progress
add_errors issues s = record s { errors = s.errors ++ issues }

abbrev add_key : Text → Option (List Text) → List Text
add_key key none = key ∷ []
add_key key (some keys) = if contains keys key then keys else key ∷ keys

abbrev pub note_email : ImportHousehold → Progress → Progress
note_email h s = elim h.contact_email [
  | none ↦ s
  | some email ↦ record s {
    email_keys = insert email (add_key h.household_key (lookup email s.email_keys)) s.email_keys;
  }
]

abbrev conflict_issues : ℕ → Accumulator → Text → List Text → List ImportIssue
conflict_issues row a key [] = []
conflict_issues row a key (field ∷ rest) =
    issue row field (
      validation "conflicts with household %q first defined on row %d"
        (str key ∷ num a.first_row ∷ []))
    ++ conflict_issues row a key rest

abbrev pub has_key : Text → Accumulator → Bool
has_key key a = text_eq a.household.household_key key

abbrev pub add_names : List Text → Accumulator → Accumulator
add_names names a = record a {
  household = record a.household {
    assigned_guest_names = a.household.assigned_guest_names ++ names;
  };
}

unfoldable pub extend : Text → List Text → List Accumulator → List Accumulator
extend key names [] = []
extend key names (a ∷ others) =
    let rest = extend key names others in
    if has_key key a then add_names names a ∷ others else a ∷ rest

-- A household that stands on an earlier row: the fields must agree, and the guest must fit.
abbrev pub join_household : ℕ → ImportHousehold → Accumulator → List Text → Progress → Progress
join_household row h a (c ∷ cs) s = add_errors (conflict_issues row a h.household_key (c ∷ cs)) s
join_household row h a [] s =
    if leb max_household_guests (length a.household.assigned_guest_names)
    then add_errors
        (issue row (lit "guest_name") (
          validation "household %q exceeds the %d assigned guest limit"
            (str h.household_key ∷ num max_household_guests ∷ [])))
        s
    else note_email h
        (record s { accumulators = extend h.household_key h.assigned_guest_names s.accumulators })

unfoldable pub add_household : ℕ → ImportHousehold → Option Accumulator → Progress → Progress
add_household row h none s =
    if leb max_import_households (length s.accumulators)
    then add_errors
        (issue row (lit "household_key")
          (validation "CSV exceeds the %d household limit" (num max_import_households ∷ [])))
        s
    else note_email h (record s {
      accumulators = s.accumulators ++ record { household = h; first_row = row } ∷ [];
    })
add_household row h (some a) s = join_household row h a (household_conflicts a.household h) s

abbrev pub accept_row : Platform → ℕ → ImportRow → List ImportIssue → Progress → Progress
accept_row p row r [] s =
    let h = row_household p r in
    add_household row h (find_where (has_key h.household_key) s.accumulators) s
accept_row p row r (i ∷ is) s = add_errors (i ∷ is) s

unfoldable pub add_row : Platform → ℕ → ImportRow → Progress → Progress
add_row p row r s = accept_row p row r (validate_import_row p row r) s

-- A record; one with other columns than the header is left out.
abbrev pub add_record : Platform → ℕ → Map ℕ → ℕ → List Text → Progress → Progress
add_record p width indexes row fields s =
    if length fields == width
    then add_row p row (import_row p indexes fields) s
    else add_errors
        (issue row []
          (validation "expected %d columns, found %d" (num width ∷ num (length fields) ∷ [])))
        s

-- The loop; `n` data rows were read, the header and the row that is looked at among them.
unfoldable pub add_rows : Platform → ℕ → Map ℕ → ℕ → List CsvRead → Progress → Progress
add_rows p width indexes n [] s = s
add_rows p width indexes n (malformed e ∷ rs) s =
    add_errors (issue (suc n) [] (validation "malformed CSV: %s" (str e ∷ []))) s
add_rows p width indexes n (columns f ∷ rs) s =
    let rest = add_rows p width indexes (suc n) rs (add_record p width indexes (suc n) f s) in
    if ltb max_import_rows n
    then add_errors
        (issue 0 [] (validation "CSV exceeds the %d data row limit" (num max_import_rows ∷ []))) s
    else rest

pub record ImportPreview : Type 0 where
  pub household_count : ℕ
  pub assigned_guest_count : ℕ
  pub households : List ImportHousehold
  pub errors : List ImportIssue
  pub warnings : List ImportIssue

unfoldable pub households_of : List Accumulator → List ImportHousehold
households_of [] = []
households_of (a ∷ rest) = a.household ∷ households_of rest

unfoldable pub guest_count : List ImportHousehold → ℕ
guest_count [] = 0
guest_count (h ∷ hs) = length h.assigned_guest_names + guest_count hs

pub email_warnings : Map (List Text) → List ImportIssue
email_warnings [] = []
email_warnings ((email, keys) ∷ rest) =
    (if ltb 1 (length keys)
      then issue 0 (lit "contact_email") (
          validation "%s is used by %d households; they will remain separate invitations"
            (str email ∷ num (length keys) ∷ []))
      else [])
    ++ email_warnings rest

-- A preview that was given up before any row.
abbrev pub refused : List ImportIssue → ImportPreview
refused issues = record {
  household_count = 0;
  assigned_guest_count = 0;
  households = [];
  errors = issues;
  warnings = [];
}

abbrev pub finish_preview : Progress → ImportPreview
finish_preview s =
    let households = households_of s.accumulators in
    record {
      household_count = length households;
      assigned_guest_count = guest_count households;
      households = households;
      errors = s.errors;
      warnings = email_warnings s.email_keys;
    }

abbrev pub preview_rows :
    Platform → List Text → List CsvRead → Map ℕ × List ImportIssue → ImportPreview
preview_rows p header rs (indexes, i ∷ is) = refused (i ∷ is)
preview_rows p header rs (indexes, []) = finish_preview (
    add_rows p (length header) indexes 1 rs
      (record { accumulators = []; email_keys = []; errors = [] }))

abbrev pub preview_records : Platform → List CsvRead → ImportPreview
preview_records p [] = refused (issue 0 [] (validation "CSV is empty" []))
preview_records p (malformed e ∷ rs) =
    refused (issue 0 [] (validation "malformed CSV header: %s" (str e ∷ [])))
preview_records p (columns header ∷ rs) = preview_rows p header rs (validate_import_header p header)

abbrev pub preview_utf8 : Platform → Text → ImportPreview
preview_utf8 p bytes =
    if p.valid_utf8 bytes
    then preview_records p (p.csv_records bytes)
    else refused (issue 0 [] (validation "CSV must be valid UTF-8" []))

-- A byte order mark is dropped.
abbrev pub drop_mark : Text → Text
drop_mark (a ∷ b ∷ c ∷ rest) = if a == 239 && b == 187 && c == 191 then rest else a ∷ b ∷ c ∷ rest
drop_mark bytes = bytes

unfoldable pub preview_import_csv : Platform → Text → ImportPreview
preview_import_csv p bytes =
    if ltb max_import_bytes (length bytes)
    then refused
        (issue 0 [] (validation "CSV file exceeds the %d byte limit" (num max_import_bytes ∷ [])))
    else preview_utf8 p (drop_mark bytes)
