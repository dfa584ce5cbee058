-- ===== src/Invitation/Import/Tests.antt =====
-- The preview of a small file, and its commit.
use owl_invites.Base.{◌≡◌, ◌≢◌, refl, sym, ◌∙◌, none, some, List, [], ◌∷◌, ok, map}
use owl_invites.Text.{lit, text_eq}
use owl_invites.Text.Trim.{trim_space}
use owl_invites.Text.Case.{to_lower, ascii_table-CaseLaws}
use owl_invites.Text.Number.{atoi}
use owl_invites.Base.{pos}
use owl_invites.Map.{lookup, insert, contains}
use owl_invites.Table.{find_where}
use owl_invites.Platform.{Platform, PlatformLaws, CsvRead, columns}
use owl_invites.Fixtures.{toy}
use owl_invites.Invitation.Contact.{
  validate_contact, validate_email, validate_phone, normalize_email, normalize_phone,
}
use owl_invites.Invitation.Import.Row.{
  ImportHousehold, validate_import_row, row_household, household_conflicts,
}
use owl_invites.Invitation.Import.Preview.{
  preview_import_csv, validate_import_header, header_columns, missing_columns, import_row, add_rows,
  add_row, add_household, households_of, guest_count, extend,
}
use owl_invites.Invitation.Import.Commit.{validate_import_commit}
use owl_invites.Invitation.Import.Proofs.Normal.{committed}
use owl_invites.Invitation.Import.Proofs.Committed.{
  IsImportable, preview_import_csv-IsImportable, preview_import_csv-validate_import_commit,
}

abbrev reads : List CsvRead
reads =
    columns (
      lit "household_key"
      ∷ lit "Household_Label"
      ∷ lit "contact_email"
      ∷ lit "preferred_delivery"
      ∷ lit "additional_guest_allowance"
      ∷ lit "guest_name"
      ∷ [])
    ∷ columns
        (lit "smith" ∷ lit "Smiths" ∷ lit "S@x.org" ∷ lit " Email" ∷ lit "1" ∷ lit "Jane" ∷ [])
    ∷ columns (lit "smith" ∷ lit "Smiths" ∷ lit "s@x.org" ∷ lit "email" ∷ lit "1" ∷ lit "John" ∷ [])
    ∷ columns (lit "smith" ∷ lit "Jones" ∷ lit "s@x.org" ∷ lit "email" ∷ lit "1" ∷ lit "Ann" ∷ [])
    ∷ []

abbrev csv_toy : Platform
csv_toy = record toy { csv_records = λ s. reads }

csv_toy-PlatformLaws : PlatformLaws csv_toy
csv_toy-PlatformLaws = record { case = ascii_table-CaseLaws; no_address = refl }

abbrev smith : ImportHousehold
smith = record {
  household_key = lit "smith";
  household_label = lit "Smiths";
  contact_email = some (lit "s@x.org");
  contact_phone = none;
  preferred_delivery = lit "email";
  additional_guest_allowance = pos 1;
  assigned_guest_names = lit "Jane" ∷ lit "John" ∷ [];
}

previewed : (preview_import_csv csv_toy []).households ≡ smith ∷ []
unfolding preview_import_csv validate_import_header header_columns missing_columns import_row
    add_rows add_row add_household households_of guest_count extend validate_import_row
    row_household household_conflicts lit text_eq trim_space to_lower atoi lookup insert contains
    find_where validate_contact validate_email validate_phone normalize_email normalize_phone
previewed = refl

some_household : (preview_import_csv csv_toy []).households ≢ []
some_household e = let f = sym previewed ∙ e in cc

preview_import_csv-IsImportable_example :
    IsImportable csv_toy (preview_import_csv csv_toy []).households
preview_import_csv-IsImportable_example =
    preview_import_csv-IsImportable csv_toy csv_toy-PlatformLaws []

preview_import_csv-validate_import_commit_example :
    validate_import_commit csv_toy (preview_import_csv csv_toy []).households
    ≡ ok (map committed (preview_import_csv csv_toy []).households)
preview_import_csv-validate_import_commit_example =
    preview_import_csv-validate_import_commit csv_toy csv_toy-PlatformLaws [] some_household
