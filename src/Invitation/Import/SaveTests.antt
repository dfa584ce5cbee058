-- ===== src/Invitation/Import/SaveTests.antt =====
-- The commit of one household.
use owl_invites.Base.{◌≡◌, refl, none, some, List, [], ◌∷◌, ◌++◌, ok}
use owl_invites.Text.{lit, text_eq}
use owl_invites.Text.Trim.{trim_space}
use owl_invites.Text.Case.{to_lower}
use owl_invites.Base.{pos}
use owl_invites.Map.{contains}
use owl_invites.Fixtures.{toy, conn}
use owl_invites.Invitation.Contact.{
  validate_contact, validate_email, validate_phone, normalize_email, normalize_phone,
}
use owl_invites.Invitation.Action.{transaction}
use owl_invites.Invitation.Store.Rows.{
  insert_invitation, insert_response, insert_guests, insert_pending, insert_guest, has_invitation,
  has_guest,
}
use owl_invites.Invitation.Store.Create.{
  ImportRecord, import_records, insert_households, insert_household,
}
use owl_invites.Invitation.Store.Create.Proofs.{new_rows, new_guests}
use owl_invites.Invitation.Import.Row.{ImportHousehold}
use owl_invites.Invitation.Import.Preview.{guest_count}
use owl_invites.Invitation.Import.Commit.{
  validate_import_commit, validate_households, validate_household, trim_names,
}
use owl_invites.Invitation.Import.Save.{
  commit_import, build_records, import_record, guests_of, ImportCommitResult, ids_of,
}
use owl_invites.Invitation.Import.Proofs.Saved.{AreRecordsOf, commit_import-AreRecordsOf}

abbrev lopez : ImportHousehold
lopez = record {
  household_key = lit "lopez";
  household_label = lit " Lopez ";
  contact_email = some (lit "L@x.org");
  contact_phone = none;
  preferred_delivery = lit "email";
  additional_guest_allowance = pos 0;
  assigned_guest_names = lit "Eva" ∷ lit "Max" ∷ [];
}

abbrev result : ImportCommitResult
result = record { household_count = 1; assigned_guest_count = 2; invitation_ids = (2 ∷ []) ∷ [] }

saved : (commit_import toy (lit "e1") (lit "u1") (lopez ∷ []) 5 conn).0 ≡ ok result
unfolding lit text_eq trim_space to_lower contains transaction insert_invitation insert_response
    insert_guests insert_pending insert_guest has_invitation has_guest insert_household
    insert_households import_records validate_contact validate_email validate_phone normalize_email
    normalize_phone validate_import_commit validate_households validate_household trim_names
    commit_import build_records import_record guests_of guest_count
saved = refl

commit_import-AreRecordsOf_example :
    (hs : List ImportHousehold) × (validate_import_commit toy (lopez ∷ []) ≡ ok hs)
    × ((rs : List ImportRecord) × AreRecordsOf (lit "e1") hs rs
        × (result.invitation_ids ≡ ids_of rs)
        × ((commit_import toy (lit "e1") (lit "u1") (lopez ∷ []) 5 conn).1.db.invitations
            ≡ conn.db.invitations ++ new_rows toy rs)
        × ((commit_import toy (lit "e1") (lit "u1") (lopez ∷ []) 5 conn).1.db.guests
            ≡ conn.db.guests ++ new_guests rs))
commit_import-AreRecordsOf_example =
    commit_import-AreRecordsOf toy (lit "e1") (lit "u1") (lopez ∷ []) 5 conn saved
