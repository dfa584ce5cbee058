-- ===== src/Invitation/Store/Create/Tests.antt =====
-- An import of one household, and one that is refused behind a household that was inserted.
use owl_invites.Base.{◌≡◌, refl, none, List, [], ◌∷◌, ◌++◌, Result, ok, err, internal}
use owl_invites.Text.{lit, text_eq}
use owl_invites.Fixtures.{toy, conn, smiths}
use owl_invites.Invitation.Model.{Guest}
use owl_invites.Invitation.Action.{Conn, transaction}
use owl_invites.Invitation.Store.Rows.{
  insert_invitation, insert_response, insert_guests, insert_pending, insert_guest, has_invitation,
  has_guest,
}
use owl_invites.Invitation.Store.Create.{
  ImportRecord, import_records, insert_households, insert_household,
}
use owl_invites.Invitation.Store.Create.Proofs.{import_records-rows, new_rows, new_guests}

abbrev ann : Guest
ann = record {
  id = lit "g7";
  invitation_id = [];
  name = lit "Ann";
  origin = lit "assigned";
  sort_order = 0;
  attendance = [];
}

abbrev garcia : ImportRecord
garcia = record {
  invitation = record smiths { id = lit "i7"; contact_email = none };
  guests = ann ∷ [];
}

abbrev imported : List ImportRecord → Result (Unit {0}) × Conn
imported records = import_records toy records 5 conn

computes : Unit {0}
unfolding lit text_eq transaction insert_invitation insert_response insert_guests insert_pending
    insert_guest has_invitation has_guest insert_household insert_households import_records
computes = tt

fits : (imported (garcia ∷ [])).0 ≡ ok tt
unfolding computes
fits = refl

taken : (imported (garcia ∷ garcia ∷ [])).0 ≡ err (internal "import invitation")
unfolding computes
taken = refl

import_records-rows_example :
    ((imported (garcia ∷ [])).1.db.invitations ≡ conn.db.invitations ++ new_rows toy (garcia ∷ []))
    × ((imported (garcia ∷ [])).1.db.guests ≡ conn.db.guests ++ new_guests (garcia ∷ []))
import_records-rows_example = import_records-rows toy (garcia ∷ []) 5 conn fits
