-- ===== src/Invitation/Store/Enrollment/Tests.antt =====
-- An enrollment into the last place, and one too many.
use owl_invites.Base.{
  ℕ, ◌≤◌, ◌≡◌, refl, none, some, List, [], ◌∷◌, Result, ok, err, capacity_exceeded,
}
use owl_invites.Text.{Text, lit, text_eq}
use owl_invites.Table.{count_where, find_where}
use owl_invites.Fixtures.{toy, conn, tables, smiths, offer}
use owl_invites.Invitation.Model.{Guest}
use owl_invites.Invitation.Database.{Invitation, OpenEnrollmentConfig}
use owl_invites.Invitation.Action.{Conn, transaction}
use owl_invites.Invitation.Store.Rows.{
  insert_invitation, insert_response, insert_guests, insert_pending, insert_guest, has_invitation,
  has_guest,
}
use owl_invites.Invitation.Store.Sessions.{create_session_row}
use owl_invites.Invitation.Store.Enrollment.{
  enroll_open, check_open, check_row, check_capacity, insert_open, insert_members, is_enrolled,
  allocated,
}
use owl_invites.Invitation.Store.Enrollment.Proofs.{enroll_open-within, Admits}

computes : Unit {0}
unfolding lit text_eq count_where find_where transaction insert_invitation insert_response
    insert_guests insert_pending insert_guest has_invitation has_guest create_session_row
    enroll_open check_open check_row check_capacity insert_open insert_members is_enrolled
computes = tt

abbrev lee : Text → Guest
lee id = record {
  id = id;
  invitation_id = [];
  name = lit "Lee";
  origin = lit "assigned";
  sort_order = 0;
  attendance = [];
}

abbrev household : Invitation
household = record smiths { id = lit "i9"; contact_email = none }

abbrev enrolled : List Guest → Result (Unit {0}) × Conn
enrolled guests = enroll_open toy offer household guests (lit "s") 9 5 conn

fits : (enrolled (lee (lit "g9") ∷ [])).0 ≡ ok tt
unfolding computes
fits = refl

too_many : (enrolled (lee (lit "g8") ∷ lee (lit "g9") ∷ [])).0 ≡ err capacity_exceeded
unfolding computes
too_many = refl

enroll_open-within_example :
    (r : OpenEnrollmentConfig) × Admits tables offer.id 1 5 r
    × ((capacity : ℕ)
        → r.capacity ≡ some capacity
        → allocated offer.id
            (enrolled (lee (lit "g9") ∷ [])).1.db.invitations
            (enrolled (lee (lit "g9") ∷ [])).1.db.guests
          ≤ capacity)
unfolding has_invitation lit text_eq
enroll_open-within_example =
    enroll_open-within toy offer household (lee (lit "g9") ∷ []) (lit "s") 9 5 conn (refl, tt) fits
