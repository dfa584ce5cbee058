-- ===== src/Invitation/Open/Tests.antt =====
-- An open capability and a private invitation on the fixtures.
use owl_invites.Base.{◌≡◌, refl, true, false, none, some, [], ◌∷◌, pos, ok}
use owl_invites.Text.{Text, lit, text_eq}
use owl_invites.Text.Trim.{trim_space}
use owl_invites.Text.Number.{itoa, atoi}
use owl_invites.Text.Split.{split, join}
use owl_invites.Text.Base64.{base64}
use owl_invites.Table.{find_where}
use owl_invites.Fixtures.{toy, conn, offer}
use owl_invites.Invitation.Capability.{sign, open_capability, parse, parse_open}
use owl_invites.Invitation.Contact.{validate_contact, validate_email, validate_phone}
use owl_invites.Invitation.Model.{guest_origin_assigned, attendance_pending}
use owl_invites.Invitation.Action.{transaction}
use owl_invites.Invitation.Store.Enrollment.{
  before_opening, not_before_closing, find_open_by_access_id,
}
use owl_invites.Invitation.Store.Create.{create, insert_household}
use owl_invites.Invitation.Store.Rows.{
  insert_invitation, insert_response, insert_guests, has_invitation, insert_pending, has_guest,
}
use owl_invites.Invitation.Broadcast.Tests.{mailer}
use owl_invites.Invitation.Private.{
  CreateRequest, CreateResult, create_private, named_guests, created, private_row, not_requested,
}
use owl_invites.Invitation.Private.Proofs.{IsCreated, create_private-IsCreated}
use owl_invites.Invitation.Open.{valid_open}
use owl_invites.Invitation.Open.Proofs.{valid_open_sound}

abbrev open_raw : Text
open_raw = open_capability toy.hmac mailer.signer (lit "open") 1

opens : (valid_open toy mailer open_raw 5 conn).0 ≡ ok offer
unfolding valid_open open_capability parse_open parse sign lit text_eq itoa atoi split join base64
    find_open_by_access_id find_where
opens = refl

valid_open_sound_example :
    (parse_open toy.hmac mailer.signer open_raw ≡ ok (offer.access_id, offer.token_version))
    × (find_where (λ r. text_eq r.access_id offer.access_id) conn.db.open_enrollments ≡ some offer)
    × (offer.enabled ≡ true)
    × (offer.revoked_at ≡ none)
    × (before_opening 5 offer.opens_at ≡ false)
    × (not_before_closing 5 offer.closes_at ≡ false)
valid_open_sound_example = valid_open_sound toy mailer open_raw 5 conn opens

abbrev ask : CreateRequest
ask = record {
  label = lit "Lees";
  contact_email = none;
  contact_phone = none;
  preferred_delivery_method = lit "none";
  additional_guest_allowance = pos 2;
  assigned_guest_names = lit "Kim" ∷ [];
  send = false;
}

abbrev lees : CreateResult
lees =
    created toy mailer
      (private_row (2 ∷ []) (lit "e1") (lit "u1") (lit "Lees")
        (record { email = none; phone = none; method = lit "none" }) 2 (base64 (0 ∷ [])))
      (record {
        id = 3 ∷ [];
        invitation_id = 2 ∷ [];
        name = lit "Kim";
        origin = guest_origin_assigned;
        sort_order = 0;
        attendance = attendance_pending;
      }
        ∷ [])
      not_requested

creates : (create_private toy mailer (lit "e1") (lit "u1") ask 5 conn).0 ≡ ok lees
unfolding create_private named_guests create insert_household insert_invitation insert_response
    insert_guests transaction validate_contact validate_email validate_phone trim_space lit text_eq
    has_invitation insert_pending has_guest
creates = refl

create_private-IsCreated_example :
    IsCreated toy
      (lit "e1")
      (lit "u1")
      ask
      conn.db
      (create_private toy mailer (lit "e1") (lit "u1") ask 5 conn).1.db
      lees
create_private-IsCreated_example =
    create_private-IsCreated toy mailer (lit "e1") (lit "u1") ask 5 conn creates
