-- ===== src/Invitation/Private.antt =====
-- internal/invitation/service.go: an organizer creates or renews a private invitation.
pub mod Proofs
use owl_invites.Base.{
  ℕ, suc, Bool, true, false, not, ◌&&◌, ◌||◌, Option, none, some, List, [], ◌∷◌, length, ltb, leb,
  ◌==◌, if◌then◌else◌, ℤ, pos, negsuc, String, Result, ok, err, Error, validation,
}
use owl_invites.Text.{Text, lit, text_eq}
use owl_invites.Text.Trim.{trim_space}
use owl_invites.Platform.{Platform}
use owl_invites.Event.Store.{lift}
use owl_invites.Invitation.Contact.{Contact, validate_contact, is_none}
use owl_invites.Invitation.Database.{Invitation}
use owl_invites.Invitation.Model.{Guest, guest_origin_assigned, source_private}
use owl_invites.Invitation.Action.{Conn, Action, ◌>>=◌, ◌>>◌, pure, call, new_id, random_token}
use owl_invites.Invitation.Store.Sessions.{rotate}
use owl_invites.Invitation.Store.Create.{create}
use owl_invites.Invitation.Delivery.{Service, private_access_url, deliver}

pub record CreateRequest : Type 0 where
  pub label : Text
  pub contact_email : Option Text
  pub contact_phone : Option Text
  pub preferred_delivery_method : Text
  pub additional_guest_allowance : ℤ
  pub assigned_guest_names : List Text
  pub send : Bool

pub record DeliveryResult : Type 0 where
  pub status : Text
  pub warning : Text
  pub error : Option Error

pub record CreateResult : Type 0 where
  pub invitation : Invitation
  pub guests : List Guest
  pub access_url : Text
  pub delivery : DeliveryResult

abbrev pub not_requested : DeliveryResult
not_requested = record { status = lit "not_requested"; warning = []; error = none }

abbrev pub delivery_result : Text → Result (Unit {0}) → DeliveryResult
delivery_result warning (ok u) = record { status = lit "sent"; warning = []; error = none }
delivery_result warning (err e) = record {
  status = lit "failed";
  warning = warning;
  error = some e;
}

-- A delivery that fails is reported, and fails nothing else.
abbrev pub attempt_delivery : Platform → Service → Text → Text → Action DeliveryResult
attempt_delivery p svc id warning s =
    let (r, s') = deliver p svc id s in (ok (delivery_result warning r), s')

-- The allowance as a number, if it is between 0 and 50.
abbrev pub allowance_of : ℤ → Result ℕ
allowance_of (pos n) =
    if ltb 50 n
    then err (validation "additional guest allowance must be between 0 and 50" [])
    else ok n
allowance_of (negsuc n) = err (validation "additional guest allowance must be between 0 and 50" [])

abbrev pub check_label : Text → Result (Unit {0})
check_label label =
    if text_eq label []
    then err (validation "label is required" [])
    else if ltb 200 (length label)
    then err (validation "label must be 200 characters or fewer" [])
    else ok tt

abbrev pub check_names : List Text → Result (Unit {0})
check_names names =
    if length names == 0 || ltb 100 (length names)
    then err (validation "at least one assigned guest is required" [])
    else ok tt

-- A request to send needs the contact of the method.
abbrev pub check_send : Bool → Contact → Result (Unit {0})
check_send false c = ok tt
check_send true c =
    if text_eq c.method (lit "email")
    then if is_none c.email
      then err (validation "send requires a valid contact email" [])
      else ok tt
    else if text_eq c.method (lit "sms")
    then if is_none c.phone
      then err (validation "send requires a valid contact phone" [])
      else ok tt
    else err (validation "send requires email or SMS delivery" [])

abbrev pub check_guest_name : Text → Result (Unit {0})
check_guest_name name =
    if text_eq name []
    then err (validation "assigned guest names cannot be empty" [])
    else if ltb 200 (length name)
    then err (validation "assigned guest names must be 200 characters or fewer" [])
    else ok tt

-- The loop over the names: each is checked, and its guest gets an identifier.
unfoldable pub named_guests :
    Platform → (Text → Result (Unit {0})) → ℕ → List Text → Action (List Guest)
named_guests p check index [] = pure []
named_guests p check index (raw ∷ names) = do
  lift (check (trim_space raw))
  id ← new_id p
  guests ← named_guests p check (suc index) names
  pure (
      record {
        id = id;
        invitation_id = [];
        name = trim_space raw;
        origin = guest_origin_assigned;
        sort_order = index;
        attendance = [];
      }
      ∷ guests)

abbrev pub private_row : Text → Text → Text → Text → Contact → ℕ → Text → Invitation
private_row id event_id creator label contact allowance access_id = record {
  id = id;
  event_id = event_id;
  label = label;
  contact_email = contact.email;
  normalized_contact_email = none;
  contact_phone = contact.phone;
  normalized_contact_phone = none;
  preferred_delivery_method = contact.method;
  additional_guest_allowance = allowance;
  source = source_private;
  open_enrollment_id = none;
  access_id = access_id;
  token_version = 1;
  created_by_user_id = some creator;
  revoked_at = none;
  revocation_reason = none;
}

abbrev pub deliver_if : Platform → Service → Bool → Text → Action DeliveryResult
deliver_if p svc false id = pure not_requested
deliver_if p svc true id =
    attempt_delivery p svc id
      (lit "Invitation created, but delivery failed. Use the private link or retry delivery.")

abbrev pub created : Platform → Service → Invitation → List Guest → DeliveryResult → CreateResult
created p svc i guests delivery = record {
  invitation = i;
  guests = guests;
  access_url = private_access_url p svc i;
  delivery = delivery;
}

abbrev pub store_private :
    Platform → Service → Bool → Invitation → List Guest → ℕ → Action CreateResult
store_private p svc requested i guests now = do
  stored ← create p i guests now
  delivery ← deliver_if p svc requested i.id
  pure (created p svc i stored delivery)

unfoldable pub create_private :
    Platform → Service → Text → Text → CreateRequest → ℕ → Action CreateResult
create_private p svc event_id creator req now = do
  lift (check_label (trim_space req.label))
  allowance ← lift (allowance_of req.additional_guest_allowance)
  lift (check_names req.assigned_guest_names)
  contact ←
      lift (validate_contact p req.contact_email req.contact_phone req.preferred_delivery_method)
  lift (check_send req.send contact)
  access_id ← random_token p
  id ← new_id p
  guests ← named_guests p check_guest_name 0 req.assigned_guest_names
  store_private p svc req.send
      (private_row id event_id creator (trim_space req.label) contact allowance access_id) guests
      now
