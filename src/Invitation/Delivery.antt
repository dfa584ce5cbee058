-- ===== src/Invitation/Delivery.antt =====
-- internal/invitation/service.go: the delivery of an invitation to its stored contact.
pub mod Proofs
pub mod Keeps
use owl_invites.Base.{
  ℕ, Bool, true, false, not, ◌||◌, Option, none, some, List, [], ◌∷◌, ◌++◌, if◌then◌else◌, Result,
  ok, err, Error, validation, plain, internal, not_found,
}
use owl_invites.Text.{Text, lit, text_eq}
use owl_invites.Platform.{Platform}
use owl_invites.Table.{find_where}
use owl_invites.Event.Model.{EventRow}
use owl_invites.Event.Store.{has_id, lift}
use owl_invites.Invitation.Capability.{CapabilitySigner, private, open_capability}
use owl_invites.Invitation.Contact.{is_none}
use owl_invites.Invitation.Database.{Db, Invitation, OpenEnrollmentConfig}
use owl_invites.Invitation.Mail.{Channel, email, sms, Mail}
use owl_invites.Invitation.Action.{
  Action, ◌>>=◌, ◌>>◌, pure, fail, reject, call, query, present, Sender, send,
}
use owl_invites.Invitation.Store.Sessions.{find_by_id}

-- The senders are registered by `SetEmailSender` and `SetSMSSender`. `render_invitation` is
-- internal/notification/templates, with the event's date as it is written in its time zone.
pub record Service : Type 0 where
  pub signer : CapabilitySigner
  pub base_url : Text
  pub recovery_expiry : ℕ
  pub send_email : Option Sender
  pub send_sms : Option Sender
  pub sms_sender_name : Text
  pub render_invitation : EventRow → Text → Result (Text × Text)

abbrev pub private_access_url : Platform → Service → Invitation → Text
private_access_url p svc i =
    svc.base_url
    ++ lit "/invitation/accept#"
    ++ private p.hmac svc.signer i.access_id i.token_version

abbrev pub open_access_url : Platform → Service → OpenEnrollmentConfig → Text
open_access_url p svc c =
    svc.base_url ++ lit "/enroll#" ++ open_capability p.hmac svc.signer c.access_id c.token_version

-- `inv == nil || inv.RevokedAt != nil`
abbrev pub unless_revoked : Option Invitation → Action Invitation
unless_revoked none = fail not_found
unless_revoked (some i) = do reject (not (is_none i.revoked_at)) not_found; pure i

-- The sender of a channel and the contact that it is given.
abbrev pub route : Error → Error → Option Text → Option Sender → Result (Text × Sender)
route no_contact no_sender none sender = err no_contact
route no_contact no_sender (some to) none = err no_sender
route no_contact no_sender (some to) (some sender) = ok (to, sender)

abbrev pub email_route : Service → Invitation → Result (Text × Sender)
email_route svc i =
    route (validation "email delivery is not available for this invitation" [])
      (plain "invitation email delivery is not configured" []) i.contact_email svc.send_email

abbrev pub sms_route : Service → Invitation → Result (Text × Sender)
sms_route svc i =
    route (validation "SMS delivery is not available for this invitation" [])
      (plain "invitation SMS delivery is not configured" []) i.contact_phone svc.send_sms

-- `LoadHousehold`, of which the event is used; each of its other reads may fail too.
unfoldable pub household_event : Text → Action EventRow
household_event invitation_id = do
  found ← find_by_id invitation_id
  i ← present found not_found
  e ← query "scan invitation event: %w" (λ db. find_where (has_id i.event_id) db.events)
  event ← present e (internal "scan invitation event: %w")
  call "load household"
  pure event

abbrev pub failing : Option Error → Action (Unit {0})
failing none = pure tt
failing (some e) = fail e

abbrev pub sms_body : Service → EventRow → Text → Text
sms_body svc event url =
    (if text_eq svc.sms_sender_name [] then lit "Owl Invites" else svc.sms_sender_name)
    ++ lit ": You're invited to "
    ++ event.title
    ++ lit ". View and RSVP: "
    ++ url
    ++ 10 ∷ 10 ∷ lit "Private household link - don't share it."
    ++ 10
      ∷ lit
          "Msg frequency varies. Msg & data rates may apply. Reply STOP to opt out; HELP for help."

abbrev pub sms_mail : Platform → Service → Invitation → EventRow → Text → Mail
sms_mail p svc i event to = record {
  channel = sms;
  event_id = i.event_id;
  invitation_id = i.id;
  to = to;
  subject = [];
  html_body = [];
  plain_body = sms_body svc event (private_access_url p svc i);
}

abbrev pub email_mail : Invitation → EventRow → Text → Text × Text → Mail
email_mail i event to bodies = record {
  channel = email;
  event_id = i.event_id;
  invitation_id = i.id;
  to = to;
  subject = lit "You're invited to " ++ event.title;
  html_body = bodies.0;
  plain_body = bodies.1;
}

unfoldable pub deliver_sms : Platform → Service → Invitation → Action (Unit {0})
deliver_sms p svc i = do
  r ← lift (sms_route svc i)
  event ← household_event i.id
  outcome ← send r.1 (sms_mail p svc i event r.0)
  failing outcome

unfoldable pub deliver_email : Platform → Service → Invitation → Action (Unit {0})
deliver_email p svc i = do
  r ← lift (email_route svc i)
  event ← household_event i.id
  bodies ← lift (svc.render_invitation event (private_access_url p svc i))
  outcome ← send r.1 (email_mail i event r.0 bodies)
  failing outcome

abbrev pub deliver_by : Platform → Service → Invitation → Action (Unit {0})
deliver_by p svc i =
    if text_eq i.preferred_delivery_method (lit "email")
    then deliver_email p svc i
    else if text_eq i.preferred_delivery_method (lit "sms")
    then deliver_sms p svc i
    else fail (validation "delivery is not available for this invitation" [])

unfoldable pub deliver : Platform → Service → Text → Action (Unit {0})
deliver p svc invitation_id = do
  found ← find_by_id invitation_id
  i ← unless_revoked found
  deliver_by p svc i
