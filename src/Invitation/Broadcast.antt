-- ===== src/Invitation/Broadcast.antt =====
-- internal/invitation/service.go: a message of the organizer to the households of a group, over
-- `ListDeliveryTargets` and `CreateMessage` of internal/invitation/store.go. The query orders the
-- targets by their creation, which is the order of the rows.
pub mod Proofs
pub mod Tests
use owl_invites.Base.{
  ℕ, suc, Bool, true, false, not, ◌&&◌, ◌||◌, Option, none, some, List, [], ◌∷◌, ◌++◌, length, ltb,
  any, if◌then◌else◌, Result, ok, err, Error, delivery_suppressed, wrapped, validation, plain, num,
}
use owl_invites.Text.{Text, lit, text_eq}
use owl_invites.Text.Trim.{trim_space}
use owl_invites.Text.Html.{escape_string}
use owl_invites.Table.{select_where}
use owl_invites.Platform.{Platform}
use owl_invites.Event.Store.{lift}
use owl_invites.Invitation.Contact.{is_none}
use owl_invites.Invitation.Database.{Db, Invitation, InvitationMessage}
use owl_invites.Invitation.Mail.{email, Mail}
use owl_invites.Invitation.Action.{
  Action, ◌>>=◌, ◌>>◌, pure, fail, reject, query, exec, new_id, Sender, send,
}
use owl_invites.Invitation.Service.{validate_recipient_group}
use owl_invites.Invitation.Delivery.{Service, private_access_url}

pub record MessageRequest : Type 0 where
  pub recipient_group : Text
  pub subject : Text
  pub body : Text

pub record MessageResult : Type 0 where
  pub attempted : ℕ
  pub accepted : ℕ
  pub failed : ℕ
  pub skipped : ℕ

pub record MessagePreview : Type 0 where
  pub recipient_group : Text
  pub recipient_households : ℕ

-- `EXISTS`: a guest of the household who is not removed answered with that attendance.
unfoldable pub has_attendance : Text → Db → Invitation → Bool
has_attendance group db i =
    any
      (λ g.
        text_eq g.invitation_id i.id
        && is_none g.removed_at
        && any (λ r. text_eq r.guest_id g.id && text_eq r.attendance group) db.guest_responses)
      db.guests

abbrev pub is_addressable : Text → Invitation → Bool
is_addressable event_id i =
    text_eq i.event_id event_id
    && is_none i.revoked_at
    && not (is_none i.contact_email)
    && text_eq i.preferred_delivery_method (lit "email")

abbrev pub is_target : Text → Text → Db → Invitation → Bool
is_target event_id group db i =
    is_addressable event_id i && (text_eq group (lit "all") || has_attendance group db i)

abbrev pub targets_in : Text → Text → Db → List Invitation
targets_in event_id group db = select_where (is_target event_id group db) db.invitations

abbrev pub list_delivery_targets : Text → Text → Action (List Invitation)
list_delivery_targets event_id group =
    query "list invitation delivery targets: %w" (targets_in event_id group)

abbrev pub create_message : Platform → Text → Option Text → MessageRequest → ℕ → Action (Unit {0})
create_message p event_id sender_user_id req now = do
  id ← new_id p
  exec "create invitation message: %w" (λ db. record db {
    invitation_messages =
        db.invitation_messages
        ++ record {
          id = id;
          event_id = event_id;
          sender_user_id = sender_user_id;
          recipient_group = req.recipient_group;
          subject = req.subject;
          body = req.body;
          created_at = now;
        }
          ∷ [];
  })

-- `errors.Is(err, ErrDeliverySuppressed)`
unfoldable pub is_suppressed : Error → Bool
is_suppressed delivery_suppressed = true
is_suppressed (wrapped format args e) = is_suppressed e
is_suppressed _ = false

module _ (p : Platform) (svc : Service) (event_id : Text) (req : MessageRequest) where
  abbrev pub message_mail : Invitation → Text → Mail
  message_mail i to =
      let url = private_access_url p svc i in
      record {
        channel = email;
        event_id = event_id;
        invitation_id = i.id;
        to = to;
        subject = req.subject;
        html_body =
            lit "<p>"
            ++ escape_string req.body
            ++ lit "</p><p><a href="
            ++ 34 ∷ (escape_string url ++ 34 ∷ lit ">Manage your private invitation</a></p>");
        plain_body = req.body ++ 10 ∷ 10 ∷ lit "Manage your private invitation:" ++ 10 ∷ url;
      }

  abbrev pub counted : Option Error → MessageResult → MessageResult
  counted none r = record r { attempted = suc r.attempted; accepted = suc r.accepted }
  counted (some e) r =
      if is_suppressed e
      then record r { attempted = suc r.attempted; skipped = suc r.skipped }
      else record r { attempted = suc r.attempted; failed = suc r.failed }

  abbrev pub send_to : Sender → Invitation → Option Text → MessageResult → Action MessageResult
  send_to sender i none r = pure (record r { skipped = suc r.skipped })
  send_to sender i (some to) r = do
    outcome ← send sender (message_mail i to)
    pure (counted outcome r)

  abbrev pub send_one : Sender → Invitation → MessageResult → Action MessageResult
  send_one sender i r =
      if text_eq i.preferred_delivery_method (lit "email")
      then send_to sender i i.contact_email r
      else pure (record r { skipped = suc r.skipped })

  -- The loop over the targets.
  unfoldable pub send_all : Sender → List Invitation → MessageResult → Action MessageResult
  send_all sender [] r = pure r
  send_all sender (i ∷ is) r = do r' ← send_one sender i r; send_all sender is r'

abbrev pub no_result : MessageResult
no_result = record { attempted = 0; accepted = 0; failed = 0; skipped = 0 }

abbrev pub configured : Option Sender → Action Sender
configured none = fail (plain "invitation email delivery is not configured" [])
configured (some sender) = pure sender

abbrev pub trimmed_request : Text → MessageRequest → MessageRequest
trimmed_request group req = record {
  recipient_group = group;
  subject = trim_space req.subject;
  body = trim_space req.body;
}

abbrev pub check_message : MessageRequest → Result (Unit {0})
check_message req =
    if text_eq req.subject [] || ltb 200 (length req.subject)
    then err (validation "subject is required and must be 200 characters or fewer" [])
    else if text_eq req.body [] || ltb 10000 (length req.body)
    then err (validation "body is required and must be 10000 characters or fewer" [])
    else ok tt

abbrev pub send_message :
    Platform → Service → Text → Option Text → MessageRequest → ℕ → Action MessageResult
send_message p svc event_id sender_user_id req now = do
  lift (check_message req)
  sender ← configured svc.send_email
  targets ← list_delivery_targets event_id req.recipient_group
  create_message p event_id sender_user_id req now
  send_all p svc event_id req sender targets no_result

unfoldable pub broadcast_detailed :
    Platform → Service → Text → Option Text → MessageRequest → ℕ → Action MessageResult
broadcast_detailed p svc event_id sender_user_id req now = do
  group ← lift (validate_recipient_group (trim_space req.recipient_group))
  send_message p svc event_id sender_user_id (trimmed_request group req) now

-- `Broadcast` gives the count beside its error.
unfoldable pub broadcast :
    Platform → Service → Text → Option Text → MessageRequest → ℕ → Action (ℕ × Option Error)
broadcast p svc event_id sender_user_id req now = do
  r ← broadcast_detailed p svc event_id sender_user_id req now
  pure (
    r.accepted,
    if ltb 0 r.failed
        then some (plain "%d invitation deliveries failed" (num r.failed ∷ []))
        else none,
  )

unfoldable pub preview_broadcast : Text → Text → Action MessagePreview
preview_broadcast event_id raw_group = do
  group ← lift (validate_recipient_group raw_group)
  targets ← list_delivery_targets event_id group
  pure (record { recipient_group = group; recipient_households = length targets })
