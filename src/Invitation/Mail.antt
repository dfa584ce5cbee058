-- ===== src/Invitation/Mail.antt =====
-- internal/invitation/service.go: the arguments of `EmailSender` and `SMSSender`.
use owl_invites.Text.{Text}

pub data Channel : Type 0 where
  email sms : Channel

-- A text message has no subject and no HTML.
pub record Mail : Type 0 where
  pub channel : Channel
  pub event_id : Text
  pub invitation_id : Text
  pub to : Text
  pub subject : Text
  pub html_body : Text
  pub plain_body : Text
