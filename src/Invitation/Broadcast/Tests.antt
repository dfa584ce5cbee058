-- ===== src/Invitation/Broadcast/Tests.antt =====
-- Deliveries to the household of the fixtures.
use owl_invites.Base.{◌≡◌, none, some, List, [], ◌++◌, All, ok}
use owl_invites.Text.{lit}
use owl_invites.Text.Trim.{trim_space}
use owl_invites.Fixtures.{toy, conn}
use owl_invites.Invitation.Mail.{Mail}
use owl_invites.Invitation.Delivery.{Service, deliver}
use owl_invites.Invitation.Delivery.Proofs.{Outcome, deliver-stored}
use owl_invites.Invitation.Store.Recovery.{sqlite}
use owl_invites.Invitation.RecoveryRequest.{normalized_contact, request_recovery}
use owl_invites.Invitation.RecoveryRequest.Proofs.{IsMatched, request_recovery-stored}
use owl_invites.Invitation.Broadcast.{MessageRequest, broadcast_detailed}
use owl_invites.Invitation.Broadcast.Proofs.{IsStored, Agrees, group_of, broadcast_detailed-honest}

abbrev pub mailer : Service
mailer = record {
  signer = record { key = lit "k" };
  base_url = lit "https://x";
  recovery_expiry = 60;
  send_email = some (λ n m. none);
  send_sms = none;
  sms_sender_name = [];
  render_invitation = λ event url. ok (url, url);
}

abbrev news : MessageRequest
news = record { recipient_group = []; subject = lit "News"; body = lit "Bring cake." }

broadcast_detailed-honest_example :
    (mails : List Mail) × ((broadcast_detailed toy mailer (lit "e1") none news 5 conn).1.sent
      ≡ conn.sent ++ mails)
    × All (IsStored (lit "e1") conn.db) mails
    × Agrees
        (lit "e1")
        (group_of news)
        conn.db
        mails
        (broadcast_detailed toy mailer (lit "e1") none news 5 conn).0
broadcast_detailed-honest_example = broadcast_detailed-honest toy mailer (lit "e1") none news 5 conn

deliver-stored_example :
    (mails : List Mail) × ((deliver toy mailer (lit "i1") conn).1.sent ≡ conn.sent ++ mails)
    × Outcome (lit "i1") conn.db (deliver toy mailer (lit "i1") conn).0 mails
deliver-stored_example = deliver-stored toy mailer (lit "i1") conn

request_recovery-stored_example :
    (mails : List Mail) × ((request_recovery toy mailer sqlite 5 6
        (λ n. 7)
        (lit "e1")
        (lit "s@x.org")
        (lit "ip")
        conn).1.sent
      ≡ conn.sent ++ mails)
    × All
        (IsMatched
          (trim_space (lit "e1"))
          (normalized_contact toy (trim_space (lit "s@x.org")))
          conn.db.invitations)
        mails
request_recovery-stored_example =
    request_recovery-stored toy mailer sqlite 5 6 (λ n. 7) (lit "e1") (lit "s@x.org") (lit "ip")
      conn
