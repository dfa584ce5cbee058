-- ===== src/Invitation/Delivery/Keeps.antt =====
-- A delivery reads the tables and writes none.
use owl_invites.Base.{Bool, ◌≡◌, refl, Option, none, some, arith, Error, if◌then◌else◌, true, false}
use owl_invites.Text.{Text, lit, text_eq}
use owl_invites.Platform.{Platform}
use owl_invites.Event.Store.{lift}
use owl_invites.Invitation.Database.{Invitation}
use owl_invites.Invitation.Mail.{Mail}
use owl_invites.Invitation.Action.{Conn, Action, ◌>>=◌, Sender, send, bind-view}
use owl_invites.Invitation.Store.Sessions.{find_by_id}
use owl_invites.Invitation.Delivery.{
  Service, unless_revoked, email_route, sms_route, household_event, failing, sms_mail, email_mail,
  deliver_sms, deliver_email, deliver_by, deliver, private_access_url,
}

-- An action that leaves the tables as they are.
abbrev pub Keeps {ℓ} : {A : Type ℓ} → Action A → Type 0
Keeps m = (s : Conn) → (m s).1.db ≡ s.db

pub bind-Keeps {ℓ κ} :
    {A : Type ℓ} {B : Type κ} (m : Action A) (f : A → Action B)
    → Keeps m
    → ((a : A) → Keeps (f a))
    → Keeps (m >>= f)
bind-Keeps m f h k = bind-view (λ db. db) m f h k

household_event-Keeps : (id : Text) → Keeps (household_event id)
unfolding household_event find_by_id
household_event-Keeps id s = ground arith

failing-Keeps : (outcome : Option Error) → Keeps (failing outcome)
failing-Keeps none s = refl
failing-Keeps (some e) s = refl

sent-Keeps : (sender : Sender) (m : Mail) → Keeps (send sender m >>= failing)
sent-Keeps sender m = bind-Keeps (send sender m) failing (λ s. refl) failing-Keeps

deliver_sms-Keeps : (p : Platform) (svc : Service) (i : Invitation) → Keeps (deliver_sms p svc i)
unfolding deliver_sms
deliver_sms-Keeps p svc i =
    bind-Keeps (lift (sms_route svc i)) _ (λ s. refl)
      λ r.
        bind-Keeps (household_event i.id) _ (household_event-Keeps i.id)
          λ event. sent-Keeps r.1 (sms_mail p svc i event r.0)

deliver_email-Keeps :
    (p : Platform) (svc : Service) (i : Invitation) → Keeps (deliver_email p svc i)
unfolding deliver_email
deliver_email-Keeps p svc i =
    bind-Keeps (lift (email_route svc i)) _ (λ s. refl)
      λ r. bind-Keeps (household_event i.id) _ (household_event-Keeps i.id) λ event.
        bind-Keeps (lift (svc.render_invitation event (private_access_url p svc i))) _ (λ s. refl)
          λ bodies. sent-Keeps r.1 (email_mail i event r.0 bodies)

choice-Keeps {ℓ} :
    {A : Type ℓ} (b : Bool) (m k : Action A) → Keeps m → Keeps k → Keeps (if b then m else k)
choice-Keeps true m k h j = h
choice-Keeps false m k h j = j

deliver_by-Keeps : (p : Platform) (svc : Service) (i : Invitation) → Keeps (deliver_by p svc i)
deliver_by-Keeps p svc i =
    choice-Keeps (text_eq i.preferred_delivery_method (lit "email")) (deliver_email p svc i) _
      (deliver_email-Keeps p svc i)
      (choice-Keeps (text_eq i.preferred_delivery_method (lit "sms")) (deliver_sms p svc i) _
        (deliver_sms-Keeps p svc i) (λ s. refl))

unless_revoked-Keeps : (found : Option Invitation) → Keeps (unless_revoked found)
unless_revoked-Keeps none s = refl
unless_revoked-Keeps (some i) s = ground arith

find_by_id-Keeps : (id : Text) → Keeps (find_by_id id)
unfolding find_by_id
find_by_id-Keeps id s = ground arith

pub deliver-Keeps : (p : Platform) (svc : Service) (id : Text) → Keeps (deliver p svc id)
unfolding deliver
deliver-Keeps p svc id = bind-Keeps (find_by_id id) _ (find_by_id-Keeps id) λ found.
    bind-Keeps (unless_revoked found) _ (unless_revoked-Keeps found) (deliver_by-Keeps p svc)
