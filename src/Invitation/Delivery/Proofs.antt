-- ===== src/Invitation/Delivery/Proofs.antt =====
-- A delivery goes to the stored contact of an invitation that is not revoked.
use mathlib.Core.List.{append-nil}
use owl_invites.Base.{
  ℕ, ◌≡◌, refl, sym, ◌∙◌, ap, subst, ◌⊎◌, inl, inr, not, Option, none, some, List, [], ◌∷◌, ◌++◌,
  arith, Result, ok, err, Error, validation, not_found, if◌then◌else◌, Bool-cases,
}
use owl_invites.Text.{Text, lit, text_eq, text_eq_iff}
use owl_invites.Platform.{Platform}
use owl_invites.Table.{find_where}
use owl_invites.Event.Store.{lift}
use owl_invites.Invitation.Contact.{is_none}
use owl_invites.Invitation.Database.{Db, Invitation}
use owl_invites.Invitation.Mail.{Channel, email, sms, Mail}
use owl_invites.Invitation.Action.{
  Conn, Action, ◌>>=◌, ◌>>◌, pure, fail, reject, Sender, send, bind-out,
}
use owl_invites.Invitation.Store.Sessions.{find_by_id}
use owl_invites.Invitation.Delivery.{
  Service, unless_revoked, route, email_route, sms_route, household_event, failing, sms_mail,
  email_mail, deliver_sms, deliver_email, deliver_by, deliver, private_access_url,
}

-- The address of the channel that the invitation prefers.
abbrev pub IsContact : Channel → Invitation → Text → Type 0
IsContact email i to = (i.preferred_delivery_method ≡ lit "email") × (i.contact_email ≡ some to)
IsContact sms i to = (i.preferred_delivery_method ≡ lit "sms") × (i.contact_phone ≡ some to)

-- The message goes to the stored contact of the invitation.
abbrev pub IsDelivery : Invitation → Mail → Type 0
IsDelivery i m = (m.event_id ≡ i.event_id) × (m.invitation_id ≡ i.id) × IsContact m.channel i m.to

-- Nothing, or one message; one, if nothing went wrong.
abbrev pub Handed : Invitation → Result (Unit {0}) → List Mail → Type 0
Handed i (ok u) mails = (m : Mail) × (mails ≡ m ∷ []) × IsDelivery i m
Handed i (err e) mails = (mails ≡ []) ⊎ ((m : Mail) × (mails ≡ m ∷ []) × IsDelivery i m)

abbrev Delivered : Invitation → Conn → Result (Unit {0}) × Conn → Type 0
Delivered i s out = (mails : List Mail) × (out.1.sent ≡ s.sent ++ mails) × Handed i out.0 mails

stopped : (i : Invitation) (s t : Conn) (e : Error) → t.sent ≡ s.sent → Delivered i s (err e, t)
stopped i s t e same = ([], same ∙ sym (append-nil s.sent), inl refl)

pub household_event-sent : (id : Text) (s : Conn) → (household_event id s).1.sent ≡ s.sent
unfolding household_event find_by_id
household_event-sent id s = ground arith

-- The message is handed out, and its answer is the result.
sent-Delivered :
    (i : Invitation) (sender : Sender) (m : Mail) (s t : Conn)
    → t.sent ≡ s.sent
    → IsDelivery i m
    → Delivered i s ((do outcome ← send sender m; failing outcome) t)
sent-Delivered i sender m s t same good = answered (sender _ m)
  where
    answered :
        (outcome : Option Error)
        → Delivered i s (failing outcome (record t { sent = t.sent ++ m ∷ [] }))
    answered none = (m ∷ [], ap (λ l. l ++ m ∷ []) same, (m, refl, good))
    answered (some e) = (m ∷ [], ap (λ l. l ++ m ∷ []) same, inr (m, refl, good))

route-eq-ok :
    (no_contact no_sender : Error) (contact : Option Text) (sender : Option Sender)
    {r : Text × Sender}
    → route no_contact no_sender contact sender ≡ ok r
    → contact ≡ some r.0
route-eq-ok no_contact no_sender none sender h = ground arith
route-eq-ok no_contact no_sender (some to) none h = ground arith
route-eq-ok no_contact no_sender (some to) (some sender) h = ground arith

deliver_sms-Delivered :
    (p : Platform) (svc : Service) (i : Invitation) (s : Conn)
    → i.preferred_delivery_method ≡ lit "sms"
    → Delivered i s (deliver_sms p svc i s)
unfolding deliver_sms
deliver_sms-Delivered p svc i s prefers =
    bind-out (Delivered i s) (lift (sms_route svc i)) _ s (λ e. stopped i s s e refl)
      λ r routed.
        bind-out (Delivered i s) (household_event i.id) _ s
          (λ e. stopped i s (household_event i.id s).1 e (household_event-sent i.id s))
          λ event read.
            sent-Delivered i r.1 (sms_mail p svc i event r.0) s (household_event i.id s).1
              (household_event-sent i.id s)
              (refl, refl, (prefers, route-eq-ok _ _ i.contact_phone svc.send_sms routed))

deliver_email-Delivered :
    (p : Platform) (svc : Service) (i : Invitation) (s : Conn)
    → i.preferred_delivery_method ≡ lit "email"
    → Delivered i s (deliver_email p svc i s)
unfolding deliver_email
deliver_email-Delivered p svc i s prefers =
    bind-out (Delivered i s) (lift (email_route svc i)) _ s (λ e. stopped i s s e refl)
      λ r routed.
        bind-out (Delivered i s) (household_event i.id) _ s
          (λ e. stopped i s (household_event i.id s).1 e (household_event-sent i.id s))
          λ event read.
            bind-out (Delivered i s)
              (lift (svc.render_invitation event (private_access_url p svc i))) _
              (household_event i.id s).1
              (λ e. stopped i s (household_event i.id s).1 e (household_event-sent i.id s))
              λ bodies rendered.
                sent-Delivered i r.1 (email_mail i event r.0 bodies) s (household_event i.id s).1
                  (household_event-sent i.id s)
                  (refl, refl, (prefers, route-eq-ok _ _ i.contact_email svc.send_email routed))

-- From another state with the same messages.
from-Delivered :
    (i : Invitation) (s t : Conn) (out : Result (Unit {0}) × Conn)
    → t.sent ≡ s.sent
    → Delivered i t out
    → Delivered i s out
from-Delivered i s t out same (mails, eq, h) = (mails, eq ∙ ap (λ l. l ++ mails) same, h)

by-Delivered :
    (p : Platform) (svc : Service) (i : Invitation) (s : Conn)
    → Delivered i s (deliver_by p svc i s)
by-Delivered p svc i s = elim (Bool-cases (text_eq i.preferred_delivery_method (lit "email"))) [
  | inl h ↦
      subst (λ b. Delivered i s ((if b then deliver_email p svc i else rest) s)) (sym h)
        (deliver_email-Delivered p svc i s
          ((text_eq_iff i.preferred_delivery_method (lit "email")).0 h))
  | inr h ↦
      subst (λ b. Delivered i s ((if b then deliver_email p svc i else rest) s)) (sym h)
        (rest-Delivered)
]
  where
    nothing : Action (Unit {0})
    nothing = fail (validation "delivery is not available for this invitation" [])

    rest : Action (Unit {0})
    rest = if text_eq i.preferred_delivery_method (lit "sms") then deliver_sms p svc i else nothing

    rest-Delivered : Delivered i s (rest s)
    rest-Delivered = elim (Bool-cases (text_eq i.preferred_delivery_method (lit "sms"))) [
      | inl h ↦
          subst (λ b. Delivered i s ((if b then deliver_sms p svc i else nothing) s)) (sym h)
            (deliver_sms-Delivered p svc i s
              ((text_eq_iff i.preferred_delivery_method (lit "sms")).0 h))
      | inr h ↦
          subst (λ b. Delivered i s ((if b then deliver_sms p svc i else nothing) s)) (sym h)
            (stopped i s s (validation "delivery is not available for this invitation" []) refl)
    ]

find_by_id-same : (id : Text) (s : Conn) → (find_by_id id s).1.sent ≡ s.sent
unfolding find_by_id
find_by_id-same id s = ground arith

find_by_id-found :
    (id : Text) (s : Conn) {found : Option Invitation}
    → (find_by_id id s).0 ≡ ok found
    → find_where (λ i. text_eq i.id id) s.db.invitations ≡ found
unfolding find_by_id
find_by_id-found id s h = ground arith

-- A refusal without a message, or a delivery of the invitation that has the identifier.
pub data Outcome (id : Text) (db : Db) (result : Result (Unit {0})) (mails : List Mail)
    : Type 0 where
  refused : (e : Error) → result ≡ err e → mails ≡ [] → Outcome id db result mails
  tried :
      (i : Invitation)
      → find_where (λ i. text_eq i.id id) db.invitations ≡ some i
      → i.revoked_at ≡ none
      → Handed i result mails
      → Outcome id db result mails

abbrev Tried : Text → Conn → Result (Unit {0}) × Conn → Type 0
Tried id s out = (mails : List Mail) × (out.1.sent ≡ s.sent ++ mails) × Outcome id s.db out.0 mails

refused-Tried : (id : Text) (s t : Conn) (e : Error) → t.sent ≡ s.sent → Tried id s (err e, t)
refused-Tried id s t e same = ([], same ∙ sym (append-nil s.sent), refused e refl refl)

present-Tried :
    (p : Platform) (svc : Service) (id : Text) (s t : Conn) (found : Option Invitation)
    → t.sent ≡ s.sent
    → find_where (λ i. text_eq i.id id) s.db.invitations ≡ found
    → Tried id s ((do i ← unless_revoked found; deliver_by p svc i) t)
present-Tried p svc id s t none same there = refused-Tried id s t _ same
present-Tried p svc id s t (some i) same there = live i.revoked_at refl
  where
    live :
        (revoked : Option ℕ)
        → i.revoked_at ≡ revoked
        → Tried id s
            ((do i ← (do reject (not (is_none revoked)) not_found; pure i); deliver_by p svc i) t)
    live (some at) h = refused-Tried id s t not_found same
    live none h =
        let (mails, eq, handed) =
          from-Delivered i s t (deliver_by p svc i t) same (by-Delivered p svc i t) in
        (mails, eq, tried i there h handed)

-- Whatever the senders answer and whichever calls of the database fail, a delivery hands out
-- nothing and fails, or finds the invitation of the identifier, which is not revoked, and hands out
-- at most one message: to the address that the invitation stores for the method it prefers. A
-- delivery that succeeds has handed out exactly one.
pub deliver-stored :
    (p : Platform) (svc : Service) (id : Text) (s : Conn)
    → (mails : List Mail) × ((deliver p svc id s).1.sent ≡ s.sent ++ mails)
      × Outcome id s.db (deliver p svc id s).0 mails
unfolding deliver
deliver-stored p svc id s =
    bind-out (Tried id s) (find_by_id id) _ s
      (λ e. refused-Tried id s (find_by_id id s).1 e (find_by_id-same id s))
      (λ found h.
        present-Tried p svc id s (find_by_id id s).1 found (find_by_id-same id s)
          (find_by_id-found id s h))
