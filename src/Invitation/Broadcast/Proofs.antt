-- ===== src/Invitation/Broadcast/Proofs.antt =====
-- A broadcast reaches stored contacts only, and its counts add up.
use mathlib.Core.List.{append_assoc, append-nil}
use owl_invites.Base.{
  ℕ, suc, ◌+◌, ◌≡◌, refl, sym, ◌∙◌, ap, subst, inl, inr, Option, none, some, List, [], ◌∷◌, ◌++◌,
  arith, length, length-append, All, All-append, Result, ok, err, Error, String, if◌then◌else◌, Any,
  Any-Member, Bool-cases,
}
use owl_invites.Text.{Text, lit, text_eq, text_eq_iff}
use owl_invites.Table.{select_where-All}
use owl_invites.Platform.{Platform}
use owl_invites.Invitation.Database.{Db, Invitation}
use owl_invites.Invitation.Mail.{Mail}
use owl_invites.Invitation.Action.{Conn, ◌>>=◌, ◌>>◌, pure, Sender, bind-ok, bind-out, query}
use owl_invites.Text.Trim.{trim_space}
use owl_invites.Event.Store.{lift}
use owl_invites.Invitation.Service.{validate_recipient_group}
use owl_invites.Invitation.Delivery.{Service}
use owl_invites.Invitation.Broadcast.{
  MessageRequest, MessageResult, message_mail, counted, send_to, send_one, send_all, no_result,
  create_message, check_message, list_delivery_targets, configured, trimmed_request, is_target,
  targets_in, broadcast_detailed, send_message,
}

-- What has become of every target so far.
abbrev settled : MessageResult → ℕ
settled r = r.accepted + r.failed + r.skipped

module _ (p : Platform) (svc : Service) (event_id : Text) (req : MessageRequest)
    (P : Mail → Type 0) where
  abbrev IsFit : Invitation → Type 0
  IsFit i = (to : Text) → i.contact_email ≡ some to → P (message_mail p svc event_id req i to)

  -- A step hands out some messages, and settles one target more.
  abbrev Reported : MessageResult → Conn → ℕ → Result MessageResult × Conn → Type 0
  Reported r s n out =
      (mails : List Mail) × (r' : MessageResult) × (out
        ≡ (ok r', record s { sent = s.sent ++ mails }))
      × All P mails
      × (r'.attempted ≡ r.attempted + length mails)
      × (settled r' ≡ settled r + n)

  skip-reports :
      (r : MessageResult) (s : Conn) → Reported r s 1 (ok (record r { skipped = suc r.skipped }), s)
  skip-reports r s = (
    [],
    record r { skipped = suc r.skipped },
    ground (arith, append-nil s.sent),
    tt,
    omega arith,
    omega arith,
  )

  send_to-reports :
      (sender : Sender) (i : Invitation) (r : MessageResult) (s : Conn)
      → IsFit i
      → (to : Option Text) → i.contact_email ≡ to
      → Reported r s 1 (send_to p svc event_id req sender i to r s)
  send_to-reports sender i r s fit none h = skip-reports r s
  send_to-reports sender i r s fit (some to) h = (
    message_mail p svc event_id req i to ∷ [],
    counted p svc event_id req (sender (length s.sent) (message_mail p svc event_id req i to)) r,
    refl,
    (fit to h, tt),
    ground arith,
    ground arith,
  )

  send_one-reports :
      (sender : Sender) (i : Invitation) (r : MessageResult) (s : Conn)
      → IsFit i
      → Reported r s 1 (send_one p svc event_id req sender i r s)
  send_one-reports sender i r s fit =
      elim (Bool-cases (text_eq i.preferred_delivery_method (lit "email"))) [
        | inl h ↦
            subst
              (λ b. Reported r s 1 (
                (if b
                    then send_to p svc event_id req sender i i.contact_email r
                    else pure (record r { skipped = suc r.skipped }))
                  s))
              (sym h) (send_to-reports sender i r s fit i.contact_email refl)
        | inr h ↦
            subst
              (λ b. Reported r s 1 (
                (if b
                    then send_to p svc event_id req sender i i.contact_email r
                    else pure (record r { skipped = suc r.skipped }))
                  s))
              (sym h) (skip-reports r s)
      ]

  send_all-reports :
      (sender : Sender) (is : List Invitation) (r : MessageResult) (s : Conn)
      → All IsFit is
      → Reported r s (length is) (send_all p svc event_id req sender is r s)
  unfolding send_all
  send_all-reports sender [] r s fit =
      ([], r, ground (arith, append-nil s.sent), tt, omega arith, omega arith)
  send_all-reports sender (i ∷ is) r s (fit, fits) =
      let (mails, r1, eq, good, att, set) = send_one-reports sender i r s fit in
      let (mails2, r2, eq2, good2, att2, set2) =
        send_all-reports sender is r1 (record s { sent = s.sent ++ mails }) fits in
      (
        mails ++ mails2,
        r2,
        bind-ok (send_one p svc event_id req sender i r) (send_all p svc event_id req sender is) s
              (ap (λ o. o.0) eq)
            ∙ ap (λ o. send_all p svc event_id req sender is r1 o.1) eq
            ∙ eq2
            ∙ ap (λ l. (ok r2, record s { sent = l })) (append_assoc s.sent mails mails2),
        All-append P mails mails2 good good2,
        omega (arith, att, att2, length-append mails mails2),
        omega (arith, set, set2),
      )

-- The message goes to the stored address of an invitation of the event that is not revoked and
-- prefers email.
abbrev pub IsStored : Text → Db → Mail → Type 0
IsStored event_id db m =
    Any
      (λ i.
        (i.event_id ≡ event_id)
        × (i.revoked_at ≡ none)
        × (i.preferred_delivery_method ≡ lit "email")
        × (m.invitation_id ≡ i.id)
        × (i.contact_email ≡ some m.to))
      db.invitations

-- What the result of a broadcast says of the messages that were handed out.
pub Agrees : Text → Text → Db → List Mail → Result MessageResult → Type 0
Agrees event_id group db mails (err e) = mails ≡ []
Agrees event_id group db mails (ok r) =
    (r.attempted ≡ length mails) × (settled r ≡ length (targets_in event_id group db))

abbrev Honest : Text → Text → Conn → Result MessageResult × Conn → Type 0
Honest event_id group s out =
    (mails : List Mail) × (out.1.sent ≡ s.sent ++ mails)
    × All (IsStored event_id s.db) mails
    × Agrees event_id group s.db mails out.0

stopped :
    (event_id group : Text) (s t : Conn) (e : Error)
    → t.sent ≡ s.sent
    → Honest event_id group s (err e, t)
unfolding Agrees
stopped event_id group s t e same = ([], same ∙ sym (append-nil s.sent), tt, refl)

target-IsFit :
    (p : Platform) (svc : Service) (event_id group : Text) (req : MessageRequest) (db : Db)
    → All (IsFit p svc event_id req (IsStored event_id db)) (targets_in event_id group db)
target-IsFit p svc event_id group req db =
    select_where-All (IsFit p svc event_id req (IsStored event_id db)) (is_target event_id group db)
      db.invitations
      (λ i there test to address. Any-Member _ i db.invitations there (
        ground (arith, text_eq_iff i.event_id event_id),
        ground arith,
        ground (arith, text_eq_iff i.preferred_delivery_method (lit "email")),
        refl,
        address,
      ))

-- The loop, once the tables were read.
sent-Honest :
    (p : Platform) (svc : Service) (event_id : Text) (req : MessageRequest) (sender : Sender)
    (s t : Conn)
    → t.sent ≡ s.sent
    → Honest event_id req.recipient_group s (
        send_all p svc event_id req sender
          (targets_in event_id req.recipient_group s.db)
          no_result
          t)
unfolding Agrees
sent-Honest p svc event_id req sender s t same =
    let (mails, r, eq, good, att, set) =
      send_all-reports p svc event_id req (IsStored event_id s.db) sender
        (targets_in event_id req.recipient_group s.db) no_result t
        (target-IsFit p svc event_id req.recipient_group req s.db) in
    subst (λ out. Honest event_id req.recipient_group s out) (sym eq)
      (mails, ap (λ l. l ++ mails) same, good, (omega (arith, att), omega (arith, set)))

query-same {ℓ} :
    {A : Type ℓ} (message : String) (f : Db → A) (s : Conn)
    → ((query message f s).1.db ≡ s.db) × ((query message f s).1.sent ≡ s.sent)
query-same message f s = ground arith

query-value {ℓ} :
    {A : Type ℓ} (message : String) (f : Db → A) (s : Conn) {a : A}
    → (query message f s).0 ≡ ok a
    → a ≡ f s.db
query-value message f s h = ground arith

create_message-sent :
    (p : Platform) (event_id : Text) (sender_user_id : Option Text) (req : MessageRequest) (now : ℕ)
    (s : Conn)
    → (create_message p event_id sender_user_id req now s).1.sent ≡ s.sent
create_message-sent p event_id sender_user_id req now s = ground arith

-- With the sender that is registered.
sender-Honest :
    (p : Platform) (svc : Service) (event_id : Text) (sender_user_id : Option Text)
    (req : MessageRequest) (now : ℕ) (s : Conn) (registered : Option Sender)
    → Honest event_id req.recipient_group s (
        (do
          sender ← configured registered
          targets ← list_delivery_targets event_id req.recipient_group
          create_message p event_id sender_user_id req now
          send_all p svc event_id req sender targets no_result)
          s)
sender-Honest p svc event_id sender_user_id req now s none =
    stopped event_id req.recipient_group s s _ refl
sender-Honest p svc event_id sender_user_id req now s (some sender) =
    let s1 = (list_delivery_targets event_id req.recipient_group s).1 in
    let kept =
      (query-same "list invitation delivery targets: %w" (targets_in event_id req.recipient_group)
        s).1 in
    bind-out (Honest event_id req.recipient_group s)
      (list_delivery_targets event_id req.recipient_group) _ s
      (λ e. stopped event_id req.recipient_group s s1 e kept)
      λ targets got.
        bind-out (Honest event_id req.recipient_group s)
          (create_message p event_id sender_user_id req now) _ s1
          (λ e.
            stopped event_id req.recipient_group s
              (create_message p event_id sender_user_id req now s1).1 e
              (create_message-sent p event_id sender_user_id req now s1 ∙ kept))
          λ u made.
            subst
              (λ ts. Honest event_id req.recipient_group s (
                send_all p svc event_id req sender ts no_result
                  (create_message p event_id sender_user_id req now s1).1))
              (sym (
                query-value "list invitation delivery targets: %w"
                  (targets_in event_id req.recipient_group) s got))
              (sent-Honest p svc event_id req sender s
                (create_message p event_id sender_user_id req now s1).1
                (create_message-sent p event_id sender_user_id req now s1 ∙ kept))

send_message-Honest :
    (p : Platform) (svc : Service) (event_id : Text) (sender_user_id : Option Text)
    (req : MessageRequest) (now : ℕ) (s : Conn)
    → Honest event_id req.recipient_group s (send_message p svc event_id sender_user_id req now s)
send_message-Honest p svc event_id sender_user_id req now s =
    bind-out (Honest event_id req.recipient_group s) (lift (check_message req)) _ s
      (λ e. stopped event_id req.recipient_group s s e refl)
      (λ u h. sender-Honest p svc event_id sender_user_id req now s svc.send_email)

-- The recipient group that the request names, if it is valid.
abbrev pub group_or_empty : Result Text → Text
group_or_empty (err e) = []
group_or_empty (ok group) = group

abbrev pub group_of : MessageRequest → Text
group_of req = group_or_empty (validate_recipient_group (trim_space req.recipient_group))

-- Whatever the sender answers and whichever calls of the database fail, the messages that a
-- broadcast hands out go to stored addresses of invitations of the event that are not revoked and
-- prefer email. A broadcast that fails has handed out none; one that returns has handed out as many
-- as it reports as attempted, and each of the targets of its group is counted once as accepted,
-- failed or skipped.
pub broadcast_detailed-honest :
    (p : Platform) (svc : Service) (event_id : Text) (sender_user_id : Option Text)
    (req : MessageRequest) (now : ℕ) (s : Conn)
    → (mails : List Mail) × ((broadcast_detailed p svc event_id sender_user_id req now s).1.sent
        ≡ s.sent ++ mails)
      × All (IsStored event_id s.db) mails
      × Agrees event_id
          (group_of req)
          s.db
          mails
          (broadcast_detailed p svc event_id sender_user_id req now s).0
unfolding broadcast_detailed
broadcast_detailed-honest p svc event_id sender_user_id req now s =
    bind-out (Honest event_id (group_of req) s)
      (lift (validate_recipient_group (trim_space req.recipient_group))) _ s
      (λ e. stopped event_id (group_of req) s s e refl)
      (λ group h.
        subst
          (λ g.
            Honest event_id g s
              (send_message p svc event_id sender_user_id (trimmed_request group req) now s))
          (sym (ap group_or_empty h))
          (send_message-Honest p svc event_id sender_user_id (trimmed_request group req) now s))
