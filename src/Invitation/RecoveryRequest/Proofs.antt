-- ===== src/Invitation/RecoveryRequest/Proofs.antt =====
-- A recovery link goes to the stored address of a household that the request matches.
use mathlib.Core.List.{append_assoc, append-nil}
use owl_invites.Base.{
  ℕ, ◌≡◌, ◌⊎◌, refl, sym, ◌∙◌, ap, subst, Bool, true, false, ◌||◌, Option, none, some, List, [],
  ◌∷◌, ◌++◌, arith, inl, inr, ok, Error, if◌then◌else◌, Bool-cases, All, All-append, Any,
  Any-Member,
}
use owl_invites.Text.{Text, lit, text_eq, text_eq_iff}
use owl_invites.Text.Trim.{trim_space}
use owl_invites.Platform.{Platform}
use owl_invites.Table.{select_where, select_where-All}
use owl_invites.Event.Model.{EventRow}
use owl_invites.Invitation.Database.{Invitation}
use owl_invites.Invitation.Mail.{Mail}
use owl_invites.Invitation.Action.{Conn, Action, ◌>>=◌, pure, Sender, send, random_token, bind-rel}
use owl_invites.Invitation.Service.{fingerprint}
use owl_invites.Invitation.Delivery.{Service, household_event, failing}
use owl_invites.Invitation.Delivery.Proofs.{household_event-sent}
use owl_invites.Invitation.Store.Sessions.{hash_token}
use owl_invites.Invitation.Store.Recovery.{
  Dialect, is_match, same_contact, allow_recovery, find_recovery_matches,
}
use owl_invites.Invitation.Store.Recovery.Keeps.{
  Keeps, allow_recovery-Keeps, find_recovery_matches-Keeps, find_recovery_matches-value,
  create_recovery_token-Keeps,
}
use owl_invites.Invitation.RecoveryRequest.{
  event_exists, is_address, normalized_contact, recovery_mail, store_token, send_recovery, reach,
  recover_one, recover_all, recover_if, allow_if, request_for, request_recovery,
}

-- The message goes to the stored address of an invitation of the event that is not revoked, has the
-- contact and prefers email.
abbrev pub IsMatched : Text → Text → List Invitation → Mail → Type 0
IsMatched event_id contact invitations m =
    Any
      (λ i.
        (i.event_id ≡ event_id)
        × (i.revoked_at ≡ none)
        × ((i.normalized_contact_email ≡ some contact)
            ⊎ (i.normalized_contact_phone ≡ some contact))
        × (i.preferred_delivery_method ≡ lit "email")
        × (m.invitation_id ≡ i.id)
        × (i.contact_email ≡ some m.to))
      invitations

-- Between two states, only messages with the property were handed out.
abbrev Only : (Mail → Type 0) → Conn → Conn → Type 0
Only P s t = (mails : List Mail) × (t.sent ≡ s.sent ++ mails) × All P mails

module _ (P : Mail → Type 0) where
  none-Only : (s t : Conn) → t.sent ≡ s.sent → Only P s t
  none-Only s t same = ([], same ∙ sym (append-nil s.sent), tt)

  join-Only : (s t u : Conn) → Only P s t → Only P t u → Only P s u
  join-Only s t u (ms, eq, good) (ns, eq2, good2) = (
    ms ++ ns,
    eq2 ∙ ap (λ l. l ++ ns) eq ∙ append_assoc s.sent ms ns,
    All-append P ms ns good good2,
  )

  bind-Only {ℓ κ} :
      {A : Type ℓ} {B : Type κ} (m : Action A) (f : A → Action B)
      → ((s : Conn) → Only P s (m s).1)
      → ((a : A) (s : Conn) → Only P s (f a s).1)
      → (s : Conn) → Only P s ((m >>= f) s).1
  bind-Only m f h k s =
      bind-rel (Only P s) m f s (h s)
        (λ a got. join-Only s (m s).1 (f a (m s).1).1 (h s) (k a (m s).1))

  -- A first step that hands out nothing.
  after-Keeps {ℓ κ} :
      {A : Type ℓ} {B : Type κ} (m : Action A) (f : A → Action B) (s : Conn)
      → Keeps s (m s).1
      → ((a : A) → (m s).0 ≡ ok a → Only P (m s).1 (f a (m s).1).1)
      → Only P s ((m >>= f) s).1
  after-Keeps m f s keeps k =
      bind-rel (Only P s) m f s (none-Only s (m s).1 keeps.0)
        λ a got. join-Only s (m s).1 (f a (m s).1).1 (none-Only s (m s).1 keeps.0) (k a got)

  send-Only : (sender : Sender) (m : Mail) → P m → (s : Conn) → Only P s (send sender m s).1
  send-Only sender m p s = (m ∷ [], refl, (p, tt))

  failing-Only : (outcome : Option Error) (s : Conn) → Only P s (failing outcome s).1
  failing-Only none s = none-Only s s refl
  failing-Only (some e) s = none-Only s s refl

module _ (p : Platform) (svc : Service) (clock : ℕ → ℕ) (P : Mail → Type 0) where
  abbrev IsFit : Invitation → Type 0
  IsFit i =
      i.preferred_delivery_method ≡ lit "email"
      → (to : Text) → i.contact_email ≡ some to
      → (event : EventRow) (raw : Text) → P (recovery_mail p svc i event to raw)

  send_recovery-Only :
      (i : Invitation) (to : Text) (sender : Sender) (s : Conn)
      → ((event : EventRow) (raw : Text) → P (recovery_mail p svc i event to raw))
      → Only P s (send_recovery p svc clock i to sender s).1
  unfolding send_recovery
  send_recovery-Only i to sender s fit =
      bind-Only P (random_token p) _ (λ t. none-Only P t (random_token p t).1 (ground arith))
        (λ raw.
          bind-Only P (store_token p svc clock i raw) _
            (λ t.
              none-Only P t (store_token p svc clock i raw t).1
                (create_recovery_token-Keeps i.id (hash_token p raw) (lit "email") _ t).0)
            (λ u.
              bind-Only P (household_event i.id) _
                (λ t. none-Only P t (household_event i.id t).1 (household_event-sent i.id t))
                (λ event.
                  bind-Only P (send sender (recovery_mail p svc i event to raw)) failing
                    (send-Only P sender (recovery_mail p svc i event to raw) (fit event raw))
                    (failing-Only P))))
        s

  reach-Only :
      (i : Invitation) (s : Conn) (contact : Option Text) (registered : Option Sender)
      → i.contact_email ≡ contact
      → i.preferred_delivery_method ≡ lit "email"
      → IsFit i
      → Only P s (reach p svc clock i contact registered s).1
  reach-Only i s none registered h prefers fit = none-Only P s s refl
  reach-Only i s (some to) none h prefers fit = none-Only P s s refl
  reach-Only i s (some to) (some sender) h prefers fit =
      send_recovery-Only i to sender s (fit prefers to h)

  recover_one-Only :
      (by_email : Bool) (i : Invitation) (s : Conn)
      → IsFit i
      → Only P s (recover_one p svc clock by_email i s).1
  recover_one-Only false i s fit = none-Only P s s refl
  recover_one-Only true i s fit =
      elim (Bool-cases (text_eq i.preferred_delivery_method (lit "email"))) [
        | inl h ↦
            subst
              (λ b.
                Only P s
                  ((if b then reach p svc clock i i.contact_email svc.send_email else pure tt) s).1)
              (sym h)
              (reach-Only i s i.contact_email svc.send_email refl
                ((text_eq_iff i.preferred_delivery_method (lit "email")).0 h) fit)
        | inr h ↦
            subst
              (λ b.
                Only P s
                  ((if b then reach p svc clock i i.contact_email svc.send_email else pure tt) s).1)
              (sym h) (none-Only P s s refl)
      ]

  recover_all-Only :
      (by_email : Bool) (is : List Invitation) (s : Conn)
      → All IsFit is
      → Only P s (recover_all p svc clock by_email is s).1
  unfolding recover_all
  recover_all-Only by_email [] s fits = none-Only P s s refl
  recover_all-Only by_email (i ∷ is) s (fit, fits) =
      bind-Only P (recover_one p svc clock by_email i) (λ u. recover_all p svc clock by_email is)
        (λ t. recover_one-Only by_email i t fit) (λ u t. recover_all-Only by_email is t fits) s

module _ (p : Platform) (svc : Service) (clock : ℕ → ℕ) (event_id contact : Text) where
  abbrev Matched : List Invitation → Conn → Conn → Type 0
  Matched invitations = Only (IsMatched event_id contact invitations)

  has-contact : (stored : Option Text) → same_contact stored contact ≡ true → stored ≡ some contact
  has-contact none h = ground arith
  has-contact (some c) h = ap some ((text_eq_iff c contact).0 h)

  match-parts :
      (i : Invitation)
      → is_match event_id contact i ≡ true
      → (i.event_id ≡ event_id)
        × (i.revoked_at ≡ none)
        × ((i.normalized_contact_email ≡ some contact)
            ⊎ (i.normalized_contact_phone ≡ some contact))
  match-parts i h = ground (
    arith,
    text_eq_iff i.event_id event_id,
    has-contact i.normalized_contact_email,
    has-contact i.normalized_contact_phone,
  )

  matches-IsFit :
      (invitations : List Invitation)
      → All
          (IsFit p svc clock (IsMatched event_id contact invitations))
          (select_where (is_match event_id contact) invitations)
  matches-IsFit invitations =
      select_where-All (IsFit p svc clock (IsMatched event_id contact invitations))
        (is_match event_id contact) invitations
        (λ i there test prefers to address event raw.
          let (same_event, live, has_contact) = match-parts i test in
          Any-Member _ i invitations there (same_event, live, has_contact, prefers, refl, address))

  recover_if-Only :
      (by_email allowed : Bool) (invitations : List Invitation) (t : Conn)
      → t.db.invitations ≡ invitations
      → Matched invitations t (recover_if p svc clock event_id contact by_email allowed t).1
  recover_if-Only by_email false invitations t same = none-Only _ t t refl
  recover_if-Only by_email true invitations t same =
      after-Keeps (IsMatched event_id contact invitations) (find_recovery_matches event_id contact)
        (recover_all p svc clock by_email) t (find_recovery_matches-Keeps event_id contact t)
        (λ found got.
          recover_all-Only p svc clock (IsMatched event_id contact invitations) by_email found
            (find_recovery_matches event_id contact t).1
            (subst (λ is. All (IsFit p svc clock (IsMatched event_id contact invitations)) is)
              (sym (
                find_recovery_matches-value event_id contact t got
                ∙ ap (select_where (is_match event_id contact)) same))
              (matches-IsFit invitations)))

  allow_if-Only :
      (dialect : Dialect) (now later : ℕ) (source : Text) (by_email exists : Bool)
      (invitations : List Invitation) (t : Conn)
      → t.db.invitations ≡ invitations
      → Matched invitations t
          (allow_if p svc dialect now later clock event_id contact source by_email exists t).1
  allow_if-Only dialect now later source by_email false invitations t same = none-Only _ t t refl
  allow_if-Only dialect now later source by_email true invitations t same =
      let from = fingerprint p svc.signer (lit "source" ∷ source ∷ []) in
      let to = fingerprint p svc.signer (lit "destination" ∷ event_id ∷ contact ∷ []) in
      let keeps = allow_recovery-Keeps dialect event_id from to now later t in
      after-Keeps (IsMatched event_id contact invitations)
        (allow_recovery dialect event_id from to now later)
        (recover_if p svc clock event_id contact by_email) t keeps
        (λ allowed got.
          recover_if-Only by_email allowed invitations
            (allow_recovery dialect event_id from to now later t).1 (keeps.1 ∙ same))

  event_exists-Keeps : (s : Conn) → Keeps s (event_exists event_id s).1
  event_exists-Keeps s = ground arith

  request_for-Only :
      (dialect : Dialect) (now later : ℕ) (source : Text) (by_email : Bool) (s : Conn)
      → Matched s.db.invitations s
          (request_for p svc dialect now later clock event_id contact source by_email s).1
  request_for-Only dialect now later source by_email s = elim (Bool-cases (text_eq contact [])) [
    | inl h ↦
        subst (λ b. Matched s.db.invitations s ((if b then pure tt else go) s).1) (sym h)
          (none-Only _ s s refl)
    | inr h ↦
        subst (λ b. Matched s.db.invitations s ((if b then pure tt else go) s).1) (sym h)
          (after-Keeps (IsMatched event_id contact s.db.invitations) (event_exists event_id)
            (allow_if p svc dialect now later clock event_id contact source by_email) s
            (event_exists-Keeps s)
            (λ exists got.
              allow_if-Only dialect now later source by_email exists s.db.invitations
                (event_exists event_id s).1 (event_exists-Keeps s).1))
  ]
    where
      go : Action (Unit {0})
      go = do
        exists ← event_exists event_id
        allow_if p svc dialect now later clock event_id contact source by_email exists

-- Whatever the sender answers and whichever calls of the database fail, every message that a request
-- for recovery hands out goes to the stored address of an invitation of the event that is not
-- revoked, that has the requested contact in its normal form, and that prefers email.
pub request_recovery-stored :
    (p : Platform) (svc : Service) (dialect : Dialect) (now later : ℕ) (clock : ℕ → ℕ)
    (raw_event_id raw_contact source : Text) (s : Conn)
    → (mails : List Mail) × ((request_recovery p svc dialect now later clock raw_event_id
          raw_contact source s).1.sent
        ≡ s.sent ++ mails)
      × All
          (IsMatched
            (trim_space raw_event_id)
            (normalized_contact p (trim_space raw_contact))
            s.db.invitations)
          mails
unfolding request_recovery
request_recovery-stored p svc dialect now later clock raw_event_id raw_contact source s =
    let event_id = trim_space raw_event_id in
    let contact = trim_space raw_contact in
    let go =
      request_for p svc dialect now later clock event_id (normalized_contact p contact) source
        (is_address contact) in
    elim (Bool-cases (text_eq event_id [] || text_eq contact [])) [
      | inl h ↦
          subst
            (λ b.
              Matched p svc clock event_id (normalized_contact p contact) s.db.invitations s
                ((if b then pure tt else go) s).1)
            (sym h) (none-Only _ s s refl)
      | inr h ↦
          subst
            (λ b.
              Matched p svc clock event_id (normalized_contact p contact) s.db.invitations s
                ((if b then pure tt else go) s).1)
            (sym h)
            (request_for-Only p svc clock event_id (normalized_contact p contact) dialect now later
              source (is_address contact) s)
    ]
