-- ===== src/Invitation/RecoveryRequest.antt =====
-- internal/invitation/service.go: a guest's request for a recovery link, which answers the same
-- whether or not the contact is known.
pub mod Proofs
use owl_invites.Base.{
  ℕ, ◌+◌, ◌/◌, ◌*◌, Bool, true, false, not, ◌&&◌, ◌||◌, Option, none, some, List, [], ◌∷◌, ◌++◌,
  ◌==◌, any, if◌then◌else◌,
}
use owl_invites.Text.{Text, lit, text_eq}
use owl_invites.Text.Trim.{trim_space}
use owl_invites.Text.Number.{itoa}
use owl_invites.Text.Html.{escape_string}
use owl_invites.Stamp.{second}
use owl_invites.Table.{find_where}
use owl_invites.Platform.{Platform}
use owl_invites.Event.Model.{EventRow}
use owl_invites.Event.Store.{has_id}
use owl_invites.Invitation.Contact.{is_none, normalize_email, normalize_phone}
use owl_invites.Invitation.Database.{Db, Invitation}
use owl_invites.Invitation.Mail.{email, Mail}
use owl_invites.Invitation.Action.{Action, ◌>>=◌, ◌>>◌, pure, query, random_token, Sender, send}
use owl_invites.Invitation.Service.{fingerprint}
use owl_invites.Invitation.Delivery.{Service, household_event, failing}
use owl_invites.Invitation.Store.Sessions.{hash_token}
use owl_invites.Invitation.Store.Recovery.{
  Dialect, allow_recovery, find_recovery_matches, create_recovery_token,
}

-- `EventExists` of internal/invitation/event_store.go
abbrev pub event_exists : Text → Action Bool
event_exists event_id =
    query "find recovery event: %w" (λ db. not (is_none (find_where (has_id event_id) db.events)))

abbrev pub is_address : Text → Bool
is_address contact = any (λ c. c == b'@') contact

abbrev pub normalized_contact : Platform → Text → Text
normalized_contact p contact =
    if is_address contact then normalize_email p contact else normalize_phone contact

module _ (p : Platform) (svc : Service) where
  abbrev pub recovery_mail : Invitation → EventRow → Text → Text → Mail
  recovery_mail i event to raw =
      let url = svc.base_url ++ lit "/invitation/recover#" ++ raw in
      let minutes = itoa (svc.recovery_expiry / (60 * second)) in
      record {
        channel = email;
        event_id = i.event_id;
        invitation_id = i.id;
        to = to;
        subject = lit "Recover your invitation " ++ 226 ∷ 128 ∷ 148 ∷ lit " " ++ event.title;
        html_body =
            lit "<p>Use this one-time link to recover your invitation:</p><p><a href="
            ++ 34
              ∷ (escape_string url
                  ++ 34
                    ∷ (lit ">Recover invitation</a></p><p>It expires in "
                        ++ minutes
                        ++ lit " minutes.</p>"));
        plain_body =
            lit "Use this one-time link to recover your invitation:"
            ++ 10 ∷ (url ++ 10 ∷ 10 ∷ (lit "It expires in " ++ minutes ++ lit " minutes."));
      }

  -- `clock` gives the time at which a token is stored, by the number of identifiers and tokens
  -- handed out before.
  abbrev pub store_token : (ℕ → ℕ) → Invitation → Text → Action (Unit {0})
  store_token clock i raw s =
      create_recovery_token i.id (hash_token p raw) (lit "email")
        (clock s.issued + svc.recovery_expiry) s

  unfoldable pub send_recovery : (ℕ → ℕ) → Invitation → Text → Sender → Action (Unit {0})
  send_recovery clock i to sender = do
    raw ← random_token p
    store_token clock i raw
    event ← household_event i.id
    outcome ← send sender (recovery_mail i event to raw)
    failing outcome

  abbrev pub reach : (ℕ → ℕ) → Invitation → Option Text → Option Sender → Action (Unit {0})
  reach clock i none sender = pure tt
  reach clock i (some to) none = pure tt
  reach clock i (some to) (some sender) = send_recovery clock i to sender

  -- One round of the loop; `by_email` is whether an address was given.
  abbrev pub recover_one : (ℕ → ℕ) → Bool → Invitation → Action (Unit {0})
  recover_one clock by_email i =
      if by_email && text_eq i.preferred_delivery_method (lit "email")
      then reach clock i i.contact_email svc.send_email
      else pure tt

  unfoldable pub recover_all : (ℕ → ℕ) → Bool → List Invitation → Action (Unit {0})
  recover_all clock by_email [] = pure tt
  recover_all clock by_email (i ∷ is) = do
    recover_one clock by_email i
    recover_all clock by_email is

  abbrev pub recover_if : (ℕ → ℕ) → Text → Text → Bool → Bool → Action (Unit {0})
  recover_if clock event_id normalized by_email false = pure tt
  recover_if clock event_id normalized by_email true = do
    matches ← find_recovery_matches event_id normalized
    recover_all clock by_email matches

  abbrev pub allow_if :
      Dialect → ℕ → ℕ → (ℕ → ℕ) → Text → Text → Text → Bool → Bool → Action (Unit {0})
  allow_if dialect now later clock event_id normalized source by_email false = pure tt
  allow_if dialect now later clock event_id normalized source by_email true = do
    allowed ←
        allow_recovery dialect event_id (fingerprint p svc.signer (lit "source" ∷ source ∷ []))
          (fingerprint p svc.signer (lit "destination" ∷ event_id ∷ normalized ∷ [])) now later
    recover_if clock event_id normalized by_email allowed

  abbrev pub request_for : Dialect → ℕ → ℕ → (ℕ → ℕ) → Text → Text → Text → Bool → Action (Unit {0})
  request_for dialect now later clock event_id normalized source by_email =
      if text_eq normalized [] then pure tt else (do
        exists ← event_exists event_id
        allow_if dialect now later clock event_id normalized source by_email exists)

  unfoldable pub request_recovery :
      Dialect → ℕ → ℕ → (ℕ → ℕ) → Text → Text → Text → Action (Unit {0})
  request_recovery dialect now later clock raw_event_id raw_contact source =
      let event_id = trim_space raw_event_id in
      let contact = trim_space raw_contact in
      if text_eq event_id [] || text_eq contact []
      then pure tt
      else request_for dialect now later clock event_id (normalized_contact p contact) source
          (is_address contact)
