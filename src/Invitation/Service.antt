-- ===== src/Invitation/Service.antt =====
-- internal/invitation/service.go: what a browser does with a session, and the exchange of a
-- recovery token. The household that is returned is the invitation's, and loading it may fail.
pub mod Proofs
use owl_invites.Base.{
  ℕ, zero, ◌+◌, Bool, not, ◌&&◌, Option, none, some, List, [], ◌∷◌, ◌++◌, ltb, length,
  if◌then◌else◌, Result, ok, err, validation, invalid_capability,
}
use owl_invites.Text.{Text, lit, text_eq}
use owl_invites.Text.Trim.{trim_space}
use owl_invites.Text.Hex.{hex}
use owl_invites.Platform.{Platform}
use owl_invites.Invitation.Capability.{CapabilitySigner}
use owl_invites.Invitation.Answers.{valid_attendance}
use owl_invites.Invitation.Model.{SubmitRequest}
use owl_invites.Invitation.Database.{Invitation}
use owl_invites.Invitation.Action.{Action, ◌>>=◌, ◌>>◌, pure, reject, call, present, random_token}
use owl_invites.Invitation.Store.Sessions.{hash_token, invitation_for_session}
use owl_invites.Invitation.Store.Recovery.{consume_recovery_and_create_session}
use owl_invites.Invitation.Store.Submit.{submit_response}

-- The parts of a fingerprint, each behind a zero byte.
pub fingerprint_message : List Text → Text
fingerprint_message [] = []
fingerprint_message (part ∷ parts) = zero ∷ (part ++ fingerprint_message parts)

pub fingerprint : Platform → CapabilitySigner → List Text → Text
fingerprint p s parts =
    hex (p.hmac s.key (lit "owl-invites/recovery-rate-limit/v1" ++ fingerprint_message parts))

pub validate_recipient_group : Text → Result Text
validate_recipient_group raw =
    let group = if text_eq (trim_space raw) [] then lit "all" else trim_space raw in
    if not (valid_attendance group) && not (text_eq group (lit "all"))
    then err (validation "invalid recipient group" [])
    else ok group

unfoldable pub household_for_session : Platform → Text → ℕ → Action Invitation
household_for_session p raw_session now = do
  reject (text_eq raw_session []) invalid_capability
  found ← invitation_for_session (hash_token p raw_session) now
  i ← present found invalid_capability
  call "load household"
  pure i

unfoldable pub submit_for_session : Platform → Text → SubmitRequest → ℕ → Action Invitation
submit_for_session p raw_session req now = do
  found ← invitation_for_session (hash_token p raw_session) now
  i ← present found invalid_capability
  reject (ltb req.version 1) (validation "response version is required" [])
  submit_response p i.id req now
  call "load household"
  pure i

pub exchange_recovery : Platform → ℕ → Text → ℕ → Action (Text × Option Invitation)
exchange_recovery p expiry raw_recovery now = do
  reject (ltb (length raw_recovery) 32) invalid_capability
  session ← random_token p
  found ←
      consume_recovery_and_create_session (hash_token p raw_recovery) (hash_token p session)
        (now + expiry) now
  call "load household"
  pure (session, found)
