-- ===== src/Invitation/Store/Sessions/Tests.antt =====
-- Rotation, revocation and the exchange of a capability on a small set of tables.
use owl_invites.Base.{
  ◌*◌, ◌≡◌, ◌≢◌, refl, none, some, [], ◌∷◌, ◌++◌, ok, err, not_found, invalid_capability,
}
use owl_invites.Text.{Text, lit, text_eq}
use owl_invites.Text.Number.{itoa, atoi}
use owl_invites.Text.Split.{split, join}
use owl_invites.Text.Base64.{base64}
use owl_invites.Text.Hex.{hex}
use owl_invites.Stamp.{after, second}
use owl_invites.Table.{count_where, update_where, find_where}
use owl_invites.Fixtures.{toy, tables, conn, smiths}
use owl_invites.Invitation.Database.{Invitation, SessionRow}
use owl_invites.Invitation.Action.{Conn, transaction}
use owl_invites.Invitation.Capability.{CapabilitySigner, private, parse_private, sign, parse}
use owl_invites.Invitation.Store.Sessions.{
  rotate_tx, revoke_invitation, invitation_for_session, exchange_private, find_by_access_id, grant,
  create_session, hash_token, live_invitation,
}
use owl_invites.Invitation.Store.Sessions.Proofs.{
  rotate_ends_sessions, revoke_ends_sessions, exchange_private_sound, new_session,
}

computes : Unit {0}
unfolding private parse_private sign parse lit text_eq itoa atoi split join base64 hex after
    count_where update_where find_where transaction rotate_tx revoke_invitation
    invitation_for_session exchange_private find_by_access_id grant create_session hash_token
    live_invitation
computes = tt

abbrev signer : CapabilitySigner
signer = record { key = lit "k" }

-- A second invitation, with an open session.
abbrev garcias : Invitation
garcias = record smiths { id = lit "i2"; access_id = lit "other" }

abbrev session : Text → SessionRow
session id = record {
  invitation_id = id;
  token_hash = id;
  issued_token_version = 2;
  expires_at = 100 * second;
  last_used_at = none;
  revoked_at = none;
}

abbrev two : Conn
two = record conn {
  db = record tables {
    invitations = smiths ∷ garcias ∷ [];
    sessions = session (lit "i1") ∷ session (lit "i2") ∷ [];
  };
}

rotates : (rotate_tx (lit "i1") (lit "e1") 5 two).0 ≡ ok tt
unfolding computes
rotates = refl

revokes : (revoke_invitation (lit "i1") (lit "e1") (lit "moved") 5 two).0 ≡ ok tt
unfolding computes
revokes = refl

wrong_event : (rotate_tx (lit "i1") (lit "e2") 5 two).0 ≡ err not_found
unfolding computes
wrong_event = refl

still_open :
    (invitation_for_session (lit "i2") 6 (rotate_tx (lit "i1") (lit "e1") 5 two).1).0
    ≡ ok (some garcias)
unfolding computes
still_open = refl

still_open_revoked :
    (invitation_for_session
      (lit "i2")
      6
      (revoke_invitation (lit "i1") (lit "e1") (lit "moved") 5 two).1).0
    ≡ ok (some garcias)
unfolding computes
still_open_revoked = refl

abbrev after_rotation : Conn
after_rotation = (rotate_tx (lit "i1") (lit "e1") 5 two).1

abbrev after_revocation : Conn
after_revocation = (revoke_invitation (lit "i1") (lit "e1") (lit "moved") 5 two).1

rotate_ends_sessions_example : lit "i2" ≢ lit "i1"
unfolding computes
rotate_ends_sessions_example =
    rotate_ends_sessions (lit "i1") (lit "e1") (lit "i2") 5 6 two after_rotation
      (invitation_for_session (lit "i2") 6 after_rotation).1 {i = garcias} refl refl

revoke_ends_sessions_example : lit "i2" ≢ lit "i1"
unfolding computes
revoke_ends_sessions_example =
    revoke_ends_sessions (lit "i1") (lit "e1") (lit "moved") (lit "i2") 5 6 two after_revocation
      (invitation_for_session (lit "i2") 6 after_revocation).1 {i = garcias} refl refl

abbrev current : Text
current = private toy.hmac signer (lit "acc") 2

opens : (exchange_private toy signer 10 current 5 conn).0 ≡ ok (base64 (0 ∷ []), smiths)
unfolding computes
opens = refl

old_version :
    (exchange_private toy signer 10 (private toy.hmac signer (lit "acc") 1) 5 conn).0
    ≡ err invalid_capability
unfolding computes
old_version = refl

exchange_private_sound_example :
    (access_id : Text) × (parse_private toy.hmac signer current ≡ ok (access_id, 2))
    × (find_where (λ j. text_eq j.access_id access_id) tables.invitations ≡ some smiths)
    × (smiths.revoked_at ≡ none)
    × ((exchange_private toy signer 10 current 5 conn).1.db.sessions
        ≡ tables.sessions ++ new_session toy 2 10 5 (base64 (0 ∷ [])) smiths ∷ [])
    × ((exchange_private toy signer 10 current 5 conn).1.db.invitations ≡ tables.invitations)
exchange_private_sound_example =
    exchange_private_sound toy signer 10 5 current (base64 (0 ∷ [])) smiths conn opens
