-- ===== src/Invitation/Store/Sessions.antt =====
-- `Rotate`, `Revoke`, `CreateSession` and `InvitationForSession` of internal/invitation/store.go,
-- and `ExchangePrivate` and `Revoke` of internal/invitation/service.go. Households are loaded by
-- queries that change nothing; of `LoadHousehold` the failure is kept, and the invitation.
mod Tests
pub mod Proofs
use owl_invites.Base.{
  ℕ, zero, suc, ◌+◌, ◌≡◌, Bool, true, false, not, ◌&&◌, ◌||◌, String, Option, none, some, List, [],
  ◌∷◌, ◌++◌, ◌==◌, ltb, length, if◌then◌else◌, Result, ok, err, Error, not_found,
  invalid_capability, validation,
}
use owl_invites.Text.{Text, text_eq}
use owl_invites.Text.Trim.{trim_space}
use owl_invites.Text.Hex.{hex}
use owl_invites.Stamp.{after}
use owl_invites.Table.{count_where, update_where, find_where}
use owl_invites.Platform.{Platform}
use owl_invites.Invitation.Capability.{CapabilitySigner, parse_private}
use owl_invites.Invitation.Contact.{is_none}
use owl_invites.Invitation.Database.{Db, Invitation, SessionRow}
use owl_invites.Invitation.Action.{
  Conn, Action, ◌>>=◌, ◌>>◌, pure, fail, reject, call, query, exec, exec_count, ignore, present,
  random_token, transaction,
}

-- hashToken
unfoldable pub hash_token : Platform → Text → Text
hash_token p raw = hex (p.sha256 raw)

-- `WHERE id = ? AND event_id = ? AND revoked_at IS NULL`
abbrev pub is_live : Text → Text → Invitation → Bool
is_live id event_id i = text_eq i.id id && text_eq i.event_id event_id && is_none i.revoked_at

unfoldable pub find_by_id : Text → Action (Option Invitation)
find_by_id id = query "scan invitation" (λ db. find_where (λ i. text_eq i.id id) db.invitations)

unfoldable pub find_by_access_id : Text → Action (Option Invitation)
find_by_access_id access_id =
    query "scan invitation" (λ db. find_where (λ i. text_eq i.access_id access_id) db.invitations)

abbrev pub revoke_sessions : Text → ℕ → Db → Db
revoke_sessions id now db = record db {
  sessions =
      update_where (λ r. text_eq r.invitation_id id && is_none r.revoked_at)
        (λ r. record r { revoked_at = some now }) db.sessions;
}

abbrev update_invitations : (Invitation → Bool) → (Invitation → Invitation) → Db → Db
update_invitations test f db = record db { invitations = update_where test f db.invitations }

unfoldable pub rotate_tx : Text → Text → ℕ → Action (Unit {0})
rotate_tx id event_id now = transaction "begin rotate" "commit rotation" do
  changed ←
      exec_count "rotate invitation" (λ db. count_where (is_live id event_id) db.invitations)
        (update_invitations (is_live id event_id)
          (λ i. record i { token_version = i.token_version + 1 }))
  reject (not (changed == 1)) not_found
  exec "revoke rotated sessions" (revoke_sessions id now)

pub rotate : Text → Text → ℕ → Action (Option Invitation)
rotate id event_id now = do rotate_tx id event_id now; find_by_id id

pub revoke_invitation : Text → Text → Text → ℕ → Action (Unit {0})
revoke_invitation id event_id reason now = transaction "begin revoke" "commit revoke" do
  changed ←
      exec_count "revoke invitation" (λ db. count_where (is_live id event_id) db.invitations)
        (update_invitations (is_live id event_id)
          (λ i. record i { revoked_at = some now; revocation_reason = some reason }))
  reject (not (changed == 1)) not_found
  exec "revoke invitation sessions" (revoke_sessions id now)

-- The service's method.
pub revoke : Text → Text → Text → ℕ → Action (Unit {0})
revoke event_id invitation_id raw_reason now = do
  let reason = trim_space raw_reason
  reject (ltb 500 (length reason))
      (validation "revocation reason must be 500 characters or fewer" [])
  revoke_invitation invitation_id event_id reason now

abbrev pub add_session : SessionRow → Db → Db
add_session r db = record db { sessions = db.sessions ++ r ∷ [] }

-- The insertion, which the exchange of a recovery token makes too.
unfoldable pub create_session_row : String → Text → Text → ℕ → ℕ → Action (Unit {0})
create_session_row message invitation_id token_hash token_version expires_at = exec message (
    add_session (record {
      invitation_id = invitation_id;
      token_hash = token_hash;
      issued_token_version = token_version;
      expires_at = expires_at;
      last_used_at = none;
      revoked_at = none;
    }))

unfoldable pub create_session : Text → Text → ℕ → ℕ → Action (Unit {0})
unfolding create_session_row
create_session invitation_id token_hash token_version expires_at =
    create_session_row "create invitation session" invitation_id token_hash token_version expires_at

-- The join of a session with its invitation, and its test.
abbrev joined : List Invitation → SessionRow → Option Invitation
joined invitations r =
    find_where
      (λ i.
        text_eq i.id r.invitation_id
        && is_none i.revoked_at
        && i.token_version == r.issued_token_version)
      invitations

abbrev is_current : Text → ℕ → SessionRow → Bool
is_current token_hash now r =
    text_eq r.token_hash token_hash && after r.expires_at now && is_none r.revoked_at

abbrev pub or_else {ℓ} : {A : Type ℓ} → Option A → Option A → Option A
or_else none o = o
or_else (some a) o = some a

unfoldable pub live_invitation : List Invitation → Text → ℕ → List SessionRow → Option Invitation
live_invitation invitations token_hash now [] = none
live_invitation invitations token_hash now (r ∷ rs) =
    let rest = live_invitation invitations token_hash now rs in
    if is_current token_hash now r then or_else (joined invitations r) rest else rest

abbrev touch : Text → ℕ → Db → Db
touch token_hash now db = record db {
  sessions =
      update_where (λ r. text_eq r.token_hash token_hash)
        (λ r. record r { last_used_at = some now }) db.sessions;
}

abbrev touch_found : Text → ℕ → Option Invitation → Action (Option Invitation)
touch_found token_hash now none = pure none
touch_found token_hash now (some i) = do
  ignore (exec "touch session" (touch token_hash now))
  pure (some i)

unfoldable pub invitation_for_session : Text → ℕ → Action (Option Invitation)
invitation_for_session token_hash now = do
  found ← query "scan invitation" (λ db. live_invitation db.invitations token_hash now db.sessions)
  touch_found token_hash now found

-- A session for the household, which is loaded then.
pub grant : Platform → ℕ → ℕ → ℕ → Invitation → Action Text
grant p version expiry now i = do
  session ← random_token p
  create_session i.id (hash_token p session) version (now + expiry)
  call "load household"
  pure session

abbrev admit : Platform → ℕ → ℕ → ℕ → Option Invitation → Action (Text × Invitation)
admit p version expiry now none = fail invalid_capability
admit p version expiry now (some i) = do
  reject (not (is_none i.revoked_at) || not (i.token_version == version)) invalid_capability
  session ← grant p version expiry now i
  pure (session, i)

abbrev parsed : Result (Text × ℕ) → Action (Text × ℕ)
parsed (ok r) = pure r
parsed (err e) = fail invalid_capability

pub exchange_private : Platform → CapabilitySigner → ℕ → Text → ℕ → Action (Text × Invitation)
exchange_private p signer expiry raw now = do
  (access_id, version) ← parsed (parse_private p.hmac signer raw)
  found ← find_by_access_id access_id
  admit p version expiry now found
