-- ===== src/Invitation/Store/Sessions/Proofs.antt =====
-- Rotation and revocation end every session of the invitation, and a capability opens a household
-- only at the stored version.
use owl_invites.Base.{
  ℕ, suc, ◌+◌, ◌≡◌, ◌≢◌, refl, ap, ◌∙◌, inl, inr, ◌&&◌, Option, none, some, List, [], ◌∷◌, ◌++◌,
  arith, ◌==◌, All, Bool-cases, Result, ok, err,
}
use owl_invites.Text.{Text, text_eq, text_eq_iff}
use owl_invites.Table.{update_where, find_where, find_where-test}
use owl_invites.Platform.{Platform}
use owl_invites.Invitation.Capability.{CapabilitySigner, parse_private}
use owl_invites.Invitation.Contact.{is_none}
use owl_invites.Invitation.Database.{Invitation, SessionRow}
use owl_invites.Invitation.Action.{Conn, transaction, ◌>>=◌}
use owl_invites.Invitation.Store.Sessions.{
  is_live, rotate_tx, revoke_invitation, joined, live_invitation, invitation_for_session,
  exchange_private, hash_token, find_by_access_id, create_session, grant, admit, parsed,
}

-- No session of the invitation is open.
abbrev pub AllRevoked : Text → List SessionRow → Type 0
AllRevoked id rows = All (λ r. r.invitation_id ≡ id → r.revoked_at ≢ none) rows

revoke_rows-AllRevoked :
    (id : Text) (now : ℕ) (rows : List SessionRow)
    → AllRevoked id (
        update_where
          (λ r. text_eq r.invitation_id id && is_none r.revoked_at)
          (λ r. record r { revoked_at = some now })
          rows)
unfolding update_where
revoke_rows-AllRevoked id now [] = tt
revoke_rows-AllRevoked id now (r ∷ rows) =
    (ground (arith, text_eq_iff r.invitation_id id), revoke_rows-AllRevoked id now rows)

joined-id :
    (invitations : List Invitation) (r : SessionRow) {i : Invitation}
    → joined invitations r ≡ some i
    → i.id ≡ r.invitation_id
joined-id invitations r {i} h = ground (
  arith,
  find_where-test
      (λ j.
        text_eq j.id r.invitation_id
        && is_none j.revoked_at
        && j.token_version == r.issued_token_version)
      invitations {r = i} h,
  text_eq_iff i.id r.invitation_id,
)

live_invitation-revoked :
    (id : Text) (invitations : List Invitation) (h : Text) (now : ℕ) (rows : List SessionRow)
    {i : Invitation}
    → AllRevoked id rows
    → live_invitation invitations h now rows ≡ some i
    → i.id ≢ id
unfolding live_invitation
live_invitation-revoked id invitations h now [] all e = cc
live_invitation-revoked id invitations h now (r ∷ rows) {i} (gone, all) e = ground (
  arith,
  joined-id invitations r {i = i},
  live_invitation-revoked id invitations h now rows {i = i} all,
)

rotate_tx-AllRevoked :
    (id event_id : Text) (now : ℕ) (s s' : Conn)
    → rotate_tx id event_id now s ≡ (ok tt, s')
    → AllRevoked id s'.db.sessions
unfolding rotate_tx transaction
rotate_tx-AllRevoked id event_id now s s' h =
    ground (arith, revoke_rows-AllRevoked id now s.db.sessions)

revoke_invitation-AllRevoked :
    (id event_id reason : Text) (now : ℕ) (s s' : Conn)
    → revoke_invitation id event_id reason now s ≡ (ok tt, s')
    → AllRevoked id s'.db.sessions
unfolding revoke_invitation transaction
revoke_invitation-AllRevoked id event_id reason now s s' h =
    ground (arith, revoke_rows-AllRevoked id now s.db.sessions)

session-revoked :
    (id h : Text) (now : ℕ) (s s' : Conn) {i : Invitation}
    → AllRevoked id s.db.sessions
    → invitation_for_session h now s ≡ (ok (some i), s')
    → i.id ≢ id
unfolding invitation_for_session
session-revoked id h now s s' {i} all e =
    ground (arith, live_invitation-revoked id s.db.invitations h now s.db.sessions {i = i} all)

-- After an invitation is rotated, no session token that was issued before, whatever its hash and
-- at whatever time, leads to that invitation.
pub rotate_ends_sessions :
    (id event_id h : Text) (now later : ℕ) (s s' s'' : Conn) {i : Invitation}
    → rotate_tx id event_id now s ≡ (ok tt, s')
    → invitation_for_session h later s' ≡ (ok (some i), s'')
    → i.id ≢ id
rotate_ends_sessions id event_id h now later s s' s'' rotated =
    session-revoked id h later s' s'' (rotate_tx-AllRevoked id event_id now s s' rotated)

-- After an invitation is revoked, no session token that was issued before, whatever its hash and
-- at whatever time, leads to that invitation.
pub revoke_ends_sessions :
    (id event_id reason h : Text) (now later : ℕ) (s s' s'' : Conn) {i : Invitation}
    → revoke_invitation id event_id reason now s ≡ (ok tt, s')
    → invitation_for_session h later s' ≡ (ok (some i), s'')
    → i.id ≢ id
revoke_ends_sessions id event_id reason h now later s s' s'' revoked =
    session-revoked id h later s' s''
      (revoke_invitation-AllRevoked id event_id reason now s s' revoked)

-- The rows, with the token version advanced where the rotation does so.
pub rotated : Text → Text → List Invitation → List Invitation
rotated id event_id rows =
    update_where (is_live id event_id) (λ i. record i { token_version = i.token_version + 1 }) rows

-- The session that an exchange adds.
abbrev pub new_session : Platform → ℕ → ℕ → ℕ → Text → Invitation → SessionRow
new_session p version expiry now session i = record {
  invitation_id = i.id;
  token_hash = hash_token p session;
  issued_token_version = version;
  expires_at = now + expiry;
  last_used_at = none;
  revoked_at = none;
}

grant_exact :
    (p : Platform) (version expiry now : ℕ) (i : Invitation) (session : Text) (s : Conn)
    → (grant p version expiry now i s).0 ≡ ok session
    → ((grant p version expiry now i s).1.db.sessions
        ≡ s.db.sessions ++ new_session p version expiry now session i ∷ [])
      × ((grant p version expiry now i s).1.db.invitations ≡ s.db.invitations)
unfolding grant create_session
grant_exact p version expiry now i session s h = ground arith

admit_sound :
    (p : Platform) (version expiry now : ℕ) (found : Option Invitation) (session : Text)
    (i : Invitation) (s : Conn)
    → (admit p version expiry now found s).0 ≡ ok (session, i)
    → (found ≡ some i)
      × (i.revoked_at ≡ none)
      × (i.token_version ≡ version)
      × ((grant p version expiry now i s).0 ≡ ok session)
      × ((admit p version expiry now found s).1 ≡ (grant p version expiry now i s).1)
admit_sound p version expiry now none session i s h = cc
admit_sound p version expiry now (some j) session i s h = ground arith

exchange_found :
    (p : Platform) (version expiry now : ℕ) (access_id session : Text) (i : Invitation) (s : Conn)
    → ((find_by_access_id access_id >>= admit p version expiry now) s).0 ≡ ok (session, i)
    → (i.token_version ≡ version)
      × (i.revoked_at ≡ none)
      × (find_where (λ j. text_eq j.access_id access_id) s.db.invitations ≡ some i)
      × (((find_by_access_id access_id >>= admit p version expiry now) s).1.db.sessions
          ≡ s.db.sessions ++ new_session p version expiry now session i ∷ [])
      × (((find_by_access_id access_id >>= admit p version expiry now) s).1.db.invitations
          ≡ s.db.invitations)
unfolding find_by_access_id
exchange_found p version expiry now access_id session i s h =
    let called : Conn = record s { calls = suc s.calls } in
    elim (Bool-cases (s.fails s.calls)) [
      | inl broken ↦ cc (rw broken at h)
      | inr fine ↦ rw fine (
          let (found, unrevoked, same, granted, end) =
            admit_sound p version expiry now
              (find_where (λ j. text_eq j.access_id access_id) s.db.invitations) session i called
              (rw fine at h) in
          let (rows, kept) = grant_exact p version expiry now i session called granted in
          (
            same,
            unrevoked,
            found,
            ap (λ (c : Conn). c.db.sessions) end ∙ rows,
            ap (λ (c : Conn). c.db.invitations) end ∙ kept,
          ))
    ]

exchange_parsed :
    (p : Platform) (expiry now : ℕ) (session : Text) (i : Invitation) (s : Conn)
    (read : Result (Text × ℕ))
    → ((parsed read >>= λ c. find_by_access_id c.0 >>= admit p c.1 expiry now) s).0
      ≡ ok (session, i)
    → (c : Text × ℕ) × (read ≡ ok c)
      × (((find_by_access_id c.0 >>= admit p c.1 expiry now) s).0 ≡ ok (session, i))
      × ((parsed read >>= λ c. find_by_access_id c.0 >>= admit p c.1 expiry now) s
          ≡ (find_by_access_id c.0 >>= admit p c.1 expiry now) s)
exchange_parsed p expiry now session i s (ok c) h = (c, refl, h, refl)
exchange_parsed p expiry now session i s (err e) h = cc

-- A capability opens a household only if it is signed for the selector that finds the invitation
-- and for the token version that is stored, and the invitation is not revoked. One session is
-- added, issued for that version and ending after the session expiry; no invitation is changed.
pub exchange_private_sound :
    (p : Platform) (signer : CapabilitySigner) (expiry now : ℕ) (raw session : Text)
    (i : Invitation) (s : Conn)
    → (exchange_private p signer expiry raw now s).0 ≡ ok (session, i)
    → (access_id : Text) × (parse_private p.hmac signer raw ≡ ok (access_id, i.token_version))
      × (find_where (λ j. text_eq j.access_id access_id) s.db.invitations ≡ some i)
      × (i.revoked_at ≡ none)
      × ((exchange_private p signer expiry raw now s).1.db.sessions
          ≡ s.db.sessions ++ new_session p i.token_version expiry now session i ∷ [])
      × ((exchange_private p signer expiry raw now s).1.db.invitations ≡ s.db.invitations)
unfolding exchange_private
exchange_private_sound p signer expiry now raw session i s h =
    let (c, read, here, same) =
      exchange_parsed p expiry now session i s (parse_private p.hmac signer raw) h in
    let (version, unrevoked, found, rows, kept) =
      exchange_found p c.1 expiry now c.0 session i s here in
    (c.0, rw version read, found, unrevoked, rw (version, same) rows, rw same kept)
