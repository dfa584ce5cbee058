-- ===== src/Invitation/Store/Enrollment.antt =====
-- internal/invitation/open_store.go: open enrollment, whose locked row serializes the capacity.
mod Tests
pub mod Proofs
use owl_invites.Base.{
  ℕ, zero, suc, ◌+◌, ◌≡◌, Bool, true, false, not, ◌&&◌, ◌||◌, String, Option, none, some, List, [],
  ◌∷◌, ◌++◌, ◌==◌, ltb, leb, length, if◌then◌else◌, Result, ok, err, Error, internal, not_found,
  invalid_capability, allowance_exceeded, capacity_exceeded, any,
}
use owl_invites.Text.{Text, text_eq, lit}
use owl_invites.Table.{count_where, update_where, find_where}
use owl_invites.Platform.{Platform}
use owl_invites.Invitation.Model.{Guest, source_open, guest_origin_assigned}
use owl_invites.Invitation.Contact.{is_none, normalize_email, normalize_phone}
use owl_invites.Invitation.Database.{Db, Invitation, GuestRow, OpenEnrollmentConfig}
use owl_invites.Invitation.Action.{
  Conn, Action, ◌>>=◌, ◌>>◌, pure, fail, reject, query, exec, exec_count, transaction,
}
use owl_invites.Invitation.Store.Rows.{insert_invitation, insert_response, insert_guests}
use owl_invites.Invitation.Store.Sessions.{create_session_row}

-- `FindOpenByAccessID`
unfoldable pub find_open_by_access_id : Text → Action (Option OpenEnrollmentConfig)
find_open_by_access_id access_id =
    query "scan open enrollment"
      (λ db. find_where (λ c. text_eq c.access_id access_id) db.open_enrollments)

unfoldable pub find_open_by_event : Text → Action (Option OpenEnrollmentConfig)
find_open_by_event event_id =
    query "scan open enrollment"
      (λ db. find_where (λ c. text_eq c.event_id event_id) db.open_enrollments)

-- INSERT … ON CONFLICT(event_id) DO UPDATE: a second configuration keeps the selector, the token
-- version and the revocation of the first.
abbrev upsert_open : OpenEnrollmentConfig → List OpenEnrollmentConfig → List OpenEnrollmentConfig
upsert_open c [] = record c { revoked_at = none } ∷ []
upsert_open c (r ∷ rs) =
    if text_eq r.event_id c.event_id
    then record r {
      enabled = c.enabled;
      opens_at = c.opens_at;
      closes_at = c.closes_at;
      max_party_size = c.max_party_size;
      capacity = c.capacity;
    }
      ∷ rs
    else r ∷ upsert_open c rs

pub configure_open : OpenEnrollmentConfig → Action (Unit {0})
configure_open c =
    exec "configure open enrollment"
      (λ db. record db { open_enrollments = upsert_open c db.open_enrollments })

abbrev is_open_event : Text → OpenEnrollmentConfig → Bool
is_open_event event_id c = text_eq c.event_id event_id && is_none c.revoked_at

pub rotate_open : Text → Action (Option OpenEnrollmentConfig)
rotate_open event_id = do
  changed ←
      exec_count "rotate open enrollment"
        (λ db. count_where (is_open_event event_id) db.open_enrollments)
        (λ db. record db {
          open_enrollments =
              update_where (is_open_event event_id)
                (λ c. record c { token_version = c.token_version + 1 }) db.open_enrollments;
        })
  reject (not (changed == 1)) not_found
  find_open_by_event event_id

-- The test of the update that locks the row.
abbrev pub is_offered : OpenEnrollmentConfig → OpenEnrollmentConfig → Bool
is_offered c r =
    text_eq r.id c.id
    && text_eq r.access_id c.access_id
    && r.token_version == c.token_version
    && r.enabled
    && is_none r.revoked_at

abbrev same_enrollment : Option Text → Text → Bool
same_enrollment none id = false
same_enrollment (some o) id = text_eq o id

-- The household of a guest, enrolled through `id` and not revoked.
unfoldable pub is_enrolled : Text → List Invitation → Text → Bool
is_enrolled id [] invitation_id = false
is_enrolled id (i ∷ is) invitation_id =
    (text_eq i.id invitation_id && same_enrollment i.open_enrollment_id id && is_none i.revoked_at)
    || is_enrolled id is invitation_id

-- SELECT COUNT(*) FROM guests g JOIN invitations i …; an invitation's id is its primary key.
abbrev pub allocated : Text → List Invitation → List GuestRow → ℕ
allocated id invitations guests =
    count_where (λ g. is_none g.removed_at && is_enrolled id invitations g.invitation_id) guests

abbrev pub before_opening : ℕ → Option ℕ → Bool
before_opening now none = false
before_opening now (some t) = ltb now t

abbrev pub not_before_closing : ℕ → Option ℕ → Bool
not_before_closing now none = false
not_before_closing now (some t) = leb t now

check_capacity : Text → ℕ → Option ℕ → Action (Unit {0})
check_capacity id party none = pure tt
check_capacity id party (some capacity) = do
  n ← query "count open enrollment capacity" (λ db. allocated id db.invitations db.guests)
  reject (ltb capacity (n + party)) capacity_exceeded

-- The party size, the window and the capacity, as they are stored. The row cannot be missing
-- behind the lock; the scan would fail.
check_row : Text → ℕ → ℕ → Option OpenEnrollmentConfig → Action (Unit {0})
check_row id party now none = fail (internal "load open enrollment limits")
check_row id party now (some r) = do
  reject (ltb party 1 || ltb r.max_party_size party) allowance_exceeded
  reject (before_opening now r.opens_at) invalid_capability
  reject (not_before_closing now r.closes_at) invalid_capability
  check_capacity id party r.capacity

check_open : OpenEnrollmentConfig → ℕ → ℕ → Action (Unit {0})
check_open c party now = do
  changed ←
      exec_count "lock open enrollment" (λ db. count_where (is_offered c) db.open_enrollments)
        (λ db. db)
  reject (not (changed == 1)) invalid_capability
  row ←
      query "load open enrollment limits"
        (λ db. find_where (λ r. text_eq r.id c.id) db.open_enrollments)
  check_row c.id party now row

abbrev pub map_option : (Text → Text) → Option Text → Option Text
map_option f none = none
map_option f (some v) = some (f v)

-- The row that is inserted; the allowance and the version are constants of the statement.
abbrev pub open_row : Platform → OpenEnrollmentConfig → Invitation → Invitation
open_row p c i = record i {
  normalized_contact_email = map_option (normalize_email p) i.contact_email;
  normalized_contact_phone = map_option normalize_phone i.contact_phone;
  additional_guest_allowance = 0;
  source = source_open;
  open_enrollment_id = some c.id;
  token_version = 1;
  created_by_user_id = none;
  revoked_at = none;
  revocation_reason = none;
}

-- The response, the guests and the session of the new invitation.
insert_members : Platform → Invitation → List Guest → Text → ℕ → ℕ → Action (Unit {0})
insert_members p i guests session_hash expires_at now = do
  response_id ← insert_response p "create open response" i.id now
  insert_guests "create open guest" "create open guest response" i.id response_id
      (λ _. guest_origin_assigned) guests
  create_session_row "create open invitation session" i.id session_hash 1 expires_at

insert_open :
    Platform → OpenEnrollmentConfig → Invitation → List Guest → Text → ℕ → ℕ → Action (Unit {0})
insert_open p c i guests session_hash expires_at now = do
  insert_invitation "create open invitation" (open_row p c i)
  insert_members p i guests session_hash expires_at now

-- The transaction; what the source then fills in of the caller's guests is left out.
pub enroll_open :
    Platform → OpenEnrollmentConfig → Invitation → List Guest → Text → ℕ → ℕ → Action (Unit {0})
enroll_open p c i guests session_hash expires_at now =
    transaction "begin open enrollment" "commit open enrollment"
      do check_open c (length guests) now; insert_open p c i guests session_hash expires_at now
