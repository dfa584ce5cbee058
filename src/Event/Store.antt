-- ===== src/Event/Store.antt =====
-- internal/event/store.go. An event without an owner cannot be read: its `organizer_id` is NULL,
-- which does not scan into a string.
use owl_invites.Base.{
  ℕ, ◌/◌, ◌*◌, Bool, ◌&&◌, Option, none, some, List, [], ◌∷◌, ◌++◌, Result, ok, err, internal,
}
use owl_invites.Text.{Text, lit, text_eq}
use owl_invites.Stamp.{second}
use owl_invites.Table.{find_where, update_where}
use owl_invites.Platform.{Platform}
use owl_invites.Event.Model.{Event, EventRow, Membership, User}
use owl_invites.Invitation.Database.{Db}
use owl_invites.Invitation.Action.{Action, ◌>>=◌, ◌>>◌, pure, query, exec, new_id, transaction}

-- What is left of an instant behind `Format(time.RFC3339)`.
abbrev pub whole_second : ℕ → ℕ
whole_second t = (t / second) * second

abbrev pub whole_second_or_null : Option ℕ → Option ℕ
whole_second_or_null none = none
whole_second_or_null (some t) = some (whole_second t)

-- The columns as they are written, at a time.
abbrev pub written : ℕ → EventRow → EventRow
written now e = record e {
  event_date = whole_second e.event_date;
  end_date = whole_second_or_null e.end_date;
  rsvp_deadline = whole_second_or_null e.rsvp_deadline;
  updated_at = whole_second now;
}

abbrev pub has_id : Text → EventRow → Bool
has_id id e = text_eq e.id id

abbrev pub is_member : Text → Text → Membership → Bool
is_member event_id user_id m = text_eq m.event_id event_id && text_eq m.user_id user_id

abbrev pub is_owner_of : Text → Membership → Bool
is_owner_of event_id m = text_eq m.event_id event_id && text_eq m.role (lit "owner")

abbrev pub is_active : Text → User → Bool
is_active user_id u = text_eq u.id user_id && text_eq u.status (lit "active")

abbrev pub insert_event : EventRow → Db → Db
insert_event e db = record db { events = db.events ++ e ∷ [] }

abbrev pub insert_membership : Membership → Db → Db
insert_membership m db = record db { event_memberships = db.event_memberships ++ m ∷ [] }

unfoldable pub create_event : Platform → Event → ℕ → Action Event
create_event p e now = do
  exec "create event: %w"
      (insert_event (record (written now e.columns) { created_at = whole_second now }))
  membership_id ← new_id p
  exec "create owner membership: %w" (
      insert_membership (record {
        id = membership_id;
        event_id = e.columns.id;
        user_id = e.organizer_id;
        role = lit "owner";
        granted_by_user_id = e.organizer_id;
        created_at = whole_second now;
        updated_at = whole_second now;
      }))
  pure (record e {
    columns = record e.columns { created_at = whole_second now; updated_at = whole_second now };
  })

unfoldable pub create : Platform → Event → ℕ → Action Event
create p e now =
    transaction "begin create event: %w" "commit create event: %w" (create_event p e now)

-- `scanEvent` with the subquery of `eventColumns`.
abbrev pub with_owner : EventRow → Option Membership → Result (Option Event)
with_owner e none = err (internal "scan event: %w")
with_owner e (some m) = ok (some (record { organizer_id = m.user_id; columns = e }))

abbrev pub scan_event : List Membership → Option EventRow → Result (Option Event)
scan_event memberships none = ok none
scan_event memberships (some e) = with_owner e (find_where (is_owner_of e.id) memberships)

abbrev pub select_event : Text → Db → Result (Option Event)
select_event id db = scan_event db.event_memberships (find_where (has_id id) db.events)

abbrev pub lift {ℓ} : {A : Type ℓ} → Result A → Action A
lift r s = (r, s)

unfoldable pub find_by_id : Text → Action (Option Event)
find_by_id id = do r ← query "scan event: %w" (select_event id); lift r

abbrev pub role_or_empty : Option Membership → Text
role_or_empty none = []
role_or_empty (some m) = m.role

-- The join with the users: no row without an active one.
abbrev pub with_user : Option User → Option Membership → Option Membership
with_user none m = none
with_user (some u) m = m

abbrev pub role_in : Text → Text → Db → Text
role_in event_id user_id db = role_or_empty (
    with_user (find_where (is_active user_id) db.users)
      (find_where (is_member event_id user_id) db.event_memberships))

unfoldable pub find_membership_role : Text → Text → Action Text
find_membership_role event_id user_id =
    query "find event membership role: %w" (role_in event_id user_id)

-- `UPDATE events`: the identifier and the time of creation stay.
abbrev pub overwrite : ℕ → EventRow → EventRow → EventRow
overwrite now e r = record (written now e) { id = r.id; created_at = r.created_at }

abbrev pub update_event : ℕ → EventRow → Db → Db
update_event now e db = record db {
  events = update_where (has_id e.id) (overwrite now e) db.events;
}

unfoldable pub update : Event → ℕ → Action Event
update e now = do
  exec "update event: %w" (update_event now e.columns)
  pure (record e { columns = record e.columns { updated_at = whole_second now } })
