-- ===== src/Event/Service.antt =====
-- internal/event/service.go. Each operation is one step of the model: no other operation comes
-- between its reads and its writes.
pub mod Rights
pub mod Moves
mod Steps
pub mod Lifecycle
pub mod Enabled
mod Tests
use owl_invites.Base.{
  ℕ, Bool, true, false, not, ◌||◌, Option, none, some, List, [], ◌∷◌, ◌++◌, ltb, length,
  if◌then◌else◌, ℤ, positive, Result, ok, err, validation, plain, wrapped, str, num,
}
use owl_invites.Text.{Text, lit, text_eq}
use owl_invites.Platform.{Platform}
use owl_invites.Event.Model.{Event, EventRow, CreateEventRequest, UpdateEventRequest}
use owl_invites.Event.Request.{new_event, changed_event}
use owl_invites.Event.Store.{find_by_id, find_membership_role, create, update, lift}
use owl_invites.Invitation.Action.{Conn, Action, ◌>>=◌, ◌>>◌, pure, reject, present, new_id}

-- The callbacks are those that `SetOnPublish`, `SetOnDuplicate` and `SetOnCancel` register.
pub record Service : Type 0 where
  pub default_retention : ℤ
  pub on_publish : Option (Event → Conn → Conn)
  pub on_duplicate : Option (Text → Text → Conn → Conn)
  pub on_cancel : Option (Event → Conn → Conn)

abbrev pub invoke : Option (Event → Conn → Conn) → Event → Action (Unit {0})
invoke none e s = (ok tt, s)
invoke (some f) e s = (ok tt, f e s)

abbrev pub invoke_copy : Option (Text → Text → Conn → Conn) → Text → Text → Action (Unit {0})
invoke_copy none src new s = (ok tt, s)
invoke_copy (some f) src new s = (ok tt, f src new s)

-- `if e == nil` of the event that both checks read again.
abbrev pub for_event : Option Event → Action Bool → Action Bool
for_event none m = pure false
for_event (some e) m = m

unfoldable pub can_manage_event : Text → Text → Action Bool
can_manage_event event_id organizer_id = do
  found ← find_by_id event_id
  for_event found (do
    role ← find_membership_role event_id organizer_id
    pure (text_eq role (lit "owner") || text_eq role (lit "cohost")))

unfoldable pub is_event_owner : Text → Text → Action Bool
is_event_owner event_id organizer_id = do
  found ← find_by_id event_id
  for_event found
      (do role ← find_membership_role event_id organizer_id; pure (text_eq role (lit "owner")))

-- The start of every operation on an event that exists: it is read, and a right is checked.
unfoldable pub authorized : (Text → Text → Action Bool) → Text → Text → Action Event
authorized right event_id organizer_id = do
  found ← find_by_id event_id
  e ← present found (plain "event not found" [])
  allowed ← right event_id organizer_id
  reject (not allowed) (plain "forbidden: you do not own this event" [])
  pure e

abbrev pub with_status : Text → Event → Event
with_status status e = record e { columns = record e.columns { status = status } }

unfoldable pub publish : Service → Text → Text → ℕ → Action Event
publish svc event_id organizer_id now = do
  e ← authorized can_manage_event event_id organizer_id
  reject (not (text_eq e.columns.status (lit "draft"))) (
      validation "event can only be published from draft status, current status: %s"
        (str e.columns.status ∷ []))
  updated ← update (with_status (lit "published") e) now
  invoke svc.on_publish updated
  pure updated

unfoldable pub cancel : Service → Text → Text → Bool → ℕ → Action Event
cancel svc event_id organizer_id notify_invitees now = do
  e ← authorized can_manage_event event_id organizer_id
  reject (not (text_eq e.columns.status (lit "published"))) (
      validation "event can only be cancelled from published status, current status: %s"
        (str e.columns.status ∷ []))
  updated ← update (with_status (lit "cancelled") e) now
  invoke (if notify_invitees then svc.on_cancel else none) updated
  pure updated

unfoldable pub reopen : Text → Text → ℕ → Action Event
reopen event_id organizer_id now = do
  e ← authorized can_manage_event event_id organizer_id
  reject (not (text_eq e.columns.status (lit "cancelled"))) (
      validation "event can only be reopened from cancelled status, current status: %s"
        (str e.columns.status ∷ []))
  update (with_status (lit "draft") e) now

unfoldable pub delete : Text → Text → ℕ → Action (Unit {0})
delete event_id organizer_id now = do
  e ← authorized is_event_owner event_id organizer_id
  updated ← update (with_status (lit "archived") e) now
  pure tt

-- The copy of an event under a new identifier.
abbrev pub copy_of : Text → Text → Event → Event
copy_of id organizer_id e = record {
  organizer_id = organizer_id;
  columns = record e.columns {
    id = id;
    title = lit "Copy of " ++ e.columns.title;
    status = lit "draft";
    series_id = none;
    series_index = none;
    series_override = false;
    created_at = 0;
    updated_at = 0;
  };
}

unfoldable pub duplicate : Platform → Service → Text → Text → ℕ → Action Event
duplicate p svc event_id organizer_id now = do
  e ← authorized is_event_owner event_id organizer_id
  id ← new_id p
  copy ← create p (copy_of id organizer_id e) now
  invoke_copy svc.on_duplicate event_id copy.columns.id
  pure copy

abbrev with_id : Text → Event → Event
with_id id e = record e { columns = record e.columns { id = id } }

-- `Service.Create`
unfoldable pub create_draft : Platform → Service → Text → CreateEventRequest → ℕ → Action Event
create_draft p svc organizer_id req now = do
  e ← lift (new_event p svc.default_retention organizer_id req)
  id ← new_id p
  create p (with_id id e) now

-- `Service.Update`
unfoldable pub change : Platform → Text → Text → UpdateEventRequest → ℕ → Action Event
change p event_id organizer_id req now = do
  e ← authorized can_manage_event event_id organizer_id
  columns ← lift (changed_event p req e.columns)
  update (record e { columns = columns }) now

-- `Service.CreateFromSeries`: an event that the series service has built is stored as it is.
unfoldable pub create_from_series : Platform → Event → ℕ → Action Event
create_from_series p e now = create p e now
