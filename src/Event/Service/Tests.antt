-- ===== src/Event/Service/Tests.antt =====
-- An event, its owner and a cohost on concrete tables.
use owl_invites.Base.{
  ◌*◌, ◌≡◌, ◌≢◌, refl, inr, true, false, none, some, [], ◌∷◌, arith, pos, ok, length,
}
use owl_invites.Text.{Text, lit, text_eq}
use owl_invites.Stamp.{second}
use owl_invites.Table.{find_where, update_where}
use owl_invites.Platform.{Platform}
use owl_invites.Fixtures.{toy, tables}
use owl_invites.Event.Model.{Event, EventRow, Membership, CreateEventRequest, UpdateEventRequest}
use owl_invites.Event.Request.{new_event, changed_event, parse_flexible_time, try_layouts}
use owl_invites.Event.Request.Valid.{IsValid, new_event-IsValid, changed_event-IsValid}
use owl_invites.Event.Store.{
  find_by_id, find_membership_role, update, whole_second, create, create_event,
}
use owl_invites.Event.Service.{
  Service, can_manage_event, is_event_owner, authorized, publish, cancel, delete,
  create_from_series,
}
use owl_invites.Event.Service.Moves.{CallbackLaws}
use owl_invites.Event.Service.Lifecycle.{
  generating, publishing, deleting, reopening, cancelling, perform, performs, Next, status_of,
  perform-Next, performs-archived,
}
use owl_invites.Event.Service.Enabled.{publish-ok}
use owl_invites.Invitation.Action.{Conn, transaction}

-- Times are written as their number of bytes, in seconds.
abbrev clock : Platform
clock = record toy { parse_time = λ layout s. some (length s * second) }

abbrev quiet : Service
quiet = record {
  default_retention = pos 30;
  on_publish = none;
  on_duplicate = none;
  on_cancel = none;
}

quiet-CallbackLaws : CallbackLaws quiet
quiet-CallbackLaws = record {
  published = λ e s. refl;
  cancelled = λ e s. refl;
  copied = λ a b s. refl;
}

abbrev party : EventRow
party = record {
  id = lit "e1";
  title = lit "Party";
  description = [];
  event_date = 9 * second;
  end_date = none;
  location = [];
  timezone = lit "UTC";
  retention_days = pos 30;
  status = lit "draft";
  show_headcount = false;
  show_guest_list = false;
  rsvp_deadline = some (8 * second);
  series_id = none;
  series_index = none;
  series_override = false;
  created_at = 0;
  updated_at = 0;
}

abbrev member : Text → Text → Membership
member user role = record {
  id = user;
  event_id = lit "e1";
  user_id = user;
  role = role;
  granted_by_user_id = lit "u1";
  created_at = 0;
  updated_at = 0;
}

abbrev party_with : Text → Conn
party_with status = record {
  db = record tables {
    events = record party { status = status } ∷ [];
    event_memberships = member (lit "u1") (lit "owner") ∷ member (lit "u2") (lit "cohost") ∷ [];
    users =
        record { id = lit "u1"; status = lit "active" }
        ∷ record { id = lit "u2"; status = lit "active" }
        ∷ [];
  };
  fails = λ n. false;
  calls = 0;
  issued = 0;
  sent = [];
}

-- A cohost publishes, and cancels; the owner reopens. A cohost cannot delete.
lifecycle :
    status_of
      (lit "e1")
      (performs clock quiet
        (((lit "u2"), 5, publishing (lit "e1"))
          ∷ ((lit "u2"), 6, cancelling (lit "e1") true)
          ∷ ((lit "u2"), 7, deleting (lit "e1"))
          ∷ [])
        (party_with (lit "draft"))).db.events
    ≡ some (lit "cancelled")
unfolding status_of performs perform publish cancel delete authorized can_manage_event
    is_event_owner find_by_id find_membership_role update find_where update_where lit text_eq
lifecycle = refl

abbrev occurrence : Event
occurrence = record {
  organizer_id = lit "u1";
  columns = record party { id = lit "e2"; status = lit "published" };
}

-- An event of a series is published from the start.
generates :
    status_of
      (lit "e2")
      (perform clock quiet
        (lit "u1")
        5
        (generating occurrence)
        (party_with (lit "draft"))).db.events
    ≡ some (lit "published")
unfolding status_of perform create_from_series create create_event transaction find_where lit
    text_eq
generates = refl

perform-Next_example :
    Next
      (publishing (lit "e1"))
      (lit "e1")
      (lit "u2")
      (party_with (lit "draft")).db
      (status_of (lit "e1") (party_with (lit "draft")).db.events)
      (status_of
        (lit "e1")
        (perform clock quiet
          (lit "u2")
          5
          (publishing (lit "e1"))
          (party_with (lit "draft"))).db.events)
perform-Next_example =
    perform-Next clock quiet (lit "u2") 5 (publishing (lit "e1")) (lit "e1")
      (party_with (lit "draft")) quiet-CallbackLaws

performs-archived_example :
    status_of
      (lit "e1")
      (performs clock quiet
        (((lit "u1"), 5, reopening (lit "e1")) ∷ ((lit "u1"), 6, publishing (lit "e1")) ∷ [])
        (party_with (lit "archived"))).db.events
    ≡ some (lit "archived")
unfolding status_of find_where text_eq lit
performs-archived_example =
    performs-archived clock quiet
      (((lit "u1"), 5, reopening (lit "e1")) ∷ ((lit "u1"), 6, publishing (lit "e1")) ∷ [])
      (lit "e1") (party_with (lit "archived")) quiet-CallbackLaws refl

publish-ok_example :
    ((publish quiet (lit "e1") (lit "u2") 5 (party_with (lit "draft"))).0
      ≡ ok (record {
        organizer_id = lit "u1";
        columns = record party { status = lit "published"; updated_at = whole_second 5 };
      }))
    × (status_of
          (lit "e1")
          (publish quiet (lit "e1") (lit "u2") 5 (party_with (lit "draft"))).1.db.events
        ≡ some (lit "published"))
unfolding find_where text_eq lit
publish-ok_example =
    publish-ok quiet (lit "e1") (lit "u2") 5 (party_with (lit "draft")) quiet-CallbackLaws
      (λ n. refl) refl refl (inr refl) refl

abbrev request : CreateEventRequest
request = record {
  title = lit "Party";
  description = [];
  event_date = lit "123456789";
  end_date = none;
  location = [];
  timezone = [];
  retention_days = none;
  show_headcount = none;
  show_guest_list = none;
  rsvp_deadline = some (lit "12345678");
}

abbrev no_change : UpdateEventRequest
no_change = record {
  title = none;
  description = none;
  event_date = none;
  end_date = none;
  location = none;
  timezone = none;
  retention_days = none;
  show_headcount = none;
  show_guest_list = none;
  rsvp_deadline = none;
}

abbrev drafted : EventRow
drafted = record party {
  id = [];
  rsvp_deadline = some (8 * second);
  timezone = lit "America/New_York";
}

new_event-IsValid_example : IsValid drafted × (drafted.title ≢ []) × (drafted.status ≡ lit "draft")
new_event-IsValid_example =
    new_event-IsValid clock (pos 30) (lit "u1") request
      {e = record { organizer_id = lit "u1"; columns = drafted }}
      (unfold new_event parse_flexible_time try_layouts text_eq lit in refl)

changed_event-IsValid_example :
    IsValid (record drafted { event_date = 5 * second; rsvp_deadline = some (4 * second) })
unfolding lit
changed_event-IsValid_example =
    changed_event-IsValid clock
      (record no_change { event_date = some (lit "12345"); rsvp_deadline = some (lit "1234") })
      drafted {new = record drafted { event_date = 5 * second; rsvp_deadline = some (4 * second) }}
      (unfold changed_event parse_flexible_time try_layouts text_eq lit in refl) (inr λ h. cc)
      ((omega arith, omega arith, omega arith), omega arith)

-- The date is moved in front of the deadline that stays, and the title is taken away.
moved_date :
    changed_event clock
      (record no_change { title = some []; event_date = some (lit "12345") })
      drafted
    ≡ ok (record drafted { title = []; event_date = 5 * second })
unfolding changed_event parse_flexible_time try_layouts text_eq lit
moved_date = refl
