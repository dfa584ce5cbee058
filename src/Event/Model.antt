-- ===== src/Event/Model.antt =====
-- internal/event/model.go, and the tables `events`, `event_memberships` and `users` as far as
-- internal/event reads or writes them. Instants are in nanoseconds.
use owl_invites.Base.{ℕ, Bool, Option, ℤ}
use owl_invites.Text.{Text}

-- The columns of an event.
pub record EventRow : Type 0 where
  pub id : Text
  pub title : Text
  pub description : Text
  pub event_date : ℕ
  pub end_date : Option ℕ
  pub location : Text
  pub timezone : Text
  pub retention_days : ℤ
  pub status : Text
  pub show_headcount : Bool
  pub show_guest_list : Bool
  pub rsvp_deadline : Option ℕ
  pub series_id : Option Text
  pub series_index : Option ℤ
  pub series_override : Bool
  pub created_at : ℕ
  pub updated_at : ℕ

-- `Event`: its columns, and the owner that the queries look up among the memberships.
pub record Event : Type 0 where
  pub organizer_id : Text
  pub columns : EventRow

pub record Membership : Type 0 where
  pub id : Text
  pub event_id : Text
  pub user_id : Text
  pub role : Text
  pub granted_by_user_id : Text
  pub created_at : ℕ
  pub updated_at : ℕ

pub record User : Type 0 where
  pub id : Text
  pub status : Text

pub record CreateEventRequest : Type 0 where
  pub title : Text
  pub description : Text
  pub event_date : Text
  pub end_date : Option Text
  pub location : Text
  pub timezone : Text
  pub retention_days : Option ℤ
  pub show_headcount : Option Bool
  pub show_guest_list : Option Bool
  pub rsvp_deadline : Option Text

pub record UpdateEventRequest : Type 0 where
  pub title : Option Text
  pub description : Option Text
  pub event_date : Option Text
  pub end_date : Option Text
  pub location : Option Text
  pub timezone : Option Text
  pub retention_days : Option ℤ
  pub show_headcount : Option Bool
  pub show_guest_list : Option Bool
  pub rsvp_deadline : Option Text
