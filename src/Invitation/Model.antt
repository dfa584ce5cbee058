-- ===== src/Invitation/Model.antt =====
-- internal/invitation/model.go: the records that the service and the store exchange.
use owl_invites.Base.{ℕ, Bool, List}
use owl_invites.Text.{Text, lit}
use owl_invites.Map.{Map}

abbrev pub source_private : Text
source_private = lit "private"

abbrev pub source_open : Text
source_open = lit "open"

abbrev pub guest_origin_assigned : Text
guest_origin_assigned = lit "assigned"

abbrev pub guest_origin_additional : Text
guest_origin_additional = lit "additional"

abbrev pub attendance_pending : Text
attendance_pending = lit "pending"

abbrev pub attendance_attending : Text
attendance_attending = lit "attending"

abbrev pub attendance_maybe : Text
attendance_maybe = lit "maybe"

abbrev pub attendance_declined : Text
attendance_declined = lit "declined"

abbrev pub question_scope_invitation : Text
question_scope_invitation = lit "invitation"

abbrev pub question_scope_guest : Text
question_scope_guest = lit "guest"

-- A question of the event; `kind` is the field `Type`.
pub record Question : Type 0 where
  pub id : Text
  pub label : Text
  pub kind : Text
  pub options : List Text
  pub required : Bool
  pub scope : Text
  pub sort_order : ℕ

-- A guest with the attendance that the store joins to it. Times are not kept.
pub record Guest : Type 0 where
  pub id : Text
  pub invitation_id : Text
  pub name : Text
  pub origin : Text
  pub sort_order : ℕ
  pub attendance : Text

pub record AdditionalGuestInput : Type 0 where
  pub id : Text
  pub client_key : Text
  pub name : Text
  pub attendance : Text

pub record GuestAttendanceInput : Type 0 where
  pub guest_id : Text
  pub attendance : Text

pub record SubmitRequest : Type 0 where
  pub version : ℕ
  pub assigned_guests : List GuestAttendanceInput
  pub additional_guests : List AdditionalGuestInput
  pub invitation_answers : Map Text
  pub guest_answers : Map (Map Text)
