-- ===== src/Event/Request/Valid.antt =====
-- The limits that a new event and a changed one keep.
use owl_invites.Base.{ℕ, ◌≡◌, ◌≢◌, ◌≤◌, ◌⊎◌, Option, none, some, [], arith, length, ℤ, ok}
use owl_invites.Text.{Text, lit, text_eq_iff}
use owl_invites.Platform.{Platform}
use owl_invites.Event.Model.{Event, EventRow, CreateEventRequest, UpdateEventRequest}
use owl_invites.Event.Request.{new_event, changed_event}

abbrev pub NotAfter : Option ℕ → ℕ → Type 0
NotAfter none t = Unit
NotAfter (some d) t = d ≤ t

-- The deadline is on or before the date of the event.
abbrev pub IsTimely : EventRow → Type 0
IsTimely e = NotAfter e.rsvp_deadline e.event_date

abbrev pub IsShort : EventRow → Type 0
IsShort e = (length e.title ≤ 200) × (length e.description ≤ 5000) × (length e.location ≤ 500)

abbrev pub IsValid : EventRow → Type 0
IsValid e = IsShort e × IsTimely e

-- A request that is accepted makes a draft that has a title, keeps the limits of length, and has
-- its deadline on or before its date.
pub new_event-IsValid :
    (p : Platform) (retention : ℤ) (user : Text) (req : CreateEventRequest) {e : Event}
    → new_event p retention user req ≡ ok e
    → IsValid e.columns × (e.columns.title ≢ []) × (e.columns.status ≡ lit "draft")
unfolding new_event
new_event-IsValid p retention user req {e} h = ground (arith, text_eq_iff req.title [])

-- A change that is accepted keeps the limits of length and the deadline on or before the date, if
-- the request does not move the date, or also names a deadline.
pub changed_event-IsValid :
    (p : Platform) (req : UpdateEventRequest) (e : EventRow) {new : EventRow}
    → changed_event p req e ≡ ok new
    → (req.event_date ≡ none) ⊎ (req.rsvp_deadline ≢ none)
    → IsValid e
    → IsValid new
unfolding changed_event
changed_event-IsValid p req e {new} h dates valid = ground arith
