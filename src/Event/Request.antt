-- ===== src/Event/Request.antt =====
-- internal/event/service.go: the checks of a request, and the event that it makes of a new or an
-- old one. Nothing is read or written here but the request and the event.
pub mod Valid
use owl_invites.Base.{
  ℕ, Bool, true, false, Option, none, some, List, [], ◌∷◌, String, ltb, length, if◌then◌else◌, ℤ,
  positive, Result, ok, err, validation, wrapped, num, str, reject, ◌>>=◌, ◌>>◌,
}
use owl_invites.Text.{Text, lit, text_eq}
use owl_invites.Platform.{Platform}
use owl_invites.Event.Model.{Event, EventRow, CreateEventRequest, UpdateEventRequest}

-- `parseFlexibleTime`: the first layout that fits.
abbrev pub or_try : Option ℕ → Result ℕ → Result ℕ
or_try none rest = rest
or_try (some t) rest = ok t

unfoldable pub try_layouts : Platform → Text → List Text → Result ℕ
try_layouts p s [] = err (validation "unrecognized datetime format: %s" (str s ∷ []))
try_layouts p s (layout ∷ layouts) = or_try (p.parse_time layout s) (try_layouts p s layouts)

unfoldable pub parse_flexible_time : Platform → Text → Result ℕ
parse_flexible_time p s =
    try_layouts p s
      (lit "2006-01-02T15:04:05Z07:00" ∷ lit "2006-01-02T15:04:05" ∷ lit "2006-01-02T15:04" ∷ [])

abbrev pub wrap : String → Result ℕ → Result ℕ
wrap message (ok t) = ok t
wrap message (err e) = err (wrapped message [] e)

-- A time of a request, with the message that a bad one gets.
abbrev pub time_of : Platform → String → Text → Result ℕ
time_of p message s = wrap message (parse_flexible_time p s)

abbrev pub max_title_len : ℕ
max_title_len = 200

abbrev pub max_description_len : ℕ
max_description_len = 5000

abbrev pub max_location_len : ℕ
max_location_len = 500

abbrev pub check_len : Text → ℕ → String → Result (Unit {0})
check_len s most message = reject (ltb most (length s)) (validation message (num most ∷ []))

-- A time that may be missing or empty.
abbrev pub optional_time : Platform → String → Option Text → Result (Option ℕ)
optional_time p message none = ok none
optional_time p message (some s) =
    if text_eq s [] then ok none else (do t ← time_of p message s; ok (some t))

abbrev pub check_deadline : Option ℕ → ℕ → Result (Unit {0})
check_deadline none event_date = ok tt
check_deadline (some deadline) event_date =
    reject (ltb event_date deadline)
      (validation "RSVP deadline must be on or before the event date" [])

abbrev pub value_or {ℓ} : {A : Type ℓ} → A → Option A → A
value_or a none = a
value_or a (some b) = b

abbrev pub positive_or : ℤ → Option ℤ → ℤ
positive_or n none = n
positive_or n (some m) = if positive m then m else n

-- The event of a valid request; its identifier and times of writing come later.
unfoldable pub new_event : Platform → ℤ → Text → CreateEventRequest → Result Event
new_event p default_retention organizer_id req = do
  reject (text_eq req.title []) (validation "title is required" [])
  check_len req.title max_title_len "title must be %d characters or less"
  check_len req.description max_description_len "description must be %d characters or less"
  check_len req.location max_location_len "location must be %d characters or less"
  reject (text_eq req.event_date []) (validation "eventDate is required" [])
  event_date ← time_of p "invalid eventDate format: %w" req.event_date
  end_date ← optional_time p "invalid endDate format: %w" req.end_date
  rsvp_deadline ← optional_time p "invalid rsvpDeadline format: %w" req.rsvp_deadline
  check_deadline rsvp_deadline event_date
  ok (record {
    organizer_id = organizer_id;
    columns = record {
      id = [];
      title = req.title;
      description = req.description;
      event_date = event_date;
      end_date = end_date;
      location = req.location;
      timezone = if text_eq req.timezone [] then lit "America/New_York" else req.timezone;
      retention_days = positive_or default_retention req.retention_days;
      status = lit "draft";
      show_headcount = value_or false req.show_headcount;
      show_guest_list = value_or false req.show_guest_list;
      rsvp_deadline = rsvp_deadline;
      series_id = none;
      series_index = none;
      series_override = false;
      created_at = 0;
      updated_at = 0;
    };
  })

-- A text field of a change: it is checked where it is given.
abbrev pub changed_text : Text → Option Text → ℕ → String → Result Text
changed_text old none most message = ok old
changed_text old (some new) most message = do check_len new most message; ok new

abbrev pub changed_date : Platform → ℕ → Option Text → Result ℕ
changed_date p old none = ok old
changed_date p old (some s) = time_of p "invalid eventDate format: %w" s

-- An empty text takes the time away.
abbrev pub changed_end : Platform → Option ℕ → Option Text → Result (Option ℕ)
changed_end p old none = ok old
changed_end p old (some s) = optional_time p "invalid endDate format: %w" (some s)

-- The deadline is compared with the event's date only where it is given.
abbrev pub changed_deadline : Platform → Option ℕ → ℕ → Option Text → Result (Option ℕ)
changed_deadline p old event_date none = ok old
changed_deadline p old event_date (some s) = do
  deadline ← optional_time p "invalid rsvpDeadline format: %w" (some s)
  check_deadline deadline event_date
  ok deadline

unfoldable pub changed_event : Platform → UpdateEventRequest → EventRow → Result EventRow
changed_event p req e = do
  title ← changed_text e.title req.title max_title_len "title must be %d characters or less"
  description ←
      changed_text e.description req.description max_description_len
        "description must be %d characters or less"
  event_date ← changed_date p e.event_date req.event_date
  end_date ← changed_end p e.end_date req.end_date
  location ←
      changed_text e.location req.location max_location_len "location must be %d characters or less"
  rsvp_deadline ← changed_deadline p e.rsvp_deadline event_date req.rsvp_deadline
  ok (record e {
    title = title;
    description = description;
    event_date = event_date;
    end_date = end_date;
    location = location;
    timezone = value_or e.timezone req.timezone;
    retention_days = value_or e.retention_days req.retention_days;
    show_headcount = value_or e.show_headcount req.show_headcount;
    show_guest_list = value_or e.show_guest_list req.show_guest_list;
    rsvp_deadline = rsvp_deadline;
  })
