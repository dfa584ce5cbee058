-- ===== src/Invitation/Open.antt =====
-- internal/invitation/service.go: open enrollment, as an organizer offers it and a guest uses it.
pub mod Proofs
mod Tests
use owl_invites.Base.{
  ℕ, ◌+◌, Bool, true, false, not, ◌&&◌, ◌||◌, Option, none, some, List, [], ◌∷◌, length, ltb, leb,
  ◌==◌, if◌then◌else◌, ℤ, pos, negsuc, Result, ok, err, Error, validation, internal,
  invalid_capability,
}
use owl_invites.Text.{Text, lit, text_eq}
use owl_invites.Text.Trim.{trim_space}
use owl_invites.Table.{find_where}
use owl_invites.Platform.{Platform}
use owl_invites.Event.Model.{EventRow}
use owl_invites.Event.Store.{has_id, lift}
use owl_invites.Invitation.Capability.{parse_open}
use owl_invites.Invitation.Contact.{Contact, validate_contact, is_none}
use owl_invites.Invitation.Database.{Invitation, OpenEnrollmentConfig}
use owl_invites.Invitation.Model.{source_open}
use owl_invites.Invitation.Action.{
  Action, ◌>>=◌, ◌>>◌, pure, fail, reject, call, query, present, new_id, random_token,
}
use owl_invites.Invitation.Store.Sessions.{hash_token}
use owl_invites.Invitation.Store.Enrollment.{
  before_opening, not_before_closing, find_open_by_access_id, find_open_by_event, configure_open,
  rotate_open, enroll_open,
}
use owl_invites.Invitation.Delivery.{Service, open_access_url}
use owl_invites.Invitation.Private.{DeliveryResult, attempt_delivery, named_guests}

pub record ConfigureOpenRequest : Type 0 where
  pub enabled : Bool
  pub opens_at : Option Text
  pub closes_at : Option Text
  pub max_party_size : ℤ
  pub capacity : Option ℤ

pub record OpenEnrollmentRequest : Type 0 where
  pub capability : Text
  pub label : Text
  pub contact_email : Option Text
  pub contact_phone : Option Text
  pub preferred_delivery_method : Text
  pub guest_names : List Text

-- `parseOptionalTime`, with the message that its callers give to every error.
abbrev pub parsed_time : Error → Option ℕ → Result (Option ℕ)
parsed_time e none = err e
parsed_time e (some t) = ok (some t)

unfoldable pub parse_optional_time : Platform → Error → Option Text → Result (Option ℕ)
parse_optional_time p e none = ok none
parse_optional_time p e (some raw) =
    if text_eq (trim_space raw) []
    then ok none
    else parsed_time e (p.parse_time (lit "2006-01-02T15:04:05Z07:00") raw)

abbrev pub party_size : ℤ → Result ℕ
party_size (pos n) =
    if ltb n 1 || ltb 50 n
    then err (validation "max party size must be between 1 and 50" [])
    else ok n
party_size (negsuc n) = err (validation "max party size must be between 1 and 50" [])

abbrev pub capacity_of : Option ℤ → Result (Option ℕ)
capacity_of none = ok none
capacity_of (some (pos n)) =
    if ltb n 1 then err (validation "capacity must be positive" []) else ok (some n)
capacity_of (some (negsuc n)) = err (validation "capacity must be positive" [])

abbrev pub check_window : Option ℕ → Option ℕ → Result (Unit {0})
check_window (some opens_at) (some closes_at) =
    if ltb opens_at closes_at then ok tt else err (validation "opensAt must be before closesAt" [])
check_window _ _ = ok tt

-- The stored offer, or a new one under a fresh selector.
abbrev pub or_new_offer :
    Platform → Text → Option OpenEnrollmentConfig → Action OpenEnrollmentConfig
or_new_offer p event_id (some c) = pure c
or_new_offer p event_id none = do
  access_id ← random_token p
  id ← new_id p
  pure (record {
    id = id;
    event_id = event_id;
    access_id = access_id;
    token_version = 1;
    enabled = false;
    opens_at = none;
    closes_at = none;
    max_party_size = 0;
    capacity = none;
    revoked_at = none;
  })

unfoldable pub offer_open :
    Platform → Service → Text → ConfigureOpenRequest → Action (OpenEnrollmentConfig × Text)
offer_open p svc event_id req = do
  size ← lift (party_size req.max_party_size)
  capacity ← lift (capacity_of req.capacity)
  opens_at ← lift (parse_optional_time p (validation "opensAt must be RFC3339" []) req.opens_at)
  closes_at ← lift (parse_optional_time p (validation "closesAt must be RFC3339" []) req.closes_at)
  lift (check_window opens_at closes_at)
  found ← find_open_by_event event_id
  c ← or_new_offer p event_id found
  configure_open (record c {
    enabled = req.enabled;
    opens_at = opens_at;
    closes_at = closes_at;
    max_party_size = size;
    capacity = capacity;
  })
  stored ← find_open_by_event event_id
  c' ← present stored (internal "nil open enrollment")
  pure (c', open_access_url p svc c')

unfoldable pub renew_open : Platform → Service → Text → Action (OpenEnrollmentConfig × Text)
renew_open p svc event_id = do
  stored ← rotate_open event_id
  c ← present stored (internal "nil open enrollment")
  pure (c, open_access_url p svc c)

-- The test of `validOpen` on the row that was found.
abbrev pub is_valid_open : ℕ → ℕ → OpenEnrollmentConfig → Bool
is_valid_open version now c =
    c.token_version == version
    && c.enabled
    && is_none c.revoked_at
    && not (before_opening now c.opens_at)
    && not (not_before_closing now c.closes_at)

abbrev pub found_open : ℕ → ℕ → Option OpenEnrollmentConfig → Action OpenEnrollmentConfig
found_open version now none = fail invalid_capability
found_open version now (some c) =
    if is_valid_open version now c then pure c else fail invalid_capability

-- Every refusal of the parser is the same error.
abbrev pub parsed_open : Result (Text × ℕ) → Result (Text × ℕ)
parsed_open (ok r) = ok r
parsed_open (err e) = err invalid_capability

unfoldable pub valid_open : Platform → Service → Text → ℕ → Action OpenEnrollmentConfig
valid_open p svc raw now = do
  r ← lift (parsed_open (parse_open p.hmac svc.signer raw))
  found ← find_open_by_access_id r.0
  found_open r.1 now found

-- `EventSummary` of internal/invitation/event_store.go
abbrev pub event_summary : Text → Action EventRow
event_summary event_id = do
  found ← query "scan invitation event: %w" (λ db. find_where (has_id event_id) db.events)
  present found (internal "scan invitation event: %w")

unfoldable pub inspect_open :
    Platform → Service → Text → ℕ → Action (OpenEnrollmentConfig × EventRow)
inspect_open p svc raw now = do
  c ← valid_open p svc raw now
  event ← event_summary c.event_id
  pure (c, event)

abbrev pub check_enrollment : OpenEnrollmentConfig → OpenEnrollmentRequest → Result (Unit {0})
check_enrollment c req =
    if text_eq (trim_space req.label) []
    then err (validation "label is required" [])
    else if ltb (length req.guest_names) 1 || ltb c.max_party_size (length req.guest_names)
    then err (validation "party size is outside the open invitation limit" [])
    else ok tt

abbrev pub check_method : Text → Result (Unit {0})
check_method method =
    if text_eq (trim_space method) (lit "email")
    then ok tt
    else err (validation "open enrollment requires email delivery" [])

abbrev pub check_open_name : Text → Result (Unit {0})
check_open_name name =
    if text_eq name [] || ltb 200 (length name)
    then err (validation "guest names must be between 1 and 200 characters" [])
    else ok tt

abbrev pub enrolled_row : Text → OpenEnrollmentConfig → Text → Contact → Text → Invitation
enrolled_row id c label contact access_id = record {
  id = id;
  event_id = c.event_id;
  label = label;
  contact_email = contact.email;
  normalized_contact_email = none;
  contact_phone = contact.phone;
  normalized_contact_phone = none;
  preferred_delivery_method = contact.method;
  additional_guest_allowance = 0;
  source = source_open;
  open_enrollment_id = some c.id;
  access_id = access_id;
  token_version = 1;
  created_by_user_id = none;
  revoked_at = none;
  revocation_reason = none;
}

-- The session token, the invitation, and what became of its delivery; the rest of the household,
-- which the source puts together for its answer, is left out. `later` and `expires_at` are
-- the times that the transaction reads and that the session ends.
unfoldable pub enroll :
    Platform
    → Service
    → OpenEnrollmentRequest
    → ℕ
    → ℕ
    → ℕ
    → Action (Text × Invitation × DeliveryResult)
enroll p svc req now later expires_at = do
  c ← valid_open p svc req.capability now
  lift (check_enrollment c req)
  event ← event_summary c.event_id
  call "list invitation questions"
  lift (check_method req.preferred_delivery_method)
  contact ← lift (validate_contact p req.contact_email req.contact_phone (lit "email"))
  access_id ← random_token p
  id ← new_id p
  guests ← named_guests p check_open_name 0 req.guest_names
  session ← random_token p
  enroll_open p c (enrolled_row id c (trim_space req.label) contact access_id) guests
      (hash_token p session) expires_at later
  delivery ← attempt_delivery p svc id (
      lit
        "Enrollment succeeded, but the management email could not be sent. Keep this browser session open or request recovery later.")
  pure (session, enrolled_row id c (trim_space req.label) contact access_id, delivery)
