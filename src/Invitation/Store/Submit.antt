-- ===== src/Invitation/Store/Submit.antt =====
-- `SubmitResponse` of internal/invitation/response_store.go, with `updateGuestAttendance`,
-- `loadActiveGuestsTx`, `loadQuestionsTx` and `replaceAnswers`.
mod Tests
mod SessionTests
mod Keeps
pub mod Proofs
use owl_invites.Base.{
  ℕ, suc, ◌+◌, Bool, true, false, not, ◌&&◌, ◌||◌, Option, none, some, List, [], ◌∷◌, ◌++◌, ◌==◌,
  ltb, length, if◌then◌else◌, Result, ok, err, Error, internal, validation, not_found, conflict,
  allowance_exceeded,
}
use owl_invites.Text.{Text, lit, text_eq}
use owl_invites.Text.Trim.{trim_space}
use owl_invites.Map.{Map, lookup, insert, remove, contains}
use owl_invites.Table.{count_where, update_where, find_where, select_where}
use owl_invites.Platform.{Platform}
use owl_invites.Invitation.Model.{
  Question, Guest, AdditionalGuestInput, GuestAttendanceInput, SubmitRequest, attendance_pending,
  guest_origin_assigned, guest_origin_additional,
}
use owl_invites.Invitation.Contact.{is_none}
use owl_invites.Invitation.Answers.{valid_attendance, validate_response_answers, guest_ids}
use owl_invites.Invitation.Database.{
  Db, Invitation, ResponseRow, GuestRow, GuestResponseRow, InvitationAnswerRow, GuestAnswerRow,
  QuestionRow,
}
use owl_invites.Invitation.Action.{
  Conn, Action, ◌>>=◌, ◌>>◌, pure, fail, reject, query, exec, exec_count, present, new_id,
  transaction,
}
use owl_invites.Invitation.Store.Rows.{insert_guest}
use owl_invites.Invitation.Store.Sessions.{or_else}

abbrev attendance_of : Option GuestResponseRow → Text
attendance_of none = attendance_pending
attendance_of (some r) = r.attendance

-- The active guests of an invitation, with their attendance.
active_guests : List GuestResponseRow → Text → List GuestRow → List Guest
active_guests responses id [] = []
active_guests responses id (g ∷ gs) =
    let rest = active_guests responses id gs in
    if text_eq g.invitation_id id && is_none g.removed_at
    then record {
      id = g.id;
      invitation_id = g.invitation_id;
      name = g.name;
      origin = g.origin;
      sort_order = g.sort_order;
      attendance = attendance_of (find_where (λ r. text_eq r.guest_id g.id) responses);
    }
      ∷ rest
    else rest

load_active_guests : Text → Action (List Guest)
load_active_guests id =
    query "load active guests" (λ db. active_guests db.guest_responses id db.guests)

event_questions : Text → List QuestionRow → List Question
event_questions event_id [] = []
event_questions event_id (q ∷ qs) =
    let rest = event_questions event_id qs in
    if text_eq q.event_id event_id && not q.deleted then q.question ∷ rest else rest

load_questions : Text → Action (List Question)
load_questions event_id =
    query "load response questions" (λ db. event_questions event_id db.questions)

-- The guests of one origin, as the keys of a Go map.
with_origin : Bool → List Guest → List Text
with_origin assigned [] = []
with_origin assigned (g ∷ gs) =
    let rest = with_origin assigned gs in
    let here = text_eq g.origin guest_origin_assigned in
    if assigned && here || not assigned && not here then g.id ∷ rest else rest

-- INSERT … ON CONFLICT(guest_id) DO UPDATE
abbrev upsert_attendance : GuestResponseRow → List GuestResponseRow → List GuestResponseRow
upsert_attendance n [] = n ∷ []
upsert_attendance n (r ∷ rs) =
    if text_eq r.guest_id n.guest_id
    then record r { attendance = n.attendance } ∷ rs
    else r ∷ upsert_attendance n rs

update_guest_attendance : Text → Text → Text → Action (Unit {0})
update_guest_attendance response_id guest_id attendance = exec "update guest attendance" (λ db.
    record db {
      guest_responses =
          upsert_attendance
            (record {
              rsvp_response_id = response_id;
              guest_id = guest_id;
              attendance = attendance;
            })
            db.guest_responses;
    })

update_assigned : Text → List Text → List GuestAttendanceInput → Action (Unit {0})
update_assigned response_id assigned [] = pure tt
update_assigned response_id assigned (u ∷ us) = do
  reject (not (contains assigned u.guest_id))
      (validation "assigned guest does not belong to this invitation" [])
  reject (not (valid_attendance u.attendance)) (validation "invalid attendance" [])
  update_guest_attendance response_id u.guest_id u.attendance
  update_assigned response_id assigned us

-- What the loop over the additional guests changes: the guests that are kept, the client keys
-- that were seen, and the answers, in which a client key gives way to the new guest's id.
record Additions : Type 0 where
  kept : List Text
  client_keys : List Text
  answers : Map (Map Text)

-- The invitation that is answered, and the ids of its guests.
record Target : Type 0 where
  invitation_id : Text
  response_id : Text
  assigned : List Text
  additional : List Text

abbrev move_answers : Text → Text → Option (Map Text) → Map (Map Text) → Map (Map Text)
move_answers client_key guest_id none answers = answers
move_answers client_key guest_id (some given) answers =
    insert guest_id given (remove client_key answers)

create_additional :
    Platform → Target → ℕ → AdditionalGuestInput → Text → Additions → Action (Text × Additions)
create_additional p t i input name a = do
  let client_key = trim_space input.client_key
  let blank = text_eq client_key []
  reject (not blank && ltb 100 (length client_key))
      (validation "additional guest client key must be 100 characters or fewer" [])
  reject
      (not blank
        && (contains a.client_keys client_key
            || contains t.assigned client_key
            || contains t.additional client_key))
      (validation "additional guest client key is invalid or duplicated" [])
  guest_id ← new_id p
  insert_guest "create additional guest" (record {
    id = guest_id;
    invitation_id = t.invitation_id;
    name = name;
    origin = guest_origin_additional;
    sort_order = length t.assigned + i;
    removed_at = none;
  })
  pure (
    guest_id,
    if blank then a else record a {
      client_keys = client_key ∷ a.client_keys;
      answers = move_answers client_key guest_id (lookup client_key a.answers) a.answers;
    },
  )

-- The additional guest `id` of the invitation, where it is active.
abbrev is_additional : Text → Text → GuestRow → Bool
is_additional invitation_id id g =
    text_eq g.id id
    && text_eq g.invitation_id invitation_id
    && text_eq g.origin guest_origin_additional
    && is_none g.removed_at

keep_additional : Target → AdditionalGuestInput → Text → Additions → Action (Text × Additions)
keep_additional t input name a = do
  reject (not (text_eq (trim_space input.client_key) []))
      (validation "persisted additional guests must not include a client key" [])
  reject (not (contains t.additional input.id))
      (validation "additional guest does not belong to this invitation" [])
  exec "rename additional guest" (λ db. record db {
    guests =
        update_where (is_additional t.invitation_id input.id) (λ g. record g { name = name })
          db.guests;
  })
  pure (input.id, a)

submit_additional : Platform → Target → ℕ → AdditionalGuestInput → Additions → Action Additions
submit_additional p t i input a = do
  let name = trim_space input.name
  reject (text_eq name []) (validation "additional guest name is required" [])
  reject (ltb 200 (length name))
      (validation "additional guest name must be 200 characters or fewer" [])
  reject (not (valid_attendance input.attendance)) (validation "invalid attendance" [])
  (guest_id, b) ←
      if text_eq input.id []
      then create_additional p t i input name a
      else keep_additional t input name a
  update_guest_attendance t.response_id guest_id input.attendance
  pure (record b { kept = guest_id ∷ b.kept })

submit_additionals :
    Platform → Target → ℕ → List AdditionalGuestInput → Additions → Action Additions
submit_additionals p t i [] a = pure a
submit_additionals p t i (input ∷ inputs) a = do
  b ← submit_additional p t i input a
  submit_additionals p t (suc i) inputs b

abbrev remove_guest : Text → ℕ → Text → Db → Db
remove_guest invitation_id now id db = record db {
  guests =
      update_where (is_additional invitation_id id) (λ g. record g { removed_at = some now })
        db.guests;
}

-- The additional guests that are not kept.
remove_missing : Text → ℕ → List Text → List Text → Action (Unit {0})
remove_missing invitation_id now kept [] = pure tt
remove_missing invitation_id now kept (id ∷ ids) = do
  (if contains kept id
      then pure tt
      else exec "remove additional guest" (remove_guest invitation_id now id))
  remove_missing invitation_id now kept ids

abbrev add_invitation_answer : Text → Text → Text → Db → Db
add_invitation_answer invitation_id question_id answer db = record db {
  invitation_answers =
      db.invitation_answers
      ++ record { invitation_id = invitation_id; question_id = question_id; answer = answer } ∷ [];
}

save_invitation_answers : Text → Map Text → Action (Unit {0})
save_invitation_answers invitation_id [] = pure tt
save_invitation_answers invitation_id ((question_id, answer) ∷ rest) = do
  exec "save invitation answer" (add_invitation_answer invitation_id question_id answer)
  save_invitation_answers invitation_id rest

abbrev drop_guest_answers : Text → Db → Db
drop_guest_answers id db = record db {
  guest_answers = select_where (λ a. not (text_eq a.guest_id id)) db.guest_answers;
}

clear_guest_answers : List Text → Action (Unit {0})
clear_guest_answers [] = pure tt
clear_guest_answers (id ∷ ids) = do
  exec "replace guest answers" (drop_guest_answers id)
  clear_guest_answers ids

abbrev add_guest_answer : Text → Text → Text → Db → Db
add_guest_answer guest_id question_id answer db = record db {
  guest_answers =
      db.guest_answers
      ++ record { guest_id = guest_id; question_id = question_id; answer = answer } ∷ [];
}

save_answers_of : Text → Map Text → Action (Unit {0})
save_answers_of guest_id [] = pure tt
save_answers_of guest_id ((question_id, answer) ∷ rest) = do
  exec "save guest answer" (add_guest_answer guest_id question_id answer)
  save_answers_of guest_id rest

save_guest_answers : List Text → Map (Map Text) → Action (Unit {0})
save_guest_answers ids [] = pure tt
save_guest_answers ids ((guest_id, answers) ∷ rest) = do
  reject (not (contains ids guest_id))
      (validation "guest answer does not belong to this invitation" [])
  save_answers_of guest_id answers
  save_guest_answers ids rest

abbrev drop_invitation_answers : Text → Db → Db
drop_invitation_answers invitation_id db = record db {
  invitation_answers =
      select_where (λ a. not (text_eq a.invitation_id invitation_id)) db.invitation_answers;
}

replace_answers : Text → List Guest → Map Text → Map (Map Text) → Action (Unit {0})
replace_answers invitation_id guests invitation_answers guest_answers = do
  exec "replace invitation answers" (drop_invitation_answers invitation_id)
  save_invitation_answers invitation_id invitation_answers
  clear_guest_answers (guest_ids guests)
  save_guest_answers (guest_ids guests) guest_answers

abbrev checked : Result (Unit {0}) → Action (Unit {0})
checked (ok u) = pure u
checked (err e) = fail e

-- The answers, over the guests that are active by now.
finish_response : Platform → Text → Text → SubmitRequest → Action (Unit {0})
finish_response p invitation_id event_id req = do
  guests ← load_active_guests invitation_id
  questions ← load_questions event_id
  checked (validate_response_answers p questions guests req)
  replace_answers invitation_id guests req.invitation_answers req.guest_answers

abbrev target_of : Text → Text → List Guest → Target
target_of invitation_id response_id existing = record {
  invitation_id = invitation_id;
  response_id = response_id;
  assigned = with_origin true existing;
  additional = with_origin false existing;
}

abbrev no_additions : SubmitRequest → Additions
no_additions req = record { kept = []; client_keys = []; answers = req.guest_answers }

apply_guests : Platform → Target → Text → ℕ → SubmitRequest → Action (Unit {0})
apply_guests p t event_id now req = do
  update_assigned t.response_id t.assigned req.assigned_guests
  a ← submit_additionals p t 0 req.additional_guests (no_additions req)
  remove_missing t.invitation_id now a.kept t.additional
  finish_response p t.invitation_id event_id (record req { guest_answers = a.answers })

find_response : Text → Action (Option ResponseRow)
find_response invitation_id =
    query "load response id"
      (λ db. find_where (λ r. text_eq r.invitation_id invitation_id) db.responses)

-- The body behind the version: guests, then answers.
pub apply_response : Platform → Text → Text → ℕ → SubmitRequest → Action (Unit {0})
apply_response p invitation_id event_id now req = do
  row ← find_response invitation_id
  r ← present row (internal "load response id")
  existing ← load_active_guests invitation_id
  apply_guests p (target_of invitation_id r.id existing) event_id now req

abbrev pub is_version : Text → ℕ → ResponseRow → Bool
is_version invitation_id version r = text_eq r.invitation_id invitation_id && r.version == version

abbrev pub advanced : ℕ → ResponseRow → ResponseRow
advanced now r = record r {
  version = r.version + 1;
  submitted_at = or_else r.submitted_at (some now);
  updated_at = now;
}

-- The optimistic version.
advance_version : Text → ℕ → ℕ → Action (Unit {0})
advance_version invitation_id version now = do
  changed ←
      exec_count "advance response version"
        (λ db. count_where (is_version invitation_id version) db.responses)
        (λ db. record db {
          responses = update_where (is_version invitation_id version) (advanced now) db.responses;
        })
  reject (not (changed == 1)) conflict

-- The lock and the allowance.
lock_invitation : Text → ℕ → Action Invitation
lock_invitation invitation_id additional = do
  locked ←
      exec_count "lock invitation"
        (λ db. count_where (λ i. text_eq i.id invitation_id && is_none i.revoked_at) db.invitations)
        (λ db. db)
  reject (not (locked == 1)) not_found
  row ←
      query "load invitation allowance"
        (λ db. find_where (λ i. text_eq i.id invitation_id) db.invitations)
  i ← present row (internal "load invitation allowance")
  reject (ltb i.additional_guest_allowance additional) allowance_exceeded
  pure i

submit_body : Platform → Text → SubmitRequest → ℕ → Action (Unit {0})
submit_body p invitation_id req now = do
  i ← lock_invitation invitation_id (length req.additional_guests)
  advance_version invitation_id req.version now
  apply_response p invitation_id i.event_id now req

pub submit_response : Platform → Text → SubmitRequest → ℕ → Action (Unit {0})
submit_response p invitation_id req now =
    transaction "begin response" "commit response" (submit_body p invitation_id req now)
