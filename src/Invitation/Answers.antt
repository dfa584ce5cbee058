-- ===== src/Invitation/Answers.antt =====
-- `validateAnswer`, `validateResponseAnswers` and `validAttendance` of
-- internal/invitation/response_store.go.
mod Tests
pub mod Spec
use owl_invites.Base.{
  ℕ, suc, Bool, true, false, ◌&&◌, ◌||◌, not, List, [], ◌∷◌, Option, none, some, ltb, if◌then◌else◌,
  length, Result, ok, err, Error, validation, Arg, str, reject, ◌>>=◌, ◌>>◌,
}
use owl_invites.Text.{Text, lit, text_eq}
use owl_invites.Text.Trim.{trim_space}
use owl_invites.Map.{Map, lookup, insert, text_or, contains}
use owl_invites.Platform.{Platform}
use owl_invites.Invitation.Model.{
  Question, Guest, SubmitRequest, attendance_pending, attendance_attending, attendance_maybe,
  attendance_declined, question_scope_invitation, question_scope_guest,
}

unfoldable pub valid_attendance : Text → Bool
valid_attendance value =
    text_eq value attendance_pending
    || text_eq value attendance_attending
    || text_eq value attendance_maybe
    || text_eq value attendance_declined

abbrev pub invalid_option : Question → Error
invalid_option q = validation "invalid option for %q" (str q.label ∷ [])

-- The loop over the selected options.
unfoldable pub all_allowed : List Text → List Text → Bool
all_allowed options [] = true
all_allowed options (o ∷ os) = contains options o && all_allowed options os

unfoldable pub check_selected : Question → Option (List Text) → Result (Unit {0})
check_selected q none =
    err (validation "checkbox answer for %q must be an array" (str q.label ∷ []))
check_selected q (some selected) = reject (not (all_allowed q.options selected)) (invalid_option q)

unfoldable pub validate_answer : Platform → Question → Text → Result (Unit {0})
validate_answer p q answer =
    if ltb 1000 (length answer)
    then err (validation "answer for %q exceeds 1000 characters" (str q.label ∷ []))
    else if text_eq q.kind (lit "text")
    then ok tt
    else if text_eq q.kind (lit "select")
    then (if text_eq answer []
        then ok tt
        else reject (not (contains q.options answer)) (invalid_option q))
    else if text_eq q.kind (lit "checkbox")
    then (if text_eq answer [] then ok tt else check_selected q (p.unmarshal_strings answer))
    else err (validation "invalid question type" [])

abbrev pub is_blank : Option Text → Bool
is_blank answer = text_eq (trim_space (text_or answer)) []

unfoldable pub question_by_id : List Question → Map Question → Map Question
question_by_id [] m = m
question_by_id (q ∷ qs) m = question_by_id qs (insert q.id q m)

unfoldable pub require_invitation : List Question → Map Text → Result (Unit {0})
require_invitation [] answers = ok tt
require_invitation (q ∷ qs) answers = do
  reject (text_eq q.scope question_scope_invitation && q.required && is_blank (lookup q.id answers))
      (validation "answer required for question: %s" (str q.label ∷ []))
  require_invitation qs answers

-- The answers of one guest; a guest without any has the nil map.
abbrev pub answers_of : Text → Map (Map Text) → Map Text
answers_of id answers = elim (lookup id answers) [ none ↦ [] | some given ↦ given ]

unfoldable pub require_guest : Guest → List Question → Map Text → Result (Unit {0})
require_guest g [] answers = ok tt
require_guest g (q ∷ qs) answers = do
  reject (text_eq q.scope question_scope_guest && q.required && is_blank (lookup q.id answers))
      (validation "answer required for %s: %s" (str g.name ∷ str q.label ∷ []))
  require_guest g qs answers

unfoldable pub require_guests : List Guest → List Question → Map (Map Text) → Result (Unit {0})
require_guests [] qs answers = ok tt
require_guests (g ∷ gs) qs answers = do
  (if text_eq g.attendance attendance_attending
      then require_guest g qs (answers_of g.id answers)
      else ok tt)
  require_guests gs qs answers

-- One answer, to a question of the scope.
unfoldable pub check_answer : Platform → Text → Error → Option Question → Text → Result (Unit {0})
check_answer p scope e none answer = err e
check_answer p scope e (some q) answer = do
  reject (not (text_eq q.scope scope)) e
  validate_answer p q answer

unfoldable pub check_answers : Platform → Text → Error → Map Question → Map Text → Result (Unit {0})
check_answers p scope e by_id [] = ok tt
check_answers p scope e by_id ((id, answer) ∷ rest) = do
  check_answer p scope e (lookup id by_id) answer
  check_answers p scope e by_id rest

unfoldable pub guest_ids : List Guest → List Text
guest_ids [] = []
guest_ids (g ∷ gs) = g.id ∷ guest_ids gs

unfoldable pub check_guest_answers :
    Platform → Map Question → List Guest → Map (Map Text) → Result (Unit {0})
check_guest_answers p by_id gs [] = ok tt
check_guest_answers p by_id gs ((id, answers) ∷ rest) = do
  reject (not (contains (guest_ids gs) id))
      (validation "guest answer does not belong to this invitation" [])
  check_answers p question_scope_guest (validation "invalid guest-scoped question" []) by_id answers
  check_guest_answers p by_id gs rest

unfoldable pub validate_response_answers :
    Platform → List Question → List Guest → SubmitRequest → Result (Unit {0})
validate_response_answers p questions guests req = do
  let by_id = question_by_id questions []
  require_invitation questions req.invitation_answers
  require_guests guests questions req.guest_answers
  check_answers p question_scope_invitation (validation "invalid invitation-scoped question" [])
      by_id req.invitation_answers
  check_guest_answers p by_id guests req.guest_answers
