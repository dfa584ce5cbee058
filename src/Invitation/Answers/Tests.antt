-- ===== src/Invitation/Answers/Tests.antt =====
-- Answers of one household.
use owl_invites.Base.{◌≡◌, ◌↔◌, refl, true, [], ◌∷◌, ok, err, validation, str}
use owl_invites.Text.{Text, lit, text_eq}
use owl_invites.Text.Trim.{trim_space}
use owl_invites.Map.{lookup, insert, contains}
use owl_invites.Fixtures.{toy}
use owl_invites.Invitation.Model.{Question, Guest, SubmitRequest}
use owl_invites.Invitation.Answers.{
  validate_response_answers, validate_answer, question_by_id, require_invitation, require_guest,
  require_guests, check_answer, check_answers, guest_ids, check_guest_answers, check_selected,
  all_allowed,
}
use owl_invites.Invitation.Answers.Spec.{validate_response_answers_iff, IsComplete}

abbrev meal : Question
meal = record {
  id = lit "q1";
  label = lit "Meal";
  kind = lit "select";
  options = lit "fish" ∷ lit "soup" ∷ [];
  required = true;
  scope = lit "guest";
  sort_order = 0;
}

abbrev jane : Guest
jane = record {
  id = lit "g1";
  invitation_id = lit "i1";
  name = lit "Jane";
  origin = lit "assigned";
  sort_order = 0;
  attendance = lit "attending";
}

abbrev request : Text → SubmitRequest
request answer = record {
  version = 1;
  assigned_guests = [];
  additional_guests = [];
  invitation_answers = [];
  guest_answers = (lit "g1", (lit "q1", answer) ∷ []) ∷ [];
}

computes : Unit {0}
unfolding validate_response_answers validate_answer question_by_id require_invitation require_guest
    require_guests check_answer check_answers guest_ids check_guest_answers check_selected
    all_allowed lit text_eq trim_space lookup insert contains
computes = tt

answered : validate_response_answers toy (meal ∷ []) (jane ∷ []) (request (lit "soup")) ≡ ok tt
unfolding computes
answered = refl

not_offered :
    validate_response_answers toy (meal ∷ []) (jane ∷ []) (request (lit "beef"))
    ≡ err (validation "invalid option for %q" (str (lit "Meal") ∷ []))
unfolding computes
not_offered = refl

left_blank :
    validate_response_answers toy (meal ∷ []) (jane ∷ []) (request (lit " "))
    ≡ err (validation "answer required for %s: %s" (str (lit "Jane") ∷ str (lit "Meal") ∷ []))
unfolding computes
left_blank = refl

validate_response_answers_iff_example :
    (validate_response_answers toy (meal ∷ []) (jane ∷ []) (request (lit "soup")) ≡ ok tt)
    ↔ IsComplete toy (meal ∷ []) (jane ∷ []) (request (lit "soup"))
validate_response_answers_iff_example =
    validate_response_answers_iff toy (meal ∷ []) (jane ∷ []) (request (lit "soup"))
