-- ===== src/Invitation/Answers/Spec.antt =====
-- What a complete set of answers is, said without the loops, and that the code accepts exactly
-- the complete ones.
use owl_invites.Base.{
  ◌≤◌, ◌≡◌, ◌↔◌, ◌⊎◌, refl, true, false, List, [], ◌∷◌, Option, none, some, arith, length, All, ok,
  Error, validation,
}
use owl_invites.Text.{Text, lit, text_eq, text_eq_iff}
use owl_invites.Text.Trim.{trim_space}
use owl_invites.Map.{Map, lookup, text_or, contains_iff, Elem}
use owl_invites.Platform.{Platform}
use owl_invites.Invitation.Model.{
  Question, Guest, SubmitRequest, attendance_attending, question_scope_invitation,
  question_scope_guest,
}
use owl_invites.Invitation.Answers.{
  all_allowed, check_selected, validate_answer, question_by_id, answers_of, require_invitation,
  require_guest, require_guests, check_answer, check_answers, guest_ids, check_guest_answers,
  validate_response_answers,
}

-- A checkbox answer is blank, or an array of options.
abbrev pub IsSelection : List Text → Option (List Text) → Type 0
IsSelection options none = ⊥
IsSelection options (some selected) = All (λ o. Elem o options) selected

-- An answer that fits the kind of its question.
abbrev pub Fits : Platform → Question → Text → Type 0
Fits p q answer =
    (q.kind ≡ lit "text")
    ⊎ (q.kind ≡ lit "select") × ((answer ≡ []) ⊎ Elem answer q.options)
    ⊎ (q.kind ≡ lit "checkbox")
      × ((answer ≡ []) ⊎ IsSelection q.options (p.unmarshal_strings answer))

all_allowed_iff :
    (options selected : List Text)
    → (all_allowed options selected ≡ true) ↔ All (λ o. Elem o options) selected
unfolding all_allowed
all_allowed_iff options [] = ground arith
all_allowed_iff options (o ∷ os) =
    ground (arith, contains_iff options o, all_allowed_iff options os)

select-ne-text : text_eq (lit "select") (lit "text") ≡ false
unfolding text_eq lit
select-ne-text = refl

checkbox-ne-text : text_eq (lit "checkbox") (lit "text") ≡ false
unfolding text_eq lit
checkbox-ne-text = refl

checkbox-ne-select : text_eq (lit "checkbox") (lit "select") ≡ false
unfolding text_eq lit
checkbox-ne-select = refl

check_selected_iff :
    (q : Question) (found : Option (List Text))
    → (check_selected q found ≡ ok tt) ↔ IsSelection q.options found
unfolding check_selected
check_selected_iff q none = ground arith
check_selected_iff q (some selected) = ground (arith, all_allowed_iff q.options selected)

-- An answer is accepted exactly when it has at most 1000 bytes and fits its question's kind.
validate_answer_iff :
    (p : Platform) (q : Question) (answer : Text)
    → (validate_answer p q answer ≡ ok tt) ↔ ((length answer ≤ 1000) × Fits p q answer)
unfolding validate_answer
validate_answer_iff p q answer = ground (
  arith,
  text_eq_iff q.kind (lit "text"),
  text_eq_iff q.kind (lit "select"),
  text_eq_iff q.kind (lit "checkbox"),
  text_eq_iff answer [],
  contains_iff q.options answer,
  check_selected_iff q (p.unmarshal_strings answer),
  select-ne-text,
  checkbox-ne-text,
  checkbox-ne-select,
)

-- The question asks for an answer in its scope, and none but white space is given.
abbrev Missing : Text → Question → Map Text → Type 0
Missing scope q answers =
    (q.scope ≡ scope) × (q.required ≡ true) × (trim_space (text_or (lookup q.id answers)) ≡ [])

require_invitation_iff :
    (qs : List Question) (answers : Map Text)
    → (require_invitation qs answers ≡ ok tt)
      ↔ All (λ q. ¬ Missing question_scope_invitation q answers) qs
unfolding require_invitation
require_invitation_iff [] answers = ground arith
require_invitation_iff (q ∷ qs) answers = ground (
  arith,
  text_eq_iff q.scope question_scope_invitation,
  text_eq_iff (trim_space (text_or (lookup q.id answers))) [],
  require_invitation_iff qs answers,
)

require_guest_iff :
    (g : Guest) (qs : List Question) (answers : Map Text)
    → (require_guest g qs answers ≡ ok tt) ↔ All (λ q. ¬ Missing question_scope_guest q answers) qs
unfolding require_guest
require_guest_iff g [] answers = ground arith
require_guest_iff g (q ∷ qs) answers = ground (
  arith,
  text_eq_iff q.scope question_scope_guest,
  text_eq_iff (trim_space (text_or (lookup q.id answers))) [],
  require_guest_iff g qs answers,
)

-- A guest who attends has answered; another need not.
abbrev HasAnswered : List Question → Map (Map Text) → Guest → Type 0
HasAnswered qs answers g =
    g.attendance ≡ attendance_attending
    → All (λ q. ¬ Missing question_scope_guest q (answers_of g.id answers)) qs

require_guests_iff :
    (gs : List Guest) (qs : List Question) (answers : Map (Map Text))
    → (require_guests gs qs answers ≡ ok tt) ↔ All (HasAnswered qs answers) gs
unfolding require_guests
require_guests_iff [] qs answers = ground arith
require_guests_iff (g ∷ gs) qs answers = ground (
  arith,
  text_eq_iff g.attendance attendance_attending,
  require_guest_iff g qs (answers_of g.id answers),
  require_guests_iff gs qs answers,
)

-- The answer is to a question of the scope that is asked, and is accepted for it.
abbrev pub Accepts : Platform → Text → Option Question → Text → Type 0
Accepts p scope none answer = ⊥
Accepts p scope (some q) answer = (q.scope ≡ scope) × (length answer ≤ 1000) × Fits p q answer

check_answer_iff :
    (p : Platform) (scope : Text) (e : Error) (found : Option Question) (answer : Text)
    → (check_answer p scope e found answer ≡ ok tt) ↔ Accepts p scope found answer
unfolding check_answer
check_answer_iff p scope e none answer = ground arith
check_answer_iff p scope e (some q) answer =
    ground (arith, text_eq_iff q.scope scope, validate_answer_iff p q answer)

abbrev pub AllAccept : Platform → Text → Map Question → Map Text → Type 0
AllAccept p scope by_id answers = All (λ a. Accepts p scope (lookup a.0 by_id) a.1) answers

check_answers_iff :
    (p : Platform) (scope : Text) (e : Error) (by_id : Map Question) (answers : Map Text)
    → (check_answers p scope e by_id answers ≡ ok tt) ↔ AllAccept p scope by_id answers
unfolding check_answers
check_answers_iff p scope e by_id [] = ground arith
check_answers_iff p scope e by_id ((id, answer) ∷ rest) = ground (
  arith,
  check_answer_iff p scope e (lookup id by_id) answer,
  check_answers_iff p scope e by_id rest,
)

-- Every map of answers is that of a guest of the household, and each of its answers is accepted.
abbrev pub GuestsAccept : Platform → Map Question → List Guest → Map (Map Text) → Type 0
GuestsAccept p by_id gs answers =
    All (λ a. Elem a.0 (guest_ids gs) × AllAccept p question_scope_guest by_id a.1) answers

check_guest_answers_iff :
    (p : Platform) (by_id : Map Question) (gs : List Guest) (answers : Map (Map Text))
    → (check_guest_answers p by_id gs answers ≡ ok tt) ↔ GuestsAccept p by_id gs answers
unfolding check_guest_answers
check_guest_answers_iff p by_id gs [] = ground arith
check_guest_answers_iff p by_id gs ((id, answers) ∷ rest) = ground (
  arith,
  contains_iff (guest_ids gs) id,
  check_answers_iff p question_scope_guest (validation "invalid guest-scoped question" []) by_id
      answers,
  check_guest_answers_iff p by_id gs rest,
)

-- A complete and well formed set of answers.
abbrev pub IsComplete : Platform → List Question → List Guest → SubmitRequest → Type 0
IsComplete p qs gs req =
    All (λ q. ¬ Missing question_scope_invitation q req.invitation_answers) qs
    × All (HasAnswered qs req.guest_answers) gs
    × AllAccept p question_scope_invitation (question_by_id qs []) req.invitation_answers
    × GuestsAccept p (question_by_id qs []) gs req.guest_answers

-- The answers of a response are accepted exactly when every required question is answered (for
-- the household, and for each guest who attends) and every given answer is to a known question of
-- its scope, for a guest of the household, has at most 1000 bytes and fits the question's kind.
pub validate_response_answers_iff :
    (p : Platform) (qs : List Question) (gs : List Guest) (req : SubmitRequest)
    → (validate_response_answers p qs gs req ≡ ok tt) ↔ IsComplete p qs gs req
unfolding validate_response_answers
validate_response_answers_iff p qs gs req = ground (
  arith,
  require_invitation_iff qs req.invitation_answers,
  require_guests_iff gs qs req.guest_answers,
  check_answers_iff p question_scope_invitation (validation "invalid invitation-scoped question" [])
      (question_by_id qs []) req.invitation_answers,
  check_guest_answers_iff p (question_by_id qs []) gs req.guest_answers,
)
