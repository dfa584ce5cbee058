-- ===== src/Invitation/Store/Submit/Tests.antt =====
-- A response with an additional guest, and a second one made from the same version.
use owl_invites.Base.{◌&&◌, ◌≤◌, ◌≡◌, ◌≢◌, refl, some, [], ◌∷◌, Result, ok, err, conflict}
use owl_invites.Text.{lit, text_eq}
use owl_invites.Text.Trim.{trim_space}
use owl_invites.Map.{lookup, insert, remove, contains}
use owl_invites.Table.{count_where, find_where, update_where, select_where}
use owl_invites.Fixtures.{toy, conn}
use owl_invites.Invitation.Model.{SubmitRequest}
use owl_invites.Invitation.Contact.{is_none}
use owl_invites.Invitation.Answers.{
  valid_attendance, validate_response_answers, question_by_id, require_invitation, require_guest,
  require_guests, check_answer, check_answers, check_guest_answers, guest_ids,
}
use owl_invites.Invitation.Database.{Invitation}
use owl_invites.Invitation.Action.{Conn, transaction}
use owl_invites.Invitation.Store.Rows.{insert_guest, has_guest}
use owl_invites.Invitation.Store.Submit.{
  submit_response, active_guests, load_active_guests, event_questions, load_questions, with_origin,
  update_guest_attendance, update_assigned, create_additional, keep_additional, submit_additional,
  submit_additionals, remove_missing, save_invitation_answers, clear_guest_answers, save_answers_of,
  save_guest_answers, replace_answers, finish_response, apply_guests, find_response, apply_response,
  advance_version, lock_invitation, submit_body,
}
use owl_invites.Invitation.Store.Submit.Proofs.{submit_response-once, submit_response-allowance}

abbrev request : SubmitRequest
request = record {
  version = 1;
  assigned_guests = record { guest_id = lit "g1"; attendance = lit "attending" } ∷ [];
  additional_guests =
      record { id = []; client_key = lit "new"; name = lit "Bob"; attendance = lit "maybe" } ∷ [];
  invitation_answers = [];
  guest_answers = [];
}

abbrev submitted : SubmitRequest → Conn → Result (Unit {0}) × Conn
submitted req s = submit_response toy (lit "i1") req 7 s

computes : Unit {0}
unfolding lit text_eq trim_space lookup insert remove contains count_where find_where update_where
    select_where valid_attendance validate_response_answers question_by_id require_invitation
    require_guest require_guests check_answer check_answers check_guest_answers guest_ids
    transaction insert_guest has_guest submit_response active_guests load_active_guests
    event_questions load_questions with_origin update_guest_attendance update_assigned
    create_additional keep_additional submit_additional submit_additionals remove_missing
    save_invitation_answers clear_guest_answers save_answers_of save_guest_answers replace_answers
    finish_response apply_guests find_response apply_response advance_version lock_invitation
    submit_body
computes = tt

accepted : (submitted request conn).0 ≡ ok tt
unfolding computes
accepted = refl

refused_again : (submitted request (submitted request conn).1).0 ≡ err conflict
unfolding computes
refused_again = refl

submit_response-once_example : (submitted request (submitted request conn).1).0 ≢ ok tt
submit_response-once_example =
    submit_response-once toy (lit "i1") request request 7 7 conn accepted refl

submit_response-allowance_example :
    (i : Invitation) × (find_where (λ j. text_eq j.id (lit "i1")) conn.db.invitations ≡ some i)
    × (count_where (λ j. text_eq j.id (lit "i1") && is_none j.revoked_at) conn.db.invitations ≡ 1)
    × (1 ≤ i.additional_guest_allowance)
submit_response-allowance_example = submit_response-allowance toy (lit "i1") request 7 conn accepted
