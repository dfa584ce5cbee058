-- ===== src/Invitation/Store/Submit/SessionTests.antt =====
-- A response through a session.
use owl_invites.Base.{◌*◌, none, ◌≤◌, ◌≡◌, refl, some, [], ◌∷◌, Result, ok}
use owl_invites.Text.{lit, text_eq}
use owl_invites.Text.Trim.{trim_space}
use owl_invites.Map.{lookup, insert, remove, contains}
use owl_invites.Table.{count_where, find_where, update_where, select_where}
use owl_invites.Text.Hex.{hex}
use owl_invites.Stamp.{after, second}
use owl_invites.Fixtures.{toy, conn, tables, smiths}
use owl_invites.Invitation.Model.{SubmitRequest}
use owl_invites.Invitation.Answers.{
  valid_attendance, validate_response_answers, question_by_id, require_invitation, require_guest,
  require_guests, check_answer, check_answers, check_guest_answers, guest_ids,
}
use owl_invites.Invitation.Database.{Invitation, SessionRow}
use owl_invites.Invitation.Action.{Conn, transaction}
use owl_invites.Invitation.Store.Rows.{insert_guest, has_guest}
use owl_invites.Invitation.Store.Submit.{
  submit_response, is_version, advanced, active_guests, load_active_guests, event_questions,
  load_questions, with_origin, update_guest_attendance, update_assigned, create_additional,
  keep_additional, submit_additional, submit_additionals, remove_missing, save_invitation_answers,
  clear_guest_answers, save_answers_of, save_guest_answers, replace_answers, finish_response,
  apply_guests, find_response, apply_response, advance_version, lock_invitation, submit_body,
}
use owl_invites.Invitation.Store.Sessions.{hash_token, invitation_for_session, live_invitation}
use owl_invites.Invitation.Service.{submit_for_session}
use owl_invites.Invitation.Service.Proofs.{submit_for_session-scoped}

abbrev request : SubmitRequest
request = record {
  version = 1;
  assigned_guests = record { guest_id = lit "g1"; attendance = lit "attending" } ∷ [];
  additional_guests =
      record { id = []; client_key = lit "new"; name = lit "Bob"; attendance = lit "maybe" } ∷ [];
  invitation_answers = [];
  guest_answers = [];
}

abbrev session : SessionRow
session = record {
  invitation_id = lit "i1";
  token_hash = lit "74";
  issued_token_version = 2;
  expires_at = 100 * second;
  last_used_at = none;
  revoked_at = none;
}

abbrev open_session : Conn
open_session = record conn { db = record tables { sessions = session ∷ [] } }

abbrev through : Result Invitation × Conn
through = submit_for_session toy (lit "t") request 7 open_session

computes : Unit {0}
unfolding submit_for_session hash_token invitation_for_session live_invitation hex after lit text_eq
    trim_space lookup insert remove contains count_where find_where update_where select_where
    valid_attendance validate_response_answers question_by_id require_invitation require_guest
    require_guests check_answer check_answers check_guest_answers guest_ids transaction insert_guest
    has_guest submit_response active_guests load_active_guests event_questions load_questions
    with_origin update_guest_attendance update_assigned create_additional keep_additional
    submit_additional submit_additionals remove_missing save_invitation_answers clear_guest_answers
    save_answers_of save_guest_answers replace_answers finish_response apply_guests find_response
    apply_response advance_version lock_invitation submit_body
computes = tt

passes : through.0 ≡ ok smiths
unfolding computes
passes = refl

submit_for_session-scoped_example :
    (live_invitation open_session.db.invitations
        (hash_token toy (lit "t"))
        7
        open_session.db.sessions
      ≡ some smiths)
    × (1 ≤ 1)
    × (through.1.db.responses
        ≡ update_where (is_version smiths.id 1) (advanced 7) open_session.db.responses)
submit_for_session-scoped_example =
    submit_for_session-scoped toy (lit "t") request 7 open_session smiths passes
