-- ===== src/Invitation/Store/Submit/Keeps.antt =====
-- What follows the version leaves the responses alone.
use owl_invites.Base.{
  ℕ, suc, ◌≡◌, refl, String, Option, none, some, List, [], ◌∷◌, arith, Result, ok, err, internal,
}
use owl_invites.Text.{Text}
use owl_invites.Text.Trim.{trim_space}
use owl_invites.Invitation.Answers.{guest_ids, validate_response_answers}
use owl_invites.Invitation.Store.Submit.{
  Additions, Target, update_guest_attendance, update_assigned, create_additional, keep_additional,
  submit_additional, submit_additionals, add_invitation_answer, drop_guest_answers,
  add_guest_answer, drop_invitation_answers, remove_guest, remove_missing, save_invitation_answers,
  clear_guest_answers, save_answers_of, save_guest_answers, replace_answers, apply_response,
  finish_response, apply_guests, target_of, no_additions, find_response, checked,
  load_active_guests, load_questions,
}
use owl_invites.Map.{Map}
use owl_invites.Platform.{Platform}
use owl_invites.Invitation.Model.{Guest, AdditionalGuestInput, GuestAttendanceInput, SubmitRequest}
use owl_invites.Invitation.Database.{Db, ResponseRow}
use owl_invites.Invitation.Action.{Conn, bind-view, then-view, exec, present}
use owl_invites.Invitation.Store.Rows.{insert_guest}

abbrev pub rows : Db → List ResponseRow
rows db = db.responses

exec-rows :
    (e : String) (f : Db → Db)
    → ((db : Db) → (f db).responses ≡ db.responses)
    → (s : Conn) → (exec e f s).1.db.responses ≡ s.db.responses
exec-rows e f h s = ground (arith, h s.db)

update_guest_attendance-rows :
    (response_id guest_id attendance : Text) (s : Conn)
    → (update_guest_attendance response_id guest_id attendance s).1.db.responses ≡ s.db.responses
unfolding update_guest_attendance
update_guest_attendance-rows response_id guest_id attendance s = ground arith

update_assigned-rows :
    (response_id : Text) (assigned : List Text) (us : List GuestAttendanceInput) (s : Conn)
    → (update_assigned response_id assigned us s).1.db.responses ≡ s.db.responses
unfolding update_assigned
update_assigned-rows response_id assigned [] s = refl
update_assigned-rows response_id assigned (u ∷ us) s = ground (
  arith,
  update_guest_attendance-rows response_id u.guest_id u.attendance s,
  update_assigned-rows response_id assigned us
      (update_guest_attendance response_id u.guest_id u.attendance s).1,
)

create_additional-rows :
    (p : Platform) (t : Target) (i : ℕ) (input : AdditionalGuestInput) (name : Text) (a : Additions)
    (s : Conn)
    → (create_additional p t i input name a s).1.db.responses ≡ s.db.responses
unfolding create_additional insert_guest
create_additional-rows p t i input name a s = ground arith

keep_additional-rows :
    (t : Target) (input : AdditionalGuestInput) (name : Text) (a : Additions) (s : Conn)
    → (keep_additional t input name a s).1.db.responses ≡ s.db.responses
unfolding keep_additional
keep_additional-rows t input name a s = ground arith

submit_additional-rows :
    (p : Platform) (t : Target) (i : ℕ) (input : AdditionalGuestInput) (a : Additions) (s : Conn)
    → (submit_additional p t i input a s).1.db.responses ≡ s.db.responses
unfolding submit_additional update_guest_attendance
submit_additional-rows p t i input a s = ground (
  arith,
  create_additional-rows p t i input (trim_space input.name) a s,
  keep_additional-rows t input (trim_space input.name) a s,
)

submit_additionals-rows :
    (p : Platform) (t : Target) (i : ℕ) (inputs : List AdditionalGuestInput) (a : Additions)
    (s : Conn)
    → (submit_additionals p t i inputs a s).1.db.responses ≡ s.db.responses
unfolding submit_additionals
submit_additionals-rows p t i [] a s = refl
submit_additionals-rows p t i (input ∷ inputs) a s =
    bind-view rows (submit_additional p t i input a) _ (submit_additional-rows p t i input a)
      (λ b. submit_additionals-rows p t (suc i) inputs b) s

remove_missing-rows :
    (invitation_id : Text) (now : ℕ) (kept ids : List Text) (s : Conn)
    → (remove_missing invitation_id now kept ids s).1.db.responses ≡ s.db.responses
unfolding remove_missing
remove_missing-rows invitation_id now kept [] s = refl
remove_missing-rows invitation_id now kept (id ∷ ids) s = ground (
  arith,
  remove_missing-rows invitation_id now kept ids s,
  remove_missing-rows invitation_id now kept ids
      (exec "remove additional guest" (remove_guest invitation_id now id) s).1,
)

save_invitation_answers-rows :
    (invitation_id : Text) (answers : Map Text) (s : Conn)
    → (save_invitation_answers invitation_id answers s).1.db.responses ≡ s.db.responses
unfolding save_invitation_answers
save_invitation_answers-rows invitation_id [] = λ s. refl
save_invitation_answers-rows invitation_id ((question_id, answer) ∷ rest) =
    then-view rows
      (exec "save invitation answer" (add_invitation_answer invitation_id question_id answer))
      (save_invitation_answers invitation_id rest) (exec-rows _ _ (λ db. refl))
      (save_invitation_answers-rows invitation_id rest)

clear_guest_answers-rows :
    (ids : List Text) (s : Conn) → (clear_guest_answers ids s).1.db.responses ≡ s.db.responses
unfolding clear_guest_answers
clear_guest_answers-rows [] = λ s. refl
clear_guest_answers-rows (id ∷ ids) =
    then-view rows (exec "replace guest answers" (drop_guest_answers id)) (clear_guest_answers ids)
      (exec-rows _ _ (λ db. refl)) (clear_guest_answers-rows ids)

save_answers_of-rows :
    (guest_id : Text) (answers : Map Text) (s : Conn)
    → (save_answers_of guest_id answers s).1.db.responses ≡ s.db.responses
unfolding save_answers_of
save_answers_of-rows guest_id [] = λ s. refl
save_answers_of-rows guest_id ((question_id, answer) ∷ rest) =
    then-view rows (exec "save guest answer" (add_guest_answer guest_id question_id answer))
      (save_answers_of guest_id rest) (exec-rows _ _ (λ db. refl))
      (save_answers_of-rows guest_id rest)

save_guest_answers-rows :
    (ids : List Text) (answers : Map (Map Text)) (s : Conn)
    → (save_guest_answers ids answers s).1.db.responses ≡ s.db.responses
unfolding save_guest_answers
save_guest_answers-rows ids [] s = refl
save_guest_answers-rows ids ((guest_id, answers) ∷ rest) s = ground (
  arith,
  save_answers_of-rows guest_id answers s,
  save_guest_answers-rows ids rest (save_answers_of guest_id answers s).1,
)

replace_answers-rows :
    (invitation_id : Text) (guests : List Guest) (answers : Map Text) (given : Map (Map Text))
    (s : Conn)
    → (replace_answers invitation_id guests answers given s).1.db.responses ≡ s.db.responses
unfolding replace_answers
replace_answers-rows invitation_id guests answers given =
    let ids = guest_ids guests in
    then-view rows (exec "replace invitation answers" (drop_invitation_answers invitation_id)) _
      (exec-rows _ _ (λ db. refl))
      (then-view rows (save_invitation_answers invitation_id answers) _
        (save_invitation_answers-rows invitation_id answers)
        (then-view rows (clear_guest_answers ids) (save_guest_answers ids given)
          (clear_guest_answers-rows ids) (save_guest_answers-rows ids given)))

finish_response-rows :
    (p : Platform) (invitation_id event_id : Text) (req : SubmitRequest) (s : Conn)
    → (finish_response p invitation_id event_id req s).1.db.responses ≡ s.db.responses
unfolding finish_response load_active_guests load_questions
finish_response-rows p invitation_id event_id req =
    bind-view rows (load_active_guests invitation_id) _ (λ s. ground arith)
      (λ guests.
        bind-view rows (load_questions event_id) _ (λ s. ground arith)
          (λ questions.
            then-view rows (checked (validate_response_answers p questions guests req)) _
              (checked-rows (validate_response_answers p questions guests req))
              (replace_answers-rows invitation_id guests req.invitation_answers req.guest_answers)))
  where
    checked-rows :
        (r : Result (Unit {0})) (s : Conn) → (checked r s).1.db.responses ≡ s.db.responses
    checked-rows (ok u) s = refl
    checked-rows (err e) s = refl

apply_guests-rows :
    (p : Platform) (t : Target) (event_id : Text) (now : ℕ) (req : SubmitRequest) (s : Conn)
    → (apply_guests p t event_id now req s).1.db.responses ≡ s.db.responses
unfolding apply_guests
apply_guests-rows p t event_id now req =
    then-view rows (update_assigned t.response_id t.assigned req.assigned_guests) _
      (update_assigned-rows t.response_id t.assigned req.assigned_guests)
      (bind-view rows (submit_additionals p t 0 req.additional_guests (no_additions req)) _
        (submit_additionals-rows p t 0 req.additional_guests (no_additions req))
        (λ (a : Additions).
          then-view rows (remove_missing t.invitation_id now a.kept t.additional) _
            (remove_missing-rows t.invitation_id now a.kept t.additional)
            (finish_response-rows p t.invitation_id event_id
              (record req { guest_answers = a.answers }))))

pub apply_response-rows :
    (p : Platform) (invitation_id event_id : Text) (now : ℕ) (req : SubmitRequest) (s : Conn)
    → (apply_response p invitation_id event_id now req s).1.db.responses ≡ s.db.responses
unfolding apply_response find_response load_active_guests
apply_response-rows p invitation_id event_id now req =
    bind-view rows (find_response invitation_id) _ (λ s. ground arith)
      (λ row.
        bind-view rows (present row (internal "load response id")) _ (present-rows row)
          (λ (r : ResponseRow).
            bind-view rows (load_active_guests invitation_id) _ (λ s. ground arith)
              (λ existing.
                apply_guests-rows p (target_of invitation_id r.id existing) event_id now req)))
  where
    present-rows :
        (row : Option ResponseRow) (s : Conn)
        → (present row (internal "load response id") s).1.db.responses ≡ s.db.responses
    present-rows none s = refl
    present-rows (some r) s = refl
