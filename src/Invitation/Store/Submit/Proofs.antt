-- ===== src/Invitation/Store/Submit/Proofs.antt =====
-- A version of a response is accepted once.
use owl_invites.Base.{
  ℕ, suc, ◌+◌, ◌≤◌, ◌≡◌, ◌≢◌, refl, sym, ◌∙◌, ap, ◌&&◌, some, List, [], ◌∷◌, ==_iff, arith, length,
  Result, ok,
}
use owl_invites.Text.{Text, text_eq}
use owl_invites.Invitation.Store.Submit.{
  apply_response, is_version, advance_version, lock_invitation, submit_body, submit_response,
  advanced,
}
use owl_invites.Table.{count_where, update_where, find_where}
use owl_invites.Platform.{Platform}
use owl_invites.Invitation.Model.{SubmitRequest}
use owl_invites.Invitation.Contact.{is_none}
use owl_invites.Invitation.Database.{Db, Invitation, ResponseRow}
use owl_invites.Invitation.Action.{Conn, ◌>>◌, bind-eq-ok, transaction-eq-ok}
use owl_invites.Invitation.Store.Submit.Keeps.{rows, apply_response-rows}

-- No row is left at a version that was advanced.
advanced-none :
    (invitation_id : Text) (version now : ℕ) (rs : List ResponseRow)
    → count_where
        (is_version invitation_id version)
        (update_where (is_version invitation_id version) (advanced now) rs)
      ≡ 0
unfolding count_where update_where
advanced-none invitation_id version now [] = refl
advanced-none invitation_id version now (r ∷ rs) = ground (
  arith,
  ==_iff r.version version,
  ==_iff (r.version + 1) version,
  advanced-none invitation_id version now rs,
)

lock_invitation-db :
    (invitation_id : Text) (n : ℕ) (s : Conn) → (lock_invitation invitation_id n s).1.db ≡ s.db
unfolding lock_invitation
lock_invitation-db invitation_id n s = ground arith

advance_version-one :
    (invitation_id : Text) (version now : ℕ) (s : Conn)
    → (advance_version invitation_id version now s).0 ≡ ok tt
    → (count_where (is_version invitation_id version) s.db.responses ≡ 1)
      × ((advance_version invitation_id version now s).1.db.responses
          ≡ update_where (is_version invitation_id version) (advanced now) s.db.responses)
unfolding advance_version
advance_version-one invitation_id version now s h =
    ground (arith, ==_iff (count_where (is_version invitation_id version) s.db.responses) 1)

pub submit_response-rows :
    (p : Platform) (invitation_id : Text) (req : SubmitRequest) (now : ℕ) (s : Conn)
    → (submit_response p invitation_id req now s).0 ≡ ok tt
    → (count_where (is_version invitation_id req.version) s.db.responses ≡ 1)
      × ((submit_response p invitation_id req now s).1.db.responses
          ≡ update_where (is_version invitation_id req.version) (advanced now) s.db.responses)
unfolding submit_response submit_body
submit_response-rows p invitation_id req now s h =
    let called : Conn = record s { calls = suc s.calls } in
    let (body, same) =
      transaction-eq-ok "begin response" "commit response" (submit_body p invitation_id req now) s
        h in
    let lock = lock_invitation invitation_id (length req.additional_guests) in
    let (i, _, h1, e1) =
      bind-eq-ok lock
        (λ (i : Invitation).
          advance_version invitation_id req.version now
          >> apply_response p invitation_id i.event_id now req)
        called body in
    let locked = (lock called).1 in
    let (_, advance, h2, e2) =
      bind-eq-ok (advance_version invitation_id req.version now)
        (λ _. apply_response p invitation_id i.event_id now req) locked h1 in
    let (one, rows_after) = advance_version-one invitation_id req.version now locked advance in
    let kept =
      apply_response-rows p invitation_id i.event_id now req
        (advance_version invitation_id req.version now locked).1 in
    let before = lock_invitation-db invitation_id (length req.additional_guests) called in
    let test = is_version invitation_id req.version in
    let left = λ (r : Result (Unit {0}) × Conn). r.1.db.responses in
    (
      sym (ap (λ (db : Db). count_where test db.responses) before) ∙ one,
      ap rows same
          ∙ ap left e1
          ∙ ap left e2
          ∙ kept
          ∙ rows_after
          ∙ ap (λ (db : Db). update_where test (advanced now) db.responses) before,
    )

-- Of two submissions that were made from the same version of a household's response, the second
-- is refused after the first has succeeded, whatever either of them says.
pub submit_response-once :
    (p : Platform) (invitation_id : Text) (first second : SubmitRequest) (now later : ℕ) (s : Conn)
    → (submit_response p invitation_id first now s).0 ≡ ok tt
    → second.version ≡ first.version
    → (submit_response p invitation_id second later
        (submit_response p invitation_id first now s).1).0
      ≢ ok tt
submit_response-once p invitation_id first second now later s h same again =
    let s' = (submit_response p invitation_id first now s).1 in
    let (_, left) = submit_response-rows p invitation_id first now s h in
    let (one, _) = submit_response-rows p invitation_id second later s' again in
    let none_left : count_where (is_version invitation_id first.version) s'.db.responses ≡ 0 =
      ap (count_where (is_version invitation_id first.version)) left
      ∙ advanced-none invitation_id first.version now s.db.responses in
    let zero_one : 0 ≡ 1 =
      sym none_left
      ∙ ap (λ v. count_where (is_version invitation_id v) s'.db.responses) (sym same)
      ∙ one in
    cc

lock_invitation-admits :
    (invitation_id : Text) (n : ℕ) (s : Conn) {i : Invitation}
    → (lock_invitation invitation_id n s).0 ≡ ok i
    → (find_where (λ j. text_eq j.id invitation_id) s.db.invitations ≡ some i)
      × (count_where (λ j. text_eq j.id invitation_id && is_none j.revoked_at) s.db.invitations ≡ 1)
      × (n ≤ i.additional_guest_allowance)
unfolding lock_invitation
lock_invitation-admits invitation_id n s h = ground (
  arith,
  ==_iff (count_where (λ j. text_eq j.id invitation_id && is_none j.revoked_at) s.db.invitations) 1,
)

-- A submission that succeeds is made to an invitation that is not revoked, and names no more
-- additional guests than its allowance.
pub submit_response-allowance :
    (p : Platform) (invitation_id : Text) (req : SubmitRequest) (now : ℕ) (s : Conn)
    → (submit_response p invitation_id req now s).0 ≡ ok tt
    → (i : Invitation) × (find_where (λ j. text_eq j.id invitation_id) s.db.invitations ≡ some i)
      × (count_where (λ j. text_eq j.id invitation_id && is_none j.revoked_at) s.db.invitations ≡ 1)
      × (length req.additional_guests ≤ i.additional_guest_allowance)
unfolding submit_response submit_body
submit_response-allowance p invitation_id req now s h =
    let called : Conn = record s { calls = suc s.calls } in
    let (body, _) =
      transaction-eq-ok "begin response" "commit response" (submit_body p invitation_id req now) s
        h in
    let (i, locked, _, _) =
      bind-eq-ok (lock_invitation invitation_id (length req.additional_guests))
        (λ (i : Invitation).
          advance_version invitation_id req.version now
          >> apply_response p invitation_id i.event_id now req)
        called body in
    let (found, live, within) =
      lock_invitation-admits invitation_id (length req.additional_guests) called locked in
    (i, found, live, within)
