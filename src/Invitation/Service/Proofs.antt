-- ===== src/Invitation/Service/Proofs.antt =====
-- A session submits for its own household only.
use owl_invites.Base.{
  ℕ, ◌≤◌, ◌≡◌, sym, ◌∙◌, ap, Option, none, some, List, [], arith, ltb, Result, ok, validation,
  invalid_capability,
}
use owl_invites.Text.{Text}
use owl_invites.Table.{update_where}
use owl_invites.Platform.{Platform}
use owl_invites.Invitation.Model.{SubmitRequest}
use owl_invites.Invitation.Database.{Invitation, ResponseRow}
use owl_invites.Invitation.Action.{
  Conn, Action, ◌>>=◌, ◌>>◌, pure, reject, call, present, bind-eq-ok,
}
use owl_invites.Invitation.Store.Sessions.{hash_token, invitation_for_session, live_invitation}
use owl_invites.Invitation.Store.Submit.{submit_response, is_version, advanced}
use owl_invites.Invitation.Store.Submit.Proofs.{submit_response-rows}
use owl_invites.Invitation.Service.{submit_for_session}

invitation_for_session-live :
    (h : Text) (now : ℕ) (s : Conn) (i : Invitation)
    → (invitation_for_session h now s).0 ≡ ok (some i)
    → (live_invitation s.db.invitations h now s.db.sessions ≡ some i)
      × ((invitation_for_session h now s).1.db.responses ≡ s.db.responses)
unfolding invitation_for_session
invitation_for_session-live h now s i e = ground arith

present-eq-ok :
    (found : Option Invitation) (s : Conn) {i : Invitation}
    → (present found invalid_capability s).0 ≡ ok i
    → (found ≡ some i) × ((present found invalid_capability s).1 ≡ s)
present-eq-ok none s e = cc
present-eq-ok (some j) s e = ground arith

-- The step behind the session.
submitted_step : Platform → SubmitRequest → ℕ → Invitation → Action Invitation
submitted_step p req now i = do
  reject (ltb req.version 1) (validation "response version is required" [])
  submit_response p i.id req now
  call "load household"
  pure i

submitted_step-rows :
    (p : Platform) (req : SubmitRequest) (now : ℕ) (i j : Invitation) (s : Conn)
    → (submitted_step p req now i s).0 ≡ ok j
    → (j ≡ i)
      × (1 ≤ req.version)
      × ((submit_response p i.id req now s).0 ≡ ok tt)
      × ((submitted_step p req now i s).1.db.responses
          ≡ (submit_response p i.id req now s).1.db.responses)
unfolding submitted_step
submitted_step-rows p req now i j s e = ground arith

-- A submission through a session that succeeds is made to the household that the session's token
-- leads to, from a version of at least one: that household's response at this version is advanced,
-- and no other household's response changes.
pub submit_for_session-scoped :
    (p : Platform) (raw_session : Text) (req : SubmitRequest) (now : ℕ) (s : Conn) (i : Invitation)
    → (submit_for_session p raw_session req now s).0 ≡ ok i
    → (live_invitation s.db.invitations (hash_token p raw_session) now s.db.sessions ≡ some i)
      × (1 ≤ req.version)
      × ((submit_for_session p raw_session req now s).1.db.responses
          ≡ update_where (is_version i.id req.version) (advanced now) s.db.responses)
unfolding submit_for_session submitted_step
submit_for_session-scoped p raw_session req now s i e =
    let find = invitation_for_session (hash_token p raw_session) now in
    let (found, h1, k1, e1) =
      bind-eq-ok find
        (λ (o : Option Invitation). present o invalid_capability >>= submitted_step p req now) s
        e in
    let s1 = (find s).1 in
    let (j, h2, k2, e2) =
      bind-eq-ok (present found invalid_capability) (submitted_step p req now) s1 k1 in
    let (some_j, same) = present-eq-ok found s1 h2 in
    let s2 = (present found invalid_capability s1).1 in
    let (is_j, version, submitted, left) = submitted_step-rows p req now j i s2 k2 in
    let (_, rows) = submit_response-rows p j.id req now s2 submitted in
    let (live, kept) =
      invitation_for_session-live (hash_token p raw_session) now s j (h1 ∙ ap ok some_j) in
    let final = λ (x : Result Invitation × Conn). x.1.db.responses in
    let update =
      λ (rs : List ResponseRow). update_where (is_version j.id req.version) (advanced now) rs in
    (
      live ∙ ap some (sym is_j),
      version,
      ap final e1
          ∙ ap final e2
          ∙ left
          ∙ rows
          ∙ ap (λ (c : Conn). update c.db.responses) same
          ∙ ap update kept
          ∙ ap
              (λ (k : Invitation).
                update_where (is_version k.id req.version) (advanced now) s.db.responses)
              (sym is_j),
    )
