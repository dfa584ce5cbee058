-- ===== src/Invitation/Open/Proofs.antt =====
-- What a capability for an open enrollment opens.
use owl_invites.Base.{
  ℕ, ◌≡◌, sym, ◌∙◌, ap, subst, true, false, Option, none, some, arith, Result, ok, err,
}
use owl_invites.Text.{Text, text_eq, text_eq_iff}
use owl_invites.Table.{find_where, find_where-test}
use owl_invites.Platform.{Platform}
use owl_invites.Invitation.Capability.{parse_open}
use owl_invites.Invitation.Database.{OpenEnrollmentConfig}
use owl_invites.Invitation.Action.{Conn, bind-eq-ok}
use owl_invites.Event.Store.{lift}
use owl_invites.Invitation.Store.Enrollment.{
  before_opening, not_before_closing, find_open_by_access_id,
}
use owl_invites.Invitation.Delivery.{Service}
use owl_invites.Invitation.Open.{is_valid_open, found_open, parsed_open, valid_open}

parsed_open-eq-ok : (r : Result (Text × ℕ)) {x : Text × ℕ} → parsed_open r ≡ ok x → r ≡ ok x
parsed_open-eq-ok (ok y) h = h
parsed_open-eq-ok (err e) h = ground arith

found_open-eq-ok :
    (version now : ℕ) (found : Option OpenEnrollmentConfig) (s : Conn) {c : OpenEnrollmentConfig}
    → (found_open version now found s).0 ≡ ok c
    → (found ≡ some c) × (is_valid_open version now c ≡ true)
found_open-eq-ok version now none s h = ground arith
found_open-eq-ok version now (some c) s h = ground arith

find_open_by_access_id-eq-ok :
    (access_id : Text) (s : Conn) {found : Option OpenEnrollmentConfig}
    → (find_open_by_access_id access_id s).0 ≡ ok found
    → find_where (λ c. text_eq c.access_id access_id) s.db.open_enrollments ≡ found
unfolding find_open_by_access_id
find_open_by_access_id-eq-ok access_id s h = ground arith

valid_open-parts :
    (version now : ℕ) (c : OpenEnrollmentConfig)
    → is_valid_open version now c ≡ true
    → (c.token_version ≡ version)
      × (c.enabled ≡ true)
      × (c.revoked_at ≡ none)
      × (before_opening now c.opens_at ≡ false)
      × (not_before_closing now c.closes_at ≡ false)
valid_open-parts version now c h = ground arith

pair : {a b : Text} {m n : ℕ} → a ≡ b → m ≡ n → Path (Text × ℕ) (a, m) (b, n)
pair {a} {b} {m} {n} h k = ground arith

-- A text that is accepted for an open enrollment is a capability that the key signs for the selector
-- and the current version of a stored offer, which is enabled and not revoked, and whose window is
-- open at the time.
pub valid_open_sound :
    (p : Platform) (svc : Service) (raw : Text) (now : ℕ) (s : Conn) {c : OpenEnrollmentConfig}
    → (valid_open p svc raw now s).0 ≡ ok c
    → (parse_open p.hmac svc.signer raw ≡ ok (c.access_id, c.token_version))
      × (find_where (λ r. text_eq r.access_id c.access_id) s.db.open_enrollments ≡ some c)
      × (c.enabled ≡ true)
      × (c.revoked_at ≡ none)
      × (before_opening now c.opens_at ≡ false)
      × (not_before_closing now c.closes_at ≡ false)
unfolding valid_open
valid_open_sound p svc raw now s {c} h =
    let (r, parsed, rest, same) =
      bind-eq-ok (lift (parsed_open (parse_open p.hmac svc.signer raw))) _ s h in
    let (found, read, checked, same2) =
      bind-eq-ok (find_open_by_access_id r.0) (found_open r.1 now) s rest in
    let (is_found, valid) =
      found_open-eq-ok r.1 now found (find_open_by_access_id r.0 s).1 checked in
    let stored = find_open_by_access_id-eq-ok r.0 s read ∙ is_found in
    let selector : c.access_id ≡ r.0 =
      (text_eq_iff c.access_id r.0).0
        (find_where-test (λ x. text_eq x.access_id r.0) s.db.open_enrollments stored) in
    let (version, enabled, live, opened, not_closed) = valid_open-parts r.1 now c valid in
    (
      parsed_open-eq-ok _ parsed ∙ ap ok (pair (sym selector) (sym version)),
      subst (λ a. find_where (λ x. text_eq x.access_id a) s.db.open_enrollments ≡ some c)
          (sym selector) stored,
      enabled,
      live,
      opened,
      not_closed,
    )
