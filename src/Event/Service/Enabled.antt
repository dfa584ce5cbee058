-- ===== src/Event/Service/Enabled.antt =====
-- What the service does for a manager when no call of the database fails.
use owl_invites.Base.{
  ℕ, suc, ◌≡◌, refl, false, Option, none, some, arith, ok, Error, not, ◌∙◌, ap, subst,
}
use owl_invites.Text.{Text, lit, text_eq, text_eq_iff}
use owl_invites.Table.{find_where, find_where-test, update_where}
use owl_invites.Event.Model.{Event, EventRow, Membership}
use owl_invites.Event.Store.{
  find_by_id, find_membership_role, update, has_id, is_owner_of, role_in, whole_second, overwrite,
}
use owl_invites.Event.Service.{authorized, can_manage_event, Service, invoke, with_status, publish}
use owl_invites.Event.Service.Rights.{IsManager, manager, authorized-db}
use owl_invites.Event.Service.Moves.{CallbackLaws, invoke-quiet}
use owl_invites.Event.Service.Lifecycle.{status_of, status_of-update_same}
use owl_invites.Invitation.Action.{Conn, ◌>>=◌, ◌>>◌, pure, reject, bind-ok, reject-pass}

authorized-ok :
    (id user : Text) (s : Conn) {row : EventRow} {m : Membership}
    → ((n : ℕ) → s.fails n ≡ false)
    → find_where (has_id id) s.db.events ≡ some row
    → find_where (is_owner_of row.id) s.db.event_memberships ≡ some m
    → IsManager id user s.db
    → ((authorized can_manage_event id user s).0
        ≡ ok (record { organizer_id = m.user_id; columns = row }))
      × ((authorized can_manage_event id user s).1.fails ≡ s.fails)
unfolding authorized can_manage_event find_by_id find_membership_role
authorized-ok id user s up found owned right = ground (
  arith,
  up s.calls,
  up (suc s.calls),
  up (suc (suc s.calls)),
  text_eq_iff (role_in id user s.db) (lit "owner"),
  text_eq_iff (role_in id user s.db) (lit "cohost"),
)

update-ok :
    (e : Event) (now : ℕ) (s : Conn)
    → ((n : ℕ) → s.fails n ≡ false)
    → ((update e now s).0
        ≡ ok (record e { columns = record e.columns { updated_at = whole_second now } }))
      × ((update e now s).1.db.events
          ≡ update_where (has_id e.columns.id) (overwrite now e.columns) s.db.events)
unfolding update
update-ok e now s up = ground (arith, up s.calls)

invoke-ok :
    (callback : Option (Event → Conn → Conn)) (e : Event) (t : Conn)
    → ((invoke callback e >> pure e) t).0 ≡ ok e
invoke-ok none e t = refl
invoke-ok (some f) e t = refl

-- A change of the status from one that the event has.
status-ok :
    (from to : Text) (callback : Option (Event → Conn → Conn)) (refusal : Event → Error)
    (id user : Text) (now : ℕ) (s : Conn) {row : EventRow} {m : Membership}
    → ((e : Event) (t : Conn) → (invoke callback e t).1.db.events ≡ t.db.events)
    → ((n : ℕ) → s.fails n ≡ false)
    → find_where (has_id id) s.db.events ≡ some row
    → find_where (is_owner_of row.id) s.db.event_memberships ≡ some m
    → IsManager id user s.db
    → row.status ≡ from
    → let done =
        (do
          e ← authorized can_manage_event id user
          reject (not (text_eq e.columns.status from)) (refusal e)
          updated ← update (with_status to e) now
          invoke callback updated
          pure updated)
          s in
      (done.0
        ≡ ok (record {
          organizer_id = m.user_id;
          columns = record row { status = to; updated_at = whole_second now };
        }))
      × (status_of id done.1.db.events ≡ some to)
status-ok from to callback refusal id user now s {row} {m} quiet up found owned right is_from =
    let (passed, still_up) = authorized-ok id user s {row = row} {m = m} up found owned right in
    let e : Event = record { organizer_id = m.user_id; columns = row } in
    let s1 = (authorized can_manage_event id user s).1 in
    let same_db = authorized-db manager id user s in
    let (updated, events) =
      update-ok (with_status to e) now s1 (λ n. ap (λ f. f n) still_up ∙ up n) in
    let s2 = (update (with_status to e) now s1).1 in
    let row_id = (text_eq_iff row.id id).0 (find_where-test (has_id id) s.db.events found) in
    let steps =
      bind-ok (authorized can_manage_event id user) _ s passed
      ∙ reject-pass (not (text_eq row.status from)) (refusal e) _ s1
          (ground (arith, text_eq_iff row.status from))
      ∙ bind-ok (update (with_status to e) now) (λ u. do invoke callback u; pure u) s1 updated in
    (
      ap (λ r. r.0) steps ∙ invoke-ok callback _ s2,
      ap (λ r. status_of id r.1.db.events) steps
          ∙ ap (status_of id) (invoke-quiet callback _ s2 (quiet _ s2) ∙ events)
          ∙ ap
              (λ db.
                status_of id (
                  update_where (has_id row.id) (overwrite now (with_status to e).columns)
                    db.events))
              same_db
          ∙ subst
              (λ i.
                status_of i (
                  update_where (has_id row.id) (overwrite now (with_status to e).columns)
                    s.db.events)
                ≡ some to)
              row_id
              (status_of-update_same now (with_status to e).columns s.db.events
                (ap (λ i. find_where (has_id i) s.db.events) row_id ∙ found)),
    )

-- Publishing succeeds when no call of the database fails, the event is there with its owner, the
-- user is an active owner or cohost of it, and its status is draft: the event is returned with the
-- status published, which the tables then have for it. The callbacks leave the events alone.
pub publish-ok :
    (svc : Service) (id user : Text) (now : ℕ) (s : Conn) {row : EventRow} {m : Membership}
    → CallbackLaws svc
    → ((n : ℕ) → s.fails n ≡ false)
    → find_where (has_id id) s.db.events ≡ some row
    → find_where (is_owner_of row.id) s.db.event_memberships ≡ some m
    → IsManager id user s.db
    → row.status ≡ lit "draft"
    → ((publish svc id user now s).0
        ≡ ok (record {
          organizer_id = m.user_id;
          columns = record row { status = lit "published"; updated_at = whole_second now };
        }))
      × (status_of id (publish svc id user now s).1.db.events ≡ some (lit "published"))
unfolding publish
publish-ok svc id user now s laws =
    status-ok (lit "draft") (lit "published") svc.on_publish _ id user now s laws.published
