-- ===== src/Event/Service/Rights.antt =====
-- What the reads of an operation have seen, when they let it go on.
use owl_invites.Base.{
  ◌≡◌, refl, sym, ◌∙◌, ap, subst, ◌⊎◌, Bool, true, not, ◌||◌, Option, none, some, List, [], arith,
  ok, Error, plain,
}
use owl_invites.Text.{Text, lit, text_eq, text_eq_iff}
use owl_invites.Table.{find_where}
use owl_invites.Event.Model.{Event, EventRow, Membership}
use owl_invites.Event.Store.{
  find_by_id, find_membership_role, select_event, scan_event, with_owner, is_owner_of, role_in,
  has_id,
}
use owl_invites.Event.Service.{for_event, can_manage_event, is_event_owner, authorized}
use owl_invites.Invitation.Database.{Db}
use owl_invites.Invitation.Action.{
  Conn, Action, ◌>>=◌, ◌>>◌, pure, present, reject, bind-eq-ok, bind-view, then-view, reject-view,
}

abbrev pub IsOwner : Text → Text → Db → Type 0
IsOwner event_id user_id db = role_in event_id user_id db ≡ lit "owner"

abbrev pub IsManager : Text → Text → Db → Type 0
IsManager event_id user_id db =
    (role_in event_id user_id db ≡ lit "owner") ⊎ (role_in event_id user_id db ≡ lit "cohost")

find_by_id-db : (id : Text) (s : Conn) → (find_by_id id s).1.db ≡ s.db
unfolding find_by_id
find_by_id-db id s = ground arith

find_membership_role-db : (id user : Text) (s : Conn) → (find_membership_role id user s).1.db ≡ s.db
unfolding find_membership_role
find_membership_role-db id user s = ground arith

find_by_id-eq-ok :
    (id : Text) (s : Conn) {r : Option Event}
    → (find_by_id id s).0 ≡ ok r
    → select_event id s.db ≡ ok r
unfolding find_by_id
find_by_id-eq-ok id s h = ground arith

find_membership_role-eq-ok :
    (id user : Text) (s : Conn) {role : Text}
    → (find_membership_role id user s).0 ≡ ok role
    → role ≡ role_in id user s.db
unfolding find_membership_role
find_membership_role-eq-ok id user s h = ground arith

-- The row of an event that was read.
with_owner-eq-some :
    (row : EventRow) (m : Option Membership) {e : Event}
    → with_owner row m ≡ ok (some e)
    → row ≡ e.columns
with_owner-eq-some row none h = ground arith
with_owner-eq-some row (some m) h = ground arith

scan_event-eq-some :
    (ms : List Membership) (row : Option EventRow) {e : Event}
    → scan_event ms row ≡ ok (some e)
    → row ≡ some e.columns
scan_event-eq-some ms none h = ground arith
scan_event-eq-some ms (some row) h =
    ap some (with_owner-eq-some row (find_where (is_owner_of row.id) ms) h)

for_event-db :
    (found : Option Event) (m : Action Bool) (s : Conn)
    → ((m s).1.db ≡ s.db)
    → (for_event found m s).1.db ≡ s.db
for_event-db none m s h = refl
for_event-db (some e) m s h = h

for_event-eq-true :
    (found : Option Event) (m : Action Bool) (s : Conn)
    → (for_event found m s).0 ≡ ok true
    → (m s).0 ≡ ok true
for_event-eq-true none m s h = ground arith
for_event-eq-true (some e) m s h = h

role_test-db :
    (id user : Text) (test : Text → Bool) (s : Conn)
    → ((do role ← find_membership_role id user; pure (test role)) s).1.db ≡ s.db
role_test-db id user test =
    bind-view (λ db. db) (find_membership_role id user) _ (find_membership_role-db id user)
      (λ role s. refl)

role_test-eq-ok :
    (id user : Text) (test : Text → Bool) (s : Conn)
    → ((do role ← find_membership_role id user; pure (test role)) s).0 ≡ ok true
    → test (role_in id user s.db) ≡ true
role_test-eq-ok id user test s h =
    let (role, got, passed, same) =
      bind-eq-ok (find_membership_role id user) (λ role. pure (test role)) s h in
    ground (arith, find_membership_role-eq-ok id user s got)

right-db :
    (id user : Text) (test : Text → Bool) (s : Conn)
    → ((do
      found ← find_by_id id
      for_event found (do role ← find_membership_role id user; pure (test role)))
        s).1.db
      ≡ s.db
right-db id user test =
    bind-view (λ db. db) (find_by_id id) _ (find_by_id-db id)
      (λ found s. for_event-db found _ s (role_test-db id user test s))

right-eq-ok :
    (id user : Text) (test : Text → Bool) (s : Conn)
    → ((do
      found ← find_by_id id
      for_event found (do role ← find_membership_role id user; pure (test role)))
        s).0
      ≡ ok true
    → test (role_in id user s.db) ≡ true
right-eq-ok id user test s h =
    let (found, got, rest, same) =
      bind-eq-ok (find_by_id id)
        (λ found. for_event found (do role ← find_membership_role id user; pure (test role))) s h in
    ap (λ db. test (role_in id user db)) (sym (find_by_id-db id s))
    ∙ role_test-eq-ok id user test (find_by_id id s).1 (for_event-eq-true found _ _ rest)

-- A right, how it is checked without a change, and what it needs.
pub record Right : Type 1 where
  pub check : Text → Text → Action Bool
  pub Needs : Text → Text → Db → Type 0
  pub check-db : (id user : Text) (s : Conn) → (check id user s).1.db ≡ s.db
  pub check-eq-true :
      (id user : Text) (s : Conn) → (check id user s).0 ≡ ok true → Needs id user s.db

role-IsManager :
    (id user : Text) (db : Db)
    → (text_eq (role_in id user db) (lit "owner") || text_eq (role_in id user db) (lit "cohost"))
      ≡ true
    → IsManager id user db
role-IsManager id user db h = ground (
  arith,
  text_eq_iff (role_in id user db) (lit "owner"),
  text_eq_iff (role_in id user db) (lit "cohost"),
)

pub can_manage_event-db : (id user : Text) (s : Conn) → (can_manage_event id user s).1.db ≡ s.db
unfolding can_manage_event
can_manage_event-db id user =
    right-db id user (λ role. text_eq role (lit "owner") || text_eq role (lit "cohost"))

pub can_manage_event-eq-true :
    (id user : Text) (s : Conn) → (can_manage_event id user s).0 ≡ ok true → IsManager id user s.db
unfolding can_manage_event
can_manage_event-eq-true id user s h =
    role-IsManager id user s.db
      (right-eq-ok id user (λ role. text_eq role (lit "owner") || text_eq role (lit "cohost")) s h)

pub is_event_owner-db : (id user : Text) (s : Conn) → (is_event_owner id user s).1.db ≡ s.db
unfolding is_event_owner
is_event_owner-db id user = right-db id user (λ role. text_eq role (lit "owner"))

pub is_event_owner-eq-true :
    (id user : Text) (s : Conn) → (is_event_owner id user s).0 ≡ ok true → IsOwner id user s.db
unfolding is_event_owner
is_event_owner-eq-true id user s h =
    (text_eq_iff (role_in id user s.db) (lit "owner")).0
      (right-eq-ok id user (λ role. text_eq role (lit "owner")) s h)

abbrev pub manager : Right
manager = record {
  check = can_manage_event;
  Needs = IsManager;
  check-db = can_manage_event-db;
  check-eq-true = can_manage_event-eq-true;
}

abbrev pub owner : Right
owner = record {
  check = is_event_owner;
  Needs = IsOwner;
  check-db = is_event_owner-db;
  check-eq-true = is_event_owner-eq-true;
}

present-db : (found : Option Event) (e : Error) (s : Conn) → (present found e s).1.db ≡ s.db
present-db none e s = refl
present-db (some a) e s = refl

pub authorized-db :
    (r : Right) (id user : Text) (s : Conn) → (authorized r.check id user s).1.db ≡ s.db
unfolding authorized
authorized-db r id user =
    bind-view (λ db. db) (find_by_id id) _ (find_by_id-db id)
      λ found.
        bind-view (λ db. db) (present found _) _ (present-db found _)
          λ e.
            bind-view (λ db. db) (r.check id user) _ (r.check-db id user)
              λ allowed.
                then-view (λ db. db) (reject (not allowed) _) (pure e)
                  (reject-view (λ db. db) (not allowed) _) λ s. refl

abbrev allowed_to : Action Bool → Event → Action Event
allowed_to m e = do
  allowed ← m
  reject (not allowed) (plain "forbidden: you do not own this event" [])
  pure e

allowed_to-eq-ok :
    (m : Action Bool) (e : Event) (s : Conn) {e' : Event}
    → (allowed_to m e s).0 ≡ ok e'
    → ((m s).0 ≡ ok true) × (e ≡ e')
allowed_to-eq-ok m e s h = ground arith

found-eq-ok :
    (m : Action Bool) (found : Option Event) (s : Conn) {e : Event}
    → ((do e ← present found (plain "event not found" []); allowed_to m e) s).0 ≡ ok e
    → ((m s).0 ≡ ok true) × (found ≡ some e)
found-eq-ok m none s h = ground arith
found-eq-ok m (some a) s h = let (held, same) = allowed_to-eq-ok m a s h in (held, ap some same)

-- An operation goes on with the event of that identifier, and with the right.
pub authorized-eq-ok :
    (r : Right) (id user : Text) (s : Conn) {e : Event}
    → (authorized r.check id user s).0 ≡ ok e
    → (find_where (has_id id) s.db.events ≡ some e.columns) × r.Needs id user s.db
unfolding authorized
authorized-eq-ok r id user s {e} h =
    let (found, got, rest, same) =
      bind-eq-ok (find_by_id id)
        (λ found. do e ← present found (plain "event not found" []); allowed_to (r.check id user) e)
        s h in
    let (held, there) = found-eq-ok (r.check id user) found (find_by_id id s).1 rest in
    (
      scan_event-eq-some _ _ (find_by_id-eq-ok id s (got ∙ ap ok there)),
      subst (λ db. r.Needs id user db) (find_by_id-db id s) (r.check-eq-true id user _ held),
    )
