-- ===== src/Event/Service/Moves.antt =====
-- The steps that the events of the database take, whoever calls an operation, and whatever fails.
use owl_invites.Base.{
  ℕ, ◌≡◌, refl, sym, ◌∙◌, ap, subst, ◌⊎◌, inl, inr, false, not, Option, none, some, List, [], ◌∷◌,
  ◌++◌, arith, Error,
}
use owl_invites.Text.{Text, lit, text_eq, text_eq_iff}
use owl_invites.Table.{find_where, update_where}
use owl_invites.Event.Model.{Event, EventRow}
use owl_invites.Event.Store.{has_id, overwrite, update}
use owl_invites.Event.Service.{
  Service, invoke, invoke_copy, can_manage_event, authorized, with_status,
}
use owl_invites.Event.Service.Rights.{
  IsOwner, IsManager, Right, manager, authorized-db, authorized-eq-ok,
}
use owl_invites.Invitation.Database.{Db}
use owl_invites.Invitation.Action.{Conn, Action, ◌>>=◌, ◌>>◌, pure, reject, bind-rel, reject-rel}

-- What the registered callbacks leave alone: the events.
pub record CallbackLaws (svc : Service) : Type 0 where
  pub published : (e : Event) (s : Conn) → (invoke svc.on_publish e s).1.db.events ≡ s.db.events
  pub cancelled : (e : Event) (s : Conn) → (invoke svc.on_cancel e s).1.db.events ≡ s.db.events
  pub copied :
      (src new : Text) (s : Conn)
      → (invoke_copy svc.on_duplicate src new s).1.db.events ≡ s.db.events

-- The changes of a status that a manager of the event may make.
pub data Edge : Text → Text → Type 0 where
  stays : (status : Text) → Edge status status
  publishes : Edge (lit "draft") (lit "published")
  cancels : Edge (lit "published") (lit "cancelled")
  reopens : Edge (lit "cancelled") (lit "draft")

-- A step of a user: the events are kept, one event is written again by a manager, archived by its
-- owner, or a draft is added behind the others.
pub data Moved (user : Text) (db : Db) (after : List EventRow) : Type 0 where
  kept : after ≡ db.events → Moved user db after
  managed :
      (id : Text) (now : ℕ) (old new : EventRow)
      → find_where (has_id id) db.events ≡ some old
      → IsManager id user db
      → Edge old.status new.status
      → new.id ≡ old.id
      → after ≡ update_where (has_id new.id) (overwrite now new) db.events
      → Moved user db after
  archived :
      (id : Text) (now : ℕ) (old new : EventRow)
      → find_where (has_id id) db.events ≡ some old
      → IsOwner id user db
      → new.status ≡ lit "archived"
      → new.id ≡ old.id
      → after ≡ update_where (has_id new.id) (overwrite now new) db.events
      → Moved user db after
  added :
      (e : EventRow) → e.status ≡ lit "draft" → after ≡ db.events ++ e ∷ [] → Moved user db after

update-cases :
    (e : Event) (now : ℕ) (s : Conn)
    → ((update e now s).1.db.events ≡ s.db.events)
      ⊎ ((update e now s).1.db.events
          ≡ update_where (has_id e.columns.id) (overwrite now e.columns) s.db.events)
unfolding update
update-cases e now s = ground arith

-- A check, and an operation that goes on with the event on the tables that were read.
pub authorized-Moved {ℓ} :
    {B : Type ℓ} (r : Right) (id user : Text) (f : Event → Action B) (s : Conn)
    → ((e : Event) (s' : Conn)
        → s'.db ≡ s.db
        → find_where (has_id id) s.db.events ≡ some e.columns
        → r.Needs id user s.db
        → Moved user s.db (f e s').1.db.events)
    → Moved user s.db ((authorized r.check id user >>= f) s).1.db.events
authorized-Moved r id user f s k =
    bind-rel (λ t. Moved user s.db t.db.events) (authorized r.check id user) f s
      (kept (ap (λ db. db.events) (authorized-db r id user s)))
      (λ e h.
        let (there, right) = authorized-eq-ok r id user s h in
        k e (authorized r.check id user s).1 (authorized-db r id user s) there right)

pub update-Moved :
    {user : Text} {db : Db} (e : Event) (now : ℕ) (s : Conn)
    → s.db ≡ db
    → ((after : List EventRow)
        → after ≡ update_where (has_id e.columns.id) (overwrite now e.columns) db.events
        → Moved user db after)
    → Moved user db (update e now s).1.db.events
update-Moved e now s same k = elim (update-cases e now s) [
  | inl h ↦ kept (h ∙ ap (λ db. db.events) same)
  | inr h ↦
      k _
        (h ∙ ap (λ db. update_where (has_id e.columns.id) (overwrite now e.columns) db.events) same)
]

-- What comes after a step without a change of the events.
pub quiet-Moved {ℓ κ} :
    {A : Type ℓ} {B : Type κ} {user : Text} {db : Db} (m : Action A) (f : A → Action B) (s : Conn)
    → ((a : A) (t : Conn) → (f a t).1.db.events ≡ t.db.events)
    → Moved user db (m s).1.db.events
    → Moved user db ((m >>= f) s).1.db.events
quiet-Moved {user = user} {db = db} m f s quiet moved =
    bind-rel (λ t. Moved user db t.db.events) m f s moved
      (λ a h. subst (λ after. Moved user db after) (sym (quiet a (m s).1)) moved)

pub same_text : (a b : Text) → not (text_eq a b) ≡ false → a ≡ b
same_text a b h = ground (arith, text_eq_iff a b)

pub leaves :
    (from to : Text) {status : Text}
    → Edge from to
    → not (text_eq status from) ≡ false
    → Edge status to
leaves from to {status} edge h = subst (λ st. Edge st to) (sym (same_text status from h)) edge

pub invoke-quiet :
    (callback : Option (Event → Conn → Conn)) (e : Event) (t : Conn)
    → ((invoke callback e t).1.db.events ≡ t.db.events)
    → ((invoke callback e >> pure e) t).1.db.events ≡ t.db.events
invoke-quiet none e t h = h
invoke-quiet (some f) e t h = h

-- A manager's change of the status along an edge.
pub status-Moved :
    (from to : Text) (callback : Option (Event → Conn → Conn)) (refusal : Event → Error)
    (id user : Text) (now : ℕ) (s : Conn)
    → Edge from to
    → ((e : Event) (t : Conn) → (invoke callback e t).1.db.events ≡ t.db.events)
    → Moved user s.db
        ((do
          e ← authorized can_manage_event id user
          reject (not (text_eq e.columns.status from)) (refusal e)
          updated ← update (with_status to e) now
          invoke callback updated
          pure updated)
          s).1.db.events
status-Moved from to callback refusal id user now s edge quiet =
    authorized-Moved manager id user _ s λ e s' same there right.
      reject-rel (λ t. Moved user s.db t.db.events) (not (text_eq e.columns.status from))
        (refusal e) _ s' (kept (ap (λ db. db.events) same))
        λ passed.
          quiet-Moved (update (with_status to e) now)
            (λ updated. do invoke callback updated; pure updated) s'
            (λ updated t. invoke-quiet callback updated t (quiet updated t))
            (update-Moved (with_status to e) now s' same λ after h.
              managed id now e.columns (with_status to e).columns there right
                (leaves from to edge passed) refl h)
