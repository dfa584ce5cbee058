-- ===== src/Event/Service/Steps.antt =====
-- Each operation of the service takes one of the steps.
use owl_invites.Base.{
  ℕ, suc, ℤ, ◌≡◌, refl, sym, ◌∙◌, ap, subst, ◌⊎◌, inl, inr, Bool, true, false, not, Option, none,
  some, [], ◌∷◌, ◌++◌, arith, Result, ok, if◌then◌else◌,
}
use owl_invites.Text.{Text, lit, text_eq}
use owl_invites.Platform.{Platform}
use owl_invites.Event.Model.{Event, EventRow, CreateEventRequest, UpdateEventRequest}
use owl_invites.Event.Request.{new_event, changed_event}
use owl_invites.Event.Store.{update, create, create_event, whole_second, written, lift}
use owl_invites.Event.Service.{
  Service, invoke, invoke_copy, with_status, publish, cancel, reopen, delete, copy_of, duplicate,
  with_id, create_draft, change, create_from_series,
}
use owl_invites.Event.Service.Rights.{manager, owner}
use owl_invites.Invitation.Database.{Db}
use owl_invites.Invitation.Action.{
  Conn, Action, ◌>>=◌, ◌>>◌, pure, transaction, bind-rel, reject-rel,
}
use owl_invites.Event.Service.Moves.{
  CallbackLaws, Edge, stays, publishes, cancels, reopens, Moved, kept, managed, archived, added,
  authorized-Moved, update-Moved, quiet-Moved, leaves, status-Moved,
}

pub publish-Moved :
    (svc : Service) (id user : Text) (now : ℕ) (s : Conn)
    → CallbackLaws svc
    → Moved user s.db (publish svc id user now s).1.db.events
unfolding publish
publish-Moved svc id user now s laws =
    status-Moved (lit "draft") (lit "published") svc.on_publish _ id user now s publishes
      laws.published

cancel_callback :
    (svc : Service) (notify : Bool) (e : Event) (t : Conn)
    → CallbackLaws svc
    → (invoke (if notify then svc.on_cancel else none) e t).1.db.events ≡ t.db.events
cancel_callback svc true e t laws = laws.cancelled e t
cancel_callback svc false e t laws = refl

pub cancel-Moved :
    (svc : Service) (id user : Text) (notify : Bool) (now : ℕ) (s : Conn)
    → CallbackLaws svc
    → Moved user s.db (cancel svc id user notify now s).1.db.events
unfolding cancel
cancel-Moved svc id user notify now s laws =
    status-Moved (lit "published") (lit "cancelled") (if notify then svc.on_cancel else none) _ id
      user now s cancels (λ e t. cancel_callback svc notify e t laws)

pub reopen-Moved :
    (id user : Text) (now : ℕ) (s : Conn) → Moved user s.db (reopen id user now s).1.db.events
unfolding reopen
reopen-Moved id user now s = authorized-Moved manager id user _ s λ e s' same there right.
    reject-rel (λ t. Moved user s.db t.db.events) (not (text_eq e.columns.status (lit "cancelled")))
      _ _ s' (kept (ap (λ db. db.events) same))
      λ passed. update-Moved (with_status (lit "draft") e) now s' same λ after h.
        managed id now e.columns (with_status (lit "draft") e).columns there right
          (leaves (lit "cancelled") (lit "draft") reopens passed) refl h

pub delete-Moved :
    (id user : Text) (now : ℕ) (s : Conn) → Moved user s.db (delete id user now s).1.db.events
unfolding delete
delete-Moved id user now s = authorized-Moved owner id user _ s λ e s' same there right.
    quiet-Moved (update (with_status (lit "archived") e) now) _ s' (λ updated t. refl)
      (update-Moved (with_status (lit "archived") e) now s' same λ after h.
        archived id now e.columns (with_status (lit "archived") e).columns there right refl refl h)

-- A change of the fields leaves the identifier and the status.
changed_event-status :
    (p : Platform) (req : UpdateEventRequest) (e : EventRow) {new : EventRow}
    → changed_event p req e ≡ ok new
    → (new.status ≡ e.status) × (new.id ≡ e.id)
unfolding changed_event
changed_event-status p req e h = ground arith

lift-rel {ℓ} :
    {A : Type ℓ} (R : Conn → Type 0) (r : Result A) (f : A → Action Event) (s : Conn)
    → R s
    → ((a : A) → r ≡ ok a → R (f a s).1)
    → R ((lift r >>= f) s).1
lift-rel R r f s = bind-rel R (lift r) f s

pub change-Moved :
    (p : Platform) (id user : Text) (req : UpdateEventRequest) (now : ℕ) (s : Conn)
    → Moved user s.db (change p id user req now s).1.db.events
unfolding change
change-Moved p id user req now s = authorized-Moved manager id user _ s λ e s' same there right.
    lift-rel (λ t. Moved user s.db t.db.events) (changed_event p req e.columns) _ s'
      (kept (ap (λ db. db.events) same))
      λ columns h.
        let (status, same_id) = changed_event-status p req e.columns h in
        update-Moved (record e { columns = columns }) now s' same
          λ after h.
            managed id now e.columns columns there right
              (subst (λ st. Edge e.columns.status st) (sym status) (stays e.columns.status)) same_id
              h

create-cases :
    (p : Platform) (e : Event) (now : ℕ) (s : Conn)
    → ((create p e now s).1.db.events ≡ s.db.events)
      ⊎ ((create p e now s).1.db.events
          ≡ s.db.events ++ record (written now e.columns) { created_at = whole_second now } ∷ [])
unfolding create create_event transaction
create-cases p e now s = ground arith

create-Moved :
    (p : Platform) (user : Text) (e : Event) (now : ℕ) (s : Conn) (db : Db)
    → s.db ≡ db
    → e.columns.status ≡ lit "draft"
    → Moved user db (create p e now s).1.db.events
create-Moved p user e now s db same draft = elim (create-cases p e now s) [
  | inl h ↦ kept (h ∙ ap (λ db. db.events) same)
  | inr h ↦
      added (record (written now e.columns) { created_at = whole_second now }) draft
        (h
          ∙ ap
              (λ db.
                db.events ++ record (written now e.columns) { created_at = whole_second now } ∷ [])
              same)
]

new_event-status :
    (p : Platform) (retention : ℤ) (user : Text) (req : CreateEventRequest) {e : Event}
    → new_event p retention user req ≡ ok e
    → e.columns.status ≡ lit "draft"
unfolding new_event
new_event-status p retention user req h = ground arith

pub create_draft-Moved :
    (p : Platform) (svc : Service) (user : Text) (req : CreateEventRequest) (now : ℕ) (s : Conn)
    → Moved user s.db (create_draft p svc user req now s).1.db.events
unfolding create_draft
create_draft-Moved p svc user req now s =
    lift-rel (λ t. Moved user s.db t.db.events) (new_event p svc.default_retention user req) _ s
      (kept refl)
      λ e h.
        create-Moved p user (with_id (p.uuid s.issued) e) now (record s { issued = suc s.issued })
          s.db refl (new_event-status p svc.default_retention user req h)

copy-quiet :
    (callback : Option (Text → Text → Conn → Conn)) (src : Text) (e : Event) (t : Conn)
    → ((invoke_copy callback src e.columns.id t).1.db.events ≡ t.db.events)
    → ((invoke_copy callback src e.columns.id >> pure e) t).1.db.events ≡ t.db.events
copy-quiet none src e t h = h
copy-quiet (some f) src e t h = h

pub duplicate-Moved :
    (p : Platform) (svc : Service) (id user : Text) (now : ℕ) (s : Conn)
    → CallbackLaws svc
    → Moved user s.db (duplicate p svc id user now s).1.db.events
unfolding duplicate
duplicate-Moved p svc id user now s laws =
    authorized-Moved owner id user _ s λ e s' same there right.
      quiet-Moved (create p (copy_of (p.uuid s'.issued) user e) now)
        (λ copy. do invoke_copy svc.on_duplicate id copy.columns.id; pure copy)
        (record s' { issued = suc s'.issued })
        (λ copy t. copy-quiet svc.on_duplicate id copy t (laws.copied id copy.columns.id t))
        (create-Moved p user (copy_of (p.uuid s'.issued) user e) now
          (record s' { issued = suc s'.issued }) s.db same refl)

-- The event of a series is added behind the others, as it was built, or nothing is.
pub create_from_series-cases :
    (p : Platform) (e : Event) (now : ℕ) (s : Conn)
    → ((create_from_series p e now s).1.db.events ≡ s.db.events)
      ⊎ ((create_from_series p e now s).1.db.events
          ≡ s.db.events ++ record (written now e.columns) { created_at = whole_second now } ∷ [])
unfolding create_from_series
create_from_series-cases p e now s = create-cases p e now s
