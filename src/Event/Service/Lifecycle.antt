-- ===== src/Event/Service/Lifecycle.antt =====
-- Operations one after the other, and what no sequence of them undoes.
use owl_invites.Base.{
  ℕ, ◌≡◌, refl, sym, ◌∙◌, ap, subst, ◌⊎◌, inl, inr, Bool, false, Bool-cases, Option, none, some,
  List, [], ◌∷◌, ◌++◌, arith,
}
use owl_invites.Text.{Text, lit, text_eq, text_eq_iff}
use owl_invites.Platform.{Platform}
use owl_invites.Table.{find_where, find_where-test, update_where}
use owl_invites.Event.Model.{Event, EventRow, CreateEventRequest, UpdateEventRequest}
use owl_invites.Event.Store.{has_id, overwrite, whole_second, written}
use owl_invites.Event.Service.{
  Service, publish, cancel, reopen, delete, duplicate, create_draft, change, create_from_series,
}
use owl_invites.Event.Service.Moves.{
  CallbackLaws, Moved, kept, managed, archived, added, Edge, stays, publishes, cancels, reopens,
}
use owl_invites.Event.Service.Steps.{
  publish-Moved, cancel-Moved, reopen-Moved, delete-Moved, change-Moved, create_draft-Moved,
  duplicate-Moved, create_from_series-cases,
}
use owl_invites.Event.Service.Rights.{IsOwner, IsManager}
use owl_invites.Invitation.Database.{Db}
use owl_invites.Invitation.Action.{Conn}

-- The operations of the service that write events, with their arguments but the user's identifier
-- and the time. The event that a series generates is the argument of the last.
pub data Op : Type 0 where
  creates : CreateEventRequest → Op
  changes : Text → UpdateEventRequest → Op
  publishing reopening deleting duplicating : Text → Op
  cancelling : Text → Bool → Op
  generating : Event → Op

module _ (p : Platform) (svc : Service) where
  unfoldable pub perform : Text → ℕ → Op → Conn → Conn
  perform user now (creates req) s = (create_draft p svc user req now s).1
  perform user now (changes id req) s = (change p id user req now s).1
  perform user now (publishing id) s = (publish svc id user now s).1
  perform user now (reopening id) s = (reopen id user now s).1
  perform user now (deleting id) s = (delete id user now s).1
  perform user now (duplicating id) s = (duplicate p svc id user now s).1
  perform user now (cancelling id notify) s = (cancel svc id user notify now s).1
  perform user now (generating e) s = (create_from_series p e now s).1

  -- A user's operations, each with its time.
  unfoldable pub performs : List (Text × ℕ × Op) → Conn → Conn
  performs [] s = s
  performs ((user, now, op) ∷ ops) s = performs ops (perform user now op s)

-- The status of an event.
abbrev status_or_none : Option EventRow → Option Text
status_or_none none = none
status_or_none (some e) = some e.status

unfoldable pub status_of : Text → List EventRow → Option Text
status_of id events = status_or_none (find_where (has_id id) events)

status_of-update_other :
    (id : Text) (now : ℕ) (new : EventRow) (events : List EventRow)
    → text_eq new.id id ≡ false
    → status_of id (update_where (has_id new.id) (overwrite now new) events) ≡ status_of id events
unfolding status_of find_where update_where
status_of-update_other id now new [] h = refl
status_of-update_other id now new (e ∷ es) h = ground (
  arith,
  text_eq_iff e.id new.id,
  text_eq_iff new.id id,
  text_eq_iff e.id id,
  status_of-update_other id now new es h,
)

pub status_of-update_same :
    (now : ℕ) (new : EventRow) (events : List EventRow) {old : EventRow}
    → find_where (has_id new.id) events ≡ some old
    → status_of new.id (update_where (has_id new.id) (overwrite now new) events) ≡ some new.status
unfolding status_of find_where update_where
status_of-update_same now new [] h = ground arith
status_of-update_same now new (e ∷ es) {old} h =
    ground (arith, text_eq_iff e.id new.id, status_of-update_same now new es {old = old})

status_of-found :
    (id : Text) (events : List EventRow) {old : EventRow}
    → find_where (has_id id) events ≡ some old
    → status_of id events ≡ some old.status
unfolding status_of
status_of-found id events h = ap status_or_none h

-- What an event behind the others changes: nothing, or it is the first with its identifier.
status_of-append :
    (id : Text) (e : EventRow) (events : List EventRow)
    → (status_of id (events ++ e ∷ []) ≡ status_of id events)
      ⊎ ((e.id ≡ id)
          × (status_of id events ≡ none)
          × (status_of id (events ++ e ∷ []) ≡ some e.status))
unfolding status_of find_where
status_of-append id e [] = ground (arith, text_eq_iff e.id id)
status_of-append id e (x ∷ es) = ground (arith, status_of-append id e es)

-- What may become of the status of an event in an operation of a user.
pub data Next (op : Op) (id user : Text) (db : Db) : Option Text → Option Text → Type 0 where
  same : (status : Option Text) → Next op id user db status status
  along :
      (from to : Text)
      → IsManager id user db
      → Edge from to
      → Next op id user db (some from) (some to)
  archive :
      (from : Text) → IsOwner id user db → Next op id user db (some from) (some (lit "archived"))
  draft : Next op id user db none (some (lit "draft"))
  generated :
      (e : Event)
      → op ≡ generating e
      → e.columns.id ≡ id
      → Next op id user db none (some e.columns.status)

module _ (op : Op) (id user : Text) (db : Db) where
  to_same : {a b : Option Text} → b ≡ a → Next op id user db a b
  to_same {a} h = subst (λ b. Next op id user db a b) (sym h) (same a)

  rewritten :
      {a b a' b' : Option Text}
      → a ≡ a'
      → b ≡ b'
      → Next op id user db a' b'
      → Next op id user db a b
  rewritten {a} {b} {a'} {b'} ha hb n =
      subst (λ x. Next op id user db x b) (sym ha) (subst (λ y. Next op id user db a' y) (sym hb) n)

  -- The row that is written again is that of the event, or another one.
  written-Next :
      (j : Text) (now : ℕ) (old new : EventRow)
      → find_where (has_id j) db.events ≡ some old
      → new.id ≡ old.id
      → (j ≡ id → Next op id user db (some old.status) (some new.status))
      → Next op id user db
          (status_of id db.events)
          (status_of id (update_where (has_id new.id) (overwrite now new) db.events))
  written-Next j now old new there same_id k =
      let old_id = (text_eq_iff old.id j).0 (find_where-test (has_id j) db.events there) in
      elim (Bool-cases (text_eq new.id id)) [
        | inr other ↦ to_same (status_of-update_other id now new db.events other)
        | inl hit ↦
            let new_id = (text_eq_iff new.id id).0 hit in
            let j_id = sym old_id ∙ sym same_id ∙ new_id in
            rewritten
              (status_of-found id db.events
                (ap (λ i. find_where (has_id i) db.events) (sym j_id) ∙ there))
              (ap (λ i. status_of i (update_where (has_id new.id) (overwrite now new) db.events))
                  (sym new_id)
                ∙ status_of-update_same now new db.events
                    (ap (λ i. find_where (has_id i) db.events) (same_id ∙ old_id) ∙ there))
              (k j_id)
      ]

  Moved-Next :
      {after : List EventRow}
      → Moved user db after
      → Next op id user db (status_of id db.events) (status_of id after)
  Moved-Next (kept h) = to_same (ap (status_of id) h)
  Moved-Next (managed j now old new there right edge same_id h) =
      rewritten refl (ap (status_of id) h) (
        written-Next j now old new there same_id
          λ eq. along old.status new.status (subst (λ i. IsManager i user db) eq right) edge)
  Moved-Next (archived j now old new there right to same_id h) =
      rewritten refl (ap (status_of id) h) (
        written-Next j now old new there same_id λ eq.
          subst (λ st. Next op id user db (some old.status) (some st)) (sym to)
            (archive old.status (subst (λ i. IsOwner i user db) eq right)))
  Moved-Next (added e to h) = elim (status_of-append id e db.events) [
    | inl unchanged ↦ to_same (ap (status_of id) h ∙ unchanged)
    | inr (hit, missing, new) ↦ rewritten missing (ap (status_of id) h ∙ new ∙ ap some to) (draft)
  ]

Archived-Next :
    (op : Op) (id user : Text) (db : Db) {a b : Option Text}
    → Next op id user db a b
    → a ≡ some (lit "archived")
    → b ≡ some (lit "archived")
unfolding lit
Archived-Next op id user db (same status) h = h
Archived-Next op id user db (along from to right (stays status)) h = h
Archived-Next op id user db (along from to right publishes) h = ground arith
Archived-Next op id user db (along from to right cancels) h = ground arith
Archived-Next op id user db (along from to right reopens) h = ground arith
Archived-Next op id user db (archive from right) h = refl
Archived-Next op id user db draft h = ground arith
Archived-Next op id user db (generated e from_series here) h = ground arith

generated-Next :
    (p : Platform) (e : Event) (id user : Text) (now : ℕ) (s : Conn)
    → Next
        (generating e)
        id
        user
        s.db
        (status_of id s.db.events)
        (status_of id (create_from_series p e now s).1.db.events)
generated-Next p e id user now s = elim (create_from_series-cases p e now s) [
  | inl h ↦ to_same (generating e) id user s.db (ap (status_of id) h)
  | inr h ↦
      let row : EventRow = record (written now e.columns) { created_at = whole_second now } in
      elim (status_of-append id row s.db.events) [
        | inl unchanged ↦ to_same (generating e) id user s.db (ap (status_of id) h ∙ unchanged)
        | inr (hit, missing, new) ↦
            rewritten (generating e) id user s.db missing (ap (status_of id) h ∙ new)
              (generated e refl hit)
      ]
]

module _ (p : Platform) (svc : Service) where
  -- In each operation of the service that writes events, on every branch and whichever calls of the
  -- database fail, the status of an event stays, or goes along an edge while the user is the owner
  -- or a cohost of that very event, or becomes archived while the user is its owner, or is that of
  -- a new draft, or, in the creation from a series only, is the one that the event of this
  -- identifier was built with. The callbacks leave the events alone.
  pub perform-Next :
      (user : Text) (now : ℕ) (op : Op) (id : Text) (s : Conn)
      → CallbackLaws svc
      → Next op id user s.db
          (status_of id s.db.events)
          (status_of id (perform p svc user now op s).db.events)
  unfolding perform
  perform-Next user now (creates req) id s laws =
      Moved-Next (creates req) id user s.db (create_draft-Moved p svc user req now s)
  perform-Next user now (changes e req) id s laws =
      Moved-Next (changes e req) id user s.db (change-Moved p e user req now s)
  perform-Next user now (publishing e) id s laws =
      Moved-Next (publishing e) id user s.db (publish-Moved svc e user now s laws)
  perform-Next user now (reopening e) id s laws =
      Moved-Next (reopening e) id user s.db (reopen-Moved e user now s)
  perform-Next user now (deleting e) id s laws =
      Moved-Next (deleting e) id user s.db (delete-Moved e user now s)
  perform-Next user now (duplicating e) id s laws =
      Moved-Next (duplicating e) id user s.db (duplicate-Moved p svc e user now s laws)
  perform-Next user now (cancelling e notify) id s laws =
      Moved-Next (cancelling e notify) id user s.db (cancel-Moved svc e user notify now s laws)
  perform-Next user now (generating e) id s laws = generated-Next p e id user now s

  -- An archived event stays archived, whatever operations come after, by whichever users.
  pub performs-archived :
      (ops : List (Text × ℕ × Op)) (id : Text) (s : Conn)
      → CallbackLaws svc
      → status_of id s.db.events ≡ some (lit "archived")
      → status_of id (performs p svc ops s).db.events ≡ some (lit "archived")
  unfolding performs
  performs-archived [] id s laws h = h
  performs-archived ((user, now, op) ∷ ops) id s laws h =
      performs-archived ops id (perform p svc user now op s) laws
        (Archived-Next op id user s.db (perform-Next user now op id s laws) h)
