-- ===== src/Invitation/Store/Rows.antt =====
-- The insertions that creation, import, enrollment and submission share, with the primary keys
-- of the schema: a row whose `id` is taken is refused by the database.
use mathlib.Core.List.{append-nil, append_assoc}
use owl_invites.Base.{
  ℕ, ◌≡◌, ◌∙◌, ap, Bool, true, false, String, none, List, [], ◌∷◌, ◌++◌, arith, if◌then◌else◌,
  Result, ok, internal,
}
use owl_invites.Text.{Text, text_eq}
use owl_invites.Platform.{Platform}
use owl_invites.Invitation.Model.{Guest, attendance_pending}
use owl_invites.Invitation.Database.{Db, Invitation, GuestRow, GuestResponseRow}
use owl_invites.Invitation.Action.{
  Conn, Action, ◌>>=◌, ◌>>◌, pure, reject, call, exec, new_id, bind-eq-ok,
}

unfoldable pub has_invitation : Text → List Invitation → Bool
has_invitation id [] = false
has_invitation id (i ∷ is) =
    let rest = has_invitation id is in if text_eq i.id id then true else rest

unfoldable pub has_guest : Text → List GuestRow → Bool
has_guest id [] = false
has_guest id (g ∷ gs) = let rest = has_guest id gs in if text_eq g.id id then true else rest

-- What the primary key refuses.
abbrev refuse : String → Bool → Action (Unit {0})
refuse e taken = reject taken (internal e)

unfoldable pub insert_invitation : String → Invitation → Action (Unit {0})
insert_invitation e i = do
  call e
  λ s. refuse e (has_invitation i.id s.db.invitations) s
  λ s. (ok tt, record s { db = record s.db { invitations = s.db.invitations ++ i ∷ [] } })

unfoldable pub insert_response : Platform → String → Text → ℕ → Action Text
insert_response p e invitation_id now = do
  id ← new_id p
  exec e (λ db. record db {
    responses =
        db.responses
        ++ record {
          id = id;
          invitation_id = invitation_id;
          version = 1;
          submitted_at = none;
          updated_at = now;
        }
          ∷ [];
  })
  pure id

unfoldable pub insert_guest : String → GuestRow → Action (Unit {0})
insert_guest e g = do
  call e
  λ s. refuse e (has_guest g.id s.db.guests) s
  λ s. (ok tt, record s { db = record s.db { guests = s.db.guests ++ g ∷ [] } })

unfoldable pub insert_guest_response : String → GuestResponseRow → Action (Unit {0})
insert_guest_response e r =
    exec e (λ db. record db { guest_responses = db.guest_responses ++ r ∷ [] })

abbrev pub guest_row : Text → Text → Guest → GuestRow
guest_row invitation_id origin g = record {
  id = g.id;
  invitation_id = invitation_id;
  name = g.name;
  origin = origin;
  sort_order = g.sort_order;
  removed_at = none;
}

abbrev pub pending_row : Text → Text → GuestResponseRow
pending_row response_id guest_id = record {
  rsvp_response_id = response_id;
  guest_id = guest_id;
  attendance = attendance_pending;
}

-- One guest of a new invitation, with a pending response; `origin` is what the row is given.
unfoldable pub insert_pending : String → String → Text → Text → Text → Guest → Action (Unit {0})
unfolding insert_guest insert_guest_response
insert_pending e f invitation_id response_id origin g = do
  insert_guest e (guest_row invitation_id origin g)
  insert_guest_response f (pending_row response_id g.id)

unfoldable pub insert_guests :
    String → String → Text → Text → (Guest → Text) → List Guest → Action (Unit {0})
insert_guests e f invitation_id response_id origin [] = pure tt
insert_guests e f invitation_id response_id origin (g ∷ gs) = do
  insert_pending e f invitation_id response_id (origin g) g
  insert_guests e f invitation_id response_id origin gs

-- The rows that a loop which succeeds has added.
unfoldable pub guest_rows : Text → (Guest → Text) → List Guest → List GuestRow
guest_rows invitation_id origin [] = []
guest_rows invitation_id origin (g ∷ gs) =
    guest_row invitation_id (origin g) g ∷ guest_rows invitation_id origin gs

unfoldable pub pending_rows : Text → List Guest → List GuestResponseRow
pending_rows response_id [] = []
pending_rows response_id (g ∷ gs) = pending_row response_id g.id ∷ pending_rows response_id gs

abbrev pub add_guests : Text → Text → (Guest → Text) → List Guest → Db → Db
add_guests invitation_id response_id origin gs db = record db {
  guests = db.guests ++ guest_rows invitation_id origin gs;
  guest_responses = db.guest_responses ++ pending_rows response_id gs;
}

insert_pending-db :
    (e f : String) (invitation_id response_id origin : Text) (g : Guest) (s : Conn)
    → (insert_pending e f invitation_id response_id origin g s).0 ≡ ok tt
    → (insert_pending e f invitation_id response_id origin g s).1.db ≡ record s.db {
      guests = s.db.guests ++ guest_row invitation_id origin g ∷ [];
      guest_responses = s.db.guest_responses ++ pending_row response_id g.id ∷ [];
    }
unfolding insert_pending
insert_pending-db e f invitation_id response_id origin g s h = ground arith

module _ (e f : String) (invitation_id response_id : Text) (origin : Guest → Text) where
  abbrev inserted : List Guest → Action (Unit {0})
  inserted = insert_guests e f invitation_id response_id origin

  add_guests-cons :
      (g : Guest) (gs : List Guest) (db : Db)
      → add_guests invitation_id response_id origin gs (record db {
        guests = db.guests ++ guest_row invitation_id (origin g) g ∷ [];
        guest_responses = db.guest_responses ++ pending_row response_id g.id ∷ [];
      })
        ≡ add_guests invitation_id response_id origin (g ∷ gs) db
  unfolding guest_rows pending_rows
  add_guests-cons g gs db = simp append_assoc

  -- A loop that succeeds has added a row for each guest, and a pending response.
  pub insert_guests-db :
      (gs : List Guest) (s : Conn)
      → (insert_guests e f invitation_id response_id origin gs s).0 ≡ ok tt
      → (insert_guests e f invitation_id response_id origin gs s).1.db
        ≡ add_guests invitation_id response_id origin gs s.db
  unfolding insert_guests guest_rows pending_rows
  insert_guests-db [] s h = simp append-nil
  insert_guests-db (g ∷ gs) s h =
      let one : Action (Unit {0}) = insert_pending e f invitation_id response_id (origin g) g in
      let (_, h1, k1, e1) = bind-eq-ok one (λ _. inserted gs) s h in
      ap (λ (r : Result (Unit {0}) × Conn). r.1.db) e1
      ∙ insert_guests-db gs (one s).1 k1
      ∙ ap (add_guests invitation_id response_id origin gs)
          (insert_pending-db e f invitation_id response_id (origin g) g s h1)
      ∙ add_guests-cons g gs s.db
