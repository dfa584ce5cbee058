-- ===== src/Invitation/Store/Create/Proofs.antt =====
-- What a creation and an import add to the tables.
use mathlib.Core.List.{append-nil, append_assoc}
use owl_invites.Base.{
  ℕ, suc, ◌≡◌, refl, sym, ◌∙◌, ap, subst, String, List, [], ◌∷◌, ◌++◌, arith, Result, ok, All,
}
use owl_invites.Text.{Text}
use owl_invites.Platform.{Platform}
use owl_invites.Invitation.Model.{Guest, attendance_pending}
use owl_invites.Invitation.Database.{Db, Invitation, GuestRow}
use owl_invites.Invitation.Action.{Conn, ◌>>=◌, pure, transaction, bind-eq-ok, transaction-eq-ok}
use owl_invites.Invitation.Store.Rows.{
  insert_invitation, insert_response, insert_guests, guest_row, guest_rows, insert_guests-db,
}
use owl_invites.Invitation.Store.Create.{
  Messages, ImportRecord, new_row, insert_household, insert_households, import_records,
  import_messages, create_messages, attached, create,
}

-- The rows that an import adds, in the order of its records.
abbrev pub new_rows : Platform → List ImportRecord → List Invitation
new_rows p [] = []
new_rows p (r ∷ rs) = new_row p r.invitation ∷ new_rows p rs

abbrev pub new_guests : List ImportRecord → List GuestRow
new_guests [] = []
new_guests (r ∷ rs) = guest_rows r.invitation.id (λ g. g.origin) r.guests ++ new_guests rs

-- The names of guests, in their order.
abbrev pub names_of : List Guest → List Text
names_of [] = []
names_of (g ∷ gs) = g.name ∷ names_of gs

insert_invitation-rows :
    (e : String) (i : Invitation) (s : Conn)
    → (insert_invitation e i s).0 ≡ ok tt
    → ((insert_invitation e i s).1.db.invitations ≡ s.db.invitations ++ i ∷ [])
      × ((insert_invitation e i s).1.db.guests ≡ s.db.guests)
unfolding insert_invitation
insert_invitation-rows e i s h = ground arith

insert_response-kept :
    (p : Platform) (e : String) (id : Text) (now : ℕ) (s : Conn)
    → ((insert_response p e id now s).1.db.invitations ≡ s.db.invitations)
      × ((insert_response p e id now s).1.db.guests ≡ s.db.guests)
unfolding insert_response
insert_response-kept p e id now s = ground arith

insert_household-rows :
    (p : Platform) (m : Messages) (i : Invitation) (guests : List Guest) (now : ℕ) (s : Conn)
    → (insert_household p m i guests now s).0 ≡ ok tt
    → ((insert_household p m i guests now s).1.db.invitations
        ≡ s.db.invitations ++ new_row p i ∷ [])
      × ((insert_household p m i guests now s).1.db.guests
          ≡ s.db.guests ++ guest_rows i.id (λ g. g.origin) guests)
unfolding insert_household
insert_household-rows p m i guests now s h =
    let added = insert_guests m.guest m.guest_response i.id in
    let (_, h1, k1, e1) =
      bind-eq-ok (insert_invitation m.invitation (new_row p i))
        (λ _. insert_response p m.response i.id now >>= λ r. added r (λ g. g.origin) guests) s h in
    let s1 = (insert_invitation m.invitation (new_row p i) s).1 in
    let (r, h2, k2, e2) =
      bind-eq-ok (insert_response p m.response i.id now) (λ r. added r (λ g. g.origin) guests) s1
        k1 in
    let s2 = (insert_response p m.response i.id now s1).1 in
    let last = insert_guests-db m.guest m.guest_response i.id r (λ g. g.origin) guests s2 k2 in
    let (row, kept) = insert_invitation-rows m.invitation (new_row p i) s h1 in
    let (same, unchanged) = insert_response-kept p m.response i.id now s1 in
    let final = λ (x : Result (Unit {0}) × Conn). x.1.db in
    let all = ap final e1 ∙ ap final e2 ∙ last in
    (
      ap (λ (db : Db). db.invitations) all ∙ same ∙ row,
      ap (λ (db : Db). db.guests) all
          ∙ ap (λ gs. gs ++ guest_rows i.id (λ g. g.origin) guests) (unchanged ∙ kept),
    )

insert_households-rows :
    (p : Platform) (rs : List ImportRecord) (now : ℕ) (s : Conn)
    → (insert_households p rs now s).0 ≡ ok tt
    → ((insert_households p rs now s).1.db.invitations ≡ s.db.invitations ++ new_rows p rs)
      × ((insert_households p rs now s).1.db.guests ≡ s.db.guests ++ new_guests rs)
unfolding insert_households
insert_households-rows p [] now s h =
    (sym (append-nil s.db.invitations), sym (append-nil s.db.guests))
insert_households-rows p (r ∷ rs) now s h =
    let one = insert_household p import_messages r.invitation r.guests now in
    let (_, h1, k1, e1) = bind-eq-ok one (λ _. insert_households p rs now) s h in
    let (row, gs) = insert_household-rows p import_messages r.invitation r.guests now s h1 in
    let (rows, guests) = insert_households-rows p rs now (one s).1 k1 in
    let final = λ (x : Result (Unit {0}) × Conn). x.1.db in
    let all = ap final e1 in
    (
      ap (λ (db : Db). db.invitations) all
          ∙ rows
          ∙ ap (λ is. is ++ new_rows p rs) row
          ∙ append_assoc s.db.invitations (new_row p r.invitation ∷ []) (new_rows p rs),
      ap (λ (db : Db). db.guests) all
          ∙ guests
          ∙ ap (λ x. x ++ new_guests rs) gs
          ∙ append_assoc s.db.guests (guest_rows r.invitation.id (λ g. g.origin) r.guests)
              (new_guests rs),
    )

-- An import that succeeds adds one invitation for each record, in their order, and the guests of
-- each with their names and places, and changes no invitation and no guest that stood before.
pub import_records-rows :
    (p : Platform) (rs : List ImportRecord) (now : ℕ) (s : Conn)
    → (import_records p rs now s).0 ≡ ok tt
    → ((import_records p rs now s).1.db.invitations ≡ s.db.invitations ++ new_rows p rs)
      × ((import_records p rs now s).1.db.guests ≡ s.db.guests ++ new_guests rs)
unfolding import_records
import_records-rows p rs now s h =
    let (body, same) =
      transaction-eq-ok "begin invitation import" "commit invitation import"
        (insert_households p rs now) s h in
    let (rows, guests) = insert_households-rows p rs now (record s { calls = suc s.calls }) body in
    (ap (λ (db : Db). db.invitations) same ∙ rows, ap (λ (db : Db). db.guests) same ∙ guests)

names_of-attached :
    (id : Text) (guests : List Guest) → names_of (attached id guests) ≡ names_of guests
names_of-attached id [] = refl
names_of-attached id (g ∷ gs) = ap (g.name ∷◌) (names_of-attached id gs)

-- The rows of the guests do not depend on what the commit leaves in them.
guest_rows-attached :
    (id : Text) (guests : List Guest)
    → guest_rows id (λ g. g.origin) (attached id guests) ≡ guest_rows id (λ g. g.origin) guests
unfolding guest_rows
guest_rows-attached id [] = refl
guest_rows-attached id (g ∷ gs) = ap (guest_row id g.origin g ∷◌) (guest_rows-attached id gs)

-- The guest is that of the invitation, and has not answered.
abbrev pub IsAttached : Text → Guest → Type 0
IsAttached id g = (g.invitation_id ≡ id) × (g.attendance ≡ attendance_pending)

attached-IsAttached : (id : Text) (guests : List Guest) → All (IsAttached id) (attached id guests)
attached-IsAttached id [] = tt
attached-IsAttached id (g ∷ gs) = ((refl, refl), attached-IsAttached id gs)

-- A creation that succeeds adds the invitation and its guests, and returns the guests as they are
-- stored.
pub create-rows :
    (p : Platform) (i : Invitation) (guests : List Guest) (now : ℕ) (s : Conn) {stored : List Guest}
    → (create p i guests now s).0 ≡ ok stored
    → (names_of stored ≡ names_of guests)
      × All (IsAttached i.id) stored
      × ((create p i guests now s).1.db.invitations ≡ s.db.invitations ++ new_row p i ∷ [])
      × ((create p i guests now s).1.db.guests
          ≡ s.db.guests ++ guest_rows i.id (λ g. g.origin) stored)
unfolding create
create-rows p i guests now s {stored} h =
    let insert = insert_household p create_messages i guests now in
    let tx = transaction "begin invitation create" "commit invitation create" insert in
    let (_, done, same, eq) = bind-eq-ok tx (λ u. pure (attached i.id guests)) s h in
    let gs : attached i.id guests ≡ stored = ground arith in
    let (body, tables) =
      transaction-eq-ok "begin invitation create" "commit invitation create" insert s done in
    let (row, rows) =
      insert_household-rows p create_messages i guests now (record s { calls = suc s.calls })
        body in
    let all = ap (λ (x : Result (List Guest) × Conn). x.1.db) eq ∙ tables in
    (
      ap names_of (sym gs) ∙ names_of-attached i.id guests,
      subst (All (IsAttached i.id)) gs (attached-IsAttached i.id guests),
      ap (λ (db : Db). db.invitations) all ∙ row,
      ap (λ (db : Db). db.guests) all
          ∙ rows
          ∙ ap (λ x. s.db.guests ++ x)
              (sym (guest_rows-attached i.id guests) ∙ ap (guest_rows i.id (λ g. g.origin)) gs),
    )
