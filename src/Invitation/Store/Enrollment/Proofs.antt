-- ===== src/Invitation/Store/Enrollment/Proofs.antt =====
-- An enrollment keeps the party size, the window and the capacity that are stored.
use owl_invites.Base.{
  String, ℕ, suc, ◌+◌, ◌≤◌, ◌≡◌, refl, ap, ◌∙◌, true, false, ◌&&◌, Option, none, some, List, [],
  ◌∷◌, ◌++◌, arith, length, All, Result, ok,
}
use owl_invites.Text.{Text, text_eq, text_eq_iff}
use owl_invites.Table.{count_where, find_where, count_where-append_le}
use owl_invites.Platform.{Platform}
use owl_invites.Invitation.Model.{Guest, guest_origin_assigned}
use owl_invites.Invitation.Contact.{is_none}
use owl_invites.Invitation.Database.{Db, Invitation, GuestRow, OpenEnrollmentConfig}
use owl_invites.Invitation.Action.{Conn, Action, ◌>>=◌, bind-eq-ok, transaction-eq-ok}
use owl_invites.Invitation.Store.Rows.{
  insert_invitation, insert_response, insert_guests, insert_guests-db, guest_rows, has_invitation,
}
use owl_invites.Invitation.Store.Sessions.{create_session_row}
use owl_invites.Invitation.Store.Enrollment.{
  is_offered, is_enrolled, allocated, check_capacity, check_row, check_open, open_row,
  insert_members, insert_open, enroll_open, before_opening, not_before_closing,
}

-- What the stored row lets a party of this size do now.
pub record Admits (db : Db) (id : Text) (party now : ℕ) (r : OpenEnrollmentConfig) : Type 0 where
  pub stored : find_where (λ c. text_eq c.id id) db.open_enrollments ≡ some r
  pub some_guest : 1 ≤ party
  pub fits : party ≤ r.max_party_size
  pub opened : before_opening now r.opens_at ≡ false
  pub closes_later : not_before_closing now r.closes_at ≡ false
  pub room :
      (capacity : ℕ)
      → r.capacity ≡ some capacity
      → allocated id db.invitations db.guests + party ≤ capacity

check_capacity_sound :
    (id : Text) (party : ℕ) (limit : Option ℕ) (s : Conn)
    → (check_capacity id party limit s).0 ≡ ok tt
    → (capacity : ℕ) → limit ≡ some capacity
    → allocated id s.db.invitations s.db.guests + party ≤ capacity
unfolding check_capacity
check_capacity_sound id party none s h capacity e = cc
check_capacity_sound id party (some n) s h capacity e = ground arith

check_capacity-db :
    (id : Text) (party : ℕ) (limit : Option ℕ) (s : Conn)
    → (check_capacity id party limit s).1.db ≡ s.db
unfolding check_capacity
check_capacity-db id party none s = refl
check_capacity-db id party (some n) s = ground arith

check_row-db :
    (id : Text) (party now : ℕ) (row : Option OpenEnrollmentConfig) (s : Conn)
    → (check_row id party now row s).1.db ≡ s.db
unfolding check_row
check_row-db id party now none s = refl
check_row-db id party now (some r) s = ground (arith, check_capacity-db id party r.capacity s)

check_row_sound :
    (id : Text) (party now : ℕ) (r : OpenEnrollmentConfig) (s : Conn)
    → (check_row id party now (some r) s).0 ≡ ok tt
    → (1 ≤ party)
      × (party ≤ r.max_party_size)
      × (before_opening now r.opens_at ≡ false)
      × (not_before_closing now r.closes_at ≡ false)
      × ((check_capacity id party r.capacity s).0 ≡ ok tt)
unfolding check_row
check_row_sound id party now r s h = ground arith

check_open-db :
    (c : OpenEnrollmentConfig) (party now : ℕ) (s : Conn) → (check_open c party now s).1.db ≡ s.db
unfolding check_open
check_open-db c party now s = ground (
  arith,
  check_row-db c.id party now (find_where (λ r. text_eq r.id c.id) s.db.open_enrollments)
      (record s { calls = suc (suc s.calls) }),
)

check_open_row :
    (c : OpenEnrollmentConfig) (party now : ℕ) (s : Conn)
    → (check_open c party now s).0 ≡ ok tt
    → (count_where (is_offered c) s.db.open_enrollments ≡ 1)
      × ((check_row c.id party now
            (find_where (λ r. text_eq r.id c.id) s.db.open_enrollments)
            (record s { calls = suc (suc s.calls) })).0
          ≡ ok tt)
unfolding check_open
check_open_row c party now s h = ground arith

check_found :
    (id : Text) (party now : ℕ) (row : Option OpenEnrollmentConfig) (s : Conn)
    → (check_row id party now row s).0 ≡ ok tt
    → find_where (λ c. text_eq c.id id) s.db.open_enrollments ≡ row
    → (r : OpenEnrollmentConfig) × Admits s.db id party now r
unfolding check_row
check_found id party now none s h e = cc
check_found id party now (some r) s h e =
    let (size, fits, opened, closes, room) = check_row_sound id party now r s h in
    (
      r,
      record {
        stored = e;
        some_guest = size;
        fits = fits;
        opened = opened;
        closes_later = closes;
        room = check_capacity_sound id party r.capacity s room;
      },
    )

check_open_sound :
    (c : OpenEnrollmentConfig) (party now : ℕ) (s : Conn)
    → (check_open c party now s).0 ≡ ok tt
    → (r : OpenEnrollmentConfig) × Admits s.db c.id party now r
check_open_sound c party now s h =
    check_found c.id party now (find_where (λ r. text_eq r.id c.id) s.db.open_enrollments)
      (record s { calls = suc (suc s.calls) }) (check_open_row c party now s h).1 refl

insert_invitation-ok :
    (e : String) (i : Invitation) (s : Conn)
    → (insert_invitation e i s).0 ≡ ok tt
    → (has_invitation i.id s.db.invitations ≡ false)
      × ((insert_invitation e i s).1.db ≡ record s.db { invitations = s.db.invitations ++ i ∷ [] })
unfolding insert_invitation
insert_invitation-ok e i s h = ground arith

insert_response-db :
    (p : Platform) (e : String) (id : Text) (now : ℕ) (s : Conn)
    → ((insert_response p e id now s).1.db.invitations ≡ s.db.invitations)
      × ((insert_response p e id now s).1.db.guests ≡ s.db.guests)
unfolding insert_response
insert_response-db p e id now s = ground arith

create_session_row-db :
    (e : String) (id h : Text) (version expires_at : ℕ) (s : Conn)
    → ((create_session_row e id h version expires_at s).1.db.invitations ≡ s.db.invitations)
      × ((create_session_row e id h version expires_at s).1.db.guests ≡ s.db.guests)
unfolding create_session_row
create_session_row-db e id h version expires_at s = ground arith

abbrev new_rows : Text → List Guest → List GuestRow
new_rows id guests = guest_rows id (λ _. guest_origin_assigned) guests

insert_members-db :
    (p : Platform) (i : Invitation) (guests : List Guest) (h : Text) (expires_at now : ℕ) (s : Conn)
    → (insert_members p i guests h expires_at now s).0 ≡ ok tt
    → ((insert_members p i guests h expires_at now s).1.db.invitations ≡ s.db.invitations)
      × ((insert_members p i guests h expires_at now s).1.db.guests
          ≡ s.db.guests ++ new_rows i.id guests)
unfolding insert_members
insert_members-db p i guests h expires_at now s e =
    let response : Action Text = insert_response p "create open response" i.id now in
    let session : Action (Unit {0}) =
      create_session_row "create open invitation session" i.id h 1 expires_at in
    let rows : Text → Action (Unit {0}) = λ id.
      insert_guests "create open guest" "create open guest response" i.id id
        (λ _. guest_origin_assigned) guests in
    let (id, h1, k1, e1) = bind-eq-ok response (λ id. rows id >>= λ _. session) s e in
    let (_, h2, k2, e2) = bind-eq-ok (rows id) (λ _. session) (response s).1 k1 in
    let same = insert_response-db p "create open response" i.id now s in
    let added =
      insert_guests-db "create open guest" "create open guest response" i.id id
        (λ _. guest_origin_assigned) guests (response s).1 h2 in
    let closed =
      create_session_row-db "create open invitation session" i.id h 1 expires_at
        (rows id (response s).1).1 in
    (
      ap (λ (r : Result (Unit {0}) × Conn). r.1.db.invitations) (e1 ∙ e2)
          ∙ closed.0
          ∙ ap (λ (d : Db). d.invitations) added
          ∙ same.0,
      ap (λ (r : Result (Unit {0}) × Conn). r.1.db.guests) (e1 ∙ e2)
          ∙ closed.1
          ∙ ap (λ (d : Db). d.guests) added
          ∙ ap (λ (l : List GuestRow). l ++ new_rows i.id guests) same.1,
    )

-- Every guest stands in a stored invitation, as the foreign key of the schema says.
abbrev pub NoOrphans : Db → Type 0
NoOrphans db = All (λ g. has_invitation g.invitation_id db.invitations ≡ true) db.guests

is_enrolled-append :
    (id x : Text) (invitations : List Invitation) (i : Invitation)
    → text_eq i.id x ≡ false
    → is_enrolled id (invitations ++ i ∷ []) x ≡ is_enrolled id invitations x
unfolding is_enrolled
is_enrolled-append id x [] i h = ground arith
is_enrolled-append id x (j ∷ js) i h = ground (arith, is_enrolled-append id x js i h)

has_invitation-differs :
    (x y : Text) (invitations : List Invitation)
    → has_invitation x invitations ≡ true
    → has_invitation y invitations ≡ false
    → text_eq y x ≡ false
has_invitation-differs x y invitations h k = ground (arith, text_eq_iff y x)

allocated-append :
    (id : Text) (invitations : List Invitation) (i : Invitation) (guests : List GuestRow)
    → has_invitation i.id invitations ≡ false
    → All (λ g. has_invitation g.invitation_id invitations ≡ true) guests
    → allocated id (invitations ++ i ∷ []) guests ≡ allocated id invitations guests
unfolding count_where
allocated-append id invitations i [] fresh all = refl
allocated-append id invitations i (g ∷ gs) fresh (one, all) = ground (
  arith,
  is_enrolled-append id g.invitation_id invitations i
      (has_invitation-differs g.invitation_id i.id invitations one fresh),
  allocated-append id invitations i gs fresh all,
)

length-new_rows : (id : Text) (guests : List Guest) → length (new_rows id guests) ≡ length guests
unfolding guest_rows
length-new_rows id [] = refl
length-new_rows id (g ∷ gs) = ap suc (length-new_rows id gs)

-- The places that are taken after a party has joined.
allocated-enrolled :
    (id : Text) (db : Db) (i : Invitation) (guests : List Guest)
    → NoOrphans db
    → has_invitation i.id db.invitations ≡ false
    → allocated id (db.invitations ++ i ∷ []) (db.guests ++ new_rows i.id guests)
      ≤ allocated id db.invitations db.guests + length guests
allocated-enrolled id db i guests orphans fresh = omega (
  arith,
  allocated-append id db.invitations i db.guests fresh orphans,
  count_where-append_le
      (λ g. is_none g.removed_at && is_enrolled id (db.invitations ++ i ∷ []) g.invitation_id)
      db.guests (new_rows i.id guests),
  length-new_rows i.id guests,
)

insert_open-ok :
    (p : Platform) (c : OpenEnrollmentConfig) (i : Invitation) (guests : List Guest) (h : Text)
    (expires_at now : ℕ) (s : Conn)
    → (insert_open p c i guests h expires_at now s).0 ≡ ok tt
    → (has_invitation i.id s.db.invitations ≡ false)
      × ((insert_open p c i guests h expires_at now s).1.db.invitations
          ≡ s.db.invitations ++ open_row p c i ∷ [])
      × ((insert_open p c i guests h expires_at now s).1.db.guests
          ≡ s.db.guests ++ new_rows i.id guests)
unfolding insert_open
insert_open-ok p c i guests h expires_at now s e =
    let first : Action (Unit {0}) = insert_invitation "create open invitation" (open_row p c i) in
    let rest : Action (Unit {0}) = insert_members p i guests h expires_at now in
    let (_, h1, k1, e1) = bind-eq-ok first (λ _. rest) s e in
    let (fresh, db) = insert_invitation-ok "create open invitation" (open_row p c i) s h1 in
    let (invitations, rows) = insert_members-db p i guests h expires_at now (first s).1 k1 in
    (
      fresh,
      ap (λ (r : Result (Unit {0}) × Conn). r.1.db.invitations) e1
          ∙ invitations
          ∙ ap (λ (d : Db). d.invitations) db,
      ap (λ (r : Result (Unit {0}) × Conn). r.1.db.guests) e1
          ∙ rows
          ∙ ap (λ (d : Db). d.guests ++ new_rows i.id guests) db,
    )

-- An enrollment that succeeds has found a stored row that admits the party: at least one guest,
-- no more than the party size, within the window, and with room under the capacity. After it the
-- guests that count against the capacity are within it. For tables in which every guest stands in
-- a stored invitation.
pub enroll_open-within :
    (p : Platform) (c : OpenEnrollmentConfig) (i : Invitation) (guests : List Guest) (h : Text)
    (expires_at now : ℕ) (s : Conn)
    → NoOrphans s.db
    → (enroll_open p c i guests h expires_at now s).0 ≡ ok tt
    → (r : OpenEnrollmentConfig) × Admits s.db c.id (length guests) now r
      × ((capacity : ℕ)
          → r.capacity ≡ some capacity
          → allocated c.id
              (enroll_open p c i guests h expires_at now s).1.db.invitations
              (enroll_open p c i guests h expires_at now s).1.db.guests
            ≤ capacity)
unfolding enroll_open
enroll_open-within p c i guests h expires_at now s orphans e =
    let called : Conn = record s { calls = suc s.calls } in
    let first : Action (Unit {0}) = check_open c (length guests) now in
    let rest : Action (Unit {0}) = insert_open p c i guests h expires_at now in
    let (body, db) =
      transaction-eq-ok "begin open enrollment" "commit open enrollment" (first >>= λ _. rest) s
        e in
    let (_, h1, k1, e1) = bind-eq-ok first (λ _. rest) called body in
    let (r, admits) = check_open_sound c (length guests) now called h1 in
    let same : (first called).1.db ≡ s.db = check_open-db c (length guests) now called in
    let (fresh, invitations, rows) =
      insert_open-ok p c i guests h expires_at now (first called).1 k1 in
    let end : (enroll_open p c i guests h expires_at now s).1.db ≡ (rest (first called).1).1.db =
      db ∙ ap (λ (x : Result (Unit {0}) × Conn). x.1.db) e1 in
    (
      r,
      admits,
      λ capacity bounded.
          rw
            (
              ap (λ (d : Db). d.invitations) end,
              ap (λ (d : Db). d.guests) end,
              invitations,
              rows,
              same,
            )
            (omega (
              arith,
              admits.room capacity bounded,
              allocated-enrolled c.id s.db (open_row p c i) guests orphans (rw same at fresh),
            )),
    )
