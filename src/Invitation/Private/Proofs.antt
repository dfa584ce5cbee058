-- ===== src/Invitation/Private/Proofs.antt =====
-- What the tables hold, when the creation of an invitation succeeds.
use owl_invites.Base.{
  ℕ, suc, ◌≡◌, ◌≢◌, ◌≤◌, refl, ◌∙◌, ap, subst, Bool, true, false, List, [], ◌∷◌, ◌++◌, arith,
  length, All, ℤ, pos, negsuc, Result, ok, err, some,
}
use owl_invites.Text.{Text, text_eq_iff}
use owl_invites.Text.Trim.{trim_space}
use owl_invites.Platform.{Platform}
use owl_invites.Event.Store.{lift}
use owl_invites.Invitation.Contact.{Contact, validate_contact}
use owl_invites.Invitation.Model.{Guest, source_private}
use owl_invites.Invitation.Database.{Db, Invitation}
use owl_invites.Invitation.Action.{Conn, ◌>>=◌, pure, new_id, random_token, bind-out}
use owl_invites.Invitation.Store.Rows.{guest_rows}
use owl_invites.Invitation.Store.Create.{create, new_row}
use owl_invites.Invitation.Store.Create.Proofs.{create-rows, names_of, IsAttached}
use owl_invites.Invitation.Delivery.{Service}
use owl_invites.Invitation.Delivery.Keeps.{deliver-Keeps}
use owl_invites.Invitation.Private.{
  CreateRequest, CreateResult, allowance_of, check_label, check_names, check_send, check_guest_name,
  named_guests, private_row, created, store_private, DeliveryResult, deliver_if, create_private,
}

-- The result and the state are as they should be, or there is an error.
abbrev Sound {ℓ} : {A : Type ℓ} → (A → Conn → Type 0) → Result A → Conn → Type 0
Sound Good (err e) t = Unit
Sound Good (ok a) t = Good a t

sound-ok {ℓ} :
    {A : Type ℓ} (Good : A → Conn → Type 0) (r : Result A) (t : Conn) {a : A}
    → Sound Good r t
    → r ≡ ok a
    → Good a t
sound-ok Good (err e) t {a} s h = ground arith
sound-ok Good (ok b) t {a} s h = let same : b ≡ a = ground arith in subst (λ x. Good x t) same s

abbrev pub IsName : Text → Type 0
IsName name = (name ≢ []) × (length name ≤ 200)

check_guest_name-IsName : (name : Text) {u : Unit {0}} → check_guest_name name ≡ ok u → IsName name
check_guest_name-IsName name h = ground (arith, text_eq_iff name [])

-- The names that a request has behind the trimming.
abbrev pub trimmed : List Text → List Text
trimmed [] = []
trimmed (raw ∷ names) = trim_space raw ∷ trimmed names

-- The guests have the names, and the tables are as before.
abbrev Named : Conn → List Text → List Guest → Conn → Type 0
Named s names gs t = (names_of gs ≡ trimmed names) × All IsName (trimmed names) × (t.db ≡ s.db)

named_guests-Named :
    (p : Platform) (index : ℕ) (names : List Text) (s : Conn)
    → Sound
        (Named s names)
        (named_guests p check_guest_name index names s).0
        (named_guests p check_guest_name index names s).1
unfolding named_guests
named_guests-Named p index [] s = (refl, tt, refl)
named_guests-Named p index (raw ∷ names) s =
    bind-out (λ out. Sound (Named s (raw ∷ names)) out.0 out.1)
      (lift (check_guest_name (trim_space raw))) _ s (λ e. tt)
      λ u checked.
        let drawn : Conn = record s { issued = suc s.issued } in
        bind-out (λ out. Sound (Named s (raw ∷ names)) out.0 out.1)
          (named_guests p check_guest_name (suc index) names) _ drawn (λ e. tt)
          λ gs got.
            let (same, named, kept) =
              sound-ok (Named drawn names) _ _ (named_guests-Named p (suc index) names drawn) got in
            (
              ap (trim_space raw ∷◌) same,
              (check_guest_name-IsName (trim_space raw) checked, named),
              kept,
            )

-- What a creation returns, and what it adds to the tables.
pub record IsCreated (p : Platform) (event_id creator : Text) (req : CreateRequest)
    (before after : Db) (r : CreateResult) : Type 0 where
  pub of_event : r.invitation.event_id ≡ event_id
  pub by_creator : r.invitation.created_by_user_id ≡ some creator
  pub is_private : r.invitation.source ≡ source_private
  pub first_version : r.invitation.token_version ≡ 1
  pub labelled : r.invitation.label ≡ trim_space req.label
  pub label_given : r.invitation.label ≢ []
  pub label_short : length r.invitation.label ≤ 200
  pub allowance_bounded : r.invitation.additional_guest_allowance ≤ 50
  pub allowance_requested :
      pos r.invitation.additional_guest_allowance ≡ req.additional_guest_allowance
  pub contact_valid :
      validate_contact p req.contact_email req.contact_phone req.preferred_delivery_method
      ≡ ok (record {
        email = r.invitation.contact_email;
        phone = r.invitation.contact_phone;
        method = r.invitation.preferred_delivery_method;
      })
  pub some_guest : 1 ≤ length req.assigned_guest_names
  pub guests_bounded : length req.assigned_guest_names ≤ 100
  pub guests_named : names_of r.guests ≡ trimmed req.assigned_guest_names
  pub names_good : All IsName (trimmed req.assigned_guest_names)
  pub guests_attached : All (IsAttached r.invitation.id) r.guests
  pub invitations_added : after.invitations ≡ before.invitations ++ new_row p r.invitation ∷ []
  pub guests_added :
      after.guests ≡ before.guests ++ guest_rows r.invitation.id (λ g. g.origin) r.guests

allowance_of-eq-ok : (z : ℤ) {n : ℕ} → allowance_of z ≡ ok n → (n ≤ 50) × (pos n ≡ z)
allowance_of-eq-ok (pos m) h = ground arith
allowance_of-eq-ok (negsuc m) h = ground arith

label-eq-ok :
    (label : Text) {u : Unit {0}} → check_label label ≡ ok u → (label ≢ []) × (length label ≤ 200)
label-eq-ok label h = ground (arith, text_eq_iff label [])

names-eq-ok :
    (names : List Text) {u : Unit {0}}
    → check_names names ≡ ok u
    → (1 ≤ length names) × (length names ≤ 100)
names-eq-ok names h = ground arith

deliver_if-Keeps :
    (p : Platform) (svc : Service) (requested : Bool) (id : Text) (s : Conn)
    → (deliver_if p svc requested id s).1.db ≡ s.db
deliver_if-Keeps p svc false id s = refl
deliver_if-Keeps p svc true id s = deliver-Keeps p svc id s

-- What the store adds stays through the delivery.
store_private-Sound :
    (p : Platform) (svc : Service) (requested : Bool) (i : Invitation) (guests : List Guest)
    (now : ℕ) (t : Conn) (Good : CreateResult → Conn → Type 0)
    → ((stored : List Guest) (delivery : DeliveryResult) (u : Conn)
        → names_of stored ≡ names_of guests
        → All (IsAttached i.id) stored
        → u.db.invitations ≡ t.db.invitations ++ new_row p i ∷ []
        → u.db.guests ≡ t.db.guests ++ guest_rows i.id (λ g. g.origin) stored
        → Good (created p svc i stored delivery) u)
    → Sound Good
        (store_private p svc requested i guests now t).0
        (store_private p svc requested i guests now t).1
store_private-Sound p svc requested i guests now t Good good =
    bind-out (λ out. Sound Good out.0 out.1) (create p i guests now)
      (λ stored. do
        delivery ← deliver_if p svc requested i.id
        pure (created p svc i stored delivery))
      t (λ e. tt)
      λ stored done.
        let (names, own, row, rows) = create-rows p i guests now t done in
        let s' = (create p i guests now t).1 in
        let kept = deliver_if-Keeps p svc requested i.id s' in
        bind-out (λ out. Sound Good out.0 out.1) (deliver_if p svc requested i.id)
          (λ delivery. pure (created p svc i stored delivery)) s' (λ e. tt)
          λ delivery tried.
            good stored delivery (deliver_if p svc requested i.id s').1 names own
              (ap (λ (db : Db). db.invitations) kept ∙ row)
              (ap (λ (db : Db). db.guests) kept ∙ rows)

-- A creation that succeeds returns, and has added to the tables, one private invitation of the
-- event with a label of 1 to 200 bytes, the validated contact and the requested allowance, which is
-- between 0 and 50, and 1 to 100 guests of that invitation with the trimmed names of the request,
-- each of 1 to 200 bytes; no other invitation and no other guest is changed, also when the delivery
-- that was asked for fails. The guests are returned with the invitation's id and as pending.
pub create_private-IsCreated :
    (p : Platform) (svc : Service) (event_id creator : Text) (req : CreateRequest) (now : ℕ)
    (s : Conn) {r : CreateResult}
    → (create_private p svc event_id creator req now s).0 ≡ ok r
    → IsCreated p event_id creator req s.db (create_private p svc event_id creator req now s).1.db r
unfolding create_private
create_private-IsCreated p svc event_id creator req now s h =
    sound-ok Good _ _
      (bind-out R (lift (check_label (trim_space req.label))) _ s (λ e. tt)
        λ u1 labelled.
          bind-out R (lift (allowance_of req.additional_guest_allowance)) _ s (λ e. tt)
            λ allowance allowed.
              bind-out R (lift (check_names req.assigned_guest_names)) _ s (λ e. tt)
                λ u2 counted.
                  bind-out R
                    (lift (
                      validate_contact p req.contact_email req.contact_phone
                        req.preferred_delivery_method))
                    _ s (λ e. tt)
                    λ contact valid.
                      bind-out R (lift (check_send req.send contact)) _ s (λ e. tt)
                        λ u3 sendable.
                          bind-out R (random_token p) _ s (λ e. tt)
                            λ access_id drawn.
                              let (nonempty, short) = label-eq-ok (trim_space req.label) labelled in
                              let (bounded, exact) =
                                allowance_of-eq-ok req.additional_guest_allowance allowed in
                              let (least, most) = names-eq-ok req.assigned_guest_names counted in
                              assembled allowance contact access_id nonempty short bounded exact
                                valid least most)
      h
  where
    Good : CreateResult → Conn → Type 0
    Good r t = IsCreated p event_id creator req s.db t.db r

    R : Result CreateResult × Conn → Type 0
    R out = Sound Good out.0 out.1

    token-Keeps : (random_token p s).1.db ≡ s.db
    token-Keeps = ground arith

    row : Text → ℕ → Contact → Text → Invitation
    row id allowance contact access_id =
        private_row id event_id creator (trim_space req.label) contact allowance access_id

    assembled :
        (allowance : ℕ) (contact : Contact) (access_id : Text)
        → (trim_space req.label ≢ [])
        → (length (trim_space req.label) ≤ 200)
        → (allowance ≤ 50)
        → (pos allowance ≡ req.additional_guest_allowance)
        → (validate_contact p req.contact_email req.contact_phone req.preferred_delivery_method
            ≡ ok contact)
        → (1 ≤ length req.assigned_guest_names)
        → (length req.assigned_guest_names ≤ 100)
        → R (
            (do
              id ← new_id p
              guests ← named_guests p check_guest_name 0 req.assigned_guest_names
              store_private p svc req.send (row id allowance contact access_id) guests now)
              (random_token p s).1)
    assembled allowance contact access_id nonempty short bounded exact valid least most =
        let drawn = (new_id p (random_token p s).1).1 in
        let id = p.uuid (random_token p s).1.issued in
        bind-out R (named_guests p check_guest_name 0 req.assigned_guest_names)
          (λ guests. store_private p svc req.send (row id allowance contact access_id) guests now)
          drawn (λ e. tt)
          λ guests got.
            let (names, good, kept) =
              sound-ok (Named drawn req.assigned_guest_names) _ _
                (named_guests-Named p 0 req.assigned_guest_names drawn) got in
            let before = kept ∙ token-Keeps in
            store_private-Sound p svc req.send (row id allowance contact access_id) guests now
              (named_guests p check_guest_name 0 req.assigned_guest_names drawn).1 Good
              λ stored delivery u same own added_row added_guests. record {
                of_event = refl;
                by_creator = refl;
                is_private = refl;
                first_version = refl;
                labelled = refl;
                label_given = nonempty;
                label_short = short;
                allowance_bounded = bounded;
                allowance_requested = exact;
                contact_valid = valid;
                some_guest = least;
                guests_bounded = most;
                guests_named = same ∙ names;
                names_good = good;
                guests_attached = own;
                invitations_added =
                    added_row
                    ∙ ap
                        (λ (db : Db).
                          db.invitations ++ new_row p (row id allowance contact access_id) ∷ [])
                        before;
                guests_added =
                    added_guests
                    ∙ ap (λ (db : Db). db.guests ++ guest_rows id (λ g. g.origin) stored) before;
              }
