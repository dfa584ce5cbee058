-- ===== src/Invitation/Import/Proofs/Accepted.antt =====
-- The invariant of the preview's loop, and the commit of what a preview shows.
use owl_invites.Base.{
  ℕ, suc, ◌+◌, ◌≤◌, ◌≡◌, refl, ap, false, Option, none, some, List, [], ◌∷◌, ◌++◌, arith, length,
  ltb, leb, ◌==◌, All, All-append, length-append, Bool-cases, inl, inr,
}
use owl_invites.Text.{Text}
use owl_invites.Map.{Map, contains}
use owl_invites.Table.{find_where}
use owl_invites.Platform.{Platform, PlatformLaws, CsvRead, columns, malformed}
use owl_invites.Invitation.Import.Row.{
  ImportIssue, ImportHousehold, ImportRow, validate_import_row, row_household, max_import_rows,
  max_import_households, max_household_guests,
}
use owl_invites.Invitation.Import.Preview.{
  Accumulator, Progress, has_key, extend, add_household, add_row, add_rows, households_of,
  guest_count, import_row, note_email, join_household, add_record, accept_row,
}
use owl_invites.Invitation.Import.Proofs.Normal.{IsName, IsNormal, keys, Fresh}
use owl_invites.Invitation.Import.Proofs.Rows.{row_household-IsNormal, import_row-IsRead, IsRead}

-- What the loop keeps; `n` counts the header and the data rows that were read.
pub record Sound (p : Platform) (n : ℕ) (rows : List Accumulator) : Type 0 where
  pub normal : All (IsNormal p) (households_of rows)
  pub fresh : Fresh [] (keys (households_of rows))
  pub read : suc (guest_count (households_of rows)) ≤ n
  pub total : guest_count (households_of rows) ≤ max_import_rows
  pub few : length rows ≤ max_import_households

households_of-append :
    (rows : List Accumulator) (a : Accumulator)
    → households_of (rows ++ a ∷ []) ≡ households_of rows ++ a.household ∷ []
unfolding households_of
households_of-append [] a = refl
households_of-append (b ∷ rows) a = ap (b.household ∷◌) (households_of-append rows a)

guest_count-append :
    (hs : List ImportHousehold) (h : ImportHousehold)
    → guest_count (hs ++ h ∷ []) ≡ guest_count hs + length h.assigned_guest_names
unfolding guest_count
guest_count-append [] h = omega arith
guest_count-append (k ∷ hs) h = omega (arith, guest_count-append hs h)

keys-append :
    (hs : List ImportHousehold) (h : ImportHousehold)
    → keys (hs ++ h ∷ []) ≡ keys hs ++ h.household_key ∷ []
keys-append [] h = refl
keys-append (k ∷ hs) h = ap (k.household_key ∷◌) (keys-append hs h)

-- A key that is neither seen nor listed can be added at the end.
Fresh-append :
    (seen ks : List Text) (k : Text)
    → Fresh seen ks
    → contains seen k ≡ false
    → contains ks k ≡ false
    → Fresh seen (ks ++ k ∷ [])
unfolding contains
Fresh-append seen [] k f s h = (s, tt)
Fresh-append seen (j ∷ ks) k (new, f) s h =
    (new, Fresh-append (j ∷ seen) ks k f (ground arith) (ground arith))

find_where-key-none :
    (key : Text) (rows : List Accumulator)
    → find_where (has_key key) rows ≡ none
    → contains (keys (households_of rows)) key ≡ false
unfolding find_where households_of contains
find_where-key-none key [] h = refl
find_where-key-none key (a ∷ rows) h = ground (arith, find_where-key-none key rows)

keys-extend :
    (key : Text) (names : List Text) (rows : List Accumulator)
    → keys (households_of (extend key names rows)) ≡ keys (households_of rows)
unfolding extend households_of
keys-extend key names [] = refl
keys-extend key names (a ∷ rows) = ground (arith, keys-extend key names rows)

length-extend :
    (key : Text) (names : List Text) (rows : List Accumulator)
    → length (extend key names rows) ≡ length rows
unfolding extend
length-extend key names [] = refl
length-extend key names (a ∷ rows) = ground (arith, length-extend key names rows)

guest_count-extend :
    (key name : Text) (rows : List Accumulator)
    → guest_count (households_of (extend key (name ∷ []) rows))
      ≤ suc (guest_count (households_of rows))
unfolding extend households_of guest_count
guest_count-extend key name [] = omega arith
guest_count-extend key name (a ∷ rows) = ground (
  arith,
  length-append a.household.assigned_guest_names (name ∷ []),
  guest_count-extend key name rows,
)

add_name-IsNormal :
    (p : Platform) (name : Text) (h : ImportHousehold)
    → IsNormal p h
    → IsName 200 name
    → suc (length h.assigned_guest_names) ≤ max_household_guests
    → IsNormal p (record h { assigned_guest_names = h.assigned_guest_names ++ name ∷ [] })
add_name-IsNormal p name h n named room = record {
  key = n.key;
  label = n.label;
  allowance = n.allowance;
  method = n.method;
  contact = n.contact;
  names = All-append (IsName 200) h.assigned_guest_names (name ∷ []) n.names (named, tt);
  present = omega (arith, length-append h.assigned_guest_names (name ∷ []));
  few = omega (arith, length-append h.assigned_guest_names (name ∷ []));
}

-- The households after a guest is added to one that has room.
extend-IsNormal :
    (p : Platform) (key name : Text) (rows : List Accumulator) {a : Accumulator}
    → IsName 200 name
    → All (IsNormal p) (households_of rows)
    → find_where (has_key key) rows ≡ some a
    → suc (length a.household.assigned_guest_names) ≤ max_household_guests
    → All (IsNormal p) (households_of (extend key (name ∷ []) rows))
unfolding find_where extend households_of
extend-IsNormal p key name [] n all found room = tt
extend-IsNormal p key name (b ∷ rows) {a} n (h, all) found room =
    elim (Bool-cases (has_key key b)) [
      | inl here ↦ rw here (add_name-IsNormal p name b.household h n (ground arith), all)
      | inr other ↦ rw other (h, extend-IsNormal p key name rows {a = a} n all (ground arith) room)
    ]

module _ (p : Platform) (laws : PlatformLaws p) where
  note_email-accumulators :
      (h : ImportHousehold) (s : Progress) → (note_email h s).accumulators ≡ s.accumulators
  note_email-accumulators h s = ground arith

  new_household :
      (n row : ℕ) (h : ImportHousehold) (rows : List Accumulator)
      → IsNormal p h
      → length h.assigned_guest_names ≡ 1
      → Sound p n rows
      → n ≤ max_import_rows
      → find_where (has_key h.household_key) rows ≡ none
      → suc (length rows) ≤ max_import_households
      → Sound p (suc n) (rows ++ record { household = h; first_row = row } ∷ [])
  unfolding contains
  new_household n row h rows normal one sound below absent room =
      let a : Accumulator = record { household = h; first_row = row } in
      let old = households_of rows in
      record {
        normal =
            rw (households_of-append rows a)
              (All-append (IsNormal p) old (h ∷ []) sound.normal (normal, tt));
        fresh =
            rw (households_of-append rows a, keys-append old h)
              (Fresh-append [] (keys old) h.household_key sound.fresh refl
                (find_where-key-none h.household_key rows absent));
        read =
            rw (households_of-append rows a)
              (omega (arith, guest_count-append old h, sound.read, one));
        total =
            rw (households_of-append rows a)
              (omega (arith, guest_count-append old h, sound.read, one));
        few = omega (arith, length-append rows (a ∷ []));
      }

  known_household :
      (n : ℕ) (key name : Text) (rows : List Accumulator) {a : Accumulator}
      → IsName 200 name
      → Sound p n rows
      → n ≤ max_import_rows
      → find_where (has_key key) rows ≡ some a
      → suc (length a.household.assigned_guest_names) ≤ max_household_guests
      → Sound p (suc n) (extend key (name ∷ []) rows)
  known_household n key name rows {a} named sound below found room = record {
    normal = extend-IsNormal p key name rows named sound.normal found room;
    fresh = rw (keys-extend key (name ∷ []) rows) sound.fresh;
    read = omega (arith, guest_count-extend key name rows, sound.read);
    total = omega (arith, guest_count-extend key name rows, sound.read);
    few = rw (length-extend key (name ∷ []) rows) sound.few;
  }

  later : (n : ℕ) (rows : List Accumulator) → Sound p n rows → Sound p (suc n) rows
  later n rows sound = record {
    normal = sound.normal;
    fresh = sound.fresh;
    read = omega (arith, sound.read);
    total = sound.total;
    few = sound.few;
  }

  join_household-Sound :
      (n row : ℕ) (h : ImportHousehold) (name : Text) (a : Accumulator) (conflicts : List Text)
      (s : Progress)
      → h.assigned_guest_names ≡ name ∷ []
      → IsName 200 name
      → Sound p n s.accumulators
      → n ≤ max_import_rows
      → find_where (has_key h.household_key) s.accumulators ≡ some a
      → Sound p (suc n) (join_household row h a conflicts s).accumulators
  join_household-Sound n row h name a (c ∷ cs) s names named sound below found =
      later n s.accumulators sound
  join_household-Sound n row h name a [] s names named sound below found =
      elim (Bool-cases (leb max_household_guests (length a.household.assigned_guest_names))) [
        | inl full ↦ rw full (later n s.accumulators sound)
        | inr room ↦
            let rows = extend h.household_key h.assigned_guest_names s.accumulators in
            rw (room, note_email-accumulators h (record s { accumulators = rows }), names)
              (known_household n h.household_key name s.accumulators {a = a} named sound below found
                (ground arith))
      ]

  add_household-Sound :
      (n row : ℕ) (h : ImportHousehold) (name : Text) (o : Option Accumulator) (s : Progress)
      → IsNormal p h
      → h.assigned_guest_names ≡ name ∷ []
      → IsName 200 name
      → Sound p n s.accumulators
      → n ≤ max_import_rows
      → find_where (has_key h.household_key) s.accumulators ≡ o
      → Sound p (suc n) (add_household row h o s).accumulators
  unfolding add_household
  add_household-Sound n row h name none s normal names named sound below found =
      elim (Bool-cases (leb max_import_households (length s.accumulators))) [
        | inl full ↦ rw full (later n s.accumulators sound)
        | inr room ↦
            let rows = s.accumulators ++ record { household = h; first_row = row } ∷ [] in
            rw (room, note_email-accumulators h (record s { accumulators = rows }))
              (new_household n row h s.accumulators normal (ap length names) sound below found
                (ground arith))
      ]
  add_household-Sound n row h name (some a) s normal names named sound below found =
      join_household-Sound n row h name a _ s names named sound below found

  accept_row-Sound :
      (n row : ℕ) (r : ImportRow) (issues : List ImportIssue) (s : Progress)
      → IsRead p r
      → validate_import_row p row r ≡ issues
      → Sound p n s.accumulators
      → n ≤ max_import_rows
      → Sound p (suc n) (accept_row p row r issues s).accumulators
  unfolding row_household
  accept_row-Sound n row r [] s read none_found sound below =
      let h = row_household p r in
      let normal = row_household-IsNormal p laws row r read none_found in
      add_household-Sound n row h r.guest_name _ s normal refl normal.names.0 sound below refl
  accept_row-Sound n row r (i ∷ is) s read found sound below = later n s.accumulators sound

  add_record-Sound :
      (width : ℕ) (indexes : Map ℕ) (n row : ℕ) (f : List Text) (s : Progress)
      → Sound p n s.accumulators
      → n ≤ max_import_rows
      → Sound p (suc n) (add_record p width indexes row f s).accumulators
  unfolding add_row
  add_record-Sound width indexes n row f s sound below = elim (Bool-cases (length f == width)) [
    | inl same ↦ rw same (
        accept_row-Sound n row (import_row p indexes f) _ s (import_row-IsRead p laws indexes f)
          refl sound below)
    | inr other ↦ rw other (later n s.accumulators sound)
  ]

  -- However the loop ends, its households are sound.
  pub add_rows-Sound :
      (width : ℕ) (indexes : Map ℕ) (n : ℕ) (rs : List CsvRead) (s : Progress)
      → Sound p n s.accumulators
      → (k : ℕ) × Sound p k (add_rows p width indexes n rs s).accumulators
  unfolding add_rows
  add_rows-Sound width indexes n [] s sound = (n, sound)
  add_rows-Sound width indexes n (malformed e ∷ rs) s sound = (n, sound)
  add_rows-Sound width indexes n (columns f ∷ rs) s sound =
      elim (Bool-cases (ltb max_import_rows n)) [
        | inl over ↦ rw over (n, sound)
        | inr below ↦ rw below (
            add_rows-Sound width indexes (suc n) rs _
              (add_record-Sound width indexes n (suc n) f s sound (ground arith)))
      ]
