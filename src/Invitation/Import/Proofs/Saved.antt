-- ===== src/Invitation/Import/Proofs/Saved.antt =====
-- What the commit of an import adds to the tables.
use owl_invites.Base.{
  ℕ, suc, ◌≡◌, refl, ◌∙◌, ap, subst, List, [], ◌∷◌, ◌++◌, arith, Result, ok, err,
}
use owl_invites.Text.{Text}
use owl_invites.Platform.{Platform}
use owl_invites.Invitation.Model.{source_private}
use owl_invites.Invitation.Database.{Db}
use owl_invites.Invitation.Action.{Conn, ◌>>=◌, ◌>>◌, pure, bind-eq-ok}
use owl_invites.Invitation.Store.Create.{ImportRecord, import_records}
use owl_invites.Invitation.Store.Create.Proofs.{import_records-rows, new_rows, new_guests, names_of}
use owl_invites.Invitation.Import.Row.{ImportHousehold}
use owl_invites.Invitation.Import.Commit.{validate_import_commit}
use owl_invites.Invitation.Import.Save.{
  guests_of, import_record, build_records, commit_import, ImportCommitResult, ids_of, validated,
  result_of,
}

-- A record is a private invitation to the event with the label, the contact and the names of the
-- household.
abbrev pub IsRecordOf : Text → ImportHousehold → ImportRecord → Type 0
IsRecordOf event_id h r =
    (r.invitation.event_id ≡ event_id)
    × (r.invitation.label ≡ h.household_label)
    × (r.invitation.source ≡ source_private)
    × (r.invitation.contact_email ≡ h.contact_email)
    × (r.invitation.contact_phone ≡ h.contact_phone)
    × (names_of r.guests ≡ h.assigned_guest_names)

abbrev pub AreRecordsOf : Text → List ImportHousehold → List ImportRecord → Type 0
AreRecordsOf event_id [] [] = Unit
AreRecordsOf event_id (h ∷ hs) (r ∷ rs) = IsRecordOf event_id h r × AreRecordsOf event_id hs rs
AreRecordsOf event_id _ _ = ⊥

names_of-guests_of :
    (p : Platform) (issued index : ℕ) (names : List Text)
    → names_of (guests_of p issued index names) ≡ names
unfolding guests_of
names_of-guests_of p issued index [] = refl
names_of-guests_of p issued index (n ∷ names) =
    ap (n ∷◌) (names_of-guests_of p (suc issued) (suc index) names)

import_record-IsRecordOf :
    (p : Platform) (event_id creator : Text) (h : ImportHousehold) (s : Conn) {r : ImportRecord}
    → (import_record p event_id creator h s).0 ≡ ok r
    → IsRecordOf event_id h r × ((import_record p event_id creator h s).1.db ≡ s.db)
unfolding import_record
import_record-IsRecordOf p event_id creator h s e =
    ground (arith, names_of-guests_of p (suc (suc s.issued)) 0 h.assigned_guest_names)

build_records-AreRecordsOf :
    (p : Platform) (event_id creator : Text) (hs : List ImportHousehold) (s : Conn)
    (rs : List ImportRecord)
    → (build_records p event_id creator hs s).0 ≡ ok rs
    → AreRecordsOf event_id hs rs × ((build_records p event_id creator hs s).1.db ≡ s.db)
unfolding build_records
build_records-AreRecordsOf p event_id creator [] s [] h = (tt, refl)
build_records-AreRecordsOf p event_id creator [] s (r ∷ rs) h = cc
build_records-AreRecordsOf p event_id creator (h ∷ hs) s rs e =
    let one = import_record p event_id creator h in
    let more = build_records p event_id creator hs in
    let (r, h1, k1, e1) = bind-eq-ok one (λ (r : ImportRecord). more >>= λ rs. pure (r ∷ rs)) s e in
    let (rest, h2, k2, e2) = bind-eq-ok more (λ rest. pure (r ∷ rest)) (one s).1 k1 in
    let (here, same) = import_record-IsRecordOf p event_id creator h s {r = r} h1 in
    let (there, kept) = build_records-AreRecordsOf p event_id creator hs (one s).1 rest h2 in
    let final = λ (x : Result (List ImportRecord) × Conn). x.1.db in
    let eq : r ∷ rest ≡ rs = cc in
    (
      subst (AreRecordsOf event_id (h ∷ hs)) eq (here, there),
      ap final e1 ∙ ap final e2 ∙ kept ∙ same,
    )

validated-eq-ok :
    (r : Result (List ImportHousehold)) (s : Conn) {hs : List ImportHousehold}
    → (validated r s).0 ≡ ok hs
    → (r ≡ ok hs) × ((validated r s).1 ≡ s)
validated-eq-ok (ok hs) s h = (h, refl)
validated-eq-ok (err e) s h = cc

-- A commit that succeeds adds, for each of the validated households in their order, one private
-- invitation to the event, with the label and the contact of the household, and one guest of that
-- invitation for each of its names, in their order; it changes no invitation and no guest that
-- stood before. The ids that it returns are those of the new invitations.
pub commit_import-AreRecordsOf :
    (p : Platform) (event_id creator : Text) (households : List ImportHousehold) (now : ℕ)
    (s : Conn) {r : ImportCommitResult}
    → (commit_import p event_id creator households now s).0 ≡ ok r
    → (hs : List ImportHousehold) × (validate_import_commit p households ≡ ok hs)
      × ((rs : List ImportRecord) × AreRecordsOf event_id hs rs
          × (r.invitation_ids ≡ ids_of rs)
          × ((commit_import p event_id creator households now s).1.db.invitations
              ≡ s.db.invitations ++ new_rows p rs)
          × ((commit_import p event_id creator households now s).1.db.guests
              ≡ s.db.guests ++ new_guests rs))
unfolding commit_import
commit_import-AreRecordsOf p event_id creator households now s {r} e =
    let check = validated (validate_import_commit p households) in
    let build = build_records p event_id creator in
    let (hs, h1, k1, e1) =
      bind-eq-ok check
        (λ (hs : List ImportHousehold). build hs >>= λ (rs : List ImportRecord).
          import_records p rs now >> pure (result_of hs rs))
        s e in
    let (rs, h2, k2, e2) =
      bind-eq-ok (build hs)
        (λ (rs : List ImportRecord). import_records p rs now >> pure (result_of hs rs)) (check s).1
        k1 in
    let s2 = (build hs (check s).1).1 in
    let (_, h3, k3, e3) =
      bind-eq-ok (import_records p rs now) (λ _. pure (result_of hs rs)) s2 k2 in
    let (valid, unchanged) = validated-eq-ok (validate_import_commit p households) s h1 in
    let (are, kept) = build_records-AreRecordsOf p event_id creator hs (check s).1 rs h2 in
    let (rows, guests) = import_records-rows p rs now s2 h3 in
    let final = λ (x : Result ImportCommitResult × Conn). x.1.db in
    let all = ap final e1 ∙ ap final e2 ∙ ap final e3 in
    let before = kept ∙ ap (λ (c : Conn). c.db) unchanged in
    (
      hs,
      valid,
      (
        rs,
        are,
        cc,
        ap (λ (db : Db). db.invitations) all
            ∙ rows
            ∙ ap (λ (db : Db). db.invitations ++ new_rows p rs) before,
        ap (λ (db : Db). db.guests) all
            ∙ guests
            ∙ ap (λ (db : Db). db.guests ++ new_guests rs) before,
      ),
    )
