-- ===== src/Invitation/Import/Proofs/Committed.antt =====
-- What holds of every preview, and the commit of what a preview shows.
use owl_invites.Base.{
  ℕ, suc, ◌≤◌, ◌≡◌, ◌≢◌, refl, ap, List, [], ◌∷◌, arith, length, ltb, ok, All, map, Bool-cases, inl,
  inr,
}
use owl_invites.Text.{Text}
use owl_invites.Map.{Map}
use owl_invites.Platform.{Platform, PlatformLaws, CsvRead, columns, malformed}
use owl_invites.Invitation.Import.Row.{
  ImportIssue, ImportHousehold, max_import_rows, max_import_households, max_import_bytes,
}
use owl_invites.Invitation.Import.Preview.{
  Accumulator, Progress, add_rows, households_of, guest_count, preview_import_csv, preview_utf8,
  drop_mark, preview_rows, preview_records, validate_import_header,
}
use owl_invites.Invitation.Import.Commit.{validate_import_commit}
use owl_invites.Invitation.Import.Proofs.Normal.{
  IsNormal, committed, keys, Fresh, validate_households-normal,
}
use owl_invites.Invitation.Import.Proofs.Accepted.{Sound, add_rows-Sound}

-- What holds of the households of a preview: each would be accepted in a commit, no key stands
-- twice, and the households and their guests are within the limits.
pub record IsImportable (p : Platform) (hs : List ImportHousehold) : Type 0 where
  pub normal : All (IsNormal p) hs
  pub fresh : Fresh [] (keys hs)
  pub few : length hs ≤ max_import_households
  pub total : guest_count hs ≤ max_import_rows

length-households_of : (rows : List Accumulator) → length (households_of rows) ≡ length rows
unfolding households_of
length-households_of [] = refl
length-households_of (a ∷ rows) = ap suc (length-households_of rows)

module _ (p : Platform) (laws : PlatformLaws p) where
  nothing : IsImportable p []
  unfolding guest_count
  nothing = record { normal = tt; fresh = tt; few = omega arith; total = omega arith }

  shown : (n : ℕ) (rows : List Accumulator) → Sound p n rows → IsImportable p (households_of rows)
  shown n rows sound = record {
    normal = sound.normal;
    fresh = sound.fresh;
    few = rw (length-households_of rows) sound.few;
    total = sound.total;
  }

  preview_rows-IsImportable :
      (header : List Text) (rs : List CsvRead) (h : Map ℕ × List ImportIssue)
      → IsImportable p (preview_rows p header rs h).households
  unfolding guest_count households_of
  preview_rows-IsImportable header rs (indexes, i ∷ is) = nothing
  preview_rows-IsImportable header rs (indexes, []) =
      let start : Progress = record { accumulators = []; email_keys = []; errors = [] } in
      let empty : Sound p 1 [] = record {
        normal = tt;
        fresh = tt;
        read = omega arith;
        total = omega arith;
        few = omega arith;
      } in
      let (n, sound) = add_rows-Sound p laws (length header) indexes 1 rs start empty in
      shown n (add_rows p (length header) indexes 1 rs start).accumulators sound

  preview_records-IsImportable :
      (rs : List CsvRead) → IsImportable p (preview_records p rs).households
  preview_records-IsImportable [] = nothing
  preview_records-IsImportable (malformed e ∷ rs) = nothing
  preview_records-IsImportable (columns header ∷ rs) =
      preview_rows-IsImportable header rs (validate_import_header p header)

  preview_utf8-IsImportable : (bytes : Text) → IsImportable p (preview_utf8 p bytes).households
  preview_utf8-IsImportable bytes = elim (Bool-cases (p.valid_utf8 bytes)) [
    | inl valid ↦ rw valid (preview_records-IsImportable (p.csv_records bytes))
    | inr other ↦ rw other nothing
  ]

  -- The households of every preview, with errors or without, are importable: their values are
  -- trimmed, given and within their lengths, their contact is valid, each has between 1 and 100
  -- guests, no key stands twice, there are at most 1000 of them and at most 5000 guests. For
  -- case tables and an address parser that keep the laws of the platform.
  pub preview_import_csv-IsImportable :
      (bytes : Text) → IsImportable p (preview_import_csv p bytes).households
  unfolding preview_import_csv
  preview_import_csv-IsImportable bytes = elim (Bool-cases (ltb max_import_bytes (length bytes))) [
    | inl over ↦ rw over nothing
    | inr below ↦ rw below (preview_utf8-IsImportable (drop_mark bytes))
  ]

  validate_import_commit-IsImportable :
      (hs : List ImportHousehold)
      → IsImportable p hs
      → hs ≢ []
      → validate_import_commit p hs ≡ ok (map committed hs)
  unfolding validate_import_commit
  validate_import_commit-IsImportable [] i given = absurd (given refl)
  validate_import_commit-IsImportable (h ∷ hs) i given =
      rw (validate_households-normal p 1 [] 0 (h ∷ hs) i.normal i.fresh (omega (arith, i.total)))
        (ground (arith, i.few))

  -- What a preview shows can be committed: if it shows a household, the commit of its households
  -- is validated, and changes nothing of them but an empty method, which is email. For case tables
  -- and an address parser that keep the laws of the platform.
  pub preview_import_csv-validate_import_commit :
      (bytes : Text)
      → (preview_import_csv p bytes).households ≢ []
      → validate_import_commit p (preview_import_csv p bytes).households
        ≡ ok (map committed (preview_import_csv p bytes).households)
  preview_import_csv-validate_import_commit bytes given =
      validate_import_commit-IsImportable (preview_import_csv p bytes).households
        (preview_import_csv-IsImportable bytes) given
