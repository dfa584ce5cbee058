-- ===== src/Invitation/Import/Save.antt =====
-- `CommitImport`: the validated households become private invitations.
use owl_invites.Base.{ℕ, suc, ◌+◌, some, none, List, [], ◌∷◌, length, Result, ok, err}
use owl_invites.Text.{Text}
use owl_invites.Base.{ℤ, pos, negsuc}
use owl_invites.Platform.{Platform}
use owl_invites.Invitation.Model.{Guest, guest_origin_assigned, source_private}
use owl_invites.Invitation.Action.{Action, ◌>>=◌, ◌>>◌, pure, fail, new_id, random_token}
use owl_invites.Invitation.Store.Create.{ImportRecord, import_records}
use owl_invites.Invitation.Import.Row.{ImportHousehold}
use owl_invites.Invitation.Import.Preview.{guest_count}
use owl_invites.Invitation.Import.Commit.{validate_import_commit}

-- A validated allowance is not negative.
abbrev pub nonnegative : ℤ → ℕ
nonnegative (pos n) = n
nonnegative (negsuc n) = 0

-- The guests, in the order of their names, with the identifiers from `issued` on.
unfoldable pub guests_of : Platform → ℕ → ℕ → List Text → List Guest
guests_of p issued index [] = []
guests_of p issued index (name ∷ names) =
    record {
      id = p.uuid issued;
      invitation_id = [];
      name = name;
      origin = guest_origin_assigned;
      sort_order = index;
      attendance = [];
    }
    ∷ guests_of p (suc issued) (suc index) names

abbrev pub new_guest_records : Platform → List Text → Action (List Guest)
new_guest_records p names s =
    (ok (guests_of p s.issued 0 names), record s { issued = s.issued + length names })

unfoldable pub import_record : Platform → Text → Text → ImportHousehold → Action ImportRecord
import_record p event_id creator input = do
  access_id ← random_token p
  id ← new_id p
  guests ← new_guest_records p input.assigned_guest_names
  pure (record {
    invitation = record {
      id = id;
      event_id = event_id;
      label = input.household_label;
      contact_email = input.contact_email;
      normalized_contact_email = none;
      contact_phone = input.contact_phone;
      normalized_contact_phone = none;
      preferred_delivery_method = input.preferred_delivery;
      additional_guest_allowance = nonnegative input.additional_guest_allowance;
      source = source_private;
      open_enrollment_id = none;
      access_id = access_id;
      token_version = 1;
      created_by_user_id = some creator;
      revoked_at = none;
      revocation_reason = none;
    };
    guests = guests;
  })

-- The loop over the validated households.
unfoldable pub build_records :
    Platform → Text → Text → List ImportHousehold → Action (List ImportRecord)
build_records p event_id creator [] = pure []
build_records p event_id creator (h ∷ hs) = do
  r ← import_record p event_id creator h
  rs ← build_records p event_id creator hs
  pure (r ∷ rs)

pub record ImportCommitResult : Type 0 where
  pub household_count : ℕ
  pub assigned_guest_count : ℕ
  pub invitation_ids : List Text

abbrev pub ids_of : List ImportRecord → List Text
ids_of [] = []
ids_of (r ∷ rs) = r.invitation.id ∷ ids_of rs

abbrev pub validated : Result (List ImportHousehold) → Action (List ImportHousehold)
validated (ok hs) = pure hs
validated (err e) = fail e

abbrev pub result_of : List ImportHousehold → List ImportRecord → ImportCommitResult
result_of hs records = record {
  household_count = length hs;
  assigned_guest_count = guest_count hs;
  invitation_ids = ids_of records;
}

unfoldable pub commit_import :
    Platform → Text → Text → List ImportHousehold → ℕ → Action ImportCommitResult
commit_import p event_id creator households now = do
  hs ← validated (validate_import_commit p households)
  records ← build_records p event_id creator hs
  import_records p records now
  pure (result_of hs records)
