-- ===== src/Invitation/Store/Create.antt =====
-- `Create` and `Import` of internal/invitation/store.go.
mod Tests
pub mod Proofs
use owl_invites.Base.{ℕ, String, Option, none, List, [], ◌∷◌}
use owl_invites.Text.{Text}
use owl_invites.Platform.{Platform}
use owl_invites.Invitation.Model.{Guest, attendance_pending}
use owl_invites.Invitation.Contact.{normalize_email, normalize_phone}
use owl_invites.Invitation.Database.{Invitation}
use owl_invites.Invitation.Action.{Action, ◌>>=◌, ◌>>◌, pure, transaction}
use owl_invites.Invitation.Store.Rows.{insert_invitation, insert_response, insert_guests}
use owl_invites.Invitation.Store.Enrollment.{map_option}

-- The row that is inserted.
abbrev pub new_row : Platform → Invitation → Invitation
new_row p i = record i {
  normalized_contact_email = map_option (normalize_email p) i.contact_email;
  normalized_contact_phone = map_option normalize_phone i.contact_phone;
  revoked_at = none;
  revocation_reason = none;
}

-- The messages that the failures of the four statements are wrapped in.
pub record Messages : Type 0 where
  pub invitation : String
  pub response : String
  pub guest : String
  pub guest_response : String

-- A household: its invitation, its response, and its guests with pending responses.
unfoldable pub insert_household :
    Platform → Messages → Invitation → List Guest → ℕ → Action (Unit {0})
insert_household p m i guests now = do
  insert_invitation m.invitation (new_row p i)
  response_id ← insert_response p m.response i.id now
  insert_guests m.guest m.guest_response i.id response_id (λ g. g.origin) guests

abbrev pub create_messages : Messages
create_messages = record {
  invitation = "create invitation";
  response = "create response";
  guest = "create guest";
  guest_response = "create guest response";
}

-- What the guests of the caller become behind the commit, but for their times, which no row of the
-- model has.
abbrev pub attached : Text → List Guest → List Guest
attached invitation_id [] = []
attached invitation_id (g ∷ gs) =
    record g { invitation_id = invitation_id; attendance = attendance_pending }
    ∷ attached invitation_id gs

-- The guests are returned, since the source writes to those of the caller.
unfoldable pub create : Platform → Invitation → List Guest → ℕ → Action (List Guest)
create p i guests now = do
  transaction "begin invitation create" "commit invitation create"
      (insert_household p create_messages i guests now)
  pure (attached i.id guests)

pub record ImportRecord : Type 0 where
  pub invitation : Invitation
  pub guests : List Guest

abbrev pub import_messages : Messages
import_messages = record {
  invitation = "import invitation";
  response = "import response";
  guest = "import guest";
  guest_response = "import guest response";
}

-- The loop over the households.
unfoldable pub insert_households : Platform → List ImportRecord → ℕ → Action (Unit {0})
insert_households p [] now = pure tt
insert_households p (r ∷ rs) now = do
  insert_household p import_messages r.invitation r.guests now
  insert_households p rs now

unfoldable pub import_records : Platform → List ImportRecord → ℕ → Action (Unit {0})
import_records p records now =
    transaction "begin invitation import" "commit invitation import"
      (insert_households p records now)
