-- ===== src/Fixtures.antt =====
-- Concrete values of the parameters, and a small set of tables, for the tests.
use owl_invites.Base.{suc, ◌*◌, refl, Bool, true, false, none, some, [], ◌∷◌}
use owl_invites.Text.{Text, lit}
use owl_invites.Text.Case.{ascii_table, ascii_table-CaseLaws}
use owl_invites.Stamp.{second}
use owl_invites.Platform.{Platform, PlatformLaws}
use owl_invites.Invitation.Database.{Db, Invitation, OpenEnrollmentConfig, GuestRow}
use owl_invites.Invitation.Action.{Conn}

abbrev has_at : Text → Bool
has_at [] = false
has_at (c ∷ s) = true

abbrev pub toy : Platform
toy = record {
  table = ascii_table;
  parse_address = has_at;
  unmarshal_strings = λ s. some (s ∷ []);
  hmac = λ key message. message;
  sha256 = λ s. s;
  parse_time = λ layout s. none;
  valid_utf8 = λ s. true;
  csv_records = λ s. [];
  uuid = λ n. suc n ∷ [];
  random = λ n. n ∷ [];
}

pub toy-PlatformLaws : PlatformLaws toy
toy-PlatformLaws = record { case = ascii_table-CaseLaws; no_address = refl }

abbrev pub smiths : Invitation
smiths = record {
  id = lit "i1";
  event_id = lit "e1";
  label = lit "Smiths";
  contact_email = some (lit "s@x.org");
  normalized_contact_email = some (lit "s@x.org");
  contact_phone = none;
  normalized_contact_phone = none;
  preferred_delivery_method = lit "email";
  additional_guest_allowance = 1;
  source = lit "private";
  open_enrollment_id = none;
  access_id = lit "acc";
  token_version = 2;
  created_by_user_id = none;
  revoked_at = none;
  revocation_reason = none;
}

abbrev pub jane : GuestRow
jane = record {
  id = lit "g1";
  invitation_id = lit "i1";
  name = lit "Jane";
  origin = lit "assigned";
  sort_order = 0;
  removed_at = none;
}

abbrev pub offer : OpenEnrollmentConfig
offer = record {
  id = lit "o1";
  event_id = lit "e1";
  access_id = lit "open";
  token_version = 1;
  enabled = true;
  opens_at = none;
  closes_at = none;
  max_party_size = 2;
  capacity = some 1;
  revoked_at = none;
}

abbrev pub tables : Db
tables = record {
  invitations = smiths ∷ [];
  responses =
      record {
        id = lit "r1";
        invitation_id = lit "i1";
        version = 1;
        submitted_at = none;
        updated_at = 0;
      }
      ∷ [];
  guests = jane ∷ [];
  guest_responses = [];
  invitation_answers = [];
  guest_answers = [];
  questions = [];
  sessions = [];
  recovery_tokens =
      record {
        invitation_id = lit "i1";
        token_hash = lit "h";
        destination = lit "email";
        expires_at = 100 * second;
        consumed_at = none;
      }
      ∷ [];
  recovery_attempts = [];
  open_enrollments = offer ∷ [];
  events = [];
  event_memberships = [];
  users = [];
  invitation_messages = [];
}

-- No call of the database fails.
abbrev pub conn : Conn
conn = record { db = tables; fails = λ n. false; calls = 0; issued = 0; sent = [] }
