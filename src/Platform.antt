-- ===== src/Platform.antt =====
-- What the program takes from packages that are not in the repository, or whose tables and
-- algorithms are not modelled.
use owl_invites.Base.{ℕ, ◌≡◌, Bool, false, List, [], Option}
use owl_invites.Text.{Text}
use owl_invites.Text.Case.{CaseTable, CaseLaws}

-- A call of `csv.Reader.Read`: a record, or the message of its error.
pub data CsvRead : Type 0 where
  columns : List Text → CsvRead
  malformed : Text → CsvRead

pub record Platform : Type 0 where
  pub table : CaseTable
  -- `mail.ParseAddress` returns no error.
  pub parse_address : Text → Bool
  -- `json.Unmarshal` into a `[]string`.
  pub unmarshal_strings : Text → Option (List Text)
  -- HMAC-SHA256 of a key and a message, and SHA-256.
  pub hmac : Text → Text → Text
  pub sha256 : Text → Text
  -- `time.Parse` of a layout and a text, as nanoseconds from the start of the year 1.
  pub parse_time : Text → Text → Option ℕ
  -- `utf8.Valid`, and what the calls of a CSV reader give up to the end of the file.
  pub valid_utf8 : Text → Bool
  pub csv_records : Text → List CsvRead
  -- The identifiers that `uuid.NewV7` hands out, one after the other.
  pub uuid : ℕ → Text
  -- The bytes that `rand.Read` fills in, one call after the other.
  pub random : ℕ → Text

-- What the code relies on.
pub record PlatformLaws (p : Platform) : Type 0 where
  pub case : CaseLaws p.table
  pub no_address : p.parse_address [] ≡ false
