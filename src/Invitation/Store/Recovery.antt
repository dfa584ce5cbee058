-- ===== src/Invitation/Store/Recovery.antt =====
-- internal/invitation/recovery_store.go: the recovery budgets, and the exchange of a one-time
-- recovery token for a session.
mod Tests
pub mod Proofs
pub mod Keeps
use owl_invites.Base.{
  ℕ, zero, suc, ◌+◌, ◌-◌, ◌*◌, ◌≡◌, Bool, true, false, not, ◌&&◌, ◌||◌, String, Option, none, some,
  List, [], ◌∷◌, ◌++◌, ◌==◌, leb, if◌then◌else◌, Result, ok, err, Error, internal,
  invalid_capability,
}
use owl_invites.Text.{Text, text_eq, lit}
use owl_invites.Stamp.{after, second}
use owl_invites.Table.{count_where, update_where, find_where, select_where}
use owl_invites.Invitation.Contact.{is_none}
use owl_invites.Invitation.Database.{
  Db, Invitation, SessionRow, RecoveryTokenRow, RecoveryAttemptRow,
}
use owl_invites.Invitation.Action.{
  Conn, Action, ◌>>=◌, ◌>>◌, pure, fail, reject, call, query, exec, exec_count, present, finish,
  transaction,
}
use owl_invites.Invitation.Store.Sessions.{find_by_id, or_else, create_session_row}

pub data Dialect : Type 0 where
  postgres sqlite other : Dialect

-- The advisory lock, or the write that changes no row.
lock_budget : Dialect → Action (Unit {0})
lock_budget postgres = call "lock recovery budget"
lock_budget sqlite = call "lock recovery budget"
lock_budget other = fail (internal "lock recovery budget: unsupported dialect")

pub record Budget : Type 0 where
  pub test : RecoveryAttemptRow → Bool
  pub limit : ℕ

abbrev pub hour : ℕ
hour = 3600 * second

-- Attempts of the last hour, from the source, to the destination, and of the event.
module _ (source destination event_id : Text) (cutoff : ℕ) where
  abbrev pub source_budget : Budget
  source_budget = record {
    test = λ r. text_eq r.source_fingerprint source && after r.created_at cutoff;
    limit = 5;
  }

  abbrev pub destination_budget : Budget
  destination_budget = record {
    test = λ r. text_eq r.destination_fingerprint destination && after r.created_at cutoff;
    limit = 3;
  }

  abbrev pub event_budget : Budget
  event_budget = record {
    test = λ r. text_eq r.event_id event_id && after r.created_at cutoff;
    limit = 30;
  }

-- The loop over the budgets: whether none is used up.
check_budgets : List Budget → Action Bool
check_budgets [] = pure true
check_budgets (b ∷ bs) = do
  n ← query "count recovery attempts" (λ db. count_where b.test db.recovery_attempts)
  if leb b.limit n then pure false else check_budgets bs

abbrev add_attempt : RecoveryAttemptRow → Db → Db
add_attempt r db = record db { recovery_attempts = db.recovery_attempts ++ r ∷ [] }

abbrev record_attempt : RecoveryAttemptRow → Bool → Action Bool
record_attempt r false = pure false
record_attempt r true = do
  exec "record recovery attempt" (add_attempt r)
  call "commit recovery limit"
  pure true

abbrev pub attempt : Text → Text → Text → ℕ → RecoveryAttemptRow
attempt event_id source destination now = record {
  event_id = event_id;
  source_fingerprint = source;
  destination_fingerprint = destination;
  created_at = now;
}

-- The transaction up to the verdict.
within_budgets : Dialect → Text → Text → Text → ℕ → Action Bool
within_budgets dialect event_id source destination now = do
  call "begin recovery limit"
  lock_budget dialect
  let cutoff = now - hour
  check_budgets (
      source_budget source destination event_id cutoff
      ∷ destination_budget source destination event_id cutoff
      ∷ event_budget source destination event_id cutoff
      ∷ [])

-- `now` is read before the counts and `later` before the insertion. An early return and an error
-- roll back.
pub allow_recovery : Dialect → Text → Text → Text → ℕ → ℕ → Action Bool
allow_recovery dialect event_id source destination now later s =
    let (r, s') =
      (do
        within ← within_budgets dialect event_id source destination now
        record_attempt (attempt event_id source destination later) within)
        s in
    finish s.db r s'

abbrev pub same_contact : Option Text → Text → Bool
same_contact none contact = false
same_contact (some c) contact = text_eq c contact

abbrev pub is_match : Text → Text → Invitation → Bool
is_match event_id contact i =
    text_eq i.event_id event_id
    && is_none i.revoked_at
    && (same_contact i.normalized_contact_email contact
        || same_contact i.normalized_contact_phone contact)

unfoldable pub find_recovery_matches : Text → Text → Action (List Invitation)
find_recovery_matches event_id contact =
    query "find recovery invitations"
      (λ db. select_where (is_match event_id contact) db.invitations)

abbrev add_token : RecoveryTokenRow → Db → Db
add_token r db = record db { recovery_tokens = db.recovery_tokens ++ r ∷ [] }

unfoldable pub create_recovery_token : Text → Text → Text → ℕ → Action (Unit {0})
create_recovery_token invitation_id token_hash destination expires_at =
    exec "create recovery token" (
      add_token (record {
        invitation_id = invitation_id;
        token_hash = token_hash;
        destination = destination;
        expires_at = expires_at;
        consumed_at = none;
      }))

-- `token_hash = ? AND consumed_at IS NULL AND expires_at > ?`
abbrev pub is_open : Text → ℕ → RecoveryTokenRow → Bool
is_open token_hash now r =
    text_eq r.token_hash token_hash && is_none r.consumed_at && after r.expires_at now

abbrev token_invitation : List Invitation → RecoveryTokenRow → Option Invitation
token_invitation invitations r =
    find_where (λ i. text_eq i.id r.invitation_id && is_none i.revoked_at) invitations

unfoldable pub open_recovery :
    List Invitation → Text → ℕ → List RecoveryTokenRow → Option Invitation
open_recovery invitations token_hash now [] = none
open_recovery invitations token_hash now (r ∷ rs) =
    let rest = open_recovery invitations token_hash now rs in
    if is_open token_hash now r then or_else (token_invitation invitations r) rest else rest

abbrev consume_tokens : Text → ℕ → Db → Db
consume_tokens token_hash now db = record db {
  recovery_tokens =
      update_where (is_open token_hash now) (λ r. record r { consumed_at = some now })
        db.recovery_tokens;
}

pub consume_tx : Text → Text → ℕ → ℕ → Action Invitation
consume_tx recovery_hash session_hash session_expires_at now =
    transaction "begin recovery exchange" "commit recovery exchange" do
      found ←
          query "load recovery token"
            (λ db. open_recovery db.invitations recovery_hash now db.recovery_tokens)
      i ← present found invalid_capability
      changed ←
          exec_count "consume recovery token"
            (λ db. count_where (is_open recovery_hash now) db.recovery_tokens)
            (consume_tokens recovery_hash now)
      reject (not (changed == 1)) invalid_capability
      create_session_row "create recovery session" i.id session_hash i.token_version
          session_expires_at
      pure i

-- ConsumeRecoveryAndCreateSession
pub consume_recovery_and_create_session : Text → Text → ℕ → ℕ → Action (Option Invitation)
consume_recovery_and_create_session recovery_hash session_hash session_expires_at now = do
  i ← consume_tx recovery_hash session_hash session_expires_at now
  find_by_id i.id
