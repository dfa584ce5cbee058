-- ===== src/Invitation/Store/Recovery/Proofs.antt =====
-- A recovery token is used at most once, and the budgets bound the recoveries of an hour.
use owl_invites.Base.{
  ℕ, suc, ◌-◌, ◌≤◌, ◌<◌, ◌≡◌, ◌≢◌, refl, true, false, none, some, List, [], ◌∷◌, ◌++◌, arith, All,
  ok,
}
use owl_invites.Text.{Text, text_eq}
use owl_invites.Table.{count_where, update_where, count_where-append, count_where-All}
use owl_invites.Invitation.Contact.{is_none}
use owl_invites.Invitation.Database.{Db, Invitation, RecoveryTokenRow, RecoveryAttemptRow}
use owl_invites.Invitation.Action.{Conn, transaction}
use owl_invites.Invitation.Store.Sessions.{create_session_row}
use owl_invites.Invitation.Store.Recovery.{
  Dialect, lock_budget, Budget, hour, source_budget, destination_budget, event_budget,
  check_budgets, within_budgets, attempt, allow_recovery, is_open, open_recovery, consume_tx,
}

-- Every token of the hash is used.
abbrev AllConsumed : Text → List RecoveryTokenRow → Type 0
AllConsumed h rows = All (λ r. text_eq r.token_hash h ≡ true → is_none r.consumed_at ≡ false) rows

consume_rows-AllConsumed :
    (h : Text) (now : ℕ) (rows : List RecoveryTokenRow)
    → All (λ r. text_eq r.token_hash h ≡ true → is_open h now r ≡ true) rows
    → AllConsumed h (update_where (is_open h now) (λ r. record r { consumed_at = some now }) rows)
unfolding update_where
consume_rows-AllConsumed h now [] all = tt
consume_rows-AllConsumed h now (r ∷ rows) (one, all) =
    (ground (arith, one), consume_rows-AllConsumed h now rows all)

open_recovery-none :
    (invitations : List Invitation) (h : Text) (now : ℕ) (rows : List RecoveryTokenRow)
    → AllConsumed h rows
    → open_recovery invitations h now rows ≡ none
unfolding open_recovery
open_recovery-none invitations h now [] all = refl
open_recovery-none invitations h now (r ∷ rows) (one, all) =
    ground (arith, one, open_recovery-none invitations h now rows all)

is_open-hash :
    (h : Text) (now : ℕ) (r : RecoveryTokenRow)
    → is_open h now r ≡ true
    → text_eq r.token_hash h ≡ true
is_open-hash h now r e = ground arith

-- The schema keeps the hashes of tokens apart.
abbrev pub OneToken : Text → Db → Type 0
OneToken h db = count_where (λ r. text_eq r.token_hash h) db.recovery_tokens ≤ 1

consume_tx_tokens :
    (h session_hash : Text) (expires_at now : ℕ) (s : Conn) {i : Invitation}
    → (consume_tx h session_hash expires_at now s).0 ≡ ok i
    → (count_where (is_open h now) s.db.recovery_tokens ≡ 1)
      × ((consume_tx h session_hash expires_at now s).1.db.recovery_tokens
          ≡ update_where
              (is_open h now)
              (λ r. record r { consumed_at = some now })
              s.db.recovery_tokens)
unfolding consume_tx transaction create_session_row
consume_tx_tokens h session_hash expires_at now s e = ground arith

consume_tx-AllConsumed :
    (h session_hash : Text) (expires_at now : ℕ) (s : Conn) {i : Invitation}
    → OneToken h s.db
    → (consume_tx h session_hash expires_at now s).0 ≡ ok i
    → AllConsumed h (consume_tx h session_hash expires_at now s).1.db.recovery_tokens
consume_tx-AllConsumed h session_hash expires_at now s one e =
    let (once, rows) = consume_tx_tokens h session_hash expires_at now s e in
    rw rows (
      consume_rows-AllConsumed h now s.db.recovery_tokens (
        count_where-All (is_open h now) (λ r. text_eq r.token_hash h) s.db.recovery_tokens
          (is_open-hash h now) (omega (arith, once, one))))

consume_tx-refused :
    (h session_hash : Text) (expires_at now : ℕ) (s : Conn) {i : Invitation}
    → AllConsumed h s.db.recovery_tokens
    → (consume_tx h session_hash expires_at now s).0 ≢ ok i
unfolding consume_tx transaction
consume_tx-refused h session_hash expires_at now s all e =
    ground (arith, open_recovery-none s.db.invitations h now s.db.recovery_tokens all)

-- Where no two tokens share the hash, a recovery token that was exchanged for a session is
-- refused from then on, whenever it is presented again and whatever session it is to open.
pub recovery_once :
    (h first second : Text) (expires_at now later_expires_at later : ℕ) (s : Conn)
    {i j : Invitation}
    → OneToken h s.db
    → (consume_tx h first expires_at now s).0 ≡ ok i
    → (consume_tx h second later_expires_at later (consume_tx h first expires_at now s).1).0 ≢ ok j
recovery_once h first second expires_at now later_expires_at later s one e =
    consume_tx-refused h second later_expires_at later (consume_tx h first expires_at now s).1
      (consume_tx-AllConsumed h first expires_at now s one e)

-- The attempts of one test are within its budget.
abbrev pub Within : Budget → Db → Type 0
Within b db = count_where b.test db.recovery_attempts ≤ b.limit

-- Every budget has room.
abbrev Room : Budget → Db → Type 0
Room b db = count_where b.test db.recovery_attempts < b.limit

check_budgets-db : (bs : List Budget) (s : Conn) → (check_budgets bs s).1.db ≡ s.db
unfolding check_budgets
check_budgets-db [] s = refl
check_budgets-db (b ∷ bs) s = ground (arith, check_budgets-db bs (record s { calls = suc s.calls }))

check_budgets-All :
    (bs : List Budget) (s : Conn) → (check_budgets bs s).0 ≡ ok true → All (λ b. Room b s.db) bs
unfolding check_budgets
check_budgets-All [] s h = tt
check_budgets-All (b ∷ bs) s h =
    ground (arith, check_budgets-All bs (record s { calls = suc s.calls }))

-- The verdict changes no table.
within_budgets-db :
    (dialect : Dialect) (event_id source destination : Text) (now : ℕ) (s : Conn)
    → (within_budgets dialect event_id source destination now s).1.db ≡ s.db
unfolding within_budgets lock_budget
within_budgets-db dialect event_id source destination now s = ground (
  arith,
  check_budgets-db
      (source_budget source destination event_id (now - hour)
        ∷ destination_budget source destination event_id (now - hour)
        ∷ event_budget source destination event_id (now - hour)
        ∷ [])
      (record s { calls = suc (suc s.calls) }),
)

within_budgets-check :
    (dialect : Dialect) (event_id source destination : Text) (now : ℕ) (s : Conn)
    → (within_budgets dialect event_id source destination now s).0 ≡ ok true
    → (check_budgets
        (source_budget source destination event_id (now - hour)
          ∷ destination_budget source destination event_id (now - hour)
          ∷ event_budget source destination event_id (now - hour)
          ∷ [])
        (record s { calls = suc (suc s.calls) })).0
      ≡ ok true
unfolding within_budgets lock_budget
within_budgets-check dialect event_id source destination now s h = ground arith

within_budgets-Room :
    (dialect : Dialect) (event_id source destination : Text) (now : ℕ) (s : Conn)
    → (within_budgets dialect event_id source destination now s).0 ≡ ok true
    → Room (source_budget source destination event_id (now - hour)) s.db
      × Room (destination_budget source destination event_id (now - hour)) s.db
      × Room (event_budget source destination event_id (now - hour)) s.db
within_budgets-Room dialect event_id source destination now s h =
    let (a, (b, (c, _))) =
      check_budgets-All
        (source_budget source destination event_id (now - hour)
          ∷ destination_budget source destination event_id (now - hour)
          ∷ event_budget source destination event_id (now - hour)
          ∷ [])
        (record s { calls = suc (suc s.calls) })
        (within_budgets-check dialect event_id source destination now s h) in
    (a, b, c)

allow_recovery_rows :
    (dialect : Dialect) (event_id source destination : Text) (now later : ℕ) (s : Conn)
    → (allow_recovery dialect event_id source destination now later s).0 ≡ ok true
    → ((within_budgets dialect event_id source destination now s).0 ≡ ok true)
      × ((allow_recovery dialect event_id source destination now later s).1.db.recovery_attempts
          ≡ s.db.recovery_attempts ++ attempt event_id source destination later ∷ [])
unfolding allow_recovery
allow_recovery_rows dialect event_id source destination now later s h =
    ground (arith, within_budgets-db dialect event_id source destination now s)

Room-Within :
    (b : Budget) (db db' : Db) (r : RecoveryAttemptRow)
    → Room b db
    → db'.recovery_attempts ≡ db.recovery_attempts ++ r ∷ []
    → Within b db'
Room-Within b db db' r room rows =
    rw rows (ground (arith, count_where-append b.test db.recovery_attempts r))

-- An allowed recovery leaves at most 5 attempts from its source, 3 to its destination and 30 of
-- its event after the time an hour before it began.
pub allow_recovery_bounds :
    (dialect : Dialect) (event_id source destination : Text) (now later : ℕ) (s : Conn)
    → (allow_recovery dialect event_id source destination now later s).0 ≡ ok true
    → Within
        (source_budget source destination event_id (now - hour))
        (allow_recovery dialect event_id source destination now later s).1.db
      × Within
          (destination_budget source destination event_id (now - hour))
          (allow_recovery dialect event_id source destination now later s).1.db
      × Within
          (event_budget source destination event_id (now - hour))
          (allow_recovery dialect event_id source destination now later s).1.db
allow_recovery_bounds dialect event_id source destination now later s h =
    let (within, rows) = allow_recovery_rows dialect event_id source destination now later s h in
    let (a, b, c) = within_budgets-Room dialect event_id source destination now s within in
    let db' = (allow_recovery dialect event_id source destination now later s).1.db in
    let r = attempt event_id source destination later in
    (
      Room-Within (source_budget source destination event_id (now - hour)) s.db db' r a rows,
      Room-Within (destination_budget source destination event_id (now - hour)) s.db db' r b rows,
      Room-Within (event_budget source destination event_id (now - hour)) s.db db' r c rows,
    )

-- A recovery that is not allowed, or that fails, leaves the tables as they were.
pub allow_recovery_refused :
    (dialect : Dialect) (event_id source destination : Text) (now later : ℕ) (s : Conn)
    → (allow_recovery dialect event_id source destination now later s).0 ≢ ok true
    → (allow_recovery dialect event_id source destination now later s).1.db ≡ s.db
unfolding allow_recovery
allow_recovery_refused dialect event_id source destination now later s h =
    ground (arith, within_budgets-db dialect event_id source destination now s)
