-- ===== src/Invitation/Store/Recovery/Tests.antt =====
-- Recovery on a small set of tables.
use owl_invites.Base.{◌*◌, ◌≡◌, ◌≢◌, refl, Bool, true, Result, ok, err, arith, internal}
use owl_invites.Text.{lit, text_eq}
use owl_invites.Stamp.{after}
use owl_invites.Table.{count_where, update_where, find_where}
use owl_invites.Fixtures.{conn, tables, smiths}
use owl_invites.Invitation.Action.{Conn, transaction}
use owl_invites.Invitation.Store.Sessions.{create_session_row}
use owl_invites.Invitation.Store.Recovery.{
  Dialect, sqlite, other, allow_recovery, within_budgets, check_budgets, lock_budget, open_recovery,
  consume_tx, source_budget, destination_budget, event_budget, hour,
}
use owl_invites.Invitation.Store.Recovery.Proofs.{
  recovery_once, allow_recovery_bounds, allow_recovery_refused, Within,
}

computes : Unit {0}
unfolding lit text_eq after count_where update_where find_where transaction create_session_row
    allow_recovery within_budgets check_budgets lock_budget open_recovery consume_tx
computes = tt

consumed : (consume_tx (lit "h") (lit "s") 9 5 conn).0 ≡ ok smiths
unfolding computes
consumed = refl

recovery_once_example :
    (consume_tx (lit "h") (lit "t") 9 6 (consume_tx (lit "h") (lit "s") 9 5 conn).1).0 ≢ ok smiths
unfolding computes
recovery_once_example =
    recovery_once (lit "h") (lit "s") (lit "t") 9 5 9 6 conn {i = smiths} {j = smiths} (omega arith)
      consumed

abbrev ask : Dialect → Result Bool × Conn
ask dialect = allow_recovery dialect (lit "e1") (lit "src") (lit "dst") (2 * hour) (2 * hour) conn

allowed_run : (ask sqlite).0 ≡ ok true
unfolding computes
allowed_run = refl

unsupported : (ask other).0 ≡ err (internal "lock recovery budget: unsupported dialect")
unfolding computes
unsupported = refl

not_allowed : (ask other).0 ≢ ok true
unfolding computes
not_allowed = cc

allow_recovery_bounds_example :
    Within (source_budget (lit "src") (lit "dst") (lit "e1") hour) (ask sqlite).1.db
    × Within (destination_budget (lit "src") (lit "dst") (lit "e1") hour) (ask sqlite).1.db
    × Within (event_budget (lit "src") (lit "dst") (lit "e1") hour) (ask sqlite).1.db
allow_recovery_bounds_example =
    allow_recovery_bounds sqlite (lit "e1") (lit "src") (lit "dst") (2 * hour) (2 * hour) conn
      allowed_run

allow_recovery_refused_example : (ask other).1.db ≡ tables
allow_recovery_refused_example =
    allow_recovery_refused other (lit "e1") (lit "src") (lit "dst") (2 * hour) (2 * hour) conn
      not_allowed
