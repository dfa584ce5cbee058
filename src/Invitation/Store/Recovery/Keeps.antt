-- ===== src/Invitation/Store/Recovery/Keeps.antt =====
-- The recovery operations hand out no message and leave the invitations alone.
use owl_invites.Base.{
  ℕ, suc, ◌≡◌, refl, ◌∙◌, String, Bool, true, false, List, [], ◌∷◌, arith, Result, ok, err,
}
use owl_invites.Text.{Text}
use owl_invites.Table.{select_where}
use owl_invites.Invitation.Database.{Invitation, RecoveryAttemptRow}
use owl_invites.Invitation.Action.{Conn, Action, ◌>>=◌, call, finish, bind-rel}
use owl_invites.Invitation.Store.Recovery.{
  Dialect, postgres, sqlite, other, Budget, lock_budget, check_budgets, record_attempt, attempt,
  within_budgets, allow_recovery, find_recovery_matches, create_recovery_token, is_match,
}

-- No message was handed out, and no invitation was changed.
abbrev pub Keeps : Conn → Conn → Type 0
Keeps s t = (t.sent ≡ s.sent) × (t.db.invitations ≡ s.db.invitations)

check_budgets-Keeps : (bs : List Budget) (s : Conn) → Keeps s (check_budgets bs s).1
unfolding check_budgets
check_budgets-Keeps [] s = (refl, refl)
check_budgets-Keeps (b ∷ bs) s =
    ground (arith, check_budgets-Keeps bs (record s { calls = suc s.calls }))

pub bind-Keeps {ℓ κ} :
    {A : Type ℓ} {B : Type κ} (m : Action A) (f : A → Action B)
    → ((s : Conn) → Keeps s (m s).1)
    → ((a : A) (s : Conn) → Keeps s (f a s).1)
    → (s : Conn) → Keeps s ((m >>= f) s).1
bind-Keeps m f h k s =
    bind-rel (Keeps s) m f s (h s) (λ a got. ((k a (m s).1).0 ∙ (h s).0, (k a (m s).1).1 ∙ (h s).1))

call-Keeps : (message : String) (s : Conn) → Keeps s (call message s).1
call-Keeps message s = ground arith

lock_budget-Keeps : (dialect : Dialect) (s : Conn) → Keeps s (lock_budget dialect s).1
unfolding lock_budget
lock_budget-Keeps postgres s = call-Keeps _ s
lock_budget-Keeps sqlite s = call-Keeps _ s
lock_budget-Keeps other s = (refl, refl)

within_budgets-Keeps :
    (dialect : Dialect) (event_id source destination : Text) (now : ℕ) (s : Conn)
    → Keeps s (within_budgets dialect event_id source destination now s).1
unfolding within_budgets
within_budgets-Keeps dialect event_id source destination now =
    bind-Keeps (call "begin recovery limit") _ (call-Keeps _)
      λ u. bind-Keeps (lock_budget dialect) _ (lock_budget-Keeps dialect) λ v. check_budgets-Keeps _

record_attempt-Keeps :
    (r : RecoveryAttemptRow) (within : Bool) (s : Conn) → Keeps s (record_attempt r within s).1
record_attempt-Keeps r false s = (refl, refl)
record_attempt-Keeps r true s = ground arith

finish-Keeps {ℓ} :
    {A : Type ℓ} (s : Conn) (r : Result A) (t : Conn) → Keeps s t → Keeps s (finish s.db r t).1
finish-Keeps s (ok a) t k = k
finish-Keeps s (err e) t (k, l) = (k, refl)

pub allow_recovery-Keeps :
    (dialect : Dialect) (event_id source destination : Text) (now later : ℕ) (s : Conn)
    → Keeps s (allow_recovery dialect event_id source destination now later s).1
unfolding allow_recovery
allow_recovery-Keeps dialect event_id source destination now later s = finish-Keeps s _ _ (
    bind-Keeps (within_budgets dialect event_id source destination now)
      (record_attempt (attempt event_id source destination later))
      (within_budgets-Keeps dialect event_id source destination now)
      (record_attempt-Keeps (attempt event_id source destination later)) s)

pub find_recovery_matches-Keeps :
    (event_id contact : Text) (s : Conn) → Keeps s (find_recovery_matches event_id contact s).1
unfolding find_recovery_matches
find_recovery_matches-Keeps event_id contact s = ground arith

pub find_recovery_matches-value :
    (event_id contact : Text) (s : Conn) {found : List Invitation}
    → (find_recovery_matches event_id contact s).0 ≡ ok found
    → found ≡ select_where (is_match event_id contact) s.db.invitations
unfolding find_recovery_matches
find_recovery_matches-value event_id contact s h = ground arith

pub create_recovery_token-Keeps :
    (id hash destination : Text) (expires_at : ℕ) (s : Conn)
    → Keeps s (create_recovery_token id hash destination expires_at s).1
unfolding create_recovery_token
create_recovery_token-Keeps id hash destination expires_at s = ground arith
