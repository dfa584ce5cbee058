-- ===== src/Invitation/Action.antt =====
-- The store's methods: they read and write the tables, and any call of the database may fail. A
-- schedule says which; the identifiers that are handed out are counted. A transaction that ends
-- in an error is rolled back.
use owl_invites.Base.{
  ℕ, suc, ◌≡◌, refl, ◌∙◌, ap, Bool, true, false, String, Option, none, some, List, [], ◌∷◌, ◌++◌,
  length, arith, if◌then◌else◌, Result, ok, err, Error, internal,
}
use owl_invites.Text.{Text}
use owl_invites.Text.Base64.{base64}
use owl_invites.Platform.{Platform}
use owl_invites.Invitation.Database.{Db}
use owl_invites.Invitation.Mail.{Mail}

pub record Conn : Type 0 where
  pub db : Db
  -- Whether the call of each number fails, and how many were made.
  pub fails : ℕ → Bool
  pub calls : ℕ
  pub issued : ℕ
  -- What was handed to the senders, in this order.
  pub sent : List Mail

abbrev pub Action {ℓ} : Type ℓ → Type ℓ
Action A = Conn → Result A × Conn

abbrev continue {ℓ κ} :
    {A : Type ℓ} {B : Type κ} → Result A → (A → Action B) → Conn → Result B × Conn
continue (ok a) f s = f a s
continue (err e) f s = (err e, s)

infixl 5 ◌>>=◌ ◌>>◌
abbrev pub ◌>>=◌ {ℓ κ} : {A : Type ℓ} {B : Type κ} → Action A → (A → Action B) → Action B
◌>>=◌ m f s = let (r, s') = m s in continue r f s'

abbrev pub ◌>>◌ {ℓ} : {B : Type ℓ} → Action (Unit {0}) → Action B → Action B
m >> k = m >>= λ _. k

abbrev pub pure {ℓ} : {A : Type ℓ} → A → Action A
pure a s = (ok a, s)

abbrev pub fail {ℓ} : {A : Type ℓ} → Error → Action A
fail e s = (err e, s)

-- `if test { return e }`
abbrev pub reject : Bool → Error → Action (Unit {0})
reject true e s = (err e, s)
reject false e s = (ok tt, s)

-- A call of the database, with the message that its failure is wrapped in.
abbrev pub call : String → Action (Unit {0})
call e s =
    if s.fails s.calls
    then (err (internal e), record s { calls = suc s.calls })
    else (ok tt, record s { calls = suc s.calls })

abbrev pub query {ℓ} : {A : Type ℓ} → String → (Db → A) → Action A
query e f = do call e; λ s. (ok (f s.db), s)

abbrev pub exec : String → (Db → Db) → Action (Unit {0})
exec e f = do call e; λ s. (ok tt, record s { db = f s.db })

-- The value, or the error that a missing row is.
abbrev pub present {ℓ} : {A : Type ℓ} → Option A → Error → Action A
present none e s = (err e, s)
present (some a) e s = (ok a, s)

abbrev pub new_id : Platform → Action Text
new_id p s = (ok (p.uuid s.issued), record s { issued = suc s.issued })

-- `randomToken`: base64 of what the system's source of randomness gives, which may fail.
abbrev pub random_token : Platform → Action Text
random_token p = do
  call "generate random token"
  λ s. (ok (base64 (p.random s.issued)), record s { issued = suc s.issued })

-- A sender's answer may depend on how many messages it was handed before.
abbrev pub Sender : Type 0
Sender = ℕ → Mail → Option Error

abbrev pub send : Sender → Mail → Action (Option Error)
send sender m s = (ok (sender (length s.sent) m), record s { sent = s.sent ++ m ∷ [] })

-- An update and the number of rows that it changed.
abbrev pub exec_count : String → (Db → ℕ) → (Db → Db) → Action ℕ
exec_count e count f = do call e; λ s. (ok (count s.db), record s { db = f s.db })

-- A call whose error is thrown away.
abbrev pub ignore : Action (Unit {0}) → Action (Unit {0})
ignore m s = (ok tt, (m s).1)

abbrev pub finish {ℓ} : {A : Type ℓ} → Db → Result A → Conn → Result A × Conn
finish db (ok a) s = (ok a, s)
finish db (err e) s = (err e, record s { db = db })

-- `BeginTx`, the body, `Commit`, and the deferred `Rollback`.
unfoldable pub transaction {ℓ} : {A : Type ℓ} → String → String → Action A → Action A
transaction begin commit body s =
    let (r, s') = (do call begin; a ← body; call commit; pure a) s in finish s.db r s'

continue-eq-ok {ℓ κ} :
    {A : Type ℓ} {B : Type κ} (r : Result A) (f : A → Action B) (s : Conn) {b : B}
    → (continue r f s).0 ≡ ok b
    → (a : A) × (r ≡ ok a) × ((f a s).0 ≡ ok b) × (continue r f s ≡ f a s)
continue-eq-ok (ok a) f s h = (a, refl, h, refl)
continue-eq-ok (err e) f s h = cc

-- A chain that succeeds has passed each of its steps.
pub bind-eq-ok {ℓ κ} :
    {A : Type ℓ} {B : Type κ} (m : Action A) (f : A → Action B) (s : Conn) {b : B}
    → ((m >>= f) s).0 ≡ ok b
    → (a : A) × ((m s).0 ≡ ok a) × ((f a (m s).1).0 ≡ ok b) × ((m >>= f) s ≡ f a (m s).1)
bind-eq-ok m f s h = continue-eq-ok (m s).0 f (m s).1 h

-- A transaction that succeeds leaves what its body leaves.
pub transaction-eq-ok {ℓ} :
    {A : Type ℓ} (begin commit : String) (body : Action A) (s : Conn) {a : A}
    → (transaction begin commit body s).0 ≡ ok a
    → ((body (record s { calls = suc s.calls })).0 ≡ ok a)
      × ((transaction begin commit body s).1.db ≡ (body (record s { calls = suc s.calls })).1.db)
unfolding transaction
transaction-eq-ok begin commit body s h = ground arith

continue-view {ℓ κ ι} :
    {A : Type ℓ} {B : Type κ} {X : Type ι} (view : Db → X) (r : Result A) (f : A → Action B)
    (s : Conn)
    → ((a : A) (s' : Conn) → view (f a s').1.db ≡ view s'.db)
    → view (continue r f s).1.db ≡ view s.db
continue-view view (ok a) f s h = h a s
continue-view view (err e) f s h = refl

-- A chain of steps that leave a part of the tables as it is does so too.
pub bind-view {ℓ κ ι} :
    {A : Type ℓ} {B : Type κ} {X : Type ι} (view : Db → X) (m : Action A) (f : A → Action B)
    → ((s : Conn) → view (m s).1.db ≡ view s.db)
    → ((a : A) (s : Conn) → view (f a s).1.db ≡ view s.db)
    → (s : Conn) → view ((m >>= f) s).1.db ≡ view s.db
bind-view view m f h k s = continue-view view (m s).0 f (m s).1 k ∙ h s

-- Two steps, of which the second does not look at what the first returns.
pub then-view {ℓ ι} :
    {B : Type ℓ} {X : Type ι} (view : Db → X) (m : Action (Unit {0})) (k : Action B)
    → ((s : Conn) → view (m s).1.db ≡ view s.db)
    → ((s : Conn) → view (k s).1.db ≡ view s.db)
    → (s : Conn) → view ((m >> k) s).1.db ≡ view s.db
then-view view m k h j = bind-view view m (λ _. k) h (λ _. j)

pub reject-view {ι} :
    {X : Type ι} (view : Db → X) (test : Bool) (e : Error) (s : Conn)
    → view (reject test e s).1.db ≡ view s.db
reject-view view true e s = refl
reject-view view false e s = refl

continue-rel {ℓ κ ι} :
    {A : Type ℓ} {B : Type κ} (R : Conn → Type ι) (r : Result A) (f : A → Action B) (s : Conn)
    → R s
    → ((a : A) → r ≡ ok a → R (f a s).1)
    → R (continue r f s).1
continue-rel R (ok a) f s h k = k a refl
continue-rel R (err e) f s h k = h

-- What holds where the first step stops, and where the rest does after it, holds at the end.
pub bind-rel {ℓ κ ι} :
    {A : Type ℓ} {B : Type κ} (R : Conn → Type ι) (m : Action A) (f : A → Action B) (s : Conn)
    → R (m s).1
    → ((a : A) → (m s).0 ≡ ok a → R (f a (m s).1).1)
    → R ((m >>= f) s).1
bind-rel R m f s h k = continue-rel R (m s).0 f (m s).1 h k

pub reject-rel {ℓ ι} :
    {B : Type ℓ} (R : Conn → Type ι) (test : Bool) (e : Error) (k : Action B) (s : Conn)
    → R s
    → (test ≡ false → R (k s).1)
    → R ((reject test e >> k) s).1
reject-rel R true e k s h h' = h
reject-rel R false e k s h h' = h' refl

pub bind-ok {ℓ κ} :
    {A : Type ℓ} {B : Type κ} (m : Action A) (f : A → Action B) (s : Conn) {a : A}
    → (m s).0 ≡ ok a
    → (m >>= f) s ≡ f a (m s).1
bind-ok m f s h = ap (λ r. continue r f (m s).1) h

pub reject-pass {ℓ} :
    {B : Type ℓ} (test : Bool) (e : Error) (k : Action B) (s : Conn)
    → test ≡ false
    → (reject test e >> k) s ≡ k s
reject-pass true e k s h = cc
reject-pass false e k s h = refl

continue-out {ℓ κ ι} :
    {A : Type ℓ} {B : Type κ} (R : Result B × Conn → Type ι) (r : Result A) (f : A → Action B)
    (s : Conn)
    → ((e : Error) → R (err e, s))
    → ((a : A) → r ≡ ok a → R (f a s))
    → R (continue r f s)
continue-out R (ok a) f s h k = k a refl
continue-out R (err e) f s h k = h e

-- What a chain returns and leaves: what its first step does with an error, or what the rest does.
pub bind-out {ℓ κ ι} :
    {A : Type ℓ} {B : Type κ} (R : Result B × Conn → Type ι) (m : Action A) (f : A → Action B)
    (s : Conn)
    → ((e : Error) → R (err e, (m s).1))
    → ((a : A) → (m s).0 ≡ ok a → R (f a (m s).1))
    → R ((m >>= f) s)
bind-out R m f s h k = continue-out R (m s).0 f (m s).1 h k
