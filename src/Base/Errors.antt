-- ===== src/Base/Errors.antt =====
-- Results and errors. `validation` is an error of internal/errcode with its format and arguments;
-- the other constructors are the sentinel errors of internal/invitation, and `internal` is a
-- wrapped failure of the database or the system.
use Prim.Native.Nat.{ℕ}
use Prim.Native.String.{String}
use mathlib.Core.Bool.{Bool, true, false}
use mathlib.Core.List.{List}

-- An argument of a format verb: `%s`, `%q` or `%v` of a text, `%d` of a number.
pub data Arg : Type 0 where
  str : List ℕ → Arg
  num : ℕ → Arg

pub data Error : Type 0 where
  validation : String → List Arg → Error
  invalid_capability not_found conflict allowance_exceeded capacity_exceeded : Error
  delivery_suppressed : Error
  internal : String → Error
  -- `fmt.Errorf` without an error among its arguments.
  plain : String → List Arg → Error
  -- A format and arguments, and the error that its last verb prints.
  wrapped : String → List Arg → Error → Error

pub data Result {ℓ} (A : Type ℓ) : Type ℓ where
  err : Error → Result A
  ok : A → Result A

-- `if test { return nil, e }`
abbrev pub reject : Bool → Error → Result (Unit {0})
reject true e = err e
reject false e = ok tt

infixl 5 ◌>>=◌ ◌>>◌
abbrev pub ◌>>=◌ {κ ℓ} : {B : Type κ} {A : Type ℓ} → Result A → (A → Result B) → Result B
(err e) >>= next = err e
(ok a) >>= next = next a

abbrev pub ◌>>◌ {ℓ} : {B : Type ℓ} → Result (Unit {0}) → Result B → Result B
r >> next = r >>= λ _. next
