-- ===== src/Base/Integers.antt =====
-- Go's signed integers, over the native natural numbers; `negsuc n` is `-(n + 1)`.
use Prim.Native.Nat.{ℕ}
use mathlib.Core.Bool.{Bool, true, false}
use owl_invites.Base.Tests.{ltb, leb}

pub data ℤ : Type 0 where
  pos negsuc : ℕ → ℤ

-- `n > 0`
abbrev pub positive : ℤ → Bool
positive (pos n) = ltb 0 n
positive (negsuc n) = false

-- `n >= i` for a number `n` that is not negative.
abbrev pub at_least : ℕ → ℤ → Bool
at_least n (pos i) = leb i n
at_least n (negsuc i) = true
