-- ===== src/Text.antt =====
-- Go strings are sequences of bytes. `len`, `==`, and what the program calls of the packages
-- `strings` and `strconv`.
pub mod Trim
pub mod Number
pub mod Case
pub mod Split
pub mod Base64
pub mod Graph
pub mod Hex
pub mod Html
use Prim.Native.Char.{code}
use owl_invites.Base.{
  ℕ, ◌+◌, ◌≡◌, refl, ◌↔◌, Bool, true, false, ◌&&◌, String, List, [], ◌∷◌, arith, ◌==◌, ==_iff,
}

abbrev pub Text : Type 0
Text = List ℕ

-- The bytes of an ASCII literal.
unfoldable pub lit : String → Text
lit String.[] = []
lit (String.◌∷◌ c s) = code c ∷ lit s

unfoldable pub text_eq : Text → Text → Bool
text_eq [] [] = true
text_eq [] (b ∷ t) = false
text_eq (a ∷ s) [] = false
text_eq (a ∷ s) (b ∷ t) = a == b && text_eq s t

pub text_eq_iff : (s t : Text) → (text_eq s t ≡ true) ↔ (s ≡ t)
unfolding text_eq
text_eq_iff [] [] = ground arith
text_eq_iff [] (b ∷ t) = ground arith
text_eq_iff (a ∷ s) [] = ground arith
text_eq_iff (a ∷ s) (b ∷ t) = ground (arith, text_eq_iff s t)

pub text_eq_refl : (s : Text) → text_eq s s ≡ true
text_eq_refl s = (text_eq_iff s s).1 refl
