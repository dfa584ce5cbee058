-- ===== src/Map.antt =====
-- Go maps and sets with string keys. The program ranges over a map in an order that Go leaves
-- open; here it is the order of the entries, and nothing stated depends on it.
use owl_invites.Base.{
  ◌≡◌, ◌↔◌, ◌⊎◌, refl, Bool, true, false, ◌||◌, Option, none, some, List, [], ◌∷◌, arith,
  if◌then◌else◌,
}
use owl_invites.Text.{Text, text_eq, text_eq_iff}

abbrev pub Map {ℓ} : Type ℓ → Type ℓ
Map V = List (Text × V)

module _ {ℓ} {V : Type ℓ} where
  unfoldable pub lookup : Text → Map V → Option V
  lookup k [] = none
  lookup k ((j, v) ∷ m) = if text_eq j k then some v else lookup k m

  unfoldable pub insert : Text → V → Map V → Map V
  insert k v [] = (k, v) ∷ []
  insert k v ((j, w) ∷ m) = if text_eq j k then (k, v) ∷ m else (j, w) ∷ insert k v m

  -- `delete(m, k)`
  unfoldable pub remove : Text → Map V → Map V
  remove k [] = []
  remove k ((j, v) ∷ m) = let rest = remove k m in if text_eq j k then rest else (j, v) ∷ rest

  pub lookup-insert :
      (k j : Text) (v : V) (m : Map V)
      → lookup j (insert k v m) ≡ (if text_eq k j then some v else lookup j m)
  unfolding lookup insert
  lookup-insert k j v [] = refl
  lookup-insert k j v ((i, w) ∷ m) =
      ground (arith, text_eq_iff k j, text_eq_iff i k, text_eq_iff i j, lookup-insert k j v m)

-- The value at a key, or the zero value of a string.
abbrev pub text_or : Option Text → Text
text_or none = []
text_or (some v) = v

-- `set[k]` of a `map[string]bool`.
unfoldable pub contains : List Text → Text → Bool
contains [] k = false
contains (x ∷ xs) k = text_eq x k || contains xs k

abbrev pub Elem : Text → List Text → Type 0
Elem a [] = ⊥
Elem a (x ∷ xs) = (x ≡ a) ⊎ Elem a xs

pub contains_iff : (xs : List Text) (k : Text) → (contains xs k ≡ true) ↔ Elem k xs
unfolding contains
contains_iff [] k = ground arith
contains_iff (x ∷ xs) k = ground (arith, text_eq_iff x k, contains_iff xs k)
