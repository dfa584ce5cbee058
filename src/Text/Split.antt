-- ===== src/Text/Split.antt =====
-- `strings.Split` and `strings.Join` at a separator of one byte.
use owl_invites.Base.{
  ℕ, ◌≡◌, ◌≢◌, refl, ap, ◌∙◌, List, [], ◌∷◌, ◌++◌, arith, ◌==◌, if◌then◌else◌, All,
}

abbrev cons_head : ℕ → List (List ℕ) → List (List ℕ)
cons_head c [] = (c ∷ []) ∷ []
cons_head c (part ∷ parts) = (c ∷ part) ∷ parts

unfoldable pub split : ℕ → List ℕ → List (List ℕ)
split sep [] = [] ∷ []
split sep (c ∷ s) = let rest = split sep s in if c == sep then [] ∷ rest else cons_head c rest

unfoldable pub join : ℕ → List (List ℕ) → List ℕ
join sep [] = []
join sep (part ∷ []) = part
join sep (part ∷ next ∷ parts) = part ++ sep ∷ join sep (next ∷ parts)

-- No byte of a part is the separator.
abbrev pub IsFree : ℕ → List ℕ → Type 0
IsFree sep s = All (λ c. c ≢ sep) s

split-free : (sep : ℕ) (s : List ℕ) → IsFree sep s → split sep s ≡ s ∷ []
unfolding split
split-free sep [] h = refl
split-free sep (c ∷ s) (ne, h) = ground (arith, split-free sep s h)

split-append :
    (sep : ℕ) (s rest : List ℕ) → IsFree sep s → split sep (s ++ sep ∷ rest) ≡ s ∷ split sep rest
unfolding split
split-append sep [] rest h = ground arith
split-append sep (c ∷ s) rest (ne, h) = ground (arith, split-append sep s rest h)

-- Parts without the separator are found again.
pub split-join :
    (sep : ℕ) (part : List ℕ) (parts : List (List ℕ))
    → All (IsFree sep) (part ∷ parts)
    → split sep (join sep (part ∷ parts)) ≡ part ∷ parts
unfolding join
split-join sep part [] (free, tt) = split-free sep part free
split-join sep part (next ∷ parts) (free, rest) =
    split-append sep part (join sep (next ∷ parts)) free
    ∙ ap (λ (l : List (List ℕ)). part ∷ l) (split-join sep next parts rest)
