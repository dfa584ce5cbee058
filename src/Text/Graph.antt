-- ===== src/Text/Graph.antt =====
-- Strings of printable ASCII bytes hold no white space.
use mathlib.Core.List.{reverse-append}
use owl_invites.Base.{ℕ, ◌<◌, ◌≡◌, refl, sym, subst, List, [], ◌∷◌, reverse, arith, All, All-append}
use owl_invites.Text.Trim.{
  space_width, space_width_back, ascii_space, two_space, three_space, IsTrimmed, IsTrimmed-intro,
}

abbrev pub IsGraph : ℕ → Type 0
IsGraph c = (32 < c) × (c < 127)

space_width-graph : (s : List ℕ) → All IsGraph s → space_width s ≡ 0
unfolding space_width ascii_space two_space three_space
space_width-graph [] h = refl
space_width-graph (a ∷ []) (g, h) = ground arith
space_width-graph (a ∷ b ∷ []) (g, h) = ground arith
space_width-graph (a ∷ b ∷ c ∷ s) (g, h) = ground arith

space_width_back-graph : (s : List ℕ) → All IsGraph s → space_width_back s ≡ 0
unfolding space_width_back ascii_space two_space three_space
space_width_back-graph [] h = refl
space_width_back-graph (a ∷ []) (g, h) = ground arith
space_width_back-graph (a ∷ b ∷ []) (g, h) = ground arith
space_width_back-graph (a ∷ b ∷ c ∷ s) (g, h) = ground arith

All-reverse : (s : List ℕ) → All IsGraph s → All IsGraph (reverse s)
All-reverse [] h = tt
All-reverse (c ∷ s) (g, h) =
    subst (All IsGraph) (sym (reverse-append (c ∷ []) s))
      (All-append IsGraph (reverse s) (c ∷ []) (All-reverse s h) (g, tt))

pub graph-IsTrimmed : (s : List ℕ) → All IsGraph s → IsTrimmed s
graph-IsTrimmed s h =
    IsTrimmed-intro s (space_width-graph s h) (space_width_back-graph (reverse s) (All-reverse s h))
