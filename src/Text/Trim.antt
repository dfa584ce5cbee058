-- ===== src/Text/Trim.antt =====
-- `strings.TrimSpace` over the bytes of a string, for every white space rune of Unicode.
use mathlib.Core.List.{reverse-reverse, reverse-append, map-append}
use owl_invites.Base.{
  ℕ, zero, suc, ◌≡◌, refl, sym, ap, ◌∙◌, subst, Bool, ◌&&◌, ◌||◌, List, [], ◌∷◌, ◌++◌, map, reverse,
  arith, ◌==◌, leb, if◌then◌else◌,
}

-- '\t', '\n', '\v', '\f', '\r' and ' '.
unfoldable pub ascii_space : ℕ → Bool
ascii_space a = a == 32 || leb 9 a && leb a 13

-- U+0085 and U+00A0.
unfoldable pub two_space : ℕ → ℕ → Bool
two_space a b = a == 0xc2 && (b == 0x85 || b == 0xa0)

-- U+1680, U+2000 to U+200A, U+2028, U+2029, U+202F, U+205F and U+3000.
unfoldable pub three_space : ℕ → ℕ → ℕ → Bool
three_space a b c =
    a == 0xe1 && b == 0x9a && c == 0x80
    || a == 0xe2 && b == 0x80 && (leb 0x80 c && leb c 0x8a || c == 0xa8 || c == 0xa9 || c == 0xaf)
    || a == 0xe2 && b == 0x81 && c == 0x9f
    || a == 0xe3 && b == 0x80 && c == 0x80

-- The number of bytes of the white space rune that a string begins with, or 0.
unfoldable pub space_width : List ℕ → ℕ
space_width [] = 0
space_width (a ∷ []) = if ascii_space a then 1 else 0
space_width (a ∷ b ∷ []) = if ascii_space a then 1 else if two_space a b then 2 else 0
space_width (a ∷ b ∷ c ∷ s) =
    if ascii_space a then 1 else if two_space a b then 2 else if three_space a b c then 3 else 0

-- The same at the end of a string, given backwards.
unfoldable pub space_width_back : List ℕ → ℕ
space_width_back [] = 0
space_width_back (a ∷ []) = if ascii_space a then 1 else 0
space_width_back (b ∷ a ∷ []) = if ascii_space b then 1 else if two_space a b then 2 else 0
space_width_back (c ∷ b ∷ a ∷ s) =
    if ascii_space c then 1 else if two_space b c then 2 else if three_space a b c then 3 else 0

abbrev trim_step : ℕ → List ℕ → (ℕ → List ℕ) → List ℕ
trim_step zero whole rest = whole
trim_step (suc k) whole rest = rest k

-- Drops the bytes of white space runes; `k` bytes of the current one are left.
pub trim_by : (List ℕ → ℕ) → ℕ → List ℕ → List ℕ
trim_by width k [] = []
trim_by width zero (a ∷ s) = trim_step (width (a ∷ s)) (a ∷ s) (λ k. trim_by width k s)
trim_by width (suc k) (a ∷ s) = trim_by width k s

unfoldable pub trim_space : List ℕ → List ℕ
unfolding trim_by space_width space_width_back ascii_space two_space three_space
trim_space s = reverse (trim_by space_width_back 0 (reverse (trim_by space_width 0 s)))

module _ (width : List ℕ → ℕ) where
  trim_step-done :
      (n : ℕ) (whole : List ℕ) (rest : ℕ → List ℕ)
      → width whole ≡ n
      → ((k : ℕ) → width (rest k) ≡ 0)
      → width (trim_step n whole rest) ≡ 0
  trim_step-done zero whole rest h k = h
  trim_step-done (suc n) whole rest h k = k n

  -- Nothing is left to trim.
  trim_by-done : width [] ≡ 0 → (k : ℕ) (s : List ℕ) → width (trim_by width k s) ≡ 0
  unfolding trim_by
  trim_by-done e zero [] = e
  trim_by-done e (suc k) [] = e
  trim_by-done e zero (a ∷ s) =
      trim_step-done (width (a ∷ s)) (a ∷ s) (λ k. trim_by width k s) refl (λ k. trim_by-done e k s)
  trim_by-done e (suc k) (a ∷ s) = trim_by-done e k s

  trim_by-fixed : (s : List ℕ) → width s ≡ 0 → trim_by width 0 s ≡ s
  unfolding trim_by
  trim_by-fixed [] h = refl
  trim_by-fixed (a ∷ s) h = rw (h, trim_by)

  -- What is trimmed stood in front.
  trim_by-suffix : (k : ℕ) (s : List ℕ) → (gone : List ℕ) × (s ≡ gone ++ trim_by width k s)
  unfolding trim_by
  trim_by-suffix zero [] = ([], refl)
  trim_by-suffix (suc k) [] = ([], refl)
  trim_by-suffix zero (a ∷ s) = step (width (a ∷ s)) (λ k. trim_by-suffix k s)
    where
      step :
          (n : ℕ)
          → ((k : ℕ) → (gone : List ℕ) × (s ≡ gone ++ trim_by width k s))
          → (gone : List ℕ) × (a ∷ s ≡ gone ++ trim_step n (a ∷ s) (λ k. trim_by width k s))
      step zero h = ([], refl)
      step (suc n) h = (a ∷ (h n).0, ap (λ (t : List ℕ). a ∷ t) (h n).1)
  trim_by-suffix (suc k) (a ∷ s) =
      let (gone, e) = trim_by-suffix k s in (a ∷ gone, ap (λ (t : List ℕ). a ∷ t) e)

  trim_by-map :
      (f : ℕ → ℕ)
      → ((s : List ℕ) → width (map f s) ≡ width s)
      → (k : ℕ) (s : List ℕ) → trim_by width k (map f s) ≡ map f (trim_by width k s)
  unfolding trim_by
  trim_by-map f h zero [] = refl
  trim_by-map f h (suc k) [] = refl
  trim_by-map f h (suc k) (a ∷ s) = trim_by-map f h k s
  trim_by-map f h zero (a ∷ s) =
      rw (h (a ∷ s), trim_by) (step (width (a ∷ s)) (λ k. trim_by-map f h k s))
    where
      step :
          (n : ℕ)
          → ((k : ℕ) → trim_by width k (map f s) ≡ map f (trim_by width k s))
          → trim_step n (map f (a ∷ s)) (λ k. trim_by width k (map f s))
            ≡ map f (trim_step n (a ∷ s) (λ k. trim_by width k s))
      step zero ih = refl
      step (suc n) ih = ih n

-- A string that does not begin with white space has no beginning that does.
space_width-prefix : (s t : List ℕ) → space_width (s ++ t) ≡ 0 → space_width s ≡ 0
unfolding space_width
space_width-prefix [] t h = refl
space_width-prefix (a ∷ []) [] h = h
space_width-prefix (a ∷ []) (b ∷ []) h = ground arith
space_width-prefix (a ∷ []) (b ∷ c ∷ t) h = ground arith
space_width-prefix (a ∷ b ∷ []) [] h = h
space_width-prefix (a ∷ b ∷ []) (c ∷ t) h = ground arith
space_width-prefix (a ∷ b ∷ c ∷ s) t h = h

pub IsTrimmed : List ℕ → Type 0
IsTrimmed s = (space_width s ≡ 0) × (space_width_back (reverse s) ≡ 0)

pub IsTrimmed-intro :
    (s : List ℕ) → space_width s ≡ 0 → space_width_back (reverse s) ≡ 0 → IsTrimmed s
unfolding IsTrimmed
IsTrimmed-intro s front back = (front, back)

pub trim_space-fixed : (s : List ℕ) → IsTrimmed s → trim_space s ≡ s
unfolding trim_space IsTrimmed
trim_space-fixed s (front, back) =
    rw (trim_by-fixed space_width s front, trim_by-fixed space_width_back (reverse s) back)
      (reverse-reverse s)

pub trim_space-IsTrimmed : (s : List ℕ) → IsTrimmed (trim_space s)
unfolding trim_space IsTrimmed space_width space_width_back
trim_space-IsTrimmed s =
    let u : List ℕ = trim_by space_width 0 s in
    let r : List ℕ = trim_by space_width_back 0 (reverse u) in
    let (gone, e) = trim_by-suffix space_width_back 0 (reverse u) in
    let split : u ≡ reverse r ++ reverse gone =
      sym (reverse-reverse u) ∙ ap reverse e ∙ reverse-append gone r in
    (
      space_width-prefix (reverse r) (reverse gone)
          (subst (λ (t : List ℕ). space_width t ≡ 0) split (trim_by-done space_width refl 0 s)),
      rw reverse-reverse (trim_by-done space_width_back refl 0 (reverse u)),
    )

pub trim_space_idem : (s : List ℕ) → trim_space (trim_space s) ≡ trim_space s
trim_space_idem s = trim_space-fixed (trim_space s) (trim_space-IsTrimmed s)

reverse-map : (f : ℕ → ℕ) (s : List ℕ) → reverse (map f s) ≡ map f (reverse s)
reverse-map f [] = refl
reverse-map f (a ∷ s) =
    reverse-append (f a ∷ []) (map f s)
    ∙ ap (λ t. t ++ f a ∷ []) (reverse-map f s)
    ∙ sym (map-append f (reverse s) (a ∷ []))
    ∙ ap (map f) (sym (reverse-append (a ∷ []) s))

-- White space is not changed by a map that fixes it and yields none.
pub trim_space-map :
    (f : ℕ → ℕ)
    → ((s : List ℕ) → space_width (map f s) ≡ space_width s)
    → ((s : List ℕ) → space_width_back (map f s) ≡ space_width_back s)
    → (s : List ℕ) → trim_space (map f s) ≡ map f (trim_space s)
unfolding trim_space
trim_space-map f front back s = rw (
  trim_by-map space_width f front 0 s,
  reverse-map f,
  trim_by-map space_width_back f back 0,
  reverse-map f,
)
