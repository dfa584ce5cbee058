-- ===== src/Text/Case.antt =====
-- `strings.ToLower`. An ASCII string is lowered byte by byte; the tables of Unicode, which any
-- other string goes through, are a parameter.
use owl_invites.Base.{
  ℕ, ◌+◌, ◌≤◌, ◌≡◌, refl, ap, subst, ◌∙◌, Bool, true, ◌&&◌, List, [], ◌∷◌, map, arith, ◌==◌, leb,
  ltb, if◌then◌else◌, all, Bool-cases, inl, inr,
}
use owl_invites.Text.Trim.{
  trim_space, trim_space-map, trim_space-fixed, trim_space-IsTrimmed, IsTrimmed, space_width,
  space_width_back, ascii_space, two_space, three_space,
}

unfoldable pub lower_byte : ℕ → ℕ
lower_byte c = if leb b'A' c && leb c b'Z' then c + 32 else c

abbrev is_ascii : List ℕ → Bool
is_ascii s = all (λ c. ltb c 128) s

-- The case mapping of strings that are not ASCII.
pub record CaseTable : Type 0 where
  pub lower : List ℕ → List ℕ

unfoldable pub to_lower : CaseTable → List ℕ → List ℕ
unfolding lower_byte
to_lower t s = if is_ascii s then map lower_byte s else t.lower s

-- What the tables do: a lowered string is left as it is, and no white space comes to its ends.
pub record CaseLaws (t : CaseTable) : Type 0 where
  pub idem : (s : List ℕ) → to_lower t (t.lower s) ≡ t.lower s
  pub trimmed : (s : List ℕ) → IsTrimmed s → IsTrimmed (t.lower s)

lower_byte_idem : (c : ℕ) → lower_byte (lower_byte c) ≡ lower_byte c
unfolding lower_byte
lower_byte_idem c = ground arith

map-lower_byte_idem : (s : List ℕ) → map lower_byte (map lower_byte s) ≡ map lower_byte s
map-lower_byte_idem [] = refl
map-lower_byte_idem (c ∷ s) = cc (lower_byte_idem c, map-lower_byte_idem s)

lower_byte-ascii : (c : ℕ) → ltb c 128 ≡ true → ltb (lower_byte c) 128 ≡ true
unfolding lower_byte
lower_byte-ascii c h = ground arith

map-lower_byte-ascii : (s : List ℕ) → is_ascii s ≡ true → is_ascii (map lower_byte s) ≡ true
map-lower_byte-ascii [] h = refl
map-lower_byte-ascii (c ∷ s) h = ground (arith, lower_byte-ascii c, map-lower_byte-ascii s)

pub to_lower_idem :
    (t : CaseTable) → CaseLaws t → (s : List ℕ) → to_lower t (to_lower t s) ≡ to_lower t s
unfolding to_lower
to_lower_idem t laws s = elim (Bool-cases (is_ascii s)) [
  | inl ascii ↦ rw (ascii, map-lower_byte-ascii s ascii) (map-lower_byte_idem s)
  | inr other ↦ rw other (laws.idem s)
]

ascii_space-lower : (a : ℕ) → ascii_space (lower_byte a) ≡ ascii_space a
unfolding ascii_space lower_byte
ascii_space-lower a = ground arith

-- A letter becomes no byte of a longer white space rune, and such a byte stays.
==-lower : (k a : ℕ) → 128 ≤ k → (lower_byte a == k) ≡ (a == k)
unfolding lower_byte
==-lower k a h = ground arith

leb-lower : (k a : ℕ) → 128 ≤ k → leb k (lower_byte a) ≡ leb k a
unfolding lower_byte
leb-lower k a h = ground arith

range-lower :
    (a : ℕ) → (leb 0x80 (lower_byte a) && leb (lower_byte a) 0x8a) ≡ (leb 0x80 a && leb a 0x8a)
unfolding lower_byte
range-lower a = ground arith

two_space-lower : (a b : ℕ) → two_space (lower_byte a) (lower_byte b) ≡ two_space a b
unfolding two_space
two_space-lower a b =
    rw (==-lower 0xc2 a (omega arith), ==-lower 0x85 b (omega arith), ==-lower 0xa0 b (omega arith))

three_space-lower :
    (a b c : ℕ) → three_space (lower_byte a) (lower_byte b) (lower_byte c) ≡ three_space a b c
unfolding three_space
three_space-lower a b c = rw (
  range-lower c,
  ==-lower 0xe1 a (omega arith),
  ==-lower 0xe2 a (omega arith),
  ==-lower 0xe3 a (omega arith),
  ==-lower 0x9a b (omega arith),
  ==-lower 0x80 b (omega arith),
  ==-lower 0x81 b (omega arith),
  ==-lower 0x80 c (omega arith),
  ==-lower 0xa8 c (omega arith),
  ==-lower 0xa9 c (omega arith),
  ==-lower 0xaf c (omega arith),
  ==-lower 0x9f c (omega arith),
)

space_width-lower : (s : List ℕ) → space_width (map lower_byte s) ≡ space_width s
unfolding space_width
space_width-lower [] = refl
space_width-lower (a ∷ []) = rw (ascii_space-lower a)
space_width-lower (a ∷ b ∷ []) = rw (ascii_space-lower a, two_space-lower a b)
space_width-lower (a ∷ b ∷ c ∷ s) =
    rw (ascii_space-lower a, two_space-lower a b, three_space-lower a b c)

space_width_back-lower : (s : List ℕ) → space_width_back (map lower_byte s) ≡ space_width_back s
unfolding space_width_back
space_width_back-lower [] = refl
space_width_back-lower (a ∷ []) = rw (ascii_space-lower a)
space_width_back-lower (b ∷ a ∷ []) = rw (ascii_space-lower b, two_space-lower a b)
space_width_back-lower (c ∷ b ∷ a ∷ s) =
    rw (ascii_space-lower c, two_space-lower b c, three_space-lower a b c)

-- A trimmed string is trimmed when it is lowered.
pub trim_space-to_lower :
    (t : CaseTable)
    → CaseLaws t
    → (s : List ℕ) → IsTrimmed s
    → trim_space (to_lower t s) ≡ to_lower t s
unfolding to_lower
trim_space-to_lower t laws s h = elim (Bool-cases (is_ascii s)) [
  | inl ascii ↦ rw ascii (
      trim_space-map lower_byte space_width-lower space_width_back-lower s
      ∙ ap (map lower_byte) (trim_space-fixed s h))
  | inr other ↦ rw other (trim_space-fixed (t.lower s) (laws.trimmed s h))
]

-- A table that knows no letter beyond ASCII, which meets the laws.
abbrev pub ascii_table : CaseTable
ascii_table = record { lower = map lower_byte }

ascii_table_idem : (s : List ℕ) → to_lower ascii_table (map lower_byte s) ≡ map lower_byte s
unfolding to_lower
ascii_table_idem s = elim (Bool-cases (is_ascii (map lower_byte s))) [
  | inl ascii ↦ rw ascii (map-lower_byte_idem s)
  | inr other ↦ rw other (map-lower_byte_idem s)
]

map-lower_byte-IsTrimmed : (s : List ℕ) → IsTrimmed s → IsTrimmed (map lower_byte s)
map-lower_byte-IsTrimmed s h =
    subst IsTrimmed
      (trim_space-map lower_byte space_width-lower space_width_back-lower s
        ∙ ap (map lower_byte) (trim_space-fixed s h))
      (trim_space-IsTrimmed (map lower_byte s))

pub ascii_table-CaseLaws : CaseLaws ascii_table
ascii_table-CaseLaws = record { idem = ascii_table_idem; trimmed = map-lower_byte-IsTrimmed }
