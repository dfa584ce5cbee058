-- ===== src/Text/Number.antt =====
-- `strconv.Itoa` and `strconv.Atoi`.
use owl_invites.Base.{
  ℕ, zero, suc, ◌+◌, ◌-◌, ◌*◌, ◌/◌, ◌%◌, ◌^◌, ◌≤◌, ◌<◌, ◌≡◌, refl, ◌&&◌, Option, none, some, List,
  [], ◌∷◌, ◌++◌, arith, ◌==◌, leb, ltb, if◌then◌else◌, All, All-append, Bool-cases, inl, inr, ◌≢◌,
  ℤ, pos, negsuc,
}

-- The decimal digits; `n` is below the fuel.
itoa_fuel : ℕ → ℕ → List ℕ
itoa_fuel zero n = []
itoa_fuel (suc fuel) n =
    let front = itoa_fuel fuel (n / 10) in
    if ltb n 10 then (48 + n) ∷ [] else front ++ (48 + n % 10) ∷ []

unfoldable pub itoa : ℕ → List ℕ
unfolding itoa_fuel
itoa n = itoa_fuel (suc n) n

abbrev pub IsDigit : ℕ → Type 0
IsDigit c = (48 ≤ c) × (c ≤ 57)

digits : ℕ → List ℕ → Option ℕ
digits n [] = some n
digits n (c ∷ s) =
    let rest = digits (n * 10 + (c - 48)) s in if leb 48 c && leb c 57 then rest else none

-- An `int` has 64 bits.
abbrev pub max_int : ℕ
max_int = 2 ^ 63 - 1

in_range : Option ℕ → Option ℤ
in_range none = none
in_range (some n) = if leb n max_int then some (pos n) else none

negate : Option ℕ → Option ℤ
negate none = none
negate (some zero) = some (pos 0)
negate (some (suc n)) = if leb n max_int then some (negsuc n) else none

-- A sign may stand in front of one digit or more.
atoi_signed : ℕ → List ℕ → Option ℤ
unfolding digits in_range negate
atoi_signed c [] = in_range (digits 0 (c ∷ []))
atoi_signed c (d ∷ s) =
    if c == b'-'
    then negate (digits 0 (d ∷ s))
    else if c == b'+'
    then in_range (digits 0 (d ∷ s))
    else in_range (digits 0 (c ∷ d ∷ s))

unfoldable pub atoi : List ℕ → Option ℤ
unfolding atoi_signed
atoi [] = none
atoi (c ∷ s) = atoi_signed c s

digits-append :
    (n c m : ℕ) (s : List ℕ)
    → IsDigit c
    → digits n s ≡ some m
    → digits n (s ++ c ∷ []) ≡ some (m * 10 + (c - 48))
unfolding digits
digits-append n c m [] d h = ground arith
digits-append n c m (a ∷ s) d h = ground (arith, digits-append (n * 10 + (a - 48)) c m s d)

digits-itoa_fuel : (fuel n : ℕ) → n < fuel → digits 0 (itoa_fuel fuel n) ≡ some n
unfolding itoa_fuel digits
digits-itoa_fuel zero n h = elim h [ ]
digits-itoa_fuel (suc fuel) n h = ground (
  arith,
  digits-itoa_fuel fuel (n / 10),
  digits-append 0 (48 + n % 10) (n / 10) (itoa_fuel fuel (n / 10)),
)

remainder-IsDigit : (n : ℕ) → IsDigit (48 + n % 10)
remainder-IsDigit n = omega arith

itoa_fuel-All : (fuel n : ℕ) → All IsDigit (itoa_fuel fuel n)
unfolding itoa_fuel
itoa_fuel-All zero n = tt
itoa_fuel-All (suc fuel) n = elim (Bool-cases (ltb n 10)) [
  | inl small ↦ rw small (ground arith, tt)
  | inr large ↦
      rw large (All-append IsDigit _ _ (itoa_fuel-All fuel (n / 10)) (remainder-IsDigit n, tt))
]

pub itoa-All : (n : ℕ) → All IsDigit (itoa n)
unfolding itoa
itoa-All n = itoa_fuel-All (suc n) n

-- A string of digits is read as its value.
atoi-digits :
    (s : List ℕ) (n : ℕ)
    → All IsDigit s
    → digits 0 s ≡ some n
    → n ≤ max_int
    → s ≢ []
    → atoi s ≡ some (pos n)
unfolding atoi
atoi-digits [] n d h fits ne = absurd (ne refl)
atoi-digits (c ∷ []) n d h fits ne = ground arith
atoi-digits (c ∷ a ∷ s) n d h fits ne = ground arith

append-ne-nil : (s : List ℕ) (c : ℕ) → s ++ c ∷ [] ≢ []
append-ne-nil [] c = cc
append-ne-nil (a ∷ s) c = cc

itoa-ne-nil : (n : ℕ) → itoa n ≢ []
unfolding itoa
itoa-ne-nil n = ground (arith, append-ne-nil (itoa_fuel n (n / 10)) (48 + n % 10))

-- Every number that an `int` holds is read back.
pub atoi-itoa : (n : ℕ) → n ≤ max_int → atoi (itoa n) ≡ some (pos n)
unfolding itoa
atoi-itoa n fits =
    atoi-digits (itoa n) n (itoa-All n) (digits-itoa_fuel (suc n) n (omega arith)) fits
      (itoa-ne-nil n)
