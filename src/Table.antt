-- ===== src/Table.antt =====
-- SQL tables as lists of rows: `UPDATE`, `SELECT` and `COUNT(*)` with a `WHERE` test.
use owl_invites.Base.{
  ℕ, suc, ◌+◌, ◌≤◌, ◌≡◌, refl, Bool, true, false, Option, none, some, List, [], ◌∷◌, ◌++◌, arith,
  if◌then◌else◌, All, length, Member, inl, inr,
}

module _ {ℓ} {A : Type ℓ} where
  unfoldable pub count_where : (A → Bool) → List A → ℕ
  count_where test [] = 0
  count_where test (r ∷ rs) = let n = count_where test rs in if test r then suc n else n

  unfoldable pub update_where : (A → Bool) → (A → A) → List A → List A
  update_where test f [] = []
  update_where test f (r ∷ rs) = (if test r then f r else r) ∷ update_where test f rs

  unfoldable pub select_where : (A → Bool) → List A → List A
  select_where test [] = []
  select_where test (r ∷ rs) = let rest = select_where test rs in if test r then r ∷ rest else rest

  -- The first row, where the schema lets at most one satisfy the test.
  unfoldable pub find_where : (A → Bool) → List A → Option A
  find_where test [] = none
  find_where test (r ∷ rs) = let rest = find_where test rs in if test r then some r else rest

  pub count_where-append :
      (test : A → Bool) (rs : List A) (r : A)
      → count_where test (rs ++ r ∷ []) ≡ count_where test rs + (if test r then 1 else 0)
  unfolding count_where
  count_where-append test [] r = ground arith
  count_where-append test (x ∷ rs) r = ground (arith, count_where-append test rs r)

  -- Rows are counted alike after an update that does not change the test.
  pub count_where-update :
      (test other : A → Bool) (f : A → A) (rs : List A)
      → ((r : A) → test (f r) ≡ test r)
      → count_where test (update_where other f rs) ≡ count_where test rs
  unfolding count_where update_where
  count_where-update test other f [] h = refl
  count_where-update test other f (r ∷ rs) h =
      ground (arith, h r, count_where-update test other f rs h)

  -- A row that is found satisfies the test.
  pub find_where-test :
      (test : A → Bool) (rs : List A) {r : A} → find_where test rs ≡ some r → test r ≡ true
  unfolding find_where
  find_where-test test [] h = cc
  find_where-test test (x ∷ rs) {r} h = ground (arith, find_where-test test rs {r = r})

  -- If no more rows satisfy the wider test than the narrower one, those are the same rows.
  pub count_where-le :
      (narrow wide : A → Bool) (rs : List A)
      → ((r : A) → narrow r ≡ true → wide r ≡ true)
      → count_where narrow rs ≤ count_where wide rs
  unfolding count_where
  count_where-le narrow wide [] h = omega arith
  count_where-le narrow wide (r ∷ rs) h = ground (arith, h r, count_where-le narrow wide rs h)

  pub count_where-All :
      (narrow wide : A → Bool) (rs : List A)
      → ((r : A) → narrow r ≡ true → wide r ≡ true)
      → count_where wide rs ≤ count_where narrow rs
      → All (λ r. wide r ≡ true → narrow r ≡ true) rs
  unfolding count_where
  count_where-All narrow wide [] h le = tt
  count_where-All narrow wide (r ∷ rs) h le = (
    ground (arith, h r, count_where-le narrow wide rs h),
    count_where-All narrow wide rs h (ground (arith, h r, count_where-le narrow wide rs h)),
  )

  pub count_where-append_le :
      (test : A → Bool) (rs new : List A)
      → count_where test (rs ++ new) ≤ count_where test rs + length new
  unfolding count_where
  count_where-append_le test [] [] = omega arith
  count_where-append_le test [] (r ∷ new) = ground (arith, count_where-append_le test [] new)
  count_where-append_le test (r ∷ rs) new = ground (arith, count_where-append_le test rs new)

module _ {A : Type 0} (P : A → Type 0) where
  All-if :
      (b : Bool) (r : A) (rs : List A)
      → (b ≡ true → P r)
      → All P rs
      → All P (if b then r ∷ rs else rs)
  All-if true r rs p h = (p refl, h)
  All-if false r rs p h = h

  -- What holds of the rows that satisfy the test holds of those that are selected.
  pub select_where-All :
      (test : A → Bool) (rs : List A)
      → ((r : A) → Member r rs → test r ≡ true → P r)
      → All P (select_where test rs)
  unfolding select_where
  select_where-All test [] k = tt
  select_where-All test (r ∷ rs) k =
      All-if (test r) r (select_where test rs) (k r (inl refl))
        (select_where-All test rs (λ x m. k x (inr m)))
