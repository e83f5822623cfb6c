-- ===== src/Sqlite/Table.antt =====
-- SQL over a table that is a list of rows in insertion order: SELECT … WHERE, UPDATE … WHERE with its
-- count of changes, ORDER BY, and the lookup of one row.
use onyx_ifem.Prelude.{
  ℕ, suc, ◌≤◌, ◌≡◌, refl, ap, Bool, true, Option, none, some, List, [], ◌∷◌, arith, All, length,
  if◌then◌else◌, Bool-cases, inl, inr, subst,
}
use mathlib.Core.Option

module _ {ℓ} {A : Type ℓ} where
  unfoldable pub select : (A → Bool) → List A → List A
  select p [] = []
  select p (x ∷ xs) = let rest = select p xs in if p x then x ∷ rest else rest

  -- The first row that fits, as `get` returns it.
  unfoldable pub first : (A → Bool) → List A → Option A
  first p [] = none
  first p (x ∷ xs) = if p x then some x else first p xs

  unfoldable pub update : (A → Bool) → (A → A) → List A → List A
  update p f [] = []
  update p f (x ∷ xs) = (if p x then f x else x) ∷ update p f xs

  -- How many rows fit: COUNT(*) FILTER (WHERE …), and the `changes` of an UPDATE.
  unfoldable pub count : (A → Bool) → List A → ℕ
  count p [] = 0
  count p (x ∷ xs) = let rest = count p xs in if p x then suc rest else rest

  unfoldable pub insert_by : (A → A → Bool) → A → List A → List A
  insert_by le x [] = x ∷ []
  insert_by le x (y ∷ ys) = if le x y then x ∷ y ∷ ys else y ∷ insert_by le x ys

  -- ORDER BY: stable, by insertion.
  unfoldable pub order_by : (A → A → Bool) → List A → List A
  unfolding insert_by
  order_by le [] = []
  order_by le (x ∷ xs) = insert_by le x (order_by le xs)

  pub length-update : (p : A → Bool) (f : A → A) (xs : List A) → length (update p f xs) ≡ length xs
  unfolding update
  length-update p f [] = refl
  length-update p f (x ∷ xs) = ap suc (length-update p f xs)

  pub count-le : (p : A → Bool) (xs : List A) → count p xs ≤ length xs
  unfolding count
  count-le p [] = omega arith
  count-le p (x ∷ xs) = ground (arith, count-le p xs)

  -- An update that keeps the test on its rows commutes with the lookup.
  pub first-update :
      (p q : A → Bool) (f : A → A) (xs : List A)
      → ((x : A) → p (f x) ≡ p x)
      → first p (update q f xs) ≡ Option.map (λ r. if q r then f r else r) (first p xs)
  unfolding first update
  first-update p q f [] h = refl
  first-update p q f (x ∷ xs) h = ground (arith, h x, first-update p q f xs h)

  pub first-some : (p : A → Bool) (xs : List A) {r : A} → first p xs ≡ some r → p r ≡ true
  unfolding first
  first-some p [] h = cc
  first-some p (x ∷ xs) {r} h = ground (arith, first-some p xs {r = r})

module _ {ℓ κ} {A : Type ℓ} (P : A → Type κ) where
  pub All-select : (p : A → Bool) (xs : List A) → All P xs → All P (select p xs)
  unfolding select
  All-select p [] h = tt
  All-select p (x ∷ xs) (here, there) = elim (Bool-cases (p x)) [
    | inl e ↦ rw e (here, All-select p xs there)
    | inr e ↦ rw e (All-select p xs there)
  ]

  pub All-insert_by :
      (le : A → A → Bool) (x : A) (xs : List A) → P x → All P xs → All P (insert_by le x xs)
  unfolding insert_by
  All-insert_by le x [] p h = (p, tt)
  All-insert_by le x (y ∷ ys) p (here, there) = elim (Bool-cases (le x y)) [
    | inl e ↦ rw e (p, (here, there))
    | inr e ↦ rw e (here, All-insert_by le x ys p there)
  ]

  pub All-order_by : (le : A → A → Bool) (xs : List A) → All P xs → All P (order_by le xs)
  unfolding order_by
  All-order_by le [] h = tt
  All-order_by le (x ∷ xs) (here, there) =
      All-insert_by le x (order_by le xs) here (All-order_by le xs there)

  pub All-update :
      (p : A → Bool) (f : A → A) (xs : List A)
      → ((x : A) → P x → P (f x))
      → All P xs
      → All P (update p f xs)
  unfolding update
  All-update p f [] keep h = tt
  All-update p f (x ∷ xs) keep (here, there) = elim (Bool-cases (p x)) [
    | inl e ↦ rw e (keep x here, All-update p f xs keep there)
    | inr e ↦ rw e (here, All-update p f xs keep there)
  ]

  pub All-first : (p : A → Bool) (xs : List A) {r : A} → first p xs ≡ some r → All P xs → P r
  unfolding first
  All-first p [] e h = cc
  All-first p (x ∷ xs) {r} e (here, there) = elim (Bool-cases (p x)) [
    | inl t ↦ let same : some x ≡ some r = (rw t at e) in subst P (cc) here
    | inr t ↦ All-first p xs (rw t at e) there
  ]

-- Every selected row fits.
pub select-All {ℓ} : {A : Type ℓ} (p : A → Bool) (xs : List A) → All (λ r. p r ≡ true) (select p xs)
unfolding select
select-All p [] = tt
select-All p (x ∷ xs) = elim (Bool-cases (p x)) [
  | inl e ↦ rw e (e, select-All p xs)
  | inr e ↦ rw e (select-All p xs)
]
