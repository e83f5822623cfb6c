-- ===== src/Sqlite/Keys.antt =====
-- Tables with a key: no two rows have the same key, and what the queries and updates do to such a table.
-- `same r s` tests that `s` has the key of `r`.
use onyx_ifem.Prelude.{
  ℕ, zero, suc, ◌≡◌, refl, ◌∙◌, Bool, true, false, ◌||◌, none, some, List, [], ◌∷◌, ◌++◌, arith,
  if◌then◌else◌, All, All-map, All-append, All-take, take, Bool-cases, inl, inr,
}
use onyx_ifem.Sqlite.Table.{
  select, first, update, order_by, insert_by, count, All-select, All-update, All-insert_by,
  All-order_by,
}

unfoldable pub any {ℓ} : {A : Type ℓ} → (A → Bool) → List A → Bool
any p [] = false
any p (x ∷ xs) = p x || any p xs

pub any-false {ℓ} :
    {A : Type ℓ} (p : A → Bool) (xs : List A) → All (λ x. p x ≡ false) xs → any p xs ≡ false
unfolding any
any-false p [] h = refl
any-false p (x ∷ xs) (here, there) = rw (here, any-false p xs there)

pub any-All {ℓ κ} :
    {A : Type ℓ} (P : A → Type κ) (p : A → Bool) (xs : List A)
    → any p xs ≡ true
    → All P xs
    → (a : A) × (p a ≡ true) × P a
unfolding any
any-All P p [] e h = cc
any-All P p (x ∷ xs) e (here, there) = elim (Bool-cases (p x)) [
  | inl t ↦ (x, t, here)
  | inr f ↦ any-All P p xs (rw f at e) there
]

pub first-none {ℓ} :
    {A : Type ℓ} (p : A → Bool) (xs : List A) → first p xs ≡ none → All (λ x. p x ≡ false) xs
unfolding first
first-none p [] h = tt
first-none p (x ∷ xs) h = elim (Bool-cases (p x)) [
  | inl t ↦ let clash : some x ≡ none = (rw t at h) in cc
  | inr f ↦ (f, first-none p xs (rw f at h))
]

pub first_of_All {ℓ} :
    {A : Type ℓ} (p : A → Bool) (xs : List A) → All (λ x. p x ≡ false) xs → first p xs ≡ none
unfolding first
first_of_All p [] h = refl
first_of_All p (x ∷ xs) (here, there) = rw here (first_of_All p xs there)

pub count_of_All {ℓ} :
    {A : Type ℓ} (p : A → Bool) (xs : List A) → All (λ x. p x ≡ false) xs → count p xs ≡ 0
unfolding count
count_of_All p [] h = refl
count_of_All p (x ∷ xs) (here, there) = rw here (count_of_All p xs there)

module _ {ℓ} {A : Type ℓ} (same : A → A → Bool) where
  abbrev pub Unique : List A → Type 0
  Unique [] = Unit
  Unique (x ∷ xs) = All (λ y. same x y ≡ false) xs × Unique xs

  pub Unique-select : (p : A → Bool) (xs : List A) → Unique xs → Unique (select p xs)
  unfolding select
  Unique-select p [] h = tt
  Unique-select p (x ∷ xs) (here, there) = elim (Bool-cases (p x)) [
    | inl e ↦ rw e (All-select _ p xs here, Unique-select p xs there)
    | inr e ↦ rw e (Unique-select p xs there)
  ]

  pub Unique-take : (n : ℕ) (xs : List A) → Unique xs → Unique (take n xs)
  Unique-take zero xs h = tt
  Unique-take (suc n) [] h = tt
  Unique-take (suc n) (x ∷ xs) (here, there) = (All-take _ n xs here, Unique-take n xs there)

  pub Unique-update :
      (p : A → Bool) (f : A → A) (xs : List A)
      → ((x y : A) → same (f x) y ≡ same x y)
      → ((x y : A) → same x (f y) ≡ same x y)
      → Unique xs
      → Unique (update p f xs)
  unfolding update
  Unique-update p f [] left right h = tt
  Unique-update p f (x ∷ xs) left right (here, there) = elim (Bool-cases (p x)) [
    | inl e ↦ rw e (
      All-update (λ y. same (f x) y ≡ false) p f xs (λ y k. right (f x) y ∙ k)
          (All-map xs (λ y k. left x y ∙ k) here),
      Unique-update p f xs left right there,
    )
    | inr e ↦
        rw e
          (All-update _ p f xs (λ y k. right x y ∙ k) here, Unique-update p f xs left right there)
  ]

  module _ (symmetric : (x y : A) → same x y ≡ same y x) where
    Unique-insert_by :
        (le : A → A → Bool) (x : A) (xs : List A)
        → All (λ y. same x y ≡ false) xs
        → Unique xs
        → Unique (insert_by le x xs)
    unfolding insert_by
    Unique-insert_by le x [] h k = (tt, tt)
    Unique-insert_by le x (y ∷ ys) h (here, there) = elim (Bool-cases (le x y)) [
      | inl e ↦ rw e (h, (here, there))
      | inr e ↦
          rw e
            (All-insert_by _ le x ys (symmetric y x ∙ h.0) here, Unique-insert_by le x ys h.1 there)
    ]

    pub Unique-order_by : (le : A → A → Bool) (xs : List A) → Unique xs → Unique (order_by le xs)
    unfolding order_by
    Unique-order_by le [] h = tt
    Unique-order_by le (x ∷ xs) (here, there) =
        Unique-insert_by le x (order_by le xs) (All-order_by _ le xs here)
          (Unique-order_by le xs there)

pub any-append {ℓ} :
    {A : Type ℓ} (p : A → Bool) (xs ys : List A) → any p (xs ++ ys) ≡ (any p xs || any p ys)
unfolding any
any-append p [] ys = refl
any-append p (x ∷ xs) ys = ground (arith, any-append p xs ys)

pub first-append {ℓ} :
    {A : Type ℓ} (p : A → Bool) (xs ys : List A)
    → first p (xs ++ ys) ≡ (if any p xs then first p xs else first p ys)
unfolding any first
first-append p [] ys = refl
first-append p (x ∷ xs) ys = ground (arith, first-append p xs ys)

pub any-false-All {ℓ} :
    {A : Type ℓ} (p : A → Bool) (xs : List A) → any p xs ≡ false → All (λ x. p x ≡ false) xs
unfolding any
any-false-All p [] h = tt
any-false-All p (x ∷ xs) h = (ground (arith, h), any-false-All p xs (ground (arith, h)))

-- Where `p` picks the row of one key and `q` picks some of what `p` does, one change of an UPDATE WHERE `q`
-- means that the row of the key fits `q`.
pub first-of_count {ℓ} :
    {A : Type ℓ} (same : A → A → Bool) (p q : A → Bool) (xs : List A)
    → ((x : A) → q x ≡ true → p x ≡ true)
    → ((x y : A) → p x ≡ true → same x y ≡ false → p y ≡ false)
    → Unique same xs
    → count q xs ≡ 1
    → (a : A) × (first p xs ≡ some a) × (q a ≡ true)
unfolding count first
first-of_count same p q [] part apart u h = absurd (omega arith)
first-of_count same p q (x ∷ xs) part apart (fresh, u) h = elim (Bool-cases (p x)) [
  | inl hit ↦ (
    x,
    rw hit,
    ground (
      arith,
      h,
      count_of_All q xs (All-map xs (λ y other. ground (arith, apart x y hit other, part y)) fresh),
    ),
  )
  | inr miss ↦
      let (a, found, fits) =
        first-of_count same p q xs part apart u (ground (arith, h, miss, part x)) in
      (a, rw miss found, fits)
]

-- A row added to a table without a row of its key.
pub first-insert {ℓ} :
    {A : Type ℓ} (p : A → Bool) (rows : List A) (x : A)
    → (p x ≡ true → any p rows ≡ false)
    → first p (rows ++ x ∷ []) ≡ (if p x then some x else first p rows)
unfolding any first
first-insert p [] x h = ground arith
first-insert p (y ∷ rows) x h = ground (arith, h, first-insert p rows x (λ e. ground (arith, h e)))

pub Unique-insert {ℓ} :
    {A : Type ℓ} (same : A → A → Bool) (rows : List A) (x : A)
    → All (λ y. same y x ≡ false) rows
    → Unique same rows
    → Unique same (rows ++ x ∷ [])
Unique-insert same [] x h u = (tt, tt)
Unique-insert same (y ∷ rows) x (apart, h) (fresh, u) =
    (All-append _ rows (x ∷ []) fresh (apart, tt), Unique-insert same rows x h u)

-- A row added at the end leaves the first one that is picked.
pub first-kept {ℓ} :
    {A : Type ℓ} (p : A → Bool) (rows : List A) (x : A) {a : A}
    → first p rows ≡ some a
    → first p (rows ++ x ∷ []) ≡ some a
unfolding first
first-kept p [] x h = cc
first-kept p (y ∷ rows) x h = elim (Bool-cases (p y)) [
  | inl hit ↦ rw hit (rw hit at h)
  | inr miss ↦ rw miss (first-kept p rows x (rw miss at h))
]
