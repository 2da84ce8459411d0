-- ===== src/Sql/Laws/Order.antt =====
-- `ORDER BY ... LIMIT 1` finds a row of the table that no other row comes before.
use mathlib.Core.List.{Memᴰ}
use mathlib.Core.List.Memᴰ.{head, tail, cases_cons}
use devrelay.Prelude.{
  ◌≡◌, refl, Bool, true, false, some, List, [], ◌∷◌, ◌++◌, arith, Bool-cases, inl, inr,
}
use devrelay.Sql.{filter, earliest}

module _ {ℓ} {A : Type ℓ} where
  pub filter-Memᴰ :
      (p : A → Bool) (xs : List A) {x : A} → Memᴰ x (filter p xs) → Memᴰ x xs × (p x ≡ true)
  unfolding filter
  filter-Memᴰ p [] m = elim m [ ]
  filter-Memᴰ p (y ∷ ys) {x} m = elim (Bool-cases (p y)) [
    | inl hit ↦ elim (cases_cons (rw hit at m)) [
      | inl e ↦ (head e, rw e hit)
      | inr later ↦ let (found, holds) = filter-Memᴰ p ys later in (tail found, holds)
    ]
    | inr miss ↦ let (found, holds) = filter-Memᴰ p ys (rw miss at m) in (tail found, holds)
  ]

-- A strict order in which two rows that neither of them comes before the other stand alike.
pub record IsOrder {ℓ} {A : Type ℓ} (before : A → A → Bool) : Type ℓ where
  pub irrefl : (x : A) → before x x ≡ false
  pub asym : (x y : A) → before x y ≡ true → before y x ≡ false
  pub skip : (x y z : A) → before x y ≡ false → before y z ≡ false → before x z ≡ false

module _ {ℓ} {A : Type ℓ} (before : A → A → Bool) (o : IsOrder before) where
  go-first :
      (x : A) (xs : List A) (r : A)
      → earliest before (x ∷ xs) ≡ some r
      → (before x r ≡ false) × ((y : A) → Memᴰ y xs → before y r ≡ false)
  unfolding earliest
  go-first x [] r h = (ground (arith, o.irrefl x), λ y m. elim m [ ])
  go-first x (y ∷ ys) r h = elim (Bool-cases (before y x)) [
    | inl sooner ↦
        let (first, rest) = go-first y ys r (ground arith) in
        (
          o.skip x y r (o.asym y x sooner) first,
          λ z m. elim (cases_cons m) [ inl e ↦ rw e first | inr t ↦ rest z t ],
        )
    | inr not_sooner ↦
        let (first, rest) = go-first x ys r (ground arith) in
        (
          first,
          λ z m. elim (cases_cons m) [
            | inl e ↦ rw e (o.skip y x r not_sooner first)
            | inr t ↦ rest z t
          ],
        )
  ]

  pub earliest-first :
      (xs : List A) (r : A) → earliest before xs ≡ some r → (y : A) → Memᴰ y xs → before y r ≡ false
  unfolding earliest
  earliest-first [] r h y m = elim m [ ]
  earliest-first (x ∷ xs) r h y m =
      let (first, rest) = go-first x xs r h in
      elim (cases_cons m) [ inl e ↦ rw e first | inr t ↦ rest y t ]

module _ {ℓ} {A : Type ℓ} (before : A → A → Bool) where
  pub earliest-Memᴰ : (xs : List A) (r : A) → earliest before xs ≡ some r → Memᴰ r xs
  unfolding earliest
  earliest-Memᴰ [] r h = ground arith
  earliest-Memᴰ (x ∷ []) r h = head (ground arith)
  earliest-Memᴰ (x ∷ y ∷ ys) r h = elim (Bool-cases (before y x)) [
    | inl sooner ↦ tail (earliest-Memᴰ (y ∷ ys) r (ground arith))
    | inr not_sooner ↦ elim (cases_cons (earliest-Memᴰ (x ∷ ys) r (ground arith))) [
      | inl e ↦ head e
      | inr t ↦ tail (tail t)
    ]
  ]

-- A last row that comes before all others is the one that is found.
module _ {ℓ} {A : Type ℓ} where
  pub filter_last :
      (p : A → Bool) (xs : List A) (n : A)
      → p n ≡ true
      → filter p (xs ++ n ∷ []) ≡ filter p xs ++ n ∷ []
  unfolding filter
  filter_last p [] n h = rw h refl
  filter_last p (x ∷ xs) n h = ground (arith, filter_last p xs n h)

  pub earliest_last :
      (before : A → A → Bool) (xs : List A) (n : A)
      → ((x : A) → Memᴰ x xs → before n x ≡ true)
      → earliest before (xs ++ n ∷ []) ≡ some n
  unfolding earliest
  earliest_last before [] n h = refl
  earliest_last before (x ∷ []) n h = ground (arith, h x (head refl))
  earliest_last before (x ∷ y ∷ ys) n h = elim (Bool-cases (before y x)) [
    | inl sooner ↦ ground (arith, earliest_last before (y ∷ ys) n (λ z m. h z (tail m)))
    | inr not_sooner ↦ ground (arith, earliest_last before (x ∷ ys) n (λ z m. h z (skip_second m)))
  ]
    where
      skip_second : {x y z : A} {ys : List A} → Memᴰ z (x ∷ ys) → Memᴰ z (x ∷ y ∷ ys)
      skip_second (head e) = head e
      skip_second (tail m) = tail (tail m)
