-- ===== src/Sql/Laws.antt =====
-- Laws of the statements: what a lookup and a count see after an update or an insert.
pub mod Order
pub mod Rows
use devrelay.Prelude.{
  ◌+◌, ◌≤◌, ◌≡◌, refl, Bool, true, false, Option, none, some, List, [], ◌∷◌, ◌++◌, arith, ◌&&◌,
  if◌then◌else◌, Bool-cases, inl, inr,
}
use devrelay.Sql.{find, exists, filter, update, count, earliest}

-- What an update makes of the row that a lookup finds.
abbrev pub revise {ℓ} : {A : Type ℓ} → (A → Bool) → (A → A) → A → A
revise p f x = if p x then f x else x

abbrev pub map_option {ℓ κ} : {A : Type ℓ} {B : Type κ} → (A → B) → Option A → Option B
map_option f none = none
map_option f (some a) = some (f a)

abbrev pub or_else {ℓ} : {A : Type ℓ} → Option A → Option A → Option A
or_else none o = o
or_else (some a) o = some a

module _ {ℓ} {A : Type ℓ} where
  -- An update that keeps the key changes the row under the key, if it meets the condition.
  pub find-update :
      (k p : A → Bool) (f : A → A)
      → ((x : A) → k (f x) ≡ k x)
      → (xs : List A) → find k (update p f xs) ≡ map_option (revise p f) (find k xs)
  unfolding find update
  find-update k p f keep [] = refl
  find-update k p f keep (x ∷ xs) = ground (arith, keep x, find-update k p f keep xs)

  pub count-update :
      (k p : A → Bool) (f : A → A)
      → ((x : A) → k (f x) ≡ k x)
      → (xs : List A) → count k (update p f xs) ≡ count k xs
  unfolding count update
  count-update k p f keep [] = refl
  count-update k p f keep (x ∷ xs) = ground (arith, keep x, count-update k p f keep xs)

  pub find-append :
      (k : A → Bool) (xs ys : List A) → find k (xs ++ ys) ≡ or_else (find k xs) (find k ys)
  unfolding find
  find-append k [] ys = refl
  find-append k (x ∷ xs) ys = ground (arith, find-append k xs ys)

  pub count-append : (k : A → Bool) (xs ys : List A) → count k (xs ++ ys) ≡ count k xs + count k ys
  unfolding count
  count-append k [] ys = omega arith
  count-append k (x ∷ xs) ys = omega (arith, count-append k xs ys)

  pub exists-find : (k : A → Bool) (xs : List A) → exists k xs ≡ false → find k xs ≡ none
  unfolding exists find
  exists-find k [] h = refl
  exists-find k (x ∷ xs) h = ground (arith, exists-find k xs)

  pub exists-count : (k : A → Bool) (xs : List A) → exists k xs ≡ false → count k xs ≡ 0
  unfolding exists count
  exists-count k [] h = refl
  exists-count k (x ∷ xs) h = ground (arith, exists-count k xs)

  pub find_holds : (k : A → Bool) (xs : List A) {x : A} → find k xs ≡ some x → k x ≡ true
  unfolding find
  find_holds k [] h = ground arith
  find_holds k (y ∷ xs) {x} h = ground (arith, find_holds k xs {x = x})

  count-and-zero : (k q : A → Bool) (xs : List A) → count k xs ≡ 0 → count (λ r. k r && q r) xs ≡ 0
  unfolding count
  count-and-zero k q [] h = refl
  count-and-zero k q (y ∷ xs) h = ground (arith, count-and-zero k q xs)

  -- With at most one row under the key, an update of the found row changes exactly one row.
  pub count-one :
      (k q : A → Bool) (xs : List A) {x : A}
      → count k xs ≤ 1
      → find k xs ≡ some x
      → q x ≡ true
      → count (λ r. k r && q r) xs ≡ 1
  unfolding count find
  count-one k q [] u h e = ground arith
  count-one k q (y ∷ xs) {x} u h e = elim (Bool-cases (k y)) [
    | inl hit ↦ ground (arith, count-and-zero k q xs)
    | inr miss ↦ ground (arith, count-one k q xs {x = x})
  ]

  -- Without a match no row changes.
  pub count-none :
      (k q : A → Bool) (xs : List A)
      → ((x : A) → find k xs ≡ some x → q x ≡ false)
      → count k xs ≤ 1
      → count (λ r. k r && q r) xs ≡ 0
  unfolding count find
  count-none k q [] h u = refl
  count-none k q (y ∷ xs) h u = elim (Bool-cases (k y)) [
    | inl hit ↦ ground (arith, count-and-zero k q xs, h y)
    | inr miss ↦ ground (arith, count-none k q xs (λ x e. h x (rw miss e)))
  ]

  pub find-exists : (k : A → Bool) (xs : List A) {x : A} → find k xs ≡ some x → exists k xs ≡ true
  unfolding exists find
  find-exists k [] h = ground arith
  find-exists k (y ∷ xs) {x} h = ground (arith, find-exists k xs {x = x})

  pub exists-update :
      (k p : A → Bool) (f : A → A)
      → ((x : A) → k (f x) ≡ k x)
      → (xs : List A) → exists k (update p f xs) ≡ exists k xs
  unfolding exists update
  exists-update k p f keep [] = refl
  exists-update k p f keep (x ∷ xs) = ground (arith, keep x, exists-update k p f keep xs)

  pub exists-append_last :
      (k : A → Bool) (xs : List A) (x : A) → k x ≡ true → exists k (xs ++ x ∷ []) ≡ true
  unfolding exists
  exists-append_last k [] x h = rw h
  exists-append_last k (y ∷ xs) x h = ground (arith, exists-append_last k xs x h)

-- What `ORDER BY ... LIMIT 1` finds.
module _ {ℓ} {A : Type ℓ} where
  pub filter-update :
      (p q : A → Bool) (f : A → A)
      → ((x : A) → p (f x) ≡ p x)
      → (xs : List A) → filter p (update q f xs) ≡ update q f (filter p xs)
  unfolding filter update
  filter-update p q f keep [] = refl
  filter-update p q f keep (x ∷ xs) = ground (arith, keep x, filter-update p q f keep xs)

  earliest_go-update :
      (before : A → A → Bool) (q : A → Bool) (f : A → A)
      → ((x y : A) → before (revise q f x) (revise q f y) ≡ before x y)
      → (x : A) (xs : List A)
      → earliest before (revise q f x ∷ update q f xs)
        ≡ map_option (revise q f) (earliest before (x ∷ xs))
  unfolding earliest update
  earliest_go-update before q f keep x [] = refl
  earliest_go-update before q f keep x (y ∷ ys) = elim (Bool-cases (before y x)) [
    | inl sooner ↦ ground (arith, keep y x, earliest_go-update before q f keep y ys)
    | inr not_sooner ↦ ground (arith, keep y x, earliest_go-update before q f keep x ys)
  ]

  pub earliest-update :
      (before : A → A → Bool) (q : A → Bool) (f : A → A)
      → ((x y : A) → before (revise q f x) (revise q f y) ≡ before x y)
      → (xs : List A)
      → earliest before (update q f xs) ≡ map_option (revise q f) (earliest before xs)
  unfolding earliest update
  earliest-update before q f keep [] = refl
  earliest-update before q f keep (x ∷ xs) = earliest_go-update before q f keep x xs
