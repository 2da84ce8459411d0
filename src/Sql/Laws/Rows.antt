-- ===== src/Sql/Laws/Rows.antt =====
-- Which rows a filter, a sort and a lookup see.
use mathlib.Core.List.{Memᴰ}
use mathlib.Core.List.Memᴰ.{head, tail, cases_cons}
use devrelay.Prelude.{
  ◌≤◌, ◌≡◌, ◌≢◌, sym, ap, ◌∙◌, Bool, true, false, some, List, [], ◌∷◌, arith, Bool-cases, inl, inr,
  map, refl,
}
use devrelay.Sql.{find, filter, count, order_by, insert_by}

module _ {ℓ} {A : Type ℓ} where
  pub find-Memᴰ : (k : A → Bool) (xs : List A) {x : A} → find k xs ≡ some x → Memᴰ x xs
  unfolding find
  find-Memᴰ k [] h = ground arith
  find-Memᴰ k (y ∷ ys) h = elim (Bool-cases (k y)) [
    | inl hit ↦ head (ground arith)
    | inr miss ↦ tail (find-Memᴰ k ys (ground arith))
  ]

  pub Memᴰ-filter :
      (p : A → Bool) (xs : List A) {x : A} → Memᴰ x xs → p x ≡ true → Memᴰ x (filter p xs)
  unfolding filter
  Memᴰ-filter p [] m h = elim m [ ]
  Memᴰ-filter p (y ∷ ys) m h = elim (Bool-cases (p y)) [
    | inl hit ↦ elim (cases_cons m) [
      | inl e ↦ rw hit (head e)
      | inr t ↦ rw hit (tail (Memᴰ-filter p ys t h))
    ]
    | inr miss ↦ elim (cases_cons m) [
      | inl e ↦ absurd (true-ne-false (sym h ∙ ap p e ∙ miss))
      | inr t ↦ rw miss (Memᴰ-filter p ys t h)
    ]
  ]
    where
      true-ne-false : true ≢ false
      true-ne-false e = ground arith

  insert-Memᴰ :
      (before : A → A → Bool) (n : A) (xs : List A) {x : A}
      → (Memᴰ x (insert_by before n xs) → Memᴰ x (n ∷ xs))
        × (Memᴰ x (n ∷ xs) → Memᴰ x (insert_by before n xs))
  insert-Memᴰ before n [] = (λ m. m, λ m. m)
  insert-Memᴰ before n (y ∷ ys) {x} =
      let (down, up) = insert-Memᴰ before n ys {x = x} in
      elim (Bool-cases (before y n)) [
        | inr here ↦ (λ m. rw here at m, λ m. rw here m)
        | inl later ↦ (
          λ m. elim (cases_cons (rw later at m)) [
            | inl e ↦ tail (head e)
            | inr t ↦ elim (cases_cons (down t)) [ inl e ↦ head e | inr u ↦ tail (tail u) ]
          ],
          λ m. rw later (elim (cases_cons m) [
            | inl e ↦ tail (up (head e))
            | inr t ↦ elim (cases_cons t) [ inl e ↦ head e | inr u ↦ tail (up (tail u)) ]
          ]),
        )
      ]

  pub order_by-Memᴰ :
      (before : A → A → Bool) (xs : List A) {x : A}
      → (Memᴰ x (order_by before xs) → Memᴰ x xs) × (Memᴰ x xs → Memᴰ x (order_by before xs))
  unfolding order_by
  order_by-Memᴰ before [] = (λ m. m, λ m. m)
  order_by-Memᴰ before (y ∷ ys) {x} =
      let (down, up) = order_by-Memᴰ before ys {x = x} in
      let (out, into) = insert-Memᴰ before y (order_by before ys) {x = x} in
      (
        λ m. elim (cases_cons (out m)) [ inl e ↦ head e | inr t ↦ tail (down t) ],
        λ m. into (elim (cases_cons m) [ inl e ↦ head e | inr t ↦ tail (up t) ]),
      )

  pub none_counted : (k : A → Bool) (xs : List A) {x : A} → Memᴰ x xs → k x ≡ true → count k xs ≢ 0
  unfolding count
  none_counted k [] m h e = elim m [ ]
  none_counted k (y ∷ ys) {x} m h e = elim (cases_cons m) [
    | inl i ↦ ground (arith, rw i at h)
    | inr t ↦ ground (arith, none_counted k ys t h)
  ]

  -- With at most one row under the key, the row that a lookup finds is the only one.
  pub find-only :
      (k : A → Bool) (xs : List A) {x y : A}
      → count k xs ≤ 1
      → find k xs ≡ some x
      → Memᴰ y xs
      → k y ≡ true
      → y ≡ x
  unfolding find count
  find-only k [] u h m e = elim m [ ]
  find-only k (z ∷ zs) {x} {y} u h m e = elim (Bool-cases (k z)) [
    | inl hit ↦ elim (cases_cons m) [
      | inl i ↦ i ∙ ground arith
      | inr t ↦ ground (arith, none_counted k zs t e)
    ]
    | inr miss ↦ elim (cases_cons m) [
      | inl i ↦ ground (arith, rw i at e)
      | inr t ↦ find-only k zs (ground arith) (ground arith) t e
    ]
  ]

module _ {ℓ κ} {A : Type ℓ} {B : Type κ} (f : A → B) where
  pub Memᴰ-map : (xs : List A) {x : A} → Memᴰ x xs → Memᴰ (f x) (map f xs)
  Memᴰ-map [] m = elim m [ ]
  Memᴰ-map (y ∷ ys) m = elim (cases_cons m) [ inl e ↦ head (ap f e) | inr t ↦ tail (Memᴰ-map ys t) ]

  pub map-Memᴰ : (xs : List A) {b : B} → Memᴰ b (map f xs) → (x : A) × Memᴰ x xs × (b ≡ f x)
  map-Memᴰ [] m = elim m [ ]
  map-Memᴰ (y ∷ ys) m = elim (cases_cons m) [
    | inl e ↦ (y, head refl, e)
    | inr t ↦ let (x, found, e) = map-Memᴰ ys t in (x, tail found, e)
  ]
