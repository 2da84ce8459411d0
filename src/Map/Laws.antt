-- ===== src/Map/Laws.antt =====
-- Laws of the ordered maps and sets.
use Prim.Native.Nat.{Ordering}
use mathlib.Core.Path.{subst}
use devrelay.Prelude.{
  String, ◌≡◌, ◌≢◌, refl, none, some, false, List, [], ◌∷◌, ◌is◌, arith, eq_iff, if◌then◌else◌, ◌⊎◌,
  inl, inr,
}
use devrelay.Map.{get, insert, keys, contains, add, extend}

module _ {ℓ} {V : Type ℓ} where
  pub get-insert :
      (k j : String) (v : V) (m : List (String × V))
      → get j (insert k v m) ≡ (if k is j then some v else get j m)
  unfolding get insert
  get-insert k j v [] = refl
  get-insert k j v ((i, w) ∷ m) =
      ground (arith, eq_iff k j, eq_iff k i, eq_iff i j, get-insert k j v m)

  -- The keys are those with a value.
  pub contains-keys :
      (m : List (String × V)) (k : String) → contains (keys m) k ≡ false → get k m ≡ none
  unfolding contains keys get
  contains-keys [] k h = refl
  contains-keys ((j, v) ∷ m) k h = ground (arith, contains-keys m k)

-- Membership, by recursion on the list.
abbrev pub Has : {T : Type 0} → T → List T → Type 0
Has x [] = ⊥
Has x (y ∷ s) = (x ≡ y) ⊎ Has x s

Ordering-cases : (o : Ordering) → (o ≡ Ordering.lt) ⊎ (o ≡ Ordering.eq) ⊎ (o ≡ Ordering.gt)
Ordering-cases Ordering.lt = inl refl
Ordering-cases Ordering.eq = inr (inl refl)
Ordering-cases Ordering.gt = inr (inr refl)

module _ {T : Type 0} (order : T → T → Ordering)
    (order-eq : (x y : T) → order x y ≡ Ordering.eq → x ≡ y) where
  pub add-Has : (x : T) (s : List T) → Has x (add order x s)
  unfolding add
  add-Has x [] = inl refl
  add-Has x (y ∷ s) = elim (Ordering-cases (order x y)) [
    | inl e ↦ rw (e, add, Has) (inl refl)
    | inr (inl e) ↦ rw (e, add, Has) (inl (order-eq x y e))
    | inr (inr e) ↦ rw (e, add, Has) (inr (add-Has x s))
  ]

  pub add_keeps : (x y : T) (s : List T) → Has y s → Has y (add order x s)
  unfolding add
  add_keeps x y [] h = elim h [ ]
  add_keeps x y (z ∷ s) h = elim (Ordering-cases (order x z)) [
    | inl e ↦ rw (e, add, Has) (inr h)
    | inr (inl e) ↦ rw (e, add, Has) h
    | inr (inr e) ↦
        rw (e, add, Has) (elim h [ inl same ↦ inl same | inr later ↦ inr (add_keeps x y s later) ])
  ]

  past_head :
      (x y z : T) (s : List T)
      → (Has y (add order x s) → (y ≡ x) ⊎ Has y s)
      → ((y ≡ z) ⊎ Has y (add order x s))
      → (y ≡ x) ⊎ ((y ≡ z) ⊎ Has y s)
  past_head x y z s ih (inl same) = inr (inl same)
  past_head x y z s ih (inr later) = elim (ih later) [ inl e ↦ inl e | inr old ↦ inr (inr old) ]

  pub add_only : (x y : T) (s : List T) → Has y (add order x s) → (y ≡ x) ⊎ Has y s
  unfolding add
  add_only x y [] h = elim h [ inl e ↦ inl e | inr later ↦ absurd later ]
  add_only x y (z ∷ s) h = elim (Ordering-cases (order x z)) [
    | inl e ↦ rw (e, add, Has) at h
    | inr (inl e) ↦ inr (rw (e, add, Has) at h)
    | inr (inr e) ↦ past_head x y z s (add_only x y s) (rw (e, add, Has) at h)
  ]

  pub extend_keeps : (y : T) (s xs : List T) → Has y s → Has y (extend order s xs)
  unfolding extend
  extend_keeps y s [] h = h
  extend_keeps y s (x ∷ xs) h = extend_keeps y (add order x s) xs (add_keeps x y s h)

  -- A set extended by a list has what the list has.
  pub extend-Has : (y : T) (s xs : List T) → Has y xs → Has y (extend order s xs)
  unfolding extend
  extend-Has y s [] h = elim h [ ]
  extend-Has y s (x ∷ xs) h = elim h [
    | inl e ↦ extend_keeps y (add order x s) xs (rw e (add-Has x s))
    | inr later ↦ extend-Has y (add order x s) xs later
  ]

  -- And nothing but that and what it had.
  pub extend_only : (y : T) (s xs : List T) → Has y (extend order s xs) → Has y s ⊎ Has y xs
  unfolding extend
  extend_only y s [] h = inl h
  extend_only y s (x ∷ xs) h = elim (extend_only y (add order x s) xs h) [
    | inl before ↦ elim (add_only x y s before) [ inl e ↦ inr (inl e) | inr old ↦ inl old ]
    | inr later ↦ inr (inr later)
  ]

  pub extend-ne-nil : (s : List T) (x : T) (xs : List T) → extend order s (x ∷ xs) ≢ []
  extend-ne-nil s x xs e = subst (λ l. Has x l) e (extend-Has x s (x ∷ xs) (inl refl))
