-- ===== src/Map.antt =====
-- `BTreeMap<String, V>` and `BTreeSet<T>` of Rust's standard library, as lists in ascending order.
pub mod Laws
use Prim.Native.Nat.{Ordering}
use Prim.Native.String.{compare}
use devrelay.Prelude.{
  String, Option, none, some, Bool, false, ◌||◌, List, [], ◌∷◌, ◌is◌, if◌then◌else◌,
}

module _ {ℓ} {V : Type ℓ} where
  unfoldable pub get : String → List (String × V) → Option V
  get k [] = none
  get k ((j, v) ∷ m) = if j is k then some v else get k m

  unfoldable pub insert : String → V → List (String × V) → List (String × V)
  insert k v [] = (k, v) ∷ []
  insert k v ((j, w) ∷ m) = elim (compare k j) [
    | Ordering.lt ↦ (k, v) ∷ (j, w) ∷ m
    | Ordering.eq ↦ (k, v) ∷ m
    | Ordering.gt ↦ (j, w) ∷ insert k v m
  ]

  unfoldable pub keys : List (String × V) → List String
  keys [] = []
  keys ((k, v) ∷ m) = k ∷ keys m

unfoldable pub contains : List String → String → Bool
contains [] k = false
contains (j ∷ ks) k = j is k || contains ks k

module _ {ℓ} {T : Type ℓ} (order : T → T → Ordering) where
  unfoldable pub add : T → List T → List T
  add x [] = x ∷ []
  add x (y ∷ s) = elim (order x y) [
    | Ordering.lt ↦ x ∷ y ∷ s
    | Ordering.eq ↦ y ∷ s
    | Ordering.gt ↦ y ∷ add x s
  ]

  unfoldable pub extend : List T → List T → List T
  unfolding add
  extend s [] = s
  extend s (x ∷ xs) = extend (add x s) xs
