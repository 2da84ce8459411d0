-- ===== src/Sql.antt =====
-- The SQL statements of crates/devrelay-core/src/storage.rs, over a table as the list of its rows:
-- `SELECT ... WHERE` for one row, `UPDATE ... WHERE` with its count of changed rows, `EXISTS`,
-- `ORDER BY ... LIMIT 1`, and `MAX`.
pub mod Laws
use devrelay.Prelude.{
  ℕ, zero, suc, ◌+◌, Bool, true, false, ◌||◌, Option, none, some, List, [], ◌∷◌, if◌then◌else◌, max,
}

module _ {ℓ} {A : Type ℓ} where
  -- The first row that meets the condition.
  unfoldable pub find : (A → Bool) → List A → Option A
  find p [] = none
  find p (x ∷ xs) = if p x then some x else find p xs

  unfoldable pub exists : (A → Bool) → List A → Bool
  exists p [] = false
  exists p (x ∷ xs) = p x || exists p xs

  unfoldable pub filter : (A → Bool) → List A → List A
  filter p [] = []
  filter p (x ∷ xs) = let rest = filter p xs in if p x then x ∷ rest else rest

  -- The rows after an update, and how many it changes.
  unfoldable pub update : (A → Bool) → (A → A) → List A → List A
  update p f [] = []
  update p f (x ∷ xs) = (if p x then f x else x) ∷ update p f xs

  unfoldable pub count : (A → Bool) → List A → ℕ
  count p [] = 0
  count p (x ∷ xs) = (if p x then 1 else 0) + count p xs

  -- `COALESCE(MAX(value), 0)` over the rows that meet the condition.
  unfoldable pub greatest : (A → Bool) → (A → ℕ) → List A → ℕ
  greatest p value [] = 0
  greatest p value (x ∷ xs) =
      let rest = greatest p value xs in if p x then max (value x) rest else rest

  -- `ORDER BY before LIMIT 1`: the earliest of the rows under `before`.
  unfoldable pub earliest : (A → A → Bool) → List A → Option A
  earliest before [] = none
  earliest before (x ∷ xs) = some (go x xs)
    where
      go : A → List A → A
      go best [] = best
      go best (y ∷ ys) = go (if before y best then y else best) ys

  abbrev pub insert_by : (A → A → Bool) → A → List A → List A
  insert_by before x [] = x ∷ []
  insert_by before x (y ∷ ys) =
      let rest = insert_by before x ys in if before y x then y ∷ rest else x ∷ y ∷ ys

  -- `ORDER BY before`.
  unfoldable pub order_by : (A → A → Bool) → List A → List A
  order_by before [] = []
  order_by before (x ∷ xs) = insert_by before x (order_by before xs)
