-- ===== src/Debounce/Taken.antt =====
-- What a drain gives out for each workspace (crates/devrelay-core/src/debounce.rs).
use mathlib.Core.List.{append-nil}
use devrelay.Prelude.{
  ℕ, ◌≡◌, refl, sym, String, Bool, true, false, ◌||◌, Option, none, some, List, [], ◌∷◌, ◌++◌,
  arith, ◌is◌, if◌then◌else◌,
}
use devrelay.Sql.{filter}
use devrelay.Sql.Laws.{map_option}
use devrelay.Debounce.{
  WorkspaceDebounceState, DebouncedCheckpoint, DebouncedPublish, BackgroundDebouncePolicy,
}
use devrelay.Debounce.Flush.{checkpoint_reason, publish_reason, checkpoint_of, push}

pub filter-push :
    {A : Type 0} (p : A → Bool) (o : Option A) (xs : List A)
    → filter p (push o xs) ≡ filter p xs ++ filter p (push o [])
unfolding filter
filter-push p none xs = sym (append-nil (filter p xs))
filter-push p (some a) [] = refl
filter-push p (some a) (x ∷ xs) = ground (arith, filter-push p (some a) xs)

-- What is due for a key is given out for its first occurrence, and nothing is left for the others.
pub joined :
    {A S : Type 0} (here later : Bool) (xs : List A) (due : Option S → List A) (f : S → S)
    (o : Option S)
    → due (map_option f o) ≡ []
    → (xs ++ (if here then due o else []))
        ++ (if later then due (if here then map_option f o else o) else [])
      ≡ xs ++ (if here || later then due o else [])
joined true true xs due f o e = rw e (append-nil (xs ++ due o))
joined true false xs due f o e = append-nil (xs ++ due o)
joined false later xs due f o e = rw (append-nil xs) refl

abbrev pub publish_for : String → DebouncedPublish → Bool
publish_for j c = c.workspace_id is j

module _ {P : Type 0} where
  abbrev pub checkpoint_for : String → DebouncedCheckpoint P → Bool
  checkpoint_for j c = c.workspace_id is j

  -- The checkpoint of a workspace in that state, if one is due.
  abbrev pub due_checkpoints :
      BackgroundDebouncePolicy
      → ℕ
      → String
      → Option (WorkspaceDebounceState P)
      → List (DebouncedCheckpoint P)
  due_checkpoints policy now j none = []
  due_checkpoints policy now j (some s) = elim (checkpoint_reason policy now s) [
    | none ↦ []
    | some reason ↦ checkpoint_of j reason s ∷ []
  ]

  -- Its publish, if one is due.
  abbrev pub due_publishes :
      BackgroundDebouncePolicy
      → ℕ
      → String
      → Option (WorkspaceDebounceState P)
      → List DebouncedPublish
  due_publishes policy now j none = []
  due_publishes policy now j (some s) = elim (publish_reason policy now s) [
    | none ↦ []
    | some reason ↦ elim s.publish_generation [
      | none ↦ []
      | some generation ↦
          record { workspace_id = j; source_generation = generation; reason = reason } ∷ []
    ]
  ]
