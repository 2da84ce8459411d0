-- ===== src/Retention/Parents/Rounds.antt =====
-- The rounds of the walk to the parents, and that it ends (`protect_retained_parents` of
-- crates/devrelay-core/src/retention.rs).
use devrelay.Prelude.{
  ℕ, zero, suc, ◌+◌, ◌≤◌, ◌<◌, ◌≡◌, ◌≢◌, ◌⊎◌, refl, inl, inr, String, true, false, Option, none,
  some, List, [], ◌∷◌, if◌then◌else◌, length, arith, eq_iff, Bool-cases, Option-cases,
}
use devrelay.Map.{get, contains}
use devrelay.Retention.{retained_parent}
use devrelay.Retention.Reasons.{add_reason}
use devrelay.Retention.Parents.{ParentMap, Walk, next, run}

-- The ids of the map that the walk has not visited.
unfoldable pub unvisited : List String → ParentMap → ℕ
unfolding contains
unvisited v [] = 0
unvisited v ((k, p) ∷ m) = (if contains v k then 0 else 1) + unvisited v m

unvisited-visit :
    (v : List String) (k : String) (m : ParentMap) → unvisited (k ∷ v) m ≤ unvisited v m
unfolding unvisited contains
unvisited-visit v k [] = omega arith
unvisited-visit v k ((j, p) ∷ m) = ground (arith, unvisited-visit v k m)

-- A visit of a new id of the map leaves fewer.
unvisited-new :
    (v : List String) (k : String) (m : ParentMap) (p : Option String)
    → get k m ≡ some p
    → contains v k ≡ false
    → unvisited (k ∷ v) m < unvisited v m
unfolding unvisited contains get
unvisited-new v k [] p at new = ground (arith, at)
unvisited-new v k ((j, q) ∷ m) p at new =
    ground (arith, unvisited-visit v k m, unvisited-new v k m p, eq_iff k j, eq_iff j k)

pub unvisited-nil : (m : ParentMap) → unvisited [] m ≤ length m
unfolding unvisited contains
unvisited-nil [] = omega arith
unvisited-nil ((k, p) ∷ m) = ground (arith, unvisited-nil m)

unfoldable pub work : ParentMap → Walk → ℕ
unfolding unvisited
work parents w = length w.frontier + unvisited w.visited parents

pub List-cases :
    (xs : List String) → (xs ≡ []) ⊎ ((x : String) × (rest : List String) × (xs ≡ x ∷ rest))
List-cases [] = inl refl
List-cases (x ∷ rest) = inr (x, rest, refl)

-- What one round does: it pops an id that was visited, a new one with a parent, or a new one without.
pub record Round (parents : ParentMap) (w w' : Walk) : Type 0 where
  pub top : String
  pub rest : List String
  pub popped : w.frontier ≡ top ∷ rest
  pub does :
      ((contains w.visited top ≡ true) × (w' ≡ record w { frontier = rest }))
      ⊎ ((contains w.visited top ≡ false)
          × (((parent : String) × (get top parents ≡ some (some parent))
                × (w' ≡ record {
                  frontier = parent ∷ rest;
                  visited = top ∷ w.visited;
                  reasons = add_reason parent retained_parent w.reasons;
                }))
              ⊎ (((parent : String) → get top parents ≢ some (some parent))
                  × (w' ≡ record w { frontier = rest; visited = top ∷ w.visited }))))

pub next-Round : (parents : ParentMap) (w w' : Walk) → next parents w ≡ some w' → Round parents w w'
unfolding next
next-Round parents w w' h = elim (List-cases w.frontier) [
  | inl e ↦ ground (arith, h, e)
  | inr (top, rest, e) ↦ elim (Bool-cases (contains w.visited top)) [
    | inl seen ↦ record {
      top = top;
      rest = rest;
      popped = e;
      does = inl (seen, ground (arith, h, e, seen));
    }
    | inr new ↦ elim (Option-cases (get top parents)) [
      | inl gone ↦ record {
        top = top;
        rest = rest;
        popped = e;
        does =
            inr (new, inr (λ parent at. ground (arith, gone, at), ground (arith, h, e, new, gone)));
      }
      | inr (o, at) ↦ elim (Option-cases o) [
        | inl root ↦ record {
          top = top;
          rest = rest;
          popped = e;
          does = inr (
            new,
            inr (
              λ parent is_at. ground (arith, at, root, is_at),
              ground (arith, h, e, new, at, root),
            ),
          );
        }
        | inr (parent, known) ↦ record {
          top = top;
          rest = rest;
          popped = e;
          does =
              inr (
                new,
                inl (parent, ground (arith, at, known), ground (arith, h, e, new, at, known)),
              );
        }
      ]
    ]
  ]
]

next-less :
    (parents : ParentMap) (w w' : Walk)
    → next parents w ≡ some w'
    → work parents w' < work parents w
unfolding work
next-less parents w w' h =
    let r = next-Round parents w w' h in
    elim r.does [
      | inl (seen, e) ↦ ground (arith, r.popped, e)
      | inr (new, inl (parent, at, e)) ↦
          ground (arith, r.popped, e, unvisited-new w.visited r.top parents (some parent) at new)
      | inr (new, inr (root, e)) ↦
          ground (arith, r.popped, e, unvisited-visit w.visited r.top parents)
    ]

-- With as many rounds as the work, the walk ends.
pub run-ends :
    (n : ℕ) (parents : ParentMap) (w : Walk)
    → work parents w ≤ n
    → next parents (run n parents w) ≡ none
unfolding run
run-ends zero parents w h = elim (Option-cases (next parents w)) [
  | inl e ↦ e
  | inr (w', e) ↦ ground (arith, next-less parents w w' e)
]
run-ends (suc n) parents w h = elim (Option-cases (next parents w)) [
  | inl e ↦ ground (arith, e)
  | inr (w', e) ↦ ground (arith, e, run-ends n parents w', next-less parents w w' e)
]
