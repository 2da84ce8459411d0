-- ===== src/Retention/Parents.antt =====
-- crates/devrelay-core/src/retention.rs: `protect_retained_parents`, the walk from the kept snapshots to
-- their parents.
pub mod Rounds
pub mod Closure
use Prim.Native.String.{compare}
use devrelay.Prelude.{
  ℕ, zero, suc, ◌+◌, String, Bool, true, false, Option, none, some, List, [], ◌∷◌, if◌then◌else◌,
  length,
}
use devrelay.Map.{get, insert, contains}
use devrelay.Retention.{
  RetentionKeepReason, SnapshotRetentionEntry, HandoffSnapshotProtection, RetentionPolicy,
  retained_parent,
}
use devrelay.Retention.Reasons.{ReasonMap, add_reason, direct_reasons}

abbrev pub ParentMap : Type 0
ParentMap = List (String × Option String)

-- The map that `collect` makes: of two snapshots with one id the later counts.
unfoldable pub collect_parents : List SnapshotRetentionEntry → ParentMap → ParentMap
unfolding insert
collect_parents [] parents = parents
collect_parents (s ∷ ss) parents =
    collect_parents ss (insert s.snapshot_id s.parent_snapshot_id parents)

-- The ids that have a reason.
unfoldable pub active : ReasonMap → List String
active [] = []
active ((k, []) ∷ m) = active m
active ((k, r ∷ rs) ∷ m) = k ∷ active m

abbrev pub reverse_onto : List String → List String → List String
reverse_onto [] acc = acc
reverse_onto (x ∷ xs) acc = reverse_onto xs (x ∷ acc)

-- The loop's variables. The frontier's last element, the next to pop, is the head of the list; of the
-- visited ids only membership is read.
pub record Walk : Type 0 where
  pub frontier : List String
  pub visited : List String
  pub reasons : ReasonMap

-- One round of the loop: `none` when the frontier is empty.
unfoldable pub next : ParentMap → Walk → Option Walk
unfolding contains add_reason
next parents w = elim w.frontier [
  | [] ↦ none
  | snapshot_id ∷ rest ↦
      if contains w.visited snapshot_id
      then some (record w { frontier = rest })
      else elim (get snapshot_id parents) [
        | some (some parent) ↦ some (record {
          frontier = parent ∷ rest;
          visited = snapshot_id ∷ w.visited;
          reasons = add_reason parent retained_parent w.reasons;
        })
        | _ ↦ some (record w { frontier = rest; visited = snapshot_id ∷ w.visited })
      ]
]

unfoldable pub run : ℕ → ParentMap → Walk → Walk
unfolding next
run zero parents w = w
run (suc n) parents w = elim (next parents w) [ none ↦ w | some w' ↦ run n parents w' ]

abbrev pub start : ReasonMap → Walk
start reasons = record {
  frontier = reverse_onto (active reasons) [];
  visited = [];
  reasons = reasons;
}

-- The rounds that the walk may need: each round pops an id, and only an id that is in the map and was not
-- visited pushes one.
abbrev pub rounds : ParentMap → ReasonMap → ℕ
rounds parents reasons = length (reverse_onto (active reasons) []) + length parents

unfoldable pub protect_retained_parents : List SnapshotRetentionEntry → ReasonMap → ReasonMap
unfolding collect_parents active run
protect_retained_parents snapshots reasons =
    let parents = collect_parents snapshots [] in
    (run (rounds parents reasons) parents (start reasons)).reasons

unfoldable pub retention_reasons :
    List SnapshotRetentionEntry
    → RetentionPolicy
    → (canonical_latest_snapshot_id : Option String) → List HandoffSnapshotProtection
    → (now : ℕ) → ReasonMap
unfolding direct_reasons protect_retained_parents
retention_reasons snapshots policy canonical_latest_snapshot_id protections now =
    protect_retained_parents snapshots
      (direct_reasons snapshots policy canonical_latest_snapshot_id protections now)
