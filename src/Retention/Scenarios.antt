-- ===== src/Retention/Scenarios.antt =====
-- A full disk: what the planner keeps of four snapshots.
use devrelay.Prelude.{
  arith, List, ℕ, ◌+◌, ◌≡◌, refl, String, true, false, Option, none, some, [], ◌∷◌, inl, inr,
}
use devrelay.Prelude.Int.{pos}
use devrelay.Retention.{
  SnapshotRetentionEntry, PruningPlanInput, PruningDecision, default_policy, device_cache,
  hot_snapshot,
}
use devrelay.Retention.Plan.{plan_snapshot_pruning, decide, chosen, any_hard, reasons_for}
use devrelay.Retention.Plan.Reclaim.{plan_snapshot_pruning-exhausts}
use devrelay.Retention.Reasons.{ReasonMap, reasons_of}
use devrelay.Retention.Parents.Closure.{protect_retained_parents-ends}
use devrelay.Retention.Parents.{collect_parents, next, run, rounds, start}
use devrelay.Map.{get, insert, add}
use devrelay.Retention.Plan.Safety.{
  IsKept, plan_snapshot_pruning-keeps_protected, plan_snapshot_pruning-keeps_parents,
}

abbrev entry : String → Option String → ℕ → SnapshotRetentionEntry
entry snapshot_id parent n = record {
  snapshot_id = snapshot_id;
  parent_snapshot_id = parent;
  sequence_number = pos n;
  pinned = false;
  created_at_unix_seconds = 1_700_000_000 + n;
  estimated_size_bytes = 1000;
}

-- A fork "f" besides the canonical line "a", "b", "c".
abbrev full_disk : PruningPlanInput
full_disk = record {
  snapshots =
      entry "a" none 1
      ∷ entry "b" (some "a") 2
      ∷ entry "f" (some "a") 3
      ∷ entry "c" (some "b") 4
      ∷ [];
  policy = default_policy;
  scope = device_cache;
  canonical_latest_snapshot_id = some "c";
  handoff_protections = [];
  current_usage_bytes = 4000;
  free_disk_bytes = 0;
  now_unix_seconds = 1_700_000_100;
}

abbrev decision_on : SnapshotRetentionEntry → PruningDecision
decision_on s = decide (chosen full_disk) s

plan_snapshot_pruning-keeps_protected_example : IsKept (decision_on (entry "c" (some "b") 4))
unfolding plan_snapshot_pruning decide
plan_snapshot_pruning-keeps_protected_example =
    plan_snapshot_pruning-keeps_protected full_disk (decision_on (entry "c" (some "b") 4))
      (inr (inr (inr (inl refl)))) (inl refl)

parent_of_c : get "c" (collect_parents full_disk.snapshots []) ≡ some (some "b")
unfolding get collect_parents insert
parent_of_c = refl

plan_snapshot_pruning-keeps_parents_example : IsKept (decision_on (entry "b" (some "a") 2))
unfolding plan_snapshot_pruning decide
plan_snapshot_pruning-keeps_parents_example =
    plan_snapshot_pruning-keeps_parents full_disk (decision_on (entry "c" (some "b") 4))
      (decision_on (entry "b" (some "a") 2)) plan_snapshot_pruning-keeps_protected_example.0
      (inr (inr (inr (inl refl)))) plan_snapshot_pruning-keeps_protected_example.1 parent_of_c
      (inr (inl refl))

-- Two snapshots that name each other as parent.
abbrev cycle : List SnapshotRetentionEntry
cycle = entry "a" (some "b") 1 ∷ entry "b" (some "a") 2 ∷ []

abbrev cycle_reasons : ReasonMap
cycle_reasons = ("a", hot_snapshot ∷ []) ∷ []

protect_retained_parents-ends_example :
    let parents = collect_parents cycle [] in
    (next parents (run (rounds parents cycle_reasons) parents (start cycle_reasons)) ≡ none)
    × ((run (rounds parents cycle_reasons) parents (start cycle_reasons)).frontier ≡ [])
protect_retained_parents-ends_example = protect_retained_parents-ends cycle cycle_reasons

-- One snapshot, the latest canonical one, on a full disk.
abbrev last_one : PruningPlanInput
last_one = record full_disk { snapshots = entry "c" none 4 ∷ []; current_usage_bytes = 1000 }

last_one-planned : (plan_snapshot_pruning last_one).planned_reclaim_bytes ≡ 0
unfolding plan_snapshot_pruning get add
last_one-planned = refl

abbrev decision_on_last : PruningDecision
decision_on_last = decide (chosen last_one) (entry "c" none 4)

last_one-IsKept : IsKept decision_on_last
unfolding plan_snapshot_pruning decide
last_one-IsKept =
    plan_snapshot_pruning-keeps_protected last_one decision_on_last (inl refl) (inl refl)

plan_snapshot_pruning-exhausts_example : any_hard (reasons_of "c" (reasons_for last_one)) ≡ true
unfolding plan_snapshot_pruning decide
plan_snapshot_pruning-exhausts_example =
    plan_snapshot_pruning-exhausts last_one decision_on_last last_one-IsKept.0
      (omega (arith, last_one-planned)) (inl refl) last_one-IsKept.1
