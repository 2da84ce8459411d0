-- ===== src/Retention/Plan.antt =====
-- crates/devrelay-core/src/retention.rs: `plan_snapshot_pruning`.
pub mod Choice
pub mod Safety
pub mod Reclaim
use devrelay.Prelude.{
  ℕ, ◌+◌, ◌-◌, ◌%◌, ◌^◌, max, String, Bool, true, false, ◌&&◌, ◌||◌, Option, none, some, List, [],
  ◌∷◌, ◌++◌, map, ltb, leb, if◌then◌else◌,
}
use devrelay.Prelude.Int.{saturating_add}
use devrelay.Map.{get, insert, keys, contains}
use devrelay.Retention.{
  RetentionKeepReason, SnapshotRetentionEntry, PruningReason, PruningDecision, PruningPlan,
  PruningPlanInput, PruningPlanWarning, is_hard, outside_retention, quota_pressure,
  free_disk_pressure, keep, delete, quota_bytes, mib_to_bytes, quota_exceeded, free_disk_low,
  free_disk_hard_stop, insufficient_reclaimable_snapshots,
}
use devrelay.Retention.Reasons.{ReasonMap, reasons_of, oldest_first}
use devrelay.Retention.Parents.{retention_reasons}

abbrev pub DeleteMap : Type 0
DeleteMap = List (String × PruningReason)

abbrev pub any_hard : List RetentionKeepReason → Bool
any_hard [] = false
any_hard (r ∷ rs) = is_hard r || any_hard rs

abbrev pub no_reasons : List RetentionKeepReason → Bool
no_reasons [] = true
no_reasons (r ∷ rs) = false

-- The first loop: the snapshots that no reason keeps.
unfoldable pub outside : ReasonMap → List SnapshotRetentionEntry → DeleteMap → DeleteMap
outside reasons [] deletes = deletes
outside reasons (s ∷ ss) deletes = outside reasons ss (
    if no_reasons (reasons_of s.snapshot_id reasons)
    then insert s.snapshot_id outside_retention deletes
    else deletes)

unfoldable pub planned_reclaim_bytes : List SnapshotRetentionEntry → List String → ℕ
unfolding contains
planned_reclaim_bytes [] ids = 0
planned_reclaim_bytes (s ∷ ss) ids =
    ((if contains ids s.snapshot_id then s.estimated_size_bytes else 0)
      + planned_reclaim_bytes ss ids)
    % 2 ^ 64

-- The variables of the second loop.
pub record Pressure : Type 0 where
  pub reasons : ReasonMap
  pub delete_reasons : DeleteMap
  pub planned : ℕ

abbrev pub has_key : String → DeleteMap → Bool
has_key snapshot_id deletes = elim (get snapshot_id deletes) [ none ↦ false | some _ ↦ true ]

-- The body of that loop, without its `break`.
unfoldable pub press_one : PruningReason → SnapshotRetentionEntry → Pressure → Pressure
press_one reason s p =
    if has_key s.snapshot_id p.delete_reasons
    then p
    else if any_hard (reasons_of s.snapshot_id p.reasons)
    then record p { reasons = insert s.snapshot_id (reasons_of s.snapshot_id p.reasons) p.reasons }
    else record {
      reasons = insert s.snapshot_id [] p.reasons;
      delete_reasons = insert s.snapshot_id reason p.delete_reasons;
      planned = saturating_add p.planned s.estimated_size_bytes;
    }

-- Under pressure the oldest snapshots without a hard reason go, until the target is met.
unfoldable pub press :
    (target : ℕ) → PruningReason → List SnapshotRetentionEntry → Pressure → Pressure
unfolding press_one
press target reason [] p = p
press target reason (s ∷ ss) p = elim (leb target p.planned) [
  | true ↦ p
  | false ↦ press target reason ss (press_one reason s p)
]

-- The reason that stands in the decisions of the second loop.
abbrev pub pressure_reason : (quota_overage hard_stop_deficit : ℕ) → PruningReason
pressure_reason quota_overage hard_stop_deficit =
    if leb hard_stop_deficit quota_overage && ltb 0 quota_overage
    then quota_pressure
    else free_disk_pressure

-- What the first loop gives to the second.
unfoldable pub first_choice : ReasonMap → List SnapshotRetentionEntry → Pressure
unfolding outside planned_reclaim_bytes keys
first_choice reasons snapshots =
    let delete_reasons = outside reasons snapshots [] in
    record {
      reasons = reasons;
      delete_reasons = delete_reasons;
      planned = planned_reclaim_bytes snapshots (keys delete_reasons);
    }

-- Both loops.
unfoldable pub choose :
    ReasonMap → List SnapshotRetentionEntry → (quota_overage hard_stop_deficit : ℕ) → Pressure
unfolding first_choice press oldest_first
choose reasons snapshots quota_overage hard_stop_deficit =
    let target = max quota_overage hard_stop_deficit in
    let first = first_choice reasons snapshots in
    elim (ltb first.planned target) [
      | true ↦
          press target (pressure_reason quota_overage hard_stop_deficit) (oldest_first snapshots)
            first
      | false ↦ first
    ]

-- The reasons of a set are already in order, so that sorting them changes nothing.
unfoldable pub decide : Pressure → SnapshotRetentionEntry → PruningDecision
decide p s = record {
  snapshot_id = s.snapshot_id;
  estimated_size_bytes = s.estimated_size_bytes;
  action = elim (get s.snapshot_id p.delete_reasons) [
    | some reason ↦ delete reason
    | none ↦ keep (reasons_of s.snapshot_id p.reasons)
  ];
}

abbrev pub warn : Bool → PruningPlanWarning → List PruningPlanWarning
warn true warning = warning ∷ []
warn false warning = []

abbrev pub reasons_for : PruningPlanInput → ReasonMap
reasons_for input =
    retention_reasons input.snapshots input.policy input.canonical_latest_snapshot_id
      input.handoff_protections input.now_unix_seconds

abbrev pub quota_overage : PruningPlanInput → ℕ
quota_overage input = elim (quota_bytes input.policy input.scope) [
  | none ↦ 0
  | some quota ↦ input.current_usage_bytes - quota
]

abbrev pub hard_stop_deficit : PruningPlanInput → ℕ
hard_stop_deficit input =
    mib_to_bytes input.policy.free_disk_hard_stop_threshold_mib - input.free_disk_bytes

abbrev pub chosen : PruningPlanInput → Pressure
chosen input =
    choose (reasons_for input) input.snapshots (quota_overage input) (hard_stop_deficit input)

unfoldable pub plan_snapshot_pruning : PruningPlanInput → PruningPlan
unfolding choose retention_reasons decide
plan_snapshot_pruning input =
    let target = max (quota_overage input) (hard_stop_deficit input) in
    record {
      scope = input.scope;
      current_usage_bytes = input.current_usage_bytes;
      free_disk_bytes = input.free_disk_bytes;
      target_reclaim_bytes = target;
      planned_reclaim_bytes = (chosen input).planned;
      decisions = map (decide (chosen input)) input.snapshots;
      warnings =
          warn (ltb 0 (quota_overage input)) (quota_exceeded (quota_overage input))
          ++ warn
              (ltb input.free_disk_bytes
                (mib_to_bytes input.policy.free_disk_warning_threshold_mib))
              free_disk_low
          ++ warn (ltb 0 (hard_stop_deficit input)) free_disk_hard_stop
          ++ warn (ltb (chosen input).planned target)
              (insufficient_reclaimable_snapshots (chosen input).planned target);
    }

unfoldable pub delete_snapshot_ids : List PruningDecision → List String
delete_snapshot_ids [] = []
delete_snapshot_ids (d ∷ ds) = elim d.action [
  | delete reason ↦ d.snapshot_id ∷ delete_snapshot_ids ds
  | keep reasons ↦ delete_snapshot_ids ds
]

unfoldable pub protected_snapshot_ids : List PruningDecision → List String
protected_snapshot_ids [] = []
protected_snapshot_ids (d ∷ ds) = elim d.action [
  | delete reason ↦ protected_snapshot_ids ds
  | keep reasons ↦
      let rest = protected_snapshot_ids ds in
      if any_hard reasons then d.snapshot_id ∷ rest else rest
]
