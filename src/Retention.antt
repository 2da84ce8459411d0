-- ===== src/Retention.antt =====
-- crates/devrelay-core/src/retention.rs: which snapshots of a cache may be deleted. The planner's data
-- types and its byte arithmetic on u64; the children are its parts.
pub mod Reasons
pub mod Parents
pub mod Plan
mod Scenarios
use Prim.Native.Nat.{compare, Ordering}
use devrelay.Prelude.{
  ℕ, ◌*◌, ◌+◌, ◌%◌, ◌^◌, String, Bool, true, false, Option, none, some, List, ltb, ◌==◌,
  if◌then◌else◌,
}
use devrelay.Prelude.Int.{ℤ, u64_max, saturating_add}

pub data PruningScope : Type 0 where
  device_cache anchor_project : PruningScope

pub record RetentionPolicy : Type 0 where
  pub hot_snapshot_count : ℕ
  pub hourly_thinning_hours : ℕ
  pub daily_thinning_days : ℕ
  pub handoff_protection_seconds : ℕ
  pub device_cache_quota_mib : Option ℕ
  pub anchor_project_quota_mib : Option ℕ
  pub free_disk_warning_threshold_mib : ℕ
  pub free_disk_hard_stop_threshold_mib : ℕ

abbrev pub seconds_per_hour : ℕ
seconds_per_hour = 3600

abbrev pub seconds_per_day : ℕ
seconds_per_day = 86400

-- `RetentionPolicy::default()`.
abbrev pub default_policy : RetentionPolicy
default_policy = record {
  hot_snapshot_count = 5;
  hourly_thinning_hours = 24;
  daily_thinning_days = 14;
  handoff_protection_seconds = seconds_per_day;
  device_cache_quota_mib = none;
  anchor_project_quota_mib = none;
  free_disk_warning_threshold_mib = 1024;
  free_disk_hard_stop_threshold_mib = 256;
}

-- A product of u64 values in a release build, where it wraps around.
abbrev pub mul_u64 : ℕ → ℕ → ℕ
mul_u64 a b = (a * b) % 2 ^ 64

-- `value.saturating_mul(MIB)`.
abbrev pub mib_to_bytes : ℕ → ℕ
mib_to_bytes value = let bytes = value * 1_048_576 in if ltb u64_max bytes then u64_max else bytes

abbrev pub quota_bytes : RetentionPolicy → PruningScope → Option ℕ
quota_bytes policy device_cache = elim policy.device_cache_quota_mib [
  | none ↦ none
  | some quota ↦ some (mib_to_bytes quota)
]
quota_bytes policy anchor_project = elim policy.anchor_project_quota_mib [
  | none ↦ none
  | some quota ↦ some (mib_to_bytes quota)
]

pub record SnapshotRetentionEntry : Type 0 where
  pub snapshot_id : String
  pub parent_snapshot_id : Option String
  pub sequence_number : ℤ
  pub pinned : Bool
  pub created_at_unix_seconds : ℕ
  pub estimated_size_bytes : ℕ

pub record HandoffSnapshotProtection : Type 0 where
  pub snapshot_id : String
  pub protect_until_unix_seconds : ℕ

-- `RetentionPolicy::handoff_protection`.
abbrev pub handoff_protection : RetentionPolicy → String → ℕ → HandoffSnapshotProtection
handoff_protection policy snapshot_id protected_at_unix_seconds = record {
  snapshot_id = snapshot_id;
  protect_until_unix_seconds =
      saturating_add protected_at_unix_seconds policy.handoff_protection_seconds;
}

pub data RetentionKeepReason : Type 0 where
  canonical_latest is_pinned handoff_protected retained_parent hot_snapshot hourly_thinning
        daily_thinning :
      RetentionKeepReason

abbrev pub is_hard : RetentionKeepReason → Bool
is_hard canonical_latest = true
is_hard is_pinned = true
is_hard handoff_protected = true
is_hard retained_parent = true
is_hard hot_snapshot = false
is_hard hourly_thinning = false
is_hard daily_thinning = false

-- The place of a reason in the derived order.
abbrev pub rank : RetentionKeepReason → ℕ
rank canonical_latest = 0
rank is_pinned = 1
rank handoff_protected = 2
rank retained_parent = 3
rank hot_snapshot = 4
rank hourly_thinning = 5
rank daily_thinning = 6

abbrev pub reason_order : RetentionKeepReason → RetentionKeepReason → Ordering
reason_order a b = compare (rank a) (rank b)

pub data PruningReason : Type 0 where
  outside_retention quota_pressure free_disk_pressure : PruningReason

pub data PruningDecisionAction : Type 0 where
  keep : (reasons : List RetentionKeepReason) → PruningDecisionAction
  delete : (reason : PruningReason) → PruningDecisionAction

pub record PruningDecision : Type 0 where
  pub snapshot_id : String
  pub estimated_size_bytes : ℕ
  pub action : PruningDecisionAction

-- A warning's code with the numbers that its message prints.
pub data PruningPlanWarning : Type 0 where
  quota_exceeded : (overage : ℕ) → PruningPlanWarning
  free_disk_low free_disk_hard_stop : PruningPlanWarning
  insufficient_reclaimable_snapshots : (planned target : ℕ) → PruningPlanWarning

pub record PruningPlan : Type 0 where
  pub scope : PruningScope
  pub current_usage_bytes : ℕ
  pub free_disk_bytes : ℕ
  pub target_reclaim_bytes : ℕ
  pub planned_reclaim_bytes : ℕ
  pub decisions : List PruningDecision
  pub warnings : List PruningPlanWarning

pub record PruningPlanInput : Type 0 where
  pub snapshots : List SnapshotRetentionEntry
  pub policy : RetentionPolicy
  pub scope : PruningScope
  pub canonical_latest_snapshot_id : Option String
  pub handoff_protections : List HandoffSnapshotProtection
  pub current_usage_bytes : ℕ
  pub free_disk_bytes : ℕ
  pub now_unix_seconds : ℕ
