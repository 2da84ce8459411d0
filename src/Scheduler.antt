-- ===== src/Scheduler.antt =====
-- crates/devrelay-core/src/scheduler_constraints.rs: which devices may run a task. `glob pattern text` is
-- what the globset package answers: the pattern compiles and matches the text.
pub mod Eligible
mod Scenarios
use Prim.Native.String.{String, compare, ◌++◌ as ◌<>◌}
use Prim.Native.Char.{code}
use Prim.Native.Nat.{Ordering}
use devrelay.Prelude.{
  ℕ, Bool, true, false, not, ◌&&◌, ◌||◌, Option, none, some, List, [], ◌∷◌, ◌++◌, ltb, ◌==◌, ◌is◌,
  if◌then◌else◌,
}
use devrelay.Map.{contains}

pub record SchedulerDevicePolicy : Type 0 where
  pub allow_task_execution : Bool
  pub reason : Option String

-- The part of `SchedulerDynamicResources` that the constraints read.
pub record SchedulerDynamicResources : Type 0 where
  pub memory_free_mib : Option ℕ
  pub disk_free_mib : Option ℕ

-- The part of `SchedulerDeviceSnapshot` that the constraints read.
pub record SchedulerDeviceSnapshot : Type 0 where
  pub device_id : String
  pub platform_key : String
  pub cpu_cores : ℕ
  pub memory_total_mib : Option ℕ
  pub disk_total_mib : Option ℕ
  pub features : List String
  pub policy : SchedulerDevicePolicy
  pub dynamic : SchedulerDynamicResources

-- The part of `TaskDefinition` that the constraints read.
pub record TaskDefinition : Type 0 where
  pub platforms : List String
  pub features : List String
  pub cpu : Option ℕ
  pub memory_mib : Option ℕ
  pub disk_mib : Option ℕ

pub data SchedulerConstraintRejection : Type 0 where
  incompatible_platform : (actual : String) (required : List String) → SchedulerConstraintRejection
  missing : (features : List String) → SchedulerConstraintRejection
  insufficient_cpu : (required_cores available_cores : ℕ) → SchedulerConstraintRejection
  insufficient_memory :
      (required_mib : ℕ) (available_mib capacity_mib : Option ℕ) → SchedulerConstraintRejection
  insufficient_disk :
      (required_mib : ℕ) (available_mib capacity_mib : Option ℕ) → SchedulerConstraintRejection
  policy_disallowed : (reason : Option String) → SchedulerConstraintRejection

pub record SchedulerConstraintDecision : Type 0 where
  pub device_id : String
  pub eligible : Bool
  pub rejections : List SchedulerConstraintRejection

unfoldable pub resource_is_insufficient : ℕ → Option ℕ → Option ℕ → Bool
resource_is_insufficient required_mib (some available_mib) capacity_mib =
    ltb available_mib required_mib
resource_is_insufficient required_mib none none = true
resource_is_insufficient required_mib none (some capacity_mib) = ltb capacity_mib required_mib

-- `sort` of texts, by their code points.
unfoldable pub place : String → List String → List String
place s [] = s ∷ []
place s (t ∷ ts) = elim (compare t s) [ Ordering.lt ↦ t ∷ place s ts | _ ↦ s ∷ t ∷ ts ]

unfoldable pub sort : List String → List String
unfolding place
sort [] = []
sort (s ∷ ss) = place s (sort ss)

unfoldable pub lacking : List String → (actual : List String) → List String
unfolding contains
lacking [] actual = []
lacking (feature ∷ required) actual =
    let rest = lacking required actual in if contains actual feature then rest else feature ∷ rest

unfoldable pub missing_features : (required actual : List String) → List String
unfolding sort lacking
missing_features required actual = sort (lacking required actual)

-- `text.starts_with(start)`.
unfoldable pub starts_with : (text start : String) → Bool
starts_with text String.[] = true
starts_with String.[] (String.◌∷◌ c start) = false
starts_with (String.◌∷◌ d text) (String.◌∷◌ c start) = (code d == code c) && starts_with text start

-- One rejection if the test holds.
abbrev pub reject : Bool → SchedulerConstraintRejection → List SchedulerConstraintRejection
reject true rejection = rejection ∷ []
reject false rejection = []

abbrev pub is_empty : {A : Type 0} → List A → Bool
is_empty [] = true
is_empty (x ∷ xs) = false

module _ (glob : String → String → Bool) where
  unfoldable pub platform_pattern_matches : (pattern_text actual : String) → Bool
  unfolding starts_with
  platform_pattern_matches pattern_text actual =
      (pattern_text is actual)
      || starts_with actual (pattern_text <> "-")
      || glob pattern_text actual

  unfoldable pub any_matches : List String → String → Bool
  unfolding platform_pattern_matches
  any_matches [] actual = false
  any_matches (p ∷ ps) actual = platform_pattern_matches p actual || any_matches ps actual

  -- `rejections.push(...)` in the order of the code.
  unfoldable pub rejections_of :
      TaskDefinition → SchedulerDeviceSnapshot → List SchedulerConstraintRejection
  unfolding any_matches missing_features resource_is_insufficient
  rejections_of definition device =
      let lacks = missing_features definition.features device.features in
      reject (not device.policy.allow_task_execution) (policy_disallowed device.policy.reason)
      ++ reject
          (not (is_empty definition.platforms)
            && not (any_matches definition.platforms device.platform_key))
          (incompatible_platform device.platform_key definition.platforms)
      ++ reject (not (is_empty lacks)) (missing lacks)
      ++ (elim definition.cpu [
        | none ↦ []
        | some required_cores ↦
            reject (ltb device.cpu_cores required_cores)
              (insufficient_cpu required_cores device.cpu_cores)
      ])
      ++ (elim definition.memory_mib [
        | none ↦ []
        | some required_mib ↦
            reject
              (resource_is_insufficient required_mib device.dynamic.memory_free_mib
                device.memory_total_mib)
              (insufficient_memory required_mib device.dynamic.memory_free_mib
                device.memory_total_mib)
      ])
      ++ (elim definition.disk_mib [
        | none ↦ []
        | some required_mib ↦
            reject
              (ltb 0 required_mib
                && resource_is_insufficient required_mib device.dynamic.disk_free_mib
                    device.disk_total_mib)
              (insufficient_disk required_mib device.dynamic.disk_free_mib device.disk_total_mib)
      ])

  unfoldable pub evaluate_scheduler_constraints :
      TaskDefinition → SchedulerDeviceSnapshot → SchedulerConstraintDecision
  unfolding rejections_of
  evaluate_scheduler_constraints definition device = record {
    device_id = device.device_id;
    eligible = is_empty (rejections_of definition device);
    rejections = rejections_of definition device;
  }

  unfoldable pub filter_scheduler_candidates :
      TaskDefinition → List SchedulerDeviceSnapshot → List SchedulerConstraintDecision
  unfolding evaluate_scheduler_constraints
  filter_scheduler_candidates definition [] = []
  filter_scheduler_candidates definition (device ∷ devices) =
      let rest = filter_scheduler_candidates definition devices in
      let decision = evaluate_scheduler_constraints definition device in
      if decision.eligible then decision ∷ rest else rest
