-- ===== src/Scheduler/Scenarios.antt =====
-- A task with demands, and two devices of which one is too small.
use devrelay.Prelude.{◌≡◌, String, Bool, true, none, some, List, [], ◌∷◌, ◌is◌, ℕ}
use devrelay.Map.Laws.{Has}
use devrelay.Scheduler.{
  TaskDefinition, SchedulerDeviceSnapshot, SchedulerConstraintDecision,
  evaluate_scheduler_constraints, filter_scheduler_candidates,
}
use devrelay.Scheduler.Eligible.{
  satisfies, evaluate_scheduler_constraints-eligible, filter_scheduler_candidates-satisfies,
}

-- Patterns without wildcards.
abbrev glob : String → String → Bool
glob text actual = text is actual

abbrev build : TaskDefinition
build = record {
  platforms = "linux" ∷ [];
  features = [];
  cpu = some 4;
  memory_mib = some 2048;
  disk_mib = none;
}

abbrev device : String → ℕ → SchedulerDeviceSnapshot
device device_id cpu_cores = record {
  device_id = device_id;
  platform_key = "linux";
  cpu_cores = cpu_cores;
  memory_total_mib = some 8192;
  disk_total_mib = none;
  features = [];
  policy = record { allow_task_execution = true; reason = none };
  dynamic = record { memory_free_mib = none; disk_free_mib = none };
}

abbrev fleet : List SchedulerDeviceSnapshot
fleet = device "small" 2 ∷ device "large" 8 ∷ []

evaluate_scheduler_constraints-eligible_example :
    (evaluate_scheduler_constraints glob build (device "large" 8)).eligible
    ≡ satisfies glob build (device "large" 8)
evaluate_scheduler_constraints-eligible_example =
    evaluate_scheduler_constraints-eligible glob build (device "large" 8)

filter_scheduler_candidates-satisfies_example :
    ((c : SchedulerConstraintDecision)
      → Has c (filter_scheduler_candidates glob build fleet)
      → (d : SchedulerDeviceSnapshot) × Has d fleet
        × (satisfies glob build d ≡ true)
        × (c ≡ evaluate_scheduler_constraints glob build d))
    × ((d : SchedulerDeviceSnapshot)
        → Has d fleet
        → satisfies glob build d ≡ true
        → Has
            (evaluate_scheduler_constraints glob build d)
            (filter_scheduler_candidates glob build fleet))
filter_scheduler_candidates-satisfies_example =
    filter_scheduler_candidates-satisfies glob build fleet
