-- ===== src/Lease/Scenarios.antt =====
-- One lease from handoff to archive: the theorems of `Transitions` at concrete records.
use devrelay.Prelude.{ℕ, ◌<◌, ◌≡◌, ◌↔◌, refl, String, none, some}
use devrelay.Lease.{
  LeaseState, active, handoff_pending, committing, archived, LeaseRecord, validate_transition_to,
}
use devrelay.Lease.Transitions.{
  History, start, change, Continues, History-Continues, validate-commit,
}

abbrev version : LeaseState → ℕ → LeaseRecord
version state epoch = record {
  lease_id = "lease-1";
  project_id = "project-1";
  session_id = "session-1";
  state = state;
  epoch = epoch;
  holder_device_id = some "device-a";
  latest_snapshot_id = some "s1_initial";
  handoff_id = none;
}

whole_life : History (version active 1) (version archived 2)
unfolding validate_transition_to
whole_life =
    change {b = version active 2}
      (change {b = version committing 1}
        (change {b = version handoff_pending 1}
          (change {b = version active 1} (start (version active 1)) refl) refl)
        refl)
      refl

History-Continues_example : Continues (version active 1) (version archived 2)
History-Continues_example = History-Continues whole_life

validate-commit_example :
    (validate_transition_to (version committing 1) (version active 2) ≡ none) ↔ (
      ◌≡◌ {A = String} "lease-1" "lease-1"
      × ◌≡◌ {A = String} "project-1" "project-1"
      × ◌≡◌ {A = String} "session-1" "session-1"
      × (1 < 2))
validate-commit_example = validate-commit (version committing 1) (version active 2) refl refl
