-- ===== src/Handoff.antt =====
-- crates/devrelay-core/src/handoff.rs: the states of a handoff, the phases of its journal, and the
-- records that callers get.
pub mod Codec
use devrelay.Prelude.{ℕ, String, Bool, true, false, ◌is◌, if◌then◌else◌}

pub data HandoffState : Type 0 where
  target_prepare target_verified source_ready committed aborted : HandoffState

unfoldable pub as_str : HandoffState → String
as_str target_prepare = "target-prepare"
as_str target_verified = "target-verified"
as_str source_ready = "source-ready"
as_str committed = "committed"
as_str aborted = "aborted"

-- The last arm makes any other text `target_prepare`.
unfoldable pub parse : String → HandoffState
parse value =
    if value is "target-verified"
    then target_verified
    else if value is "source-ready"
    then source_ready
    else if value is "committed"
    then committed
    else if value is "aborted"
    then aborted
    else target_prepare

unfoldable pub is_terminal : HandoffState → Bool
is_terminal committed = true
is_terminal aborted = true
is_terminal _ = false

abbrev pub same_state : HandoffState → HandoffState → Bool
same_state target_prepare target_prepare = true
same_state target_verified target_verified = true
same_state source_ready source_ready = true
same_state committed committed = true
same_state aborted aborted = true
same_state _ _ = false

pub data HandoffJournalPhase : Type 0 where
  begin prepare apply verified ready lease_committed abort : HandoffJournalPhase

unfoldable pub phase_as_str : HandoffJournalPhase → String
phase_as_str begin = "begin"
phase_as_str prepare = "target-prepare"
phase_as_str apply = "target-apply"
phase_as_str verified = "target-verified"
phase_as_str ready = "source-ready"
phase_as_str lease_committed = "lease-committed"
phase_as_str abort = "aborted"

unfoldable pub parse_phase : String → HandoffJournalPhase
parse_phase value =
    if value is "target-prepare"
    then prepare
    else if value is "target-apply"
    then apply
    else if value is "target-verified"
    then verified
    else if value is "source-ready"
    then ready
    else if value is "lease-committed"
    then lease_committed
    else if value is "aborted"
    then abort
    else begin

pub record HandoffRecord : Type 0 where
  pub handoff_id : String
  pub lease_id : String
  pub project_id : String
  pub expected_epoch : ℕ  -- u64
  pub source_device_id : String
  pub target_device_id : String
  pub source_generation : String
  pub expires_at_unix_seconds : ℕ  -- u64
  pub state : HandoffState

pub record HandoffJournalRecord : Type 0 where
  pub journal_id : ℕ  -- i64, from 1 on
  pub handoff_id : String
  pub lease_id : String
  pub project_id : String
  pub phase : HandoffJournalPhase
  pub detail_json : String
  pub created_at_unix_seconds : ℕ  -- u64

pub data HandoffRecoveryOutcome : Type 0 where
  waiting_for_target handoff_committed aborted_expired already_committed already_aborted :
      HandoffRecoveryOutcome
