-- ===== src/Lease.antt =====
-- crates/devrelay-core/src/lease.rs: the states of a lease, the transitions between them, and the
-- check of one record against the next. `storage.rs` reads the state back from its text.
pub mod Transitions
mod Scenarios
use devrelay.Prelude.{
  ℕ, String, Bool, true, false, ◌&&◌, not, Option, none, some, ltb, ◌==◌, ◌is◌, if◌then◌else◌,
}

pub data LeaseState : Type 0 where
  active handoff_pending committing inactive forked archived : LeaseState

unfoldable pub as_str : LeaseState → String
as_str active = "active"
as_str handoff_pending = "handoff-pending"
as_str committing = "committing"
as_str inactive = "inactive"
as_str forked = "forked"
as_str archived = "archived"

-- The last arm makes any other text `active`.
unfoldable pub parse_lease_state : String → LeaseState
parse_lease_state value =
    if value is "handoff-pending"
    then handoff_pending
    else if value is "committing"
    then committing
    else if value is "inactive"
    then inactive
    else if value is "forked"
    then forked
    else if value is "archived"
    then archived
    else active

-- `==` of the derived `PartialEq`.
abbrev pub same_state : LeaseState → LeaseState → Bool
same_state active active = true
same_state handoff_pending handoff_pending = true
same_state committing committing = true
same_state inactive inactive = true
same_state forked forked = true
same_state archived archived = true
same_state _ _ = false

unfoldable pub can_transition_to : LeaseState → LeaseState → Bool
can_transition_to active active = true
can_transition_to active handoff_pending = true
can_transition_to active committing = true
can_transition_to active inactive = true
can_transition_to active archived = true
can_transition_to handoff_pending active = true
can_transition_to handoff_pending handoff_pending = true
can_transition_to handoff_pending committing = true
can_transition_to handoff_pending archived = true
can_transition_to committing active = true
can_transition_to committing committing = true
can_transition_to committing inactive = true
can_transition_to inactive inactive = true
can_transition_to inactive forked = true
can_transition_to inactive archived = true
can_transition_to forked forked = true
can_transition_to forked archived = true
can_transition_to archived archived = true
can_transition_to _ _ = false

pub record LeaseRecord : Type 0 where
  pub lease_id : String
  pub project_id : String
  pub session_id : String
  pub state : LeaseState
  pub epoch : ℕ  -- u64
  pub holder_device_id : Option String
  pub latest_snapshot_id : Option String
  pub handoff_id : Option String

-- The errors of `validate_transition_to`, one for each message.
pub data TransitionError : Type 0 where
  changes_lease_id changes_project_id changes_session_id : TransitionError
  illegal_transition : LeaseState → LeaseState → TransitionError
  epoch_decreases : ℕ → ℕ → TransitionError
  epoch_not_incremented : TransitionError

-- `none` is `Ok(())`.
unfoldable pub validate_transition_to : LeaseRecord → LeaseRecord → Option TransitionError
unfolding can_transition_to
validate_transition_to self next =
    if not (self.lease_id is next.lease_id)
    then some changes_lease_id
    else if not (self.project_id is next.project_id)
    then some changes_project_id
    else if not (self.session_id is next.session_id)
    then some changes_session_id
    else if not (can_transition_to self.state next.state)
    then some (illegal_transition self.state next.state)
    else if ltb next.epoch self.epoch
    then some (epoch_decreases self.epoch next.epoch)
    else if same_state self.state committing
        && same_state next.state active
        && next.epoch == self.epoch
    then some epoch_not_incremented
    else none
