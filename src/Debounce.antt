-- ===== src/Debounce.antt =====
-- crates/devrelay-core/src/debounce.rs: when background checkpoints and publishes of a workspace are
-- due. A `Duration` is its number of nanoseconds; a path is any type with an order.
pub mod Flush
pub mod Drain
pub mod Taken
pub mod Flushed
pub mod Keep
mod Scenarios
use Prim.Native.Nat.{Ordering}
use devrelay.Prelude.{
  ℕ, ◌-◌, ◌*◌, String, Bool, true, false, ◌&&◌, Option, none, some, List, [], ◌∷◌, ◌++◌, leb, max,
  if◌then◌else◌,
}
use devrelay.Map.{get, insert, keys, extend}

pub record BackgroundDebouncePolicy : Type 0 where
  pub first_event_quiet : ℕ
  pub min_checkpoint_interval : ℕ
  pub max_dirty_interval : ℕ
  pub publish_quiet : ℕ
  pub max_publish_interval : ℕ

abbrev pub from_secs : ℕ → ℕ
from_secs n = n * 1_000_000_000

-- `BackgroundDebouncePolicy::default()`.
abbrev pub default_policy : BackgroundDebouncePolicy
default_policy = record {
  first_event_quiet = from_secs 2;
  min_checkpoint_interval = from_secs 30;
  max_dirty_interval = from_secs (5 * 60);
  publish_quiet = from_secs 10;
  max_publish_interval = from_secs (2 * 60);
}

pub data DebounceFlushReason : Type 0 where
  quiet_window max_dirty_interval publish_quiet_window max_publish_interval explicit_checkpoint
        handoff sleep_or_lock :
      DebounceFlushReason

-- `now.checked_sub(then).unwrap_or_default()`: 0 if the clock went back.
abbrev pub elapsed : ℕ → ℕ → ℕ
elapsed now since = now - since

pub record DebouncedCheckpoint (P : Type 0) : Type 0 where
  pub workspace_id : String
  pub source_generation : ℕ
  pub reason : DebounceFlushReason
  pub paths : List P

pub record DebouncedPublish : Type 0 where
  pub workspace_id : String
  pub source_generation : ℕ
  pub reason : DebounceFlushReason

pub record DebounceDrain (P : Type 0) : Type 0 where
  pub checkpoints : List (DebouncedCheckpoint P)
  pub publishes : List DebouncedPublish

pub record WorkspaceDebounceState (P : Type 0) : Type 0 where
  pub pending_paths : List P
  pub source_generation : ℕ
  pub first_dirty_at : Option ℕ
  pub last_dirty_event_at : Option ℕ
  pub last_checkpoint_at : Option ℕ
  pub publish_generation : Option ℕ
  pub first_unpublished_at : Option ℕ
  pub last_unpublished_at : Option ℕ
  pub last_publish_at : Option ℕ

pub record AdaptiveDebouncer (P : Type 0) : Type 0 where
  pub policy : BackgroundDebouncePolicy
  pub workspaces : List (String × WorkspaceDebounceState P)

-- The part of `CoalescedWorkspaceChange` (watcher.rs) that the debouncer reads.
pub record CoalescedWorkspaceChange (P : Type 0) : Type 0 where
  pub workspace_id : String
  pub source_generation : ℕ
  pub paths : List P

abbrev pub is_empty : {A : Type 0} → List A → Bool
is_empty [] = true
is_empty (x ∷ xs) = false

abbrev pub unwrap_or : {A : Type 0} → Option A → A → A
unwrap_or none a = a
unwrap_or (some b) a = b

-- `WorkspaceDebounceState::default()`.
abbrev pub default_state : {P : Type 0} → WorkspaceDebounceState P
default_state = record {
  pending_paths = [];
  source_generation = 0;
  first_dirty_at = none;
  last_dirty_event_at = none;
  last_checkpoint_at = none;
  publish_generation = none;
  first_unpublished_at = none;
  last_unpublished_at = none;
  last_publish_at = none;
}

abbrev pub new : {P : Type 0} → BackgroundDebouncePolicy → AdaptiveDebouncer P
new policy = record { policy = policy; workspaces = [] }

-- `self.workspaces.entry(id).or_default()`.
abbrev pub entry : {P : Type 0} → String → AdaptiveDebouncer P → WorkspaceDebounceState P
entry workspace_id d = unwrap_or (get workspace_id d.workspaces) default_state

-- `*state = ...` through the reference that `entry` or `get_mut` gave.
abbrev pub put :
    {P : Type 0} → String → WorkspaceDebounceState P → AdaptiveDebouncer P → AdaptiveDebouncer P
put workspace_id s d = record d { workspaces = insert workspace_id s d.workspaces }

-- What `observe_change` makes of the workspace's state; the paths are ordered by `order`.
abbrev pub observed :
    {P : Type 0} (order : P → P → Ordering)
    → CoalescedWorkspaceChange P
    → (now : ℕ) → WorkspaceDebounceState P
    → WorkspaceDebounceState P
observed order change now s = record s {
  first_dirty_at = some (unwrap_or s.first_dirty_at now);
  last_dirty_event_at = some now;
  source_generation = max s.source_generation change.source_generation;
  pending_paths = extend order s.pending_paths change.paths;
}

unfoldable pub observe_change :
    {P : Type 0} (order : P → P → Ordering)
    → CoalescedWorkspaceChange P
    → (now : ℕ) → AdaptiveDebouncer P
    → AdaptiveDebouncer P
unfolding extend
observe_change order change now d =
    if is_empty change.paths
    then d
    else put change.workspace_id (observed order change now (entry change.workspace_id d)) d

unfoldable pub record_checkpoint_completed :
    {P : Type 0} → String → (source_generation now : ℕ) → AdaptiveDebouncer P → AdaptiveDebouncer P
record_checkpoint_completed workspace_id source_generation now d =
    let s = entry workspace_id d in
    put workspace_id
      (record s {
        first_unpublished_at = some (unwrap_or s.first_unpublished_at now);
        last_unpublished_at = some now;
        publish_generation = some (max (unwrap_or s.publish_generation 0) source_generation);
      })
      d
