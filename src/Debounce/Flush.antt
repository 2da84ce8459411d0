-- ===== src/Debounce/Flush.antt =====
-- crates/devrelay-core/src/debounce.rs: taking the checkpoints and publishes that are due, or all.
use devrelay.Prelude.{
  ℕ, String, Bool, true, ◌&&◌, Option, none, some, List, [], ◌∷◌, ◌++◌, leb, if◌then◌else◌,
}
use devrelay.Map.{get, keys}
use devrelay.Debounce.{
  BackgroundDebouncePolicy, DebounceFlushReason, elapsed, DebouncedCheckpoint, DebouncedPublish,
  DebounceDrain, WorkspaceDebounceState, AdaptiveDebouncer, is_empty, unwrap_or, put, quiet_window,
  max_dirty_interval, publish_quiet_window, max_publish_interval, sleep_or_lock,
}

-- What `take_checkpoint` does to the workspace that it finds.
abbrev pub checkpoint_taken : {P : Type 0} → ℕ → WorkspaceDebounceState P → WorkspaceDebounceState P
checkpoint_taken now s = record s {
  pending_paths = [];
  first_dirty_at = none;
  last_dirty_event_at = none;
  last_checkpoint_at = some now;
}

abbrev pub checkpoint_of :
    {P : Type 0} → String → DebounceFlushReason → WorkspaceDebounceState P → DebouncedCheckpoint P
checkpoint_of workspace_id reason s = record {
  workspace_id = workspace_id;
  source_generation = s.source_generation;
  reason = reason;
  paths = s.pending_paths;
}

unfoldable pub take_checkpoint :
    {P : Type 0}
    → String
    → (now : ℕ) → DebounceFlushReason
    → AdaptiveDebouncer P
    → Option (DebouncedCheckpoint P) × AdaptiveDebouncer P
take_checkpoint workspace_id now reason d = elim (get workspace_id d.workspaces) [
  | none ↦ (none, d)
  | some s ↦
      if is_empty s.pending_paths
      then (none, d)
      else (some (checkpoint_of workspace_id reason s), put workspace_id (checkpoint_taken now s) d)
]

abbrev pub publish_taken : {P : Type 0} → ℕ → WorkspaceDebounceState P → WorkspaceDebounceState P
publish_taken now s = record s {
  publish_generation = none;
  first_unpublished_at = none;
  last_unpublished_at = none;
  last_publish_at = some now;
}

unfoldable pub take_publish :
    {P : Type 0}
    → String
    → (now : ℕ) → DebounceFlushReason
    → AdaptiveDebouncer P
    → Option DebouncedPublish × AdaptiveDebouncer P
take_publish workspace_id now reason d = elim (get workspace_id d.workspaces) [
  | none ↦ (none, d)
  | some s ↦ elim s.publish_generation [
    | none ↦ (none, d)
    | some generation ↦ (
      some
          (record { workspace_id = workspace_id; source_generation = generation; reason = reason }),
      put workspace_id (publish_taken now s) d,
    )
  ]
]

-- The tests of `take_due_checkpoint`: the reason to flush now, if there is one.
unfoldable pub checkpoint_reason :
    {P : Type 0}
    → BackgroundDebouncePolicy
    → (now : ℕ) → WorkspaceDebounceState P
    → Option DebounceFlushReason
checkpoint_reason policy now s = if is_empty s.pending_paths then none else elim s.first_dirty_at [
  | none ↦ none
  | some first_dirty_at ↦
      let last_dirty_event_at = unwrap_or s.last_dirty_event_at first_dirty_at in
      let min_interval_satisfied : Bool = elim s.last_checkpoint_at [
        | none ↦ true
        | some last ↦ leb policy.min_checkpoint_interval (elapsed now last)
      ] in
      if leb policy.max_dirty_interval (elapsed now first_dirty_at)
      then some max_dirty_interval
      else if leb policy.first_event_quiet (elapsed now last_dirty_event_at)
          && min_interval_satisfied
      then some quiet_window
      else none
]

unfoldable pub take_due_checkpoint :
    {P : Type 0}
    → String
    → (now : ℕ) → AdaptiveDebouncer P
    → Option (DebouncedCheckpoint P) × AdaptiveDebouncer P
unfolding checkpoint_reason take_checkpoint
take_due_checkpoint workspace_id now d = elim (get workspace_id d.workspaces) [
  | none ↦ (none, d)
  | some s ↦ elim (checkpoint_reason d.policy now s) [
    | none ↦ (none, d)
    | some reason ↦ take_checkpoint workspace_id now reason d
  ]
]

-- The tests of `take_due_publish`.
unfoldable pub publish_reason :
    {P : Type 0}
    → BackgroundDebouncePolicy
    → (now : ℕ) → WorkspaceDebounceState P
    → Option DebounceFlushReason
publish_reason policy now s = elim s.publish_generation [
  | none ↦ none
  | some _ ↦ elim s.first_unpublished_at [
    | none ↦ none
    | some first_unpublished_at ↦
        let last_unpublished_at = unwrap_or s.last_unpublished_at first_unpublished_at in
        if leb policy.max_publish_interval (elapsed now first_unpublished_at)
        then some max_publish_interval
        else if leb policy.publish_quiet (elapsed now last_unpublished_at)
        then some publish_quiet_window
        else none
  ]
]

unfoldable pub take_due_publish :
    {P : Type 0}
    → String
    → (now : ℕ) → AdaptiveDebouncer P
    → Option DebouncedPublish × AdaptiveDebouncer P
unfolding publish_reason take_publish
take_due_publish workspace_id now d = elim (get workspace_id d.workspaces) [
  | none ↦ (none, d)
  | some s ↦ elim (publish_reason d.policy now s) [
    | none ↦ (none, d)
    | some reason ↦ take_publish workspace_id now reason d
  ]
]

abbrev pub push : {A : Type 0} → Option A → List A → List A
push none l = l
push (some a) l = l ++ a ∷ []

-- The loops of `drain_due` and `flush_all`, over the keys that were there at the start.
unfoldable pub drain_keys :
    {P : Type 0}
    → (now : ℕ) → List String
    → AdaptiveDebouncer P
    → DebounceDrain P
    → DebounceDrain P × AdaptiveDebouncer P
unfolding take_due_checkpoint take_due_publish
drain_keys now [] d drain = (drain, d)
drain_keys now (w ∷ ws) d drain =
    let (checkpoint, d') = take_due_checkpoint w now d in
    let (publish, d'') = take_due_publish w now d' in
    drain_keys now ws d'' (record {
      checkpoints = push checkpoint drain.checkpoints;
      publishes = push publish drain.publishes;
    })

abbrev pub empty_drain : {P : Type 0} → DebounceDrain P
empty_drain = record { checkpoints = []; publishes = [] }

unfoldable pub drain_due :
    {P : Type 0} → (now : ℕ) → AdaptiveDebouncer P → DebounceDrain P × AdaptiveDebouncer P
unfolding drain_keys keys
drain_due now d = drain_keys now (keys d.workspaces) d empty_drain

unfoldable pub flush_keys :
    {P : Type 0}
    → (now : ℕ) → DebounceFlushReason
    → List String
    → AdaptiveDebouncer P
    → DebounceDrain P
    → DebounceDrain P × AdaptiveDebouncer P
unfolding take_checkpoint take_publish
flush_keys now reason [] d drain = (drain, d)
flush_keys now reason (w ∷ ws) d drain =
    let (checkpoint, d') = take_checkpoint w now reason d in
    let (publish, d'') = take_publish w now reason d' in
    flush_keys now reason ws d'' (record {
      checkpoints = push checkpoint drain.checkpoints;
      publishes = push publish drain.publishes;
    })

unfoldable pub flush_all :
    {P : Type 0}
    → (now : ℕ) → DebounceFlushReason
    → AdaptiveDebouncer P
    → DebounceDrain P × AdaptiveDebouncer P
unfolding flush_keys keys
flush_all now reason d = flush_keys now reason (keys d.workspaces) d empty_drain

unfoldable pub flush_for_sleep_or_lock :
    {P : Type 0} → (now : ℕ) → AdaptiveDebouncer P → DebounceDrain P × AdaptiveDebouncer P
unfolding flush_all
flush_for_sleep_or_lock now d = flush_all now sleep_or_lock d
