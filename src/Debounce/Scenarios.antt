-- ===== src/Debounce/Scenarios.antt =====
-- A debouncer in use: the properties of the debouncer at one run.
use Prim.Native.String.{compare}
use text.Mathlib.TextEquality.{path_by_compare}
use devrelay.Prelude.{
  ℕ, ◌-◌, ◌*◌, ◌≤◌, ◌<◌, ◌≡◌, ◌⊎◌, refl, String, Option, none, some, [], ◌∷◌, inl,
}
use devrelay.Sql.{filter}
use devrelay.Map.{get, insert, add, extend, keys}
use devrelay.Map.Laws.{Has, extend-ne-nil}
use devrelay.Debounce.{
  AdaptiveDebouncer, WorkspaceDebounceState, CoalescedWorkspaceChange, default_policy, new,
  from_secs, observe_change, observed, default_state, sleep_or_lock,
}
use devrelay.Debounce.Flush.{
  drain_due, flush_all, drain_keys, take_due_checkpoint, take_due_publish, take_checkpoint,
  take_publish, checkpoint_reason, publish_reason,
}
use devrelay.Debounce.Taken.{checkpoint_for, publish_for}
use devrelay.Debounce.Flushed.{pending_checkpoints, pending_publishes, flush_all-takes}
use devrelay.Debounce.Drain.{drain_due-done, drain_due-bound}
use devrelay.Debounce.Keep.{observe_change-IsPending, drain_due-keeps, IsPending, IsTaken}

abbrev saved : CoalescedWorkspaceChange String
saved = record { workspace_id = "w1"; source_generation = 4; paths = "src/main.rs" ∷ [] }

abbrev later : CoalescedWorkspaceChange String
later = record { workspace_id = "w1"; source_generation = 5; paths = "src/lib.rs" ∷ [] }

-- A file is saved a second after the start.
abbrev dirty : AdaptiveDebouncer String
dirty = observe_change compare saved (from_secs 1) (new default_policy)

abbrev waiting : WorkspaceDebounceState String
waiting = observed compare saved (from_secs 1) default_state

dirty-waiting : get "w1" (drain_due (from_secs 2) dirty).1.workspaces ≡ some waiting
unfolding drain_due drain_keys take_due_checkpoint take_due_publish checkpoint_reason publish_reason
    observe_change extend add get insert keys take_checkpoint take_publish
dirty-waiting = refl

dirty-IsPending : IsPending "src/main.rs" (get "w1" dirty.workspaces)
unfolding observe_change extend add get insert
dirty-IsPending = inl refl

-- A flush takes it at once.
flush_all-takes_example :
    let (drain, after) = flush_all (from_secs 2) sleep_or_lock dirty in
    (filter (checkpoint_for "w1") drain.checkpoints
      ≡ pending_checkpoints sleep_or_lock "w1" (get "w1" dirty.workspaces))
    × (filter (publish_for "w1") drain.publishes
        ≡ pending_publishes sleep_or_lock "w1" (get "w1" dirty.workspaces))
    × ((s : WorkspaceDebounceState String)
        → get "w1" after.workspaces ≡ some s
        → (s.pending_paths ≡ []) × (s.publish_generation ≡ none))
flush_all-takes_example = flush_all-takes "w1" (from_secs 2) sleep_or_lock dirty

drain_due-done_example :
    (checkpoint_reason dirty.policy (from_secs 2) waiting ≡ none)
    × (publish_reason dirty.policy (from_secs 2) waiting ≡ none)
drain_due-done_example = drain_due-done "w1" (from_secs 2) dirty waiting dirty-waiting

drain_due-bound_example :
    (from_secs 2 - from_secs 1 < from_secs (5 * 60))
    × (from_secs 2 ≤ from_secs 2 - from_secs 1
        → (taken : ℕ) × (◌≡◌ {A = Option ℕ} none (some taken))
          × (from_secs 2 - taken < from_secs 30))
unfolding observe_change
drain_due-bound_example =
    drain_due-bound "w1" (from_secs 2) dirty waiting (from_secs 1) (from_secs 1) dirty-waiting
      (extend-ne-nil compare path_by_compare [] "src/main.rs" []) refl refl

drain_due-keeps_example :
    IsPending "src/main.rs" (get "w1" (drain_due (from_secs 4) dirty).1.workspaces)
    ⊎ IsTaken "src/main.rs" "w1" (drain_due (from_secs 4) dirty).0.checkpoints
drain_due-keeps_example = drain_due-keeps "src/main.rs" "w1" (from_secs 4) dirty dirty-IsPending

observe_change-IsPending_example :
    (Has {T = String} "src/lib.rs" ("src/lib.rs" ∷ [])
      → IsPending "src/lib.rs"
          (get "w1" (observe_change compare later (from_secs 5) dirty).workspaces))
    × ((j : String)
        → IsPending "src/lib.rs" (get j dirty.workspaces)
        → IsPending "src/lib.rs"
            (get j (observe_change compare later (from_secs 5) dirty).workspaces))
observe_change-IsPending_example =
    observe_change-IsPending compare path_by_compare later (from_secs 5) dirty "src/lib.rs"
