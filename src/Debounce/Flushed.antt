-- ===== src/Debounce/Flushed.antt =====
-- What a flush of all workspaces gives out and leaves (crates/devrelay-core/src/debounce.rs).
use mathlib.Core.List.{append-nil}
use devrelay.Prelude.{
  ℕ, ◌≡◌, refl, sym, ◌∙◌, String, Option, none, some, List, [], ◌∷◌, ◌++◌, arith, eq_iff, inl, inr,
  Bool-cases, Option-cases, ◌is◌, if◌then◌else◌,
}
use devrelay.Sql.{filter}
use devrelay.Sql.Laws.{map_option}
use devrelay.Map.{get, keys, contains}
use devrelay.Map.Laws.{get-insert, contains-keys}
use devrelay.Debounce.{
  AdaptiveDebouncer, WorkspaceDebounceState, DebounceDrain, DebouncedCheckpoint, DebouncedPublish,
  DebounceFlushReason, is_empty,
}
use devrelay.Debounce.Flush.{
  checkpoint_taken, publish_taken, checkpoint_of, take_checkpoint, take_publish, flush_keys,
  flush_all, empty_drain, push,
}
use devrelay.Debounce.Drain.{once_or_twice}
use devrelay.Debounce.Taken.{filter-push, joined, checkpoint_for, publish_for}

module _ {P : Type 0} where
  -- The checkpoint of a workspace in that state, if it has pending paths.
  abbrev pub pending_checkpoints :
      DebounceFlushReason
      → String
      → Option (WorkspaceDebounceState P)
      → List (DebouncedCheckpoint P)
  pending_checkpoints reason j none = []
  pending_checkpoints reason j (some s) =
      if is_empty s.pending_paths then [] else checkpoint_of j reason s ∷ []

  -- Its publish, if it has a generation to publish.
  abbrev pub pending_publishes :
      DebounceFlushReason → String → Option (WorkspaceDebounceState P) → List DebouncedPublish
  pending_publishes reason j none = []
  pending_publishes reason j (some s) = elim s.publish_generation [
    | none ↦ []
    | some generation ↦
        record { workspace_id = j; source_generation = generation; reason = reason } ∷ []
  ]

  abbrev pub without_paths : ℕ → WorkspaceDebounceState P → WorkspaceDebounceState P
  without_paths now s = if is_empty s.pending_paths then s else checkpoint_taken now s

  abbrev pub without_generation : ℕ → WorkspaceDebounceState P → WorkspaceDebounceState P
  without_generation now s = elim s.publish_generation [ none ↦ s | some _ ↦ publish_taken now s ]

  unfoldable pub after_flush : ℕ → WorkspaceDebounceState P → WorkspaceDebounceState P
  after_flush now s = without_generation now (without_paths now s)

  take_checkpoint-get :
      (w j : String) (now : ℕ) (reason : DebounceFlushReason) (d : AdaptiveDebouncer P)
      → get j (take_checkpoint w now reason d).1.workspaces ≡ (
          if w is j
          then map_option (without_paths now) (get j d.workspaces)
          else get j d.workspaces)
  unfolding take_checkpoint
  take_checkpoint-get w j now reason d = elim (Option-cases (get w d.workspaces)) [
    | inl gone ↦ ground (arith, eq_iff w j)
    | inr (s, at) ↦ ground (arith, eq_iff w j, get-insert w j (checkpoint_taken now s) d.workspaces)
  ]

  take_publish-get :
      (w j : String) (now : ℕ) (reason : DebounceFlushReason) (d : AdaptiveDebouncer P)
      → get j (take_publish w now reason d).1.workspaces ≡ (
          if w is j
          then map_option (without_generation now) (get j d.workspaces)
          else get j d.workspaces)
  unfolding take_publish
  take_publish-get w j now reason d = elim (Option-cases (get w d.workspaces)) [
    | inl gone ↦ ground (arith, eq_iff w j)
    | inr (s, at) ↦ ground (arith, eq_iff w j, get-insert w j (publish_taken now s) d.workspaces)
  ]

  checkpoint-flushed :
      (w j : String) (now : ℕ) (reason : DebounceFlushReason) (d : AdaptiveDebouncer P)
      → filter (checkpoint_for j) (push (take_checkpoint w now reason d).0 [])
        ≡ (if w is j then pending_checkpoints reason j (get j d.workspaces) else [])
  unfolding filter take_checkpoint
  checkpoint-flushed w j now reason d = elim (Option-cases (get w d.workspaces)) [
    | inl gone ↦ ground (arith, eq_iff w j)
    | inr (s, at) ↦ ground (arith, eq_iff w j)
  ]

  publish-flushed :
      (w j : String) (now : ℕ) (reason : DebounceFlushReason) (d : AdaptiveDebouncer P)
      → filter (publish_for j) (push (take_publish w now reason d).0 [])
        ≡ (if w is j then pending_publishes reason j (get j d.workspaces) else [])
  unfolding filter take_publish
  publish-flushed w j now reason d = elim (Option-cases (get w d.workspaces)) [
    | inl gone ↦ ground (arith, eq_iff w j)
    | inr (s, at) ↦ ground (arith, eq_iff w j)
  ]

  -- Both parts of the flush of one workspace.
  abbrev flush_one : String → ℕ → DebounceFlushReason → AdaptiveDebouncer P → AdaptiveDebouncer P
  flush_one w now reason d = (take_publish w now reason (take_checkpoint w now reason d).1).1

  flush_one-get :
      (w j : String) (now : ℕ) (reason : DebounceFlushReason) (d : AdaptiveDebouncer P)
      → get j (flush_one w now reason d).workspaces
        ≡ (if w is j then map_option (after_flush now) (get j d.workspaces) else get j d.workspaces)
  unfolding after_flush
  flush_one-get w j now reason d = ground (
    arith,
    take_publish-get w j now reason (take_checkpoint w now reason d).1,
    take_checkpoint-get w j now reason d,
    Option-cases (get j d.workspaces),
  )

  after_flush-again :
      (now : ℕ) (s : WorkspaceDebounceState P)
      → after_flush now (after_flush now s) ≡ after_flush now s
  unfolding after_flush
  after_flush-again now s = ground arith

  published_then :
      (w j : String) (now : ℕ) (reason : DebounceFlushReason) (d : AdaptiveDebouncer P)
      → filter
          (publish_for j)
          (push (take_publish w now reason (take_checkpoint w now reason d).1).0 [])
        ≡ (if w is j then pending_publishes reason j (get j d.workspaces) else [])
  published_then w j now reason d = ground (
    arith,
    publish-flushed w j now reason (take_checkpoint w now reason d).1,
    take_checkpoint-get w j now reason d,
    Option-cases (get j d.workspaces),
  )

  no_checkpoint_left :
      (now : ℕ) (reason : DebounceFlushReason) (j : String) (o : Option (WorkspaceDebounceState P))
      → pending_checkpoints reason j (map_option (after_flush now) o) ≡ []
  unfolding after_flush
  no_checkpoint_left now reason j none = refl
  no_checkpoint_left now reason j (some s) = ground arith

  no_publish_left :
      (now : ℕ) (reason : DebounceFlushReason) (j : String) (o : Option (WorkspaceDebounceState P))
      → pending_publishes reason j (map_option (after_flush now) o) ≡ []
  unfolding after_flush
  no_publish_left now reason j none = refl
  no_publish_left now reason j (some s) = ground arith

  module _ (j : String) (now : ℕ) (reason : DebounceFlushReason) where
    flushed-get :
        (ws : List String) (d : AdaptiveDebouncer P) (drain : DebounceDrain P)
        → get j (flush_keys now reason ws d drain).1.workspaces ≡ (
            if contains ws j
            then map_option (after_flush now) (get j d.workspaces)
            else get j d.workspaces)
    unfolding flush_keys contains
    flushed-get [] d drain = refl
    flushed-get (w ∷ ws) d drain =
        flushed-get ws (flush_one w now reason d) _
        ∙ rw (flush_one-get w j now reason d) (
            once_or_twice (w is j) (contains ws j) (after_flush now) (get j d.workspaces)
              (after_flush-again now))

    checkpoints-flushed :
        (ws : List String) (d : AdaptiveDebouncer P) (drain : DebounceDrain P)
        → filter (checkpoint_for j) (flush_keys now reason ws d drain).0.checkpoints
          ≡ filter (checkpoint_for j) drain.checkpoints
            ++ (if contains ws j then pending_checkpoints reason j (get j d.workspaces) else [])
    unfolding flush_keys contains
    checkpoints-flushed [] d drain = sym (append-nil _)
    checkpoints-flushed (w ∷ ws) d drain =
        checkpoints-flushed ws (flush_one w now reason d) _
        ∙ rw
            (
              filter-push (checkpoint_for j) (take_checkpoint w now reason d).0 drain.checkpoints,
              checkpoint-flushed w j now reason d,
              flush_one-get w j now reason d,
            )
            (joined (w is j) (contains ws j) (filter (checkpoint_for j) drain.checkpoints)
              (pending_checkpoints reason j) (after_flush now) (get j d.workspaces)
              (no_checkpoint_left now reason j (get j d.workspaces)))

    publishes-flushed :
        (ws : List String) (d : AdaptiveDebouncer P) (drain : DebounceDrain P)
        → filter (publish_for j) (flush_keys now reason ws d drain).0.publishes
          ≡ filter (publish_for j) drain.publishes
            ++ (if contains ws j then pending_publishes reason j (get j d.workspaces) else [])
    unfolding flush_keys contains
    publishes-flushed [] d drain = sym (append-nil _)
    publishes-flushed (w ∷ ws) d drain =
        publishes-flushed ws (flush_one w now reason d) _
        ∙ rw
            (
              filter-push (publish_for j)
                  (take_publish w now reason (take_checkpoint w now reason d).1).0 drain.publishes,
              published_then w j now reason d,
              flush_one-get w j now reason d,
            )
            (joined (w is j) (contains ws j) (filter (publish_for j) drain.publishes)
              (pending_publishes reason j) (after_flush now) (get j d.workspaces)
              (no_publish_left now reason j (get j d.workspaces)))

  emptied :
      (now : ℕ) (o : Option (WorkspaceDebounceState P)) (s : WorkspaceDebounceState P)
      → map_option (after_flush now) o ≡ some s
      → (s.pending_paths ≡ []) × (s.publish_generation ≡ none)
  unfolding after_flush
  emptied now none s e = ground (arith, e)
  emptied now (some x) s e = ground (arith, e)

  -- A flush gives out for each workspace one checkpoint with all its pending paths, if it has any,
  -- and one publish of its generation, if it has one, whatever the time and the intervals, and
  -- nothing else; and it leaves no workspace with a pending path or a generation to publish.
  pub flush_all-takes :
      (j : String) (now : ℕ) (reason : DebounceFlushReason) (d : AdaptiveDebouncer P)
      → let (drain, after) = flush_all now reason d in
        (filter (checkpoint_for j) drain.checkpoints
          ≡ pending_checkpoints reason j (get j d.workspaces))
        × (filter (publish_for j) drain.publishes ≡ pending_publishes reason j (get j d.workspaces))
        × ((s : WorkspaceDebounceState P)
            → get j after.workspaces ≡ some s
            → (s.pending_paths ≡ []) × (s.publish_generation ≡ none))
  unfolding flush_all filter
  flush_all-takes j now reason d = elim (Bool-cases (contains (keys d.workspaces) j)) [
    | inl e ↦ (
      checkpoints-flushed j now reason (keys d.workspaces) d empty_drain ∙ rw e refl,
      publishes-flushed j now reason (keys d.workspaces) d empty_drain ∙ rw e refl,
      λ s at.
          emptied now (get j d.workspaces) s
            (sym (flushed-get j now reason (keys d.workspaces) d empty_drain ∙ rw e refl) ∙ at),
    )
    | inr e ↦ (
      checkpoints-flushed j now reason (keys d.workspaces) d empty_drain
          ∙ rw (e, contains-keys d.workspaces j e) refl,
      publishes-flushed j now reason (keys d.workspaces) d empty_drain
          ∙ rw (e, contains-keys d.workspaces j e) refl,
      λ s at. emptied now (get j d.workspaces) s (
          sym (
            flushed-get j now reason (keys d.workspaces) d empty_drain
            ∙ rw (e, contains-keys d.workspaces j e) refl)
          ∙ at),
    )
  ]
