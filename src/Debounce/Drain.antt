-- ===== src/Debounce/Drain.antt =====
-- Draining treats every workspace by itself (crates/devrelay-core/src/debounce.rs).
use mathlib.Core.Path.{subst}
use devrelay.Prelude.{
  ℕ, ◌-◌, ◌≤◌, ◌<◌, ◌≡◌, ◌≢◌, refl, sym, ap, ◌∙◌, String, Bool, true, false, ◌||◌, Option, none,
  some, List, [], ◌∷◌, arith, eq_iff, inl, inr, Bool-cases, Option-cases, ◌is◌, if◌then◌else◌,
}
use devrelay.Sql.Laws.{map_option}
use devrelay.Map.{get, keys, contains}
use devrelay.Map.Laws.{get-insert, contains-keys}
use devrelay.Debounce.{
  AdaptiveDebouncer, WorkspaceDebounceState, DebounceDrain, BackgroundDebouncePolicy, is_empty,
}
use devrelay.Debounce.Flush.{
  checkpoint_reason, publish_reason, checkpoint_taken, publish_taken, take_checkpoint, take_publish,
  take_due_checkpoint, take_due_publish, drain_keys, drain_due, empty_drain,
}

module _ {P : Type 0} where
  -- What a drain at `now` makes of one workspace.
  unfoldable pub after_checkpoint :
      BackgroundDebouncePolicy → ℕ → WorkspaceDebounceState P → WorkspaceDebounceState P
  after_checkpoint policy now s = elim (checkpoint_reason policy now s) [
    | none ↦ s
    | some _ ↦ checkpoint_taken now s
  ]

  unfoldable pub after_publish :
      BackgroundDebouncePolicy → ℕ → WorkspaceDebounceState P → WorkspaceDebounceState P
  after_publish policy now s = elim (publish_reason policy now s) [
    | none ↦ s
    | some _ ↦ publish_taken now s
  ]

  abbrev pub after_drain :
      BackgroundDebouncePolicy → ℕ → WorkspaceDebounceState P → WorkspaceDebounceState P
  after_drain policy now s = after_publish policy now (after_checkpoint policy now s)

  pub take_due_checkpoint-get :
      (w j : String) (now : ℕ) (d : AdaptiveDebouncer P)
      → get j (take_due_checkpoint w now d).1.workspaces ≡ (
          if w is j
          then map_option (after_checkpoint d.policy now) (get j d.workspaces)
          else get j d.workspaces)
  unfolding take_due_checkpoint after_checkpoint
  take_due_checkpoint-get w j now d = elim (Option-cases (get w d.workspaces)) [
    | inl gone ↦ ground (arith, eq_iff w j)
    | inr (s, at) ↦ ground (arith, eq_iff w j, get-insert w j (checkpoint_taken now s) d.workspaces)
  ]

  pub take_due_checkpoint-policy :
      (w : String) (now : ℕ) (d : AdaptiveDebouncer P)
      → (take_due_checkpoint w now d).1.policy ≡ d.policy
  unfolding take_due_checkpoint take_checkpoint
  take_due_checkpoint-policy w now d = elim (Option-cases (get w d.workspaces)) [
    | inl gone ↦ ground arith
    | inr (s, at) ↦ ground arith
  ]

  take_due_publish-get :
      (w j : String) (now : ℕ) (d : AdaptiveDebouncer P)
      → get j (take_due_publish w now d).1.workspaces ≡ (
          if w is j
          then map_option (after_publish d.policy now) (get j d.workspaces)
          else get j d.workspaces)
  unfolding take_due_publish take_publish publish_reason after_publish
  take_due_publish-get w j now d = elim (Option-cases (get w d.workspaces)) [
    | inl gone ↦ ground (arith, eq_iff w j)
    | inr (s, at) ↦ ground (arith, eq_iff w j, get-insert w j (publish_taken now s) d.workspaces)
  ]

  take_due_publish-policy :
      (w : String) (now : ℕ) (d : AdaptiveDebouncer P)
      → (take_due_publish w now d).1.policy ≡ d.policy
  unfolding take_due_publish take_publish
  take_due_publish-policy w now d = elim (Option-cases (get w d.workspaces)) [
    | inl gone ↦ ground arith
    | inr (s, at) ↦ ground arith
  ]

  -- Draining again at the same time changes nothing more.
  after_drain-again :
      (policy : BackgroundDebouncePolicy) (now : ℕ) (s : WorkspaceDebounceState P)
      → after_drain policy now (after_drain policy now s) ≡ after_drain policy now s
  unfolding after_checkpoint after_publish checkpoint_reason publish_reason
  after_drain-again policy now s = ground arith

  -- Both parts of the drain of one workspace.
  abbrev pub drain_one : String → ℕ → AdaptiveDebouncer P → AdaptiveDebouncer P
  drain_one w now d = (take_due_publish w now (take_due_checkpoint w now d).1).1

  pub drain_one-get :
      (w j : String) (now : ℕ) (d : AdaptiveDebouncer P)
      → get j (drain_one w now d).workspaces ≡ (
          if w is j
          then map_option (after_drain d.policy now) (get j d.workspaces)
          else get j d.workspaces)
  drain_one-get w j now d = ground (
    arith,
    take_due_publish-get w j now (take_due_checkpoint w now d).1,
    take_due_checkpoint-get w j now d,
    take_due_checkpoint-policy w now d,
    Option-cases (get j d.workspaces),
  )

  -- A map that changes nothing the second time may be applied once for the head and once for the tail.
  pub once_or_twice :
      (here later : Bool) (f : WorkspaceDebounceState P → WorkspaceDebounceState P)
      (o : Option (WorkspaceDebounceState P))
      → ((s : WorkspaceDebounceState P) → f (f s) ≡ f s)
      → (if later
          then map_option f (if here then map_option f o else o)
          else (if here then map_option f o else o))
        ≡ (if here || later then map_option f o else o)
  once_or_twice false later f o again = refl
  once_or_twice true false f o again = refl
  once_or_twice true true f none again = refl
  once_or_twice true true f (some s) again = ap some (again s)

  pub drain_one-policy :
      (w : String) (now : ℕ) (d : AdaptiveDebouncer P) → (drain_one w now d).policy ≡ d.policy
  drain_one-policy w now d =
      take_due_publish-policy w now (take_due_checkpoint w now d).1
      ∙ take_due_checkpoint-policy w now d

  drain_keys-get :
      (j : String) (now : ℕ) (ws : List String) (d : AdaptiveDebouncer P) (drain : DebounceDrain P)
      → get j (drain_keys now ws d drain).1.workspaces ≡ (
          if contains ws j
          then map_option (after_drain d.policy now) (get j d.workspaces)
          else get j d.workspaces)
  unfolding drain_keys contains
  drain_keys-get j now [] d drain = refl
  drain_keys-get j now (w ∷ ws) d drain =
      drain_keys-get j now ws (drain_one w now d) _
      ∙ rw (drain_one-get w j now d, drain_one-policy w now d)
          (once_or_twice (w is j) (contains ws j) (after_drain d.policy now) (get j d.workspaces)
            (after_drain-again d.policy now))

  -- A drain at `now` makes of each workspace what `after_drain` makes of it; a workspace that is not
  -- there stays away.
  pub drain_due-get :
      (j : String) (now : ℕ) (d : AdaptiveDebouncer P)
      → get j (drain_due now d).1.workspaces
        ≡ map_option (after_drain d.policy now) (get j d.workspaces)
  unfolding drain_due
  drain_due-get j now d = elim (Bool-cases (contains (keys d.workspaces) j)) [
    | inl e ↦ drain_keys-get j now (keys d.workspaces) d empty_drain ∙ ground (arith, e)
    | inr e ↦ ground (
      arith,
      drain_keys-get j now (keys d.workspaces) d empty_drain,
      contains-keys d.workspaces j e,
      e,
    )
  ]

  mapped :
      (f : WorkspaceDebounceState P → WorkspaceDebounceState P)
      (o : Option (WorkspaceDebounceState P)) (s : WorkspaceDebounceState P)
      → map_option f o ≡ some s
      → (x : WorkspaceDebounceState P) × (o ≡ some x) × (f x ≡ s)
  mapped f none s e = ground (arith, e)
  mapped f (some x) s e = (x, refl, ground (arith, e))

  pub after_drain-done :
      (policy : BackgroundDebouncePolicy) (now : ℕ) (s : WorkspaceDebounceState P)
      → (checkpoint_reason policy now (after_drain policy now s) ≡ none)
        × (publish_reason policy now (after_drain policy now s) ≡ none)
  unfolding after_checkpoint after_publish checkpoint_reason publish_reason
  after_drain-done policy now s = ground arith

  -- Nothing is due after a drain: for every workspace there is no reason left for a checkpoint or for
  -- a publish at that time.
  pub drain_due-done :
      (j : String) (now : ℕ) (d : AdaptiveDebouncer P) (s : WorkspaceDebounceState P)
      → get j (drain_due now d).1.workspaces ≡ some s
      → (checkpoint_reason d.policy now s ≡ none) × (publish_reason d.policy now s ≡ none)
  drain_due-done j now d s at =
      let (before, was, e) =
        mapped (after_drain d.policy now) (get j d.workspaces) s
          (sym (drain_due-get j now d) ∙ at) in
      subst
        (λ x. (checkpoint_reason d.policy now x ≡ none) × (publish_reason d.policy now x ≡ none)) e
        (after_drain-done d.policy now before)

  full_is_empty : (xs : List P) → xs ≢ [] → is_empty xs ≡ false
  full_is_empty [] h = absurd (h refl)
  full_is_empty (x ∷ xs) h = refl

  -- The bounds on how long work waits. A workspace that still has pending paths after a drain became
  -- dirty less than the maximal dirty interval ago, and if its last event is older than the quiet
  -- window, its last checkpoint is more recent than the minimal checkpoint interval.
  pub drain_due-bound :
      (j : String) (now : ℕ) (d : AdaptiveDebouncer P) (s : WorkspaceDebounceState P)
      (first last : ℕ)
      → get j (drain_due now d).1.workspaces ≡ some s
      → s.pending_paths ≢ []
      → s.first_dirty_at ≡ some first
      → s.last_dirty_event_at ≡ some last
      → (now - first < d.policy.max_dirty_interval)
        × (d.policy.first_event_quiet ≤ now - last
            → (taken : ℕ) × (s.last_checkpoint_at ≡ some taken)
              × (now - taken < d.policy.min_checkpoint_interval))
  unfolding checkpoint_reason
  drain_due-bound j now d s first last at full dirty event =
      elim (Option-cases s.last_checkpoint_at) [
        | inl never ↦
            ground (arith, (drain_due-done j now d s at).0, full_is_empty s.pending_paths full)
        | inr (taken, was) ↦
            ground (arith, (drain_due-done j now d s at).0, full_is_empty s.pending_paths full)
      ]
