-- ===== src/Debounce/Keep.antt =====
-- What the debouncer holds, and what its checkpoints give out (crates/devrelay-core/src/debounce.rs).
use Prim.Native.Nat.{Ordering}
use devrelay.Prelude.{
  ℕ, ◌≡◌, ◌⊎◌, sym, String, true, Option, none, some, List, [], ◌∷◌, ◌++◌, arith, inl, inr,
  Bool-cases, Option-cases, ◌is◌, is_self, is→≡,
}
use devrelay.Map.{get, keys}
use devrelay.Map.Laws.{get-insert, Has, extend-Has, extend_keeps}
use devrelay.Debounce.{
  AdaptiveDebouncer, WorkspaceDebounceState, DebouncedCheckpoint, DebounceDrain,
  DebounceFlushReason, CoalescedWorkspaceChange, is_empty, observe_change, observed, entry, put,
}
use devrelay.Debounce.Flush.{
  checkpoint_reason, publish_reason, checkpoint_taken, checkpoint_of, publish_taken,
  take_checkpoint, take_publish, take_due_checkpoint, take_due_publish, drain_keys, drain_due,
  empty_drain, push,
}

module _ {P : Type 0} where
  -- The path is among the pending ones of a workspace.
  abbrev pub IsPending : P → Option (WorkspaceDebounceState P) → Type 0
  IsPending p none = ⊥
  IsPending p (some s) = Has p s.pending_paths

  -- One of the checkpoints is of that workspace and has that path.
  abbrev pub IsTaken : P → String → List (DebouncedCheckpoint P) → Type 0
  IsTaken p w [] = ⊥
  IsTaken p w (c ∷ cs) = ((c.workspace_id ≡ w) × Has p c.paths) ⊎ IsTaken p w cs

  IsTaken-before :
      (p : P) (w : String) (cs ds : List (DebouncedCheckpoint P))
      → IsTaken p w cs
      → IsTaken p w (cs ++ ds)
  IsTaken-before p w [] ds h = absurd h
  IsTaken-before p w (c ∷ cs) ds h = elim h [
    | inl here ↦ inl here
    | inr later ↦ inr (IsTaken-before p w cs ds later)
  ]

  IsTaken-after :
      (p : P) (w : String) (cs ds : List (DebouncedCheckpoint P))
      → IsTaken p w ds
      → IsTaken p w (cs ++ ds)
  IsTaken-after p w [] ds h = h
  IsTaken-after p w (c ∷ cs) ds h = inr (IsTaken-after p w cs ds h)

  IsTaken-push :
      (p : P) (w : String) (o : Option (DebouncedCheckpoint P)) (cs : List (DebouncedCheckpoint P))
      → IsTaken p w cs
      → IsTaken p w (push o cs)
  IsTaken-push p w none cs h = h
  IsTaken-push p w (some c) cs h = IsTaken-before p w cs (c ∷ []) h

  IsTaken-pushed :
      (p : P) (w : String) (o : Option (DebouncedCheckpoint P)) (cs : List (DebouncedCheckpoint P))
      → IsTaken p w (push o [])
      → IsTaken p w (push o cs)
  IsTaken-pushed p w none cs h = absurd h
  IsTaken-pushed p w (some c) cs h = IsTaken-after p w cs (c ∷ []) h

  -- A due checkpoint leaves everything, or takes the pending paths of the workspace.
  take_due_checkpoint-effect :
      (w : String) (now : ℕ) (d : AdaptiveDebouncer P)
      → (take_due_checkpoint w now d ≡ (none, d))
        ⊎ ((s : WorkspaceDebounceState P) × (reason : DebounceFlushReason) × (get w d.workspaces
              ≡ some s)
            × (take_due_checkpoint w now d
                ≡ (some (checkpoint_of w reason s), put w (checkpoint_taken now s) d)))
  unfolding take_due_checkpoint take_checkpoint
  take_due_checkpoint-effect w now d = elim (Option-cases (get w d.workspaces)) [
    | inl gone ↦ inl (ground (arith, gone))
    | inr (s, at) ↦ elim (Option-cases (checkpoint_reason d.policy now s)) [
      | inl e ↦ inl (ground (arith, at, e))
      | inr (reason, e) ↦ elim (Bool-cases (is_empty s.pending_paths)) [
        | inl empty ↦ inl (ground (arith, at, e, empty))
        | inr full ↦ inr (s, reason, at, ground (arith, at, e, full))
      ]
    ]
  ]

  -- A pending path of a workspace stays or leaves in a checkpoint of it.
  take_due_checkpoint-IsPending :
      (p : P) (w j : String) (now : ℕ) (d : AdaptiveDebouncer P)
      → IsPending p (get j d.workspaces)
      → IsPending p (get j (take_due_checkpoint w now d).1.workspaces)
        ⊎ IsTaken p j (push (take_due_checkpoint w now d).0 [])
  take_due_checkpoint-IsPending p w j now d h = elim (take_due_checkpoint-effect w now d) [
    | inl e ↦ rw (e, IsTaken, IsPending) (inl h)
    | inr (s, reason, at, e) ↦ elim (Bool-cases (w is j)) [
      | inl same ↦ rw (e, IsTaken) (inr (inl (is→≡ same, rw (sym (is→≡ same), at) at h)))
      | inr other ↦
          rw (e, IsTaken, IsPending, get-insert w j (checkpoint_taken now s) d.workspaces, other)
            (inl h)
    ]
  ]

  take_due_publish-effect :
      (w : String) (now : ℕ) (d : AdaptiveDebouncer P)
      → ((take_due_publish w now d).1 ≡ d)
        ⊎ ((s : WorkspaceDebounceState P) × (get w d.workspaces ≡ some s)
            × ((take_due_publish w now d).1 ≡ put w (publish_taken now s) d))
  unfolding take_due_publish take_publish
  take_due_publish-effect w now d = elim (Option-cases (get w d.workspaces)) [
    | inl gone ↦ inl (ground (arith, gone))
    | inr (s, at) ↦ elim (Option-cases (publish_reason d.policy now s)) [
      | inl e ↦ inl (ground (arith, at, e))
      | inr (reason, e) ↦ elim (Option-cases s.publish_generation) [
        | inl none_due ↦ inl (ground (arith, at, e, none_due))
        | inr (generation, due) ↦ inr (s, at, ground (arith, at, e, due))
      ]
    ]
  ]

  -- A due publish leaves the pending paths.
  take_due_publish-IsPending :
      (p : P) (w j : String) (now : ℕ) (d : AdaptiveDebouncer P)
      → IsPending p (get j d.workspaces)
      → IsPending p (get j (take_due_publish w now d).1.workspaces)
  take_due_publish-IsPending p w j now d h = elim (take_due_publish-effect w now d) [
    | inl e ↦ rw (e, IsPending) h
    | inr (s, at, e) ↦ elim (Bool-cases (w is j)) [
      | inl same ↦
          rw (e, IsPending, get-insert w j (publish_taken now s) d.workspaces, same)
            (rw (sym (is→≡ same), at) at h)
      | inr other ↦ rw (e, IsPending, get-insert w j (publish_taken now s) d.workspaces, other) h
    ]
  ]

  drain_keys-IsPending :
      (p : P) (j : String) (now : ℕ) (ws : List String) (d : AdaptiveDebouncer P)
      (drain : DebounceDrain P)
      → IsPending p (get j d.workspaces) ⊎ IsTaken p j drain.checkpoints
      → IsPending p (get j (drain_keys now ws d drain).1.workspaces)
        ⊎ IsTaken p j (drain_keys now ws d drain).0.checkpoints
  unfolding drain_keys
  drain_keys-IsPending p j now [] d drain h = h
  drain_keys-IsPending p j now (w ∷ ws) d drain h = drain_keys-IsPending p j now ws _ _ (elim h [
    | inl pending ↦ elim (take_due_checkpoint-IsPending p w j now d pending) [
      | inl still ↦ inl (take_due_publish-IsPending p w j now (take_due_checkpoint w now d).1 still)
      | inr taken ↦ inr (IsTaken-pushed p j (take_due_checkpoint w now d).0 drain.checkpoints taken)
    ]
    | inr taken ↦ inr (IsTaken-push p j (take_due_checkpoint w now d).0 drain.checkpoints taken)
  ])

  -- No change is lost: after a drain each path that was pending for a workspace is still pending for
  -- it, or it is among the paths of a checkpoint of that workspace which the drain gives.
  pub drain_due-keeps :
      (p : P) (j : String) (now : ℕ) (d : AdaptiveDebouncer P)
      → IsPending p (get j d.workspaces)
      → IsPending p (get j (drain_due now d).1.workspaces)
        ⊎ IsTaken p j (drain_due now d).0.checkpoints
  unfolding drain_due
  drain_due-keeps p j now d h =
      drain_keys-IsPending p j now (keys d.workspaces) d empty_drain (inl h)

  empty-Has : (p : P) (xs : List P) → is_empty xs ≡ true → Has p xs → ⊥
  empty-Has p [] e h = h
  empty-Has p (x ∷ xs) e h = ground (arith, e)

  observe_change-effect :
      (order : P → P → Ordering) (change : CoalescedWorkspaceChange P) (now : ℕ)
      (d : AdaptiveDebouncer P)
      → ((is_empty change.paths ≡ true) × (observe_change order change now d ≡ d))
        ⊎ (observe_change order change now d
            ≡ put change.workspace_id (observed order change now (entry change.workspace_id d)) d)
  unfolding observe_change
  observe_change-effect order change now d = elim (Bool-cases (is_empty change.paths)) [
    | inl e ↦ inl (e, ground (arith, e))
    | inr e ↦ inr (ground (arith, e))
  ]

  entry-pending :
      (p : P) (w : String) (d : AdaptiveDebouncer P)
      → IsPending p (get w d.workspaces)
      → Has p (entry w d).pending_paths
  entry-pending p w d h = elim (Option-cases (get w d.workspaces)) [
    | inl gone ↦ absurd (rw (gone, IsPending) at h)
    | inr (s, at) ↦ rw (at, entry) (rw (at, IsPending) at h)
  ]

  -- Each path of an observed change is pending for its workspace, and what was pending stays.
  pub observe_change-IsPending :
      (order : P → P → Ordering) (order-eq : (x y : P) → order x y ≡ Ordering.eq → x ≡ y)
      (change : CoalescedWorkspaceChange P) (now : ℕ) (d : AdaptiveDebouncer P) (p : P)
      → (Has p change.paths
          → IsPending p (get change.workspace_id (observe_change order change now d).workspaces))
        × ((j : String)
            → IsPending p (get j d.workspaces)
            → IsPending p (get j (observe_change order change now d).workspaces))
  observe_change-IsPending order order-eq change now d p =
      elim (observe_change-effect order change now d) [
        | inl (e, same) ↦
            (λ h. absurd (empty-Has p change.paths e h), λ j h. rw (same, IsPending) h)
        | inr e ↦
            let w = change.workspace_id in
            let s = observed order change now (entry w d) in
            (
              λ h.
                  rw (e, IsPending, get-insert w w s d.workspaces, is_self w)
                    (extend-Has order order-eq p (entry w d).pending_paths change.paths h),
              λ j h. elim (Bool-cases (w is j)) [
                | inl at ↦
                    rw (e, IsPending, get-insert w j s d.workspaces, at)
                      (extend_keeps order order-eq p (entry w d).pending_paths change.paths
                        (entry-pending p w d (rw (sym (is→≡ at)) at h)))
                | inr other ↦ rw (e, IsPending, get-insert w j s d.workspaces, other) h
              ],
            )
      ]
