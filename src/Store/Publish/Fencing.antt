-- ===== src/Store/Publish/Fencing.antt =====
-- A device that no longer holds a lease can publish nothing under it.
use devrelay.Prelude.{ℕ, ◌≡◌, ◌≢◌, ap, String, Option, some, inl, inr, arith, refl}
use devrelay.SnapshotSchema.{SnapshotMetadata}
use devrelay.Store.Db.{Db, LeaseRow, HandoffRow, handoff_record_from_row}
use devrelay.Handoff.{HandoffRecord}
use devrelay.Store.Tx.{Error, Result, ok, err}
use devrelay.Store.Handoffs.Change.{lease_at, handoff_at, hand_over, Transfers}
use devrelay.Store.Handoffs.Effects.{handoff_at-id}
use devrelay.Store.Handoffs.Finish.{SnapshotPreflight, commit_handoff_inner}
use devrelay.Store.Handoffs.Invariant.{IsConsistent}
use devrelay.Store.Handoffs.Keeping.{holder-bound}
use devrelay.Store.Handoffs.Views.{lease_at-Transfers}
use devrelay.Store.Handoffs.Commit.{commit_ok-Transfers}
use devrelay.Store.Publish.{
  CanonicalPublishRequest, InactiveForkPublishRequest, publish_snapshot_canonical,
  publish_inactive_snapshot_as_fork,
}
use devrelay.Store.Publish.CompareAndSwap.{publish_outcome}
use devrelay.Store.Publish.Fork.{publish_inactive-Forks}

-- The call returns an error and changes nothing.
abbrev pub Refused : {A : Type 0} → Db → Result A × Db → Type 0
Refused {A} db answer = ((e : Error) × (answer.0 ≡ err e)) × (answer.1 ≡ db)

module _ (db : Db) (l : String) (lease : LeaseRow) (device : String)
    (at : lease_at db l ≡ some lease) (other : lease.holder_device_id ≢ some device) where
  not_held : (found : LeaseRow) → lease_at db l ≡ some found → found.holder_device_id ≢ some device
  not_held found f = ground (arith, at, f, other)

  pub not_holder-canonical :
      (to_json : SnapshotMetadata → Option String) (q : CanonicalPublishRequest)
      → q.lease_id ≡ l
      → q.holder_device_id ≡ device
      → Refused db (publish_snapshot_canonical to_json q db)
  not_holder-canonical to_json q i d = elim (publish_outcome to_json q db) [
    | inl (e, same) ↦ ((e, ap (λ x. x.0) same), ap (λ x. x.1) same)
    | inr (found, text, s, same) ↦ absurd (not_held found (rw (← i) s.0.found) (rw (← d) s.0.held))
  ]

  pub not_holder-fork :
      (to_json : SnapshotMetadata → Option String) (now : ℕ) (fork_id : String)
      (q : InactiveForkPublishRequest)
      → q.lease_id ≡ l
      → q.holder_device_id ≡ device
      → Refused db (publish_inactive_snapshot_as_fork to_json now fork_id q db)
  not_holder-fork to_json now fork_id q i d =
      elim (publish_inactive-Forks to_json now fork_id q db) [
        | inl (e, h, same) ↦ ((e, h), same)
        | inr (r, h, forks) ↦
            let (
              found,
              parent,
              n,
              (its, held, trusted, state, latest),
              leases,
              sessions,
              snapshots,
            ) =
              forks in
            absurd (not_held found (rw (← i) its) (rw (← d) held))
      ]

-- Once a commit of a handoff has succeeded on a consistent database, every device but the handoff's
-- target is fenced out of the lease that the handoff took: what it publishes under that lease, as
-- the canonical latest snapshot or as a fork of an inactive workspace, is refused with an error and
-- changes nothing.
pub publish_after_commit :
    (h generation : String) (now : ℕ) (preflight : Option SnapshotPreflight) (db : Db)
    (row : HandoffRow) (l : String) (lease : LeaseRow) (r : HandoffRecord)
    (to_json : SnapshotMetadata → Option String) (q : CanonicalPublishRequest) (time : ℕ)
    (fork_id : String) (p : InactiveForkPublishRequest)
    → IsConsistent db
    → handoff_at db h ≡ some row
    → row.lease_id ≡ some l
    → lease_at db l ≡ some lease
    → (commit_handoff_inner h generation now preflight db).0 ≡ ok r
    → q.lease_id ≡ l
    → q.holder_device_id ≢ (handoff_record_from_row row).target_device_id
    → p.lease_id ≡ l
    → p.holder_device_id ≢ (handoff_record_from_row row).target_device_id
    → let after = (commit_handoff_inner h generation now preflight db).1 in
      Refused after (publish_snapshot_canonical to_json q after)
      × Refused after (publish_inactive_snapshot_as_fork to_json time fork_id p after)
publish_after_commit h generation now preflight db row l lease r to_json q time fork_id p c f w at
      done lq nq lp np =
    let i : row.handoff_id ≡ h = handoff_at-id db h row f in
    let after : Db = (commit_handoff_inner h generation now preflight db).1 in
    let t : Transfers db after row now =
      commit_ok-Transfers h generation now preflight db row r f i done in
    let moved : lease_at after l ≡ some (hand_over row lease) =
      rw (lease_at-Transfers db after row now t l)
        (rw at (rw (holder-bound db after row now t c l lease at w) refl)) in
    (
      not_holder-canonical after l (hand_over row lease) q.holder_device_id moved (other nq) to_json
          q lq refl,
      not_holder-fork after l (hand_over row lease) p.holder_device_id moved (other np) to_json time
          fork_id p lp refl,
    )
  where
    other :
        {device : String}
        → device ≢ (handoff_record_from_row row).target_device_id
        → some (handoff_record_from_row row).target_device_id ≢ some device
    other n e = ground (arith, n, e)
