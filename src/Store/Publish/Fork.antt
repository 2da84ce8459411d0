-- ===== src/Store/Publish/Fork.antt =====
-- What `publish_inactive_snapshot_as_fork` stores, and what it leaves alone.
use Prim.Native.String.{◌++◌ as append}
use devrelay.Prelude.{
  ℕ, ◌≡◌, refl, ap, false, ◌≢◌, inl, inr, ◌⊎◌, String, true, Option, none, some, inl, inr, [], ◌∷◌,
  ◌++◌, arith, is_ne, is→≡, and_left, is_some_of→≡, Option-cases, eq_iff,
}
use devrelay.Sql.{find, exists, update}
use devrelay.Sql.Laws.{find-update, find_holds}
use devrelay.Lease
use devrelay.Session
use devrelay.SnapshotSchema.{SnapshotMetadata}
use devrelay.Store.Tables.{SessionRow, SnapshotRow}
use devrelay.Store.Db.{Db, LeaseRow, lease_record_from_row, unwrap_or}
use devrelay.Store.Tx.{Error, ok, err}
use devrelay.Store.Tx.Laws.{Result-cases}
use devrelay.Store.Revocations.{get_device_revocation}
use devrelay.Store.Handoffs.Effects.{lease_at-id}
use devrelay.Store.Handoffs.Queries.{lease_key}
use devrelay.Store.Handoffs.Change.{lease_at}
use devrelay.Store.Sessions.{stored_session_from_row, new_session_row}
use devrelay.Store.Publish.{
  InactiveForkPublishRequest, InactiveForkPublishResult, publish_inactive_snapshot_as_fork,
  is_inactive_lease, fork_lease, session_of_project, fork_metadata, snapshot_row, snapshot_key,
  fits, next_sequence_number,
}

module _ (to_json : SnapshotMetadata → Option String) (now : ℕ) (fork_id : String)
    (q : InactiveForkPublishRequest) (db : Db) where
  pub fork_publish_refused :
      (e : Error)
      → (publish_inactive_snapshot_as_fork to_json now fork_id q db).0 ≡ err e
      → (publish_inactive_snapshot_as_fork to_json now fork_id q db).1 ≡ db
  unfolding publish_inactive_snapshot_as_fork
  fork_publish_refused e h = ground arith

  pub fork_publish_leases :
      (r : InactiveForkPublishResult)
      → (publish_inactive_snapshot_as_fork to_json now fork_id q db).0 ≡ ok r
      → (publish_inactive_snapshot_as_fork to_json now fork_id q db).1.leases
        ≡ update (is_inactive_lease q.lease_id) fork_lease db.leases
  unfolding publish_inactive_snapshot_as_fork
  fork_publish_leases r h = ground arith

  -- The conditions on the lease, and what the answer says of it.
  fork_publish_lease :
      (lease : LeaseRow) (r : InactiveForkPublishResult)
      → lease_at db q.lease_id ≡ some lease
      → (publish_inactive_snapshot_as_fork to_json now fork_id q db).0 ≡ ok r
      → (lease.holder_device_id ≡ some q.holder_device_id)
        × (get_device_revocation q.holder_device_id db ≡ none)
        × (lease.state ≡ Lease.as_str Lease.inactive)
        × (r.canonical_latest_snapshot_id ≡ lease.latest_snapshot_id)
  unfolding publish_inactive_snapshot_as_fork lease_record_from_row Lease.parse_lease_state
      Lease.as_str
  fork_publish_lease lease r found h = (
    ground (arith, is_some_of→≡ lease.holder_device_id q.holder_device_id),
    ground arith,
    ground (arith, eq_iff lease.state "inactive"),
    ground arith,
  )

  fork_publish_found :
      (r : InactiveForkPublishResult)
      → (publish_inactive_snapshot_as_fork to_json now fork_id q db).0 ≡ ok r
      → lease_at db q.lease_id ≢ none
  unfolding publish_inactive_snapshot_as_fork
  fork_publish_found r h gone = ground arith

  fork_publish_parent :
      (r : InactiveForkPublishResult)
      → (publish_inactive_snapshot_as_fork to_json now fork_id q db).0 ≡ ok r
      → find (session_of_project q.session_id q.metadata.project_id) db.sessions ≢ none
  unfolding publish_inactive_snapshot_as_fork
  fork_publish_parent r h gone = ground arith

  pub fork_publish_handoffs :
      (publish_inactive_snapshot_as_fork to_json now fork_id q db).1.handoffs ≡ db.handoffs
  unfolding publish_inactive_snapshot_as_fork
  fork_publish_handoffs = ground arith

  -- The session that the operation opens, for the parent session that it finds.
  abbrev pub fork_session_row : SessionRow → SessionRow
  fork_session_row parent =
      new_session_row now fork_id (stored_session_from_row parent).project_id
        (append "Separate work from " (stored_session_from_row parent).name)
        (some (stored_session_from_row parent).session_id)
        (stored_session_from_row parent).active_workspace_id Session.fork

  fork_publish_session :
      (r : InactiveForkPublishResult) (parent : SessionRow)
      → find (session_of_project q.session_id q.metadata.project_id) db.sessions ≡ some parent
      → (publish_inactive_snapshot_as_fork to_json now fork_id q db).0 ≡ ok r
      → (publish_inactive_snapshot_as_fork to_json now fork_id q db).1.sessions
        ≡ db.sessions ++ fork_session_row parent ∷ []
  unfolding publish_inactive_snapshot_as_fork
  fork_publish_session r parent f h = ground arith

  -- The row that the operation inserts, if the metadata prints as `text`.
  abbrev fork_snapshot_row : LeaseRow → String → SnapshotRow
  fork_snapshot_row lease text =
      snapshot_row (fork_metadata fork_id (lease_record_from_row lease) q.metadata) fork_id
        (next_sequence_number q.metadata.project_id db) true
        (some (unwrap_or q.label "separate work from inactive workspace")) text

  pub fork_publish_snapshot :
      (lease : LeaseRow) (r : InactiveForkPublishResult)
      → lease_at db q.lease_id ≡ some lease
      → (publish_inactive_snapshot_as_fork to_json now fork_id q db).0 ≡ ok r
      → (text : String) × ((publish_inactive_snapshot_as_fork to_json now fork_id q db).1.snapshots
          ≡ db.snapshots ++ fork_snapshot_row lease text ∷ [])
        × (exists (snapshot_key q.metadata.snapshot_id) db.snapshots ≡ false)
  unfolding publish_inactive_snapshot_as_fork fits
  fork_publish_snapshot lease r found h =
      elim (Option-cases
        (to_json (fork_metadata fork_id (lease_record_from_row lease) q.metadata))) [
          | inl gone ↦ ground arith
          | inr (text, prints) ↦ (text, ground arith, ground arith)
        ]

  pub fork_publish_snapshots :
      ((publish_inactive_snapshot_as_fork to_json now fork_id q db).1.snapshots ≡ db.snapshots)
      ⊎ ((n : SnapshotRow) × ((publish_inactive_snapshot_as_fork to_json now fork_id q
              db).1.snapshots
            ≡ db.snapshots ++ n ∷ [])
          × (exists (snapshot_key n.snapshot_id) db.snapshots ≡ false)
          × (n.sequence_number ≡ next_sequence_number n.project_id db))
  fork_publish_snapshots =
      elim (Result-cases (publish_inactive_snapshot_as_fork to_json now fork_id q db).0) [
        | inr (e, h) ↦ inl (ap (λ (d : Db). d.snapshots) (fork_publish_refused e h))
        | inl (r, h) ↦ elim (Option-cases (lease_at db q.lease_id)) [
          | inl gone ↦ absurd (fork_publish_found r h gone)
          | inr (lease, found) ↦
              let (text, stored, fresh) = fork_publish_snapshot lease r found h in
              inr (fork_snapshot_row lease text, stored, fresh, refl)
        ]
      ]

  lease_at-forked :
      (lease : LeaseRow)
      → lease_at db q.lease_id ≡ some lease
      → lease.state ≡ Lease.as_str Lease.inactive
      → find (lease_key q.lease_id) (update (is_inactive_lease q.lease_id) fork_lease db.leases)
        ≡ some (fork_lease lease)
  unfolding Lease.as_str
  lease_at-forked lease found e = ground (
    arith,
    find-update (lease_key q.lease_id) (is_inactive_lease q.lease_id) fork_lease (λ r. refl)
        db.leases,
    find_holds (lease_key q.lease_id) db.leases found,
    eq_iff lease.state "inactive",
  )

  other-forked :
      (k : String)
      → k ≢ q.lease_id
      → find (lease_key k) (update (is_inactive_lease q.lease_id) fork_lease db.leases)
        ≡ lease_at db k
  other-forked k n = elim (Option-cases (lease_at db k)) [
    | inl gone ↦ ground (
      arith,
      find-update (lease_key k) (is_inactive_lease q.lease_id) fork_lease (λ r. refl) db.leases,
    )
    | inr (old, at) ↦ ground (
      arith,
      find-update (lease_key k) (is_inactive_lease q.lease_id) fork_lease (λ r. refl) db.leases,
      lease_at-id db k old at,
      is_ne k q.lease_id n,
      is_ne old.lease_id q.lease_id,
    )
  ]

  -- What an accepted inactive publish answers and leaves.
  abbrev pub Forks : InactiveForkPublishResult → Db → Type 0
  Forks r after =
      (lease : LeaseRow) × (parent : SessionRow) × (n : SnapshotRow) × ((lease_at db q.lease_id
          ≡ some lease)
        × (lease.holder_device_id ≡ some q.holder_device_id)
        × (get_device_revocation q.holder_device_id db ≡ none)
        × (lease.state ≡ Lease.as_str Lease.inactive)
        × (r.canonical_latest_snapshot_id ≡ lease.latest_snapshot_id))
      × ((lease_at after q.lease_id ≡ some (fork_lease lease))
          × ((k : String) → k ≢ q.lease_id → lease_at after k ≡ lease_at db k)
          × (after.handoffs ≡ db.handoffs))
      × ((parent.session_id ≡ q.session_id)
          × (after.sessions ≡ db.sessions ++ fork_session_row parent ∷ []))
      × ((after.snapshots ≡ db.snapshots ++ n ∷ [])
          × (n.session_id ≡ some fork_id)
          × (n.snapshot_id ≡ q.metadata.snapshot_id)
          × (n.pinned ≡ true))

  accepted-Forks :
      (r : InactiveForkPublishResult)
      → (publish_inactive_snapshot_as_fork to_json now fork_id q db).0 ≡ ok r
      → Forks r (publish_inactive_snapshot_as_fork to_json now fork_id q db).1
  accepted-Forks r h = elim (Option-cases (lease_at db q.lease_id)) [
    | inl gone ↦ absurd (fork_publish_found r h gone)
    | inr (lease, found) ↦
        elim (Option-cases
          (find (session_of_project q.session_id q.metadata.project_id) db.sessions)) [
            | inl lost ↦ absurd (fork_publish_parent r h lost)
            | inr (parent, at) ↦
                let (held, trusted, inactive, latest) = fork_publish_lease lease r found h in
                let (text, stored, fresh) = fork_publish_snapshot lease r found h in
                (
                  lease,
                  parent,
                  fork_snapshot_row lease text,
                  (found, held, trusted, inactive, latest),
                  (
                    rw (fork_publish_leases r h) (lease_at-forked lease found inactive),
                    λ k ne. rw (fork_publish_leases r h) (other-forked k ne),
                    fork_publish_handoffs,
                  ),
                  (
                    is→≡ (
                        and_left _ _ (
                          find_holds (session_of_project q.session_id q.metadata.project_id)
                            db.sessions at)),
                    fork_publish_session r parent at h,
                  ),
                  (stored, refl, refl, refl),
                )
          ]
  ]

  -- An inactive publish that fails changes nothing. One that succeeds is of the device that holds
  -- the lease, not revoked, and the lease was inactive: the lease is forked and otherwise as it
  -- was, its latest snapshot too, which the answer names; every other lease and all handoffs are as
  -- they were; the new session is last in its table, a fork of the publishing session; and the
  -- snapshot is last in its table, pinned, and belongs to the new session.
  pub publish_inactive-Forks :
      let (answer, after) = publish_inactive_snapshot_as_fork to_json now fork_id q db in
      ((e : Error) × (answer ≡ err e) × (after ≡ db))
      ⊎ ((r : InactiveForkPublishResult) × (answer ≡ ok r) × Forks r after)
  publish_inactive-Forks =
      elim (Result-cases (publish_inactive_snapshot_as_fork to_json now fork_id q db).0) [
        | inr (e, h) ↦ inl (e, h, fork_publish_refused e h)
        | inl (r, h) ↦ inr (r, h, accepted-Forks r h)
      ]
