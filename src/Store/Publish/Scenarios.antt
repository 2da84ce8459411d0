-- ===== src/Store/Publish/Scenarios.antt =====
-- One lease of device `a`, active or inactive, and its publishes: the theorems at concrete inputs.
use devrelay.Prelude.{
  ◌≡◌, ◌≢◌, ◌↔◌, refl, String, false, Option, none, some, [], ◌∷◌, ◌++◌, ◌⊎◌, arith,
}
use devrelay.Prelude.Int.{pos}
use devrelay.Sql.{count}
use devrelay.Lease
use devrelay.SnapshotSchema.{SnapshotMetadata, validate}
use devrelay.Store.Audit.{is_blank}
use devrelay.Store.Db.{Db, LeaseRow, lease_record_from_row}
use devrelay.Store.Tx.{Error, ok, err, stale_publish}
use devrelay.Store.Handoffs.Change.{lease_at}
use devrelay.Store.Publish.{
  CanonicalPublishRequest, InactiveForkPublishRequest, InactiveForkPublishResult,
  publish_snapshot_canonical, publish_inactive_snapshot_as_fork, stale_reason, fits,
}
use devrelay.Store.Publish.Canonical.{published_row, publish_result}
use devrelay.Store.Publish.CompareAndSwap.{
  Stored, Expects, latest_set, publish_canonical_iff, publish_canonical_advances,
  publish_canonical_fails,
}
use devrelay.Store.Publish.Fork.{Forks, publish_inactive-Forks}
use devrelay.Store.Publish.Numbering.{IsNumbered, publish-IsNumbered}

abbrev lease : LeaseRow
lease = record {
  lease_id = "l";
  project_id = "p";
  holder_workspace_id = none;
  state = "active";
  expires_at_unix_seconds = none;
  session_id = some "s";
  epoch = pos 1;
  holder_device_id = some "a";
  latest_snapshot_id = none;
  handoff_id = none;
}

abbrev db : Db
db = record {
  projects = record { project_id = "p"; display_name = "demo" } ∷ [];
  leases = lease ∷ [];
  handoffs = [];
  handoff_journal = [];
  journal_sequence = 0;
  audit_events = [];
  audit_sequence = 0;
  device_revocations = [];
  workspaces = [];
  sessions =
      record {
        session_id = "s";
        project_id = "p";
        active_workspace_id = none;
        state = "active";
        name = some "demo";
        parent_session_id = none;
        archived_at_unix_seconds = none;
        created_at_unix_seconds = pos 1;
        updated_at_unix_seconds = pos 1;
      }
      ∷ [];
  snapshots = [];
  command_trust_approvals = [];
  approval_sequence = 0;
  devices = [];
  fabric_roots = [];
  device_public_identities = [];
  pairing_sessions = [];
  fault = none;
}

abbrev inactive_db : Db
inactive_db = record db { leases = record lease { state = "inactive" } ∷ [] }

abbrev meta : SnapshotMetadata
meta = record {
  schema_version = 1;
  snapshot_id = "s1_0123456789abcdef01234567";
  project_id = "p";
  project_name = "demo";
  session_id = some "s";
  parent_snapshot_id = none;
  child_snapshots = [];
  head_oid = "h";
  index_tree_oid = "i";
  index_commit_oid = "j";
  work_tree_oid = "w";
  work_commit_oid = "x";
  sidecars = [];
  state_hash = "y";
  created_at_unix_seconds = 140;
}

abbrev to_json : SnapshotMetadata → Option String
to_json m = some "{}"

abbrev request : CanonicalPublishRequest
request = record {
  lease_id = "l";
  session_id = "s";
  expected_epoch = 1;
  holder_device_id = "a";
  expected_latest_snapshot_id = none;
  metadata = meta;
  pinned = false;
  label = none;
}

-- A publisher that has missed an epoch.
abbrev stale_request : CanonicalPublishRequest
stale_request = record request { expected_epoch = 0 }

abbrev fork_request : InactiveForkPublishRequest
fork_request = record {
  lease_id = "l";
  session_id = "s";
  holder_device_id = "a";
  metadata = meta;
  label = none;
}

publish_canonical_iff_example :
    ((publish_snapshot_canonical to_json request db).0 ≡ ok (publish_result request db)) ↔ (
      (found : LeaseRow) × (text : String) × Stored to_json request db found text
      × Expects request found)
publish_canonical_iff_example = publish_canonical_iff to_json request db

accepted : (publish_snapshot_canonical to_json request db).0 ≡ ok (publish_result request db)
unfolding publish_snapshot_canonical validate lease_record_from_row Lease.parse_lease_state fits
    stale_reason is_blank
accepted = refl

publish_canonical_advances_example :
    (found : LeaseRow) × (text : String) × (publish_result request db ≡ publish_result request db)
    × (lease_at db "l" ≡ some found)
    × (let after = (publish_snapshot_canonical to_json request db).1 in
        (after.snapshots ≡ db.snapshots ++ published_row request db text ∷ [])
        × (lease_at after "l" ≡ some (latest_set to_json request db found))
        × ((k : String) → k ≢ "l" → lease_at after k ≡ lease_at db k)
        × (after.handoffs ≡ db.handoffs)
        × (after.sessions ≡ db.sessions))
publish_canonical_advances_example =
    publish_canonical_advances to_json request db (publish_result request db) accepted

refused :
    (publish_snapshot_canonical to_json stale_request db).0
    ≡ err (stale_publish "lease epoch changed; refresh before publishing")
unfolding publish_snapshot_canonical validate lease_record_from_row Lease.parse_lease_state fits
    stale_reason is_blank
refused = refl

publish_canonical_fails_example :
    let after = (publish_snapshot_canonical to_json stale_request db).1 in
    (after ≡ db)
    ⊎ ((found : LeaseRow) × (text : String) × Stored to_json stale_request db found text
        × ¬ Expects stale_request found
        × ((after.snapshots ≡ db.snapshots ++ published_row stale_request db text ∷ [])
            × (after.leases ≡ db.leases)
            × (after.handoffs ≡ db.handoffs)
            × (after.sessions ≡ db.sessions)))
publish_canonical_fails_example =
    publish_canonical_fails to_json stale_request db
      (stale_publish "lease epoch changed; refresh before publishing") refused

publish_inactive-Forks_example :
    let (answer, after) =
      publish_inactive_snapshot_as_fork to_json 150 "f" fork_request inactive_db in
    ((e : Error) × (answer ≡ err e) × (after ≡ inactive_db))
    ⊎ ((r : InactiveForkPublishResult) × (answer ≡ ok r)
        × Forks to_json 150 "f" fork_request inactive_db r after)
publish_inactive-Forks_example = publish_inactive-Forks to_json 150 "f" fork_request inactive_db

publish-IsNumbered_example :
    IsNumbered (publish_snapshot_canonical to_json request db).1.snapshots
    × IsNumbered (publish_inactive_snapshot_as_fork to_json 150 "f" fork_request db).1.snapshots
unfolding count
publish-IsNumbered_example =
    publish-IsNumbered to_json request 150 "f" fork_request db
      (record { ids = λ i. ground arith; numbers = λ p s. ground arith })
