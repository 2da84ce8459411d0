-- ===== src/Store/Publish.antt =====
-- `publish_snapshot_canonical` and `publish_inactive_snapshot_as_fork` of
-- crates/devrelay-core/src/storage.rs. What serde_json prints for a snapshot's metadata, the clock and
-- fresh ids are arguments.
pub mod Canonical
pub mod CompareAndSwap
pub mod Fork
pub mod Fencing
pub mod Numbering
mod Scenarios
use Prim.Native.String.{◌++◌ as append, compare}
use Prim.Native.Nat.{Ordering}
use devrelay.Prelude.{
  ℕ, suc, String, Bool, true, false, ◌&&◌, ◌||◌, not, Option, none, some, List, [], ◌∷◌, ltb, ◌++◌,
  ◌==◌, ◌is◌, is_some_of, option_is, if◌then◌else◌,
}
use devrelay.Prelude.Int.{as_i64, max_0}
use devrelay.Sql.{find, exists, filter, update, count, greatest, order_by}
use devrelay.Lease
use devrelay.Lease.{LeaseRecord}
use devrelay.Session
use devrelay.Session.{StoredSession}
use devrelay.SnapshotSchema.{SnapshotMetadata, validate}
use devrelay.Store.Tables.{SessionRow, SnapshotRow}
use devrelay.Store.Db.{
  Db, LeaseRow, AuditEventInput, unwrap_or, snapshot_published, succeeded, blocked,
  canonical_publish, inactive_fork,
}
use devrelay.Store.Tx.{
  Result, ok, err, Tx, pure, fail, guard, constrain, execute, commit_ok, commit_err, transaction,
  ◌>>=◌, ◌>>◌, session_mismatch, lease_project_mismatch, lease_session_mismatch, holder_mismatch,
  unknown_session, publish_rejected, fork_requires_inactive, lease_transition, stale_publish,
  snapshot_metadata, lost_lease_state_race, invalid_json,
}
use devrelay.Store.Audit.{new_event, insert_audit_event_tx}
use devrelay.Store.Revocations.{ensure_device_not_revoked}
use devrelay.Store.Handoffs.Queries.{lease_key, lease_by_id, has_project}
use devrelay.Store.Sessions.{
  in_project, session_key, stored_session_from_row, refers, insert_session_row, new_session_row,
}

pub record CanonicalPublishRequest : Type 0 where
  pub lease_id : String
  pub session_id : String
  pub expected_epoch : ℕ
  pub holder_device_id : String
  pub expected_latest_snapshot_id : Option String
  pub metadata : SnapshotMetadata
  pub pinned : Bool
  pub label : Option String

pub record StoredSnapshot : Type 0 where
  pub snapshot_id : String
  pub project_id : String
  pub session_id : Option String
  pub parent_snapshot_id : Option String
  pub sequence_number : ℕ
  pub pinned : Bool
  pub label : Option String
  pub metadata : SnapshotMetadata
  pub created_at_unix_seconds : ℕ

pub record CanonicalPublishResult : Type 0 where
  pub snapshot : StoredSnapshot
  pub latest_snapshot_id : String

pub record InactiveForkPublishRequest : Type 0 where
  pub lease_id : String
  pub session_id : String
  pub holder_device_id : String
  pub metadata : SnapshotMetadata
  pub label : Option String

pub record InactiveForkPublishResult : Type 0 where
  pub fork_session : StoredSession
  pub snapshot : StoredSnapshot
  pub canonical_latest_snapshot_id : Option String

abbrev pub check_metadata : SnapshotMetadata → Tx (Unit {0})
check_metadata metadata db = elim (validate metadata) [
  | none ↦ pure tt db
  | some e ↦ fail (snapshot_metadata e) db
]

-- `serde_json::to_string(...)?`.
abbrev pub printed : Option String → Tx String
printed none db = fail invalid_json db
printed (some text) db = pure text db

abbrev pub snapshot_key : String → SnapshotRow → Bool
snapshot_key snapshot_id row = row.snapshot_id is snapshot_id

abbrev pub of_project : String → SnapshotRow → Bool
of_project project_id row = row.project_id is project_id

abbrev pub sequence : SnapshotRow → ℕ
sequence row = row.sequence_number

-- `SELECT COALESCE(MAX(sequence_number), 0) + 1 FROM snapshots WHERE project_id = ?1`
abbrev pub next_sequence_number : String → Db → ℕ
next_sequence_number project_id db = suc (greatest (of_project project_id) sequence db.snapshots)

abbrev pub session_of_project : (session_id project_id : String) → SessionRow → Bool
session_of_project session_id project_id row =
    session_key session_id row && row.project_id is project_id

-- The row that both publishing operations insert.
abbrev pub snapshot_row :
    SnapshotMetadata
    → (session_id : String) (sequence_number : ℕ) (pinned : Bool) (label : Option String)
      (metadata_json : String)
    → SnapshotRow
snapshot_row metadata session_id sequence_number pinned label metadata_json = record {
  snapshot_id = metadata.snapshot_id;
  project_id = metadata.project_id;
  session_id = some session_id;
  parent_snapshot_id = metadata.parent_snapshot_id;
  sequence_number = sequence_number;
  pinned = pinned;
  label = label;
  metadata_json = metadata_json;
  created_at_unix_seconds = as_i64 metadata.created_at_unix_seconds;
}

-- `INSERT INTO snapshots`, with its primary key and its foreign keys. The key of the parent may name
-- the row itself.
unfoldable pub fits : SnapshotRow → Db → Bool
unfolding exists
fits row db =
    not (exists (snapshot_key row.snapshot_id) db.snapshots)
    && has_project row.project_id db
    && refers (λ s. exists (session_key s) db.sessions) row.session_id
    && refers (λ s. row.snapshot_id is s || exists (snapshot_key s) db.snapshots)
        row.parent_snapshot_id

abbrev pub insert_snapshot : SnapshotRow → Tx (Unit {0})
insert_snapshot row = do
  constrain (fits row)
  execute λ db. record db { snapshots = db.snapshots ++ row ∷ [] }

abbrev pub stored_snapshot :
    SnapshotMetadata
    → (session_id : String) (sequence_number : ℕ) (pinned : Bool) (label : Option String)
    → StoredSnapshot
stored_snapshot metadata session_id sequence_number pinned label = record {
  snapshot_id = metadata.snapshot_id;
  project_id = metadata.project_id;
  session_id = some session_id;
  parent_snapshot_id = metadata.parent_snapshot_id;
  sequence_number = sequence_number;
  pinned = pinned;
  label = label;
  metadata = metadata;
  created_at_unix_seconds = metadata.created_at_unix_seconds;
}

-- Why a publish may not advance the lease's latest snapshot.
unfoldable pub stale_reason : CanonicalPublishRequest → LeaseRecord → Option String
stale_reason request lease =
    if not (lease.epoch == request.expected_epoch)
    then some "lease epoch changed; refresh before publishing"
    else if not (option_is lease.latest_snapshot_id request.expected_latest_snapshot_id)
    then some "canonical latest changed; recover or fork before publishing"
    else none

-- `UPDATE leases SET latest_snapshot_id = ?1 WHERE lease_id = ?2`, unless the publish is stale.
abbrev pub advance : Option String → (lease_id snapshot_id : String) → Tx (Unit {0})
advance (some _) lease_id snapshot_id = pure tt
advance none lease_id snapshot_id = execute λ db. record db {
  leases =
      update (lease_key lease_id) (λ r. record r { latest_snapshot_id = some snapshot_id })
        db.leases;
}

abbrev pub canonical_event : CanonicalPublishRequest → LeaseRecord → Option String → AuditEventInput
canonical_event request lease stale =
    record (new_event snapshot_published (elim stale [ none ↦ succeeded | some _ ↦ blocked ])
      (elim stale [
        | none ↦ "snapshot published as canonical latest"
        | some _ ↦ "snapshot stored without advancing canonical latest"
      ])
      (canonical_publish request.expected_epoch lease.epoch request.expected_latest_snapshot_id
        lease.latest_snapshot_id request.pinned request.label)) {
          project_id = some request.metadata.project_id;
          actor_device_id = some request.holder_device_id;
          session_id = some request.session_id;
          snapshot_id = some request.metadata.snapshot_id;
          lease_id = some request.lease_id;
        }

-- A stale publish is committed, and then reported.
abbrev pub finish_publish : Option String → StoredSnapshot → Tx (Result CanonicalPublishResult)
finish_publish (some detail) snapshot = commit_err (stale_publish detail)
finish_publish none snapshot =
    commit_ok (record { snapshot = snapshot; latest_snapshot_id = snapshot.snapshot_id })

-- The checks of `publish_snapshot_canonical`, up to the printing of the metadata.
unfoldable pub publishable_lease : CanonicalPublishRequest → Tx LeaseRecord
unfolding exists lease_by_id ensure_device_not_revoked
publishable_lease request = do
  check_metadata request.metadata
  guard (is_some_of request.metadata.session_id request.session_id) session_mismatch
  lease ← lease_by_id request.lease_id
  guard (lease.project_id is request.metadata.project_id) lease_project_mismatch
  guard (lease.session_id is request.session_id) lease_session_mismatch
  λ db.
      guard (exists (session_of_project request.session_id request.metadata.project_id) db.sessions)
        (unknown_session request.session_id) db
  guard (is_some_of lease.holder_device_id request.holder_device_id) holder_mismatch
  ensure_device_not_revoked request.holder_device_id "snapshot publish"
  guard (Lease.same_state lease.state Lease.active) (publish_rejected lease.state)
  pure lease

-- Its statements, from the printing of the metadata on.
unfoldable pub store_canonical :
    (metadata_json : Option String)
    → CanonicalPublishRequest
    → LeaseRecord
    → Tx (Result CanonicalPublishResult)
unfolding update greatest insert_audit_event_tx
store_canonical metadata_json request lease = do
  text ← printed metadata_json
  sequence_number ← λ db. pure (next_sequence_number request.metadata.project_id db) db
  insert_snapshot (
      snapshot_row request.metadata request.session_id sequence_number request.pinned request.label
        text)
  let stale : Option String = stale_reason request lease
  advance stale request.lease_id request.metadata.snapshot_id
  insert_audit_event_tx (canonical_event request lease stale)
      request.metadata.created_at_unix_seconds
  finish_publish stale (
      stored_snapshot request.metadata request.session_id sequence_number request.pinned
        request.label)

unfoldable pub publish_snapshot_canonical :
    (to_json : SnapshotMetadata → Option String)
    → CanonicalPublishRequest
    → Db
    → Result CanonicalPublishResult × Db
unfolding publishable_lease store_canonical
publish_snapshot_canonical to_json request =
    transaction
      do lease ← publishable_lease request; store_canonical (to_json request.metadata) request lease

-- `SELECT ... FROM sessions WHERE session_id = ?1 AND project_id = ?2`
abbrev parent_session : (session_id project_id : String) → Tx StoredSession
parent_session session_id project_id db =
    elim (find (session_of_project session_id project_id) db.sessions) [
      | none ↦ fail (unknown_session session_id) db
      | some row ↦ pure (stored_session_from_row row) db
    ]

abbrev check_transition : LeaseRecord → LeaseRecord → Tx (Unit {0})
check_transition lease next db = elim (Lease.validate_transition_to lease next) [
  | none ↦ pure tt db
  | some e ↦ fail (lease_transition e) db
]

-- The metadata of the snapshot that goes to the fork.
abbrev pub fork_metadata :
    (fork_session_id : String) → LeaseRecord → SnapshotMetadata → SnapshotMetadata
fork_metadata fork_session_id lease metadata = record metadata {
  session_id = some fork_session_id;
  parent_snapshot_id = elim metadata.parent_snapshot_id [
    | none ↦ lease.latest_snapshot_id
    | some parent ↦ some parent
  ];
}

-- `WHERE lease_id = ?2 AND state = ?3`
abbrev pub is_inactive_lease : String → LeaseRow → Bool
is_inactive_lease lease_id r = lease_key lease_id r && r.state is Lease.as_str Lease.inactive

abbrev pub fork_lease : LeaseRow → LeaseRow
fork_lease r = record r { state = Lease.as_str Lease.forked }

abbrev fork_event :
    InactiveForkPublishRequest
    → LeaseRecord
    → (fork_session_id label : String) → SnapshotMetadata
    → AuditEventInput
fork_event request lease fork_session_id label metadata =
    record (new_event snapshot_published blocked "inactive workspace snapshot stored as fork"
      (inactive_fork request.session_id fork_session_id lease.latest_snapshot_id label)) {
        project_id = some metadata.project_id;
        actor_device_id = some request.holder_device_id;
        session_id = some fork_session_id;
        snapshot_id = some metadata.snapshot_id;
        lease_id = some request.lease_id;
      }

-- `fork_session_id` is what `generate_session_id()` returns, and `now` is `unix_now_seconds()`.
unfoldable pub publish_inactive_snapshot_as_fork :
    (to_json : SnapshotMetadata → Option String) (now : ℕ) (fork_session_id : String)
    → InactiveForkPublishRequest
    → Db
    → Result InactiveForkPublishResult × Db
unfolding find exists update count greatest lease_by_id ensure_device_not_revoked
    insert_audit_event_tx stored_session_from_row Lease.validate_transition_to Lease.as_str
    Session.as_str
publish_inactive_snapshot_as_fork to_json now fork_session_id request = transaction do
  guard (is_some_of request.metadata.session_id request.session_id) session_mismatch
  lease ← lease_by_id request.lease_id
  guard (lease.project_id is request.metadata.project_id) lease_project_mismatch
  guard (lease.session_id is request.session_id) lease_session_mismatch
  guard (is_some_of lease.holder_device_id request.holder_device_id) holder_mismatch
  ensure_device_not_revoked request.holder_device_id "inactive publish"
  guard (Lease.same_state lease.state Lease.inactive) (fork_requires_inactive lease.state)
  parent ← parent_session request.session_id request.metadata.project_id
  check_transition lease (record lease { state = Lease.forked })
  let fork_name : String = append "Separate work from " parent.name
  insert_session_row (
      new_session_row now fork_session_id parent.project_id fork_name (some parent.session_id)
        parent.active_workspace_id Session.fork)
  let metadata : SnapshotMetadata = fork_metadata fork_session_id lease request.metadata
  check_metadata metadata
  metadata_json ← printed (to_json metadata)
  sequence_number ← λ db. pure (next_sequence_number metadata.project_id db) db
  let label : String = unwrap_or request.label "separate work from inactive workspace"
  insert_snapshot
      (snapshot_row metadata fork_session_id sequence_number true (some label) metadata_json)
  λ db. guard (count (is_inactive_lease request.lease_id) db.leases == 1) lost_lease_state_race db
  execute
      λ db. record db { leases = update (is_inactive_lease request.lease_id) fork_lease db.leases }
  insert_audit_event_tx (fork_event request lease fork_session_id label metadata)
      metadata.created_at_unix_seconds
  commit_ok (record {
    fork_session = record {
      session_id = fork_session_id;
      project_id = parent.project_id;
      name = fork_name;
      parent_session_id = some parent.session_id;
      active_workspace_id = parent.active_workspace_id;
      state = Session.fork;
      archived_at_unix_seconds = none;
      created_at_unix_seconds = now;
      updated_at_unix_seconds = now;
    };
    snapshot = stored_snapshot metadata fork_session_id sequence_number true (some label);
    canonical_latest_snapshot_id = lease.latest_snapshot_id;
  })

unfoldable pub stored_snapshot_from_row :
    (from_json : String → Option SnapshotMetadata) → SnapshotRow → Result StoredSnapshot
stored_snapshot_from_row from_json row = elim (from_json row.metadata_json) [
  | none ↦ err invalid_json
  | some metadata ↦ ok (record {
    snapshot_id = row.snapshot_id;
    project_id = row.project_id;
    session_id = row.session_id;
    parent_snapshot_id = row.parent_snapshot_id;
    sequence_number = row.sequence_number;
    pinned = row.pinned;
    label = row.label;
    metadata = metadata;
    created_at_unix_seconds = max_0 row.created_at_unix_seconds;
  })
]

-- `collect()`: the first error, or all the records.
unfoldable pub decode_all :
    (from_json : String → Option SnapshotMetadata) → List SnapshotRow → Result (List StoredSnapshot)
unfolding stored_snapshot_from_row
decode_all from_json [] = ok []
decode_all from_json (row ∷ rows) =
    let rest = decode_all from_json rows in
    elim (stored_snapshot_from_row from_json row) [
      | err e ↦ err e
      | ok snapshot ↦ elim rest [ err e ↦ err e | ok snapshots ↦ ok (snapshot ∷ snapshots) ]
    ]

-- `ORDER BY project_id ASC, sequence_number ASC`; within one project it is
-- `ORDER BY sequence_number ASC`.
abbrev pub sequence_before : SnapshotRow → SnapshotRow → Bool
sequence_before a b = elim (compare a.project_id b.project_id) [
  | Ordering.lt ↦ true
  | Ordering.eq ↦ ltb a.sequence_number b.sequence_number
  | Ordering.gt ↦ false
]

unfoldable pub list_stored_snapshots :
    (from_json : String → Option SnapshotMetadata)
    → Option String
    → Db
    → Result (List StoredSnapshot)
unfolding filter order_by decode_all
list_stored_snapshots from_json project_id db =
    decode_all from_json
      (order_by sequence_before (filter (λ r. in_project project_id r.project_id) db.snapshots))
