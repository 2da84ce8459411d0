-- ===== src/Store/Db.antt =====
-- The tables of crates/devrelay-core/src/storage.rs after its migrations, one record for each row
-- with the columns as SQLite keeps them, and the `..._from_row` decoders.
use devrelay.Prelude.{ℕ, String, Bool, Option, none, some, List}
use devrelay.Prelude.Int.{ℤ, max_0}
use devrelay.Lease
use devrelay.Lease.{LeaseRecord}
use devrelay.Handoff
use devrelay.Handoff.{HandoffRecord, HandoffJournalPhase}
use devrelay.Store.Tables.{
  SessionRow, SnapshotRow, ApprovalRow, DeviceRow, FabricRow, IdentityRow, PairingRow,
}

pub record ProjectRow : Type 0 where
  pub project_id : String
  pub display_name : String

pub record LeaseRow : Type 0 where
  pub lease_id : String
  pub project_id : String
  pub holder_workspace_id : Option String
  pub state : String
  pub expires_at_unix_seconds : Option ℤ
  pub session_id : Option String
  pub epoch : ℤ
  pub holder_device_id : Option String
  pub latest_snapshot_id : Option String
  pub handoff_id : Option String

pub record HandoffRow : Type 0 where
  pub handoff_id : String
  pub project_id : String
  pub source_workspace_id : Option String
  pub target_workspace_id : Option String
  pub state : String
  pub lease_id : Option String
  pub expected_epoch : Option ℤ
  pub source_device_id : Option String
  pub target_device_id : Option String
  pub source_generation : Option String
  pub expires_at_unix_seconds : Option ℤ
  pub committed_at_unix_seconds : Option ℤ
  pub aborted_at_unix_seconds : Option ℤ
  pub created_at_unix_seconds : ℤ

pub record JournalRow : Type 0 where
  pub journal_id : ℕ
  pub handoff_id : String
  pub lease_id : String
  pub project_id : String
  pub phase : String
  pub detail_json : String
  pub created_at_unix_seconds : ℤ

pub record RevocationRow : Type 0 where
  pub device_id : String
  pub revoked_by_device_id : String
  pub reason : String
  pub key_rotation_required : Bool
  pub revoked_at_unix_seconds : ℤ

pub data AuditEventType : Type 0 where
  device_paired device_revoked snapshot_published snapshot_applied lease_transferred
        editor_context_updated editor_restore_acked command_approved security_blocked
        backup_promoted :
      AuditEventType

pub data AuditOutcome : Type 0 where
  succeeded failed blocked : AuditOutcome

-- The JSON objects that the operations attach to an audit event, one constructor for each.
pub data AuditDetail : Type 0 where
  lease_transfer :
      (from_device_id to_device_id : String) (previous_epoch next_epoch : ℕ) → AuditDetail
  revocation : (reason : String) (key_rotation_required : Bool) → AuditDetail
  canonical_publish :
      (expected_epoch actual_epoch : ℕ)
      (expected_latest_snapshot_id previous_latest_snapshot_id : Option String) (pinned : Bool)
      (label : Option String)
      → AuditDetail
  inactive_fork :
      (source_session_id fork_session_id : String) (canonical_latest_snapshot_id : Option String)
      (label : String)
      → AuditDetail
  command_decision : (command_scope command_hash decision : String) → AuditDetail
  pairing : (pairing_id fabric_id : String) (confirmed_at_unix_seconds : ℕ) → AuditDetail

pub record AuditEventInput : Type 0 where
  pub event_type : AuditEventType
  pub outcome : AuditOutcome
  pub summary : String
  pub project_id : Option String
  pub actor_device_id : Option String
  pub target_device_id : Option String
  pub session_id : Option String
  pub snapshot_id : Option String
  pub lease_id : Option String
  pub handoff_id : Option String
  pub detail : AuditDetail

pub record AuditRow : Type 0 where
  pub audit_id : ℕ
  pub event : AuditEventInput
  pub created_at_unix_seconds : ℤ

pub data MetadataDbFaultPoint : Type 0 where
  during_lease_commit : MetadataDbFaultPoint

-- `MetadataDb`. The counters are the sequences behind the AUTOINCREMENT keys; of the table of
-- workspaces, which only foreign keys read here, the keys are kept.
pub record Db : Type 0 where
  pub projects : List ProjectRow
  pub leases : List LeaseRow
  pub handoffs : List HandoffRow
  pub handoff_journal : List JournalRow
  pub journal_sequence : ℕ
  pub audit_events : List AuditRow
  pub audit_sequence : ℕ
  pub device_revocations : List RevocationRow
  pub workspaces : List String
  pub sessions : List SessionRow
  pub snapshots : List SnapshotRow
  pub command_trust_approvals : List ApprovalRow
  pub approval_sequence : ℕ
  pub devices : List DeviceRow
  pub fabric_roots : List FabricRow
  pub device_public_identities : List IdentityRow
  pub pairing_sessions : List PairingRow
  pub fault : Option MetadataDbFaultPoint

abbrev pub unwrap_or {ℓ} : {A : Type ℓ} → Option A → A → A
unwrap_or none a = a
unwrap_or (some b) a = b

abbrev pub unwrap_or_0 : Option ℤ → ℕ
unwrap_or_0 none = 0
unwrap_or_0 (some z) = max_0 z

unfoldable pub lease_record_from_row : LeaseRow → LeaseRecord
lease_record_from_row row = record {
  lease_id = row.lease_id;
  project_id = row.project_id;
  session_id = unwrap_or row.session_id "unknown-session";
  state = Lease.parse_lease_state row.state;
  epoch = max_0 row.epoch;
  holder_device_id = row.holder_device_id;
  latest_snapshot_id = row.latest_snapshot_id;
  handoff_id = row.handoff_id;
}

unfoldable pub handoff_record_from_row : HandoffRow → HandoffRecord
handoff_record_from_row row = record {
  handoff_id = row.handoff_id;
  lease_id = unwrap_or row.lease_id "unknown-lease";
  project_id = row.project_id;
  expected_epoch = unwrap_or_0 row.expected_epoch;
  source_device_id = unwrap_or row.source_device_id "";
  target_device_id = unwrap_or row.target_device_id "";
  source_generation = unwrap_or row.source_generation "";
  expires_at_unix_seconds = unwrap_or_0 row.expires_at_unix_seconds;
  state = Handoff.parse row.state;
}

pub record DeviceRevocationRecord : Type 0 where
  pub device_id : String
  pub revoked_by_device_id : String
  pub reason : String
  pub key_rotation_required : Bool
  pub revoked_at_unix_seconds : ℕ

unfoldable pub device_revocation_from_row : RevocationRow → DeviceRevocationRecord
device_revocation_from_row row = record {
  device_id = row.device_id;
  revoked_by_device_id = row.revoked_by_device_id;
  reason = row.reason;
  key_rotation_required = row.key_rotation_required;
  revoked_at_unix_seconds = max_0 row.revoked_at_unix_seconds;
}
