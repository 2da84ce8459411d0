-- ===== src/Store/Tables.antt =====
-- The rows of the tables for sessions, snapshots, command trust, devices and pairings
-- (crates/devrelay-core/src/storage.rs), with the columns as SQLite keeps them.
use devrelay.Prelude.{ℕ, String, Bool, Option}
use devrelay.Prelude.Int.{ℤ}

pub record SessionRow : Type 0 where
  pub session_id : String
  pub project_id : String
  pub active_workspace_id : Option String
  pub state : String
  pub name : Option String
  pub parent_session_id : Option String
  pub archived_at_unix_seconds : Option ℤ
  pub created_at_unix_seconds : ℤ
  pub updated_at_unix_seconds : ℤ

-- The sequence numbers that the program inserts are positive.
pub record SnapshotRow : Type 0 where
  pub snapshot_id : String
  pub project_id : String
  pub session_id : Option String
  pub parent_snapshot_id : Option String
  pub sequence_number : ℕ
  pub pinned : Bool
  pub label : Option String
  pub metadata_json : String
  pub created_at_unix_seconds : ℤ

pub record ApprovalRow : Type 0 where
  pub approval_id : ℕ
  pub project_id : String
  pub device_id : String
  pub command_scope : String
  pub command_hash : String
  pub decision : String
  pub consumed_at_unix_seconds : Option ℤ
  pub created_at_unix_seconds : ℤ

pub record FabricRow : Type 0 where
  pub fabric_id : String
  pub fabric_name : String
  pub root_public_key_hex : String
  pub created_at_unix_seconds : ℤ
  pub rotation_epoch : ℤ

pub record DeviceRow : Type 0 where
  pub device_id : String
  pub display_name : String
  pub platform_key : String
  pub architecture : String
  pub capabilities_json : String
  pub paired_at_unix_seconds : Option ℤ
  pub last_seen_unix_seconds : ℤ

pub record IdentityRow : Type 0 where
  pub device_id : String
  pub fabric_id : String
  pub display_name : String
  pub signing_public_key_hex : String
  pub network_public_key_hex : String
  pub platform_key : String
  pub architecture : String
  pub created_at_unix_seconds : ℤ
  pub last_seen_unix_seconds : ℤ

pub record PairingRow : Type 0 where
  pub pairing_id : String
  pub fabric_id : String
  pub local_device_id : String
  pub peer_device_id : String
  pub peer_display_name : String
  pub peer_signing_public_key_hex : String
  pub peer_network_public_key_hex : String
  pub anchor_address : Option String
  pub local_ephemeral_public_key_hex : String
  pub peer_ephemeral_public_key_hex : String
  pub transcript_hash_hex : String
  pub short_authentication_string : String
  pub state : String
  pub certificate_json : Option String
  pub expires_at_unix_seconds : ℤ
  pub confirmed_at_unix_seconds : Option ℤ
  pub aborted_at_unix_seconds : Option ℤ
  pub created_at_unix_seconds : ℤ
