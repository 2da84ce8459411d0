-- ===== src/Store/Handoffs/Reach.antt =====
-- `IsConsistent` through the operations of the database, in any order, with any arguments: all that are
-- modelled but `upsert_lease`, which stores any record as a lease.
use devrelay.Prelude.{ℕ, String, Bool, Option, arith}
use devrelay.Store.Db.{Db, AuditEventInput}
use devrelay.Store.Revocations.{revoke_device_at}
use devrelay.Store.Handoffs.Queries.{Json}
use devrelay.Store.Handoffs.Progress.{
  begin_handoff, record_handoff_target_apply, mark_handoff_target_verified,
  mark_handoff_source_ready,
}
use devrelay.Store.Handoffs.Finish.{
  SnapshotPreflight, abort_handoff_at, commit_handoff_inner, recover_handoff,
}
use devrelay.Store.Handoffs.Change.{Stays, Change, stays}
use devrelay.Store.Handoffs.Effects.{
  begin_handoff-Change, target_apply-Change, target_verified-Change, source_ready-Change,
  abort-Change, commit-Change, recover-Change,
}
use devrelay.Store.Handoffs.Invariant.{IsConsistent}
use devrelay.Session.{SessionState}
use devrelay.SnapshotSchema.{SnapshotMetadata}
use devrelay.Store.Sessions.{insert_session, ensure_default_session, fork_session, archive_session}
use devrelay.Store.Publish.{
  CanonicalPublishRequest, InactiveForkPublishRequest, publish_snapshot_canonical,
  publish_inactive_snapshot_as_fork,
}
use devrelay.Store.Trust.{
  CommandTrustDecision, record_command_trust_decision_at, authorize_command_trust_at,
}
use devrelay.Store.Pairings.{
  PairingSecrets, PairingStartRequest, start_pairing_session, confirm_pairing_session,
  abort_pairing_session, expire_pairing_sessions,
}
use devrelay.Store.Identities.{
  DeviceIdentity, FabricRootIdentity, DevicePublicIdentity, upsert_device_identity,
  upsert_fabric_root_identity, upsert_device_public_identity,
}
use devrelay.Store.Listings.{record_audit_event_at}
use devrelay.Store.Handoffs.Calls.{
  device-Stays, fabric_root-Stays, public_identity-Stays, audit_event-Stays, insert_session-Stays,
  default_session-Stays, fork_session-Stays, archive_session-Stays, decision-Stays, authorize-Stays,
  start_pairing-Stays, confirm_pairing-Stays, abort_pairing-Stays, expire_pairings-Stays,
  publish_canonical-Change, publish_fork-Change,
}
use devrelay.Store.Handoffs.Keeping.{Change-IsConsistent}

-- One call of an operation of the database, by anyone at any time.
pub data Step (json : Json) (db : Db) : Db → Type 0 where
  begin :
      (now : ℕ) (h l source target generation : String) (ttl : ℕ)
      → Step json db (begin_handoff now h l source target generation ttl db).1
  apply :
      (now : ℕ) (h : String) (detail : Option String)
      → Step json db (record_handoff_target_apply json now h detail db).1
  verify : (now : ℕ) (h : String) → Step json db (mark_handoff_target_verified now h db).1
  ready : (now : ℕ) (h : String) → Step json db (mark_handoff_source_ready now h db).1
  abort :
      (h : String) (now : ℕ) (reason : String)
      → Step json db (abort_handoff_at json h now reason db).1
  commit :
      (h generation : String) (now : ℕ) (preflight : Option SnapshotPreflight)
      → Step json db (commit_handoff_inner h generation now preflight db).1
  recover :
      (h generation : String) (now : ℕ) → Step json db (recover_handoff json h generation now db).1
  revoke :
      (device by reason : String) (rotate : Bool) (now : ℕ)
      → Step json db (revoke_device_at device by reason rotate now db).1
  publish :
      (to_json : SnapshotMetadata → Option String) (q : CanonicalPublishRequest)
      → Step json db (publish_snapshot_canonical to_json q db).1
  publish_fork :
      (to_json : SnapshotMetadata → Option String) (now : ℕ) (fork_id : String)
      (q : InactiveForkPublishRequest)
      → Step json db (publish_inactive_snapshot_as_fork to_json now fork_id q db).1
  new_session :
      (now : ℕ) (id project name : String) (parent workspace : Option String) (s : SessionState)
      → Step json db (insert_session now id project name parent workspace s db).1
  default_session :
      (now : ℕ) (id project name : String) (workspace : Option String)
      → Step json db (ensure_default_session now id project name workspace db).1
  copy_session :
      (now : ℕ) (fork_id id name : String) → Step json db (fork_session now fork_id id name db).1
  close_session : (now : ℕ) (id : String) → Step json db (archive_session now id db).1
  decide :
      (project device scope hash : String) (decision : CommandTrustDecision) (now : ℕ)
      → Step json db (record_command_trust_decision_at project device scope hash decision now db).1
  authorize :
      (project device scope hash : String) (now : ℕ)
      → Step json db (authorize_command_trust_at project device scope hash now db).1
  pair :
      (now : ℕ) (secrets : PairingSecrets) (request : PairingStartRequest)
      → Step json db (start_pairing_session now secrets request db).1
  confirm :
      (parses : Bool) (id code certificate : String) (now : ℕ)
      → Step json db (confirm_pairing_session parses id code certificate now db).1
  give_up : (id : String) (now : ℕ) → Step json db (abort_pairing_session id now db).1
  expire : (now : ℕ) → Step json db (expire_pairing_sessions now db).1
  save_device : (device : DeviceIdentity) → Step json db (upsert_device_identity device db).1
  save_root : (root : FabricRootIdentity) → Step json db (upsert_fabric_root_identity root db).1
  save_identity :
      (device : DevicePublicIdentity) → Step json db (upsert_device_public_identity device db).1
  audit : (input : AuditEventInput) (now : ℕ) → Step json db (record_audit_event_at input now db).1

pub data Reach (json : Json) (db : Db) : Db → Type 0 where
  here : Reach json db db
  next : {mid after : Db} → Reach json db mid → Step json mid after → Reach json db after

revoke-Stays :
    (device by reason : String) (rotate : Bool) (now : ℕ) (db : Db)
    → Stays db (revoke_device_at device by reason rotate now db).1
unfolding revoke_device_at
revoke-Stays device by reason rotate now db = ground arith

-- Every operation of `Step`, with any arguments and on any database, makes one of the seven changes.
pub Step-Change : {json : Json} {db after : Db} → Step json db after → Change db after
Step-Change {json} {db} (begin now h l source target generation ttl) =
    begin_handoff-Change now h l source target generation ttl db
Step-Change {json} {db} (apply now h detail) = target_apply-Change json now h detail db
Step-Change {json} {db} (verify now h) = target_verified-Change now h db
Step-Change {json} {db} (ready now h) = source_ready-Change now h db
Step-Change {json} {db} (abort h now reason) = abort-Change json h now reason db
Step-Change {json} {db} (commit h generation now preflight) =
    commit-Change h generation now preflight db
Step-Change {json} {db} (recover h generation now) = recover-Change json h generation now db
Step-Change {json} {db} (revoke device by reason rotate now) =
    stays (revoke-Stays device by reason rotate now db)
Step-Change {json} {db} (publish to_json q) = publish_canonical-Change to_json q db
Step-Change {json} {db} (publish_fork to_json now fork_id q) =
    publish_fork-Change to_json now fork_id q db
Step-Change {json} {db} (new_session now id project name parent workspace s) =
    stays (insert_session-Stays now id project name parent workspace s db)
Step-Change {json} {db} (default_session now id project name workspace) =
    stays (default_session-Stays now id project name workspace db)
Step-Change {json} {db} (copy_session now fork_id id name) =
    stays (fork_session-Stays now fork_id id name db)
Step-Change {json} {db} (close_session now id) = stays (archive_session-Stays now id db)
Step-Change {json} {db} (decide project device scope hash decision now) =
    stays (decision-Stays project device scope hash decision now db)
Step-Change {json} {db} (authorize project device scope hash now) =
    stays (authorize-Stays project device scope hash now db)
Step-Change {json} {db} (pair now secrets request) =
    stays (start_pairing-Stays now secrets request db)
Step-Change {json} {db} (confirm parses id code certificate now) =
    stays (confirm_pairing-Stays parses id code certificate now db)
Step-Change {json} {db} (give_up id now) = stays (abort_pairing-Stays id now db)
Step-Change {json} {db} (expire now) = stays (expire_pairings-Stays now db)
Step-Change {json} {db} (save_device device) = stays (device-Stays device db)
Step-Change {json} {db} (save_root root) = stays (fabric_root-Stays root db)
Step-Change {json} {db} (save_identity device) = stays (public_identity-Stays device db)
Step-Change {json} {db} (audit input now) = stays (audit_event-Stays input now db)

-- From a consistent database, any sequence of the operations of `Step`, with any arguments, keeps
-- leases and handoffs consistent.
pub Reach-IsConsistent :
    {json : Json} {db after : Db} → Reach json db after → IsConsistent db → IsConsistent after
Reach-IsConsistent here c = c
Reach-IsConsistent (next {mid} {after} r s) c =
    Change-IsConsistent mid after (Step-Change s) (Reach-IsConsistent r c)
