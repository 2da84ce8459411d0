-- ===== src/Store/Handoffs/Calls.antt =====
-- What the operations on sessions, snapshots, command trust, pairings, identities and audit events change of the leases and the
-- handoffs: nothing, or what `Edits` allows.
use devrelay.Prelude.{
  ℕ, ◌≡◌, ◌↔◌, refl, String, Bool, true, Option, inl, inr, arith, eq_iff, Option-cases,
}
use devrelay.Lease
use devrelay.Session.{SessionState}
use devrelay.SnapshotSchema.{SnapshotMetadata}
use devrelay.Store.Db.{Db, AuditEventInput, LeaseRow, lease_record_from_row}
use devrelay.Store.Tx.Laws.{Result-cases}
use devrelay.Store.Handoffs.Queries.{lease_key}
use devrelay.Store.Handoffs.Change.{Stays, Change, stays, edits}
use devrelay.Store.Sessions.{insert_session, ensure_default_session, fork_session, archive_session}
use devrelay.Store.Publish.{
  CanonicalPublishRequest, InactiveForkPublishRequest, publish_snapshot_canonical,
  publish_inactive_snapshot_as_fork, is_inactive_lease, fork_lease, stale_reason,
}
use devrelay.Store.Publish.CompareAndSwap.{publish_outcome, latest_set}
use devrelay.Store.Publish.Fork.{fork_publish_refused, fork_publish_leases, fork_publish_handoffs}
use devrelay.Store.Trust.{
  CommandTrustDecision, record_command_trust_decision_at, authorize_command_trust_at,
}
use devrelay.Store.Identities.{
  DeviceIdentity, FabricRootIdentity, DevicePublicIdentity, upsert_device_identity,
  upsert_fabric_root_identity, upsert_device_public_identity,
}
use devrelay.Store.Listings.{record_audit_event_at}
use devrelay.Store.Pairings.{
  PairingSecrets, PairingStartRequest, start_pairing_session, confirm_pairing_session,
  abort_pairing_session, expire_pairing_sessions,
}

pub insert_session-Stays :
    (now : ℕ) (id project name : String) (parent workspace : Option String) (s : SessionState)
    (db : Db)
    → Stays db (insert_session now id project name parent workspace s db).1
unfolding insert_session
insert_session-Stays now id project name parent workspace s db = ground arith

pub default_session-Stays :
    (now : ℕ) (id project name : String) (workspace : Option String) (db : Db)
    → Stays db (ensure_default_session now id project name workspace db).1
unfolding ensure_default_session
default_session-Stays now id project name workspace db = ground arith

pub fork_session-Stays :
    (now : ℕ) (fork_id id name : String) (db : Db)
    → Stays db (fork_session now fork_id id name db).1
unfolding fork_session
fork_session-Stays now fork_id id name db = ground arith

pub archive_session-Stays :
    (now : ℕ) (id : String) (db : Db) → Stays db (archive_session now id db).1
unfolding archive_session
archive_session-Stays now id db = ground arith

pub decision-Stays :
    (project device scope hash : String) (decision : CommandTrustDecision) (now : ℕ) (db : Db)
    → Stays db (record_command_trust_decision_at project device scope hash decision now db).1
unfolding record_command_trust_decision_at
decision-Stays project device scope hash decision now db = ground arith

pub authorize-Stays :
    (project device scope hash : String) (now : ℕ) (db : Db)
    → Stays db (authorize_command_trust_at project device scope hash now db).1
unfolding authorize_command_trust_at
authorize-Stays project device scope hash now db = ground arith

pub start_pairing-Stays :
    (now : ℕ) (secrets : PairingSecrets) (request : PairingStartRequest) (db : Db)
    → Stays db (start_pairing_session now secrets request db).1
unfolding start_pairing_session
start_pairing-Stays now secrets request db = ground arith

pub confirm_pairing-Stays :
    (parses : Bool) (id code certificate : String) (now : ℕ) (db : Db)
    → Stays db (confirm_pairing_session parses id code certificate now db).1
unfolding confirm_pairing_session
confirm_pairing-Stays parses id code certificate now db = ground arith

pub abort_pairing-Stays :
    (id : String) (now : ℕ) (db : Db) → Stays db (abort_pairing_session id now db).1
unfolding abort_pairing_session
abort_pairing-Stays id now db = ground arith

pub expire_pairings-Stays : (now : ℕ) (db : Db) → Stays db (expire_pairing_sessions now db).1
unfolding expire_pairing_sessions
expire_pairings-Stays now db = record { handoffs = refl; leases = refl }

pub device-Stays :
    (device : DeviceIdentity) (db : Db) → Stays db (upsert_device_identity device db).1
unfolding upsert_device_identity
device-Stays device db = ground arith

pub fabric_root-Stays :
    (root : FabricRootIdentity) (db : Db) → Stays db (upsert_fabric_root_identity root db).1
unfolding upsert_fabric_root_identity
fabric_root-Stays root db = ground arith

pub public_identity-Stays :
    (device : DevicePublicIdentity) (db : Db) → Stays db (upsert_device_public_identity device db).1
unfolding upsert_device_public_identity
public_identity-Stays device db = ground arith

pub audit_event-Stays :
    (input : AuditEventInput) (now : ℕ) (db : Db) → Stays db (record_audit_event_at input now db).1
unfolding record_audit_event_at
audit_event-Stays input now db = ground arith

pub publish_canonical-Change :
    (to_json : SnapshotMetadata → Option String) (q : CanonicalPublishRequest) (db : Db)
    → Change db (publish_snapshot_canonical to_json q db).1
publish_canonical-Change to_json q db = elim (publish_outcome to_json q db) [
  | inl (e, same) ↦ stays (rw same (record { handoffs = refl; leases = refl }))
  | inr (lease, text, s, same) ↦
      elim (Option-cases (stale_reason q (lease_record_from_row lease))) [
        | inr (detail, late) ↦
            stays (record { handoffs = rw same refl; leases = rw same (rw late refl) })
        | inl fresh ↦ edits (lease_key q.lease_id) (latest_set to_json q db) (record {
          handoffs = rw same refl;
          leases = rw same (rw fresh refl);
          keys = λ r. refl;
          names = λ r. refl;
          epochs = λ r. refl;
          holders = λ r. refl;
          pending = λ r h. (λ x. x, λ x. x);
        })
      ]
]

forked_pending :
    (l : String) (r : LeaseRow)
    → is_inactive_lease l r ≡ true
    → ((fork_lease r).state ≡ Lease.as_str Lease.handoff_pending)
      ↔ (r.state ≡ Lease.as_str Lease.handoff_pending)
unfolding Lease.as_str
forked_pending l r h = (
  λ x. ground (arith, eq_iff "forked" "handoff-pending"),
  λ x. ground (arith, eq_iff r.state "inactive", eq_iff "inactive" "handoff-pending"),
)

pub publish_fork-Change :
    (to_json : SnapshotMetadata → Option String) (now : ℕ) (id : String)
    (q : InactiveForkPublishRequest) (db : Db)
    → Change db (publish_inactive_snapshot_as_fork to_json now id q db).1
publish_fork-Change to_json now id q db =
    elim (Result-cases (publish_inactive_snapshot_as_fork to_json now id q db).0) [
      | inr (e, h) ↦ stays (
          rw (fork_publish_refused to_json now id q db e h)
            (record { handoffs = refl; leases = refl }))
      | inl (r, h) ↦ edits (is_inactive_lease q.lease_id) fork_lease (record {
        handoffs = fork_publish_handoffs to_json now id q db;
        leases = fork_publish_leases to_json now id q db r h;
        keys = λ x. refl;
        names = λ x. refl;
        epochs = λ x. refl;
        holders = λ x. refl;
        pending = forked_pending q.lease_id;
      })
    ]
