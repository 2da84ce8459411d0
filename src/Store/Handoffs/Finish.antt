-- ===== src/Store/Handoffs/Finish.antt =====
-- `abort_handoff_at`, `commit_handoff_inner` and `recover_handoff` of
-- crates/devrelay-core/src/storage.rs.
use devrelay.Prelude.{
  ℕ, String, Bool, ◌&&◌, not, Option, none, some, ltb, ◌==◌, ◌is◌, is_some_of, if◌then◌else◌,
}
use devrelay.Prelude.Int.{as_i64, eqb_ℤ, saturating_add}
use devrelay.Sql.{update, count}
use devrelay.Lease
use devrelay.Lease.{LeaseRecord, LeaseState}
use devrelay.Handoff
use devrelay.Handoff.{
  HandoffState, HandoffRecord, HandoffJournalPhase, HandoffJournalRecord, HandoffRecoveryOutcome,
  target_prepare, target_verified, source_ready, committed, aborted, waiting_for_target,
  handoff_committed, aborted_expired, already_committed, already_aborted,
}
use devrelay.Store.Db.{
  Db, LeaseRow, lease_transferred, succeeded, lease_transfer, during_lease_commit,
}
use devrelay.Store.Tx.{
  Result, ok, err, Tx, pure, fail, guard, execute, commit_ok, commit_err, transaction, ◌>>=◌, ◌>>◌,
  unknown_handoff, not_source_ready, commit_rejected, snapshot_project_mismatch,
  sidecars_unavailable, lost_lease_state_race, injected_fault, handoff_disappeared,
  cannot_abort_committed,
}
use devrelay.Store.Audit.{new_event, insert_audit_event_tx}
use devrelay.Store.Revocations.{ensure_device_not_revoked}
use devrelay.Store.Handoffs.Queries.{
  Json, lease_key, handoff_key, handoff_by_id, insert_handoff_journal, normalize_journal_detail,
  get_handoff,
}

-- `UPDATE handoffs SET state = 'aborted', aborted_at_unix_seconds = ?2 WHERE handoff_id = ?3`, then
-- `UPDATE leases SET state = 'active', handoff_id = NULL WHERE lease_id = ?2 AND handoff_id = ?3`.
abbrev pub release_lease : HandoffRecord → String → ℕ → Tx (Unit {0})
release_lease handoff handoff_id now = execute λ db. record db {
  handoffs =
      update (handoff_key handoff_id)
        (λ r. record r {
          state = Handoff.as_str aborted;
          aborted_at_unix_seconds = some (as_i64 now);
        })
        db.handoffs;
  leases =
      update (λ r. lease_key handoff.lease_id r && is_some_of r.handoff_id handoff_id)
        (λ r. record r { state = Lease.as_str Lease.active; handoff_id = none }) db.leases;
}

-- What follows the two early returns of `abort_handoff_at`.
abbrev abort_pending : Json → String → ℕ → String → HandoffRecord → Tx (Result HandoffRecord)
abort_pending json handoff_id now reason handoff = do
  release_lease handoff handoff_id now
  let abandoned : HandoffRecord = record handoff { state = aborted }
  detail ← normalize_journal_detail json (some (json.reason reason))
  insert_handoff_journal abandoned Handoff.abort detail now
  commit_ok abandoned

unfoldable pub abort_handoff_at :
    Json → (handoff_id : String) (now : ℕ) (reason : String) → Db → Result HandoffRecord × Db
unfolding handoff_by_id update insert_handoff_journal
abort_handoff_at json handoff_id now reason = transaction do
  handoff ← handoff_by_id handoff_id
  elim handoff.state [
    | committed ↦ fail cannot_abort_committed
    | aborted ↦ commit_ok handoff
    | _ ↦ abort_pending json handoff_id now reason handoff
  ]

-- `HandoffCommitSnapshotPreflight`: the snapshot's project, and what `ensure_sidecars_available`
-- answers for its sidecars, `some` if one is missing.
pub record SnapshotPreflight : Type 0 where
  pub project_id : String
  pub missing_sidecar : Option String

unfoldable pub verify_preflight : Option SnapshotPreflight → HandoffRecord → Tx (Unit {0})
verify_preflight none handoff db = pure tt db
verify_preflight (some preflight) handoff db =
    if not (preflight.project_id is handoff.project_id)
    then fail (snapshot_project_mismatch handoff.project_id preflight.project_id) db
    else elim preflight.missing_sidecar [
      | none ↦ pure tt db
      | some path ↦ fail (sidecars_unavailable path) db
    ]

unfoldable pub inject_metadata_db_fault : Tx (Unit {0})
inject_metadata_db_fault db = elim db.fault [
  | none ↦ pure tt db
  | some during_lease_commit ↦ fail injected_fault db
]

-- Why a commit gives the lease back instead.
abbrev pub abort_reason : HandoffRecord → String → ℕ → Option String
abort_reason handoff observed_source_generation now =
    if ltb handoff.expires_at_unix_seconds now
    then some "handoff expired"
    else if not (observed_source_generation is handoff.source_generation)
    then some "source generation changed"
    else none

-- The lease goes to the target under the next epoch, if it is still bound to this handoff.
abbrev pub is_bound_to : HandoffRecord → String → LeaseRow → Bool
is_bound_to handoff handoff_id r =
    lease_key handoff.lease_id r
    && (eqb_ℤ r.epoch (as_i64 handoff.expected_epoch) && is_some_of r.handoff_id handoff_id)

abbrev pub transfer_lease : HandoffRecord → String → Tx (Unit {0})
transfer_lease handoff handoff_id = do
  λ db. guard (count (is_bound_to handoff handoff_id) db.leases == 1) lost_lease_state_race db
  execute λ db. record db {
    leases =
        update (is_bound_to handoff handoff_id)
          (λ r. record r {
            state = Lease.as_str Lease.active;
            epoch = as_i64 (saturating_add handoff.expected_epoch 1);
            holder_device_id = some handoff.target_device_id;
            handoff_id = none;
          })
          db.leases;
  }

-- What follows the checks of `commit_handoff_inner`.
abbrev commit_pending :
    String → ℕ → Option SnapshotPreflight → HandoffRecord → Tx (Result (Unit {0}))
commit_pending handoff_id now preflight handoff = do
  ensure_device_not_revoked handoff.target_device_id "handoff commit"
  verify_preflight preflight handoff
  transfer_lease handoff handoff_id
  inject_metadata_db_fault
  execute λ db. record db {
    handoffs =
        update (handoff_key handoff_id)
          (λ r. record r {
            state = Handoff.as_str committed;
            committed_at_unix_seconds = some (as_i64 now);
          })
          db.handoffs;
  }
  insert_handoff_journal (record handoff { state = committed }) Handoff.lease_committed "{}" now
  insert_audit_event_tx
      (record (new_event lease_transferred succeeded "lease transferred to target device" (
        lease_transfer handoff.source_device_id handoff.target_device_id handoff.expected_epoch
          (saturating_add handoff.expected_epoch 1))) {
            project_id = some handoff.project_id;
            actor_device_id = some handoff.source_device_id;
            target_device_id = some handoff.target_device_id;
            lease_id = some handoff.lease_id;
            handoff_id = some handoff_id;
          })
      now
  commit_ok tt

-- `self.get_handoff(handoff_id)?.ok_or_else(...)`, after the transaction.
abbrev reread : String → Result (Unit {0}) × Db → Result HandoffRecord × Db
reread handoff_id (err e, db) = (err e, db)
reread handoff_id (ok _, db) = elim (get_handoff handoff_id db) [
  | none ↦ (err handoff_disappeared, db)
  | some handoff ↦ (ok handoff, db)
]

abbrev commit_body :
    (handoff_id observed_source_generation : String) (now : ℕ)
    → Option SnapshotPreflight
    → Tx (Result (Unit {0}))
commit_body handoff_id observed_source_generation now preflight = do
  handoff ← handoff_by_id handoff_id
  guard (Handoff.same_state handoff.state source_ready) (not_source_ready handoff.state)
  elim (abort_reason handoff observed_source_generation now) [
    | some reason ↦ do release_lease handoff handoff_id now; commit_err (commit_rejected reason)
    | none ↦ commit_pending handoff_id now preflight handoff
  ]

-- `commit_handoff` passes no preflight.
unfoldable pub commit_handoff_inner :
    (handoff_id observed_source_generation : String) (now : ℕ)
    → Option SnapshotPreflight
    → Db
    → Result HandoffRecord × Db
unfolding handoff_by_id ensure_device_not_revoked verify_preflight count update
    inject_metadata_db_fault insert_handoff_journal insert_audit_event_tx
commit_handoff_inner handoff_id observed_source_generation now preflight db =
    reread handoff_id
      (transaction (commit_body handoff_id observed_source_generation now preflight) db)

abbrev replace : {A B : Type 0} → B → Result A × Db → Result B × Db
replace outcome (ok _, db) = (ok outcome, db)
replace outcome (err e, db) = (err e, db)

unfoldable pub recover_handoff :
    Json
    → (handoff_id observed_source_generation : String) (now : ℕ) → Db
    → Result HandoffRecoveryOutcome × Db
unfolding get_handoff abort_handoff_at commit_handoff_inner
recover_handoff json handoff_id observed_source_generation now db =
    elim (get_handoff handoff_id db) [
      | none ↦ (err (unknown_handoff handoff_id), db)
      | some handoff ↦
          let expired : Result HandoffRecoveryOutcome × Db =
            replace aborted_expired
              (abort_handoff_at json handoff_id now "expired during recovery" db) in
          let commits : Result HandoffRecoveryOutcome × Db =
            replace handoff_committed
              (commit_handoff_inner handoff_id observed_source_generation now none db) in
          if Handoff.same_state handoff.state committed
          then (ok already_committed, db)
          else if Handoff.same_state handoff.state aborted
          then (ok already_aborted, db)
          else if ltb handoff.expires_at_unix_seconds now
          then expired
          else if Handoff.same_state handoff.state source_ready
          then commits
          else (ok waiting_for_target, db)
    ]
