-- ===== src/Store/Handoffs/Progress.antt =====
-- `begin_handoff`, `record_handoff_target_apply`, `mark_handoff_target_verified` and
-- `mark_handoff_source_ready` of crates/devrelay-core/src/storage.rs.
use devrelay.Prelude.{
  ℕ, String, ◌&&◌, not, Option, none, some, [], ◌∷◌, ◌++◌, max, ◌==◌, ◌is◌, is_some_of,
}
use devrelay.Prelude.Int.{as_i64, saturating_add}
use devrelay.Sql.{exists, update, count}
use devrelay.Lease
use devrelay.Lease.{LeaseRecord, LeaseState}
use devrelay.Handoff
use devrelay.Handoff.{
  HandoffState, HandoffRecord, HandoffJournalPhase, HandoffJournalRecord, HandoffRecoveryOutcome,
  target_prepare, target_verified, source_ready, committed, aborted, waiting_for_target,
  handoff_committed, aborted_expired, already_committed, already_aborted,
}
use devrelay.Store.Db.{Db, HandoffRow}
use devrelay.Store.Tx.{
  Result, Tx, guard, constrain, execute, commit_ok, transaction, ◌>>=◌, ◌>>◌, cannot_begin_from,
  source_does_not_hold_lease, cannot_record_apply, handoff_is_not,
}
use devrelay.Store.Revocations.{ensure_device_not_revoked}
use devrelay.Store.Handoffs.Queries.{
  Json, lease_key, handoff_key, lease_by_id, handoff_by_id, ensure_no_pending_handoff, has_project,
  insert_handoff_journal, normalize_journal_detail,
}

-- The row that `begin_handoff` inserts.
abbrev pub new_handoff_row : HandoffRecord → ℕ → HandoffRow
new_handoff_row handoff now = record {
  handoff_id = handoff.handoff_id;
  project_id = handoff.project_id;
  source_workspace_id = none;
  target_workspace_id = none;
  state = Handoff.as_str handoff.state;
  lease_id = some handoff.lease_id;
  expected_epoch = some (as_i64 handoff.expected_epoch);
  source_device_id = some handoff.source_device_id;
  target_device_id = some handoff.target_device_id;
  source_generation = some handoff.source_generation;
  expires_at_unix_seconds = some (as_i64 handoff.expires_at_unix_seconds);
  committed_at_unix_seconds = none;
  aborted_at_unix_seconds = none;
  created_at_unix_seconds = as_i64 now;
}

-- `INSERT INTO handoffs`, with its primary key and the foreign key to the project.
abbrev pub insert_handoff : HandoffRecord → ℕ → Tx (Unit {0})
insert_handoff handoff now = do
  constrain λ db.
      not (exists (handoff_key handoff.handoff_id) db.handoffs) && has_project handoff.project_id db
  execute λ db. record db { handoffs = db.handoffs ++ new_handoff_row handoff now ∷ [] }

-- `now` is `unix_now_seconds()`, and `handoff_id` what `generate_handoff_id()` returns.
unfoldable pub begin_handoff :
    (now : ℕ) (handoff_id lease_id source_device_id target_device_id source_generation : String)
    (ttl_seconds : ℕ)
    → Db
    → Result HandoffRecord × Db
unfolding lease_by_id ensure_no_pending_handoff ensure_device_not_revoked insert_handoff_journal
    update
begin_handoff now handoff_id lease_id source_device_id target_device_id source_generation
      ttl_seconds =
    transaction do
      lease ← lease_by_id lease_id
      ensure_no_pending_handoff lease_id
      guard (Lease.same_state lease.state Lease.active) (cannot_begin_from lease.state)
      guard (is_some_of lease.holder_device_id source_device_id) source_does_not_hold_lease
      ensure_device_not_revoked source_device_id "begin handoff"
      ensure_device_not_revoked target_device_id "begin handoff"
      let handoff : HandoffRecord = record {
        handoff_id = handoff_id;
        lease_id = lease_id;
        project_id = lease.project_id;
        expected_epoch = lease.epoch;
        source_device_id = source_device_id;
        target_device_id = target_device_id;
        source_generation = source_generation;
        expires_at_unix_seconds = saturating_add now (max ttl_seconds 1);
        state = target_prepare;
      }
      insert_handoff handoff now
      insert_handoff_journal handoff Handoff.begin "{}" now
      insert_handoff_journal handoff Handoff.prepare "{}" now
      execute λ db. record db {
        leases =
            update (lease_key lease_id)
              (λ r. record r {
                state = Lease.as_str Lease.handoff_pending;
                handoff_id = some handoff_id;
              })
              db.leases;
      }
      commit_ok handoff

unfoldable pub record_handoff_target_apply :
    Json → (now : ℕ) (handoff_id : String) → Option String → Db → Result HandoffJournalRecord × Db
unfolding handoff_by_id insert_handoff_journal
record_handoff_target_apply json now handoff_id detail_json = transaction do
  detail ← normalize_journal_detail json detail_json
  handoff ← handoff_by_id handoff_id
  guard (not (Handoff.is_terminal handoff.state)) (cannot_record_apply handoff.state)
  entry ← insert_handoff_journal handoff Handoff.apply detail now
  commit_ok entry

unfoldable pub update_handoff_state :
    (now : ℕ) (handoff_id : String) (expected next : HandoffState)
    → HandoffJournalPhase
    → Db
    → Result HandoffRecord × Db
unfolding handoff_by_id update count insert_handoff_journal
update_handoff_state now handoff_id expected next phase = transaction do
  handoff ← handoff_by_id handoff_id
  guard (Handoff.same_state handoff.state expected) (handoff_is_not handoff_id expected)
  let matches = λ (r : HandoffRow). handoff_key handoff_id r && r.state is Handoff.as_str expected
  λ db. guard (not (count matches db.handoffs == 0)) (handoff_is_not handoff_id expected) db
  execute λ db. record db {
    handoffs = update matches (λ r. record r { state = Handoff.as_str next }) db.handoffs;
  }
  let updated = record handoff { state = next }
  insert_handoff_journal updated phase "{}" now
  commit_ok updated

unfoldable pub mark_handoff_target_verified : ℕ → String → Db → Result HandoffRecord × Db
unfolding update_handoff_state
mark_handoff_target_verified now handoff_id =
    update_handoff_state now handoff_id target_prepare target_verified Handoff.verified

unfoldable pub mark_handoff_source_ready : ℕ → String → Db → Result HandoffRecord × Db
unfolding update_handoff_state
mark_handoff_source_ready now handoff_id =
    update_handoff_state now handoff_id target_verified source_ready Handoff.ready
