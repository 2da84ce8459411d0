-- ===== src/Store/Handoffs/Queries.antt =====
-- Lookups of leases and handoffs, and the journal's insert (crates/devrelay-core/src/storage.rs).
use Prim.Native.String.{compare}
use Prim.Native.Nat.{Ordering}
use devrelay.Prelude.{
  ℕ, suc, ◌≡◌, String, Bool, true, false, ◌&&◌, ◌||◌, not, Option, none, some, [], ◌∷◌, ◌++◌, ◌is◌,
  is_some_of,
}
use devrelay.Prelude.Int.{as_i64, eqb_ℤ, ltb_ℤ}
use devrelay.Sql.{find, exists, filter, earliest}
use devrelay.Lease.{LeaseRecord}
use devrelay.Handoff
use devrelay.Handoff.{
  HandoffState, HandoffRecord, HandoffJournalPhase, HandoffJournalRecord, HandoffRecoveryOutcome,
  target_prepare, target_verified, source_ready, committed, aborted, waiting_for_target,
  handoff_committed, aborted_expired, already_committed, already_aborted,
}
use devrelay.Store.Db.{
  Db, ProjectRow, LeaseRow, HandoffRow, lease_record_from_row, handoff_record_from_row,
}
use devrelay.Store.Tx.{
  Tx, pure, fail, constrain, execute, ◌>>◌, unknown_lease, unknown_handoff, handoff_already_pending,
  invalid_json,
}

-- What serde_json does for the journal's details: `normalize` parses a text and prints the value
-- again, `none` if it does not parse; `reason` prints `{"reason": ...}`, which parses.
pub record Json : Type 0 where
  pub normalize : String → Option String
  pub reason : String → String
  pub reason_parses : (r : String) → normalize (reason r) ≡ some (reason r)

abbrev pub lease_key : String → LeaseRow → Bool
lease_key lease_id row = row.lease_id is lease_id

abbrev pub handoff_key : String → HandoffRow → Bool
handoff_key handoff_id row = row.handoff_id is handoff_id

unfoldable pub lease_by_id : String → Tx LeaseRecord
unfolding find lease_record_from_row
lease_by_id lease_id db = elim (find (lease_key lease_id) db.leases) [
  | none ↦ fail (unknown_lease lease_id) db
  | some row ↦ pure (lease_record_from_row row) db
]

unfoldable pub get_handoff : String → Db → Option HandoffRecord
unfolding find handoff_record_from_row
get_handoff handoff_id db = elim (find (handoff_key handoff_id) db.handoffs) [
  | none ↦ none
  | some row ↦ some (handoff_record_from_row row)
]

unfoldable pub handoff_by_id : String → Tx HandoffRecord
unfolding get_handoff
handoff_by_id handoff_id db = elim (get_handoff handoff_id db) [
  | none ↦ fail (unknown_handoff handoff_id) db
  | some handoff ↦ pure handoff db
]

-- `WHERE lease_id = ?1 AND state NOT IN ('committed', 'aborted')`
abbrev pub is_pending_for : String → HandoffRow → Bool
is_pending_for lease_id row =
    is_some_of row.lease_id lease_id && not (row.state is "committed" || row.state is "aborted")

-- `ORDER BY created_at_unix_seconds ASC, handoff_id ASC`
abbrev pub created_before : HandoffRow → HandoffRow → Bool
created_before a b =
    ltb_ℤ a.created_at_unix_seconds b.created_at_unix_seconds
    || eqb_ℤ a.created_at_unix_seconds b.created_at_unix_seconds
      && elim (compare a.handoff_id b.handoff_id) [ Ordering.lt ↦ true | _ ↦ false ]

unfoldable pub pending_handoff : String → Db → Option HandoffRow
unfolding filter earliest
pending_handoff lease_id db = earliest created_before (filter (is_pending_for lease_id) db.handoffs)

unfoldable pub ensure_no_pending_handoff : String → Tx (Unit {0})
unfolding pending_handoff
ensure_no_pending_handoff lease_id db = elim (pending_handoff lease_id db) [
  | none ↦ pure tt db
  | some existing ↦ fail (handoff_already_pending existing.handoff_id) db
]

abbrev pub has_project : String → Db → Bool
has_project project_id db = exists (λ (p : ProjectRow). p.project_id is project_id) db.projects

-- `INSERT INTO handoff_journal`, with its two foreign keys.
unfoldable pub insert_handoff_journal :
    HandoffRecord → HandoffJournalPhase → String → ℕ → Tx HandoffJournalRecord
unfolding exists
insert_handoff_journal handoff phase detail_json now = do
  constrain
      λ db. exists (handoff_key handoff.handoff_id) db.handoffs && has_project handoff.project_id db
  execute λ db. record db {
    handoff_journal =
        db.handoff_journal
        ++ record {
          journal_id = suc db.journal_sequence;
          handoff_id = handoff.handoff_id;
          lease_id = handoff.lease_id;
          project_id = handoff.project_id;
          phase = Handoff.phase_as_str phase;
          detail_json = detail_json;
          created_at_unix_seconds = as_i64 now;
        }
          ∷ [];
    journal_sequence = suc db.journal_sequence;
  }
  λ db.
      pure
        (record {
          journal_id = db.journal_sequence;
          handoff_id = handoff.handoff_id;
          lease_id = handoff.lease_id;
          project_id = handoff.project_id;
          phase = phase;
          detail_json = detail_json;
          created_at_unix_seconds = now;
        })
        db

abbrev pub normalize_journal_detail : Json → Option String → Tx String
normalize_journal_detail json none db = pure "{}" db
normalize_journal_detail json (some detail) db = elim (json.normalize detail) [
  | none ↦ fail invalid_json db
  | some text ↦ pure text db
]
